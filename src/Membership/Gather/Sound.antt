-- ===== src/Membership/Gather/Sound.antt =====
-- The reps that Memb_token_loss of spread-src-4.4.0/daemon/membership.c inserts.
use tf.Prelude.{
  ℕ, zero, suc, ◌+◌, ◌≤◌, ◌≡◌, inl, inr, refl, arith, Bool, true, false, ◌&&◌, ◌==◌, leb, none,
  some, List, [], ◌∷◌, length, get_or, Yields, Yields-bind, Yields-some, Bool-cases, Option-cases,
}
use tf.Configuration.{Proc, Configuration, no_segment, seg_leader, proc_by_id_in_conf}
use tf.Membership.Reps.{RepInfo, insert_rep}
use tf.Membership.Reps.Insert.{IsReps, IsRepOf, Pass, is_type, insert_rep-Inserted}
use tf.Membership.Gather.{insert_reps, insert_segments, last_type}

-- A daemon of the configuration under its own id, in the segment.
abbrev pub is_known : Configuration → (id seg_index : ℕ) → Bool
is_known cn id seg_index = elim (proc_by_id_in_conf cn id) [
  | none ↦ false
  | some (_, p) ↦ p.id == id && p.seg_index == seg_index
]

-- A rep of one of the three types and of such a daemon.
abbrev pub is_sound : Configuration → RepInfo → Bool
is_sound cn x = is_known cn x.proc_id x.seg_index && is_type x

abbrev pub IsSound : Configuration → List RepInfo → Type 0
IsSound cn r = IsReps r × Pass (is_sound cn) r

is_sound-IsRepOf :
    (cn : Configuration) (x : RepInfo)
    → is_known cn x.proc_id x.seg_index ≡ true
    → (p : Proc) × IsRepOf cn x p
is_sound-IsRepOf cn x h = elim (Option-cases (proc_by_id_in_conf cn x.proc_id)) [
  | inl unknown ↦ absurd (ground (arith, h, unknown))
  | inr ((i, p), known) ↦ (
    p,
    record {
      index = i;
      known = known;
      own_id = ground (arith, h, known);
      own_seg = ground (arith, h, known);
    },
  )
]

module _ (cn : Configuration) where
  -- Insert_rep keeps reps sound.
  pub insert_rep-IsSound :
      (x : RepInfo) (r : List RepInfo)
      → is_sound cn x ≡ true
      → IsSound cn r
      → Yields (λ (new, r'). IsSound cn r') (insert_rep cn x r)
  insert_rep-IsSound x r h (good, sound) =
      let (p, of) = is_sound-IsRepOf cn x (ground (arith, h)) in
      let (new, r', e, after) = insert_rep-Inserted cn x p r of (ground (arith, h)) good in
      Yields-some _ _ e (after.well_formed, after.only (is_sound cn) sound h)

  pub insert_reps-IsSound :
      (xs r : List RepInfo)
      → Pass (is_sound cn) xs
      → IsSound cn r
      → Yields (IsSound cn) (insert_reps cn xs r)
  unfolding insert_reps
  insert_reps-IsSound [] r h s = s
  insert_reps-IsSound (x ∷ xs) r h s =
      Yields-bind _ (IsSound cn) (insert_rep cn x r) _ (insert_rep-IsSound x r h.0 s)
        (λ a t. insert_reps-IsSound xs a.1 h.1 t)

  -- The first daemon of a segment, if there is one.
  abbrev pub FirstKnown : List Proc → (seg_index : ℕ) → Type 0
  FirstKnown [] i = Unit
  FirstKnown (p ∷ ps) i = is_known cn p.id i ≡ true

  abbrev pub IsRing : Configuration → Type 0
  IsRing ring = (i : ℕ) → FirstKnown (get_or ring.segments i no_segment).procs i

  -- Each segment of the configuration has a leader, under its own id.
  abbrev pub HasLeaders : Type 0
  HasLeaders =
      (i : ℕ)
      → suc i ≤ length cn.segments
      → (l : ℕ) × (seg_leader cn i ≡ some l) × (is_known cn l i ≡ true)

  pub insert_segments-IsSound :
      (my : Proc) (ring : Configuration) (type n i : ℕ) (r : List RepInfo)
      → HasLeaders
      → IsRing ring
      → leb type 2 ≡ true
      → i + n ≤ length cn.segments
      → IsSound cn r
      → Yields (IsSound cn) (insert_segments cn my ring type n i r)
  unfolding insert_segments
  insert_segments-IsSound my ring type zero i r leaders rings typed h s = s
  insert_segments-IsSound my ring type (suc n) i r leaders rings typed h s =
      elim (Bool-cases (i == my.seg_index)) [
        | inl own ↦ rw own (
            insert_segments-IsSound my ring type n (i + 1) r leaders rings typed (omega (arith, h))
              s)
        | inr other ↦ rw other (
            Yields-bind (λ id. is_known cn id i ≡ true) (IsSound cn) _ _
              (first (get_or ring.segments i no_segment).procs (rings i))
              (λ id known.
                Yields-bind (λ (new, r'). IsSound cn r') (IsSound cn) _ _
                  (insert_rep-IsSound (record { proc_id = id; type = type; seg_index = i }) r
                    (ground (arith, known, typed)) s)
                  (λ (a : Bool × List RepInfo) (t : IsSound cn a.1).
                    insert_segments-IsSound my ring type n (i + 1) a.1 leaders rings typed
                      (omega (arith, h)) t)))
      ]
    where
      first :
          (ps : List Proc)
          → FirstKnown ps i
          → Yields
              (λ id. is_known cn id i ≡ true)
              (elim ps [ p ∷ _ ↦ some p.id | [] ↦ seg_leader cn i ])
      first (p ∷ ps) k = k
      first [] k = let (l, e, known) = leaders i (omega (arith, h)) in Yields-some _ _ e known

  pub last_type-is_type : (xs : List RepInfo) → Pass (is_sound cn) xs → leb (last_type xs) 2 ≡ true
  last_type-is_type [] h = refl
  last_type-is_type (x ∷ []) h = ground (arith, h.0)
  last_type-is_type (x ∷ y ∷ ys) h = last_type-is_type (y ∷ ys) h.1
