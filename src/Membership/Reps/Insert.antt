-- ===== src/Membership/Reps/Insert.antt =====
-- Insert_rep of spread-src-4.4.0/daemon/membership.c.
use mathlib.Core.Option
use tf.Prelude.{
  ℕ, ◌≤◌, ◌≡◌, ◌⊎◌, ◌↔◌, inl, inr, refl, ap, ◌∙◌, arith, Bool, true, false, not, ◌&&◌, ◌||◌, ◌==◌,
  leb, if◌then◌else◌, Option, none, some, List, [], ◌∷◌, ◌++◌, length, length-append, All,
  Bool-cases, Option-cases,
}
use tf.Configuration.{Proc, Configuration, proc_by_id_in_conf}
use tf.Membership.Reps.{
  RepInfo, potential_rep, seg_rep, ring_rep, max_reps, has_seg, seg_loop, ring_loop, add_rep,
  loop_or_add, insert_rep,
}

-- Reps of one segment: neither is a potential one, and they are different daemons.
abbrev pub apart : RepInfo → RepInfo → Bool
apart x y =
    not (x.seg_index == y.seg_index)
    || (not (x.type == potential_rep)
        && (not (y.type == potential_rep) && not (x.proc_id == y.proc_id)))

abbrev pub Apart : List RepInfo → Type 0
Apart [] = Unit
Apart (x ∷ xs) = All (λ y. apart x y ≡ true) xs × Apart xs

abbrev pub is_type : RepInfo → Bool
is_type x = leb x.type ring_rep

-- A potential rep is alone in its segment, no segment has a daemon twice, and MAX_REPS is kept.
pub record IsReps (r : List RepInfo) : Type 0 where
  pub few : length r ≤ max_reps
  pub typed : All (λ x. is_type x ≡ true) r
  pub separate : Apart r

-- Is the rep there?
abbrev pub holds : RepInfo → List RepInfo → Bool
holds rep [] = false
holds rep (x ∷ xs) =
    (x.proc_id == rep.proc_id && (x.type == rep.type && x.seg_index == rep.seg_index))
    || holds rep xs

-- A rep of a daemon under its own id and in its own segment.
pub record IsRepOf (cn : Configuration) (rep : RepInfo) (p : Proc) : Type 0 where
  pub index : ℕ
  pub known : proc_by_id_in_conf cn rep.proc_id ≡ some (index, p)
  pub own_id : p.id ≡ rep.proc_id
  pub own_seg : p.seg_index ≡ rep.seg_index

-- Every rep passes the test.
abbrev pub Pass : (RepInfo → Bool) → List RepInfo → Type 0
Pass t = All (λ x. t x ≡ true)

-- What a loop does for a rep: it finds a place and keeps the reps apart, or none of them is in the
-- way of the new rep.
record Replaced (rep : RepInfo) (xs ys : List RepInfo) : Type 0 where
  same_length : length ys ≡ length xs
  typed : All (λ x. is_type x ≡ true) xs → All (λ x. is_type x ≡ true) ys
  around : (z : RepInfo) → All (λ y. apart z y ≡ true) xs → All (λ y. apart z y ≡ true) ys
  separate : Apart xs → Apart ys
  there : holds rep ys ≡ true
  only : (t : RepInfo → Bool) → Pass t xs → t rep ≡ true → Pass t ys

abbrev LoopResult : RepInfo → List RepInfo → Option (Bool × List RepInfo) → Type 0
LoopResult rep xs none = All (λ x. is_type x ≡ true) xs → All (λ x. apart x rep ≡ true) xs
LoopResult rep xs (some (new, ys)) = Replaced rep xs ys

RepInfo-eq :
    (x y : RepInfo)
    → (x.proc_id == y.proc_id && (x.type == y.type && x.seg_index == y.seg_index)) ≡ true
    → x ≡ y
RepInfo-eq x y e =
    let id : x.proc_id ≡ y.proc_id = ground (arith, e) in
    let type : x.type ≡ y.type = ground (arith, e) in
    let seg : x.seg_index ≡ y.seg_index = ground (arith, e) in
    λ i. record { proc_id = id i; type = type i; seg_index = seg i }

-- One rep is written anew, as `rep`: a potential one, or one of the same daemon.
Replaced-head :
    (rep x x' : RepInfo) (xs : List RepInfo)
    → holds rep (x' ∷ []) ≡ true
    → is_type x' ≡ true
    → (x.seg_index == x'.seg_index) ≡ true
    → (not (x'.type == potential_rep) && (x.type == potential_rep || x.proc_id == x'.proc_id))
      ≡ true
    → Replaced rep (x ∷ xs) (x' ∷ xs)
Replaced-head rep x x' xs there typed same_seg replaces = record {
  same_length = refl;
  typed = λ h. (typed, h.1);
  around = λ z h. (ground (arith, h.0), h.1);
  separate = λ h. (apart_from xs h.0, h.1);
  there = ground arith;
  only = λ t h k. (ap t (RepInfo-eq x' rep (ground arith)) ∙ k, h.1);
}
  where
    apart_from :
        (ys : List RepInfo) → All (λ y. apart x y ≡ true) ys → All (λ y. apart x' y ≡ true) ys
    apart_from [] h = tt
    apart_from (y ∷ ys) h = (ground (arith, h.0), apart_from ys h.1)

Replaced-tail :
    (rep x : RepInfo) (xs ys : List RepInfo) → Replaced rep xs ys → Replaced rep (x ∷ xs) (x ∷ ys)
Replaced-tail rep x xs ys d = record {
  same_length = omega (arith, d.same_length);
  typed = λ h. (h.0, d.typed h.1);
  around = λ z h. (h.0, d.around z h.1);
  separate = λ h. (d.around x h.0, d.separate h.1);
  there = ground (arith, d.there);
  only = λ t h k. (h.0, d.only t h.1 k);
}

LoopResult-tail :
    (rep x : RepInfo) (xs : List RepInfo) (o : Option (Bool × List RepInfo))
    → (is_type x ≡ true → apart x rep ≡ true)
    → LoopResult rep xs o
    → LoopResult rep (x ∷ xs) (Option.map (λ (new, ys). (new, x ∷ ys)) o)
LoopResult-tail rep x xs none far h = λ typed. (far typed.0, h typed.1)
LoopResult-tail rep x xs (some (new, ys)) far h = Replaced-tail rep x xs ys h

module _ (rep : RepInfo) (p : Proc) (own_id : p.id ≡ rep.proc_id)
    (own_seg : p.seg_index ≡ rep.seg_index) where
  seg_loop-LoopResult : rep.type ≡ seg_rep → (xs : List RepInfo) → LoopResult rep xs (seg_loop p xs)
  unfolding seg_loop
  seg_loop-LoopResult is_rep [] = λ h. tt
  seg_loop-LoopResult is_rep (x ∷ xs) =
      let skip = λ (far : is_type x ≡ true → apart x rep ≡ true).
        LoopResult-tail rep x xs (seg_loop p xs) far (seg_loop-LoopResult is_rep xs) in
      elim (Bool-cases (x.seg_index == p.seg_index)) [
        | inr away ↦ rw away (skip (λ h. ground arith))
        | inl here ↦ rw here (elim (Bool-cases (x.type == potential_rep)) [
          | inl potential ↦
              rw potential (
                Replaced-head rep x _ xs (ground arith) (ground arith) (ground arith)
                  (ground arith))
          | inr taken ↦ rw taken (elim (Bool-cases (x.type == seg_rep)) [
            | inl seg ↦ rw seg (elim (Bool-cases (x.proc_id == p.id)) [
              | inl same ↦ rw same (
                  Replaced-head rep x _ xs (ground arith) (ground arith) (ground arith)
                    (ground arith))
              | inr other ↦ rw other (skip (λ h. ground arith))
            ])
            | inr not_seg ↦
                rw not_seg (elim (Bool-cases (x.type == ring_rep && x.proc_id == p.id)) [
                  | inl ring ↦ rw ring (
                      Replaced-head rep x _ xs (ground arith) (ground arith) (ground arith)
                        (ground arith))
                  | inr other ↦ rw other (skip (λ h. ground arith))
                ])
          ])
        ])
      ]

  ring_loop-LoopResult :
      rep.type ≡ ring_rep → (xs : List RepInfo) → LoopResult rep xs (ring_loop p xs)
  unfolding ring_loop
  ring_loop-LoopResult is_rep [] = λ h. tt
  ring_loop-LoopResult is_rep (x ∷ xs) =
      let skip = λ (far : is_type x ≡ true → apart x rep ≡ true).
        LoopResult-tail rep x xs (ring_loop p xs) far (ring_loop-LoopResult is_rep xs) in
      elim (Bool-cases (x.seg_index == p.seg_index)) [
        | inr away ↦ rw away (skip (λ h. ground arith))
        | inl here ↦ rw here (elim (Bool-cases (x.type == potential_rep)) [
          | inl potential ↦
              rw potential (
                Replaced-head rep x _ xs (ground arith) (ground arith) (ground arith)
                  (ground arith))
          | inr taken ↦ rw taken (elim (Bool-cases (x.type == seg_rep)) [
            | inl seg ↦ rw seg (elim (Bool-cases (x.proc_id == p.id)) [
              | inl same ↦ rw same (
                  Replaced-head rep x _ xs (ground arith) (ground arith) (ground arith)
                    (ground arith))
              | inr other ↦ rw other (skip (λ h. ground arith))
            ])
            | inr not_seg ↦
                rw not_seg (elim (Bool-cases (x.type == ring_rep && x.proc_id == p.id)) [
                  | inl ring ↦ rw ring (
                      Replaced-head rep x _ xs (ground arith) (ground arith) (ground arith)
                        (ground arith))
                  | inr other ↦ rw other (skip (λ h. ground arith))
                ])
          ])
        ])
      ]

-- What an insertion of `rep` into `r` leaves.
pub record Inserted (rep : RepInfo) (r r' : List RepInfo) : Type 0 where
  pub well_formed : IsReps r'
  pub represented :
      (length r ≡ max_reps)
      ⊎ (((rep.type ≡ potential_rep) × (has_seg r' rep.seg_index ≡ true)) ⊎ (holds rep r' ≡ true))
  pub only : (t : RepInfo → Bool) → Pass t r → t rep ≡ true → Pass t r'

holds-append : (rep : RepInfo) (r : List RepInfo) → holds rep (r ++ (rep ∷ [])) ≡ true
holds-append rep [] = ground arith
holds-append rep (x ∷ xs) = ground (arith, holds-append rep xs)

All-append :
    (P : RepInfo → Type 0) (xs : List RepInfo) (y : RepInfo)
    → All P xs
    → P y
    → All P (xs ++ (y ∷ []))
All-append P [] y h k = (k, tt)
All-append P (x ∷ xs) y h k = (h.0, All-append P xs y h.1 k)

Apart-append :
    (rep : RepInfo) (xs : List RepInfo)
    → Apart xs
    → All (λ x. apart x rep ≡ true) xs
    → Apart (xs ++ (rep ∷ []))
Apart-append rep [] h k = (tt, tt)
Apart-append rep (x ∷ xs) h k =
    (All-append (λ y. apart x y ≡ true) xs rep h.0 k.0, Apart-append rep xs h.1 k.1)

module _ (rep : RepInfo) (r : List RepInfo) (good : IsReps r) (typed : is_type rep ≡ true) where
  add_rep-Inserted :
      All (λ x. apart x rep ≡ true) r → Inserted rep r (let (new, r') = add_rep rep r in r')
  unfolding add_rep
  add_rep-Inserted free = elim (Bool-cases (length r == max_reps)) [
    | inl full ↦
        rw full (record { well_formed = good; represented = inl (ground arith); only = λ t h k. h })
    | inr room ↦ rw room (record {
      well_formed = record {
        few = ground (arith, good.few, length-append r (rep ∷ []));
        typed = All-append (λ x. is_type x ≡ true) r rep good.typed typed;
        separate = Apart-append rep r good.separate free;
      };
      represented = inr (inr (holds-append rep r));
      only = λ t h k. All-append (λ x. t x ≡ true) r rep h k;
    })
  ]

  loop_or_add-Inserted :
      (o : Option (Bool × List RepInfo))
      → LoopResult rep r o
      → Inserted rep r (let (new, r') = loop_or_add rep r o in r')
  unfolding loop_or_add
  loop_or_add-Inserted none h = add_rep-Inserted (h good.typed)
  loop_or_add-Inserted (some (new, ys)) h = record {
    well_formed = record {
      few = omega (arith, h.same_length, good.few);
      typed = h.typed good.typed;
      separate = h.separate good.separate;
    };
    represented = inr (inr h.there);
    only = h.only;
  }

has_seg-apart :
    (rep : RepInfo) (xs : List RepInfo)
    → has_seg xs rep.seg_index ≡ false
    → All (λ x. apart x rep ≡ true) xs
unfolding has_seg
has_seg-apart rep [] h = tt
has_seg-apart rep (x ∷ xs) h = (ground arith, has_seg-apart rep xs (ground arith))

insert_rep-known :
    (cn : Configuration) (rep : RepInfo) (r : List RepInfo) (i : ℕ) (p : Proc)
    → proc_by_id_in_conf cn rep.proc_id ≡ some (i, p)
    → insert_rep cn rep r ≡ (
        if rep.type == potential_rep
        then some (if has_seg r p.seg_index then (false, r) else add_rep rep r)
        else if rep.type == seg_rep
        then some (loop_or_add rep r (seg_loop p r))
        else if rep.type == ring_rep
        then some (loop_or_add rep r (ring_loop p r))
        else none)
unfolding insert_rep
insert_rep-known cn rep r i p known = ground (arith, known)

-- Insert_rep of a rep of one of the three types, that names a daemon of the configuration by its own
-- id and in its own segment, returns. It keeps the reps well-formed: at most MAX_REPS, a potential
-- rep alone in its segment, no daemon twice. Afterwards the rep is there, or, for a potential one, a
-- rep of its segment, unless the reps were full.
pub insert_rep-Inserted :
    (cn : Configuration) (rep : RepInfo) (p : Proc) (r : List RepInfo)
    → IsRepOf cn rep p
    → is_type rep ≡ true
    → IsReps r
    → (new : Bool) × (r' : List RepInfo) × (insert_rep cn rep r ≡ some (new, r'))
      × Inserted rep r r'
insert_rep-Inserted cn rep p r of typed good =
    rw (insert_rep-known cn rep r of.index p of.known)
      (elim (Bool-cases (rep.type == potential_rep)) [
        | inl potential ↦ rw potential (elim (Bool-cases (has_seg r p.seg_index)) [
          | inl there ↦ rw there (
            false,
            r,
            refl,
            record {
              well_formed = good;
              represented = inr (inl (ground arith, rw of.own_seg at there));
              only = λ t h k. h;
            },
          )
          | inr free ↦ rw free (
            _,
            _,
            refl,
            add_rep-Inserted rep r good typed (has_seg-apart rep r (rw of.own_seg at free)),
          )
        ])
        | inr real ↦ rw real (elim (Bool-cases (rep.type == seg_rep)) [
          | inl seg ↦ rw seg (
            _,
            _,
            refl,
            loop_or_add-Inserted rep r good typed (seg_loop p r)
                (seg_loop-LoopResult rep p of.own_id of.own_seg (ground arith) r),
          )
          | inr other ↦ rw other (elim (Bool-cases (rep.type == ring_rep)) [
            | inl ring ↦ rw ring (
              _,
              _,
              refl,
              loop_or_add-Inserted rep r good typed (ring_loop p r)
                  (ring_loop-LoopResult rep p of.own_id of.own_seg (ground arith) r),
            )
            | inr wrong ↦ absurd (ground arith)
          ])
        ])
      ])

-- Insert_rep ends the process if and only if the daemon is not known or the type is none of the
-- three.
pub insert_rep-exits :
    (cn : Configuration) (rep : RepInfo) (r : List RepInfo)
    → (insert_rep cn rep r ≡ none)
      ↔ ((proc_by_id_in_conf cn rep.proc_id ≡ none) ⊎ (is_type rep ≡ false))
unfolding insert_rep
insert_rep-exits cn rep r = elim (Option-cases (proc_by_id_in_conf cn rep.proc_id)) [
  | inl unknown ↦ ground (arith, unknown)
  | inr ((i, p), known) ↦ ground (arith, known)
]
