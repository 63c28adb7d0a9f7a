-- ===== src/Membership/Reps/Smallest.antt =====
-- Smallest_rep and Sort_reps of spread-src-4.4.0/daemon/membership.c.
use mathlib.Core.Option
use tf.Prelude.{
  ℕ, suc, ◌+◌, ◌<◌, ◌≡◌, ◌⊎◌, inl, inr, refl, sym, subst, arith, Bool, true, false, ◌&&◌, ◌||◌,
  ◌==◌, ltb, if◌then◌else◌, Option, some, List, [], ◌∷◌, length, get_or, All, Bool-cases,
}
use tf.Configuration.{Configuration}
use tf.Membership.Selection.{Sorted, NoneBefore, selection-Sorted}
use tf.Membership.Members.Smallest.{proc_of, IsKnown}
use tf.Membership.Reps.{
  RepInfo, seg_rep, ring_rep, no_rep, takes_over, smallest_rep_from, smallest_rep, sort_reps,
}

module _ (cn : Configuration) where
  abbrev pub place : RepInfo → ℕ
  place x = (proc_of cn x.proc_id).index_in_seg

  -- The order of the reps: those of segments first, by segment; then those of rings, by segment and
  -- by the place of the daemon in its segment.
  abbrev pub rep_before : RepInfo → RepInfo → Bool
  rep_before y x =
      if y.type == seg_rep
      then (if x.type == seg_rep then ltb y.seg_index x.seg_index else true)
      else if x.type == seg_rep
      then false
      else ltb y.seg_index x.seg_index || (y.seg_index == x.seg_index && ltb (place y) (place x))

  -- A rep of a known daemon, that is not a potential one.
  abbrev pub IsSettled : RepInfo → Type 0
  IsSettled x = IsKnown cn x.proc_id × ((x.type == seg_rep || x.type == ring_rep) ≡ true)

  takes_over-rep_before :
      (x curr : RepInfo)
      → IsSettled x
      → IsSettled curr
      → takes_over cn x curr ≡ some (rep_before x curr)
  unfolding takes_over
  takes_over-rep_before x curr ((i, p, known_x), type_x) ((j, q, known_curr), type_curr) =
      ground (arith, known_x, known_curr)

  rep_before_trans :
      (p q r : RepInfo) → rep_before r p ≡ false → rep_before p q ≡ false → rep_before r q ≡ false
  rep_before_trans p q r h k = ground arith

  rep_before_asymm : (p q : RepInfo) → rep_before p q ≡ true → rep_before q p ≡ false
  rep_before_asymm p q h = ground arith

  rep_before_irrefl : (p : RepInfo) → rep_before p p ≡ false
  rep_before_irrefl p = ground arith

  -- What the loop of Smallest_rep finds: the index `k` of the rep `q`.
  record Found (p : RepInfo) (current i : ℕ) (xs : List RepInfo) (o : Option (ℕ × RepInfo))
      : Type 0 where
    k : ℕ
    q : RepInfo
    found : o ≡ some (k, q)
    none_before : NoneBefore no_rep rep_before q xs
    not_p : rep_before p q ≡ false
    at :
        ((k ≡ current) × (q ≡ p))
        ⊎ ((j : ℕ) × (k ≡ i + j) × (j < length xs) × (get_or xs j no_rep ≡ q))

  Found-moved :
      (p x : RepInfo) (current i : ℕ) (xs : List RepInfo) (o : Option (ℕ × RepInfo))
      → rep_before x p ≡ true
      → Found x i (i + 1) xs o
      → Found p current i (x ∷ xs) o
  Found-moved p x current i xs o before m = record {
    k = m.k;
    q = m.q;
    found = m.found;
    none_before = (m.not_p, m.none_before);
    not_p = rep_before_trans x m.q p (rep_before_asymm x p before) m.not_p;
    at = elim m.at [
      | inl (here, same) ↦ inr (0, omega (arith, here), omega arith, sym same)
      | inr (j, offset, inside, that) ↦
          inr (suc j, omega (arith, offset), omega (arith, inside), that)
    ];
  }

  Found-kept :
      (p x : RepInfo) (current i : ℕ) (xs : List RepInfo) (o : Option (ℕ × RepInfo))
      → rep_before x p ≡ false
      → Found p current (i + 1) xs o
      → Found p current i (x ∷ xs) o
  Found-kept p x current i xs o later m = record {
    k = m.k;
    q = m.q;
    found = m.found;
    none_before = (rep_before_trans p m.q x later m.not_p, m.none_before);
    not_p = m.not_p;
    at = elim m.at [
      | inl same ↦ inl same
      | inr (j, offset, inside, that) ↦
          inr (suc j, omega (arith, offset), omega (arith, inside), that)
    ];
  }

  smallest_rep_from-Found :
      (p : RepInfo) (current i : ℕ) (xs : List RepInfo)
      → IsSettled p
      → All IsSettled xs
      → Found p current i xs (smallest_rep_from cn p current i xs)
  unfolding smallest_rep_from Option.bind
  smallest_rep_from-Found p current i [] known h = record {
    k = current;
    q = p;
    found = refl;
    none_before = tt;
    not_p = rep_before_irrefl p;
    at = inl (refl, refl);
  }
  smallest_rep_from-Found p current i (x ∷ xs) known (known_x, h) =
      rw (takes_over-rep_before x p known_x known) (elim (Bool-cases (rep_before x p)) [
        | inl before ↦ rw before (
            Found-moved p x current i xs _ before
              (smallest_rep_from-Found x i (i + 1) xs known_x h))
        | inr later ↦ rw later (
            Found-kept p x current i xs _ later
              (smallest_rep_from-Found p current (i + 1) xs known h))
      ])

  -- Smallest_rep, of reps of known daemons without potential ones, returns the index of a rep that
  -- none of them stands before, and that rep.
  pub smallest_rep_lem :
      (xs : List RepInfo)
      → All IsSettled xs
      → 0 < length xs
      → (k : ℕ) × (smallest_rep cn xs ≡ some (k, get_or xs k no_rep))
        × (k < length xs)
        × NoneBefore no_rep rep_before (get_or xs k no_rep) xs
  unfolding smallest_rep
  smallest_rep_lem [] h more = absurd (omega arith)
  smallest_rep_lem (x ∷ xs) (known, h) more =
      let m = smallest_rep_from-Found x 0 1 xs known h in
      let (inside, that) = placed m.at in
      (
        m.k,
        rw that m.found,
        inside,
        subst (λ q. NoneBefore no_rep rep_before q (x ∷ xs)) (sym that) (m.not_p, m.none_before),
      )
    where
      placed :
          {k : ℕ} {q : RepInfo}
          → ((k ≡ 0) × (q ≡ x))
            ⊎ ((j : ℕ) × (k ≡ 1 + j) × (j < length xs) × (get_or xs j no_rep ≡ q))
          → (k < length (x ∷ xs)) × (get_or (x ∷ xs) k no_rep ≡ q)
      placed (inl (here, same)) = (omega (arith, here), rw here (sym same))
      placed {k} (inr (j, offset, inside, that)) =
          let next : k ≡ suc j = omega (arith, offset) in
          (omega (arith, inside, offset), rw next that)

-- Sort_reps, of reps of known daemons without potential ones, returns, with every rep as often as it
-- was there, and in order: the reps of segments first, then those of rings, by segment and by the
-- place in the segment.
pub sort_reps-Sorted :
    (cn : Configuration) (r : List RepInfo)
    → All (IsSettled cn) r
    → Sorted no_rep (rep_before cn) r (sort_reps cn r)
unfolding sort_reps
sort_reps-Sorted cn r h =
    selection-Sorted no_rep (rep_before cn) (IsSettled cn) _
      (λ xs known more.
        let (k, found, inside, none_before) = smallest_rep_lem cn xs known more in
        (k, rw found refl, inside, none_before))
      (length r) r refl h
