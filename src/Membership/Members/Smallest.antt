-- ===== src/Membership/Members/Smallest.antt =====
-- Smallest_member of spread-src-4.4.0/daemon/membership.c.
use tf.Prelude.{
  ℕ, suc, ◌+◌, ◌<◌, ◌≡◌, ◌⊎◌, inl, inr, refl, sym, ◌∙◌, subst, arith, true, false, if◌then◌else◌,
  Option, none, some, List, [], ◌∷◌, length, get_or, All, Bool-cases,
}
use tf.Configuration.{Proc, Configuration, proc_by_id_in_conf, no_proc}
use tf.Membership.Members.{stands_before, smallest_from, smallest_member}

-- The daemon of a member.
abbrev pub proc_of : Configuration → ℕ → Proc
proc_of cn id = elim (proc_by_id_in_conf cn id) [ none ↦ no_proc | some (_, p) ↦ p ]

abbrev pub IsKnown : Configuration → ℕ → Type 0
IsKnown cn id = (i : ℕ) × (p : Proc) × (proc_by_id_in_conf cn id ≡ some (i, p))

-- No member of the list stands before the daemon `p`.
abbrev pub NoneBefore : Configuration → Proc → List ℕ → Type 0
NoneBefore cn p = All (λ y. stands_before (proc_of cn y) p ≡ false)

stands_before_trans :
    (p q r : Proc)
    → stands_before r p ≡ false
    → stands_before p q ≡ false
    → stands_before r q ≡ false
unfolding stands_before
stands_before_trans p q r h k = ground arith

stands_before_asymm : (p q : Proc) → stands_before p q ≡ true → stands_before q p ≡ false
unfolding stands_before
stands_before_asymm p q h = ground arith

stands_before_irrefl : (p : Proc) → stands_before p p ≡ false
unfolding stands_before
stands_before_irrefl p = ground arith

proc_of_known :
    (cn : Configuration) (x n : ℕ) (p : Proc)
    → proc_by_id_in_conf cn x ≡ some (n, p)
    → proc_of cn x ≡ p
proc_of_known cn x n p e = ground (arith, e)

-- What the loop of Smallest_member finds: the index `k` of a member whose daemon is `q`.
record Smallest (cn : Configuration) (p : Proc) (current i : ℕ) (xs : List ℕ) (o : Option ℕ)
    : Type 0 where
  k : ℕ
  q : Proc
  found : o ≡ some k
  none_before : NoneBefore cn q xs
  not_p : stands_before p q ≡ false
  place :
      ((k ≡ current) × (q ≡ p))
      ⊎ ((j : ℕ) × (k ≡ i + j) × (j < length xs) × (proc_of cn (get_or xs j 0) ≡ q))

module _ (cn : Configuration) where
  Smallest-moved :
      (p r : Proc) (current i x : ℕ) (xs : List ℕ) (o : Option ℕ)
      → proc_of cn x ≡ r
      → stands_before r p ≡ true
      → Smallest cn r i (i + 1) xs o
      → Smallest cn p current i (x ∷ xs) o
  Smallest-moved p r current i x xs o is_r before m = record {
    k = m.k;
    q = m.q;
    found = m.found;
    none_before = (rw is_r m.not_p, m.none_before);
    not_p = stands_before_trans r m.q p (stands_before_asymm r p before) m.not_p;
    place = elim m.place [
      | inl (here, same) ↦ inr (0, omega (arith, here), omega arith, rw is_r (sym same))
      | inr (j, at, inside, that) ↦ inr (suc j, omega (arith, at), omega (arith, inside), that)
    ];
  }

  Smallest-kept :
      (p r : Proc) (current i x : ℕ) (xs : List ℕ) (o : Option ℕ)
      → proc_of cn x ≡ r
      → stands_before r p ≡ false
      → Smallest cn p current (i + 1) xs o
      → Smallest cn p current i (x ∷ xs) o
  Smallest-kept p r current i x xs o is_r later m = record {
    k = m.k;
    q = m.q;
    found = m.found;
    none_before = (rw is_r (stands_before_trans p m.q r later m.not_p), m.none_before);
    not_p = m.not_p;
    place = elim m.place [
      | inl same ↦ inl same
      | inr (j, at, inside, that) ↦ inr (suc j, omega (arith, at), omega (arith, inside), that)
    ];
  }

  smallest_from-cons :
      (p r : Proc) (current i x n : ℕ) (xs : List ℕ)
      → proc_by_id_in_conf cn x ≡ some (n, r)
      → smallest_from cn p current i (x ∷ xs) ≡ (
          if stands_before r p
          then smallest_from cn r i (i + 1) xs
          else smallest_from cn p current (i + 1) xs)
  unfolding smallest_from
  smallest_from-cons p r current i x n xs known = ground (arith, known)

  smallest_from-Smallest :
      (p : Proc) (current i : ℕ) (xs : List ℕ)
      → All (IsKnown cn) xs
      → Smallest cn p current i xs (smallest_from cn p current i xs)
  unfolding smallest_from
  smallest_from-Smallest p current i [] h = record {
    k = current;
    q = p;
    found = refl;
    none_before = tt;
    not_p = stands_before_irrefl p;
    place = inl (refl, refl);
  }
  smallest_from-Smallest p current i (x ∷ xs) ((n, r, known), h) =
      rw (smallest_from-cons p r current i x n xs known) (elim (Bool-cases (stands_before r p)) [
        | inl before ↦ rw before (
            Smallest-moved p r current i x xs _ (proc_of_known cn x n r known) before
              (smallest_from-Smallest r i (i + 1) xs h))
        | inr later ↦ rw later (
            Smallest-kept p r current i x xs _ (proc_of_known cn x n r known) later
              (smallest_from-Smallest p current (i + 1) xs h))
      ])

  pub smallest_member_lem :
      (xs : List ℕ)
      → All (IsKnown cn) xs
      → 0 < length xs
      → (k : ℕ) × (smallest_member cn xs ≡ some k)
        × (k < length xs)
        × NoneBefore cn (proc_of cn (get_or xs k 0)) xs
  unfolding smallest_member
  smallest_member_lem [] h more = absurd (omega arith)
  smallest_member_lem (x ∷ xs) ((n, p, known), h) more =
      let m = smallest_from-Smallest p 0 1 xs h in
      let is_p = proc_of_known cn x n p known in
      let (inside, that) = at_place m.place in
      (
        m.k,
        rw (smallest_member, known) m.found,
        inside,
        subst (λ q. NoneBefore cn q (x ∷ xs)) (sym that) (rw is_p m.not_p, m.none_before),
      )
    where
      at_place :
          {k : ℕ} {q : Proc}
          → ((k ≡ 0) × (q ≡ p))
            ⊎ ((j : ℕ) × (k ≡ 1 + j) × (j < length xs) × (proc_of cn (get_or xs j 0) ≡ q))
          → (k < length (x ∷ xs)) × (proc_of cn (get_or (x ∷ xs) k 0) ≡ q)
      at_place (inl (here, same)) =
          (omega (arith, here), rw here (proc_of_known cn x n p known ∙ sym same))
      at_place {k} (inr (j, at, inside, that)) =
          let next : k ≡ suc j = omega (arith, at) in (omega (arith, at, inside), rw next that)
