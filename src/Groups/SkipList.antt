-- ===== src/Groups/SkipList.antt =====
-- spread-src-4.4.0/stdutil/src/stdskl.c, as groups.c uses it. A skip list is the list of its elements
-- in the order of the comparison; its levels only shorten the walk. A comparison that returns an int
-- is an `Ordering`.
use Prim.Native.Nat.{Ordering}
use tf.Prelude.{
  ◌≡◌, refl, ◌∙◌, ◌⊎◌, inl, inr, Bool, true, false, Option, none, some, List, [], ◌∷◌, All, arith,
  if◌then◌else◌,
}

-- An order on keys.
pub record IsOrder {K : Type 0} (cmp : K → K → Ordering) : Type 0 where
  pub self : (a : K) → cmp a a ≡ Ordering.eq
  pub congruent : (a b c : K) → cmp a b ≡ Ordering.eq → cmp c a ≡ cmp c b
  pub congruent_left : (a b c : K) → cmp a b ≡ Ordering.eq → cmp a c ≡ cmp b c
  pub after : (a b : K) → cmp a b ≡ Ordering.lt → cmp b a ≡ Ordering.gt
  pub before : (a b : K) → cmp a b ≡ Ordering.gt → cmp b a ≡ Ordering.lt
  pub trans : (a b c : K) → cmp a b ≡ Ordering.lt → cmp b c ≡ Ordering.lt → cmp a c ≡ Ordering.lt

abbrev pub is_eq : Ordering → Bool
is_eq Ordering.eq = true
is_eq Ordering.lt = false
is_eq Ordering.gt = false

pub Ordering-cases : (o : Ordering) → (o ≡ Ordering.lt) ⊎ ((o ≡ Ordering.eq) ⊎ (o ≡ Ordering.gt))
Ordering-cases Ordering.lt = inl refl
Ordering-cases Ordering.eq = inr (inl refl)
Ordering-cases Ordering.gt = inr (inr refl)

module _ {K A : Type 0} (cmp : K → K → Ordering) (key : A → K) where
  -- The element with the key.
  unfoldable pub find : K → List A → Option A
  find k [] = none
  find k (x ∷ xs) = elim (cmp k (key x)) [
    | Ordering.lt ↦ none
    | Ordering.eq ↦ some x
    | Ordering.gt ↦ find k xs
  ]

  -- The element goes to its place, or over one with the same key.
  unfoldable pub put : A → List A → List A
  put a [] = a ∷ []
  put a (x ∷ xs) = elim (cmp (key a) (key x)) [
    | Ordering.lt ↦ a ∷ x ∷ xs
    | Ordering.eq ↦ a ∷ xs
    | Ordering.gt ↦ x ∷ put a xs
  ]

  unfoldable pub erase : K → List A → List A
  erase k [] = []
  erase k (x ∷ xs) = elim (cmp k (key x)) [
    | Ordering.lt ↦ x ∷ xs
    | Ordering.eq ↦ xs
    | Ordering.gt ↦ x ∷ erase k xs
  ]

  abbrev pub Above : K → List A → Type 0
  Above k xs = All (λ y. cmp k (key y) ≡ Ordering.lt) xs

  -- In order, and no key twice.
  abbrev pub Sorted : List A → Type 0
  Sorted [] = Unit
  Sorted (x ∷ xs) = Above (key x) xs × Sorted xs

  module _ (order : IsOrder cmp) where
    pub find-put :
        (j : K) (a : A) (xs : List A)
        → find j (put a xs) ≡ (if is_eq (cmp j (key a)) then some a else find j xs)
    unfolding find put
    find-put j a [] = elim (Ordering-cases (cmp j (key a))) [
      | inl e ↦ rw e
      | inr (inl e) ↦ rw e
      | inr (inr e) ↦ rw e
    ]
    find-put j a (x ∷ xs) = ground (
      arith,
      find-put j a xs,
      order.trans j (key a) (key x),
      order.before (key a) (key x),
      order.before j (key x),
      order.after j (key a),
      order.trans (key x) j (key a),
      order.after (key x) (key a),
      order.congruent (key a) (key x) j,
      order.congruent_left j (key a) (key x),
    )

    Above-put :
        (j : K) (a : A) (xs : List A)
        → cmp j (key a) ≡ Ordering.lt
        → Above j xs
        → Above j (put a xs)
    unfolding put
    Above-put j a [] e h = (e, tt)
    Above-put j a (x ∷ xs) e h = elim (Ordering-cases (cmp (key a) (key x))) [
      | inl l ↦ rw (l, put) (e, h)
      | inr (inl l) ↦ rw (l, put) (e, h.1)
      | inr (inr l) ↦ rw (l, put) (h.0, Above-put j a xs e h.1)
    ]

    pub Above-lower : (j k : K) (xs : List A) → cmp j k ≡ Ordering.lt → Above k xs → Above j xs
    Above-lower j k [] e h = tt
    Above-lower j k (x ∷ xs) e h = (order.trans j k (key x) e h.0, Above-lower j k xs e h.1)

    pub Above-same : (j k : K) (xs : List A) → cmp j k ≡ Ordering.eq → Above k xs → Above j xs
    Above-same j k [] e h = tt
    Above-same j k (x ∷ xs) e h =
        (order.congruent_left j k (key x) e ∙ h.0, Above-same j k xs e h.1)

    pub Sorted-put : (a : A) (xs : List A) → Sorted xs → Sorted (put a xs)
    unfolding put
    Sorted-put a [] h = (tt, tt)
    Sorted-put a (x ∷ xs) h = elim (Ordering-cases (cmp (key a) (key x))) [
      | inl l ↦ rw (l, put) ((l, Above-lower (key a) (key x) xs l h.0), h)
      | inr (inl l) ↦ rw (l, put) (Above-same (key a) (key x) xs l h.0, h.1)
      | inr (inr l) ↦
          rw (l, put)
            (Above-put (key x) a xs (order.before (key a) (key x) l) h.0, Sorted-put a xs h.1)
    ]

    Above-erase : (j k : K) (xs : List A) → Above j xs → Above j (erase k xs)
    unfolding erase
    Above-erase j k [] h = tt
    Above-erase j k (x ∷ xs) h = elim (Ordering-cases (cmp k (key x))) [
      | inl l ↦ rw (l, erase) h
      | inr (inl l) ↦ rw (l, erase) h.1
      | inr (inr l) ↦ rw (l, erase) (h.0, Above-erase j k xs h.1)
    ]

    pub Sorted-erase : (k : K) (xs : List A) → Sorted xs → Sorted (erase k xs)
    unfolding erase
    Sorted-erase k [] h = tt
    Sorted-erase k (x ∷ xs) h = elim (Ordering-cases (cmp k (key x))) [
      | inl l ↦ rw (l, erase) h
      | inr (inl l) ↦ rw (l, erase) h.1
      | inr (inr l) ↦ rw (l, erase) (Above-erase (key x) k xs h.0, Sorted-erase k xs h.1)
    ]

    pub find-Above : (j : K) (xs : List A) → Above j xs → find j xs ≡ none
    unfolding find
    find-Above j [] h = refl
    find-Above j (x ∷ xs) h = ground (arith, h.0)

    pub find-erase :
        (j k : K) (xs : List A)
        → Sorted xs
        → find j (erase k xs) ≡ (if is_eq (cmp j k) then none else find j xs)
    unfolding find erase
    find-erase j k [] h = ground arith
    find-erase j k (x ∷ xs) h = ground (
      arith,
      find-erase j k xs h.1,
      find-Above (key x) xs h.0,
      find-Above j xs,
      Above-same j (key x) xs,
      Above-lower j (key x) xs,
      order.congruent k (key x) j,
      order.congruent_left j k (key x),
      order.trans j k (key x),
    )

    -- Keys that compare equal find the same.
    pub find-same : (j k : K) (xs : List A) → cmp j k ≡ Ordering.eq → find j xs ≡ find k xs
    unfolding find
    find-same j k [] e = refl
    find-same j k (x ∷ xs) e =
        ground (arith, find-same j k xs e, order.congruent_left j k (key x) e)
