-- ===== src/Groups/Totals.antt =====
-- Sums over the elements of a skip list.
use Prim.Native.Nat.{Ordering}
use tf.Prelude.{
  ℕ, ◌+◌, ◌≡◌, inl, inr, arith, Option, none, some, List, [], ◌∷◌, All, subst, some_injective,
}
use tf.Groups.SkipList.{Ordering-cases, find, put, erase}

module _ {A : Type 0} (w : A → ℕ) where
  abbrev pub total : List A → ℕ
  total [] = 0
  total (x ∷ xs) = w x + total xs

  abbrev pub weight : Option A → ℕ
  weight none = 0
  weight (some x) = w x

module _ {K A : Type 0} (cmp : K → K → Ordering) (key : A → K) (w : A → ℕ) where
  -- The element counts for the one that it takes the place of.
  pub total-put :
      (a : A) (xs : List A)
      → total w (put cmp key a xs) + weight w (find cmp key (key a) xs) ≡ total w xs + w a
  unfolding put find
  total-put a [] = omega arith
  total-put a (x ∷ xs) = ground (arith, total-put a xs)

  pub total-erase :
      (k : K) (xs : List A)
      → total w (erase cmp key k xs) + weight w (find cmp key k xs) ≡ total w xs
  unfolding erase find
  total-erase k [] = omega arith
  total-erase k (x ∷ xs) = ground (arith, total-erase k xs)

module _ {K A : Type 0} (cmp : K → K → Ordering) (key : A → K) (P : A → Type 0) where
  pub All-put : (a : A) (xs : List A) → P a → All P xs → All P (put cmp key a xs)
  unfolding put
  All-put a [] p h = (p, tt)
  All-put a (x ∷ xs) p h = elim (Ordering-cases (cmp (key a) (key x))) [
    | inl l ↦ rw (l, put) (p, h)
    | inr (inl l) ↦ rw (l, put) (p, h.1)
    | inr (inr l) ↦ rw (l, put) (h.0, All-put a xs p h.1)
  ]

  pub All-erase : (k : K) (xs : List A) → All P xs → All P (erase cmp key k xs)
  unfolding erase
  All-erase k [] h = tt
  All-erase k (x ∷ xs) h = elim (Ordering-cases (cmp k (key x))) [
    | inl l ↦ rw (l, erase) h
    | inr (inl l) ↦ rw (l, erase) h.1
    | inr (inr l) ↦ rw (l, erase) (h.0, All-erase k xs h.1)
  ]

  pub All-find : (k : K) (xs : List A) {a : A} → All P xs → find cmp key k xs ≡ some a → P a
  unfolding find
  All-find k [] h e = ground arith
  All-find k (x ∷ xs) {a} h e = elim (Ordering-cases (cmp k (key x))) [
    | inl l ↦ cc (rw (l, find) at e)
    | inr (inl l) ↦ subst P (some_injective (rw (l, find) at e)) h.0
    | inr (inr l) ↦ All-find k xs h.1 (rw (l, find) at e)
  ]

module _ {K A : Type 0} (cmp : K → K → Ordering) (key : A → K) where
  -- What is found has the key.
  pub find-key :
      (k : K) (xs : List A) (a : A) → find cmp key k xs ≡ some a → cmp k (key a) ≡ Ordering.eq
  unfolding find
  find-key k [] a e = ground arith
  find-key k (x ∷ xs) a e = ground (arith, find-key k xs a)
