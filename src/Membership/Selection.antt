-- ===== src/Membership/Selection.antt =====
-- The selection sort of spread-src-4.4.0/daemon/membership.c, which Sort_members and Sort_reps both
-- are: as often as there are elements, the smallest of a copy is taken out, and the last element of
-- the copy moves to its place.
use mathlib.Core.Option
use tf.Prelude.{
  ℕ, zero, suc, ◌+◌, ◌<◌, ◌≡◌, refl, arith, Bool, false, if◌then◌else◌, Option, some, List, [], ◌∷◌,
  length, get_or, set, All, Bool-cases, inl, inr,
}

abbrev pub drop_last {ℓ} : {A : Type ℓ} → List A → List A
drop_last [] = []
drop_last (x ∷ []) = []
drop_last (x ∷ y ∷ ys) = x ∷ drop_last (y ∷ ys)

abbrev pub last_or {ℓ} : {A : Type ℓ} → A → List A → A
last_or x [] = x
last_or x (y ∷ ys) = last_or y ys

-- The last element moves to the place of the one that leaves.
abbrev pub take_out {ℓ} : {A : Type ℓ} → List A → ℕ → List A
take_out [] index = []
take_out (x ∷ xs) index = set (drop_last (x ∷ xs)) index (last_or x xs)

-- `smallest` is the index of the smallest element, or `none` where the process ends.
unfoldable pub selection {ℓ} :
    {A : Type ℓ} (smallest : List A → Option ℕ) (default : A) → ℕ → List A → Option (List A)
selection smallest default zero temp = some []
selection smallest default (suc n) temp = Option.bind (smallest temp) (λ index.
    Option.map (λ rest. get_or temp index default ∷ rest)
      (selection smallest default n (take_out temp index)))

-- How many elements pass a test.
abbrev pub count_if {ℓ} : {A : Type ℓ} → (A → Bool) → List A → ℕ
count_if p [] = 0
count_if p (x ∷ xs) = (if p x then 1 else 0) + count_if p xs

-- A test that no element passes counts none.
module _ {ℓ} {A : Type ℓ} (p : A → Bool) where
  pub count_if-false : (xs : List A) → All (λ y. p y ≡ false) xs → count_if p xs ≡ 0
  count_if-false [] h = refl
  count_if-false (x ∷ xs) (e, h) = rw e (omega (arith, count_if-false xs h))

  pub all_false : (xs : List A) → count_if p xs ≡ 0 → All (λ y. p y ≡ false) xs
  all_false [] h = tt
  all_false (x ∷ xs) h = elim (Bool-cases (p x)) [
    | inl e ↦ absurd (omega (arith, rw e at h))
    | inr e ↦ (e, all_false xs (omega (arith, rw e at h)))
  ]

module _ {A : Type 0} (d : A) where
  module _ (p : A → Bool) where
    count_if-drop_last :
        (x : A) (xs : List A)
        → count_if p (x ∷ xs)
          ≡ (if p (last_or x xs) then 1 else 0) + count_if p (drop_last (x ∷ xs))
    count_if-drop_last x [] = refl
    count_if-drop_last x (y ∷ ys) = omega (arith, count_if-drop_last y ys)

    pub count_if-take_out :
        (xs : List A) (k : ℕ)
        → k < length xs
        → count_if p xs ≡ (if p (get_or xs k d) then 1 else 0) + count_if p (take_out xs k)
    count_if-take_out [] k h = absurd (omega arith)
    count_if-take_out (x ∷ []) zero h = refl
    count_if-take_out (x ∷ []) (suc k) h = absurd (omega arith)
    count_if-take_out (x ∷ y ∷ ys) zero h = omega (arith, count_if-drop_last y ys)
    count_if-take_out (x ∷ y ∷ ys) (suc k) h =
        omega (arith, count_if-take_out (y ∷ ys) k (omega arith))

  length-take_out : (xs : List A) (k : ℕ) → k < length xs → length xs ≡ suc (length (take_out xs k))
  length-take_out [] k h = absurd (omega arith)
  length-take_out (x ∷ []) zero h = refl
  length-take_out (x ∷ []) (suc k) h = absurd (omega arith)
  length-take_out (x ∷ y ∷ []) zero h = refl
  length-take_out (x ∷ y ∷ z ∷ zs) zero h =
      omega (arith, length-take_out (y ∷ z ∷ zs) 0 (omega arith))
  length-take_out (x ∷ y ∷ ys) (suc k) h = omega (arith, length-take_out (y ∷ ys) k (omega arith))

  module _ (P : A → Type 0) where
    All-last_or :
        (x : A) (xs : List A) → All P (x ∷ xs) → P (last_or x xs) × All P (drop_last (x ∷ xs))
    All-last_or x [] h = (h.0, tt)
    All-last_or x (y ∷ ys) h = let (l, d) = All-last_or y ys h.1 in (l, (h.0, d))

    All-take_out : (xs : List A) (k : ℕ) → All P xs → All P (take_out xs k)
    All-take_out [] k h = tt
    All-take_out (x ∷ []) k h = tt
    All-take_out (x ∷ y ∷ ys) zero h = let (l, d) = All-last_or y ys h.1 in (l, d)
    All-take_out (x ∷ y ∷ ys) (suc k) h = (h.0, All-take_out (y ∷ ys) k h.1)

    All-get_or : (xs : List A) (k : ℕ) → k < length xs → All P xs → P (get_or xs k d)
    All-get_or [] k h a = absurd (omega arith)
    All-get_or (x ∷ xs) zero h a = a.0
    All-get_or (x ∷ xs) (suc k) h a = All-get_or xs k (omega arith) a.1

  module _ (before : A → A → Bool) where
    -- No element of the list stands before `x`.
    abbrev pub NoneBefore : A → List A → Type 0
    NoneBefore x = All (λ y. before y x ≡ false)

    -- Each element stands behind none of those that follow it.
    abbrev pub InOrder : List A → Type 0
    InOrder [] = Unit
    InOrder (x ∷ xs) = NoneBefore x xs × InOrder xs

    -- `o` is the list of the elements of `xs` in order.
    pub record Sorted (xs : List A) (o : Option (List A)) : Type 0 where
      pub out : List A
      pub returns : o ≡ some out
      pub in_order : InOrder out
      pub same : (p : A → Bool) → count_if p out ≡ count_if p xs

    -- `smallest` finds an element that none stands before, among elements that are known.
    abbrev pub Finds : (A → Type 0) → (List A → Option ℕ) → Type 0
    Finds Known smallest =
        (xs : List A)
        → All Known xs
        → 0 < length xs
        → (k : ℕ) × (smallest xs ≡ some k) × (k < length xs) × NoneBefore (get_or xs k d) xs

    pub selection-Sorted :
        (Known : A → Type 0) (smallest : List A → Option ℕ)
        → Finds Known smallest
        → (n : ℕ) (xs : List A) → length xs ≡ n
        → All Known xs
        → Sorted xs (selection smallest d n xs)
    unfolding selection Option.bind
    selection-Sorted Known smallest finds zero [] e h = record {
      out = [];
      returns = refl;
      in_order = tt;
      same = λ p. refl;
    }
    selection-Sorted Known smallest finds zero (x ∷ xs) e h = absurd (omega arith)
    selection-Sorted Known smallest finds (suc n) xs e h =
        let (k, found, inside, none_before) = finds xs h (omega arith) in
        let rest = take_out xs k in
        let ih =
          selection-Sorted Known smallest finds n rest
            (omega (arith, e, length-take_out xs k inside)) (All-take_out Known xs k h) in
        let x = get_or xs k d in
        record {
          out = x ∷ ih.out;
          returns = rw found (rw ih.returns refl);
          in_order = (
            all_false (λ y. before y x) ih.out
                (omega (
                  arith,
                  ih.same (λ y. before y x),
                  count_if-false (λ y. before y x) rest
                      (All-take_out (λ y. before y x ≡ false) xs k none_before),
                )),
            ih.in_order,
          );
          same = λ p. omega (arith, ih.same p, count_if-take_out p xs k inside);
        }
