-- ===== src/Prelude/Tests.antt =====
-- Boolean tests on the native numbers, and the conditional.
use Prim.Native.Nat.{ℕ, ◌≤◌, ◌<◌, compare, Ordering}
use mathlib.Core.Path.{◌≡◌, refl, sym, subst}
use mathlib.Core.Logic.{◌↔◌, ◌⊎◌, inl, inr}
use mathlib.Core.Bool.{Bool, true, false}
use mathlib.Core.Option.{Option, none, some}
use native.Mathlib.Omega.{arith}

-- These compute to `compare`, which `ground` and `grind` read with no lemma listed.
abbrev pub ltb : ℕ → ℕ → Bool
ltb a b = elim (compare a b) [ Ordering.lt ↦ true | _ ↦ false ]

abbrev pub leb : ℕ → ℕ → Bool
leb a b = elim (compare a b) [ Ordering.gt ↦ false | _ ↦ true ]

infix 50 ◌==◌
abbrev pub ◌==◌ : ℕ → ℕ → Bool
a == b = elim (compare a b) [ Ordering.eq ↦ true | _ ↦ false ]

infix 1 if◌then◌else◌
abbrev pub if◌then◌else◌ {ℓ} : {A : Type ℓ} → Bool → A → A → A
if true then x else y = x
if false then x else y = y

-- Chains of results that may fail, for `do`.
infixl 5 ◌>>=◌ ◌>>◌
abbrev pub ◌>>=◌ {ℓ κ} : {A : Type ℓ} {B : Type κ} → Option A → (A → Option B) → Option B
none >>= f = none
some a >>= f = f a

abbrev pub ◌>>◌ {ℓ} : {B : Type ℓ} → Option (Unit {0}) → Option B → Option B
m >> k = m >>= λ _. k

-- `none` is the end of the process.
abbrev pub guard : Bool → Option (Unit {0})
guard true = some tt
guard false = none

-- `omega` reads a test through such lemmas.
pub ltb→lt : (a b : ℕ) → ltb a b ≡ true → a < b
ltb→lt a b h = ground arith

pub lt→ltb : (a b : ℕ) → a < b → ltb a b ≡ true
lt→ltb a b h = ground arith

pub leb→le : (a b : ℕ) → leb a b ≡ true → a ≤ b
leb→le a b h = ground arith

pub ==_iff : (a b : ℕ) → ((a == b) ≡ true) ↔ (a ≡ b)
==_iff a b = ground arith

pub ruleset tests = (arith, ltb→lt, lt→ltb, leb→le)

-- To split on a computed value and keep the equation.
pub Bool-cases : (b : Bool) → (b ≡ true) ⊎ (b ≡ false)
Bool-cases true = inl refl
Bool-cases false = inr refl

pub Option-cases {ℓ} : {A : Type ℓ} (o : Option A) → (o ≡ none) ⊎ ((a : A) × (o ≡ some a))
Option-cases none = inl refl
Option-cases (some a) = inr (a, refl)

-- There is a result, and it has the property.
abbrev pub Yields {ℓ} : {A : Type ℓ} → (A → Type 0) → Option A → Type 0
Yields P none = ⊥
Yields P (some a) = P a

pub Yields-bind {ℓ κ} :
    {A : Type ℓ} {B : Type κ} (P : A → Type 0) (Q : B → Type 0) (m : Option A) (f : A → Option B)
    → Yields P m
    → ((a : A) → P a → Yields Q (f a))
    → Yields Q (m >>= f)
Yields-bind P Q none f h k = absurd h
Yields-bind P Q (some a) f h k = k a h

pub Yields-weaken {ℓ} :
    {A : Type ℓ} (P Q : A → Type 0) (m : Option A) → Yields P m → ((a : A) → P a → Q a) → Yields Q m
Yields-weaken P Q none h k = absurd h
Yields-weaken P Q (some a) h k = k a h

pub Yields-some {ℓ} :
    {A : Type ℓ} (P : A → Type 0) (m : Option A) {a : A} → m ≡ some a → P a → Yields P m
Yields-some P m e h = subst (Yields P) (sym e) h

-- The result, if there is one, has the property.
abbrev pub Whenever {ℓ} : {A : Type ℓ} → (A → Type 0) → Option A → Type 0
Whenever P none = Unit
Whenever P (some a) = P a

pub Whenever-bind {ℓ κ} :
    {A : Type ℓ} {B : Type κ} (P : A → Type 0) (Q : B → Type 0) (m : Option A) (f : A → Option B)
    → Whenever P m
    → ((a : A) → P a → Whenever Q (f a))
    → Whenever Q (m >>= f)
Whenever-bind P Q none f h k = tt
Whenever-bind P Q (some a) f h k = k a h

pub Whenever-any {ℓ κ} :
    {A : Type ℓ} {B : Type κ} (Q : B → Type 0) (m : Option A) (f : A → Option B)
    → ((a : A) → Whenever Q (f a))
    → Whenever Q (m >>= f)
Whenever-any Q none f k = tt
Whenever-any Q (some a) f k = k a

-- A property of both results of a test.
pub if_both {ℓ} :
    {A : Type ℓ} (P : A → Type 0) (b : Bool) {x y : A} → P x → P y → P (if b then x else y)
if_both P true p q = p
if_both P false p q = q

pub Yields-guard {ℓ} :
    {A : Type ℓ} (P : A → Type 0) (b : Bool) (m : Option A)
    → b ≡ true
    → Yields P m
    → Yields P (guard b >> m)
Yields-guard P true m e h = h
Yields-guard P false m e h = cc

pub >>=-eq-some {ℓ κ} :
    {A : Type ℓ} {B : Type κ} (m : Option A) (f : A → Option B) {b : B}
    → (m >>= f) ≡ some b
    → (a : A) × (m ≡ some a) × (f a ≡ some b)
>>=-eq-some none f e = cc
>>=-eq-some (some a) f e = (a, refl, e)

pub Whenever-eq {ℓ κ} :
    {A : Type ℓ} {B : Type κ} (Q : B → Type 0) (m : Option A) (f : A → Option B)
    → ((a : A) → m ≡ some a → Whenever Q (f a))
    → Whenever Q (m >>= f)
Whenever-eq Q none f k = tt
Whenever-eq Q (some a) f k = k a refl

pub Whenever-some {ℓ} :
    {A : Type ℓ} (Q : A → Type 0) (m : Option A) {a : A} → m ≡ some a → Whenever Q m → Q a
Whenever-some Q m e h = subst (Whenever Q) e h
