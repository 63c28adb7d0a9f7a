-- ===== src/Protocol/Answer/Missing.antt =====
-- The loop of Prot_handle_token, spread-src-4.4.0/daemon/protocol.c, over missing packets.
use tf.Prelude.{
  ℕ, zero, suc, ◌+◌, ◌≤◌, ◌<◌, ◌≡◌, ◌⊎◌, inl, inr, refl, arith, Bool, true, false, List, [], ◌∷◌,
  length, All, ap, Bool-cases,
}
use native.Mathlib.Decide.{ℕ_discrete}
use tf.Membership.{contains}
use tf.Protocol.Answer.{missing}

-- The numbers rise, from `lo` on.
abbrev pub Rising : ℕ → List ℕ → Type 0
Rising lo [] = Unit
Rising lo (x ∷ xs) = (lo ≤ x) × Rising (x + 1) xs

-- `l` lists the numbers from `seq` to below `seq + n` that are not there, in order and each once. At
-- most `room` are listed, and a number is left out only where the room ends in front of it.
pub record ListsMissing (there : ℕ → Bool) (seq n room : ℕ) (l : List ℕ) : Type 0 where
  pub few : length l ≤ room
  pub rising : Rising seq l
  pub absent : All (λ i. (i < seq + n) × (there i ≡ false)) l
  pub complete :
      (i : ℕ)
      → seq ≤ i
      → i < seq + n
      → there i ≡ false
      → (contains l i ≡ true) ⊎ ((length l ≡ room) × All (λ j. j < i) l)

All-map {ℓ κ μ} :
    {A : Type ℓ} {P : A → Type κ} {Q : A → Type μ} (f : (a : A) → P a → Q a) (xs : List A)
    → All P xs
    → All Q xs
All-map f [] h = tt
All-map f (x ∷ xs) h = (f x h.0, All-map f xs h.1)

Rising-le : (lo hi : ℕ) (l : List ℕ) → lo ≤ hi → Rising hi l → Rising lo l
Rising-le lo hi [] h r = tt
Rising-le lo hi (x ∷ xs) h r = (omega (arith, r.0), r.1)

module _ (there : ℕ → Bool) (seq n room : ℕ) (l : List ℕ) where
  ListsMissing-skip :
      there seq ≡ true
      → ListsMissing there (seq + 1) n room l
      → ListsMissing there seq (suc n) room l
  ListsMissing-skip here m = record {
    few = m.few;
    rising = Rising-le seq (seq + 1) l (omega arith) m.rising;
    absent = All-map (λ i h. (omega (arith, h.0), h.1)) l m.absent;
    complete = λ i a b gap. elim (ℕ_discrete i seq) [
      | yes e ↦ absurd (cc (ap there e, gap, here))
      | no ne ↦ m.complete i (omega arith) (omega arith) gap
    ];
  }

  ListsMissing-cons :
      there seq ≡ false
      → ListsMissing there (seq + 1) n room l
      → ListsMissing there seq (suc n) (suc room) (seq ∷ l)
  unfolding contains
  ListsMissing-cons gone m = record {
    few = omega (arith, m.few);
    rising = (omega arith, m.rising);
    absent = ((omega arith, gone), All-map (λ i h. (omega (arith, h.0), h.1)) l m.absent);
    complete = λ i a b gap. elim (ℕ_discrete i seq) [
      | yes e ↦ inl (ground (arith, e))
      | no ne ↦ elim (m.complete i (omega arith) (omega arith) gap) [
        | inl in_rest ↦ inl (ground (arith, in_rest))
        | inr (full, below) ↦ inr (ap suc full, (omega arith, below))
      ]
    ];
  }

pub missing-ListsMissing :
    (there : ℕ → Bool) (n seq room : ℕ) → ListsMissing there seq n room (missing there n seq room)
unfolding missing
missing-ListsMissing there zero seq room = record {
  few = omega arith;
  rising = tt;
  absent = tt;
  complete = λ i a b gap. absurd (omega arith);
}
missing-ListsMissing there (suc n) seq zero = record {
  few = omega arith;
  rising = tt;
  absent = tt;
  complete = λ i a b gap. inr (refl, tt);
}
missing-ListsMissing there (suc n) seq (suc room) = elim (Bool-cases (there seq)) [
  | inl here ↦ rw here (
      ListsMissing-skip there seq n (suc room) _ here
        (missing-ListsMissing there n (seq + 1) (suc room)))
  | inr gone ↦
      rw gone
        (ListsMissing-cons there seq n room _ gone (missing-ListsMissing there n (seq + 1) room))
]
