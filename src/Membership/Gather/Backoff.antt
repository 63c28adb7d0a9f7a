-- ===== src/Membership/Gather/Backoff.antt =====
-- Backoff_membership of spread-src-4.4.0/daemon/membership.c.
use tf.Prelude.{
  ℕ, zero, suc, ◌+◌, ◌-◌, ◌≤◌, ◌<◌, ◌≡◌, refl, ap, subst, ◌∙◌, Bool-cases, inl, inr, arith, true,
  false, ◌==◌, if◌then◌else◌,
}
use native.Mathlib.Decide.{ℕ_discrete}
use tf.Membership.Gather.{clear_dummies, backoff_membership}
use tf.Protocol.State.{
  PacketInfo, Prot, entry, slot, exists, set_slot, update, max_packets_in_struct,
}
use tf.Protocol.Receive.Window.{contiguous_lem}

-- A slot without its dummy.
abbrev pub cleared : PacketInfo → PacketInfo
cleared p = if p.exist == 3 then record p { exist = 0 } else p

-- One round of the loop.
abbrev clear_one : ℕ → Prot → Prot
clear_one seq s =
    if (slot s seq).exist == 3 then set_slot s seq (record (slot s seq) { exist = 0 }) else s

clear_one_self : (seq : ℕ) (s : Prot) → slot (clear_one seq s) seq ≡ cleared (slot s seq)
unfolding set_slot update
clear_one_self seq s = elim (Bool-cases ((slot s seq).exist == 3)) [
  | inl dummy ↦ rw dummy (ground arith)
  | inr other ↦ rw other refl
]

clear_one_other :
    (seq : ℕ) (s : Prot) (i : ℕ)
    → (entry seq == entry i) ≡ false
    → slot (clear_one seq s) i ≡ slot s i
unfolding set_slot update
clear_one_other seq s i ne = elim (Bool-cases ((slot s seq).exist == 3)) [
  | inl dummy ↦ rw dummy (rw ne refl)
  | inr other ↦ rw other refl
]

-- The slots of other sequence numbers, less than a window away.
clear_dummies-before :
    (n first : ℕ) (s : Prot) (i : ℕ)
    → i < first
    → first + n ≤ i + max_packets_in_struct
    → slot (clear_dummies n first s) i ≡ slot s i
unfolding clear_dummies
clear_dummies-before zero first s i a b = refl
clear_dummies-before (suc n) first s i a b =
    clear_dummies-before n (first + 1) (clear_one first s) i (omega arith) (omega arith)
    ∙ clear_one_other first s i (ground (arith, a, b))

clear_dummies-slot :
    (n first : ℕ) (s : Prot) (i : ℕ)
    → n ≤ max_packets_in_struct
    → first ≤ i
    → i < first + n
    → slot (clear_dummies n first s) i ≡ cleared (slot s i)
unfolding clear_dummies
clear_dummies-slot zero first s i few a b = absurd (omega arith)
clear_dummies-slot (suc n) first s i few a b = elim (ℕ_discrete first i) [
  | yes e ↦
      subst (λ j. slot (clear_dummies n (first + 1) (clear_one first s)) j ≡ cleared (slot s j)) e
        (clear_dummies-before n (first + 1) (clear_one first s) first (omega arith) (omega arith)
          ∙ clear_one_self first s)
  | no ne ↦
      clear_dummies-slot n (first + 1) (clear_one first s) i (omega arith) (omega arith)
        (omega arith)
      ∙ ap cleared (clear_one_other first s i (ground (arith, a, b, few, ne)))
]

-- What Backoff_membership leaves of the window.
pub record IsBackedOff (s s' : Prot) : Type 0 where
  pub slots : (i : ℕ) → s.last_discarded < i → i ≤ s.highest_seq → slot s' i ≡ cleared (slot s i)
  pub aru : s'.aru ≡ s.last_discarded
  pub bounds : (s.last_discarded ≤ s'.my_aru) × (s'.my_aru ≤ s.highest_seq)
  pub held : (i : ℕ) → s.last_discarded < i → i ≤ s'.my_aru → exists s' i ≡ true
  pub next_missing : s'.my_aru < s.highest_seq → exists s' (s'.my_aru + 1) ≡ false

-- Backoff_membership, of a window that fits the array of packets, turns every dummy of it into a hole
-- and keeps every other slot. Aru goes back to Last_discarded, and My_aru goes as far as there are
-- packets without a hole.
pub backoff_membership-IsBackedOff :
    (s : Prot)
    → s.last_discarded ≤ s.highest_seq
    → s.highest_seq ≤ s.last_discarded + max_packets_in_struct
    → IsBackedOff s (backoff_membership s)
unfolding backoff_membership
backoff_membership-IsBackedOff s h few =
    let n = s.highest_seq - s.last_discarded in
    let s' = clear_dummies n (s.last_discarded + 1) s in
    let (up, top, there, gap) = contiguous_lem (exists s') n s.last_discarded in
    record {
      slots = λ i a b.
          clear_dummies-slot n (s.last_discarded + 1) s i (omega arith) (omega arith) (omega arith);
      aru = refl;
      bounds = (up, omega (arith, top));
      held = there;
      next_missing = λ more. gap (omega (arith, more));
    }
