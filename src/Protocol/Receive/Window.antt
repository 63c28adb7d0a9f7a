-- ===== src/Protocol/Receive/Window.antt =====
-- The window of packets that a daemon holds, spread-src-4.4.0/daemon/protocol.c.
use tf.Prelude.{
  ℕ, zero, suc, ◌+◌, ◌-◌, ◌≤◌, ◌<◌, ◌≡◌, ◌≢◌, ◌⊎◌, inl, inr, arith, Bool, true, false, ◌==◌,
  if◌then◌else◌, Bool-cases,
}
use native.Mathlib.Decide.{dec_lt, ℕ_discrete}
use tf.Protocol.State.{Packet, Prot, max_packets_in_struct, update, slot, exists, set_slot}
use tf.Protocol.Receive.{contiguous, raise_my_aru, insert_packet}

-- A number of the window, which lies behind Last_discarded.
abbrev pub InWindow : Prot → ℕ → Type 0
InWindow s i = (s.last_discarded < i) × (i ≤ s.last_discarded + max_packets_in_struct)

-- The slots hold packets behind Last_discarded, each in the place of its number and none above
-- Highest_seq; every packet up to My_aru is held.
pub record IsHeld (s : Prot) : Type 0 where
  pub aru_in : (s.last_discarded ≤ s.my_aru) × (s.my_aru ≤ s.highest_seq)
  pub few : s.highest_seq ≤ s.last_discarded + max_packets_in_struct
  pub held : (i : ℕ) → s.last_discarded < i → i ≤ s.my_aru → exists s i ≡ true
  pub placed :
      (i : ℕ) → InWindow s i → exists s i ≡ true → ((slot s i).head.seq ≡ i) × (i ≤ s.highest_seq)

-- My_aru goes as far as it can.
pub record IsWindow (s : Prot) : Type 0 where
  pub holds : IsHeld s
  pub next_missing : s.my_aru < s.highest_seq → exists s (s.my_aru + 1) ≡ false

-- `contiguous` goes over numbers that are there, and stops after `n` or in front of one that is not.
pub contiguous_lem :
    (there : ℕ → Bool) (n aru : ℕ)
    → let r = contiguous there n aru in
      (aru ≤ r)
      × (r ≤ aru + n)
      × ((i : ℕ) → aru < i → i ≤ r → there i ≡ true)
      × (r < aru + n → there (r + 1) ≡ false)
unfolding contiguous
contiguous_lem there zero aru =
    (omega arith, omega arith, λ i a b. absurd (omega arith), λ h. absurd (omega arith))
contiguous_lem there (suc n) aru = elim (Bool-cases (there (aru + 1))) [
  | inr gap ↦ rw gap (omega arith, omega arith, λ i a b. absurd (omega arith), λ h. gap)
  | inl here ↦
      let ih = contiguous_lem there n (aru + 1) in
      rw here (
        omega (arith, ih.0),
        omega (arith, ih.1),
        λ i a b. elim (ℕ_discrete i (aru + 1)) [
          | yes e ↦ rw e here
          | no ne ↦ ih.2 i (omega arith) b
        ],
        λ h. ih.3 (omega arith),
      )
]

pub raise_my_aru-IsWindow : (s : Prot) → IsHeld s → IsWindow (raise_my_aru s)
unfolding raise_my_aru
raise_my_aru-IsWindow s h =
    let (up, top, there, gap) = contiguous_lem (exists s) (s.highest_seq - s.my_aru) s.my_aru in
    record {
      holds = record {
        aru_in = (omega (arith, up, h.aru_in), omega (arith, top, h.aru_in));
        few = h.few;
        held = λ i a b. elim (dec_lt s.my_aru i) [
          | yes above ↦ there i above b
          | no below ↦ h.held i a (omega arith)
        ];
        placed = h.placed;
      };
      next_missing = λ more. gap (omega (arith, more, h.aru_in));
    }

module _ (p : Packet) (proc_index : ℕ) (s : Prot) where
  insert_packet-slot :
      (i : ℕ)
      → InWindow s i
      → InWindow s p.head.seq
      → slot (insert_packet p proc_index s) i ≡ (
          if i == p.head.seq
          then record { head = p.head; body = p.body; exist = 1; proc_index = proc_index }
          else slot s i)
  unfolding insert_packet set_slot update
  insert_packet-slot i a b = ground arith

  pub insert_packet_fields :
      let s' = insert_packet p proc_index s in
      (s'.my_aru ≡ s.my_aru)
      × (s'.last_discarded ≡ s.last_discarded)
      × (s.highest_seq ≤ s'.highest_seq)
      × (p.head.seq ≤ s'.highest_seq)
      × ((s'.highest_seq ≡ s.highest_seq) ⊎ (s'.highest_seq ≡ p.head.seq))
  unfolding insert_packet set_slot
  insert_packet_fields = ground arith

  module _ (h : IsHeld s) (inside : InWindow s p.head.seq)
      (absent : exists s p.head.seq ≡ false) where
    pub insert_packet-exists :
        (i : ℕ)
        → InWindow s i
        → exists (insert_packet p proc_index s) i ≡ (if i == p.head.seq then true else exists s i)
    insert_packet-exists i a = ground (arith, insert_packet-slot i a inside)

    insert_packet-placed :
        (i : ℕ)
        → InWindow s i
        → exists (insert_packet p proc_index s) i ≡ true
        → ((slot (insert_packet p proc_index s) i).head.seq ≡ i)
          × (i ≤ (insert_packet p proc_index s).highest_seq)
    insert_packet-placed i a e =
        ground (arith, insert_packet-slot i a inside, h.placed i a, insert_packet_fields)

    pub insert_packet-IsHeld : IsHeld (insert_packet p proc_index s)
    unfolding insert_packet set_slot
    insert_packet-IsHeld = record {
      aru_in = (h.aru_in.0, ground (arith, h.aru_in));
      few = ground (arith, h.few);
      held = λ i a b.
          ground (arith, insert_packet-exists i (a, omega (arith, h.aru_in, h.few)), h.held i a b);
      placed = insert_packet-placed;
    }

    -- A packet that is not the next one leaves the gap behind My_aru open.
    pub insert_packet-IsWindow :
        p.head.seq ≢ s.my_aru + 1
        → (s.my_aru < s.highest_seq → exists s (s.my_aru + 1) ≡ false)
        → IsWindow (insert_packet p proc_index s)
    insert_packet-IsWindow other gap = record {
      holds = insert_packet-IsHeld;
      next_missing = λ more.
          let at : InWindow s (s.my_aru + 1) =
            (omega (arith, h.aru_in), omega (arith, more, insert_packet_fields, h.few, inside)) in
          rw insert_packet_fields.0 (
            ground
              (arith, insert_packet-exists (s.my_aru + 1) at, h.placed (s.my_aru + 1) at, gap));
    }
