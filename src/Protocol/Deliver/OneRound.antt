-- ===== src/Protocol/Deliver/OneRound.antt =====
-- One round of the loop of Deliver_agreed_packets, spread-src-4.4.0/daemon/protocol.c.
use tf.Prelude.{ℕ, ◌+◌, ◌<◌, ◌≡◌, inl, inr, refl, arith, true, false, some, append-nil, Bool-cases}
use tf.NetTypes.{is_safe, regular_of, agreed_type}
use tf.Protocol.State.{Prot, max_packets_in_struct, update, slot, set_slot}
use tf.Protocol.Deliver.{deliver_packet, agreed_round, Round, next, stop, exit}
use tf.Protocol.Deliver.Run.{NoneHalf, whole_delivered, deliver_packet-whole, IsDeliverable, Passed}

abbrev pub counted : Prot → Prot
counted s = record s { last_delivered = s.last_delivered + 1 }

whole_delivered-others :
    (seq : ℕ) (s : Prot) (i : ℕ)
    → seq < i
    → i < seq + max_packets_in_struct
    → slot (whole_delivered seq s) i ≡ slot s i
unfolding whole_delivered set_slot update
whole_delivered-others seq s i a b = ground arith

whole_delivered-Passed :
    (seq : ℕ) (s : Prot)
    → (slot s seq).exist ≡ 1
    → is_safe (slot s seq).head.type ≡ false
    → NoneHalf s
    → Passed s seq (counted (whole_delivered seq s))
unfolding whole_delivered set_slot
whole_delivered-Passed seq s one unsafe h = record {
  counted = refl;
  said = ground arith;
  half = λ w. unfold update in (ground (arith, h w));
  here = unfold set_slot update in (ground arith);
  open_here = λ _. unsafe;
  there = whole_delivered-others seq s;
}

counted-Passed :
    (seq : ℕ) (s : Prot) → (slot s seq).exist ≡ 2 → NoneHalf s → Passed s seq (counted s)
counted-Passed seq s two h = record {
  counted = refl;
  said = ground (arith, append-nil s.out);
  half = h;
  here = two;
  open_here = λ one. absurd (omega arith);
  there = λ i a b. refl;
}

-- One round on a packet that can be delivered.
abbrev pub RoundOf : Prot → ℕ → Round → Type 0
RoundOf s seq exit = ⊥
RoundOf s seq (stop s') =
    (s' ≡ s) × ((slot s seq).exist ≡ 1) × (is_safe (slot s seq).head.type ≡ true)
RoundOf s seq (next s') = Passed s seq s'

module _ (seq : ℕ) (s : Prot) where
  agreed_round-safe :
      (slot s seq).exist ≡ 1 → is_safe (slot s seq).head.type ≡ true → agreed_round seq s ≡ stop s
  unfolding agreed_round
  agreed_round-safe one safe = ground arith

  agreed_round-one :
      (slot s seq).exist ≡ 1
      → is_safe (slot s seq).head.type ≡ false
      → deliver_packet seq s ≡ some (whole_delivered seq s)
      → agreed_round seq s ≡ next (counted (whole_delivered seq s))
  unfolding agreed_round
  agreed_round-one one unsafe e = ground arith

  agreed_round-two :
      (slot s seq).exist ≡ 2
      → regular_of (slot s seq).head.type < agreed_type
      → agreed_round seq s ≡ next (counted s)
  unfolding agreed_round
  agreed_round-two two early = ground arith

  pub agreed_round_lem :
      IsDeliverable (slot s seq) → NoneHalf s → RoundOf s seq (agreed_round seq s)
  agreed_round_lem d h = elim d.state [
    | inr early ↦ rw (agreed_round-two early.0 early.1) (counted-Passed seq s early.0 h)
    | inl one ↦ elim (Bool-cases (is_safe (slot s seq).head.type)) [
      | inl safe ↦ rw (agreed_round-safe one safe) (refl, one, safe)
      | inr unsafe ↦
          rw (agreed_round-one one unsafe (deliver_packet-whole seq s d.whole h))
            (whole_delivered-Passed seq s one unsafe h)
    ]
  ]
