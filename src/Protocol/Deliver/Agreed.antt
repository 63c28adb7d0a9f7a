-- ===== src/Protocol/Deliver/Agreed.antt =====
-- Deliver_agreed_packets of spread-src-4.4.0/daemon/protocol.c.
use tf.Prelude.{
  ℕ, zero, suc, ◌+◌, ◌-◌, ◌≤◌, ◌<◌, ◌≡◌, ◌⊎◌, inl, inr, refl, arith, true, false, Option, some, sym,
  ap, subst,
}
use native.Mathlib.Decide.{dec_lt}
use native.Mathlib.Nat.{add-zero}
use tf.NetTypes.{is_safe, agreed_type}
use tf.FlowControl.{is_evs}
use tf.Protocol.State.{PacketInfo, Prot, max_packets_in_struct, slot}
use tf.Protocol.Deliver.{
  agreed_round, agreed_loop, after_round, Round, next, stop, exit, deliver_agreed_packets,
}
use tf.Protocol.Deliver.Run.{NoneHalf, IsDeliverable, Ran, Ran-zero, Ran-suc, Passed}
use tf.Protocol.Deliver.OneRound.{RoundOf, agreed_round_lem}

-- The result of the loop over `n` packets from `seq` on, begun in `s`: it returns, after `count`
-- packets, which are all or lead up to a safe packet that was not delivered.
pub record AgreedRun (s : Prot) (seq n : ℕ) (result : Option Prot) : Type 0 where
  pub s' : Prot
  pub count : ℕ
  pub returns : result ≡ some s'
  pub within : count ≤ n
  pub ran : Ran s seq count s'
  pub stopped :
      (count ≡ n)
      ⊎ (((slot s (seq + count)).exist ≡ 1) × (is_safe (slot s (seq + count)).head.type ≡ true))

-- The packets of a range can be delivered.
abbrev pub Ready : Prot → ℕ → ℕ → Type 0
Ready s seq n = (i : ℕ) → seq ≤ i → i < seq + n → IsDeliverable (slot s i)

abbrev StopsAt : PacketInfo → Type 0
StopsAt p = (p.exist ≡ 1) × (is_safe p.head.type ≡ true)

stopped-suc :
    (s s1 : Prot) (seq n count : ℕ)
    → n < max_packets_in_struct
    → count ≤ n
    → Passed s seq s1
    → (count ≡ n) ⊎ StopsAt (slot s1 (seq + 1 + count))
    → (suc count ≡ suc n) ⊎ StopsAt (slot s (seq + suc count))
stopped-suc s s1 seq n count small within p (inl all) = inl (omega arith)
stopped-suc s s1 seq n count small within p (inr at) = elim (dec_lt count n) [
  | no end ↦ inl (omega arith)
  | yes more ↦
      let at_suc : seq + 1 + count ≡ seq + suc count = omega arith in
      let same = p.there (seq + 1 + count) (omega arith) (omega arith) in
      inr (subst (λ i. StopsAt (slot s i)) at_suc (subst StopsAt same at))
]

AgreedRun-suc :
    (s s1 : Prot) (seq n : ℕ) (result : Option Prot)
    → n < max_packets_in_struct
    → Passed s seq s1
    → AgreedRun s1 (seq + 1) n result
    → AgreedRun s seq (suc n) result
AgreedRun-suc s s1 seq n result small p a = record {
  s' = a.s';
  count = suc a.count;
  returns = a.returns;
  within = omega (arith, a.within);
  ran = Ran-suc s s1 a.s' seq a.count (omega (arith, a.within)) p a.ran;
  stopped = stopped-suc s s1 seq n a.count small a.within p a.stopped;
}

after_round-AgreedRun :
    (s : Prot) (seq n : ℕ) (more : Prot → Option Prot) (round : Round)
    → n < max_packets_in_struct
    → NoneHalf s
    → RoundOf s seq round
    → ((s1 : Prot) → Passed s seq s1 → AgreedRun s1 (seq + 1) n (more s1))
    → AgreedRun s seq (suc n) (after_round more round)
after_round-AgreedRun s seq n more (next s1) small h p run =
    AgreedRun-suc s s1 seq n (more s1) small p (run s1 p)
after_round-AgreedRun s seq n more (stop s1) small h (same, one, safe) run = record {
  s' = s;
  count = 0;
  returns = ap some same;
  within = omega arith;
  ran = Ran-zero s seq h;
  stopped = inr (rw add-zero (one, safe));
}
after_round-AgreedRun s seq n more exit small h p run = absurd p

Ready-suc :
    (s s1 : Prot) (seq n : ℕ)
    → n < max_packets_in_struct
    → Passed s seq s1
    → Ready s seq (suc n)
    → Ready s1 (seq + 1) n
Ready-suc s s1 seq n small p ready i a b =
    subst IsDeliverable (sym (p.there i (omega arith) (omega arith)))
      (ready i (omega arith) (omega arith))

agreed_loop-AgreedRun :
    (n seq : ℕ) (s : Prot)
    → n ≤ max_packets_in_struct
    → NoneHalf s
    → Ready s seq n
    → AgreedRun s seq n (agreed_loop n seq s)
unfolding agreed_loop
agreed_loop-AgreedRun zero seq s small h ready = record {
  s' = s;
  count = 0;
  returns = refl;
  within = omega arith;
  ran = Ran-zero s seq h;
  stopped = inl refl;
}
agreed_loop-AgreedRun (suc n) seq s small h ready =
    after_round-AgreedRun s seq n (λ s1. agreed_loop n (seq + 1) s1) (agreed_round seq s)
      (omega arith) h (agreed_round_lem seq s (ready seq (omega arith) (omega arith)) h)
      (λ s1 p.
        agreed_loop-AgreedRun n (seq + 1) s1 (omega arith) p.half
          (Ready-suc s s1 seq n (omega arith) p ready))

runs :
    (s : Prot)
    → is_evs s.memb.state ≡ false
    → s.delivery_threshold ≤ agreed_type
    → s.last_delivered < s.my_aru
    → deliver_agreed_packets s ≡ agreed_loop (s.my_aru - s.last_delivered) (s.last_delivered + 1) s
unfolding deliver_agreed_packets
runs s running low behind = ground arith

-- Outside EVS, with agreed packets let through and no message half delivered, if every packet up to
-- My_aru that was not yet delivered in order is a whole message, at most MAX_PACKETS_IN_STRUCT of
-- them, then Deliver_agreed_packets returns. It delivers the packets behind Last_delivered in the
-- order of their sequence numbers, each of them once, and moves Last_delivered over them; it stops
-- at My_aru or in front of a safe packet, and delivers no safe packet.
pub deliver_agreed_packets-AgreedRun :
    (s : Prot)
    → is_evs s.memb.state ≡ false
    → s.delivery_threshold ≤ agreed_type
    → s.last_delivered < s.my_aru
    → s.my_aru ≤ s.last_delivered + max_packets_in_struct
    → NoneHalf s
    → Ready s (s.last_delivered + 1) (s.my_aru - s.last_delivered)
    → AgreedRun s (s.last_delivered + 1) (s.my_aru - s.last_delivered) (deliver_agreed_packets s)
deliver_agreed_packets-AgreedRun s running low behind few h ready = rw (runs s running low behind) (
    agreed_loop-AgreedRun (s.my_aru - s.last_delivered) (s.last_delivered + 1) s (omega arith) h
      ready)
