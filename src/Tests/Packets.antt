-- ===== src/Tests/Packets.antt =====
-- Packets received, delivered, filled and sent, at concrete inputs.
use mathlib.Core.Option
use tf.Prelude.{
  ℕ, suc, ◌≤◌, ◌<◌, ◌≡◌, ◌≢◌, ◌⊎◌, inl, inr, refl, arith, true, false, Option, none, some, [], ◌∷◌,
  length,
}
use tf.Configuration.{proc_by_id_in_conf}
use tf.NetTypes.{sizeof_packet_body, regular_of}
use tf.FlowControl.{is_evs}
use tf.Protocol.Fragment.{fill}
use tf.Protocol.Fragment.Pending.{IsQueue, pending}
use tf.Protocol.Fragment.Fill.{IsPacked, fill-IsPacked}
use tf.Protocol.State.{Prot, deliver, exists, update}
use tf.Protocol.Deliver.{deliver_agreed_packets}
use tf.Protocol.Deliver.Agreed.{AgreedRun, Ready, deliver_agreed_packets-AgreedRun}
use tf.Protocol.Send.{queue_bcast, flush_bcast}
use tf.Protocol.Send.Window.{Queued, is_accelerating, queue_bcast-Queued, flush_bcast-Queued}
use tf.Protocol.Receive.{accept_packet}
use tf.Protocol.Receive.Window.{IsWindow}
use tf.Protocol.Receive.Accept.{LosesNone, accept_packet-IsWindow}
use tf.Tests.Data.{packet, idle, busy, down_queue}

down_queue-IsQueue : IsQueue down_queue
down_queue-IsQueue = record { nonempty = (omega arith, (omega arith, tt)); current = omega arith }

fill-IsPacked_example :
    IsPacked
      (1 ∷ 2 ∷ 3 ∷ [])
      (pending down_queue)
      (fill (suc sizeof_packet_body) 8 (1 ∷ 2 ∷ 3 ∷ []) down_queue)
fill-IsPacked_example = fill-IsPacked 8 (1 ∷ 2 ∷ 3 ∷ []) down_queue down_queue-IsQueue (omega arith)

two_held : (i : ℕ) → 1 ≤ i → i < 3 → (i ≡ 1) ⊎ (i ≡ 2)
two_held i a b = omega arith

busy-Ready : Ready busy 1 2
unfolding regular_of
busy-Ready i a b = elim (two_held i a b) [
  | inl e ↦ rw e (record { whole = refl; state = inl refl })
  | inr e ↦ rw e (record { whole = refl; state = inl refl })
]

not_evs : is_evs busy.memb.state ≡ false
unfolding is_evs
not_evs = refl

deliver_agreed_packets-AgreedRun_example : AgreedRun busy 1 2 (deliver_agreed_packets busy)
deliver_agreed_packets-AgreedRun_example =
    deliver_agreed_packets-AgreedRun busy not_evs (omega arith) (omega arith) (omega arith)
      (λ w. refl) busy-Ready

-- The agreed packet 1 goes up, and the safe packet 2 waits.
deliver_agreed_packets-busy :
    Option.map (λ s. s.out) (deliver_agreed_packets busy) ≡ some (deliver ((7 ∷ 1 ∷ []) ∷ []) ∷ [])
unfolding deliver_agreed_packets update
deliver_agreed_packets-busy = refl

queue_bcast-Queued_example :
    let s' = (queue_bcast (packet 8 5) busy).1 in
    Queued busy (packet 8 5 ∷ []) s'
    × (is_accelerating busy ≡ true → length s'.send_pack_queue ≤ 2)
    × (is_accelerating busy ≡ false → s'.send_pack_queue ≡ [])
queue_bcast-Queued_example = queue_bcast-Queued (packet 8 5) busy (omega arith)

flush_bcast-Queued_example :
    Queued busy [] (flush_bcast busy) × ((flush_bcast busy).send_pack_queue ≡ [])
flush_bcast-Queued_example = flush_bcast-Queued busy

idle-IsWindow : IsWindow idle
idle-IsWindow = record {
  holds = record {
    aru_in = (omega arith, omega arith);
    few = omega arith;
    held = λ i a b. absurd (omega arith);
    placed = λ i a e. absurd (cc e);
  };
  next_missing = λ h. absurd (omega arith);
}

abbrev or_idle : Option Prot → Prot
or_idle none = idle
or_idle (some s) = s

-- The state behind the first packet.
first_accepted : Prot
first_accepted = or_idle (accept_packet (packet 8 1) idle)

accept_packet-first : accept_packet (packet 8 1) idle ≡ some first_accepted
unfolding first_accepted accept_packet proc_by_id_in_conf
accept_packet-first = refl

sender_known : proc_by_id_in_conf idle.memb.cn 20 ≢ none
unfolding proc_by_id_in_conf
sender_known e = absurd (cc e)

accept_packet-IsWindow_example :
    IsWindow first_accepted
    × LosesNone idle first_accepted
    × (0 < 1 → exists first_accepted 1 ≡ true)
accept_packet-IsWindow_example =
    accept_packet-IsWindow (packet 8 1) idle first_accepted idle-IsWindow (omega arith) sender_known
      accept_packet-first
