-- ===== src/Tests/Sending.antt =====
-- Packets made by Send_new_packets at a concrete input.
use tf.Prelude.{ℕ, ◌+◌, ◌≤◌, ◌<◌, ◌≡◌, refl, Option, none, some, []}
use tf.Prelude.Int.{pos, ◌+ℤ◌, ◌-ℤ◌}
use tf.FlowControl.{is_evs}
use tf.NetTypes.{has_bit}
use tf.Protocol.State.{Prot, update}
use tf.Protocol.Send.{send_new_packets}
use tf.Protocol.Send.Count.{send_new_packets-highest_seq}
use tf.Tests.Data.{idle}

abbrev or_idle : Option (ℕ × Prot) → ℕ × Prot
or_idle none = (0, idle)
or_idle (some r) = r

sent : ℕ × Prot
sent = or_idle (send_new_packets (pos 5) idle)

send_new_packets-idle : send_new_packets (pos 5) idle ≡ some (sent.0, sent.1)
unfolding sent send_new_packets update ◌+ℤ◌ ◌-ℤ◌ is_evs has_bit
send_new_packets-idle = refl

-- One packet takes the rest of the first message and the second message.
sent_packets : sent.0 ≡ 1
unfolding sent send_new_packets update ◌+ℤ◌ ◌-ℤ◌ is_evs has_bit
sent_packets = refl

send_new_packets-highest_seq_example :
    (sent.0 ≤ 5)
    × (sent.1.highest_seq ≡ 0 + sent.0)
    × (sent.0 < 5 → sent.1.down_queue.messages ≡ [])
send_new_packets-highest_seq_example =
    send_new_packets-highest_seq (pos 5) idle sent.0 sent.1 send_new_packets-idle
