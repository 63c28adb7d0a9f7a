-- ===== src/Protocol/Send/Count.antt =====
-- The count of Send_new_packets, spread-src-4.4.0/daemon/protocol.c.
use tf.Prelude.{
  ℕ, zero, suc, ◌+◌, ◌≤◌, ◌<◌, ◌≡◌, ◌∙◌, refl, arith, true, false, Bool-cases, inl, inr, Option,
  none, some, List, [], ◌∷◌, get_or, ap,
}
use tf.Prelude.Int.{ℤ, pos_part}
use tf.NetTypes.{sizeof_packet_body}
use tf.Protocol.Fragment.{DownLink, DownQueue, Filling, filled, exit, out_of_fuel, fill, advance}
use tf.Protocol.State.{Packet, Prot, set_slot, emit}
use tf.Protocol.Send.{
  queue_bcast, num_pack_to_send, sends_at_once, insert_new, insert_filled, send_packet, and_then,
  send_loop, send_new_packets,
}
use tf.Protocol.Send.Queue.{send_first-Left}
use tf.Protocol.Send.Window.{queue_bcast-eq}

queue_bcast-highest_seq : (p : Packet) (s : Prot) → (queue_bcast p s).1.highest_seq ≡ s.highest_seq
unfolding emit
queue_bcast-highest_seq p s =
    let same = (send_first-Left (num_pack_to_send s) s.send_pack_queue s refl).highest_seq in
    elim (Bool-cases (sends_at_once s)) [
      | inl e ↦ ap (λ s'. s'.highest_seq) (queue_bcast-eq p s true e) ∙ same
      | inr e ↦ ap (λ s'. s'.highest_seq) (queue_bcast-eq p s false e) ∙ same
    ]

insert_new-highest_seq :
    (p : Packet) (d : DownQueue) (s s' : Prot)
    → insert_new p d s ≡ some s'
    → s'.highest_seq ≡ s.highest_seq + 1
unfolding insert_new set_slot
insert_new-highest_seq p d s s' e = ground (
  arith,
  e,
  queue_bcast-highest_seq p (record s {
    highest_seq = s.highest_seq + 1;
    highest_fifo_seq = s.highest_fifo_seq + 1;
    down_queue = d;
  }),
)

insert_filled-highest_seq :
    (type : ℕ) (index : ℤ) (element : List ℕ) (s s' : Prot) (f : Filling)
    → insert_filled type index element s f ≡ some s'
    → s'.highest_seq ≡ s.highest_seq + 1
insert_filled-highest_seq type index element s s' (filled body d) e =
    insert_new-highest_seq _ d s s' e
insert_filled-highest_seq type index element s s' exit e = cc
insert_filled-highest_seq type index element s s' out_of_fuel e = cc

send_packet-highest_seq :
    (m : DownLink) (rest : List DownLink) (s s' : Prot)
    → send_packet m rest s ≡ some s'
    → s'.highest_seq ≡ s.highest_seq + 1
unfolding send_packet
send_packet-highest_seq m rest s s' e = from (advance m rest s.down_queue) e
  where
    element : List ℕ
    element = get_or m.elements s.down_queue.cur_element []

    from :
        (o : Option (ℤ × DownQueue))
        → (elim o as (λ _. Option Prot) [
          | none ↦ none
          | some (index, d) ↦
              insert_filled m.type index element s (fill (suc sizeof_packet_body) m.type element d)
        ])
          ≡ some s'
        → s'.highest_seq ≡ s.highest_seq + 1
    from none h = cc
    from (some (index, d)) h = insert_filled-highest_seq m.type index element s s' _ h

-- From `s` to `s'` the count went from `k` to `k'`, by at most `n`, and Highest_seq with it; it went
-- by less only if the down queue is empty.
record Counted (n k : ℕ) (s : Prot) (k' : ℕ) (s' : Prot) : Type 0 where
  within : (k ≤ k') × (k' ≤ k + n)
  highest_seq : s'.highest_seq + k ≡ s.highest_seq + k'
  stopped : k' < k + n → s'.down_queue.messages ≡ []

module _ (n k : ℕ) (s : Prot) (k' : ℕ) (s' : Prot) where
  Counted-stop :
      s.down_queue.messages ≡ []
      → ◌≡◌ {A = Option (ℕ × Prot)} (some (k, s)) (some (k', s'))
      → Counted n k s k' s'
  Counted-stop empty e = record {
    within = (ground (arith, e), ground (arith, e));
    highest_seq = ground (arith, e);
    stopped = λ h. ground (arith, e, empty);
  }

  Counted-suc :
      (s1 : Prot)
      → s1.highest_seq ≡ s.highest_seq + 1
      → Counted n (k + 1) s1 k' s'
      → Counted (suc n) k s k' s'
  Counted-suc s1 up c = record {
    within = (omega (arith, c.within), omega (arith, c.within));
    highest_seq = omega (arith, c.highest_seq, up);
    stopped = λ h. c.stopped (omega (arith, h));
  }

send_loop-Counted :
    (n k : ℕ) (s : Prot) (k' : ℕ) (s' : Prot)
    → send_loop n k s ≡ some (k', s')
    → Counted n k s k' s'
unfolding send_loop
send_loop-Counted zero k s k' s' e = record {
  within = (ground (arith, e), ground (arith, e));
  highest_seq = ground (arith, e);
  stopped = λ h. absurd (ground (arith, e, h));
}
send_loop-Counted (suc n) k s k' s' e =
    from (λ s1 h. send_loop-Counted n (k + 1) s1 k' s' h) s.down_queue.messages refl e
  where
    sent :
        ((s1 : Prot) → send_loop n (k + 1) s1 ≡ some (k', s') → Counted n (k + 1) s1 k' s')
        → (m : DownLink) (rest : List DownLink) (o : Option Prot) → send_packet m rest s ≡ o
        → and_then (λ s1. send_loop n (k + 1) s1) o ≡ some (k', s')
        → Counted (suc n) k s k' s'
    sent ih m rest none is_o h = absurd (cc h)
    sent ih m rest (some s1) is_o h =
        Counted-suc n k s k' s' s1 (send_packet-highest_seq m rest s s1 is_o) (ih s1 h)

    from :
        ((s1 : Prot) → send_loop n (k + 1) s1 ≡ some (k', s') → Counted n (k + 1) s1 k' s')
        → (ms : List DownLink) → s.down_queue.messages ≡ ms
        → (elim ms as (λ _. Option (ℕ × Prot)) [
          | [] ↦ some (k, s)
          | m ∷ rest ↦ and_then (λ s1. send_loop n (k + 1) s1) (send_packet m rest s)
        ])
          ≡ some (k', s')
        → Counted (suc n) k s k' s'
    from ih [] is_ms h = Counted-stop (suc n) k s k' s' is_ms h
    from ih (m ∷ rest) is_ms h = sent ih m rest (send_packet m rest s) refl h

-- Where no alarm ends the process, Send_new_packets makes no more packets than it is allowed, and
-- fewer only if the down queue is empty then. Highest_seq rises by the number that it returns.
pub send_new_packets-highest_seq :
    (num_allowed : ℤ) (s : Prot) (num_sent : ℕ) (s' : Prot)
    → send_new_packets num_allowed s ≡ some (num_sent, s')
    → (num_sent ≤ pos_part num_allowed)
      × (s'.highest_seq ≡ s.highest_seq + num_sent)
      × (num_sent < pos_part num_allowed → s'.down_queue.messages ≡ [])
unfolding send_new_packets
send_new_packets-highest_seq num_allowed s num_sent s' e =
    let c = send_loop-Counted (pos_part num_allowed) 0 s num_sent s' e in
    (omega (arith, c.within), omega (arith, c.highest_seq), λ h. c.stopped (omega (arith, h)))
