-- ===== src/Protocol/Send.antt =====
-- spread-src-4.4.0/daemon/protocol.c:
-- Prot_queue_bcast, Prot_flush_bcast and Send_new_packets. `none` is the end of
-- the process by an alarm. Net_bcast, in network.c, writes `transmiter_id` and `conf_hash`, which
-- are 0 here.
pub mod Queue
pub mod Window
pub mod Count
use tf.Prelude.{
  ℕ, zero, suc, ◌+◌, ◌-◌, Bool, true, false, not, ◌||◌, ◌==◌, ltb, if◌then◌else◌, Option, none,
  some, List, [], ◌∷◌, ◌++◌, length, get_or,
}
use tf.Prelude.Int.{ℤ, pos, negsuc, pos_part, ◌+ℤ◌, ◌-ℤ◌, ltb_ℤ}
use tf.NetTypes.{PacketHeader, sizeof_packet_body}
use tf.FlowControl.{is_evs}
use tf.Protocol.Fragment.{DownLink, DownQueue, Filling, filled, exit, out_of_fuel, advance, fill}
use tf.Protocol.State.{Packet, Prot, bcast, entry, emit, slot, set_slot}

abbrev pub stamped : ℕ → Packet → Packet
stamped round p = record p { head = record p.head { token_round = round } }

-- Sends a packet with the present round in its header. The slot of a queued packet points to the
-- same header.
unfoldable pub send_queued : Packet → Prot → Prot
unfolding set_slot emit
send_queued p s =
    let q = stamped s.token_rounds p in
    let old = slot s p.head.seq in
    emit (bcast q) (
      set_slot s p.head.seq
        (record old { head = record old.head { token_round = s.token_rounds } }))

-- The first `n` packets of the queue leave it.
unfoldable pub send_first : ℕ → Prot → Prot
unfolding send_queued
send_first zero s = s
send_first (suc n) s = elim s.send_pack_queue [
  | [] ↦ s
  | p ∷ ps ↦ send_first n (send_queued p (record s { send_pack_queue = ps }))
]

-- How many packets of the queue leave it before a new packet.
unfoldable pub num_pack_to_send : Prot → ℕ
unfolding is_evs
num_pack_to_send s =
    let n = length s.send_pack_queue in
    if not s.flow_control.accelerated_ring || is_evs s.memb.state
    then n
    else let m = pos n -ℤ s.flow_control.accelerated_window +ℤ pos 1 in
      if ltb_ℤ m (pos 0) then 0 else if ltb_ℤ (pos n) m then n else pos_part m

abbrev pub is_zero_ℤ : ℤ → Bool
is_zero_ℤ (pos n) = n == 0
is_zero_ℤ (negsuc n) = false

-- The new packet is sent at once; otherwise it waits.
unfoldable pub sends_at_once : Prot → Bool
unfolding is_evs
sends_at_once s =
    not s.flow_control.accelerated_ring
    || (is_zero_ℤ s.flow_control.accelerated_window || is_evs s.memb.state)

-- The packet comes back with the header that it has then.
unfoldable pub queue_bcast : Packet → Prot → Packet × Prot
unfolding send_first num_pack_to_send sends_at_once emit
queue_bcast p s =
    let s' = send_first (num_pack_to_send s) s in
    if sends_at_once s
    then (stamped s.token_rounds p, emit (bcast (stamped s.token_rounds p)) s')
    else (p, record s' { send_pack_queue = s'.send_pack_queue ++ (p ∷ []) })

unfoldable pub flush_bcast : Prot → Prot
unfolding send_first
flush_bcast s = send_first (length s.send_pack_queue) s

-- The packet that begins with `element`, of the fragment index `index`.
abbrev pub new_head : Prot → ℕ → ℤ → ℕ → ℕ → PacketHeader
new_head s type index element_len data_len = record {
  type = type;
  transmiter_id = 0;
  proc_id = s.my.id;
  memb_id = s.memb.membership_id;
  seq = s.highest_seq + 1;
  token_round = 0;
  conf_hash = 0;
  data_len = data_len;
  first_frag_header = record { fragment_index = index; fragment_len = element_len };
}

-- A filled packet is queued and put into its slot, which has to be empty.
unfoldable pub insert_new : Packet → DownQueue → Prot → Option Prot
unfolding queue_bcast set_slot
insert_new p d s =
    let (q, s') = queue_bcast p (record s {
      highest_seq = s.highest_seq + 1;
      highest_fifo_seq = s.highest_fifo_seq + 1;
      down_queue = d;
    }) in
    if (slot s' q.head.seq).exist == 0
    then some (
        set_slot s' q.head.seq
          (record { head = q.head; body = q.body; exist = 1; proc_index = s.my_index }))
    else none

abbrev pub insert_filled : (type : ℕ) → (index : ℤ) → List ℕ → Prot → Filling → Option Prot
insert_filled type index element s (filled body d) =
    insert_new (record { head = new_head s type index (length element) (length body); body = body })
      d s
insert_filled type index element s exit = none
insert_filled type index element s out_of_fuel = none

-- One packet, from a down queue whose first message is `m`.
unfoldable pub send_packet : DownLink → List DownLink → Prot → Option Prot
unfolding advance fill insert_new
send_packet m rest s =
    let element = get_or m.elements s.down_queue.cur_element [] in
    elim (advance m rest s.down_queue) [
      | none ↦ none
      | some (index, d) ↦
          insert_filled m.type index element s (fill (suc sizeof_packet_body) m.type element d)
    ]

abbrev pub and_then : (Prot → Option (ℕ × Prot)) → Option Prot → Option (ℕ × Prot)
and_then more none = none
and_then more (some s) = more s

unfoldable pub send_loop : ℕ → ℕ → Prot → Option (ℕ × Prot)
unfolding send_packet
send_loop zero num_sent s = some (num_sent, s)
send_loop (suc n) num_sent s = elim s.down_queue.messages [
  | [] ↦ some (num_sent, s)
  | m ∷ rest ↦ and_then (λ s'. send_loop n (num_sent + 1) s') (send_packet m rest s)
]

-- `num_allowed` is not negative where Prot_handle_token calls.
unfoldable pub send_new_packets : ℤ → Prot → Option (ℕ × Prot)
unfolding send_loop
send_new_packets num_allowed s = send_loop (pos_part num_allowed) 0 s
