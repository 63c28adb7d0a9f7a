-- ===== src/Protocol/Deliver.antt =====
-- spread-src-4.4.0/daemon/protocol.c:
-- Deliver_packet, Deliver_reliable_packets, Deliver_agreed_packets and
-- Discard_packets. `none` is the end of the process by an alarm.
-- The source hands out a packet's buffer or a copy of it (`to_copy`); here bytes are values, and a
-- delivered slot keeps its body.
pub mod Run
pub mod OneRound
pub mod Agreed
use mathlib.Core.Option
use tf.Prelude.{
  ℕ, zero, suc, ◌+◌, ◌-◌, ◌^◌, Bool, true, false, not, ◌&&◌, ◌||◌, ◌==◌, ltb, leb, if◌then◌else◌,
  Option, none, some, List, [], ◌∷◌, ◌++◌, length, take, map, max,
}
use tf.Prelude.Int.{ℤ, pos, negsuc, pos_part, neg_part}
use tf.NetTypes.{
  is_reliable, is_safe, regular_of, reliable_type, agreed_type, FragmentHeader, PacketHeader,
  MembershipId,
}
use tf.Configuration.{Configuration, id_in_conf, num_procs}
use tf.FlowControl.{is_evs}
use tf.Protocol.Fragment.{later_messages, DownQueue}
use tf.Protocol.State.{
  Packet, PacketInfo, Prot, Effect, deliver, queue, deliver_trans_memb, deliver_reg_memb,
  net_clear_partition, max_procs_ring, max_packets_in_struct, entry, update, emit, slot, exists,
  set_slot,
}

abbrev pub is_negative : ℤ → Bool
is_negative (pos n) = false
is_negative (negsuc n) = true

-- fragment_index == -1: the only fragment of its message
unfoldable pub is_whole : PacketHeader → Bool
is_whole h = neg_part h.first_frag_header.fragment_index == 1

-- The messages of the fragments behind the first, in the order of the packet.
unfoldable pub messages_behind : PacketInfo → List (List ℕ)
unfolding later_messages
messages_behind p =
    later_messages (suc p.head.data_len) p.head.data_len p.body
      p.head.first_frag_header.fragment_len

-- The entry of Up_queue where the first fragment goes.
unfoldable pub up_entry : PacketInfo → ℕ
unfolding is_reliable is_whole
up_entry p = if is_reliable p.head.type && is_whole p.head then max_procs_ring else p.proc_index

abbrev pub chained : Option (List (List ℕ)) → List (List ℕ)
chained none = []
chained (some es) = es

abbrev pub deliver_all : List (List ℕ) → List Effect
deliver_all [] = []
deliver_all (m ∷ ms) = deliver (m ∷ []) ∷ deliver_all ms

-- Deliver_packet, of the packet in the slot of `seq`.
unfoldable pub deliver_packet : ℕ → Prot → Option Prot
unfolding up_entry messages_behind update set_slot
deliver_packet seq s =
    let p = slot s seq in
    let first = p.head.first_frag_header in
    let index = first.fragment_index in
    let who = up_entry p in
    let chain = chained (s.up_queue who) in
    let chain' = chain ++ (take first.fragment_len p.body ∷ []) in
    let s' = set_slot s seq (record p { exist = 2 }) in
    if length chain + 1 == pos_part index + neg_part index
    then some (
        if is_negative index
        then record s' {
          up_queue = update s.up_queue who none;
          out = s.out ++ (deliver chain' ∷ deliver_all (messages_behind p));
        }
        else record s' {
          up_queue = update s.up_queue who (some chain');
          out = s.out ++ deliver_all (messages_behind p);
        })
    else none

-- The loop of Deliver_reliable_packets: `n` packets from `seq` on.
unfoldable pub reliable_loop : ℕ → ℕ → Prot → Option Prot
unfolding deliver_packet is_whole is_reliable
reliable_loop zero seq s = some s
reliable_loop (suc n) seq s =
    let p = slot s seq in
    if p.exist == 1 && (is_reliable p.head.type && is_whole p.head)
    then Option.bind (deliver_packet seq s) (λ s'. reliable_loop n (seq + 1) s')
    else reliable_loop n (seq + 1) s

unfoldable pub deliver_reliable_packets : ℕ → ℕ → Prot → Option Prot
unfolding reliable_loop is_evs
deliver_reliable_packets start_seq num_packets s =
    if is_evs s.memb.state || ltb reliable_type s.delivery_threshold
    then some s
    else let start = if leb start_seq s.last_delivered then s.last_delivered + 1 else start_seq in
      reliable_loop (start_seq + num_packets - start) start s

unfoldable pub deliver_all_reliable_packets_event : Prot → Option Prot
unfolding deliver_reliable_packets
deliver_all_reliable_packets_event s = deliver_reliable_packets 1 s.highest_seq s

-- One round of the loop of Deliver_agreed_packets.
pub data Round : Type 0 where
  next : Prot → Round
  stop : Prot → Round
  exit : Round

abbrev pub delivered_round : Option Prot → Round
delivered_round none = exit
delivered_round (some s) = next (record s { last_delivered = s.last_delivered + 1 })

unfoldable pub agreed_round : ℕ → Prot → Round
unfolding deliver_packet is_safe regular_of
agreed_round seq s =
    let p = slot s seq in
    if p.exist == 1
    then (if is_safe p.head.type then stop s else delivered_round (deliver_packet seq s))
    else if p.exist == 2
    then (if leb agreed_type (regular_of p.head.type)
        then exit
        else next (record s { last_delivered = s.last_delivered + 1 }))
    else exit

abbrev pub after_round : (Prot → Option Prot) → Round → Option Prot
after_round more (next s) = more s
after_round more (stop s) = some s
after_round more exit = none

unfoldable pub agreed_loop : ℕ → ℕ → Prot → Option Prot
unfolding agreed_round
agreed_loop zero seq s = some s
agreed_loop (suc n) seq s = after_round (λ s'. agreed_loop n (seq + 1) s') (agreed_round seq s)

unfoldable pub deliver_agreed_packets : Prot → Option Prot
unfolding agreed_loop is_evs
deliver_agreed_packets s =
    if leb s.my_aru s.last_delivered
      || (is_evs s.memb.state || ltb agreed_type s.delivery_threshold)
    then some s
    else agreed_loop (s.my_aru - s.last_delivered) (s.last_delivered + 1) s

-- A packet that leaves: it is delivered unless it was, and its slot is empty then.
unfoldable pub discard_packet : ℕ → Prot → Option Prot
unfolding deliver_packet set_slot
discard_packet seq s =
    Option.map (λ s'. set_slot s' seq (record (slot s' seq) { exist = 0 }))
      (if (slot s seq).exist == 1 then deliver_packet seq s else some s)

-- The loop of Discard_packets outside EVS.
unfoldable pub discard_loop : ℕ → ℕ → Prot → Option Prot
unfolding discard_packet
discard_loop zero seq s = some s
discard_loop (suc n) seq s =
    if (slot s seq).exist == 0
    then none
    else Option.bind (discard_packet seq s) (λ s'. discard_loop n (seq + 1) s')

abbrev pub discarded : Prot → Prot
discarded s = record s {
  last_discarded = s.aru;
  last_delivered = if ltb s.last_delivered s.aru then s.aru else s.last_delivered;
}

unfoldable pub discard_stable : Prot → Option Prot
unfolding discard_loop
discard_stable s =
    Option.map discarded (discard_loop (s.aru - s.last_discarded) (s.last_discarded + 1) s)
