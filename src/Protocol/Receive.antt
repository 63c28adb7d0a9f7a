-- ===== src/Protocol/Receive.antt =====
-- spread-src-4.4.0/daemon/protocol.c:
-- Prot_handle_bcast, Handle_hurry, Prot_token_hurry and Prot_new_message.
-- `none` is the end of the process by an alarm. The descriptors that change their priority, and
-- the repair of fragment headers of the other byte order, are not modelled.
pub mod Window
pub mod Keeps
pub mod Accept
use mathlib.Core.Option
use tf.Prelude.{
  ℕ, zero, suc, ◌+◌, ◌-◌, Bool, true, false, not, ◌&&◌, ◌||◌, ◌==◌, ltb, leb, if◌then◌else◌, Option,
  none, some, List, [], ◌∷◌, ◌++◌, length,
}
use tf.Configuration.{Configuration, leader, id_in_conf, proc_by_id_in_conf, seg_last}
use tf.NetTypes.{
  PacketHeader, TokenHeader, is_status, is_fc, is_conf_reload, is_membership, is_hurry, is_regular,
  memb_is_equal, get_retrans, set_retrans,
}
use tf.FlowControl.{MembState}
use tf.Membership.{Membership, Timer, active_ptr, memb_token_loss_event, prot_token_hurry_event}
use tf.Protocol.Fragment.{DownLink, DownQueue, LevelCall, block_users_level, water_mark}
use tf.Protocol.State.{
  Packet, PacketInfo, Prot, Effect, queue, ucast_hurry, send_token, initiate_conf_reload,
  stat_handle_message, fc_handle_message, memb_handle_message, entry, emit, slot, exists, set_slot,
}
use tf.Protocol.Deliver.{deliver_reliable_packets, deliver_agreed_packets}

-- Conf_leader( Memb_active_ptr() ) == My.id; an empty configuration ends the process.
unfoldable pub is_leader : Prot → Option Bool
unfolding leader active_ptr
is_leader s = Option.map (λ id. id == s.my.id) (leader (active_ptr s.memb))

-- Is_token_hold and To_hold_token.
unfoldable pub is_token_hold : Prot → Bool
is_token_hold s =
    (elim s.memb.state [ MembState.op ↦ true | MembState.gather ↦ s.memb.token_alive | _ ↦ false ])
    && (leb (get_retrans s.last_token.type) 1 && (s.aru == s.highest_seq && ltb 1 s.token_counter))

abbrev pub times : ℕ → Effect → List Effect
times zero e = []
times (suc n) e = e ∷ times n e

-- Prot_token_hurry: the last token is sent again, with no requests on it.
unfoldable pub token_hurry : Prot → Option Prot
unfolding is_leader emit
token_hurry s = Option.bind (is_leader s) (λ leads.
    Option.bind (if s.wide_network then seg_last (active_ptr s.memb) s.my.seg_index else some 0)
      (λ last.
        let token = record s.last_token {
          rtr_len = 0;
          type =
              if leads
              then set_retrans s.last_token.type (get_retrans s.last_token.type + 1)
              else s.last_token.type;
        } in
        let again = if s.wide_network && last == s.my.id then 1 else 0 in
        let problems = if ltb 1 (get_retrans token.type) then 2 else 0 in
        let timers = if leads then queue prot_token_hurry_event ∷ [] else [] in
        some (record s {
          last_token = token;
          out = s.out ++ (timers ++ times (1 + again + problems) (send_token token []));
        })))

-- Handle_hurry, of a packet from `proc_id`.
unfoldable pub handle_hurry : ℕ → Prot → Option Prot
unfolding is_leader is_token_hold token_hurry
handle_hurry proc_id s = Option.bind (is_leader s) (λ leads.
    if leads && is_token_hold s
    then (elim (id_in_conf (active_ptr s.memb) proc_id) [
      | none ↦ some s
      | some _ ↦ token_hurry (record s { token_counter = 0 })
    ])
    else some s)

-- Prot_new_message: the session layer hands down a message.
unfoldable pub new_message : DownLink → Prot → Option Prot
unfolding is_token_hold handle_hurry emit
new_message m s =
    let ms = s.down_queue.messages ++ (m ∷ []) in
    let s' = record s {
      down_queue = record s.down_queue {
        messages = ms;
        calls =
            if leb water_mark (length ms)
            then s.down_queue.calls ++ (block_users_level ∷ [])
            else s.down_queue.calls;
      };
    } in
    if length ms == 1 && is_token_hold s'
    then (Option.bind (leader (active_ptr s'.memb)) (λ id.
        if id == s'.my.id then handle_hurry s'.my.id s' else some (emit (ucast_hurry id) s')))
    else some s'

-- The loops `for( i = My_aru+1; i <= Highest_seq; i++ )`: My_aru moves over the packets that are
-- there, in at most `n` rounds.
unfoldable pub contiguous : (ℕ → Bool) → ℕ → ℕ → ℕ
contiguous there zero aru = aru
contiguous there (suc n) aru =
    let more = contiguous there n (aru + 1) in if there (aru + 1) then more else aru

unfoldable pub raise_my_aru : Prot → Prot
unfolding contiguous
raise_my_aru s = record s { my_aru = contiguous (exists s) (s.highest_seq - s.my_aru) s.my_aru }

-- A packet of the present membership, behind the checks of its type.
unfoldable pub restart_timers : Prot → Option Prot
unfolding is_leader emit
restart_timers s =
    if s.memb.token_alive
    then (Option.map
        (λ leads.
          let s' = emit (queue memb_token_loss_event) s in
          if leads then emit (queue prot_token_hurry_event) s' else s')
        (is_leader s))
    else some s

-- Whether the token channels get the higher priority.
unfoldable pub raises_token : PacketHeader → Prot → Bool
raises_token h s =
    s.flow_control.accelerated_ring
    && (not s.token_has_priority
        && (ltb s.received_token_rounds h.token_round && h.transmiter_id == s.prev_proc_id))

-- The slot of a new packet is filled, and the counters follow.
unfoldable pub insert_packet : Packet → ℕ → Prot → Prot
unfolding set_slot raises_token
insert_packet p proc_index s =
    let s' =
      set_slot s p.head.seq
        (record { head = p.head; body = p.body; exist = 1; proc_index = proc_index }) in
    record s' {
      token_has_priority = s.token_has_priority || raises_token p.head s;
      highest_seq = if ltb s.highest_seq p.head.seq then p.head.seq else s.highest_seq;
    }

-- The deliveries that a new packet makes possible.
unfoldable pub deliver_new : ℕ → Prot → Option Prot
unfolding raise_my_aru deliver_agreed_packets deliver_reliable_packets
deliver_new seq s =
    if seq == s.my_aru + 1
    then deliver_agreed_packets (raise_my_aru s)
    else deliver_reliable_packets seq 1 s

-- A packet of the present membership. Where the sender is not known, its index is not stored, as
-- the slot stays empty.
unfoldable pub accept_packet : Packet → Prot → Option Prot
unfolding insert_packet deliver_new
accept_packet p s =
    if leb p.head.seq s.last_discarded
    then some s
    else if exists s p.head.seq
    then some s
    else elim (proc_by_id_in_conf s.memb.cn p.head.proc_id) [
      | none ↦ some s
      | some (proc_index, _) ↦ deliver_new p.head.seq (insert_packet p proc_index s)
    ]

-- Prot_handle_conf_reload.
unfoldable pub handle_conf_reload : Prot → Prot
unfolding emit
handle_conf_reload s = elim s.memb.state [
  | MembState.op ↦ emit initiate_conf_reload s
  | _ ↦ record s { need_conf_reload = true }
]

-- Prot_handle_bcast, of a packet that was received.
unfoldable pub handle_bcast : Packet → Prot → Option Prot
unfolding emit handle_conf_reload handle_hurry restart_timers accept_packet memb_is_equal
handle_bcast p s =
    let type = p.head.type in
    if is_status type
    then some (emit stat_handle_message s)
    else if is_fc type
    then some (emit fc_handle_message s)
    else if is_conf_reload type
    then some (handle_conf_reload s)
    else if is_membership type
    then some (emit memb_handle_message s)
    else if is_hurry type
    then handle_hurry p.head.proc_id s
    else if not (is_regular type)
    then some s
    else if not (memb_is_equal s.memb.membership_id p.head.memb_id)
    then some (emit memb_handle_message s)
    else Option.bind (restart_timers s) (λ s'. accept_packet p s')
