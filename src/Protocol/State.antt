-- ===== src/Protocol/State.antt =====
-- The variables of spread-src-4.4.0/daemon/protocol.c and prot_body.h, in one record, and what
-- protocol.c asks of other components: the packets and tokens that it sends, the messages that it
-- hands to the session layer and the events that it queues, in order, in `out`.
-- A `Packet` stands for the header and the body that a slot or a scatter points to. GlobalStatus,
-- the allocation of memory and the alarms that only print are not modelled.
use tf.Prelude.{ℕ, ◌%◌, ◌^◌, Bool, ◌==◌, if◌then◌else◌, Option, List, [], ◌∷◌, ◌++◌}
use tf.Configuration.{Proc, Configuration}
use tf.NetTypes.{MembershipId, PacketHeader, PacketBody, TokenHeader, RingRtr}
use tf.FlowControl.{FlowControl}
use tf.Membership.{Membership, Timer}
use tf.Protocol.Fragment.{DownQueue}

pub record Packet : Type 0 where
  pub head : PacketHeader
  pub body : PacketBody

-- packet_info. `exist` is 0 for an empty slot, 1 for a packet, 2 for one that was delivered, 3 for a
-- hole that the membership filled with a dummy.
pub record PacketInfo : Type 0 where
  pub head : PacketHeader
  pub body : PacketBody
  pub exist : ℕ
  pub proc_index : ℕ

pub data Effect : Type 0 where
  -- Net_bcast, Net_ucast, Net_scast, Net_send_token
  bcast : Packet → Effect
  ucast : (proc_id : ℕ) → Packet → Effect
  scast : (seg_index : ℕ) → Packet → Effect
  ucast_hurry : (proc_id : ℕ) → Effect
  send_token : TokenHeader → List RingRtr → Effect
  -- Sess_deliver_message
  deliver : List (List ℕ) → Effect
  -- E_queue, E_dequeue
  queue dequeue : Timer → Effect
  -- Sess_deliver_trans_memb, Sess_deliver_reg_memb
  deliver_trans_memb deliver_reg_memb : Configuration → MembershipId → Effect
  -- Memb_handle_message, Memb_handle_token, Memb_token_loss
  memb_handle_message memb_handle_token memb_token_loss : Effect
  -- Stat_handle_message, FC_handle_message, Net_clear_partition
  stat_handle_message fc_handle_message net_clear_partition : Effect
  -- Prot_initiate_conf_reload
  initiate_conf_reload : Effect

pub record Prot : Type 0 where
  pub my : Proc
  pub my_index : ℕ
  pub down_queue : DownQueue
  -- Up_queue: an entry that does not exist is `none`
  pub up_queue : ℕ → Option (List (List ℕ))
  pub packets : ℕ → PacketInfo
  pub aru : ℕ
  pub my_aru : ℕ
  pub highest_seq : ℕ
  pub highest_fifo_seq : ℕ
  pub last_discarded : ℕ
  pub last_delivered : ℕ
  pub last_seq : ℕ
  pub token_rounds : ℕ
  pub received_token_rounds : ℕ
  pub token_counter : ℕ
  pub last_token : TokenHeader
  pub last_num_retrans : ℕ
  pub last_num_sent : ℕ
  pub prev_proc_id : ℕ
  pub token_has_priority : Bool
  pub send_pack_queue : List Packet
  pub delivery_threshold : ℕ
  pub flow_control : FlowControl
  pub memb : Membership
  pub need_conf_reload : Bool
  -- Conf_debug_initial_sequence(), Conf_in_reload_singleton_state(), GlobalStatus.gstate
  pub debug_initial_sequence : Bool
  pub reload_singleton : Bool
  pub gstate : ℕ
  pub wide_network : Bool
  pub out : List Effect

abbrev pub max_procs_ring : ℕ
max_procs_ring = 128

abbrev pub max_packets_in_struct : ℕ
max_packets_in_struct = 2 ^ 13

-- seq & PACKET_MASK
abbrev pub entry : ℕ → ℕ
entry seq = seq % max_packets_in_struct

-- An array with one element written anew.
unfoldable pub update {ℓ} : {A : Type ℓ} → (ℕ → A) → ℕ → A → ℕ → A
update f i a j = if i == j then a else f j

unfoldable pub emit : Effect → Prot → Prot
emit e s = record s { out = s.out ++ (e ∷ []) }

-- The slot of a sequence number.
abbrev pub slot : Prot → ℕ → PacketInfo
slot s seq = s.packets (entry seq)

abbrev pub exists : Prot → ℕ → Bool
exists s seq = if (slot s seq).exist == 0 then Bool.false else Bool.true

unfoldable pub set_slot : Prot → ℕ → PacketInfo → Prot
unfolding update
set_slot s seq p = record s { packets = update s.packets (entry seq) p }
