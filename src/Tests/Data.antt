-- ===== src/Tests/Data.antt =====
-- A small ring of daemons, and the state of one of them.
use tf.Prelude.{ℕ, true, false, none, [], ◌∷◌, if◌then◌else◌, ◌==◌}
use tf.Prelude.Int.{pos, negsuc}
use tf.Configuration.{Proc, Segment, Configuration}
use tf.NetTypes.{MembershipId, PacketHeader, TokenHeader}
use tf.FlowControl.{MembState}
use tf.Membership.{CommitSet, Membership}
use tf.Protocol.Fragment.{DownQueue}
use tf.Protocol.State.{Packet, PacketInfo, Prot}

abbrev pub daemon : ℕ → ℕ → ℕ → Proc
daemon id seg_index index_in_seg = record {
  name = id ∷ [];
  port = 4803;
  seg_index = seg_index;
  index_in_seg = index_in_seg;
  id = id;
  ifc = record { ip = id; port = 4803; type = 0 } ∷ [];
}

abbrev pub first_segment : Segment
first_segment = record {
  bcast_address = 1;
  port = 4803;
  procs = daemon 10 0 0 ∷ daemon 20 0 1 ∷ [];
}

abbrev pub empty_segment : Segment
empty_segment = record { bcast_address = 2; port = 4803; procs = [] }

abbrev pub last_segment : Segment
last_segment = record { bcast_address = 3; port = 4803; procs = daemon 30 2 0 ∷ [] }

abbrev pub config : Configuration
config = record {
  hash_code = 0;
  allprocs = daemon 10 0 0 ∷ daemon 20 0 1 ∷ daemon 30 2 0 ∷ [];
  segments = first_segment ∷ empty_segment ∷ last_segment ∷ [];
}

abbrev pub memb_id : MembershipId
memb_id = record { proc_id = 10; time = 1 }

abbrev pub commit_set : CommitSet
commit_set = record { num_members = 1; num_pending = 1; members = 10 ∷ [] }

abbrev pub memb : Membership
memb = record {
  state = MembState.op;
  token_alive = true;
  my_id = 10;
  cn = config;
  membership = config;
  membership_id = memb_id;
  future_membership = config;
  future_membership_id = memb_id;
  trans_memb_id = memb_id;
  f_trans_memb_time = 0;
  commit_set = commit_set;
  future_commit_set = commit_set;
  trans_membership = config;
  commit_membership = config;
  reg_membership = config;
  transitional = false;
  just_installed = false;
  foreign_found = false;
}

-- A packet of one whole message of 2 bytes.
abbrev pub head : ℕ → ℕ → PacketHeader
head type seq = record {
  type = type;
  transmiter_id = 20;
  proc_id = 20;
  memb_id = memb_id;
  seq = seq;
  token_round = 0;
  conf_hash = 0;
  data_len = 2;
  first_frag_header = record { fragment_index = negsuc 0; fragment_len = 2 };
}

abbrev pub packet : ℕ → ℕ → Packet
packet type seq = record { head = head type seq; body = 7 ∷ seq ∷ [] }

abbrev pub held : ℕ → ℕ → PacketInfo
held type seq = record { head = head type seq; body = 7 ∷ seq ∷ []; exist = 1; proc_index = 1 }

abbrev pub empty_slot : PacketInfo
empty_slot = record { head = head 0 0; body = []; exist = 0; proc_index = 0 }

abbrev pub token : TokenHeader
token = record {
  type = 0;
  transmiter_id = 30;
  proc_id = 30;
  memb_id = memb_id;
  seq = 2;
  aru = 1;
  aru_last_id = 20;
  flow_control = pos 3;
  rtr_len = 0;
  conf_hash = 0;
}

-- A message in three elements, and one in one.
abbrev pub down_queue : DownQueue
down_queue = record {
  messages =
      record { type = 8; elements = (1 ∷ 2 ∷ []) ∷ (3 ∷ []) ∷ (4 ∷ 5 ∷ 6 ∷ []) ∷ [] }
      ∷ record { type = 4; elements = (9 ∷ []) ∷ [] }
      ∷ [];
  cur_element = 1;
  calls = [];
}

-- The daemon 10 before any packet.
abbrev pub idle : Prot
idle = record {
  my = daemon 10 0 0;
  my_index = 0;
  down_queue = down_queue;
  up_queue = λ w. none;
  packets = λ i. empty_slot;
  aru = 0;
  my_aru = 0;
  highest_seq = 0;
  highest_fifo_seq = 0;
  last_discarded = 0;
  last_delivered = 0;
  last_seq = 0;
  token_rounds = 5;
  received_token_rounds = 5;
  token_counter = 0;
  last_token = token;
  last_num_retrans = 0;
  last_num_sent = 0;
  prev_proc_id = 30;
  token_has_priority = false;
  send_pack_queue = [];
  delivery_threshold = 0;
  flow_control = record {
    window = pos 60;
    personal_window = pos 15;
    accelerated_window = pos 2;
    accelerated_ring = true;
  };
  memb = memb;
  need_conf_reload = false;
  debug_initial_sequence = false;
  reload_singleton = false;
  gstate = 1;
  wide_network = false;
  out = [];
}

-- The packets 1 and 2 wait for delivery, the second of them a safe one; the packet 3 is missing.
abbrev pub busy : Prot
busy = record idle {
  packets = λ i.
      if i == 1
      then held 8 1
      else if i == 2
      then held 16 2
      else if i == 4
      then held 8 4
      else empty_slot;
  my_aru = 2;
  highest_seq = 4;
  send_pack_queue = packet 8 3 ∷ packet 8 4 ∷ [];
}
