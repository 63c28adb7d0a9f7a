-- ===== src/Membership/Gather.antt =====
-- spread-src-4.4.0/daemon/membership.c: the variables by which the daemons find each other, the
-- changes of state, and Memb_token_loss. `prot` holds the variables that the token protocol shares
-- with them. A members_info is a list of members and the number of those that are pending. Net_scast,
-- Net_ucast and Net_ucast_token append to `sent`. A timer is the presence of its function in the
-- queue of events; its timeout is not modelled. `none` is the end of the process by an alarm, or a
-- read of a daemon that was not found.
pub mod Create
pub mod Fill
pub mod Read
pub mod Handle
pub mod Event
pub mod Timing
pub mod Steps
pub mod Sound
pub mod Loss
pub mod Heard
pub mod Backoff
pub mod Agree
pub mod Dummies
use tf.Prelude.{
  ℕ, zero, suc, ◌+◌, ◌-◌, Bool, true, false, not, ◌&&◌, ◌==◌, ltb, if◌then◌else◌, Option, none,
  some, List, [], ◌∷◌, ◌++◌, length, get_or, set, take, drop, map, ◌>>=◌, ◌>>◌, guard,
}
use tf.Configuration.{
  Proc, Segment, Configuration, no_segment, seg_leader, append_id_to_seg, num_procs_in_seg,
  id_in_conf,
}
use tf.NetTypes.{MembershipId, TokenHeader, block_regular_delivery}
use tf.FlowControl.{MembState}
use tf.Membership.{Membership}
use tf.Membership.Form.{Form1, Form2}
use tf.Membership.Members.{smallest_member}
use tf.Membership.Reps.{RepInfo, potential_rep, seg_rep, ring_rep, no_rep, insert_rep, smallest_rep}
use tf.Protocol.State.{Prot, slot, set_slot, exists}
use tf.Protocol.Receive.{contiguous}

-- The functions in the queue of events.
pub record Timers : Type 0 where
  pub token_loss : Bool
  pub token_hurry : Bool
  pub lookup_new_members : Bool
  pub conf_reload : Bool
  pub scast_alive : Bool
  pub gather_or_represented : Bool
  pub shift_to_seg : Bool
  pub send_join : Bool
  pub form_or_fail : Bool

pub data Sent : Type 0 where
  -- ALIVE_TYPE and JOIN_TYPE to a segment, JOIN_TYPE to a daemon
  alive : (seg_index : ℕ) (f_members : List ℕ) → Sent
  join_seg : (seg_index : ℕ) (f_members : List ℕ) (f_reps : List RepInfo) → Sent
  join : (proc_id : ℕ) (f_members : List ℕ) (f_reps : List RepInfo) → Sent
  -- REFER_TYPE: `rep` has the type `type`
  refer : (proc_id rep type : ℕ) → Sent
  -- the foreign message that was received
  foreign : (proc_id : ℕ) → Sent
  -- the form tokens to a daemon, and the form2 token or the first regular token to the next one
  form1 : (proc_id : ℕ) → Form1 → Sent
  form2 : (proc_id : ℕ) → Form2 → Sent
  pass_form2 : Form2 → Sent
  pass_token : TokenHeader → Sent

pub record Daemon : Type 0 where
  pub prot : Prot
  pub f_members : List ℕ
  pub f_num_pending : ℕ
  pub f_reps : List RepInfo
  pub potential_reps : List RepInfo
  pub my_seg_rep : Option ℕ
  pub last_time_used : ℕ
  pub form1_memb_id : MembershipId
  pub timers : Timers
  pub sent : List Sent

abbrev pub memb_of : Daemon → Membership
memb_of d = d.prot.memb

abbrev pub my_of : Daemon → Proc
my_of d = d.prot.my

abbrev pub set_memb : Daemon → Membership → Daemon
set_memb d m = record d { prot = record d.prot { memb = m } }

abbrev pub set_state : MembState → Daemon → Daemon
set_state state d = set_memb d (record (memb_of d) { state = state })

abbrev pub send : List Sent → Daemon → Daemon
send s d = record d { sent = d.sent ++ s }

-- The events that Shift_to_op queues are those of a reload that waits.
unfoldable pub shift_to_op : Daemon → Daemon
shift_to_op d = record (set_state MembState.op d) {
  timers = if d.prot.need_conf_reload then record d.timers { conf_reload = true } else d.timers;
}

unfoldable pub shift_to_seg : Daemon → Daemon
shift_to_seg d = record (set_state MembState.seg d) {
  f_members = (my_of d).id ∷ [];
  f_num_pending = 0;
  timers = record d.timers { scast_alive = true; gather_or_represented = true };
}

unfoldable pub shift_to_gather : Daemon → Daemon
shift_to_gather d = record (set_state MembState.gather d) {
  f_reps =
      record {
        proc_id = (my_of d).id;
        seg_index = (my_of d).seg_index;
        type = if (memb_of d).token_alive then ring_rep else seg_rep;
      }
      ∷ [];
  timers = record d.timers {
    scast_alive = false;
    lookup_new_members = false;
    send_join = true;
    form_or_fail = true;
  };
}

unfoldable pub shift_to_represented : Daemon → Daemon
shift_to_represented d = record (set_state MembState.represented d) {
  timers = record d.timers {
    scast_alive = false;
    gather_or_represented = false;
    shift_to_seg = true;
  };
}

unfoldable pub gather_or_represented : Daemon → Option Daemon
unfolding shift_to_gather shift_to_represented
gather_or_represented d = do
  let d' = record d { my_seg_rep = none }
  k ← smallest_member (memb_of d).cn d.f_members
  some (
      if get_or d.f_members k 0 == (my_of d).id
      then shift_to_gather d'
      else shift_to_represented d')

unfoldable pub insert_reps : Configuration → List RepInfo → List RepInfo → Option (List RepInfo)
insert_reps cn [] r = some r
insert_reps cn (x ∷ xs) r = do (new, r') ← insert_rep cn x r; insert_reps cn xs r'

-- The loops of Memb_token_loss over the segments of the configuration, `n` of them from `i` on: the
-- first daemon of the segment in `ring`, or else its leader in the configuration.
unfoldable pub insert_segments :
    Configuration
    → (my : Proc) (ring : Configuration) (type n i : ℕ) → List RepInfo
    → Option (List RepInfo)
insert_segments cn my ring type zero i r = some r
insert_segments cn my ring type (suc n) i r =
    if i == my.seg_index then insert_segments cn my ring type n (i + 1) r else do
      id ← elim (get_or ring.segments i no_segment).procs [
        | p ∷ _ ↦ some p.id
        | [] ↦ seg_leader cn i
      ]
      (new, r') ← insert_rep cn (record { proc_id = id; type = type; seg_index = i }) r
      insert_segments cn my ring type n (i + 1) r'

-- The type of the last rep, or POTENTIAL_REP.
abbrev pub last_type : List RepInfo → ℕ
last_type [] = potential_rep
last_type (x ∷ []) = x.type
last_type (x ∷ y ∷ ys) = last_type (y ∷ ys)

-- The holes that were filled with dummies are holes again.
unfoldable pub clear_dummies : ℕ → ℕ → Prot → Prot
unfolding set_slot
clear_dummies zero seq s = s
clear_dummies (suc n) seq s =
    clear_dummies n (seq + 1)
      (if (slot s seq).exist == 3 then set_slot s seq (record (slot s seq) { exist = 0 }) else s)

unfoldable pub backoff_membership : Prot → Prot
unfolding clear_dummies contiguous
backoff_membership s =
    let s' = clear_dummies (s.highest_seq - s.last_discarded) (s.last_discarded + 1) s in
    record s' {
      aru = s.last_discarded;
      my_aru = contiguous (exists s') (s.highest_seq - s.last_discarded) s.last_discarded;
    }

-- The switch of Memb_token_loss. The type of the reps from `membership` is, where reps were
-- gathered, that of the last of them.
unfoldable pub loss_reps_in : MembState → Daemon → Option Daemon
unfolding insert_segments insert_reps backoff_membership
loss_reps_in st d =
    let m = memb_of d in
    let n = length m.cn.segments in
    elim st [
      | MembState.op ↦ do
        r ← insert_segments m.cn (my_of d) m.membership potential_rep n 0 []
        some (record d { potential_reps = r })
      | MembState.seg ↦ none
      | MembState.represented ↦ none
      | MembState.gather ↦ do
        guard m.token_alive
        r ← insert_reps m.cn (drop 1 d.f_reps) []
        r' ← insert_segments m.cn (my_of d) m.membership (last_type (drop 1 d.f_reps)) n 0 r
        some (record d { potential_reps = r' })
      | MembState.form ↦ some d
      | MembState.evs ↦ do
        r ← insert_segments m.cn (my_of d) m.future_membership potential_rep n 0 []
        some (record d { prot = backoff_membership d.prot; potential_reps = r })
    ]

unfoldable pub loss_reps : Daemon → Option Daemon
unfolding loss_reps_in
loss_reps d = loss_reps_in (memb_of d).state d

abbrev pub no_procs : Segment → Segment
no_procs s = record s { procs = [] }

-- The ring of My alone, from the segments of the old one, of which the first `n` are emptied.
unfoldable pub singleton : Configuration → ℕ → Proc → Configuration → Configuration
unfolding append_id_to_seg
singleton cn n my ring =
    let segs = map no_procs (take n ring.segments) ++ drop n ring.segments in
    record ring {
      segments = elim (append_id_to_seg cn (get_or segs my.seg_index no_segment) my.id) [
        | some s ↦ set segs my.seg_index s
        | none ↦ segs
      ];
    }

unfoldable pub token_loss : Daemon → Option Daemon
unfolding loss_reps singleton shift_to_seg
token_loss d = do
  d' ← loss_reps d
  let m = memb_of d'
  let ring = singleton m.cn (length m.cn.segments) (my_of d') m.membership
  let last = d'.prot.last_token
  some (
      shift_to_seg (record d' {
        prot = record d'.prot {
          delivery_threshold = block_regular_delivery;
          last_token = record last { type = 0; seq = 0; aru = 0 };
          memb = record m { token_alive = false; just_installed = false; membership = ring };
        };
        timers = record d'.timers {
          token_loss = false;
          send_join = false;
          form_or_fail = false;
          token_hurry = false;
          lookup_new_members = false;
        };
      }))
