-- ===== src/Membership.antt =====
-- spread-src-4.4.0/daemon/membership.c:
-- the variables that the token protocol reads, and the installation of a new
-- membership (Memb_commit, Memb_transitional, Memb_regular). How the members agree on it (the
-- gathering and the form tokens) is not modelled: `future_membership` and `future_commit_set` are
-- what they left. The copies in GlobalStatus are not modelled.
pub mod Members
pub mod Selection
pub mod Reps
pub mod Form
pub mod Gather
use mathlib.Core.Option
use tf.Prelude.{
  ℕ, Bool, true, false, ◌==◌, ◌||◌, if◌then◌else◌, Option, some, List, [], ◌∷◌, ◌++◌, take,
}
use tf.Configuration.{Proc, Segment, Configuration, leader, append_id_to_seg}
use tf.NetTypes.{MembershipId}
use tf.FlowControl.{MembState, is_evs}

-- members_info, as Commit_set uses it: the first `num_pending` of `members` come along from the old
-- ring, and the first `num_members` are those whose messages are safe.
pub record CommitSet : Type 0 where
  pub num_members : ℕ
  pub num_pending : ℕ
  pub members : List ℕ

-- The functions that E_queue is given.
pub data Timer : Type 0 where
  memb_token_loss_event prot_token_hurry_event memb_lookup_new_members_event : Timer
  prot_initiate_conf_reload deliver_all_reliable_packets_event : Timer
  deliver_agreed_packets_event : Timer

pub record Membership : Type 0 where
  pub state : MembState
  pub token_alive : Bool
  pub my_id : ℕ
  -- Cn, which is Conf_ref()
  pub cn : Configuration
  pub membership : Configuration
  pub membership_id : MembershipId
  pub future_membership : Configuration
  pub future_membership_id : MembershipId
  pub trans_memb_id : MembershipId
  pub f_trans_memb_time : ℕ
  pub commit_set : CommitSet
  pub future_commit_set : CommitSet
  pub trans_membership : Configuration
  pub commit_membership : Configuration
  pub reg_membership : Configuration
  pub transitional : Bool
  pub just_installed : Bool
  pub foreign_found : Bool

unfoldable pub active_ptr : Membership → Configuration
unfolding is_evs
active_ptr m = if is_evs m.state then m.future_membership else m.membership

unfoldable pub active_id : Membership → MembershipId
unfolding is_evs
active_id m = if is_evs m.state then m.future_membership_id else m.membership_id

unfoldable pub commit : Membership → Membership
commit m = record m { commit_set = m.future_commit_set }

unfoldable pub contains : List ℕ → ℕ → Bool
contains [] id = false
contains (x ∷ xs) id = x == id || contains xs id

-- The segment `seg` of the new membership, from the daemons of a segment of Cn that are in `set`.
-- `none`: Alarm( EXIT ).
unfoldable pub pick_procs : Configuration → List ℕ → List Proc → Segment → Option Segment
unfolding contains
pick_procs cn set [] seg = some seg
pick_procs cn set (p ∷ ps) seg =
    if contains set p.id
    then (Option.bind (append_id_to_seg cn seg p.id) (λ seg'. pick_procs cn set ps seg'))
    else pick_procs cn set ps seg

unfoldable pub pick_segments : Configuration → List ℕ → List Segment → Option (List Segment)
unfolding pick_procs
pick_segments cn set [] = some []
pick_segments cn set (s ∷ ss) =
    Option.bind (pick_procs cn set s.procs (record s { procs = [] }))
      (λ t. Option.map (λ ts. t ∷ ts) (pick_segments cn set ss))

unfoldable pub transitional : Membership → Option Membership
unfolding pick_segments
transitional m =
    Option.bind
      (pick_segments m.cn (take m.commit_set.num_pending m.commit_set.members) m.cn.segments)
      (λ trans.
        let trans_membership = record m.trans_membership { segments = trans } in
        Option.bind (leader trans_membership) (λ first.
          Option.map
            (λ committed. record m {
              transitional = true;
              trans_membership = trans_membership;
              trans_memb_id = record { proc_id = first; time = m.f_trans_memb_time };
              commit_membership = record m.commit_membership { segments = committed };
            })
            (pick_segments m.cn (take m.commit_set.num_members m.commit_set.members)
              m.cn.segments)))

-- Shift_to_op: with the events that it queues.
unfoldable pub shift_to_op : Bool → Membership → Membership × List Timer
shift_to_op need_conf_reload m = (
  record m { state = MembState.op },
  if need_conf_reload then prot_initiate_conf_reload ∷ [] else [],
)

-- `need_conf_reload` is Prot_need_conf_reload(). The leader of the new ring looks for others.
unfoldable pub regular : Bool → Membership → Option (Membership × List Timer)
unfolding shift_to_op
regular need_conf_reload m =
    Option.map
      (λ first.
        let (m', timers) = shift_to_op need_conf_reload (record m {
          transitional = false;
          just_installed = true;
          membership = m.future_membership;
          membership_id = m.future_membership_id;
          reg_membership = m.future_membership;
          commit_set = record { num_members = 1; num_pending = 1; members = m.my_id ∷ [] };
          foreign_found = false;
        }) in
        (m', (if first == m.my_id then memb_lookup_new_members_event ∷ [] else []) ++ timers))
      (leader m.future_membership)
