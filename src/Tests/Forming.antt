-- ===== src/Tests/Forming.antt =====
-- The search for other daemons, and the form tokens, at concrete inputs.
use mathlib.Core.Option
use tf.Prelude.{
  ℕ, Option, zero, suc, ◌≡◌, refl, arith, true, false, none, some, [], ◌∷◌, Yields, if◌then◌else◌,
  ◌==◌,
}
use tf.Prelude.Int.{◌-ℤ◌, ◌+ℤ◌}
use tf.Configuration.{Segment, Configuration, seg_leader, proc_by_id_in_conf}
use tf.FlowControl.{MembState}
use tf.Membership.{active_ptr, contains}
use tf.Membership.Members.{insert_member}
use tf.Membership.Form.{RingInfo, holes_up, own_ring, merge_ring}
use tf.Membership.Form.Holes.{
  IsCollected, NoStale, own_ring-IsCollected, merge_ring-IsCollected, holes_up-my_aru,
}
use tf.Membership.Gather.{Daemon, Timers, memb_of, token_loss, backoff_membership}
use tf.Membership.Gather.Handle.{handle_alive}
use tf.Membership.Gather.Event.{handle_regular_token, regular_token}
use tf.NetTypes.{sizeof_token_header, is_form}
use tf.Membership.Gather.Timing.{stays_timely}
use tf.Membership.Gather.Steps.{Step-stays_timely}
use tf.Membership.Gather.Sound.{HasLeaders, IsRing}
use tf.Membership.Gather.Loss.{IsPlaced, HasLost, memb_token_loss_event-HasLost}
use tf.Membership.Gather.Heard.{Heard, tells_loss, handle_alive-Heard}
use tf.Membership.Gather.Backoff.{IsBackedOff, backoff_membership-IsBackedOff}
use tf.Protocol.State.{Prot}
use tf.Protocol.Receive.Window.{IsHeld}
use tf.Tests.Data.{daemon, memb, memb_id, idle, held, empty_slot, token}

-- Two segments, of two daemons and of one.
abbrev pair_segment : Segment
pair_segment = record { bcast_address = 1; port = 4803; procs = daemon 10 0 0 ∷ daemon 20 0 1 ∷ [] }

abbrev single_segment : Segment
single_segment = record { bcast_address = 2; port = 4803; procs = daemon 30 1 0 ∷ [] }

abbrev pub network : Configuration
network = record {
  hash_code = 0;
  allprocs = daemon 10 0 0 ∷ daemon 20 0 1 ∷ daemon 30 1 0 ∷ [];
  segments = pair_segment ∷ single_segment ∷ [];
}

abbrev no_timers : Timers
no_timers = record {
  token_loss = false;
  token_hurry = false;
  lookup_new_members = false;
  conf_reload = false;
  scast_alive = false;
  gather_or_represented = false;
  shift_to_seg = false;
  send_join = false;
  form_or_fail = false;
}

-- The daemon 10 on a ring of all daemons.
abbrev pub member : Daemon
member = record {
  prot = record idle {
    memb = record memb {
      cn = network;
      membership = network;
      future_membership = network;
      reg_membership = network;
    };
  };
  f_members = [];
  f_num_pending = 0;
  f_reps = [];
  potential_reps = [];
  my_seg_rep = none;
  last_time_used = 0;
  form1_memb_id = memb_id;
  timers = record no_timers { token_loss = true };
  sent = [];
}

HasLeaders-network : HasLeaders network
unfolding seg_leader proc_by_id_in_conf
HasLeaders-network zero h = (10, refl, refl)
HasLeaders-network (suc zero) h = (30, refl, refl)
HasLeaders-network (suc (suc i)) h = absurd (omega arith)

IsRing-network : IsRing network network
unfolding proc_by_id_in_conf
IsRing-network zero = refl
IsRing-network (suc zero) = refl
IsRing-network (suc (suc i)) = tt

IsPlaced-member : IsPlaced member
unfolding active_ptr
IsPlaced-member = record {
  leaders = HasLeaders-network;
  ring = IsRing-network;
  gathered = tt;
  potential = (record { few = omega arith; typed = tt; separate = tt }, tt);
}

-- A regular token from the daemon 30, which is taken: the loss of the token is queued anew.
abbrev rounds : Option Daemon → ℕ
rounds none = 0
rounds (some d) = d.prot.token_rounds

handle_regular_token-taken : rounds (handle_regular_token sizeof_token_header token [] member) ≡ 6
unfolding handle_regular_token Option.bind ◌-ℤ◌ ◌+ℤ◌
handle_regular_token-taken = refl

Step-stays_timely_example :
    stays_timely (handle_regular_token sizeof_token_header token [] member) ≡ true
unfolding is_form
Step-stays_timely_example =
    Step-stays_timely (regular_token sizeof_token_header token [] member refl) refl

memb_token_loss_event-HasLost_example : Yields (HasLost network) (token_loss member)
memb_token_loss_event-HasLost_example =
    memb_token_loss_event-HasLost member refl refl IsPlaced-member

handle_alive-Heard_example :
    Yields (Heard (tells_loss MembState.op (memb_of member) 30) 30 member) (handle_alive 30 member)
handle_alive-Heard_example = handle_alive-Heard 30 member refl IsPlaced-member

-- The packets 1 and 3 are there, and 2 is a hole; the packets up to 4 are known of.
abbrev pub gappy : Prot
gappy = record idle {
  packets = λ i. if i == 1 then held 8 1 else if i == 3 then held 8 3 else empty_slot;
  my_aru = 1;
  highest_seq = 4;
}

-- Another daemon of the ring, with the packets 1 and 4.
abbrev other : Prot
other = record idle {
  packets = λ i. if i == 1 then held 8 1 else if i == 4 then held 8 4 else empty_slot;
  my_aru = 1;
  highest_seq = 5;
}

abbrev first_ring : RingInfo
first_ring = own_ring gappy (holes_up gappy 1)

IsHeld-gappy : IsHeld gappy
IsHeld-gappy = record {
  aru_in = (omega arith, omega arith);
  few = omega arith;
  held = λ i a b. ground (arith, a, b);
  placed = λ i a e. (ground (arith, a, e), ground (arith, a, e));
}

first_ring-holes : holes_up gappy 1 ≡ 2 ∷ 4 ∷ []
unfolding holes_up
first_ring-holes = refl

own_ring-IsCollected_example : IsCollected 0 (gappy ∷ []) first_ring
own_ring-IsCollected_example = own_ring-IsCollected gappy (omega arith)

holes_up-my_aru_example : holes_up gappy 1 ≡ holes_up gappy 2
holes_up-my_aru_example = holes_up-my_aru gappy IsHeld-gappy

backoff_membership-IsBackedOff_example : IsBackedOff gappy (backoff_membership gappy)
backoff_membership-IsBackedOff_example =
    backoff_membership-IsBackedOff gappy (omega arith) (omega arith)

-- Both are in the ring; the packet 5 is known only of, and only 2 and 5 are missed by both.
abbrev both : RingInfo
both = record {
  memb_id = memb_id;
  trans_time = 0;
  aru = 0;
  highest_seq = 5;
  holes = 2 ∷ 5 ∷ [];
  num_trans = 2;
  commit = 10 ∷ 20 ∷ [];
}

abbrev twenty : Prot
twenty = record other { my = daemon 20 0 1 }

merge_ring-both : merge_ring twenty first_ring ≡ some both
unfolding merge_ring own_ring holes_up insert_member contains
merge_ring-both = refl

NoStale-twenty : NoStale 0 twenty first_ring
unfolding own_ring
NoStale-twenty seq a b c = absurd (omega (arith, b, c))

merge_ring-IsCollected_example : IsCollected 0 (twenty ∷ gappy ∷ []) both
merge_ring-IsCollected_example =
    merge_ring-IsCollected 0 (gappy ∷ []) twenty first_ring both
      (own_ring-IsCollected gappy (omega arith)) NoStale-twenty merge_ring-both
