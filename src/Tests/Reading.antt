-- ===== src/Tests/Reading.antt =====
-- The reading of a form2 token at concrete inputs.
use tf.Prelude.{◌≡◌, refl, arith, false, Option, none, some, [], ◌∷◌}
use tf.Configuration.{proc_by_id_in_conf, append_id_to_seg, previous, last}
use tf.NetTypes.{memb_is_equal}
use tf.FlowControl.{MembState, is_evs}
use tf.Membership.{contains}
use tf.Membership.Form.{Form2, RingInfo, form2_type, my_ring}
use tf.Membership.Gather.{Daemon, memb_of}
use tf.Membership.Gather.Read.{
  read_legal, choose_id, new_membership, append_members, take_ring, make_dummies, make_dummy,
  trans_time, write_time, passed_token,
}
use tf.Membership.Gather.Agree.{SendsOn, read_legal-agree, read_legal-agree_time}
use tf.Membership.Gather.Dummies.{make_dummies-held}
use tf.Protocol.Discard.{discard_packets}
use tf.Tests.Data.{daemon, memb_id, token}
use tf.Tests.Forming.{member, network, gappy}

-- The daemon 10 has filled in a form token with the daemon 20, which is on the same ring.
abbrev former : Daemon
former = record member {
  prot = record member.prot {
    memb = record (memb_of member) { state = MembState.form; token_alive = false };
  };
}

abbrev second : Daemon
second = record former {
  prot = record former.prot { my = daemon 20 0 1; memb = record (memb_of former) { my_id = 20 } };
}

abbrev ring : RingInfo
ring = record {
  memb_id = memb_id;
  trans_time = 0;
  aru = 0;
  highest_seq = 2;
  holes = 2 ∷ [];
  num_trans = 2;
  commit = 10 ∷ 20 ∷ [];
}

abbrev form_token : Form2
form_token = record {
  head = record token { type = form2_type };
  members = record { num_members = 0; num_pending = 2; members = 10 ∷ 20 ∷ [] };
  memb_id = none;
  rings = ring ∷ [];
}

abbrev or_former : Option Daemon → Daemon
or_former none = former
or_former (some d) = d

abbrev first_read : Daemon
first_read = or_former (read_legal 5 form_token ring former)

first_read-some : read_legal 5 form_token ring former ≡ some first_read
unfolding read_legal choose_id new_membership append_members proc_by_id_in_conf append_id_to_seg
    previous last take_ring discard_packets make_dummies make_dummy
first_read-some = refl

first_read-time : (memb_of first_read).f_trans_memb_time ≡ 5
unfolding read_legal choose_id new_membership append_members proc_by_id_in_conf append_id_to_seg
    previous last take_ring discard_packets make_dummies make_dummy trans_time
first_read-time = refl

abbrev passed : Form2
passed =
    passed_token form_token former (memb_of first_read).future_membership_id
      (memb_of first_read).f_trans_memb_time

abbrev passed_ring : RingInfo
passed_ring = record ring { trans_time = (memb_of first_read).f_trans_memb_time }

abbrev second_read : Daemon
second_read = or_former (read_legal 9 passed passed_ring second)

second_read-some : read_legal 9 passed passed_ring second ≡ some second_read
unfolding read_legal choose_id new_membership append_members proc_by_id_in_conf append_id_to_seg
    previous last take_ring discard_packets make_dummies make_dummy passed_token
second_read-some = refl

passed-SendsOn : SendsOn former passed first_read
unfolding read_legal choose_id new_membership append_members proc_by_id_in_conf append_id_to_seg
    previous last take_ring discard_packets make_dummies make_dummy passed_token
passed-SendsOn = refl

read_legal-agree_example :
    ((memb_of second_read).future_membership ≡ (memb_of first_read).future_membership)
    × ((memb_of second_read).future_membership_id ≡ (memb_of first_read).future_membership_id)
unfolding is_evs
read_legal-agree_example =
    read_legal-agree 5 9 form_token passed ring passed_ring former first_read second second_read
      refl refl refl (omega arith) first_read-some passed-SendsOn second_read-some

form_token-my_ring : my_ring memb_id form_token.rings ≡ some ring
unfolding my_ring memb_is_equal
form_token-my_ring = refl

passed-my_ring : my_ring memb_id passed.rings ≡ some passed_ring
unfolding my_ring memb_is_equal write_time passed_token
passed-my_ring = refl

read_legal-agree_time_example :
    (memb_of second_read).f_trans_memb_time ≡ (memb_of first_read).f_trans_memb_time
unfolding is_evs
read_legal-agree_time_example =
    read_legal-agree_time 5 9 form_token passed ring passed_ring former first_read second
      second_read refl refl (omega arith) refl form_token-my_ring first_read-some passed-SendsOn
      passed-my_ring second_read-some

make_dummies-held_example : make_dummies network (3 ∷ 1 ∷ []) gappy ≡ none
unfolding proc_by_id_in_conf contains
make_dummies-held_example =
    make_dummies-held network (3 ∷ 1 ∷ []) 1 gappy refl (refl, (1, daemon 20 0 1, refl))
