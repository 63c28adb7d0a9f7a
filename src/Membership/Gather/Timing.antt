-- ===== src/Membership/Gather/Timing.antt =====
-- The events that are queued in each state of spread-src-4.4.0/daemon/membership.c.
use tf.Prelude.{◌≡◌, refl, arith, Bool, true, not, ◌&&◌, ◌||◌, ℕ, Option, none, some}
use tf.FlowControl.{MembState}
use tf.Membership.Gather.{
  Daemon, Timers, memb_of, shift_to_seg, shift_to_gather, shift_to_represented, loss_reps,
  loss_reps_in, token_loss,
}
use tf.Membership.Gather.Handle.{
  lose_and_take, take_member, handle_alive, handle_alive_in, handle_join, handle_join_in,
  handle_refer, handle_refer_in, handle_foreign, handle_foreign_in, lookup_new_members,
  lookup_new_members_in, Message, alive_message, join_message, refer_message, regular_message, Join,
  handle_message, join_in_op, join_in_seg, join_in_represented, join_in_gather, scast_alive,
}

-- Only OP and EVS, and GATHER of a ring leader, have a token.
abbrev pub alive_in : MembState → Bool → Bool
alive_in MembState.op alive = alive
alive_in MembState.seg alive = not alive
alive_in MembState.represented alive = not alive
alive_in MembState.gather alive = true
alive_in MembState.form alive = not alive
alive_in MembState.evs alive = alive

-- The events that may be queued. Those of the search for new members may always.
abbrev pub queued_in : MembState → (alive : Bool) → Timers → Bool
queued_in MembState.seg alive t =
    not t.token_loss && (not t.shift_to_seg && (not t.send_join && not t.form_or_fail))
queued_in MembState.represented alive t =
    not t.token_loss
    && (not t.scast_alive
        && (not t.gather_or_represented && (not t.send_join && not t.form_or_fail)))
queued_in MembState.gather alive t =
    (alive || not t.token_loss)
    && (not t.scast_alive && (not t.gather_or_represented && not t.shift_to_seg))
queued_in _ alive t =
    not t.scast_alive
    && (not t.gather_or_represented
        && (not t.shift_to_seg && (not t.send_join && not t.form_or_fail)))

abbrev pub is_timely_in : MembState → Daemon → Bool
is_timely_in st d =
    alive_in st (memb_of d).token_alive && queued_in st (memb_of d).token_alive d.timers

-- A daemon has the token in the states that need it, and only the events of its state are queued.
abbrev pub is_timely : Daemon → Bool
is_timely d = is_timely_in (memb_of d).state d

-- A result, if there is one, that is timely.
abbrev pub stays_timely : Option Daemon → Bool
stays_timely none = true
stays_timely (some d) = is_timely d

abbrev not_represented : Option Daemon → Bool
not_represented none = true
not_represented (some d) = not d.timers.shift_to_seg

loss_reps_in-not_represented :
    (st : MembState) (d : Daemon)
    → is_timely_in st d ≡ true
    → not_represented (loss_reps_in st d) ≡ true
unfolding loss_reps_in
loss_reps_in-not_represented st d h = ground (arith, h)

pub token_loss-stays_timely : (d : Daemon) → is_timely d ≡ true → stays_timely (token_loss d) ≡ true
unfolding token_loss loss_reps shift_to_seg
token_loss-stays_timely d h = ground (arith, loss_reps_in-not_represented (memb_of d).state d h)

lose_and_take-stays_timely :
    (id : ℕ) (d : Daemon) → is_timely d ≡ true → stays_timely (lose_and_take id d) ≡ true
unfolding lose_and_take take_member
lose_and_take-stays_timely id d h = ground (arith, token_loss-stays_timely d h)

handle_alive_in-stays_timely :
    (st : MembState) (id : ℕ) (d : Daemon)
    → (memb_of d).state ≡ st
    → is_timely d ≡ true
    → stays_timely (handle_alive_in st id d) ≡ true
unfolding handle_alive_in take_member
handle_alive_in-stays_timely st id d e h = ground (arith, h, e, lose_and_take-stays_timely id d h)

join_in_op-stays_timely :
    (j : Join) (d : Daemon)
    → (memb_of d).state ≡ MembState.op
    → is_timely d ≡ true
    → stays_timely (join_in_op j d) ≡ true
unfolding join_in_op shift_to_gather
join_in_op-stays_timely j d e h = ground (arith, h, e)

join_in_seg-stays_timely :
    (j : Join) (d : Daemon)
    → (memb_of d).state ≡ MembState.seg
    → is_timely d ≡ true
    → stays_timely (join_in_seg j d) ≡ true
unfolding join_in_seg shift_to_represented scast_alive
join_in_seg-stays_timely j d e h = ground (arith, h, e)

join_in_represented-stays_timely :
    (j : Join) (d : Daemon)
    → (memb_of d).state ≡ MembState.represented
    → is_timely d ≡ true
    → stays_timely (join_in_represented j d) ≡ true
unfolding join_in_represented scast_alive
join_in_represented-stays_timely j d e h = ground (arith, h, e)

join_in_gather-stays_timely :
    (j : Join) (d : Daemon)
    → (memb_of d).state ≡ MembState.gather
    → is_timely d ≡ true
    → stays_timely (join_in_gather j d) ≡ true
unfolding join_in_gather
join_in_gather-stays_timely j d e h = ground (arith, h, e)

handle_join_in-stays_timely :
    (st : MembState) (j : Join) (d : Daemon)
    → (memb_of d).state ≡ st
    → is_timely d ≡ true
    → stays_timely (handle_join_in st j d) ≡ true
unfolding handle_join_in
handle_join_in-stays_timely MembState.op j d e h =
    ground (arith, h, join_in_op-stays_timely j d e h, token_loss-stays_timely d h)
handle_join_in-stays_timely MembState.seg j d e h = join_in_seg-stays_timely j d e h
handle_join_in-stays_timely MembState.represented j d e h = join_in_represented-stays_timely j d e h
handle_join_in-stays_timely MembState.gather j d e h = join_in_gather-stays_timely j d e h
handle_join_in-stays_timely MembState.form j d e h = h
handle_join_in-stays_timely MembState.evs j d e h =
    ground (arith, h, lose_and_take-stays_timely j.proc_id d h)

handle_refer_in-stays_timely :
    (st : MembState) (rep type : ℕ) (d : Daemon)
    → (memb_of d).state ≡ st
    → is_timely d ≡ true
    → stays_timely (handle_refer_in st rep type d) ≡ true
unfolding handle_refer_in
handle_refer_in-stays_timely st rep type d e h = ground (arith, h, e)

pub lookup_new_members_in-is_timely :
    (st : MembState) (d : Daemon)
    → (memb_of d).state ≡ st
    → is_timely d ≡ true
    → is_timely (lookup_new_members_in st d) ≡ true
unfolding lookup_new_members_in shift_to_gather
lookup_new_members_in-is_timely st d e h = ground (arith, h, e)

handle_foreign_in-stays_timely :
    (st : MembState) (proc_id : ℕ) (d : Daemon)
    → (memb_of d).state ≡ st
    → is_timely d ≡ true
    → stays_timely (handle_foreign_in st proc_id d) ≡ true
unfolding handle_foreign_in lookup_new_members
handle_foreign_in-stays_timely st proc_id d e h =
    ground (arith, h, e, lookup_new_members_in-is_timely (memb_of d).state d refl h)

pub handle_message-stays_timely :
    (m : Message) (d : Daemon) → is_timely d ≡ true → stays_timely (handle_message m d) ≡ true
unfolding handle_message handle_alive handle_join handle_refer handle_foreign
handle_message-stays_timely (alive_message id) d h = handle_alive_in-stays_timely _ id d refl h
handle_message-stays_timely (join_message j) d h = handle_join_in-stays_timely _ j d refl h
handle_message-stays_timely (refer_message rep type) d h =
    handle_refer_in-stays_timely _ rep type d refl h
handle_message-stays_timely (regular_message id) d h = handle_foreign_in-stays_timely _ id d refl h
