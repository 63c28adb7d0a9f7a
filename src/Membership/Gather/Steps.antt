-- ===== src/Membership/Gather/Steps.antt =====
-- The steps of a daemon of spread-src-4.4.0/daemon/membership.c, and the events that are queued.
use tf.Prelude.{
  ◌≡◌, refl, arith, Bool, true, false, ℕ, Option, none, some, List, [], ◌∷◌, Option-cases, inl, inr,
  sym, subst, ◌∙◌, ◌⊎◌, ◌++◌, ◌>>=◌, Bool-cases, Whenever, if_both,
}
use tf.FlowControl.{MembState}
use tf.Membership.{Timer}
use tf.Membership.Gather.{
  Daemon, Timers, memb_of, shift_to_op, shift_to_seg, shift_to_gather, shift_to_represented,
  gather_or_represented,
}
use tf.Membership.Gather.Handle.{
  lookup_new_members, scast_alive, handle_form1, handle_form1_in, handle_form2, handle_form2_in,
}
use tf.Membership.Gather.Create.{create_form1, enter_form}
use tf.Membership.Gather.Fill.{
  fill_form1, fill_admitted, admit, admit_in, admits, drops, exits, Admission,
}
use tf.Membership.Gather.Read.{read_form2, read_legal}
use tf.Membership.Form.{Form1, Form2, RepsInfo, RingInfo, my_ring}
use tf.Membership.{CommitSet}
use tf.Membership.Gather.{shift_to_op}
use tf.NetTypes.{TokenHeader, RingRtr, is_form}
use tf.Protocol.State.{Prot, Effect, queue, dequeue}
use tf.Protocol.Token.{handle_token}
use tf.Protocol.Token.Alive.{GoesOn, handle_token-GoesOn, handle_token-lost}
use tf.Protocol.Unmoved.{Whenever-weaken}
use tf.Membership.Gather.Timing.{
  is_timely, is_timely_in, stays_timely, token_loss-stays_timely, handle_message-stays_timely,
  lookup_new_members_in-is_timely,
}
use tf.Membership.Gather.Event.{
  form_or_fail, send_join, back_to_op, fired, Step, message, form1_token, form2_token,
  memb_token_loss_event, scast_alive_event, gather_or_represented_event, shift_to_seg_event,
  send_join_event, form_or_fail_event, memb_lookup_new_members_event, regular_token, set_timer,
  set_timers, calls_token_loss, after_protocol, handle_regular_token,
}

-- A token that is admitted takes no daemon in SEG, FORM or EVS to FORM.
fill_admitted-stays_timely :
    (st : MembState) (t : Form1) (m : CommitSet) (reps : RepsInfo) (f_members : List ℕ) (d : Daemon)
    → (memb_of d).state ≡ st
    → admit_in st t d ≡ admits m reps f_members
    → is_timely d ≡ true
    → stays_timely (fill_admitted t m reps f_members d) ≡ true
unfolding fill_admitted enter_form admit_in
fill_admitted-stays_timely st t m reps f_members d e admitted h = ground (arith, h, e, admitted)

fill_form1-stays_timely :
    (t : Form1) (d : Daemon) → is_timely d ≡ true → stays_timely (fill_form1 t d) ≡ true
unfolding fill_form1 admit
fill_form1-stays_timely t d h = after (admit t d) refl
  where
    after :
        (a : Admission)
        → admit t d ≡ a
        → stays_timely (elim a [
          | drops ↦ some d
          | exits ↦ none
          | admits m reps f_members ↦ fill_admitted t m reps f_members d
        ])
          ≡ true
    after drops e = h
    after exits e = refl
    after (admits m reps f_members) e = fill_admitted-stays_timely _ t m reps f_members d refl e h

create_form1-stays_timely :
    (now : ℕ) (d : Daemon)
    → (memb_of d).state ≡ MembState.gather
    → d.timers.form_or_fail ≡ false
    → is_timely d ≡ true
    → stays_timely (create_form1 now d) ≡ true
unfolding create_form1 enter_form
create_form1-stays_timely now d e fired h = ground (arith, h, e, fired)

read_legal-stays_timely :
    (now : ℕ) (t : Form2) (rg : RingInfo) (d : Daemon)
    → (memb_of d).state ≡ MembState.form
    → is_timely d ≡ true
    → stays_timely (read_legal now t rg d) ≡ true
unfolding read_legal
read_legal-stays_timely now t rg d e h = ground (arith, h, e)

read_form2-stays_timely :
    (now : ℕ) (t : Form2) (d : Daemon)
    → (memb_of d).state ≡ MembState.form
    → is_timely d ≡ true
    → stays_timely (read_form2 now t d) ≡ true
unfolding read_form2
read_form2-stays_timely now t d e h =
    elim (Option-cases (my_ring (memb_of d).membership_id t.rings)) [
      | inl none_there ↦ ground (arith, h, none_there)
      | inr (rg, there) ↦ ground (arith, h, there, read_legal-stays_timely now t rg d e h)
    ]

handle_form1_in-stays_timely :
    (st : MembState) (t : Form1) (d : Daemon)
    → (memb_of d).state ≡ st
    → is_timely d ≡ true
    → stays_timely (handle_form1_in st t d) ≡ true
unfolding handle_form1_in
handle_form1_in-stays_timely st t d e h = ground (arith, h, e, fill_form1-stays_timely t d h)

handle_form2_in-stays_timely :
    (st : MembState) (now : ℕ) (t : Form2) (d : Daemon)
    → (memb_of d).state ≡ st
    → is_timely d ≡ true
    → stays_timely (handle_form2_in st now t d) ≡ true
unfolding handle_form2_in
handle_form2_in-stays_timely MembState.form now t d e h = read_form2-stays_timely now t d e h
handle_form2_in-stays_timely _ now t d e h = h

gather_or_represented-stays_timely :
    (d : Daemon)
    → (memb_of d).state ≡ MembState.seg
    → d.timers.gather_or_represented ≡ false
    → is_timely d ≡ true
    → stays_timely (gather_or_represented d) ≡ true
unfolding gather_or_represented shift_to_gather shift_to_represented
gather_or_represented-stays_timely d e fired h = ground (arith, h, e, fired)

form_or_fail-stays_timely :
    (now : ℕ) (d : Daemon)
    → (memb_of d).state ≡ MembState.gather
    → d.timers.form_or_fail ≡ false
    → is_timely d ≡ true
    → stays_timely (form_or_fail now d) ≡ true
unfolding form_or_fail back_to_op shift_to_op shift_to_gather
form_or_fail-stays_timely now d e fired h =
    ground (arith, h, e, fired, create_form1-stays_timely now d e fired h)

-- The events of one state.
fires_in :
    (st : MembState) (d : Daemon)
    → is_timely_in st d ≡ true
    → (d.timers.scast_alive ≡ true → st ≡ MembState.seg)
      × (d.timers.gather_or_represented ≡ true → st ≡ MembState.seg)
      × (d.timers.shift_to_seg ≡ true → st ≡ MembState.represented)
      × (d.timers.send_join ≡ true → st ≡ MembState.gather)
      × (d.timers.form_or_fail ≡ true → st ≡ MembState.gather)
fires_in MembState.seg d h = ground (arith, h)
fires_in MembState.represented d h = ground (arith, h)
fires_in MembState.gather d h = ground (arith, h)
fires_in MembState.op d h = ground (arith, h)
fires_in MembState.form d h = ground (arith, h)
fires_in MembState.evs d h = ground (arith, h)

lookup_new_members-is_timely :
    (d : Daemon) → is_timely d ≡ true → is_timely (lookup_new_members d) ≡ true
unfolding lookup_new_members
lookup_new_members-is_timely d h = lookup_new_members_in-is_timely (memb_of d).state d refl h

-- An event fewer is queued.
unqueued-is_timely :
    (st : MembState) (d : Daemon)
    → is_timely_in st d ≡ true
    → (is_timely_in st (fired (λ t. record t { token_loss = false }) d) ≡ true)
      × (is_timely_in st (fired (λ t. record t { gather_or_represented = false }) d) ≡ true)
      × (is_timely_in st (fired (λ t. record t { form_or_fail = false }) d) ≡ true)
      × (is_timely_in st (fired (λ t. record t { lookup_new_members = false }) d) ≡ true)
unqueued-is_timely MembState.seg d h = ground (arith, h)
unqueued-is_timely MembState.represented d h = ground (arith, h)
unqueued-is_timely MembState.gather d h = ground (arith, h)
unqueued-is_timely MembState.op d h = ground (arith, h)
unqueued-is_timely MembState.form d h = ground (arith, h)
unqueued-is_timely MembState.evs d h = ground (arith, h)

scast_alive-is_timely :
    (d : Daemon)
    → (memb_of d).state ≡ MembState.seg
    → is_timely d ≡ true
    → is_timely (scast_alive 0 (fired (λ t. record t { scast_alive = false }) d)) ≡ true
unfolding scast_alive
scast_alive-is_timely d e h = ground (arith, h, e)

send_join-is_timely :
    (d : Daemon)
    → (memb_of d).state ≡ MembState.gather
    → is_timely d ≡ true
    → is_timely (send_join (fired (λ t. record t { send_join = false }) d)) ≡ true
unfolding send_join
send_join-is_timely d e h = ground (arith, h, e)

-- The events of the membership that the token protocol leaves alone.
record SameEvents (t t' : Timers) : Type 0 where
  scast : t'.scast_alive ≡ t.scast_alive
  represented : t'.gather_or_represented ≡ t.gather_or_represented
  seg : t'.shift_to_seg ≡ t.shift_to_seg
  join : t'.send_join ≡ t.send_join
  form : t'.form_or_fail ≡ t.form_or_fail

set_timer-SameEvents : (b : Bool) (x : Timer) (t : Timers) → SameEvents t (set_timer b x t)
unfolding set_timer
set_timer-SameEvents b x t = record {
  scast = ground arith;
  represented = ground arith;
  seg = ground arith;
  join = ground arith;
  form = ground arith;
}

SameEvents-trans : {t t' t'' : Timers} → SameEvents t t' → SameEvents t' t'' → SameEvents t t''
SameEvents-trans h k = record {
  scast = k.scast ∙ h.scast;
  represented = k.represented ∙ h.represented;
  seg = k.seg ∙ h.seg;
  join = k.join ∙ h.join;
  form = k.form ∙ h.form;
}

set_timers-SameEvents : (es : List Effect) (t : Timers) → SameEvents t (set_timers es t)
unfolding set_timers
set_timers-SameEvents [] t = record {
  scast = refl;
  represented = refl;
  seg = refl;
  join = refl;
  form = refl;
}
set_timers-SameEvents (queue x ∷ es) t =
    SameEvents-trans (set_timer-SameEvents true x t) (set_timers-SameEvents es _)
set_timers-SameEvents (dequeue x ∷ es) t =
    SameEvents-trans (set_timer-SameEvents false x t) (set_timers-SameEvents es _)
set_timers-SameEvents (_ ∷ es) t = set_timers-SameEvents es t

-- With a token the events of the token may be queued or not.
alive_in-is_timely :
    (st : MembState) (s : Prot) (timers : Timers) (d : Daemon)
    → (memb_of d).state ≡ st
    → (memb_of d).token_alive ≡ true
    → (s.memb.state ≡ (memb_of d).state)
      ⊎ (((memb_of d).state ≡ MembState.evs) × (s.memb.state ≡ MembState.op))
    → s.memb.token_alive ≡ (memb_of d).token_alive
    → SameEvents d.timers timers
    → is_timely d ≡ true
    → is_timely (record d { prot = s; timers = timers }) ≡ true
alive_in-is_timely st s timers d e alive (inl state) token same h =
    ground (
      arith, h, e, alive, state, token, same.scast, same.represented, same.seg, same.join,
      same.form,
    )
alive_in-is_timely st s timers d e alive (inr (evs, op)) token same h = ground (
  arith, h, e, alive, evs, op, token, same.scast, same.represented, same.seg, same.join, same.form,
)

alive-is_timely :
    (d : Daemon) (s : Prot) (timers : Timers)
    → (memb_of d).token_alive ≡ true
    → GoesOn (memb_of d).state (memb_of d).token_alive s.memb
    → SameEvents d.timers timers
    → is_timely d ≡ true
    → is_timely (record d { prot = s; timers = timers }) ≡ true
alive-is_timely d s timers alive goes same h =
    alive_in-is_timely (memb_of d).state s timers d refl alive goes.state goes.token same h

after_protocol-stays_timely :
    (d : Daemon) (s : Prot)
    → (memb_of d).token_alive ≡ true
    → GoesOn (memb_of d).state (memb_of d).token_alive s.memb
    → is_timely d ≡ true
    → stays_timely (after_protocol d s) ≡ true
unfolding after_protocol
after_protocol-stays_timely d s alive goes h =
    let d' : Daemon = record d {
      prot = record s { out = d.prot.out ++ s.out };
      timers = set_timers s.out d.timers;
    } in
    let timely =
      alive-is_timely d d'.prot d'.timers alive (record { token = goes.token; state = goes.state })
        (set_timers-SameEvents s.out d.timers) h in
    if_both (λ (o : Option Daemon). stays_timely o ≡ true) (calls_token_loss s.out)
      (token_loss-stays_timely d' timely) timely

Whenever-some_eq :
    (P : Prot → Type 0) (o : Option Prot) (s : Prot) → o ≡ some s → P s → Whenever P o
Whenever-some_eq P o s e h = subst (Whenever P) (sym e) h

timely_result :
    (o : Option Prot) (f : Prot → Option Daemon)
    → Whenever (λ s. stays_timely (f s) ≡ true) o
    → stays_timely (o >>= f) ≡ true
timely_result none f h = refl
timely_result (some s) f h = h

handle_regular_token-stays_timely :
    (received : ℕ) (t : TokenHeader) (rtrs : List RingRtr) (d : Daemon)
    → is_form t.type ≡ false
    → is_timely d ≡ true
    → stays_timely (handle_regular_token received t rtrs d) ≡ true
unfolding handle_regular_token after_protocol
handle_regular_token-stays_timely received t rtrs d regular h =
    let s : Prot = record d.prot { out = [] } in
    elim (Bool-cases (memb_of d).token_alive) [
      | inl alive ↦ timely_result (handle_token received t rtrs s) (after_protocol d) (
          Whenever-weaken _ (λ s'. stays_timely (after_protocol d s') ≡ true) _
            (handle_token-GoesOn received t rtrs s)
            (λ s' goes. after_protocol-stays_timely d s' alive goes h))
      | inr lost ↦ timely_result (handle_token received t rtrs s) (after_protocol d) (
          Whenever-some_eq _ (handle_token received t rtrs s) s
            (handle_token-lost received t rtrs s regular lost) h)
    ]

-- Each step of a timely daemon, which receives a message of the membership or a form token, handles a
-- regular token by Prot_handle_token, with the installation of a membership and the loss of the token
-- that this may lead to, or calls the function of an event of the membership that is queued, leaves it
-- timely if the process does not end: it has the token in OP and EVS, and not in SEG, REPRESENTED and
-- FORM; the loss of the token is queued only with a token or in FORM; and the events of SEG,
-- REPRESENTED and GATHER are queued only there.
pub Step-stays_timely :
    {d : Daemon} {o : Option Daemon} → Step d o → is_timely d ≡ true → stays_timely o ≡ true
unfolding handle_form1 handle_form2 shift_to_seg
Step-stays_timely (message m d) h = handle_message-stays_timely m d h
Step-stays_timely (form1_token t d) h = handle_form1_in-stays_timely _ t d refl h
Step-stays_timely (form2_token now t d) h = handle_form2_in-stays_timely _ now t d refl h
Step-stays_timely (memb_token_loss_event d e) h =
    token_loss-stays_timely _ (unqueued-is_timely _ d h).0
Step-stays_timely (scast_alive_event d e) h = scast_alive-is_timely d ((fires_in _ d h).0 e) h
Step-stays_timely (gather_or_represented_event d e) h =
    gather_or_represented-stays_timely _ ((fires_in _ d h).1 e) refl (unqueued-is_timely _ d h).1
Step-stays_timely (shift_to_seg_event d e) h = ground (arith, h, (fires_in _ d h).2 e)
Step-stays_timely (send_join_event d e) h = send_join-is_timely d ((fires_in _ d h).3 e) h
Step-stays_timely (form_or_fail_event now d e) h =
    form_or_fail-stays_timely now _ ((fires_in _ d h).4 e) refl (unqueued-is_timely _ d h).2
Step-stays_timely (memb_lookup_new_members_event d e) h =
    lookup_new_members-is_timely _ (unqueued-is_timely _ d h).3
Step-stays_timely (regular_token received t rtrs d regular) h =
    handle_regular_token-stays_timely received t rtrs d regular h
