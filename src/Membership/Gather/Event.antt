-- ===== src/Membership/Gather/Event.antt =====
-- The handlers of the events of spread-src-4.4.0/daemon/membership.c, and the steps of a daemon.
use tf.NetTypes.{TokenHeader, RingRtr, is_form}
use tf.Protocol.State.{Prot, Effect, queue, dequeue, memb_token_loss}
use tf.Protocol.Token.{handle_token}
use tf.Prelude.{
  ◌≡◌, ℕ, Bool, true, false, ◌&&◌, ◌==◌, if◌then◌else◌, Option, some, List, [], ◌∷◌, ◌++◌, length,
  drop, map, ◌>>=◌,
}
use tf.Membership.{Timer}
use tf.Membership.Reps.{RepInfo, smallest_rep}
use tf.Membership.Form.{Form1, Form2}
use tf.Membership.Gather.{
  Daemon, Timers, join_seg, join, memb_of, my_of, send, shift_to_op, shift_to_seg, shift_to_gather,
  gather_or_represented, insert_reps, token_loss,
}
use tf.Membership.Gather.Handle.{
  Message, handle_message, handle_form1, handle_form2, scast_alive, lookup_new_members,
}
use tf.Membership.Gather.Create.{create_form1}

-- Back to OP, with a later search for new members.
unfoldable pub back_to_op : Daemon → Daemon
unfolding shift_to_op
back_to_op d =
    shift_to_op
      (record d { timers = record d.timers { send_join = false; lookup_new_members = true } })

unfoldable pub form_or_fail : (now : ℕ) → Daemon → Option Daemon
unfolding smallest_rep back_to_op create_form1 insert_reps shift_to_gather
form_or_fail now d = do
  let m = memb_of d
  (index, rep) ← smallest_rep m.cn d.f_reps
  if rep.proc_id == (my_of d).id
      then (if m.token_alive && length d.f_reps == 1
          then some (back_to_op d)
          else create_form1 now d)
      else (if m.token_alive
          then some (back_to_op d)
          else (insert_reps m.cn (drop 1 d.f_reps) [] >>= λ potential. some (
              shift_to_gather (record d {
                f_members = (my_of d).id ∷ [];
                f_num_pending = 0;
                potential_reps = potential;
              }))))

unfoldable pub send_join : Daemon → Daemon
send_join d =
    let to =
      (if (memb_of d).token_alive
        then []
        else join_seg (my_of d).seg_index d.f_members d.f_reps ∷ [])
      ++ map (λ (r : RepInfo). join r.proc_id d.f_members d.f_reps) d.potential_reps in
    record (send to d) { timers = record d.timers { send_join = true } }

-- The event leaves the queue before its function is called.
abbrev pub fired : (Timers → Timers) → Daemon → Daemon
fired f d = record d { timers = f d.timers }

-- An event of the token protocol is in the queue, or is not.
unfoldable pub set_timer : Bool → Timer → Timers → Timers
set_timer b Timer.memb_token_loss_event t = record t { token_loss = b }
set_timer b Timer.prot_token_hurry_event t = record t { token_hurry = b }
set_timer b Timer.memb_lookup_new_members_event t = record t { lookup_new_members = b }
set_timer b Timer.prot_initiate_conf_reload t = record t { conf_reload = b }
set_timer b Timer.deliver_all_reliable_packets_event t = t
set_timer b Timer.deliver_agreed_packets_event t = t

unfoldable pub set_timers : List Effect → Timers → Timers
unfolding set_timer
set_timers [] t = t
set_timers (queue x ∷ es) t = set_timers es (set_timer true x t)
set_timers (dequeue x ∷ es) t = set_timers es (set_timer false x t)
set_timers (_ ∷ es) t = set_timers es t

unfoldable pub calls_token_loss : List Effect → Bool
calls_token_loss [] = false
calls_token_loss (memb_token_loss ∷ es) = true
calls_token_loss (_ ∷ es) = calls_token_loss es

-- What protocol.c did with its variables, and the calls that it made of the events and of
-- Memb_token_loss, which is the last call of Prot_handle_token.
unfoldable pub after_protocol : Daemon → Prot → Option Daemon
unfolding set_timers calls_token_loss token_loss
after_protocol d s =
    let d' : Daemon = record d {
      prot = record s { out = d.prot.out ++ s.out };
      timers = set_timers s.out d.timers;
    } in
    if calls_token_loss s.out then token_loss d' else some d'

unfoldable pub handle_regular_token :
    (received : ℕ) → TokenHeader → List RingRtr → Daemon → Option Daemon
unfolding handle_token after_protocol
handle_regular_token received t rtrs d = do
  s ← handle_token received t rtrs (record d.prot { out = [] })
  after_protocol d s

-- What a daemon does next in the membership, and the state in which it ends up, if the process does not
-- end. Packets that arrive, the events of the token protocol and the sessions are not among the steps.
pub data Step : Daemon → Option Daemon → Type 0 where
  message : (m : Message) (d : Daemon) → Step d (handle_message m d)
  form1_token : (t : Form1) (d : Daemon) → Step d (handle_form1 t d)
  form2_token : (now : ℕ) (t : Form2) (d : Daemon) → Step d (handle_form2 now t d)
  memb_token_loss_event :
      (d : Daemon)
      → d.timers.token_loss ≡ true
      → Step d (token_loss (fired (λ t. record t { token_loss = false }) d))
  scast_alive_event :
      (d : Daemon)
      → d.timers.scast_alive ≡ true
      → Step d (some (scast_alive 0 (fired (λ t. record t { scast_alive = false }) d)))
  gather_or_represented_event :
      (d : Daemon)
      → d.timers.gather_or_represented ≡ true
      → Step d (gather_or_represented (fired (λ t. record t { gather_or_represented = false }) d))
  shift_to_seg_event :
      (d : Daemon)
      → d.timers.shift_to_seg ≡ true
      → Step d (some (shift_to_seg (fired (λ t. record t { shift_to_seg = false }) d)))
  send_join_event :
      (d : Daemon)
      → d.timers.send_join ≡ true
      → Step d (some (send_join (fired (λ t. record t { send_join = false }) d)))
  form_or_fail_event :
      (now : ℕ) (d : Daemon)
      → d.timers.form_or_fail ≡ true
      → Step d (form_or_fail now (fired (λ t. record t { form_or_fail = false }) d))
  memb_lookup_new_members_event :
      (d : Daemon)
      → d.timers.lookup_new_members ≡ true
      → Step d (some (lookup_new_members (fired (λ t. record t { lookup_new_members = false }) d)))
  -- a token that is no form token
  regular_token :
      (received : ℕ) (t : TokenHeader) (rtrs : List RingRtr) (d : Daemon)
      → is_form t.type ≡ false
      → Step d (handle_regular_token received t rtrs d)
