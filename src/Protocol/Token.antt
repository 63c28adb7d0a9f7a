-- ===== src/Protocol/Token.antt =====
-- spread-src-4.4.0/daemon/protocol.c:
-- Prot_handle_token. `none` is the end of the process by an alarm. The repair of
-- the other byte order and the priorities of the descriptors are not modelled. rtr_len, an int16, is a
-- natural number here: a token with 2 ^ 15 bytes of requests or more is not modelled faithfully.
pub mod Arq
pub mod Alive
use mathlib.Core.Option
use tf.Prelude.{
  ℕ, zero, suc, ◌+◌, ◌-◌, ◌*◌, ◌/◌, ◌%◌, ◌^◌, Bool, true, false, not, ◌&&◌, ◌||◌, ◌==◌, ltb, leb,
  if◌then◌else◌, Option, none, some, List, [], ◌∷◌, ◌++◌, length,
}
use tf.Prelude.Int.{ℤ, pos, negsuc, ◌+ℤ◌, ◌-ℤ◌}
use tf.Configuration.{previous}
use tf.NetTypes.{
  MembershipId, TokenHeader, RingRtr, is_form, get_arq, set_arq, get_retrans, set_retrans,
  memb_is_equal, sizeof_token_header, sizeof_token_body, sizeof_ring_rtr,
}
use tf.FlowControl.{is_evs, allowed}
use tf.Membership.{
  Membership, active_ptr, active_id, commit, prot_token_hurry_event, memb_token_loss_event,
}
use tf.Protocol.Fragment.{int16_word}
use tf.Protocol.State.{
  Packet, PacketInfo, Prot, Effect, bcast, ucast, scast, queue, send_token, memb_handle_token,
  memb_token_loss, emit, slot, exists,
}
use tf.Protocol.Deliver.{deliver_agreed_packets, deliver_reliable_packets}
use tf.Protocol.Discard.{discard_packets}
use tf.Protocol.Send.{flush_bcast, send_new_packets}
use tf.Protocol.Receive.{is_leader, is_token_hold, times, token_hurry, raise_my_aru}
use tf.Protocol.Answer.{
  Answers, same_seg, retransmission, answer_one, answer_seqs, answer_all, answer_retrans,
  sizeof_rtrs, missing, max_rtr_seq, own_requests,
}

-- (int16) of an integer.
unfoldable pub int16_of : ℤ → ℤ
unfolding int16_word
int16_of z = let w = int16_word z in if ltb w (2 ^ 15) then pos w else negsuc (2 ^ 16 - 1 - w)

-- The token's count of packets in flight: what this daemon sent in the last round leaves it.
unfoldable pub next_flow_control : ℤ → (last_retrans last_sent retrans sent : ℕ) → ℤ
unfolding int16_of
next_flow_control fc last_retrans last_sent retrans sent =
    int16_of (fc -ℤ pos last_retrans -ℤ pos last_sent +ℤ pos retrans +ℤ pos sent)

-- The token as it is when `aru` has been updated.
unfoldable pub update_aru : Prot → TokenHeader → TokenHeader
unfolding is_evs
update_aru s t =
    if ltb s.my_aru t.aru
      || (t.aru_last_id == s.my.id || t.aru == t.seq && not (is_evs s.memb.state))
    then record t { aru = s.my_aru; aru_last_id = s.my.id }
    else t

-- The leader begins a new round.
unfoldable pub next_type : Bool → ℕ → ℕ
unfolding get_arq set_arq set_retrans
next_type leads type =
    if leads then set_retrans (set_arq type ((get_arq type + 1) % 16)) 0 else type

-- The token's fate before it is handled.
pub data Verdict : Type 0 where
  -- not taken, with the state behind it
  swallow : Prot → Verdict
  -- asked to send the last token again
  resend : Prot → Verdict
  take : Prot → Verdict

abbrev pub just_installed : Prot → Prot
just_installed s =
    if s.memb.just_installed
    then record s {
      memb = record s.memb { just_installed = false };
      last_token = record s.last_token { aru = 0 };
    }
    else s

-- A token of the present membership from the right daemon: is it a new one?
unfoldable pub check_arq : Bool → TokenHeader → Prot → Verdict
unfolding get_arq get_retrans set_retrans
check_arq leads t s =
    let arq = get_arq t.type in
    let last = get_arq s.last_token.type in
    let again = record s {
      last_token = record s.last_token {
        type = set_retrans s.last_token.type (get_retrans t.type);
      };
    } in
    if leads
    then (if arq == last then take (just_installed s) else swallow s)
    else if arq == last
    then (if ltb (get_retrans s.last_token.type) (get_retrans t.type)
        then resend again
        else swallow s)
    else if arq == (last + 1) % 16
    then take (just_installed s)
    else swallow s

abbrev pub max_wrap_sequence_value : ℕ
max_wrap_sequence_value = 2 ^ 30

-- The checks between those of the membership and the counters, of a token of `received` bytes that
-- `transmiter` is to have sent.
unfoldable pub is_expected : (transmiter received : ℕ) → TokenHeader → Prot → Bool
unfolding is_evs
is_expected transmiter received t s =
    t.transmiter_id == transmiter
    && (received == sizeof_token_header + t.rtr_len
        && (is_evs s.memb.state || leb t.seq max_wrap_sequence_value))

-- In EVS a daemon that has all packets commits.
unfoldable pub commit_evs : Prot → Prot
unfolding is_evs commit
commit_evs s =
    if is_evs s.memb.state && s.my_aru == s.highest_seq
    then record s { my_aru = s.last_seq; memb = commit s.memb }
    else s

-- The token that this daemon passes on.
unfoldable pub pass_token : Bool → ℤ → List RingRtr → Prot → TokenHeader → TokenHeader
unfolding update_aru next_type is_evs sizeof_rtrs
pass_token leads flow_control rtrs s t =
    let t' =
      update_aru s
        (record t { flow_control = flow_control; rtr_len = sizeof_rtrs rtrs % 2 ^ 16 }) in
    record t' {
      proc_id = s.my.id;
      seq = if is_evs s.memb.state then t.seq else s.highest_seq;
      type = next_type leads t.type;
    }

-- The token goes out, unless the leader holds it, and the timers start anew.
unfoldable pub send_on : Bool → TokenHeader → List RingRtr → Prot → Prot
unfolding is_token_hold
send_on leads t rtrs s =
    let tokens =
      if leads && is_token_hold s then 0 else if ltb 1 (get_retrans t.type) then 3 else 1 in
    let timers =
      (if leads then queue prot_token_hurry_event ∷ [] else [])
      ++ (queue memb_token_loss_event ∷ []) in
    record s {
      out = s.out ++ (times tokens (send_token t rtrs) ++ timers);
      token_rounds = s.token_rounds + 1;
    }

-- Aru becomes the smaller of the last two values on the token, and must not fall.
unfoldable pub raise_aru : TokenHeader → Prot → Option Prot
raise_aru t s =
    let aru = if ltb s.last_token.aru t.aru then s.last_token.aru else t.aru in
    if ltb aru s.aru
    then none
    else some (record s {
      aru = aru;
      token_counter = if s.highest_seq == aru then s.token_counter + 1 else 0;
      last_token = t;
    })

-- The deliveries at the end of a round.
unfoldable pub deliver_round : ℕ → Prot → Option Prot
unfolding discard_packets deliver_agreed_packets deliver_reliable_packets is_evs
deliver_round num_sent s = Option.bind (discard_packets s) (λ s1.
    Option.bind (deliver_agreed_packets s1) (λ s2.
      Option.map
        (λ s3.
          if is_evs s3.memb.state && ltb 500 s3.token_rounds then emit memb_token_loss s3 else s3)
        (deliver_reliable_packets (s2.highest_seq + 1 - num_sent) num_sent s2)))

-- Behind the checks and the answers: new packets, the daemon's own requests, the token.
unfoldable pub work : Bool → TokenHeader → Answers → Option Prot
unfolding allowed send_new_packets next_flow_control raise_my_aru own_requests commit_evs pass_token
    send_on flush_bcast raise_aru deliver_round
work leads t a =
    let s = a.prot in
    let num_allowed = allowed s.flow_control s.memb.state s.highest_seq s.aru t.flow_control in
    Option.bind (send_new_packets num_allowed s) (λ r.
      let (num_sent, s1) = r in
      let fc =
        next_flow_control t.flow_control s1.last_num_retrans s1.last_num_sent a.num_retrans
          num_sent in
      let s2 =
        raise_my_aru (record s1 { last_num_retrans = a.num_retrans; last_num_sent = num_sent }) in
      let rtrs = a.others ++ own_requests (record a { prot = s2 }) in
      let s3 = commit_evs s2 in
      let t' = pass_token leads fc rtrs s3 t in
      Option.bind (raise_aru t' (flush_bcast (send_on leads t' rtrs s3)))
        (λ s4. deliver_round num_sent s4))

-- The token is taken: the counters follow it, and the packets asked for are sent again.
unfoldable pub take_token : Bool → TokenHeader → List RingRtr → Prot → Option Prot
unfolding answer_retrans work
take_token leads t rtrs s =
    Option.bind
      (answer_retrans rtrs (record s {
        highest_seq = if ltb s.highest_seq t.seq then t.seq else s.highest_seq;
        received_token_rounds = s.received_token_rounds + 1;
        token_has_priority = false;
      }))
      (λ a. work leads t a)

-- What a verdict leads to.
abbrev pub on_verdict : Bool → TokenHeader → List RingRtr → Verdict → Option Prot
on_verdict leads t rtrs (swallow s) = some s
on_verdict leads t rtrs (resend s) = token_hurry s
on_verdict leads t rtrs (take s) = take_token leads t rtrs s

-- Prot_handle_token, of a token of `received` bytes.
unfoldable pub handle_token : ℕ → TokenHeader → List RingRtr → Prot → Option Prot
unfolding is_leader previous active_ptr active_id memb_is_equal check_arq is_expected token_hurry
    take_token is_form emit
handle_token received t rtrs s =
    if is_form t.type
    then some (emit memb_handle_token s)
    else if not s.memb.token_alive
    then some s
    else if not (memb_is_equal t.memb_id (active_id s.memb))
    then some s
    else Option.bind (previous s.my (active_ptr s.memb)) (λ transmiter.
      if not (is_expected transmiter received t s)
      then some s
      else Option.bind (is_leader s) (λ leads. on_verdict leads t rtrs (check_arq leads t s)))
