-- ===== src/Protocol/Token/Alive.antt =====
-- What Prot_handle_token of spread-src-4.4.0/daemon/protocol.c does to the state of the membership.
use tf.Prelude.{
  ℕ, ◌+◌, ◌-◌, ◌≡◌, refl, sym, ◌∙◌, ◌⊎◌, inl, inr, Bool, true, false, not, ◌&&◌, ◌||◌, ◌%◌, ◌==◌,
  ltb, leb, if◌then◌else◌, some, List, [], ◌∷◌, ◌++◌, Whenever, if_both,
}
use tf.Configuration.{num_procs}
use tf.NetTypes.{TokenHeader, RingRtr, is_form, memb_is_equal, get_arq, get_retrans}
use tf.FlowControl.{MembState, is_evs, allowed}
use tf.Membership.{Membership, Timer, commit, transitional, regular, shift_to_op, active_id}
use tf.Protocol.State.{Prot, emit, deliver_reg_memb, deliver_trans_memb, max_packets_in_struct}
use tf.Protocol.Deliver.{deliver_agreed_packets, deliver_reliable_packets}
use tf.Protocol.Discard.{
  before_transitional, after_transitional, all_empty, drop_partial, restart, end_reload, install,
  discard_evs, discard_packets, queue_all,
}
use tf.Protocol.Send.{flush_bcast, send_new_packets}
use tf.Protocol.Receive.{token_hurry, raise_my_aru}
use tf.Protocol.Answer.{Answers, answer_retrans, own_requests}
use tf.Protocol.Token.{
  Verdict, swallow, resend, take, just_installed, check_arq, is_expected, commit_evs, pass_token,
  send_on, raise_aru, deliver_round, next_flow_control, work, take_token, on_verdict, handle_token,
}
use tf.Protocol.Unmoved.{
  Whenever-after, Whenever-map, Whenever-after_any, Whenever-map_any, if_cases, Whenever-weaken,
  deliver_agreed_packets-Kept, deliver_reliable_packets-Kept, discard_stable-Kept,
  before_transitional-Kept, after_transitional-Kept, flush_bcast-Kept, send_new_packets-Kept,
  answer_retrans-Kept, Numbered, Answered,
}

-- The state and the token are those.
abbrev pub IsIn : MembState → Bool → Membership → Type 0
IsIn st alive m = (m.state ≡ st) × (m.token_alive ≡ alive)

-- The token is as it was, and the state, or EVS has become OP.
pub record GoesOn (st : MembState) (alive : Bool) (m : Membership) : Type 0 where
  pub token : m.token_alive ≡ alive
  pub state : (m.state ≡ st) ⊎ ((st ≡ MembState.evs) × (m.state ≡ MembState.op))

is_evs-eq : (st : MembState) → is_evs st ≡ true → st ≡ MembState.evs
unfolding is_evs
is_evs-eq MembState.evs e = refl
is_evs-eq MembState.op e = absurd (cc e)
is_evs-eq MembState.seg e = absurd (cc e)
is_evs-eq MembState.represented e = absurd (cc e)
is_evs-eq MembState.gather e = absurd (cc e)
is_evs-eq MembState.form e = absurd (cc e)

module _ (st : MembState) (alive : Bool) where
  stays : (m : Membership) → IsIn st alive m → GoesOn st alive m
  stays m h = record { token = h.1; state = inl h.0 }

  transitional-IsIn : (m : Membership) → IsIn st alive m → Whenever (IsIn st alive) (transitional m)
  unfolding transitional
  transitional-IsIn m h = Whenever-after_any (IsIn st alive) _ _ (λ trans.
      Whenever-after_any (IsIn st alive) _ _
        (λ first. Whenever-map_any (IsIn st alive) _ _ (λ committed. h)))

  regular-GoesOn :
      (need : Bool) (m : Membership)
      → st ≡ MembState.evs
      → IsIn st alive m
      → Whenever (λ r. GoesOn st alive r.0) (regular need m)
  unfolding regular shift_to_op
  regular-GoesOn need m evs h =
      Whenever-map_any (λ (r : Membership × List Timer). GoesOn st alive r.0) _ _
        (λ first. record { token = h.1; state = inr (evs, refl) })

  abbrev Within : Prot → Type 0
  Within s = IsIn st alive s.memb

  abbrev After : Prot → Type 0
  After s = GoesOn st alive s.memb

  end_reload-GoesOn : (s : Prot) → After s → Whenever After (end_reload s)
  unfolding end_reload
  end_reload-GoesOn s h = if_both (Whenever After) (not s.reload_singleton) h (
      if_both (Whenever After) (not (s.gstate == 1) || not (num_procs s.memb.reg_membership == 1))
        tt h)

  install-GoesOn :
      (s : Prot) → st ≡ MembState.evs → IsIn st alive s.memb → Whenever After (install s)
  unfolding install restart drop_partial
  install-GoesOn s evs h =
      if_both (Whenever After) (not (all_empty max_packets_in_struct s.packets)) tt (
        Whenever-after (λ (r : Membership × List Timer). GoesOn st alive r.0) After
          (regular s.need_conf_reload s.memb) _ (regular-GoesOn s.need_conf_reload s.memb evs h)
          (λ r k.
            let s' = drop_partial s in
            let installed : Prot = record s' {
              memb = r.0;
              out =
                  s'.out
                  ++ (queue_all r.1
                      ++ (deliver_reg_memb r.0.reg_membership r.0.membership_id ∷ []));
            } in
            Whenever-map After After (end_reload installed) restart (end_reload-GoesOn installed k)
              (λ s'' k'. k')))

  discard_evs-GoesOn :
      (s : Prot) → st ≡ MembState.evs → IsIn st alive s.memb → Whenever After (discard_evs s)
  unfolding discard_evs
  discard_evs-GoesOn s evs h =
      if_both (Whenever After) (not (s.aru == s.last_seq)) (stays s.memb h) (
        Whenever-after Within After
          (before_transitional (s.highest_seq - s.last_discarded) (s.last_discarded + 1) s) _
          (before_transitional-Kept (IsIn st alive) _ _ s h)
          (λ s1 h1.
            Whenever-after (IsIn st alive) After (transitional s1.memb) _
              (transitional-IsIn s1.memb h1)
              (λ memb k.
                let s2 : Prot = record s1 {
                  memb = memb;
                  out =
                      s1.out ++ (deliver_trans_memb memb.trans_membership memb.trans_memb_id ∷ []);
                } in
                let n = s1.highest_seq - s1.last_discarded in
                Whenever-after Within After (after_transitional n (s1.last_discarded + 1) false s2)
                  install
                  (after_transitional-Kept (IsIn st alive) n (s1.last_discarded + 1) false s2 k)
                  (λ s3 h3. install-GoesOn s3 evs h3))))

  discard_packets-GoesOn : (s : Prot) → IsIn st alive s.memb → Whenever After (discard_packets s)
  unfolding discard_packets
  discard_packets-GoesOn s h =
      if_both (Whenever After) (leb s.aru s.last_discarded) (stays s.memb h) (
        if_cases (Whenever After) (is_evs s.memb.state)
          (λ evs. discard_evs-GoesOn s (sym h.0 ∙ is_evs-eq s.memb.state evs) h)
          (λ other. discard_stable-Kept (GoesOn st alive) s (stays s.memb h)))

  deliver_round-GoesOn :
      (num : ℕ) (s : Prot) → IsIn st alive s.memb → Whenever After (deliver_round num s)
  unfolding deliver_round emit
  deliver_round-GoesOn num s h =
      Whenever-after After After (discard_packets s) _ (discard_packets-GoesOn s h) (λ s1 h1.
        Whenever-after After After (deliver_agreed_packets s1) _
          (deliver_agreed_packets-Kept (GoesOn st alive) s1 h1)
          (λ s2 h2.
            Whenever-map After After (deliver_reliable_packets (s2.highest_seq + 1 - num) num s2) _
              (deliver_reliable_packets-Kept (GoesOn st alive) _ num s2 h2)
              (λ s3 h3. if_both After (is_evs s3.memb.state && ltb 500 s3.token_rounds) h3 h3)))

  commit_evs-IsIn : (s : Prot) → IsIn st alive s.memb → IsIn st alive (commit_evs s).memb
  unfolding commit_evs commit
  commit_evs-IsIn s h = if_both Within (is_evs s.memb.state && s.my_aru == s.highest_seq) h h

  raise_aru-IsIn :
      (t : TokenHeader) (s : Prot) → IsIn st alive s.memb → Whenever Within (raise_aru t s)
  unfolding raise_aru
  raise_aru-IsIn t s h =
      if_both (Whenever Within)
        (ltb (if ltb s.last_token.aru t.aru then s.last_token.aru else t.aru) s.aru) tt h

  work-GoesOn :
      (leads : Bool) (t : TokenHeader) (a : Answers)
      → IsIn st alive a.prot.memb
      → Whenever After (work leads t a)
  unfolding work send_on raise_my_aru
  work-GoesOn leads t a h =
      let s = a.prot in
      let num_allowed = allowed s.flow_control s.memb.state s.highest_seq s.aru t.flow_control in
      Whenever-after (Numbered (IsIn st alive)) After (send_new_packets num_allowed s) _
        (send_new_packets-Kept (IsIn st alive) num_allowed s h)
        (λ r k.
          let (num, s1) = r in
          let fc =
            next_flow_control t.flow_control s1.last_num_retrans s1.last_num_sent a.num_retrans
              num in
          let s2 =
            raise_my_aru (record s1 { last_num_retrans = a.num_retrans; last_num_sent = num }) in
          let rtrs = a.others ++ own_requests (record a { prot = s2 }) in
          let s3 = commit_evs s2 in
          let t' = pass_token leads fc rtrs s3 t in
          let s4 = send_on leads t' rtrs s3 in
          Whenever-after Within After (raise_aru t' (flush_bcast s4)) _
            (raise_aru-IsIn t' (flush_bcast s4)
              (flush_bcast-Kept (IsIn st alive) s4 (commit_evs-IsIn s2 k)))
            (λ s5 h5. deliver_round-GoesOn num s5 h5))

  take_token-GoesOn :
      (leads : Bool) (t : TokenHeader) (rtrs : List RingRtr) (s : Prot)
      → IsIn st alive s.memb
      → Whenever After (take_token leads t rtrs s)
  unfolding take_token
  take_token-GoesOn leads t rtrs s h =
      let s' : Prot = record s {
        highest_seq = if ltb s.highest_seq t.seq then t.seq else s.highest_seq;
        received_token_rounds = s.received_token_rounds + 1;
        token_has_priority = false;
      } in
      Whenever-after (Answered (IsIn st alive)) After (answer_retrans rtrs s') (λ a. work leads t a)
        (answer_retrans-Kept (IsIn st alive) rtrs s' h) (λ a k. work-GoesOn leads t a k)

  abbrev VerdictIn : Verdict → Type 0
  VerdictIn (swallow s) = IsIn st alive s.memb
  VerdictIn (resend s) = IsIn st alive s.memb
  VerdictIn (take s) = IsIn st alive s.memb

  just_installed-IsIn : (s : Prot) → IsIn st alive s.memb → IsIn st alive (just_installed s).memb
  just_installed-IsIn s h = if_both Within s.memb.just_installed h h

  check_arq-IsIn :
      (leads : Bool) (t : TokenHeader) (s : Prot)
      → IsIn st alive s.memb
      → VerdictIn (check_arq leads t s)
  unfolding check_arq
  check_arq-IsIn leads t s h =
      let arq = get_arq t.type in
      let last = get_arq s.last_token.type in
      let new = just_installed-IsIn s h in
      if_both VerdictIn leads (if_both VerdictIn (arq == last) new h) (
        if_both VerdictIn (arq == last)
          (if_both VerdictIn (ltb (get_retrans s.last_token.type) (get_retrans t.type)) h h)
          (if_both VerdictIn (arq == (last + 1) % 16) new h))

  token_hurry-IsIn : (s : Prot) → IsIn st alive s.memb → Whenever Within (token_hurry s)
  unfolding token_hurry
  token_hurry-IsIn s h =
      Whenever-after_any Within _ _ (λ leads. Whenever-after_any Within _ _ (λ last. h))

  on_verdict-GoesOn :
      (leads : Bool) (t : TokenHeader) (rtrs : List RingRtr) (v : Verdict)
      → VerdictIn v
      → Whenever After (on_verdict leads t rtrs v)
  on_verdict-GoesOn leads t rtrs (swallow s) h = stays s.memb h
  on_verdict-GoesOn leads t rtrs (resend s) h =
      Whenever-weaken Within After (token_hurry s) (token_hurry-IsIn s h)
        (λ s' h'. stays s'.memb h')
  on_verdict-GoesOn leads t rtrs (take s) h = take_token-GoesOn leads t rtrs s h

  handle_token-IsIn :
      (received : ℕ) (t : TokenHeader) (rtrs : List RingRtr) (s : Prot)
      → IsIn st alive s.memb
      → Whenever After (handle_token received t rtrs s)
  unfolding handle_token emit
  handle_token-IsIn received t rtrs s h =
      if_both (Whenever After) (is_form t.type) (stays s.memb h) (
        if_both (Whenever After) (not s.memb.token_alive) (stays s.memb h) (
          if_both (Whenever After) (not (memb_is_equal t.memb_id (active_id s.memb)))
            (stays s.memb h)
            (Whenever-after_any After _ _ (λ transmiter.
              if_both (Whenever After) (not (is_expected transmiter received t s)) (stays s.memb h)
                (Whenever-after_any After _ _ (λ leads.
                  on_verdict-GoesOn leads t rtrs (check_arq leads t s)
                    (check_arq-IsIn leads t s h)))))))

-- Prot_handle_token leaves the token as it is, and the state, but for EVS, which may become OP.
pub handle_token-GoesOn :
    (received : ℕ) (t : TokenHeader) (rtrs : List RingRtr) (s : Prot)
    → Whenever
        (λ s'. GoesOn s.memb.state s.memb.token_alive s'.memb)
        (handle_token received t rtrs s)
handle_token-GoesOn received t rtrs s =
    handle_token-IsIn s.memb.state s.memb.token_alive received t rtrs s (refl, refl)

-- Without the token a regular one is dropped.
pub handle_token-lost :
    (received : ℕ) (t : TokenHeader) (rtrs : List RingRtr) (s : Prot)
    → is_form t.type ≡ false
    → s.memb.token_alive ≡ false
    → handle_token received t rtrs s ≡ some s
unfolding handle_token
handle_token-lost received t rtrs s regular lost = rw (regular, handle_token) (rw lost)
