-- ===== src/Protocol/Token/Arq.antt =====
-- The ARQ counter and the aru of the token in Prot_handle_token, spread-src-4.4.0/daemon/protocol.c.
use tf.Prelude.{
  ℕ, ◌+◌, ◌%◌, ◌^◌, ◌⊎◌, ◌≤◌, ◌≡◌, arith, Bool, true, false, if◌then◌else◌, List, some, ◌↔◌, ap,
  ◌∙◌, refl,
}
use tf.Prelude.Int.{ℤ}
use tf.NetTypes.{TokenHeader, RingRtr, get_arq, set_arq}
use tf.NetTypes.Bits.{get_arq-set_arq, get_arq-set_retrans, get_arq-lt}
use tf.Protocol.State.{Prot}
use tf.Protocol.Answer.{sizeof_rtrs}
use tf.Protocol.Token.{
  Verdict, take, swallow, resend, check_arq, next_type, pass_token, update_aru, raise_aru,
}

abbrev pub is_take : Verdict → Bool
is_take (swallow s) = false
is_take (resend s) = false
is_take (take s) = true

raise_aru_lem :
    (t : TokenHeader) (s s' : Prot)
    → raise_aru t s ≡ some s'
    → (s.aru ≤ s'.aru) × (s'.aru ≤ t.aru) × (s'.aru ≤ s.last_token.aru) × (s'.last_token ≡ t)
unfolding raise_aru
raise_aru_lem t s s' e = ground arith

get_arq-next_type :
    (leads : Bool) (type : ℕ)
    → get_arq (next_type leads type) ≡ (if leads then (get_arq type + 1) % 16 else get_arq type)
unfolding next_type
get_arq-next_type true type =
    get_arq-set_retrans (set_arq type ((get_arq type + 1) % 16)) 0
    ∙ (get_arq-set_arq type ((get_arq type + 1) % 16) ∙ omega arith)
get_arq-next_type false type = refl

check_arq_lem :
    (leads : Bool) (u : TokenHeader) (s : Prot) (arq : ℕ)
    → get_arq s.last_token.type ≡ (if leads then (arq + 1) % 16 else arq)
    → (is_take (check_arq leads u s) ≡ true) ↔ (get_arq u.type ≡ (arq + 1) % 16)
unfolding check_arq
check_arq_lem true u s arq e = ground arith
check_arq_lem false u s arq e = ground (arith, get_arq-lt s.last_token.type)

-- Once a daemon, the leader of the ring or not, has passed on a token and before it takes another,
-- it takes a token exactly if its ARQ counter is one more, modulo 16, than that of the token which
-- it took: not the same one again.
pub check_arq-pass_token :
    (leads : Bool) (flow_control : ℤ) (rtrs : List RingRtr) (s s1 s2 : Prot) (t u : TokenHeader)
    → raise_aru (pass_token leads flow_control rtrs s t) s1 ≡ some s2
    → (is_take (check_arq leads u s2) ≡ true) ↔ (get_arq u.type ≡ (get_arq t.type + 1) % 16)
unfolding pass_token update_aru
check_arq-pass_token leads flow_control rtrs s s1 s2 t u e =
    check_arq_lem leads u s2 (get_arq t.type)
      (ap (λ h. get_arq h.type) (raise_aru_lem _ s1 s2 e).3 ∙ get_arq-next_type leads t.type)

update_aru_lem :
    (s : Prot) (t : TokenHeader)
    → ((update_aru s t).aru ≤ s.my_aru)
      × (((update_aru s t).aru ≡ t.aru)
          ⊎ (((update_aru s t).aru ≡ s.my_aru) × ((update_aru s t).aru_last_id ≡ s.my.id)))
unfolding update_aru
update_aru_lem s t = ground arith

-- The token that a daemon passes on carries an aru of at most its My_aru, the one that came or its
-- own My_aru with its own id. Where no alarm ends the process, the daemon's Aru, up to which it takes
-- packets for stable, does not fall, and is at most the aru of this token and of the one before.
pub raise_aru-pass_token :
    (leads : Bool) (flow_control : ℤ) (rtrs : List RingRtr) (s s1 s2 : Prot) (t : TokenHeader)
    → let t' = pass_token leads flow_control rtrs s t in
      raise_aru t' s1 ≡ some s2
      → (t'.aru ≤ s.my_aru)
        × ((t'.aru ≡ t.aru) ⊎ ((t'.aru ≡ s.my_aru) × (t'.aru_last_id ≡ s.my.id)))
        × (s1.aru ≤ s2.aru)
        × (s2.aru ≤ t'.aru)
        × (s2.aru ≤ s1.last_token.aru)
unfolding pass_token
raise_aru-pass_token leads flow_control rtrs s s1 s2 t e =
    let (rises, low, last, _) = raise_aru_lem _ s1 s2 e in
    let (most, whose) =
      update_aru_lem s
        (record t { flow_control = flow_control; rtr_len = sizeof_rtrs rtrs % 2 ^ 16 }) in
    (most, whose, rises, low, last)
