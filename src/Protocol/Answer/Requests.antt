-- ===== src/Protocol/Answer/Requests.antt =====
-- The requests of Prot_handle_token, spread-src-4.4.0/daemon/protocol.c, on the token.
use tf.Prelude.{
  ℕ, ◌+◌, ◌-◌, ◌/◌, ◌≤◌, ◌≡◌, ◌⊎◌, inl, inr, refl, arith, true, List, [], ◌∷◌, ◌++◌, length, ◌&&◌,
  append-nil, Bool-cases, false, ltb, tests,
}
use tf.NetTypes.{RingRtr, sizeof_token_body, sizeof_ring_rtr}
use tf.Protocol.State.{exists}
use tf.Protocol.Answer.{Answers, max_rtr_seq, own_requests, sizeof_rtrs}
use tf.Protocol.Answer.Missing.{ListsMissing, missing-ListsMissing}

pub sizeof_rtrs-append :
    (rs ts : List RingRtr) → sizeof_rtrs (rs ++ ts) ≡ sizeof_rtrs rs + sizeof_rtrs ts
unfolding sizeof_rtrs
sizeof_rtrs-append [] ts = omega arith
sizeof_rtrs-append (r ∷ rs) ts = omega (arith, sizeof_rtrs-append rs ts)

sizeof_rtrs-fits :
    (others : List RingRtr) (r : RingRtr)
    → let room = (sizeof_token_body - sizeof_rtrs others - sizeof_ring_rtr) / 4 in
      ltb 1 room ≡ true
      → length r.seqs ≤ room
      → sizeof_rtrs (others ++ (r ∷ [])) ≤ sizeof_token_body
unfolding sizeof_rtrs
sizeof_rtrs-fits others r more h = omega (tests, more, h, sizeof_rtrs-append others (r ∷ []))

-- The room that is left on the token for numbers.
abbrev pub room_of : Answers → ℕ
room_of a = (sizeof_token_body - sizeof_rtrs a.others - sizeof_ring_rtr) / 4

ltb-none : (a b c d : ℕ) → ltb a b && ltb c d ≡ false → (b ≤ a) ⊎ (d ≤ c)
ltb-none a b c d h = ground arith

-- With `own_requests` the token's body is no larger than a token's if it was not before. The daemon
-- asks for nothing only if My_aru has reached what it may ask for or the token has no room for two
-- numbers; otherwise for the packets behind My_aru, up to where it may ask, that it does not have:
-- lowest first, each once, as many as there is room for.
pub own_requests-ListsMissing :
    (a : Answers)
    → let s = a.prot in
      sizeof_rtrs a.others ≤ sizeof_token_body
      → (sizeof_rtrs (a.others ++ own_requests a) ≤ sizeof_token_body)
        × ((own_requests a ≡ []) × ((max_rtr_seq s ≤ s.my_aru) ⊎ (room_of a ≤ 1))
            ⊎ ((r : RingRtr) × (own_requests a ≡ r ∷ [])
                × (r.memb_id ≡ s.memb.membership_id)
                × ListsMissing
                    (exists s)
                    (s.my_aru + 1)
                    (max_rtr_seq s - s.my_aru)
                    (room_of a)
                    r.seqs))
unfolding own_requests
own_requests-ListsMissing a h =
    let s = a.prot in
    let listed =
      missing-ListsMissing (exists s) (max_rtr_seq s - s.my_aru) (s.my_aru + 1) (room_of a) in
    elim (Bool-cases (ltb s.my_aru (max_rtr_seq s) && ltb 1 (room_of a))) [
      | inr none_sent ↦
          rw none_sent (
            rw append-nil h,
            inl (refl, ltb-none (s.my_aru) (max_rtr_seq s) 1 (room_of a) none_sent),
          )
      | inl asks ↦
          rw asks
            (sizeof_rtrs-fits a.others _ (ground arith) listed.few, inr (_, refl, refl, listed))
    ]
