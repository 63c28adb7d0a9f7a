-- ===== src/Tests/Tokens.antt =====
-- Tokens taken and passed on, at concrete inputs.
use mathlib.Core.Option
use tf.Prelude.{
  ◌+◌, ◌-◌, ◌%◌, ◌≤◌, ◌≡◌, ◌⊎◌, ◌↔◌, refl, arith, true, Option, none, some, [], ◌∷◌, ◌++◌, length,
}
use tf.Prelude.Int.{pos}
use tf.NetTypes.{RingRtr, TokenHeader, get_arq, sizeof_token_body}
use tf.Protocol.State.{Prot, exists}
use tf.Protocol.Token.{check_arq, pass_token, raise_aru}
use tf.Protocol.Answer.{Answers, own_requests, max_rtr_seq, sizeof_rtrs, answer_retrans, missing}
use tf.Protocol.Token.Arq.{is_take, check_arq-pass_token, raise_aru-pass_token}
use tf.Protocol.Answer.Missing.{ListsMissing}
use tf.Protocol.Answer.Requests.{room_of, own_requests-ListsMissing}
use tf.Protocol.Answer.Retrans.{answer_retrans-Answered}
use tf.Tests.Data.{memb_id, token, busy}

abbrev passed : TokenHeader
passed = pass_token true (pos 3) [] busy token

abbrev raised : Prot
raised = record busy { aru = 1; last_token = passed; token_counter = 0 }

raise_aru-passed : raise_aru passed busy ≡ some raised
unfolding raise_aru pass_token
raise_aru-passed = refl

check_arq-pass_token_example :
    (is_take (check_arq true token raised) ≡ true)
    ↔ (get_arq token.type ≡ (get_arq token.type + 1) % 16)
check_arq-pass_token_example =
    check_arq-pass_token true (pos 3) [] busy busy raised token token raise_aru-passed

raise_aru-pass_token_example :
    (passed.aru ≤ 2)
    × ((passed.aru ≡ 1) ⊎ ((passed.aru ≡ 2) × (passed.aru_last_id ≡ 10)))
    × (0 ≤ raised.aru)
    × (raised.aru ≤ passed.aru)
    × (raised.aru ≤ 1)
raise_aru-pass_token_example =
    raise_aru-pass_token true (pos 3) [] busy busy raised token raise_aru-passed

-- The daemon 30 asks for the packets 1, 2 and 3.
abbrev rtr : RingRtr
rtr = record { memb_id = memb_id; proc_id = some 30; seg_index = some 2; seqs = 1 ∷ 2 ∷ 3 ∷ [] }

abbrev none_answered : Answers
none_answered = record {
  num_retrans = 0;
  others = [];
  proc_id = some 10;
  seg_index = some 0;
  prot = busy;
}

abbrev or_none : Option Answers → Answers
or_none none = none_answered
or_none (some a) = a

answered : Answers
answered = or_none (answer_retrans (rtr ∷ []) busy)

answer_retrans-rtr : answer_retrans (rtr ∷ []) busy ≡ some answered
unfolding answered answer_retrans Option.bind
answer_retrans-rtr = refl

-- Two packets are sent again; the daemon does not have the packet 3 and asks for it itself.
answered_two : (answered.num_retrans ≡ 2) × (answered.proc_id ≡ none)
unfolding answered answer_retrans Option.bind
answered_two = (refl, refl)

answer_retrans-Answered_example :
    (sizeof_rtrs answered.others ≤ sizeof_rtrs (rtr ∷ []))
    × (length answered.prot.out ≡ 0 + answered.num_retrans)
    × (answered.prot.packets ≡ busy.packets)
    × (answered.prot.aru ≡ 0)
answer_retrans-Answered_example =
    answer_retrans-Answered (rtr ∷ []) busy answered answer_retrans-rtr

missing-busy : missing (exists busy) 3 2 10 ≡ 3 ∷ []
unfolding missing
missing-busy = refl

own_requests-ListsMissing_example :
    (sizeof_rtrs (none_answered.others ++ own_requests none_answered) ≤ sizeof_token_body)
    × ((own_requests none_answered ≡ []) × ((max_rtr_seq busy ≤ 2) ⊎ (room_of none_answered ≤ 1))
        ⊎ ((r : RingRtr) × (own_requests none_answered ≡ r ∷ [])
            × (r.memb_id ≡ busy.memb.membership_id)
            × ListsMissing (exists busy) 3 (max_rtr_seq busy - 2) (room_of none_answered) r.seqs))
own_requests-ListsMissing_example =
    own_requests-ListsMissing none_answered (unfold sizeof_rtrs in (omega arith))
