-- ===== src/Protocol/Answer.antt =====
-- spread-src-4.4.0/daemon/protocol.c:
-- Answer_retrans, and the retransmission requests that Prot_handle_token puts on
-- the token. `none` is the end of the process by an alarm. The body of the token is the list of its
-- requests.
pub mod Missing
pub mod Requests
pub mod Retrans
use mathlib.Core.Option
use tf.Prelude.{
  ℕ, zero, suc, ◌+◌, ◌-◌, ◌*◌, ◌/◌, ◌%◌, ◌^◌, Bool, true, false, not, ◌&&◌, ◌||◌, ◌==◌, ltb, leb,
  if◌then◌else◌, Option, none, some, List, [], ◌∷◌, ◌++◌, length,
}
use tf.Prelude.Int.{ℤ, pos, negsuc, ◌+ℤ◌, ◌-ℤ◌}
use tf.Configuration.{previous}
use tf.NetTypes.{
  MembershipId, TokenHeader, RingRtr, is_form, get_arq, set_arq, get_retrans, set_retrans,
  memb_is_equal, sizeof_token_header, sizeof_token_body, sizeof_ring_rtr,
}
use tf.FlowControl.{is_evs, allowed}
use tf.Membership.{
  Membership, active_ptr, active_id, commit, prot_token_hurry_event, memb_token_loss_event,
}
use tf.Protocol.Fragment.{int16_word}
use tf.Protocol.State.{
  Packet, PacketInfo, Prot, Effect, bcast, ucast, scast, queue, send_token, memb_handle_token,
  memb_token_loss, emit, slot, exists,
}
use tf.Protocol.Deliver.{deliver_agreed_packets, deliver_reliable_packets}
use tf.Protocol.Discard.{discard_packets}
use tf.Protocol.Send.{flush_bcast, send_new_packets}
use tf.Protocol.Receive.{is_leader, is_token_hold, times, token_hurry, raise_my_aru}

-- What the daemon answers and asks: the number of packets sent again, the requests of other rings,
-- and to whom its own requests may go.
pub record Answers : Type 0 where
  pub num_retrans : ℕ
  pub others : List RingRtr
  pub proc_id : Option ℕ
  pub seg_index : Option ℕ
  pub prot : Prot

unfoldable pub same_seg : Option ℕ → ℕ → Bool
same_seg none seg = false
same_seg (some x) seg = x == seg

-- One retransmission, to a daemon, to a segment or to all.
unfoldable pub retransmission : RingRtr → Packet → Effect
retransmission r p = elim r.proc_id [
  | some id ↦ ucast id p
  | none ↦ elim r.seg_index [ some seg ↦ scast seg p | none ↦ bcast p ]
]

unfoldable pub answer_one : RingRtr → ℕ → Answers → Option Answers
unfolding same_seg retransmission emit
answer_one r seq a =
    let s = a.prot in
    let p = slot s seq in
    if ltb seq s.aru
    then none
    else if exists s seq
    then some (record a {
      num_retrans = a.num_retrans + 1;
      prot = emit (retransmission r (record { head = p.head; body = p.body })) s;
    })
    else some (record a {
      proc_id = none;
      seg_index = if same_seg r.seg_index s.my.seg_index then a.seg_index else none;
    })

unfoldable pub answer_seqs : RingRtr → List ℕ → Answers → Option Answers
unfolding answer_one
answer_seqs r [] a = some a
answer_seqs r (x ∷ xs) a = Option.bind (answer_one r x a) (λ a'. answer_seqs r xs a')

unfoldable pub answer_all : List RingRtr → Answers → Option Answers
unfolding answer_seqs memb_is_equal
answer_all [] a = some a
answer_all (r ∷ rs) a =
    if memb_is_equal r.memb_id a.prot.memb.membership_id
    then Option.bind (answer_seqs r r.seqs a) (λ a'. answer_all rs a')
    else answer_all rs (record a { others = a.others ++ (r ∷ []) })

unfoldable pub answer_retrans : List RingRtr → Prot → Option Answers
unfolding answer_all
answer_retrans rtrs s = answer_all rtrs (record {
  num_retrans = 0;
  others = [];
  proc_id = some s.my.id;
  seg_index = some s.my.seg_index;
  prot = s;
})

-- The bytes of requests on the token.
unfoldable pub sizeof_rtrs : List RingRtr → ℕ
sizeof_rtrs [] = 0
sizeof_rtrs (r ∷ rs) = sizeof_ring_rtr + length r.seqs * 4 + sizeof_rtrs rs

-- The loop over the numbers from `seq` on, `n` of them: those not there, at most `room`.
unfoldable pub missing : (ℕ → Bool) → ℕ → ℕ → ℕ → List ℕ
missing there zero seq room = []
missing there (suc n) seq zero = []
missing there (suc n) seq (suc room) =
    let rest = missing there n (seq + 1) (suc room) in
    let next = missing there n (seq + 1) room in if there seq then rest else seq ∷ next

-- How far packets are requested: on an accelerated ring those of the present round may still come.
unfoldable pub max_rtr_seq : Prot → ℕ
unfolding is_evs
max_rtr_seq s =
    if s.flow_control.accelerated_ring && not (is_evs s.memb.state)
    then s.last_token.seq
    else s.highest_seq

-- The requests of this daemon. `rtr_len` is an int16, so that the room does not wrap.
unfoldable pub own_requests : Answers → List RingRtr
unfolding missing sizeof_rtrs max_rtr_seq
own_requests a =
    let s = a.prot in
    let room = (sizeof_token_body - sizeof_rtrs a.others - sizeof_ring_rtr) / 4 in
    if ltb s.my_aru (max_rtr_seq s) && ltb 1 room
    then record {
      memb_id = s.memb.membership_id;
      proc_id = a.proc_id;
      seg_index = a.seg_index;
      seqs = missing (exists s) (max_rtr_seq s - s.my_aru) (s.my_aru + 1) room;
    }
      ∷ []
    else []
