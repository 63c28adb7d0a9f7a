-- ===== src/Membership/Gather/Heard.antt =====
-- The alive messages of spread-src-4.4.0/daemon/membership.c, from the own ring and from others.
use tf.Prelude.{
  ℕ, ◌≡◌, refl, arith, Bool, true, false, not, ◌&&◌, if◌then◌else◌, some, [], ◌∷◌, Yields,
  Yields-bind,
}
use tf.FlowControl.{MembState}
use tf.Membership.{Membership}
use tf.Membership.Gather.{Daemon, memb_of, my_of, token_loss}
use tf.Membership.{contains}
use tf.Membership.Members.{insert_member}
use tf.Membership.Gather.Handle.{is_in, lose_and_take, take_member, handle_alive, handle_alive_in}
use tf.Membership.Gather.Timing.{is_timely, is_timely_in}
use tf.Membership.Gather.Loss.{IsPlaced, can_lose, HasLost, token_loss-HasLost}

-- Does an alive message of the daemon tell that the token is lost? It comes from the own ring.
abbrev pub tells_loss : MembState → Membership → ℕ → Bool
tells_loss MembState.op m id = is_in m.membership id
tells_loss MembState.gather m id = m.token_alive && is_in m.membership id
tells_loss MembState.evs m id = is_in m.future_membership id
tells_loss _ m id = false

-- In SEG with the member, or in the same state.
abbrev pub Heard : (told : Bool) (id : ℕ) → Daemon → Daemon → Type 0
Heard true id d d' = ((memb_of d').state ≡ MembState.seg) × (contains d'.f_members id ≡ true)
Heard false id d d' = (memb_of d').state ≡ (memb_of d).state

contains-insert_member :
    (a id : ℕ) → let (new, m) = insert_member (a ∷ []) id in contains m id ≡ true
unfolding insert_member contains
contains-insert_member a id = ground arith

lose_and_take-Heard :
    (id : ℕ) (d : Daemon)
    → can_lose (memb_of d).state (memb_of d).token_alive ≡ true
    → IsPlaced d
    → Yields (Heard true id d) (lose_and_take id d)
unfolding lose_and_take take_member
lose_and_take-Heard id d can placed =
    Yields-bind (HasLost (memb_of d).cn) (Heard true id d) (token_loss d)
      (λ d'. some (take_member id d')) (token_loss-HasLost d can placed)
      (λ d' lost. (lost.in_seg, rw lost.alone (contains-insert_member (my_of d').id id)))

Heard-if_in :
    (told : Bool) (id : ℕ) (d : Daemon)
    → can_lose (memb_of d).state (memb_of d).token_alive ≡ true
    → IsPlaced d
    → Yields (Heard told id d) (if told then lose_and_take id d else some d)
Heard-if_in true id d can placed = lose_and_take-Heard id d can placed
Heard-if_in false id d can placed = refl

Heard-in_gather :
    (alive told : Bool) (id : ℕ) (d : Daemon)
    → (alive ≡ true → can_lose (memb_of d).state (memb_of d).token_alive ≡ true)
    → IsPlaced d
    → Yields
        (Heard (alive && told) id d)
        (if not alive then some (take_member id d) else if told then lose_and_take id d else some d)
unfolding take_member
Heard-in_gather true told id d can placed = Heard-if_in told id d (can refl) placed
Heard-in_gather false told id d can placed = refl

handle_alive_in-Heard :
    (st : MembState) (id : ℕ) (d : Daemon)
    → (memb_of d).state ≡ st
    → is_timely_in st d ≡ true
    → IsPlaced d
    → Yields (Heard (tells_loss st (memb_of d) id) id d) (handle_alive_in st id d)
unfolding handle_alive_in take_member
handle_alive_in-Heard MembState.op id d e h placed = Heard-if_in _ id d (ground (arith, e)) placed
handle_alive_in-Heard MembState.seg id d e h placed = refl
handle_alive_in-Heard MembState.represented id d e h placed = refl
handle_alive_in-Heard MembState.gather id d e h placed =
    Heard-in_gather (memb_of d).token_alive (is_in (memb_of d).membership id) id d
      (λ alive. ground (arith, e, alive)) placed
handle_alive_in-Heard MembState.form id d e h placed = refl
handle_alive_in-Heard MembState.evs id d e h placed = Heard-if_in _ id d (ground (arith, e)) placed

-- An alive message does not end the process of a timely daemon, if each segment of the configuration
-- has a leader, the first daemon in each segment of its ring is known there, and the reps that it has gathered and the
-- potential ones are known daemons of their segments with a legal type, the potential ones
-- well-formed. A message from the own ring, while there is a token, tells that the token is lost: the
-- daemon goes to SEG, and the sender is one of its members. Any other leaves the state as it is.
pub handle_alive-Heard :
    (id : ℕ) (d : Daemon)
    → is_timely d ≡ true
    → IsPlaced d
    → Yields (Heard (tells_loss (memb_of d).state (memb_of d) id) id d) (handle_alive id d)
unfolding handle_alive
handle_alive-Heard id d h placed = handle_alive_in-Heard (memb_of d).state id d refl h placed
