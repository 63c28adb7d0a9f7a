-- ===== src/Membership/Gather/Loss.antt =====
-- Memb_token_loss of spread-src-4.4.0/daemon/membership.c, in the states in which it is called.
use tf.Prelude.{
  ◌≡◌, refl, arith, Bool, true, false, if◌then◌else◌, some, List, [], ◌∷◌, length, drop, ◌>>=◌,
  Yields, Yields-bind, Yields-guard,
}
use tf.Configuration.{Configuration}
use tf.FlowControl.{MembState, is_evs}
use tf.Membership.{active_ptr}
use tf.Membership.Reps.{RepInfo, potential_rep}
use tf.Membership.Reps.Insert.{Pass}
use tf.Membership.Gather.{
  Daemon, memb_of, my_of, insert_reps, insert_segments, last_type, loss_reps, loss_reps_in,
  token_loss, shift_to_seg, backoff_membership,
}
use tf.Membership.Gather.Timing.{is_timely, is_timely_in}
use tf.Membership.Gather.Sound.{
  is_sound, IsSound, HasLeaders, IsRing, insert_reps-IsSound, insert_segments-IsSound,
  last_type-is_type,
}

-- What Memb_token_loss needs: a leader of each segment, a ring of known daemons while there is a
-- token, and sound reps behind the own one.
pub record IsPlaced (d : Daemon) : Type 0 where
  pub leaders : HasLeaders (memb_of d).cn
  pub ring : IsRing (memb_of d).cn (active_ptr (memb_of d))
  pub gathered : Pass (is_sound (memb_of d).cn) (drop 1 d.f_reps)
  pub potential : IsSound (memb_of d).cn d.potential_reps

-- A state in which the token may be lost.
abbrev pub can_lose : MembState → (alive : Bool) → Bool
can_lose MembState.op alive = true
can_lose MembState.seg alive = false
can_lose MembState.represented alive = false
can_lose MembState.gather alive = alive
can_lose MembState.form alive = true
can_lose MembState.evs alive = true

no_reps-IsSound : (cn : Configuration) → IsSound cn []
no_reps-IsSound cn = (record { few = omega arith; typed = tt; separate = tt }, tt)

abbrev SoundPotential : Configuration → Daemon → Type 0
SoundPotential cn d = IsSound cn d.potential_reps

loss_reps_in-SoundPotential :
    (st : MembState) (d : Daemon)
    → can_lose st (memb_of d).token_alive ≡ true
    → HasLeaders (memb_of d).cn
    → IsRing
        (memb_of d).cn
        (if is_evs st then (memb_of d).future_membership else (memb_of d).membership)
    → Pass (is_sound (memb_of d).cn) (drop 1 d.f_reps)
    → IsSound (memb_of d).cn d.potential_reps
    → Yields (SoundPotential (memb_of d).cn) (loss_reps_in st d)
unfolding loss_reps_in is_evs
loss_reps_in-SoundPotential MembState.op d can leaders ring gathered potential =
    let cn = (memb_of d).cn in
    Yields-bind (IsSound cn) (SoundPotential cn)
      (insert_segments cn (my_of d) (memb_of d).membership potential_rep (length cn.segments) 0 [])
      (λ r. some (record d { potential_reps = r }))
      (insert_segments-IsSound cn (my_of d) (memb_of d).membership potential_rep
        (length cn.segments) 0 [] leaders ring refl (omega arith) (no_reps-IsSound cn))
      (λ r s. s)
loss_reps_in-SoundPotential MembState.seg d can leaders ring gathered potential =
    absurd (ground arith)
loss_reps_in-SoundPotential MembState.represented d can leaders ring gathered potential =
    absurd (ground arith)
loss_reps_in-SoundPotential MembState.gather d can leaders ring gathered potential =
    let cn = (memb_of d).cn in
    let n = length cn.segments in
    let type = last_type (drop 1 d.f_reps) in
    let segments =
      λ (r : List RepInfo). insert_segments cn (my_of d) (memb_of d).membership type n 0 r in
    let done = λ (r : List RepInfo). some (record d { potential_reps = r }) in
    Yields-guard (SoundPotential cn) (memb_of d).token_alive
      (insert_reps cn (drop 1 d.f_reps) [] >>= λ r. segments r >>= done) can
      (Yields-bind (IsSound cn) (SoundPotential cn) (insert_reps cn (drop 1 d.f_reps) [])
        (λ r. segments r >>= done)
        (insert_reps-IsSound cn (drop 1 d.f_reps) [] gathered (no_reps-IsSound cn))
        (λ r s.
          Yields-bind (IsSound cn) (SoundPotential cn) (segments r) done
            (insert_segments-IsSound cn (my_of d) (memb_of d).membership type n 0 r leaders ring
              (last_type-is_type cn (drop 1 d.f_reps) gathered) (omega arith) s)
            (λ r' s'. s')))
loss_reps_in-SoundPotential MembState.form d can leaders ring gathered potential = potential
loss_reps_in-SoundPotential MembState.evs d can leaders ring gathered potential =
    let cn = (memb_of d).cn in
    Yields-bind (IsSound cn) (SoundPotential cn)
      (insert_segments cn (my_of d) (memb_of d).future_membership potential_rep (length cn.segments)
        0 [])
      (λ r. some (record d { prot = backoff_membership d.prot; potential_reps = r }))
      (insert_segments-IsSound cn (my_of d) (memb_of d).future_membership potential_rep
        (length cn.segments) 0 [] leaders ring refl (omega arith) (no_reps-IsSound cn))
      (λ r s. s)

-- What the loss of the token leaves: a daemon in SEG without a token, which has only itself for a
-- member, with sound potential reps.
pub record HasLost (cn : Configuration) (d' : Daemon) : Type 0 where
  pub in_seg : (memb_of d').state ≡ MembState.seg
  pub not_alive : (memb_of d').token_alive ≡ false
  pub alone : d'.f_members ≡ (my_of d').id ∷ []
  pub announces : (d'.timers.scast_alive ≡ true) × (d'.timers.gather_or_represented ≡ true)
  pub unqueued : d'.timers.token_loss ≡ false
  pub potential : IsSound cn d'.potential_reps

-- Memb_token_loss in a state that can lose the token ends without an alarm, in SEG: the daemon is the
-- only member it knows, will announce itself, and has sound potential reps.
pub token_loss-HasLost :
    (d : Daemon)
    → can_lose (memb_of d).state (memb_of d).token_alive ≡ true
    → IsPlaced d
    → Yields (HasLost (memb_of d).cn) (token_loss d)
unfolding token_loss loss_reps shift_to_seg active_ptr
token_loss-HasLost d can placed =
    Yields-bind (SoundPotential (memb_of d).cn) (HasLost (memb_of d).cn) (loss_reps d) _
      (loss_reps_in-SoundPotential (memb_of d).state d can placed.leaders placed.ring
        placed.gathered placed.potential)
      (λ d' s. record {
        in_seg = refl;
        not_alive = refl;
        alone = refl;
        announces = (refl, refl);
        unqueued = refl;
        potential = s;
      })

-- A timely daemon has the loss of the token queued only in a state that can lose it.
queued-can_lose :
    (st : MembState) (d : Daemon)
    → is_timely_in st d ≡ true
    → d.timers.token_loss ≡ true
    → can_lose st (memb_of d).token_alive ≡ true
queued-can_lose MembState.seg d h q = ground (arith, h, q)
queued-can_lose MembState.represented d h q = ground (arith, h, q)
queued-can_lose MembState.gather d h q = ground (arith, h, q)
queued-can_lose MembState.op d h q = refl
queued-can_lose MembState.form d h q = refl
queued-can_lose MembState.evs d h q = refl

-- When the loss of the token is queued at a timely daemon, Memb_token_loss does not reach its alarms,
-- which call its state a bug: the daemon goes to SEG without a token, is the only member it knows, and
-- will announce itself, with potential reps that are sound again. Conditions: each segment of the configuration
-- has a leader, the first daemon in each segment of its ring is known there, and the reps that it has
-- gathered and the potential ones are known daemons of their segments with a legal type, the
-- potential ones well-formed.
pub memb_token_loss_event-HasLost :
    (d : Daemon)
    → is_timely d ≡ true
    → d.timers.token_loss ≡ true
    → IsPlaced d
    → Yields (HasLost (memb_of d).cn) (token_loss d)
memb_token_loss_event-HasLost d h q placed =
    token_loss-HasLost d (queued-can_lose (memb_of d).state d h q) placed
