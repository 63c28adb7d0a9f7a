-- ===== src/Membership/Gather/Dummies.antt =====
-- The holes of a form2 token in Read_form2 of spread-src-4.4.0/daemon/membership.c.
use tf.Prelude.{
  ℕ, ◌≡◌, ap, ◌∙◌, arith, true, Option, none, some, List, [], ◌∷◌, Option-cases, inl, inr, ◌>>=◌,
}
use native.Mathlib.Decide.{ℕ_discrete}
use tf.Configuration.{Proc, Configuration, proc_by_id_in_conf}
use tf.NetTypes.{PacketHeader}
use tf.Membership.{contains}
use tf.Membership.Gather.Read.{make_dummy, make_dummies}
use tf.Protocol.State.{Prot, slot, exists, set_slot, update}

-- A packet stands in the slot, and its sender is a daemon of the configuration.
abbrev pub IsHeldFrom : Configuration → ℕ → Prot → Type 0
IsHeldFrom future seq s =
    (exists s seq ≡ true)
    × ((i : ℕ) × (p : Proc) × (proc_by_id_in_conf future (slot s seq).head.proc_id ≡ some (i, p)))

make_dummy-held :
    (future : Configuration) (seq : ℕ) (s : Prot)
    → IsHeldFrom future seq s
    → make_dummy future seq s ≡ none
unfolding make_dummy
make_dummy-held future seq s (there, (i, p, known)) = ground (arith, there, known)

make_dummy-keeps :
    (future : Configuration) (x seq : ℕ) (s s' : Prot)
    → make_dummy future x s ≡ some s'
    → IsHeldFrom future seq s
    → IsHeldFrom future seq s'
unfolding make_dummy set_slot update
make_dummy-keeps future x seq s s' e (there, (i, p, known)) =
    let head : (slot s' seq).head ≡ (slot s seq).head = ground (arith, e) in
    (
      ground (arith, e, there),
      (i, p, ap (λ (h : PacketHeader). proc_by_id_in_conf future h.proc_id) head ∙ known),
    )

-- Where Read_form2 holds a packet for a hole of the token, and the sender of the packet is a daemon of
-- the configuration, on the token or not, it ends the process: no such packet is dropped.
pub make_dummies-held :
    (future : Configuration) (seqs : List ℕ) (seq : ℕ) (s : Prot)
    → contains seqs seq ≡ true
    → IsHeldFrom future seq s
    → make_dummies future seqs s ≡ none
unfolding make_dummies contains
make_dummies-held future [] seq s h held = cc
make_dummies-held future (x ∷ xs) seq s h held =
    let rest = λ (o : Option Prot). o >>= λ s'. make_dummies future xs s' in
    elim (ℕ_discrete x seq) [
      | yes e ↦ ap rest (ap (λ y. make_dummy future y s) e ∙ make_dummy-held future seq s held)
      | no ne ↦ elim (Option-cases (make_dummy future x s)) [
        | inl ends ↦ ap rest ends
        | inr (s', made) ↦
            ap rest made
            ∙ make_dummies-held future xs seq s' (ground (arith, h, ne))
                (make_dummy-keeps future x seq s s' made held)
      ]
    ]
