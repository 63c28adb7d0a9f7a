-- ===== src/Protocol/Send/Queue.antt =====
-- The packets that leave the queue of Prot_queue_bcast, spread-src-4.4.0/daemon/protocol.c.
use tf.Prelude.{
  ℕ, zero, suc, ◌≡◌, refl, arith, List, [], ◌∷◌, ◌++◌, take, drop, append_assoc, append-nil, ap,
  sym,
}
use tf.Protocol.State.{Packet, Prot, Effect, bcast, set_slot, emit}
use tf.Protocol.Send.{stamped, send_queued, send_first}

-- The packets as they go out in a round.
abbrev pub bcasts : ℕ → List Packet → List Effect
bcasts round [] = []
bcasts round (p ∷ ps) = bcast (stamped round p) ∷ bcasts round ps

pub bcasts-append :
    (round : ℕ) (ps qs : List Packet) → bcasts round (ps ++ qs) ≡ bcasts round ps ++ bcasts round qs
bcasts-append round [] qs = refl
bcasts-append round (p ∷ ps) qs =
    ap (λ es. bcast (stamped round p) ∷ es) (bcasts-append round ps qs)

-- `n` packets left the queue of `s`.
pub record Left (s : Prot) (n : ℕ) (s' : Prot) : Type 0 where
  pub out : s'.out ≡ s.out ++ bcasts s.token_rounds (take n s.send_pack_queue)
  pub queue : s'.send_pack_queue ≡ drop n s.send_pack_queue
  pub highest_seq : s'.highest_seq ≡ s.highest_seq

module _ (p : Packet) (ps : List Packet) (s : Prot) where
  -- The state behind the first packet.
  after : Prot
  after = send_queued p (record s { send_pack_queue = ps })

  after_fields :
      (after.out ≡ s.out ++ (bcast (stamped s.token_rounds p) ∷ []))
      × (after.send_pack_queue ≡ ps)
      × (after.token_rounds ≡ s.token_rounds)
      × (after.highest_seq ≡ s.highest_seq)
  unfolding after send_queued emit set_slot
  after_fields = (refl, refl, refl, refl)

send_first-cons :
    (n : ℕ) (p : Packet) (ps : List Packet) (s : Prot)
    → s.send_pack_queue ≡ p ∷ ps
    → send_first (suc n) s ≡ send_first n (after p ps s)
unfolding send_first after
send_first-cons n p ps s e = ground arith

send_first-nil : (n : ℕ) (s : Prot) → s.send_pack_queue ≡ [] → send_first (suc n) s ≡ s
unfolding send_first
send_first-nil n s e = ground arith

pub send_first-Left :
    (n : ℕ) (ps : List Packet) (s : Prot) → s.send_pack_queue ≡ ps → Left s n (send_first n s)
send_first-Left zero ps s e =
    unfold send_first in (record { out = sym (append-nil s.out); queue = refl; highest_seq = refl })
send_first-Left (suc n) [] s e =
    rw (send_first-nil n s e)
      (record { out = ground (arith, append-nil s.out); queue = ground arith; highest_seq = refl })
send_first-Left (suc n) (p ∷ ps) s e =
    let rest = send_first-Left n ps (after p ps s) (after_fields p ps s).1 in
    rw (send_first-cons n p ps s e) (record {
      out = ground (
        arith,
        rest.out,
        after_fields p ps s,
        append_assoc s.out (bcast (stamped s.token_rounds p) ∷ [])
            (bcasts s.token_rounds (take n ps)),
      );
      queue = ground (arith, rest.queue, after_fields p ps s);
      highest_seq = ground (arith, rest.highest_seq, after_fields p ps s);
    })
