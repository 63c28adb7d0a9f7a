-- ===== src/Protocol/Answer/Retrans.antt =====
-- Answer_retrans of spread-src-4.4.0/daemon/protocol.c.
use tf.Prelude.{
  ℕ, ◌+◌, ◌≤◌, ◌≡◌, inl, inr, refl, arith, some, List, [], ◌∷◌, ◌++◌, length, Bool-cases,
  some_injective, bind-eq-some, ltb, length-append, subst, ◌∙◌,
}
use tf.NetTypes.{RingRtr, memb_is_equal}
use tf.Protocol.State.{Packet, Prot, emit, slot, exists}
use tf.Protocol.Answer.{
  Answers, sizeof_rtrs, answer_one, answer_seqs, answer_all, answer_retrans, retransmission,
}
use tf.Protocol.Answer.Requests.{sizeof_rtrs-append}

-- Between `a` and `a'` each retransmission was sent and counted, the slots stayed as they were, and
-- `bytes` of requests at most were left to others.
pub record Answered (bytes : ℕ) (a a' : Answers) : Type 0 where
  pub size : sizeof_rtrs a'.others ≤ sizeof_rtrs a.others + bytes
  pub counted : length a'.prot.out + a.num_retrans ≡ length a.prot.out + a'.num_retrans
  pub packets : a'.prot.packets ≡ a.prot.packets
  pub aru : a'.prot.aru ≡ a.prot.aru

abbrev packet_of : Answers → ℕ → Packet
packet_of a seq = record { head = (slot a.prot seq).head; body = (slot a.prot seq).body }

Answered-refl : (n : ℕ) (a : Answers) → Answered n a a
Answered-refl n a = record { size = omega arith; counted = omega arith; packets = refl; aru = refl }

Answered-trans :
    (n k : ℕ) {a b c : Answers} → Answered n a b → Answered k b c → Answered (n + k) a c
Answered-trans n k f g = record {
  size = omega (arith, f.size, g.size);
  counted = omega (arith, f.counted, g.counted);
  packets = g.packets ∙ f.packets;
  aru = g.aru ∙ f.aru;
}

answer_one-Answered :
    (r : RingRtr) (seq : ℕ) (a a' : Answers) → answer_one r seq a ≡ some a' → Answered 0 a a'
unfolding answer_one emit
answer_one-Answered r seq a a' e = elim (Bool-cases (ltb seq a.prot.aru)) [
  | inl old ↦ absurd (ground arith)
  | inr fresh ↦ elim (Bool-cases (exists a.prot seq)) [
    | inl here ↦
        let same = some_injective (rw here at (rw fresh at e)) in
        subst (Answered 0 a) same (record {
          size = omega arith;
          counted =
              omega (arith, length-append a.prot.out (retransmission r (packet_of a seq) ∷ []));
          packets = refl;
          aru = refl;
        })
    | inr gone ↦
        let same = some_injective (rw gone at (rw fresh at e)) in
        subst (Answered 0 a) same
          (record { size = omega arith; counted = omega arith; packets = refl; aru = refl })
  ]
]

answer_seqs-Answered :
    (r : RingRtr) (xs : List ℕ) (a a' : Answers) → answer_seqs r xs a ≡ some a' → Answered 0 a a'
unfolding answer_seqs
answer_seqs-Answered r [] a a' e = subst (Answered 0 a) (some_injective e) (Answered-refl 0 a)
answer_seqs-Answered r (x ∷ xs) a a' e =
    let (b, one, more) = bind-eq-some (answer_one r x a) (λ b. answer_seqs r xs b) e in
    Answered-trans 0 0 (answer_one-Answered r x a b one) (answer_seqs-Answered r xs b a' more)

left_to_others :
    (r : RingRtr) (a : Answers)
    → Answered (sizeof_rtrs (r ∷ [])) a (record a { others = a.others ++ (r ∷ []) })
left_to_others r a = record {
  size = omega (arith, sizeof_rtrs-append a.others (r ∷ []));
  counted = omega arith;
  packets = refl;
  aru = refl;
}

answer_all-Answered :
    (rs : List RingRtr) (a a' : Answers)
    → answer_all rs a ≡ some a'
    → Answered (sizeof_rtrs rs) a a'
unfolding answer_all sizeof_rtrs
answer_all-Answered [] a a' e = subst (Answered 0 a) (some_injective e) (Answered-refl 0 a)
answer_all-Answered (r ∷ rs) a a' e =
    elim (Bool-cases (memb_is_equal r.memb_id a.prot.memb.membership_id)) [
      | inl mine ↦
          let (b, seqs, more) =
            bind-eq-some (answer_seqs r r.seqs a) (λ b. answer_all rs b) (rw mine at e) in
          let whole =
            Answered-trans 0 (sizeof_rtrs rs) (answer_seqs-Answered r r.seqs a b seqs)
              (answer_all-Answered rs b a' more) in
          record {
            size = omega (arith, whole.size);
            counted = whole.counted;
            packets = whole.packets;
            aru = whole.aru;
          }
      | inr other ↦
          subst (λ n. Answered n a a') (ground arith)
            (Answered-trans (sizeof_rtrs (r ∷ [])) (sizeof_rtrs rs) (left_to_others r a)
              (answer_all-Answered rs _ a' (rw other at e)))
    ]

-- Answering the requests of a token leaves no more bytes of requests on it than came; as many packets
-- are sent as are counted, and neither the packets that are held nor Aru change.
pub answer_retrans-Answered :
    (rs : List RingRtr) (s : Prot) (a : Answers)
    → answer_retrans rs s ≡ some a
    → (sizeof_rtrs a.others ≤ sizeof_rtrs rs)
      × (length a.prot.out ≡ length s.out + a.num_retrans)
      × (a.prot.packets ≡ s.packets)
      × (a.prot.aru ≡ s.aru)
unfolding answer_retrans sizeof_rtrs
answer_retrans-Answered rs s a e =
    let whole = answer_all-Answered rs _ a e in
    (omega (arith, whole.size), omega (arith, whole.counted), whole.packets, whole.aru)
