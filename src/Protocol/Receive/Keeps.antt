-- ===== src/Protocol/Receive/Keeps.antt =====
-- The deliveries of spread-src-4.4.0/daemon/protocol.c and the window of packets.
use tf.Prelude.{
  ℕ, zero, suc, ◌+◌, ◌≡◌, refl, arith, Bool, true, false, ◌==◌, if◌then◌else◌, Option, none, some,
  Bool-cases, inl, inr, sym, ◌∙◌, ap, subst, ◌-◌, bind-eq-some, some_injective, ◌&&◌, leb, ◌||◌,
  ltb,
}
use tf.NetTypes.{PacketHeader, is_reliable, is_safe, regular_of, agreed_type, reliable_type}
use tf.FlowControl.{is_evs}
use tf.Protocol.State.{PacketInfo, Prot, entry, slot, exists}
use tf.Protocol.Deliver.{
  is_whole, deliver_packet, reliable_loop, deliver_reliable_packets, agreed_round, agreed_loop,
  after_round, delivered_round, Round, next, stop, exit, deliver_agreed_packets,
}
use tf.Protocol.Receive.Window.{IsWindow}

abbrev pub present : PacketInfo → Bool
present p = if p.exist == 0 then false else true

-- The same packets, in the same slots, under the same counters.
pub record Keeps (s s' : Prot) : Type 0 where
  pub my_aru : s'.my_aru ≡ s.my_aru
  pub highest_seq : s'.highest_seq ≡ s.highest_seq
  pub last_discarded : s'.last_discarded ≡ s.last_discarded
  pub heads : (e : ℕ) → (s'.packets e).head ≡ (s.packets e).head
  pub presence : (e : ℕ) → present (s'.packets e) ≡ present (s.packets e)

pub Keeps-refl : (s : Prot) → Keeps s s
Keeps-refl s = record {
  my_aru = refl;
  highest_seq = refl;
  last_discarded = refl;
  heads = λ e. refl;
  presence = λ e. refl;
}

pub Keeps-trans : {s t u : Prot} → Keeps s t → Keeps t u → Keeps s u
Keeps-trans a b = record {
  my_aru = b.my_aru ∙ a.my_aru;
  highest_seq = b.highest_seq ∙ a.highest_seq;
  last_discarded = b.last_discarded ∙ a.last_discarded;
  heads = λ e. b.heads e ∙ a.heads e;
  presence = λ e. b.presence e ∙ a.presence e;
}

-- The property of a result, if there is one.
abbrev pub IfSome : (Prot → Type 0) → Option Prot → Type 0
IfSome P none = Unit
IfSome P (some s) = P s

deliver_packet-Keeps-some :
    (seq : ℕ) (s s' : Prot) → (slot s seq).exist ≡ 1 → deliver_packet seq s ≡ some s' → Keeps s s'
unfolding deliver_packet
deliver_packet-Keeps-some seq s s' one e = record {
  my_aru = ground arith;
  highest_seq = ground arith;
  last_discarded = ground arith;
  heads = λ k. ground arith;
  presence = λ k. ground arith;
}

pub Keeps-exists : {s s' : Prot} → Keeps s s' → (i : ℕ) → exists s' i ≡ exists s i
Keeps-exists k i = k.presence (entry i)

pub Keeps-IsWindow : (s s' : Prot) → Keeps s s' → IsWindow s → IsWindow s'
Keeps-IsWindow s s' k w = record {
  holds = record {
    aru_in = omega (arith, k.my_aru, k.highest_seq, k.last_discarded, w.holds.aru_in);
    few = omega (arith, k.highest_seq, k.last_discarded, w.holds.few);
    held = λ i a b.
        Keeps-exists k i
        ∙ w.holds.held i (omega (arith, k.last_discarded)) (omega (arith, k.my_aru));
    placed = λ i a e.
        let was = w.holds.placed i (omega (arith, k.last_discarded)) (sym (Keeps-exists k i) ∙ e) in
        (
          ap (λ (h : PacketHeader). h.seq) (k.heads (entry i)) ∙ was.0,
          omega (arith, k.highest_seq, was.1),
        );
  };
  next_missing = λ more.
      rw k.my_aru
        (Keeps-exists k (s.my_aru + 1) ∙ w.next_missing (omega (arith, k.my_aru, k.highest_seq)));
}

reliable_loop-Keeps : (n seq : ℕ) (s s' : Prot) → reliable_loop n seq s ≡ some s' → Keeps s s'
unfolding reliable_loop
reliable_loop-Keeps zero seq s s' e = subst (Keeps s) (cc) (Keeps-refl s)
reliable_loop-Keeps (suc n) seq s s' e =
    let p = slot s seq in
    elim (Bool-cases (p.exist == 1 && (is_reliable p.head.type && is_whole p.head))) [
      | inr other ↦ reliable_loop-Keeps n (seq + 1) s s' (rw other at e)
      | inl due ↦
          let (s1, d, rest) = bind-eq-some (deliver_packet seq s) _ (rw due at e) in
          Keeps-trans (deliver_packet-Keeps-some seq s s1 (ground arith) d)
            (reliable_loop-Keeps n (seq + 1) s1 s' rest)
    ]

abbrev RoundKeeps : Prot → Round → Type 0
RoundKeeps s (next s') = Keeps s s'
RoundKeeps s (stop s') = Keeps s s'
RoundKeeps s exit = Unit

abbrev passes : Prot → Prot
passes s = record s { last_delivered = s.last_delivered + 1 }

passes-Keeps : (s : Prot) → Keeps s (passes s)
passes-Keeps s = record {
  my_aru = refl;
  highest_seq = refl;
  last_discarded = refl;
  heads = λ e. refl;
  presence = λ e. refl;
}

delivered_round-RoundKeeps :
    (seq : ℕ) (s : Prot) (o : Option Prot)
    → (slot s seq).exist ≡ 1
    → deliver_packet seq s ≡ o
    → RoundKeeps s (delivered_round o)
delivered_round-RoundKeeps seq s none one e = tt
delivered_round-RoundKeeps seq s (some s') one e =
    Keeps-trans (deliver_packet-Keeps-some seq s s' one e) (passes-Keeps s')

agreed_round-RoundKeeps : (seq : ℕ) (s : Prot) → RoundKeeps s (agreed_round seq s)
unfolding agreed_round
agreed_round-RoundKeeps seq s =
    let p = slot s seq in
    elim (Bool-cases (p.exist == 1)) [
      | inl one ↦ rw one (elim (Bool-cases (is_safe p.head.type)) [
        | inl safe ↦ rw safe (Keeps-refl s)
        | inr unsafe ↦ rw unsafe (delivered_round-RoundKeeps seq s _ (ground arith) refl)
      ])
      | inr not_one ↦ rw not_one (elim (Bool-cases (p.exist == 2)) [
        | inr gone ↦ rw gone tt
        | inl two ↦ rw two (elim (Bool-cases (leb agreed_type (regular_of p.head.type))) [
          | inl wrong ↦ rw wrong tt
          | inr early ↦ rw early (passes-Keeps s)
        ])
      ])
    ]

after_round-Keeps :
    (n seq : ℕ) (s s' : Prot) (round : Round)
    → RoundKeeps s round
    → after_round (λ t. agreed_loop n (seq + 1) t) round ≡ some s'
    → ((t : Prot) → agreed_loop n (seq + 1) t ≡ some s' → Keeps t s')
    → Keeps s s'
after_round-Keeps n seq s s' (next t) k e more = Keeps-trans k (more t e)
after_round-Keeps n seq s s' (stop t) k e more = subst (Keeps s) (some_injective e) k
after_round-Keeps n seq s s' exit k e more = cc

agreed_loop-Keeps : (n seq : ℕ) (s s' : Prot) → agreed_loop n seq s ≡ some s' → Keeps s s'
unfolding agreed_loop
agreed_loop-Keeps zero seq s s' e = subst (Keeps s) (cc) (Keeps-refl s)
agreed_loop-Keeps (suc n) seq s s' e =
    after_round-Keeps n seq s s' (agreed_round seq s) (agreed_round-RoundKeeps seq s) e
      (λ t f. agreed_loop-Keeps n (seq + 1) t s' f)

pub deliver_agreed_packets-Keeps : (s s' : Prot) → deliver_agreed_packets s ≡ some s' → Keeps s s'
unfolding deliver_agreed_packets
deliver_agreed_packets-Keeps s s' e =
    elim (Bool-cases (
      leb s.my_aru s.last_delivered
      || (is_evs s.memb.state || ltb agreed_type s.delivery_threshold))) [
        | inl off ↦ subst (Keeps s) (some_injective (rw off at e)) (Keeps-refl s)
        | inr on ↦
            agreed_loop-Keeps (s.my_aru - s.last_delivered) (s.last_delivered + 1) s s' (rw on at e)
      ]

pub deliver_reliable_packets-Keeps :
    (seq n : ℕ) (s s' : Prot) → deliver_reliable_packets seq n s ≡ some s' → Keeps s s'
unfolding deliver_reliable_packets
deliver_reliable_packets-Keeps seq n s s' e =
    elim (Bool-cases (is_evs s.memb.state || ltb reliable_type s.delivery_threshold)) [
      | inl off ↦ subst (Keeps s) (some_injective (rw off at e)) (Keeps-refl s)
      | inr on ↦ reliable_loop-Keeps _ _ s s' (rw on at e)
    ]
