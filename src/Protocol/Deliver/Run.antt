-- ===== src/Protocol/Deliver/Run.antt =====
-- Consecutive calls of Deliver_packet, spread-src-4.4.0/daemon/protocol.c.
use tf.Prelude.{
  ℕ, zero, suc, ◌+◌, ◌≤◌, ◌<◌, ◌≡◌, ◌⊎◌, inl, inr, refl, arith, false, if◌then◌else◌, none, some,
  List, [], ◌∷◌, ◌++◌, take, append_assoc, append-nil, ◌==◌, sym, ◌∙◌, ap,
}
use native.Mathlib.Decide.{dec_lt}
use tf.Prelude.Int.{negsuc}
use tf.NetTypes.{is_safe, regular_of, agreed_type}
use tf.Protocol.State.{
  PacketInfo, Prot, Effect, deliver, max_packets_in_struct, entry, update, slot, set_slot,
}
use tf.Protocol.Deliver.{messages_behind, up_entry, deliver_all, deliver_packet}

-- What the delivery of a packet that begins no half-delivered message hands to the session layer:
-- its first fragment, then the others, each a message.
abbrev pub whole_messages : PacketInfo → List Effect
whole_messages p =
    deliver (take p.head.first_frag_header.fragment_len p.body ∷ [])
    ∷ deliver_all (messages_behind p)

abbrev pub NoneHalf : Prot → Type 0
NoneHalf s = (w : ℕ) → s.up_queue w ≡ none

abbrev pub IsWhole : PacketInfo → Type 0
IsWhole p = p.head.first_frag_header.fragment_index ≡ negsuc 0

unfoldable pub whole_delivered : ℕ → Prot → Prot
whole_delivered seq s = record (set_slot s seq (record (slot s seq) { exist = 2 })) {
  up_queue = update s.up_queue (up_entry (slot s seq)) none;
  out = s.out ++ whole_messages (slot s seq);
}

pub deliver_packet-whole :
    (seq : ℕ) (s : Prot)
    → IsWhole (slot s seq)
    → NoneHalf s
    → deliver_packet seq s ≡ some (whole_delivered seq s)
unfolding deliver_packet whole_delivered
deliver_packet-whole seq s w h = ground (arith, h (up_entry (slot s seq)))

-- A packet that agreed delivery can meet: a whole message, not delivered, or delivered early
-- because its service is weaker.
pub record IsDeliverable (p : PacketInfo) : Type 0 where
  pub whole : IsWhole p
  pub state : (p.exist ≡ 1) ⊎ ((p.exist ≡ 2) × (regular_of p.head.type < agreed_type))

-- The specification: the messages of `n` packets from `seq` on that were not delivered.
abbrev pub run_messages : (ℕ → PacketInfo) → ℕ → ℕ → List Effect
run_messages f seq zero = []
run_messages f seq (suc n) =
    (if (f seq).exist == 1 then whole_messages (f seq) else []) ++ run_messages f (seq + 1) n

run_messages-ext :
    (f g : ℕ → PacketInfo) (seq n : ℕ)
    → ((i : ℕ) → seq ≤ i → i < seq + n → f i ≡ g i)
    → run_messages f seq n ≡ run_messages g seq n
run_messages-ext f g seq zero h = refl
run_messages-ext f g seq (suc n) h = ground (
  arith,
  h seq (omega arith) (omega arith),
  run_messages-ext f g (seq + 1) n (λ i a b. h i (omega arith) (omega arith)),
)

-- From `s` the next `k` packets from `seq` on were delivered and nothing else, giving `s'`.
pub record Ran (s : Prot) (seq k : ℕ) (s' : Prot) : Type 0 where
  pub last_delivered : s'.last_delivered ≡ s.last_delivered + k
  pub messages : s'.out ≡ s.out ++ run_messages (slot s) seq k
  pub none_half : NoneHalf s'
  pub delivered : (i : ℕ) → seq ≤ i → i < seq + k → (slot s' i).exist ≡ 2
  pub agreed :
      (i : ℕ) → seq ≤ i → i < seq + k → (slot s i).exist ≡ 1 → is_safe (slot s i).head.type ≡ false
  pub others : (i : ℕ) → seq + k ≤ i → i < seq + max_packets_in_struct → slot s' i ≡ slot s i

pub Ran-zero : (s : Prot) (seq : ℕ) → NoneHalf s → Ran s seq 0 s
Ran-zero s seq h = record {
  last_delivered = omega arith;
  messages = sym (append-nil s.out);
  none_half = h;
  delivered = λ i a b. absurd (omega arith);
  agreed = λ i a b. absurd (omega arith);
  others = λ i a b. refl;
}

-- What one round does to the packet at `seq`.
pub record Passed (s : Prot) (seq : ℕ) (s1 : Prot) : Type 0 where
  pub counted : s1.last_delivered ≡ s.last_delivered + 1
  pub said : s1.out ≡ s.out ++ (if (slot s seq).exist == 1 then whole_messages (slot s seq) else [])
  pub half : NoneHalf s1
  pub here : (slot s1 seq).exist ≡ 2
  pub open_here : (slot s seq).exist ≡ 1 → is_safe (slot s seq).head.type ≡ false
  pub there : (i : ℕ) → seq < i → i < seq + max_packets_in_struct → slot s1 i ≡ slot s i

entry-round : (seq : ℕ) → entry (seq + max_packets_in_struct) ≡ entry seq
entry-round seq = omega arith

-- A packet from `seq` on is that one or a later one.
from_first : (seq i : ℕ) → seq ≤ i → (i ≡ seq) ⊎ (seq + 1 ≤ i)
from_first seq i h = elim (dec_lt seq i) [ yes p ↦ inr (omega arith) | no p ↦ inl (omega arith) ]

module _ (s s1 s' : Prot) (seq k : ℕ) (small : k < max_packets_in_struct) (p : Passed s seq s1)
    (r : Ran s1 (seq + 1) k s') where
  messages-suc : s'.out ≡ s.out ++ run_messages (slot s) seq (suc k)
  messages-suc =
      let now = if (slot s seq).exist == 1 then whole_messages (slot s seq) else [] in
      let later = run_messages (slot s) (seq + 1) k in
      let same =
        run_messages-ext (slot s1) (slot s) (seq + 1) k
          (λ i a b. p.there i (omega arith) (omega arith)) in
      r.messages
      ∙ (ap (λ m. s1.out ++ m) same ∙ (ap (λ o. o ++ later) p.said ∙ append_assoc s.out now later))

  stays-delivered : (slot s' seq).exist ≡ 2
  stays-delivered =
      let round = entry-round seq in
      ap (λ e. (s'.packets e).exist) (sym round)
      ∙ (ap (λ (q : PacketInfo). q.exist)
            (r.others (seq + max_packets_in_struct) (omega arith) (omega arith))
          ∙ (ap (λ e. (s1.packets e).exist) round ∙ p.here))

  delivered-suc : (i : ℕ) → seq ≤ i → i < seq + suc k → (slot s' i).exist ≡ 2
  delivered-suc i a b = elim (from_first seq i a) [
    | inl e ↦ rw e stays-delivered
    | inr later ↦ r.delivered i later (omega arith)
  ]

  agreed-suc :
      (i : ℕ)
      → seq ≤ i
      → i < seq + suc k
      → (slot s i).exist ≡ 1
      → is_safe (slot s i).head.type ≡ false
  agreed-suc i a b e = elim (from_first seq i a) [
    | inl here ↦ ground (arith, p.open_here (ground arith))
    | inr later ↦
        let same = p.there i (omega arith) (omega arith) in
        ap (λ (q : PacketInfo). is_safe q.head.type) (sym same)
        ∙ r.agreed i later (omega arith) (ap (λ (q : PacketInfo). q.exist) same ∙ e)
  ]

  pub Ran-suc : Ran s seq (suc k) s'
  Ran-suc = record {
    last_delivered = omega (arith, r.last_delivered, p.counted);
    messages = messages-suc;
    none_half = r.none_half;
    delivered = delivered-suc;
    agreed = agreed-suc;
    others =
        λ i a b. r.others i (omega arith) (omega arith) ∙ p.there i (omega arith) (omega arith);
  }
