-- ===== src/Protocol/Unmoved.antt =====
-- The loops of spread-src-4.4.0/daemon/protocol.c that leave the variables of the membership as they
-- are: what holds of these stays.
use mathlib.Core.Option
use tf.Prelude.{
  ℕ, zero, suc, ◌+◌, ◌-◌, ◌≡◌, refl, Bool, true, false, not, ◌&&◌, ◌||◌, ◌==◌, ltb, leb,
  if◌then◌else◌, Option, none, some, List, [], ◌∷◌, length, get_or, Whenever, if_both,
}
use tf.Prelude.Int.{ℤ, pos_part, neg_part}
use tf.Configuration.{id_in_conf}
use tf.NetTypes.{
  RingRtr, sizeof_packet_body, is_reliable, is_safe, regular_of, agreed_type, reliable_type,
  memb_is_equal,
}
use tf.FlowControl.{is_evs}
use tf.Membership.{Membership}
use tf.Protocol.Fragment.{DownLink, DownQueue, Filling, filled, exit, out_of_fuel, advance, fill}
use tf.Protocol.State.{Packet, Prot, slot, set_slot, emit, exists}
use tf.Protocol.Deliver.{
  chained, up_entry, is_negative, is_whole, deliver_packet, reliable_loop, deliver_reliable_packets,
  Round, next, stop, delivered_round, agreed_round, after_round, agreed_loop,
  deliver_agreed_packets, discard_packet, discard_loop, discard_stable,
}
use tf.Protocol.Discard.{before_transitional, after_transitional}
use tf.Protocol.Send.{
  send_queued, send_first, sends_at_once, queue_bcast, flush_bcast, insert_new, insert_filled,
  send_packet, and_then, send_loop, send_new_packets,
}
use tf.Protocol.Answer.{Answers, answer_one, answer_seqs, answer_all, answer_retrans}

pub Whenever-after {ℓ κ} :
    {A : Type ℓ} {B : Type κ} (P : A → Type 0) (Q : B → Type 0) (o : Option A) (f : A → Option B)
    → Whenever P o
    → ((a : A) → P a → Whenever Q (f a))
    → Whenever Q (Option.bind o f)
unfolding Option.bind
Whenever-after P Q none f h k = tt
Whenever-after P Q (some a) f h k = k a h

pub Whenever-map {ℓ κ} :
    {A : Type ℓ} {B : Type κ} (P : A → Type 0) (Q : B → Type 0) (o : Option A) (f : A → B)
    → Whenever P o
    → ((a : A) → P a → Q (f a))
    → Whenever Q (Option.map f o)
Whenever-map P Q none f h k = tt
Whenever-map P Q (some a) f h k = k a h

pub Whenever-after_any {ℓ κ} :
    {A : Type ℓ} {B : Type κ} (Q : B → Type 0) (o : Option A) (f : A → Option B)
    → ((a : A) → Whenever Q (f a))
    → Whenever Q (Option.bind o f)
unfolding Option.bind
Whenever-after_any Q none f k = tt
Whenever-after_any Q (some a) f k = k a

pub Whenever-map_any {ℓ κ} :
    {A : Type ℓ} {B : Type κ} (Q : B → Type 0) (o : Option A) (f : A → B)
    → ((a : A) → Q (f a))
    → Whenever Q (Option.map f o)
Whenever-map_any Q none f k = tt
Whenever-map_any Q (some a) f k = k a

pub Whenever-weaken {ℓ} :
    {A : Type ℓ} (P Q : A → Type 0) (o : Option A)
    → Whenever P o
    → ((a : A) → P a → Q a)
    → Whenever Q o
Whenever-weaken P Q none h k = tt
Whenever-weaken P Q (some a) h k = k a h

-- A property of both results of a test, each where the test leads to it.
pub if_cases {ℓ} :
    {A : Type ℓ} (P : A → Type 0) (b : Bool) {x y : A}
    → (b ≡ true → P x)
    → (b ≡ false → P y)
    → P (if b then x else y)
if_cases P true p q = p refl
if_cases P false p q = q refl

module _ (P : Membership → Type 0) where
  -- It holds of the membership.
  abbrev pub Kept : Prot → Type 0
  Kept s = P s.memb

  pub deliver_packet-Kept : (seq : ℕ) (s : Prot) → P s.memb → Whenever Kept (deliver_packet seq s)
  unfolding deliver_packet set_slot
  deliver_packet-Kept seq s h =
      let index = (slot s seq).head.first_frag_header.fragment_index in
      if_both (Whenever Kept)
        (length (chained (s.up_queue (up_entry (slot s seq)))) + 1
          == pos_part index + neg_part index)
        (if_both Kept (is_negative index) h h) tt

  reliable_loop-Kept : (n seq : ℕ) (s : Prot) → P s.memb → Whenever Kept (reliable_loop n seq s)
  unfolding reliable_loop
  reliable_loop-Kept zero seq s h = h
  reliable_loop-Kept (suc n) seq s h =
      if_both (Whenever Kept)
        ((slot s seq).exist == 1
          && (is_reliable (slot s seq).head.type && is_whole (slot s seq).head))
        (Whenever-after Kept Kept (deliver_packet seq s) _ (deliver_packet-Kept seq s h)
          (λ s' h'. reliable_loop-Kept n (seq + 1) s' h'))
        (reliable_loop-Kept n (seq + 1) s h)

  pub deliver_reliable_packets-Kept :
      (start num : ℕ) (s : Prot) → P s.memb → Whenever Kept (deliver_reliable_packets start num s)
  unfolding deliver_reliable_packets
  deliver_reliable_packets-Kept start num s h =
      if_both (Whenever Kept) (is_evs s.memb.state || ltb reliable_type s.delivery_threshold) h
        (reliable_loop-Kept _ _ s h)

  abbrev RoundKept : Round → Type 0
  RoundKept (next s) = P s.memb
  RoundKept (stop s) = P s.memb
  RoundKept Round.exit = Unit

  delivered_round-Kept : (o : Option Prot) → Whenever Kept o → RoundKept (delivered_round o)
  delivered_round-Kept none h = tt
  delivered_round-Kept (some s) h = h

  agreed_round-Kept : (seq : ℕ) (s : Prot) → P s.memb → RoundKept (agreed_round seq s)
  unfolding agreed_round
  agreed_round-Kept seq s h =
      if_both RoundKept ((slot s seq).exist == 1)
        (if_both RoundKept (is_safe (slot s seq).head.type) h
          (delivered_round-Kept (deliver_packet seq s) (deliver_packet-Kept seq s h)))
        (if_both RoundKept ((slot s seq).exist == 2)
          (if_both RoundKept (leb agreed_type (regular_of (slot s seq).head.type)) tt h) tt)

  after_round-Kept :
      (more : Prot → Option Prot) (r : Round)
      → RoundKept r
      → ((s : Prot) → P s.memb → Whenever Kept (more s))
      → Whenever Kept (after_round more r)
  after_round-Kept more (next s) h k = k s h
  after_round-Kept more (stop s) h k = h
  after_round-Kept more Round.exit h k = tt

  agreed_loop-Kept : (n seq : ℕ) (s : Prot) → P s.memb → Whenever Kept (agreed_loop n seq s)
  unfolding agreed_loop
  agreed_loop-Kept zero seq s h = h
  agreed_loop-Kept (suc n) seq s h =
      after_round-Kept _ (agreed_round seq s) (agreed_round-Kept seq s h)
        (λ s' h'. agreed_loop-Kept n (seq + 1) s' h')

  pub deliver_agreed_packets-Kept : (s : Prot) → P s.memb → Whenever Kept (deliver_agreed_packets s)
  unfolding deliver_agreed_packets
  deliver_agreed_packets-Kept s h =
      if_both (Whenever Kept)
        (leb s.my_aru s.last_delivered
          || (is_evs s.memb.state || ltb agreed_type s.delivery_threshold))
        h (agreed_loop-Kept _ _ s h)

  pub discard_packet-Kept : (seq : ℕ) (s : Prot) → P s.memb → Whenever Kept (discard_packet seq s)
  unfolding discard_packet set_slot
  discard_packet-Kept seq s h =
      Whenever-map Kept Kept (if (slot s seq).exist == 1 then deliver_packet seq s else some s) _
        (if_both (Whenever Kept) ((slot s seq).exist == 1) (deliver_packet-Kept seq s h) h)
        (λ s' h'. h')

  discard_loop-Kept : (n seq : ℕ) (s : Prot) → P s.memb → Whenever Kept (discard_loop n seq s)
  unfolding discard_loop
  discard_loop-Kept zero seq s h = h
  discard_loop-Kept (suc n) seq s h = if_both (Whenever Kept) ((slot s seq).exist == 0) tt (
      Whenever-after Kept Kept (discard_packet seq s) _ (discard_packet-Kept seq s h)
        (λ s' h'. discard_loop-Kept n (seq + 1) s' h'))

  pub discard_stable-Kept : (s : Prot) → P s.memb → Whenever Kept (discard_stable s)
  unfolding discard_stable
  discard_stable-Kept s h =
      Whenever-map Kept Kept (discard_loop (s.aru - s.last_discarded) (s.last_discarded + 1) s) _
        (discard_loop-Kept _ _ s h) (λ s' h'. h')

  pub before_transitional-Kept :
      (n seq : ℕ) (s : Prot) → P s.memb → Whenever Kept (before_transitional n seq s)
  unfolding before_transitional
  before_transitional-Kept zero seq s h = h
  before_transitional-Kept (suc n) seq s h = if_both (Whenever Kept) ((slot s seq).exist == 0) tt (
      if_both (Whenever Kept) ((slot s seq).exist == 3) h (
        if_both (Whenever Kept) (is_safe (slot s seq).head.type) h (
          Whenever-after Kept Kept (discard_packet seq s) _ (discard_packet-Kept seq s h) (λ s' h'.
            before_transitional-Kept n (seq + 1) (record s' { last_discarded = seq }) h'))))

  pub after_transitional-Kept :
      (n seq : ℕ) (hole : Bool) (s : Prot)
      → P s.memb
      → Whenever Kept (after_transitional n seq hole s)
  unfolding after_transitional set_slot
  after_transitional-Kept zero seq hole s h = h
  after_transitional-Kept (suc n) seq hole s h =
      if_both (Whenever Kept) ((slot s seq).exist == 0) tt (
        if_both (Whenever Kept) ((slot s seq).exist == 3)
          (after_transitional-Kept n (seq + 1) true _ h)
          (Whenever-after Kept Kept _ _
            (if_both (Whenever Kept)
              (not hole || (elim (id_in_conf s.memb.commit_membership (slot s seq).head.proc_id) [
                | none ↦ false
                | some _ ↦ true
              ]))
              (discard_packet-Kept seq s h) h)
            (λ s' h'. after_transitional-Kept n (seq + 1) hole s' h')))

  -- What is sent.
  send_next-Kept :
      (n : ℕ) (s : Prot) (ps : List Packet)
      → P s.memb
      → ((s' : Prot) → P s'.memb → P (send_first n s').memb)
      → Kept (elim ps [
        | [] ↦ s
        | p ∷ qs ↦ send_first n (send_queued p (record s { send_pack_queue = qs }))
      ])
  unfolding send_queued set_slot emit
  send_next-Kept n s [] h k = h
  send_next-Kept n s (p ∷ qs) h k = k (send_queued p (record s { send_pack_queue = qs })) h

  send_first-Kept : (n : ℕ) (s : Prot) → P s.memb → P (send_first n s).memb
  unfolding send_first
  send_first-Kept zero s h = h
  send_first-Kept (suc n) s h =
      send_next-Kept n s s.send_pack_queue h (λ s' h'. send_first-Kept n s' h')

  pub flush_bcast-Kept : (s : Prot) → P s.memb → P (flush_bcast s).memb
  unfolding flush_bcast
  flush_bcast-Kept s h = send_first-Kept _ s h

  queue_bcast-Kept : (p : Packet) (s : Prot) → P s.memb → P (queue_bcast p s).1.memb
  unfolding queue_bcast emit
  queue_bcast-Kept p s h =
      if_both (λ (r : Packet × Prot). P r.1.memb) (sends_at_once s) (send_first-Kept _ s h)
        (send_first-Kept _ s h)

  insert_new-Kept :
      (p : Packet) (d : DownQueue) (s : Prot) → P s.memb → Whenever Kept (insert_new p d s)
  unfolding insert_new set_slot
  insert_new-Kept p d s h =
      let s' : Prot = record s {
        highest_seq = s.highest_seq + 1;
        highest_fifo_seq = s.highest_fifo_seq + 1;
        down_queue = d;
      } in
      let r = queue_bcast p s' in
      if_both (Whenever Kept) ((slot r.1 r.0.head.seq).exist == 0) (queue_bcast-Kept p s' h) tt

  insert_filled-Kept :
      (type : ℕ) (index : ℤ) (element : List ℕ) (s : Prot) (f : Filling)
      → P s.memb
      → Whenever Kept (insert_filled type index element s f)
  insert_filled-Kept type index element s (filled body d) h = insert_new-Kept _ d s h
  insert_filled-Kept type index element s exit h = tt
  insert_filled-Kept type index element s out_of_fuel h = tt

  send_packet-Kept :
      (m : DownLink) (rest : List DownLink) (s : Prot)
      → P s.memb
      → Whenever Kept (send_packet m rest s)
  unfolding send_packet
  send_packet-Kept m rest s h = from (advance m rest s.down_queue)
    where
      element : List ℕ
      element = get_or m.elements s.down_queue.cur_element []

      from :
          (o : Option (ℤ × DownQueue))
          → Whenever Kept (elim o [
            | none ↦ none
            | some (index, d) ↦
                insert_filled m.type index element s
                  (fill (suc sizeof_packet_body) m.type element d)
          ])
      from none = tt
      from (some (index, d)) = insert_filled-Kept m.type index element s _ h

  abbrev pub Numbered : ℕ × Prot → Type 0
  Numbered r = P r.1.memb

  and_then-Kept :
      (more : Prot → Option (ℕ × Prot)) (o : Option Prot)
      → Whenever Kept o
      → ((s : Prot) → P s.memb → Whenever Numbered (more s))
      → Whenever Numbered (and_then more o)
  and_then-Kept more none h k = tt
  and_then-Kept more (some s) h k = k s h

  send_more-Kept :
      (n num : ℕ) (s : Prot) (ms : List DownLink)
      → P s.memb
      → ((s' : Prot) → P s'.memb → Whenever Numbered (send_loop n (num + 1) s'))
      → Whenever Numbered (elim ms [
        | [] ↦ some (num, s)
        | m ∷ rest ↦ and_then (λ s'. send_loop n (num + 1) s') (send_packet m rest s)
      ])
  send_more-Kept n num s [] h k = h
  send_more-Kept n num s (m ∷ rest) h k =
      and_then-Kept (λ s'. send_loop n (num + 1) s') (send_packet m rest s)
        (send_packet-Kept m rest s h) k

  send_loop-Kept : (n num : ℕ) (s : Prot) → P s.memb → Whenever Numbered (send_loop n num s)
  unfolding send_loop
  send_loop-Kept zero num s h = h
  send_loop-Kept (suc n) num s h =
      send_more-Kept n num s s.down_queue.messages h (λ s' h'. send_loop-Kept n (num + 1) s' h')

  pub send_new_packets-Kept :
      (allowed : ℤ) (s : Prot) → P s.memb → Whenever Numbered (send_new_packets allowed s)
  unfolding send_new_packets
  send_new_packets-Kept allowed s h = send_loop-Kept _ 0 s h

  abbrev pub Answered : Answers → Type 0
  Answered a = P a.prot.memb

  answer_one-Kept :
      (r : RingRtr) (seq : ℕ) (a : Answers) → P a.prot.memb → Whenever Answered (answer_one r seq a)
  unfolding answer_one emit
  answer_one-Kept r seq a h =
      if_both (Whenever Answered) (ltb seq a.prot.aru) tt
        (if_both (Whenever Answered) (exists a.prot seq) h h)

  answer_seqs-Kept :
      (r : RingRtr) (seqs : List ℕ) (a : Answers)
      → P a.prot.memb
      → Whenever Answered (answer_seqs r seqs a)
  unfolding answer_seqs
  answer_seqs-Kept r [] a h = h
  answer_seqs-Kept r (x ∷ xs) a h =
      Whenever-after Answered Answered (answer_one r x a) _ (answer_one-Kept r x a h)
        (λ b k. answer_seqs-Kept r xs b k)

  answer_all-Kept :
      (rtrs : List RingRtr) (a : Answers) → P a.prot.memb → Whenever Answered (answer_all rtrs a)
  unfolding answer_all
  answer_all-Kept [] a h = h
  answer_all-Kept (r ∷ rs) a h =
      if_both (Whenever Answered) (memb_is_equal r.memb_id a.prot.memb.membership_id)
        (Whenever-after Answered Answered (answer_seqs r r.seqs a) _ (answer_seqs-Kept r r.seqs a h)
          (λ b k. answer_all-Kept rs b k))
        (answer_all-Kept rs _ h)

  pub answer_retrans-Kept :
      (rtrs : List RingRtr) (s : Prot) → P s.memb → Whenever Answered (answer_retrans rtrs s)
  unfolding answer_retrans
  answer_retrans-Kept rtrs s h = answer_all-Kept rtrs _ h
