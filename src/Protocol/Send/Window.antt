-- ===== src/Protocol/Send/Window.antt =====
-- Prot_queue_bcast and Prot_flush_bcast of spread-src-4.4.0/daemon/protocol.c, and the order of the
-- packets.
use tf.Prelude.{
  ℕ, ◌+◌, ◌-◌, ◌≤◌, ◌<◌, ◌≡◌, inl, inr, refl, arith, Bool, true, false, ◌&&◌, not, List, [], ◌∷◌,
  ◌++◌, length, take, drop, append_assoc, append-nil, take-append-drop, length-drop, length-append,
  take-length, drop-length, ap, subst, if◌then◌else◌, sym, ◌∙◌, Bool-cases,
}
use tf.Prelude.Int.{pos, ◌≤ℤ◌, pos_part, +ℤ_parts, -ℤ_parts, ◌-ℤ◌}
use tf.FlowControl.{is_evs}
use tf.Protocol.State.{Packet, Prot, bcast, emit}
use tf.Protocol.Send.{
  stamped, send_first, num_pack_to_send, sends_at_once, queue_bcast, flush_bcast,
}
use tf.Protocol.Send.Queue.{bcasts, bcasts-append, Left, send_first-Left}

-- The window of an accelerated ring is in use.
abbrev pub is_accelerating : Prot → Bool
is_accelerating s = s.flow_control.accelerated_ring && not (is_evs s.memb.state)

num_pack_to_send_lem :
    (s : Prot)
    → pos 0 ≤ℤ s.flow_control.accelerated_window
    → (num_pack_to_send s ≤ length s.send_pack_queue)
      × (is_accelerating s ≡ true
          → length s.send_pack_queue
            ≤ num_pack_to_send s + (pos_part s.flow_control.accelerated_window - 1))
      × (is_accelerating s ≡ false → num_pack_to_send s ≡ length s.send_pack_queue)
unfolding num_pack_to_send
num_pack_to_send_lem s h =
    let w = s.flow_control.accelerated_window in
    let n = pos (length s.send_pack_queue) in
    (
      ground (arith, -ℤ_parts n w, +ℤ_parts (n -ℤ w) (pos 1)),
      ground (arith, -ℤ_parts n w, +ℤ_parts (n -ℤ w) (pos 1)),
      ground (arith, -ℤ_parts n w, +ℤ_parts (n -ℤ w) (pos 1)),
    )

-- The state behind `queue_bcast`, by its test.
pub queue_bcast-eq :
    (p : Packet) (s : Prot) (now : Bool)
    → sends_at_once s ≡ now
    → let s' = send_first (num_pack_to_send s) s in
      (queue_bcast p s).1 ≡ (
        if now
        then emit (bcast (stamped s.token_rounds p)) s'
        else record s' { send_pack_queue = s'.send_pack_queue ++ (p ∷ []) })
unfolding queue_bcast
queue_bcast-eq p s true e = ground arith
queue_bcast-eq p s false e = ground arith

-- What a call does with the queue: `sent` goes out in this order, in the present round, and `waits`
-- is what is queued then.
pub record Queued (s : Prot) (added : List Packet) (s' : Prot) : Type 0 where
  pub sent : List Packet
  pub out : s'.out ≡ s.out ++ bcasts s.token_rounds sent
  pub in_order : s.send_pack_queue ++ added ≡ sent ++ s'.send_pack_queue

module _ (s : Prot) (h : pos 0 ≤ℤ s.flow_control.accelerated_window) where
  abbrev leaving : ℕ
  leaving = num_pack_to_send s

  at_once_all : sends_at_once s ≡ true → leaving ≡ length s.send_pack_queue
  unfolding num_pack_to_send sends_at_once
  at_once_all e =
      let w = s.flow_control.accelerated_window in
      let n = pos (length s.send_pack_queue) in
      ground (arith, -ℤ_parts n w, +ℤ_parts (n -ℤ w) (pos 1))

  waits_window :
      sends_at_once s ≡ false
      → (is_accelerating s ≡ true) × (0 < pos_part s.flow_control.accelerated_window)
  unfolding sends_at_once
  waits_window e = ground arith

  first-Left : Left s leaving (send_first leaving s)
  first-Left = send_first-Left leaving s.send_pack_queue s refl

  abbrev QueuedBy : Packet → Prot → Type 0
  QueuedBy p s' =
      Queued s (p ∷ []) s'
      × (is_accelerating s ≡ true
          → length s'.send_pack_queue ≤ pos_part s.flow_control.accelerated_window)
      × (is_accelerating s ≡ false → s'.send_pack_queue ≡ [])

  queue_bcast-sends_at_once :
      (p : Packet)
      → sends_at_once s ≡ true
      → QueuedBy p (emit (bcast (stamped s.token_rounds p)) (send_first leaving s))
  unfolding emit
  queue_bcast-sends_at_once p e =
      let q = s.send_pack_queue in
      let none_left = first-Left.queue ∙ (ap (λ n. drop n q) (at_once_all e) ∙ drop-length q) in
      (
        record {
          sent = q ++ (p ∷ []);
          out = ground (
            arith,
            first-Left.out,
            at_once_all e,
            take-length q,
            bcasts-append s.token_rounds q (p ∷ []),
            append_assoc s.out (bcasts s.token_rounds q) (bcasts s.token_rounds (p ∷ [])),
          );
          in_order = sym (ap (λ ps. (q ++ (p ∷ [])) ++ ps) none_left ∙ append-nil (q ++ (p ∷ [])));
        },
        λ _. omega (arith, ap length none_left),
        λ _. none_left,
      )

  queue_bcast-waits :
      (p : Packet)
      → sends_at_once s ≡ false
      → let s' = send_first leaving s in
        QueuedBy p (record s' { send_pack_queue = s'.send_pack_queue ++ (p ∷ []) })
  queue_bcast-waits p e =
      let q = s.send_pack_queue in
      let bounds = num_pack_to_send_lem s h in
      let room = bounds.1 (waits_window e).0 in
      (
        record {
          sent = take leaving q;
          out = first-Left.out;
          in_order = ground (
            arith,
            first-Left.queue,
            take-append-drop leaving q,
            append_assoc (take leaving q) (drop leaving q) (p ∷ []),
          );
        },
        λ _. omega (
          arith,
          ap length first-Left.queue,
          length-append (send_first leaving s).send_pack_queue (p ∷ []),
          length-drop leaving q,
          room,
          waits_window e,
        ),
        λ off. cc (off, (waits_window e).0),
      )

-- `queue_bcast` sends and queues packets in the order in which they came, the new one last. On an
-- accelerated ring outside EVS no more packets wait than the accelerated window, and on any other
-- none does.
pub queue_bcast-Queued :
    (p : Packet) (s : Prot)
    → pos 0 ≤ℤ s.flow_control.accelerated_window
    → let s' = (queue_bcast p s).1 in
      Queued s (p ∷ []) s'
      × (is_accelerating s ≡ true
          → length s'.send_pack_queue ≤ pos_part s.flow_control.accelerated_window)
      × (is_accelerating s ≡ false → s'.send_pack_queue ≡ [])
queue_bcast-Queued p s h = elim (Bool-cases (sends_at_once s)) [
  | inl e ↦
      subst (λ s'. QueuedBy s h p s') (sym (queue_bcast-eq p s true e))
        (queue_bcast-sends_at_once s h p e)
  | inr e ↦
      subst (λ s'. QueuedBy s h p s') (sym (queue_bcast-eq p s false e)) (queue_bcast-waits s h p e)
]

-- `flush_bcast` sends all that waits, in order.
pub flush_bcast-Queued :
    (s : Prot) → Queued s [] (flush_bcast s) × ((flush_bcast s).send_pack_queue ≡ [])
unfolding flush_bcast
flush_bcast-Queued s =
    let q = s.send_pack_queue in
    let left = send_first-Left (length q) q s refl in
    let none_left = left.queue ∙ drop-length q in
    (
      record {
        sent = q;
        out = left.out ∙ ap (λ ps. s.out ++ bcasts s.token_rounds ps) (take-length q);
        in_order = ap (λ ps. q ++ ps) (sym none_left);
      },
      none_left,
    )
