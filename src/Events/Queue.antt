-- ===== src/Events/Queue.antt =====
-- E_queue, E_dequeue and E_in_queue of spread-src-4.4.0/libspread-util/src/events.c.
use tf.Prelude.{◌≡◌, ◌∙◌, arith, refl, true, false, some, List, [], ◌∷◌, All, Bool-cases, inl, inr}
use tf.Events.{
  SpTime, TimeEvent, add_time, similar, is_before, queue_behind, queue_first, queue_event, e_queue,
  e_dequeue, e_in_queue,
}
use tf.Events.Order.{
  remove, insert, Distinct, Ordered, Without, similar-swap, similar-other, is_before-swap,
  is_before_trans,
}

All-imp :
    {P Q : TimeEvent → Type 0} (f : (y : TimeEvent) → P y → Q y) (xs : List TimeEvent)
    → All P xs
    → All Q xs
All-imp f [] h = tt
All-imp f (x ∷ xs) h = (f x h.0, All-imp f xs h.1)

module _ (e : TimeEvent) where
  queue_behind-both : (xs : List TimeEvent) → queue_behind e true true xs ≡ xs
  unfolding queue_behind
  queue_behind-both [] = refl
  queue_behind-both (x ∷ xs) = refl

  queue_behind-inserted : (xs : List TimeEvent) → queue_behind e true false xs ≡ remove e xs
  unfolding queue_behind
  queue_behind-inserted [] = refl
  queue_behind-inserted (x ∷ xs) = ground (arith, queue_behind-both xs, queue_behind-inserted xs)

  queue_behind-deleted :
      (xs : List TimeEvent) → Without e xs → queue_behind e false true xs ≡ insert e xs
  unfolding queue_behind
  queue_behind-deleted [] h = refl
  queue_behind-deleted (x ∷ xs) h =
      ground (arith, h.0, queue_behind-both xs, queue_behind-deleted xs h.1)

  Without-similar :
      (x : TimeEvent) (xs : List TimeEvent) → Distinct (x ∷ xs) → similar x e ≡ true → Without e xs
  Without-similar x xs d s = All-imp (λ y k. similar-other x e y s k) xs d.0

  queue_behind-neither :
      (xs : List TimeEvent) → Distinct xs → queue_behind e false false xs ≡ insert e (remove e xs)
  unfolding queue_behind
  queue_behind-neither [] d = refl
  queue_behind-neither (x ∷ xs) d = elim (Bool-cases (similar x e)) [
    | inl s ↦ rw s (queue_behind-deleted xs (Without-similar x xs d s))
    | inr s ↦ rw s (ground (arith, queue_behind-inserted xs, queue_behind-neither xs d.1))
  ]

  queue_event_lem : (q : List TimeEvent) → Distinct q → queue_event e q ≡ insert e (remove e q)
  unfolding queue_event queue_first
  queue_event_lem [] d = refl
  queue_event_lem (x ∷ xs) d = elim (Bool-cases (similar x e)) [
    | inl s ↦ rw s (first xs (Without-similar x xs d s))
    | inr s ↦ rw s (ground (arith, s, queue_behind-inserted (x ∷ xs), queue_behind-neither xs d.1))
  ]
    where
      first : (ys : List TimeEvent) → Without e ys → queue_first e true ys ≡ insert e ys
      first [] h = refl
      first (y ∷ ys) h = ground (arith, queue_behind-both (y ∷ ys), queue_behind-deleted ys h.1)

  All-remove : (P : TimeEvent → Type 0) (xs : List TimeEvent) → All P xs → All P (remove e xs)
  All-remove P [] h = tt
  All-remove P (x ∷ xs) h = elim (Bool-cases (similar x e)) [
    | inl s ↦ rw s h.1
    | inr s ↦ rw s (h.0, All-remove P xs h.1)
  ]

  All-insert : (P : TimeEvent → Type 0) (xs : List TimeEvent) → P e → All P xs → All P (insert e xs)
  All-insert P [] p h = (p, tt)
  All-insert P (x ∷ xs) p h = elim (Bool-cases (is_before e x)) [
    | inl b ↦ rw b (p, h)
    | inr b ↦ rw b (h.0, All-insert P xs p h.1)
  ]

  remove-keeps :
      (xs : List TimeEvent)
      → Distinct xs
      → Ordered xs
      → Distinct (remove e xs) × Ordered (remove e xs) × Without e (remove e xs)
  remove-keeps [] d o = (tt, tt, tt)
  remove-keeps (x ∷ xs) d o = elim (Bool-cases (similar x e)) [
    | inl s ↦ rw s (d.1, o.1, Without-similar x xs d s)
    | inr s ↦
        let (d', o', w) = remove-keeps xs d.1 o.1 in
        rw s (
          (All-remove (λ y. similar y x ≡ false) xs d.0, d'),
          (All-remove (λ y. is_before y x ≡ false) xs o.0, o'),
          (s, w),
        )
  ]

  insert-Distinct : (xs : List TimeEvent) → Without e xs → Distinct xs → Distinct (insert e xs)
  insert-Distinct [] w d = (tt, tt)
  insert-Distinct (x ∷ xs) w d = elim (Bool-cases (is_before e x)) [
    | inl b ↦ rw b (w, d)
    | inr b ↦ rw b (
      All-insert (λ y. similar y x ≡ false) xs (similar-swap e x ∙ w.0) d.0,
      insert-Distinct xs w.1 d.1,
    )
  ]

  insert-Ordered : (xs : List TimeEvent) → Ordered xs → Ordered (insert e xs)
  insert-Ordered [] o = (tt, tt)
  insert-Ordered (x ∷ xs) o = elim (Bool-cases (is_before e x)) [
    | inl b ↦
        let later = is_before-swap e x b in
        rw b ((later, All-imp (λ y k. is_before_trans e x y later k) xs o.0), o)
    | inr b ↦ rw b (All-insert (λ y. is_before y x ≡ false) xs b o.0, insert-Ordered xs o.1)
  ]

  similar_refl : similar e e ≡ true
  unfolding similar
  similar_refl = ground arith

  insert-found :
      (xs : List TimeEvent)
      → Without e xs
      → (e_in_queue e (insert e xs) ≡ true) × (e_dequeue e (insert e xs) ≡ some xs)
  unfolding e_in_queue e_dequeue
  insert-found [] w = (ground (arith, similar_refl), ground (arith, similar_refl))
  insert-found (x ∷ xs) w = elim (Bool-cases (is_before e x)) [
    | inl b ↦ rw b (ground (arith, similar_refl), ground (arith, similar_refl))
    | inr b ↦
        let (here, out) = insert-found xs w.1 in
        rw b (ground (arith, here), ground (arith, out, w.0))
  ]

-- In a queue ordered by time, and without two events of the same function, data and code, E_queue
-- takes the event that is like the new one out, if there is one, and puts the new one, at its time,
-- in front of the first later event. The queue is ordered and without repetitions then, E_in_queue
-- finds the new event, and E_dequeue takes out it and nothing else.
pub e_queue_lem :
    (now : SpTime) (e : TimeEvent) (q : List TimeEvent)
    → Distinct q
    → Ordered q
    → let e' : TimeEvent = record e { t = add_time now e.t } in
      let q' = e_queue now e q in
      (q' ≡ insert e' (remove e' q))
      × Distinct q'
      × Ordered q'
      × (e_in_queue e' q' ≡ true)
      × (e_dequeue e' q' ≡ some (remove e' q))
unfolding e_queue
e_queue_lem now e q d o =
    let e' : TimeEvent = record e { t = add_time now e.t } in
    let (d', o', w) = remove-keeps e' q d o in
    let same = queue_event_lem e' q d in
    let (here, out) = insert-found e' (remove e' q) w in
    rw same (refl, insert-Distinct e' _ w d', insert-Ordered e' _ o', here, out)
