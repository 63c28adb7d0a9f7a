-- ===== src/Protocol/Fragment/Fill.antt =====
-- The inner loop of Send_new_packets, spread-src-4.4.0/daemon/protocol.c, from a queue of messages.
use tf.Prelude.{
  ℕ, zero, suc, ◌+◌, ◌≤◌, ◌<◌, ◌≡◌, refl, arith, true, false, Bool-cases, inl, inr, Option, none,
  some, List, [], ◌∷◌, ◌++◌, length, get_or, ◌==◌, All, ltb, ◌∙◌, ap, lt→ltb,
}
use native.Mathlib.Decide.{dec_lt}
use native.Mathlib.Numerals.{add-one}
use tf.Prelude.Int.{ℤ}
use tf.NetTypes.{sizeof_packet_body}
use tf.Protocol.Fragment.{
  padding_bytes, add_fragment, DownLink, DownQueue, advance, fits, compatible, LevelCall, Filling,
  on_advanced, filled, exit, out_of_fuel, fill, later_messages,
}
use tf.Protocol.Fragment.RoundTrip.{
  add_all, elements_of, IsShort, length-add_fragment, length-le-add_all, later_messages_add,
}
use tf.Protocol.Fragment.Pending.{
  pending_from, pending, IsQueue, pending-cons, pending-end, pending-start, IsCurrent-start,
}

-- What `advance` returns: the index of the element that it passes, and the queue behind it.
abbrev pub Advanced : DownLink → List DownLink → ℕ → Option (ℤ × DownQueue) → Type 0
Advanced m rest cur none = ⊥
Advanced m rest cur (some (index, d')) =
    IsQueue d' × (pending_from (m ∷ rest) cur ≡ (index, get_or m.elements cur []) ∷ pending d')

module _ (m : DownLink) (rest : List DownLink) (cur : ℕ) (calls : List LevelCall) where
  abbrev at_first : DownQueue
  at_first = record { messages = m ∷ rest; cur_element = cur; calls = calls }

  pub advance-Advanced : IsQueue at_first → Advanced m rest cur (advance m rest at_first)
  unfolding advance
  advance-Advanced q = elim (dec_lt (cur + 1) (length m.elements)) [
    | yes more ↦ rw (lt→ltb _ _ more) (
      record { nonempty = q.nonempty; current = more },
      ground (arith, pending-cons m rest cur q.current, add-one cur),
    )
    | no end ↦
        rw (not-ltb end, last_elem end)
          (
            record { nonempty = q.nonempty.1; current = IsCurrent-start rest q.nonempty.1 },
            ground (
              arith,
              pending-cons m rest cur q.current,
              pending-end m rest (suc cur) (omega arith),
              pending-start rest,
            ),
          )
  ]
    where
      not-ltb : ¬ (cur + 1 < length m.elements) → ltb (cur + 1) (length m.elements) ≡ false
      not-ltb h = ground arith

      last_elem : ¬ (cur + 1 < length m.elements) → (cur + 1 == length m.elements) ≡ true
      last_elem h = ground arith

-- What the loop ends with, begun with `body`: some fragments were added, which were the first of
-- the pending elements, and the body is no longer than a packet allows.
abbrev pub Filled : List ℕ → List (ℤ × List ℕ) → Filling → Type 0
Filled body waiting exit = ⊥
Filled body waiting out_of_fuel = ⊥
Filled body waiting (filled body' d') =
    (es : List (ℤ × List ℕ)) × (body' ≡ add_all body es)
    × (waiting ≡ es ++ pending d')
    × (length body' ≤ sizeof_packet_body)
    × IsQueue d'

Filled-cons :
    (body : List ℕ) (index : ℤ) (element : List ℕ) (waiting rest : List (ℤ × List ℕ)) (f : Filling)
    → waiting ≡ (index, element) ∷ rest
    → Filled (add_fragment body index element) rest f
    → Filled body waiting f
Filled-cons body index element waiting rest (filled body' d') e (es, b, w, l, q) =
    ((index, element) ∷ es, b, e ∙ ap (λ ws. (index, element) ∷ ws) w, l, q)
Filled-cons body index element waiting rest exit e f = f
Filled-cons body index element waiting rest out_of_fuel e f = f

fits_lem :
    (body element : List ℕ)
    → fits body element ≡ true
    → length body + padding_bytes (length body) + 4 + length element ≤ sizeof_packet_body
unfolding fits
fits_lem body element h = ground arith

abbrev queue : List DownLink → ℕ → List LevelCall → DownQueue
queue ms cur calls = record { messages = ms; cur_element = cur; calls = calls }

on_advanced-Filled :
    (m : DownLink) (rest : List DownLink) (cur : ℕ) (body : List ℕ) (more : ℤ → DownQueue → Filling)
    (o : Option (ℤ × DownQueue))
    → Advanced m rest cur o
    → ((index : ℤ) (d : DownQueue)
        → IsQueue d
        → Filled (add_fragment body index (get_or m.elements cur [])) (pending d) (more index d))
    → Filled body (pending_from (m ∷ rest) cur) (on_advanced more o)
on_advanced-Filled m rest cur body more none a next = a
on_advanced-Filled m rest cur body more (some (index, d)) a next =
    Filled-cons body index (get_or m.elements cur []) (pending_from (m ∷ rest) cur) (pending d)
      (more index d) a.1 (next index d a.0)

-- With the bytes of a packet for fuel the loop neither runs out nor finds a wrong index.
fill-Filled :
    (fuel type : ℕ) (body : List ℕ) (ms : List DownLink) (cur : ℕ) (calls : List LevelCall)
    → IsQueue (queue ms cur calls)
    → length body ≤ sizeof_packet_body
    → sizeof_packet_body < length body + fuel
    → Filled body (pending_from ms cur) (fill fuel type body (queue ms cur calls))
unfolding fill
fill-Filled zero type body ms cur calls q short enough = absurd (omega arith)
fill-Filled (suc n) type body [] cur calls q short enough = ([], refl, refl, short, q)
fill-Filled (suc n) type body (m ∷ rest) cur calls q short enough =
    let element = get_or m.elements cur [] in
    elim (Bool-cases (fits body element)) [
      | inr no_room ↦ rw no_room ([], refl, refl, short, q)
      | inl room ↦ rw room (elim (Bool-cases (compatible type m.type)) [
        | inr other ↦ rw other ([], refl, refl, short, q)
        | inl same ↦ rw same (
            on_advanced-Filled m rest cur body _ _ (advance-Advanced m rest cur calls q)
              (λ index d qd.
                let long = length-add_fragment body index element in
                fill-Filled n type (add_fragment body index element) d.messages d.cur_element
                  d.calls qd (omega (arith, fits_lem body element room, long))
                  (omega (arith, fits_lem body element room, long))))
      ])
    ]

All-IsShort :
    (body : List ℕ) (es : List (ℤ × List ℕ))
    → length (add_all body es) ≤ sizeof_packet_body
    → All IsShort es
All-IsShort body [] h = tt
All-IsShort body ((index, element) ∷ es) h =
    let next = add_fragment body index element in
    (
      omega (arith, length-add_fragment body index element, length-le-add_all next es),
      All-IsShort next es h,
    )

-- The loop that began with `body` and `waiting` ended with a body no longer than a packet's. It took
-- elements from the front of `waiting` and left a well-formed queue of the others; the receiver's
-- loop reads exactly the taken elements out of the body.
pub record IsPacked (body : List ℕ) (waiting : List (ℤ × List ℕ)) (f : Filling) : Type 0 where
  pub body' : List ℕ
  pub queue' : DownQueue
  pub taken : List (ℤ × List ℕ)
  pub fills : f ≡ filled body' queue'
  pub in_order : waiting ≡ taken ++ pending queue'
  pub fits_packet : length body' ≤ sizeof_packet_body
  pub queue'-IsQueue : IsQueue queue'
  pub reads_back :
      later_messages (suc (length body')) (length body') body' (length body) ≡ elements_of taken

Filled-IsPacked :
    (body : List ℕ) (waiting : List (ℤ × List ℕ)) (f : Filling)
    → Filled body waiting f
    → IsPacked body waiting f
Filled-IsPacked body waiting exit f = absurd f
Filled-IsPacked body waiting out_of_fuel f = absurd f
Filled-IsPacked body waiting (filled body' d') (es, b, w, l, q) = record {
  body' = body';
  queue' = d';
  taken = es;
  fills = refl;
  in_order = w;
  fits_packet = l;
  queue'-IsQueue = q;
  reads_back = rw b (
      later_messages_add (length (add_all body es)) body es (omega arith)
        (All-IsShort body es (rw b at l)));
}

-- From a well-formed down queue the loop that fills a packet, begun with a first fragment that fits
-- and with the packet's bytes for fuel, ends with a body no longer than a packet's: it takes
-- elements from the front of the queue, in order, leaves a well-formed queue of the others, and the
-- receiver's loop reads exactly the taken elements out of the body.
pub fill-IsPacked :
    (type : ℕ) (body : List ℕ) (d : DownQueue)
    → IsQueue d
    → length body ≤ sizeof_packet_body
    → IsPacked body (pending d) (fill (suc sizeof_packet_body) type body d)
fill-IsPacked type body d q short = Filled-IsPacked body (pending d) _ (
    fill-Filled (suc sizeof_packet_body) type body d.messages d.cur_element d.calls q short
      (omega arith))
