-- ===== src/Events.antt =====
-- spread-src-4.4.0/libspread-util/src/events.c: the arithmetic of times and the queue of timed
-- events. The time, which E_get_time_monotonic reads from the system, is an argument. A function and
-- its data are known by their addresses, which are numbers, and so is the bit pattern of `code`.
-- The descriptors and the loop over them are not modelled.
pub mod Time
pub mod Order
pub mod Queue
use tf.Prelude.{
  ℕ, Bool, true, false, ◌&&◌, ◌==◌, not, if◌then◌else◌, Option, none, some, List, [], ◌∷◌, map,
}
use mathlib.Core.Option
use tf.Prelude.Int.{ℤ, pos, negsuc, ◌+ℤ◌, ◌-ℤ◌, ltb_ℤ}

-- sp_time
pub record SpTime : Type 0 where
  pub sec : ℤ
  pub usec : ℤ

unfoldable pub sub_time : SpTime → SpTime → SpTime
sub_time t delta_t =
    let sec = t.sec -ℤ delta_t.sec in
    let usec = t.usec -ℤ delta_t.usec in
    if ltb_ℤ usec (pos 0)
    then record { sec = sec -ℤ pos 1; usec = usec +ℤ pos 1000000 }
    else record { sec = sec; usec = usec }

unfoldable pub add_time : SpTime → SpTime → SpTime
add_time t delta_t =
    let sec = t.sec +ℤ delta_t.sec in
    let usec = t.usec +ℤ delta_t.usec in
    if ltb_ℤ (pos 1000000) usec
    then record { sec = sec +ℤ pos 1; usec = usec -ℤ pos 1000000 }
    else record { sec = sec; usec = usec }

unfoldable pub compare_time : SpTime → SpTime → ℤ
compare_time t1 t2 =
    if ltb_ℤ t2.sec t1.sec
    then pos 1
    else if ltb_ℤ t1.sec t2.sec
    then negsuc 0
    else if ltb_ℤ t2.usec t1.usec
    then pos 1
    else if ltb_ℤ t1.usec t2.usec
    then negsuc 0
    else pos 0

-- time_event, without its link
pub record TimeEvent : Type 0 where
  pub t : SpTime
  pub func : ℕ
  pub code : ℕ
  pub data_ptr : ℕ

unfoldable pub similar : TimeEvent → TimeEvent → Bool
similar x e = x.func == e.func && (x.data_ptr == e.data_ptr && x.code == e.code)

unfoldable pub is_before : TimeEvent → TimeEvent → Bool
unfolding compare_time
is_before e x = ltb_ℤ (compare_time e.t x.t) (pos 0)

-- The loop of E_queue over the events behind `t_pre`, and the insertion at the end behind it.
unfoldable pub queue_behind :
    TimeEvent → (inserted deleted : Bool) → List TimeEvent → List TimeEvent
unfolding similar is_before
queue_behind e inserted deleted [] = if inserted then [] else e ∷ []
queue_behind e inserted deleted (x ∷ xs) =
    let again = queue_behind e inserted true xs in
    let put = queue_behind e true deleted xs in
    let rest = queue_behind e inserted deleted xs in
    if inserted && deleted
    then x ∷ xs
    else if similar x e
    then again
    else if not inserted && is_before e x
    then e ∷ x ∷ put
    else x ∷ rest

-- The queue when its first event has been looked at.
unfoldable pub queue_first : TimeEvent → (deleted : Bool) → List TimeEvent → List TimeEvent
unfolding queue_behind is_before
queue_first e deleted [] = e ∷ []
queue_first e deleted (x ∷ xs) =
    if is_before e x
    then e ∷ queue_behind e true deleted (x ∷ xs)
    else x ∷ queue_behind e false deleted xs

unfoldable pub queue_event : TimeEvent → List TimeEvent → List TimeEvent
unfolding queue_first similar
queue_event e [] = queue_first e false []
queue_event e (x ∷ xs) = if similar x e then queue_first e true xs else queue_first e false (x ∷ xs)

-- E_queue of the event `e` at the time `now`; the field `t` of `e` is the delay.
unfoldable pub e_queue : (now : SpTime) → TimeEvent → List TimeEvent → List TimeEvent
unfolding queue_event add_time
e_queue now e q = queue_event (record e { t = add_time now e.t }) q

-- E_dequeue: `none` where there is no such event.
unfoldable pub e_dequeue : TimeEvent → List TimeEvent → Option (List TimeEvent)
unfolding similar
e_dequeue e [] = none
e_dequeue e (x ∷ xs) = if similar x e then some xs else Option.map (λ ys. x ∷ ys) (e_dequeue e xs)

unfoldable pub e_in_queue : TimeEvent → List TimeEvent → Bool
unfolding similar
e_in_queue e [] = false
e_in_queue e (x ∷ xs) = let rest = e_in_queue e xs in if similar x e then true else rest
