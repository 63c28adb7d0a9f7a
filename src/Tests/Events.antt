-- ===== src/Tests/Events.antt =====
-- Timed events at concrete inputs.
use tf.Prelude.{ℕ, ◌≡◌, arith, refl, true, some, List, [], ◌∷◌}
use tf.Prelude.Int.{pos, ◌≤ℤ◌, ◌+ℤ◌, ◌-ℤ◌}
use tf.Events.{
  SpTime, TimeEvent, add_time, sub_time, e_queue, e_dequeue, e_in_queue, similar, is_before,
}
use tf.Events.Time.{sub_time-add_time}
use tf.Events.Order.{remove, insert, Distinct, Ordered}
use tf.Events.Queue.{e_queue_lem}

abbrev at : ℕ → ℕ → SpTime
at sec usec = record { sec = pos sec; usec = pos usec }

abbrev event : ℕ → ℕ → TimeEvent
event func sec = record { t = at sec 0; func = func; code = 0; data_ptr = 0 }

abbrev three : List TimeEvent
three = event 1 10 ∷ event 2 20 ∷ event 3 30 ∷ []

Distinct-three : Distinct three
unfolding similar
Distinct-three = ((refl, (refl, tt)), ((refl, tt), (tt, tt)))

Ordered-three : Ordered three
unfolding is_before
Ordered-three = ((refl, (refl, tt)), ((refl, tt), (tt, tt)))

abbrev delayed : TimeEvent
delayed = record (event 1 15) { t = add_time (at 8 0) (at 15 0) }

-- The first event moves behind the second.
e_queue-three : e_queue (at 8 0) (event 1 15) three ≡ event 2 20 ∷ event 1 23 ∷ event 3 30 ∷ []
unfolding e_queue ◌+ℤ◌ ◌-ℤ◌
e_queue-three = refl

e_queue_lem_example :
    let q' = e_queue (at 8 0) (event 1 15) three in
    (q' ≡ insert delayed (remove delayed three))
    × Distinct q'
    × Ordered q'
    × (e_in_queue delayed q' ≡ true)
    × (e_dequeue delayed q' ≡ some (remove delayed three))
e_queue_lem_example = e_queue_lem (at 8 0) (event 1 15) three Distinct-three Ordered-three

sub_time-add_time_example :
    (pos 0 ≤ℤ (add_time (at 1 700000) (at 2 300000)).usec)
    × ((add_time (at 1 700000) (at 2 300000)).usec ≤ℤ pos 1000000)
    × (sub_time (add_time (at 1 700000) (at 2 300000)) (at 2 300000) ≡ at 1 700000)
sub_time-add_time_example =
    sub_time-add_time (at 1 700000) (at 2 300000) (omega arith, omega arith)
      (omega arith, omega arith)

-- A whole second in microseconds is not carried.
add_time-whole : add_time (at 1 700000) (at 2 300000) ≡ at 3 1000000
unfolding add_time ◌+ℤ◌
add_time-whole = refl
