-- ===== src/Events/Time.antt =====
-- E_add_time and E_sub_time of spread-src-4.4.0/libspread-util/src/events.c.
use tf.Prelude.{◌+◌, ◌<◌, ◌≡◌, arith, ap₂, true, false, Bool-cases, inl, inr}
use tf.Prelude.Int.{ℤ, pos, ◌≤ℤ◌, pos_part, neg_part, ◌+ℤ◌, ◌-ℤ◌, int_laws, eq_of_parts, ltb_ℤ}
use tf.Events.{SpTime, add_time, sub_time}

-- Microseconds from 0 to 999999.
abbrev pub IsNormal : SpTime → Type 0
IsNormal t = (pos 0 ≤ℤ t.usec) × (t.usec ≤ℤ pos 999999)

add-sub : (a b : ℤ) → a +ℤ b -ℤ b ≡ a
add-sub a b = eq_of_parts _ _ (omega int_laws)

carried-sub : (a b c : ℤ) → a +ℤ b -ℤ c -ℤ b +ℤ c ≡ a
carried-sub a b c = eq_of_parts _ _ (omega int_laws)

borrowed-sub : (a b c : ℤ) → a +ℤ b +ℤ c -ℤ b -ℤ c ≡ a
borrowed-sub a b c = eq_of_parts _ _ (omega int_laws)

ltb_ℤ-true : (a b : ℤ) → ltb_ℤ a b ≡ true → pos_part a + neg_part b < pos_part b + neg_part a
ltb_ℤ-true a b e = ground arith

ltb_ℤ-false : (a b : ℤ) → ltb_ℤ a b ≡ false → b ≤ℤ a
ltb_ℤ-false a b e = ground arith

lt-ltb_ℤ : (a b : ℤ) → pos_part a + neg_part b < pos_part b + neg_part a → ltb_ℤ a b ≡ true
lt-ltb_ℤ a b e = ground arith

le-ltb_ℤ : (a b : ℤ) → b ≤ℤ a → ltb_ℤ a b ≡ false
le-ltb_ℤ a b e = ground arith

-- For two times with microseconds from 0 to 999999 the sum has microseconds from 0 to 1000000, and
-- taking the second away from it gives the first.
pub sub_time-add_time :
    (t d : SpTime)
    → IsNormal t
    → IsNormal d
    → (pos 0 ≤ℤ (add_time t d).usec)
      × ((add_time t d).usec ≤ℤ pos 1000000)
      × (sub_time (add_time t d) d ≡ t)
unfolding add_time sub_time
sub_time-add_time t d h k =
    let u = t.usec +ℤ d.usec in
    elim (Bool-cases (ltb_ℤ (pos 1000000) u)) [
      | inl carry ↦
          let over = ltb_ℤ-true (pos 1000000) u carry in
          let back = lt-ltb_ℤ (u -ℤ pos 1000000 -ℤ d.usec) (pos 0) (omega (int_laws, h, k, over)) in
          rw carry (
            omega (int_laws, h, k, over),
            omega (int_laws, h, k, over),
            rw back (
                ap₂ (λ a b. record { sec = a; usec = b }) (borrowed-sub t.sec d.sec (pos 1))
                  (carried-sub t.usec d.usec (pos 1000000))),
          )
      | inr fits ↦
          let under = ltb_ℤ-false (pos 1000000) u fits in
          let back = le-ltb_ℤ (u -ℤ d.usec) (pos 0) (omega (int_laws, h, k, under)) in
          rw fits (
            omega (int_laws, h, k, under),
            omega (int_laws, h, k, under),
            rw back (
                ap₂ (λ a b. record { sec = a; usec = b }) (add-sub t.sec d.sec)
                  (add-sub t.usec d.usec)),
          )
    ]
