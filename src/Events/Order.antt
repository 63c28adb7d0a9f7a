-- ===== src/Events/Order.antt =====
-- The queue of events of spread-src-4.4.0/libspread-util/src/events.c as a list without repetitions,
-- ordered by time.
use tf.Prelude.{◌≡◌, arith, true, false, if◌then◌else◌, List, [], ◌∷◌, All}
use tf.Prelude.Int.{◌≤ℤ◌}
use tf.Events.{SpTime, TimeEvent, compare_time, similar, is_before}

-- The specification: an event is taken out, and put in front of the first later one.
abbrev pub remove : TimeEvent → List TimeEvent → List TimeEvent
remove e [] = []
remove e (x ∷ xs) = if similar x e then xs else x ∷ remove e xs

abbrev pub insert : TimeEvent → List TimeEvent → List TimeEvent
insert e [] = e ∷ []
insert e (x ∷ xs) = if is_before e x then e ∷ x ∷ xs else x ∷ insert e xs

-- No two events with the same function, data and code.
abbrev pub Distinct : List TimeEvent → Type 0
Distinct [] = Unit
Distinct (x ∷ xs) = All (λ y. similar y x ≡ false) xs × Distinct xs

-- No event before an earlier place's event.
abbrev pub Ordered : List TimeEvent → Type 0
Ordered [] = Unit
Ordered (x ∷ xs) = All (λ y. is_before y x ≡ false) xs × Ordered xs

-- Events other than `e`.
abbrev pub Without : TimeEvent → List TimeEvent → Type 0
Without e = All (λ y. similar y e ≡ false)

pub similar-swap : (x y : TimeEvent) → similar x y ≡ similar y x
unfolding similar
similar-swap x y = ground arith

pub similar-other :
    (x e y : TimeEvent) → similar x e ≡ true → similar y x ≡ false → similar y e ≡ false
unfolding similar
similar-other x e y h k = ground arith

pub is_before-swap : (e x : TimeEvent) → is_before e x ≡ true → is_before x e ≡ false
unfolding is_before compare_time
is_before-swap e x h = ground arith

-- The order in terms that `omega` reads.
abbrev NotLater : SpTime → SpTime → Type 0
NotLater a b = (a.sec ≤ℤ b.sec) × (b.sec ≤ℤ a.sec → a.usec ≤ℤ b.usec)

is_before-NotLater : (x y : TimeEvent) → is_before y x ≡ false → NotLater x.t y.t
unfolding is_before compare_time
is_before-NotLater x y h = (ground arith, λ k. ground arith)

NotLater-is_before : (x y : TimeEvent) → NotLater x.t y.t → is_before y x ≡ false
unfolding is_before compare_time
NotLater-is_before x y (a, b) = ground arith

pub is_before_trans :
    (x y z : TimeEvent) → is_before y x ≡ false → is_before z y ≡ false → is_before z x ≡ false
is_before_trans x y z h k =
    let (a, b) = is_before-NotLater x y h in
    let (c, d) = is_before-NotLater y z k in
    NotLater-is_before x z (
      omega (arith, a, c),
      λ e.
          let f = b (omega (arith, a, c, e)) in
          let g = d (omega (arith, a, c, e)) in omega (arith, f, g),
    )
