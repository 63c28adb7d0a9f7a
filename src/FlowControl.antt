-- ===== src/FlowControl.antt =====
-- spread-src-4.4.0/daemon/flow_control.c:
-- how many packets a daemon may send while it holds the token.
-- The windows are int16 and the token's counter is signed: integers. The alarms are not modelled.
pub mod Bounds
use tf.Prelude.{ℕ, zero, suc, ◌+◌, Bool, true, false, ltb, if◌then◌else◌}
use tf.Prelude.Int.{ℤ, pos, negsuc, ◌+ℤ◌, ◌-ℤ◌, ltb_ℤ}

-- The states of daemon/membership.h.
pub data MembState : Type 0 where
  op seg represented gather form evs : MembState

unfoldable pub is_evs : MembState → Bool
is_evs MembState.evs = true
is_evs MembState.op = false
is_evs MembState.seg = false
is_evs MembState.represented = false
is_evs MembState.gather = false
is_evs MembState.form = false

-- The static variables of flow_control.c.
pub record FlowControl : Type 0 where
  pub window : ℤ
  pub personal_window : ℤ
  pub accelerated_window : ℤ
  pub accelerated_ring : Bool

abbrev pub max_seq_gap : ℕ
max_seq_gap = 1600

unfoldable pub min_ℤ : ℤ → ℤ → ℤ
min_ℤ bound x = if ltb_ℤ bound x then bound else x

-- FC_allowed reads Memb_state(), Highest_seq and Aru, here arguments; its `num_retrans` is not
-- used.
unfoldable pub allowed : FlowControl → MembState → (highest_seq aru : ℕ) → (flow_control : ℤ) → ℤ
unfolding min_ℤ is_evs
allowed fc state highest_seq aru flow_control =
    if is_evs state
    then pos 0
    else if ltb (aru + max_seq_gap) highest_seq
    then pos 0
    else let room = fc.window +ℤ fc.personal_window -ℤ flow_control in
      let room = if ltb_ℤ room (pos 0) then pos 0 else room in
      min_ℤ fc.personal_window (min_ℤ fc.window room)

-- The monitor's request: a value for the windows, where -1 leaves a window as it is.
pub record Request : Type 0 where
  pub window : ℤ
  pub personal_window : ℤ
  pub accelerated_window : ℤ

unfoldable pub unless_minus_one : ℤ → ℤ → ℤ
unless_minus_one (pos n) old = pos n
unless_minus_one (negsuc zero) old = old
unless_minus_one (negsuc (suc n)) old = negsuc (suc n)

-- FC_handle_message behind its checks and the byte order: `dangerous` is the monitor state of the
-- configuration, `legal` says that the request is a monitor's from a daemon of the configuration.
unfoldable pub handle_message : (dangerous legal : Bool) → Request → FlowControl → FlowControl
unfolding unless_minus_one
handle_message dangerous legal r fc =
    if dangerous
    then (if legal
        then record fc {
          window = unless_minus_one r.window fc.window;
          personal_window = unless_minus_one r.personal_window fc.personal_window;
          accelerated_window = unless_minus_one r.accelerated_window fc.accelerated_window;
        }
        else fc)
    else fc
