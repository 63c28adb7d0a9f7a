-- ===== src/FlowControl/Bounds.antt =====
-- FC_allowed of spread-src-4.4.0/daemon/flow_control.c.
use tf.Prelude.{ℕ, ◌≡◌, arith, ◌⊎◌}
use tf.Prelude.Int.{ℤ, pos, ◌+ℤ◌, ◌≤ℤ◌, +ℤ_parts, -ℤ_parts}
use tf.FlowControl.{FlowControl, MembState, allowed}

-- With windows that are not negative, a daemon is allowed between 0 packets and the smaller window;
-- and it is allowed none, or together with what the token counts it stays within both windows.
pub allowed_bounds :
    (fc : FlowControl) (state : MembState) (highest_seq aru : ℕ) (flow_control : ℤ)
    → pos 0 ≤ℤ fc.window
    → pos 0 ≤ℤ fc.personal_window
    → let n = allowed fc state highest_seq aru flow_control in
      (pos 0 ≤ℤ n)
      × (n ≤ℤ fc.window)
      × (n ≤ℤ fc.personal_window)
      × ((n ≡ pos 0) ⊎ (n +ℤ flow_control ≤ℤ fc.window +ℤ fc.personal_window))
unfolding allowed
allowed_bounds fc state highest_seq aru flow_control h k = ground (
  arith,
  +ℤ_parts fc.window fc.personal_window,
  -ℤ_parts (fc.window +ℤ fc.personal_window) flow_control,
  +ℤ_parts (allowed fc state highest_seq aru flow_control) flow_control,
)
