-- ===== src/Calibration/Bounds.antt =====
-- What holds of the calibration between two calls, for the array accesses of src/calibrationFSM.cpp.
use scdtr_project.Prelude.{
  ℕ, ◌≤◌, ◌<◌, ◌≡◌, refl, Bool, true, false, arith, length, get_or, length-set,
}
use scdtr_project.Float.{Float, nat}
use scdtr_project.Board.{Board}
use scdtr_project.Nodes.{Nodes}
use scdtr_project.Calibration.{
  Calibration, CalibrationState, calib_init, wait_ready, wait_led_on, wait_transient, led_past,
  is_none, new, loop, increment_nodes_ready, received_gain_or_residual, reset_calib, run_state,
  run_state_wait_ready, run_state_wait_transient,
}

abbrev pub is_measuring : CalibrationState → Bool
is_measuring wait_transient = true
is_measuring wait_led_on = true
is_measuring s = false

abbrev pub is_init : CalibrationState → Bool
is_init calib_init = true
is_init s = false

-- `n` is the number of nodes.
pub record IsSound {ℓ} {F : Type ℓ} (n : ℕ) (c : Calibration F) : Type 0 where
  pub lux_le : c.lux_read_num ≤ 2
  pub two_reads : length c.lux_reads ≡ 2
  pub measuring :
      is_measuring c.state ≡ true
      → (led_past n c.node_led_on ≡ false) × (is_none c.node_led_on ≡ false) × (c.lux_read_num < 2)
  pub initial : is_init c.state ≡ true → (c.lux_read_num ≡ 0) × (c.done ≡ false)
  pub waiting : is_init c.state ≡ false → c.done ≡ false → led_past n c.node_led_on ≡ false
  pub none_unread : is_init c.state ≡ false → is_none c.node_led_on ≡ true → c.lux_read_num ≡ 0
  pub finished : c.done ≡ true → led_past n c.node_led_on ≡ true
  pub at_end : c.done ≡ true → (is_none c.node_led_on ≡ false) × (c.lux_read_num ≡ 0)

module _ {ℓ} {F : Type ℓ} ⦃d : Float F⦄ where
  pub new-IsSound : (n : ℕ) → IsSound {F = F} n new
  unfolding new
  new-IsSound n = ground arith

  pub increment_nodes_ready-IsSound :
      (n : ℕ) (c : Calibration F) → IsSound n c → IsSound n (increment_nodes_ready c)
  unfolding increment_nodes_ready
  increment_nodes_ready-IsSound n c v = ground arith

  pub reset_calib-IsSound :
      (n : ℕ) (nodes : Nodes) (c : Calibration F) → IsSound n c → IsSound n (reset_calib nodes c)
  unfolding reset_calib
  reset_calib-IsSound n nodes c v = ground arith

  pub received_gain_or_residual-IsSound :
      (n : ℕ) (nodes : Nodes) (sender : ℕ) (value : F) (c : Calibration F)
      → IsSound n c
      → IsSound n (received_gain_or_residual nodes sender value c)
  unfolding received_gain_or_residual
  received_gain_or_residual-IsSound n nodes sender value c v = ground arith

  module _ (nodes : Nodes) (lux : F) (now : ℕ) where
    wait_ready-IsSound :
        (c : Calibration F) (b : Board)
        → c.state ≡ wait_ready
        → IsSound nodes.num_total_nodes c
        → IsSound nodes.num_total_nodes (run_state_wait_ready nodes lux now c b).0
    unfolding run_state_wait_ready
    wait_ready-IsSound c b e v = ground arith

    wait_transient-IsSound :
        (time : ℕ) (c : Calibration F) (b : Board)
        → c.state ≡ wait_transient
        → IsSound nodes.num_total_nodes c
        → IsSound nodes.num_total_nodes (run_state_wait_transient nodes lux now time c b).0
    unfolding run_state_wait_transient
    wait_transient-IsSound time c b e v = ground (
      arith,
      length-set c.lux_reads c.lux_read_num
          (d.sub lux (get_or c.residual_array nodes.node_id (nat 0))),
    )

    run_state-IsSound :
        (s : CalibrationState) (time : ℕ) (c : Calibration F) (b : Board)
        → c.state ≡ s
        → IsSound nodes.num_total_nodes c
        → IsSound nodes.num_total_nodes (run_state nodes lux now s time c b).0
    unfolding run_state
    run_state-IsSound calib_init time c b e v = ground arith
    run_state-IsSound wait_ready time c b e v = wait_ready-IsSound c b e v
    run_state-IsSound wait_led_on time c b e v = ground arith
    run_state-IsSound wait_transient time c b e v = wait_transient-IsSound time c b e v

    -- Every call of `loop` keeps the invariant.
    pub loop-IsSound :
        (current : ℕ) (c : Calibration F) (b : Board)
        → IsSound nodes.num_total_nodes c
        → IsSound nodes.num_total_nodes (loop nodes lux now current c b).0
    unfolding loop
    loop-IsSound current c b v = run_state-IsSound c.state _ c b refl v
