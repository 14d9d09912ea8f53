-- ===== src/MainFsm.antt =====
-- src/mainFSM.cpp: start, announcement, calibration, and then the control.
pub mod States
use scdtr_project.Prelude.{ℕ, ◌+◌, ◌-◌, ◌%◌, ◌^◌, true, [], ltb, if◌then◌else◌, get_or}
use scdtr_project.Float.{Float, nat}
use scdtr_project.Board.{Board}
use scdtr_project.Comm.{send_broadcast_wakeup}
use scdtr_project.Nodes.{Nodes, own_index}
use scdtr_project.Calibration
use scdtr_project.Calibration.{Calibration}
use scdtr_project.Luminaire
use scdtr_project.Luminaire.{Luminaire, voltage, voltage_to_lux, set_system_gain}
use scdtr_project.Firmware.{
  Firmware, MainState, MainFsmState, init, wakeup_wait, calibrate, run, on_board, consensus_init,
}

-- What one call reads: the clock in `loop` and in `setState` of both machines, and the sensor, which a
-- call reads twice at most (`later` is the filter's sample).
pub record Readings : Type 0 where
  pub current : ℕ
  pub now : ℕ
  pub reading : ℕ
  pub later : ℕ

module _ {ℓ} {F : Type ℓ} ⦃d : Float F⦄ where
  unfoldable pub set_state : MainState → ℕ → Firmware F → Firmware F
  set_state m now s = record s { main_fsm = record { state = m; last_transition_time = now } }

  unfoldable pub run_state_init : ℕ → ℕ → Firmware F → Firmware F
  unfolding on_board set_state
  run_state_init time now s =
      if ltb 2000000 time
      then set_state wakeup_wait now (on_board (send_broadcast_wakeup s.nodes.node_id) s)
      else s

  unfoldable pub run_state_wakeup_wait : ℕ → ℕ → Firmware F → Firmware F
  unfolding set_state
  run_state_wakeup_wait time now s = if ltb 2000000 time then set_state calibrate now s else s

  -- The end of the calibration: the own gain, and the first consensus.
  unfoldable pub finish_calibration : ℕ → Firmware F → Firmware F
  unfolding set_state consensus_init
  finish_calibration now s =
      let idx = own_index s.nodes in
      let gain = get_or (get_or s.calibration.gain_matrix idx []) idx (nat 0) in
      consensus_init (record (set_state run now s) { luminaire = set_system_gain gain s.luminaire })

  unfoldable pub run_state_calibrate : Readings → Firmware F → Firmware F
  unfolding finish_calibration
  run_state_calibrate r s =
      let lux = voltage_to_lux (voltage r.reading) s.luminaire in
      let (c, b) = Calibration.loop s.nodes lux r.now r.current s.calibration s.board in
      let s' : Firmware F = record s { calibration = c; board = b } in
      if c.done then finish_calibration r.now s' else s'

  unfoldable pub run_state_run : Readings → Firmware F → Firmware F
  run_state_run r s =
      let residual = get_or s.calibration.residual_array (own_index s.nodes) (nat 0) in
      let (l, filter, b, did) =
        Luminaire.loop r.current r.reading r.later residual s.luminaire s.lpf s.board in
      record s {
        luminaire = l;
        lpf = filter;
        board = b;
        did_control = (if did then true else s.did_control);
      }

  unfoldable pub dispatch : MainState → ℕ → Readings → Firmware F → Firmware F
  unfolding run_state_init run_state_wakeup_wait run_state_calibrate run_state_run
  dispatch init time r s = run_state_init time r.now s
  dispatch wakeup_wait time r s = run_state_wakeup_wait time r.now s
  dispatch calibrate time r s = run_state_calibrate r s
  dispatch run time r s = run_state_run r s

  unfoldable pub loop : Readings → Firmware F → Firmware F
  unfolding dispatch
  loop r s =
      dispatch s.main_fsm.state ((r.current + 2 ^ 32 - s.main_fsm.last_transition_time) % 2 ^ 32) r
        s
