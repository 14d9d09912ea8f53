-- ===== src/MainFsm/States.antt =====
-- The order of the states of the main state machine, and what happens at each change.
use scdtr_project.Prelude.{
  ℕ, ◌+◌, ◌-◌, ◌%◌, ◌^◌, ◌<◌, ◌≡◌, refl, ◌⊎◌, inl, inr, true, arith, ltb, Bool-cases,
}
use scdtr_project.Float.{Float}
use scdtr_project.Comm.{send_broadcast_wakeup}
use scdtr_project.Consensus.{ConsensusState, iterate, off}
use scdtr_project.Consensus
use scdtr_project.Luminaire.{voltage, voltage_to_lux}
use scdtr_project.Calibration
use scdtr_project.Firmware.{
  Firmware, MainState, init, wakeup_wait, calibrate, run, on_board, consensus_init,
}
use scdtr_project.MainFsm.{
  Readings, set_state, run_state_init, run_state_wakeup_wait, finish_calibration,
  run_state_calibrate, run_state_run, dispatch, loop,
}

module _ {ℓ} {F : Type ℓ} ⦃d : Float F⦄ where
  -- What has happened when a state is left, `time` microseconds after it was entered.
  abbrev pub Left : MainState → ℕ → Firmware F → Firmware F → Type 0
  Left init time s s' =
      (2000000 < time)
      × (s'.main_fsm.state ≡ wakeup_wait)
      × (s'.board ≡ send_broadcast_wakeup s.nodes.node_id s.board)
  Left wakeup_wait time s s' =
      (2000000 < time) × (s'.main_fsm.state ≡ calibrate) × (s'.board ≡ s.board)
  Left calibrate time s s' =
      (s'.main_fsm.state ≡ run)
      × (s'.calibration.done ≡ true)
      × (s'.consensus.consensus_state ≡ iterate)
      × (s'.consensus.num_iter ≡ 0)
  Left run time s s' = ⊥

  dispatch-Left :
      (m : MainState) (time : ℕ) (r : Readings) (s : Firmware F)
      → let s' = dispatch m time r s in
        (s'.main_fsm ≡ s.main_fsm) ⊎ ((s'.main_fsm.last_transition_time ≡ r.now) × Left m time s s')
  unfolding dispatch run_state_init run_state_wakeup_wait run_state_calibrate finish_calibration
      run_state_run set_state on_board consensus_init Consensus.init
  dispatch-Left init time r s = elim (Bool-cases (ltb 2000000 time)) [
    | inl t ↦ rw t (inr (refl, (ground arith, refl, refl)))
    | inr t ↦ rw t (inl refl)
  ]
  dispatch-Left wakeup_wait time r s = elim (Bool-cases (ltb 2000000 time)) [
    | inl t ↦ rw t (inr (refl, (ground arith, refl, refl)))
    | inr t ↦ rw t (inl refl)
  ]
  dispatch-Left calibrate time r s =
      let lux = voltage_to_lux (voltage r.reading) s.luminaire in
      let done = (Calibration.loop s.nodes lux r.now r.current s.calibration s.board).0.done in
      elim (Bool-cases done) [
        | inl t ↦ rw t (inr (refl, (refl, t, refl, refl)))
        | inr t ↦ rw t (inl refl)
      ]
  dispatch-Left run time r s = inl refl

  -- A call of `loop` keeps the state and the time of its last change, or it notes the clock and goes to
  -- the next state: from the start, after more than two seconds, with the wakeup broadcast; from
  -- waiting, after more than two seconds, and nothing is sent; from the calibration once it
  -- is done, and then the consensus starts at its first iteration. The last state is never left.
  pub loop-Left :
      (r : Readings) (s : Firmware F)
      → let s' = loop r s in
        let time = (r.current + 2 ^ 32 - s.main_fsm.last_transition_time) % 2 ^ 32 in
        (s'.main_fsm ≡ s.main_fsm)
        ⊎ ((s'.main_fsm.last_transition_time ≡ r.now) × Left s.main_fsm.state time s s')
  unfolding loop
  loop-Left r s =
      dispatch-Left s.main_fsm.state
        ((r.current + 2 ^ 32 - s.main_fsm.last_transition_time) % 2 ^ 32) r s
