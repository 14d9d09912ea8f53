-- ===== src/MainLoop/Phases.antt =====
-- The other parts of a round of the main loop, and the reference and the id of the node.
use scdtr_project.Prelude.{
  ℕ, ◌+◌, ◌%◌, ◌≡◌, refl, sym, ap, ap₂, ◌∙◌, inl, inr, ltb, leb, ◌==◌, if◌then◌else◌, Bool-cases,
  Option-cases, if-both, get_or,
}
use scdtr_project.Float.{Float, nat}
use scdtr_project.Board.{Board}
use scdtr_project.Nodes.{Nodes, own_index}
use scdtr_project.Calibration
use scdtr_project.Consensus
use scdtr_project.Consensus.{
  Consensus, is_off, is_iterate, is_sending, is_waiting, is_update, consensus_iterate, max_iter,
  off, sending_duty_cycle,
}
use scdtr_project.Consensus.Main.{
  phase_iterate, phase_send, phase_wait, update_iteration, phase_update, consensus_main,
}
use scdtr_project.Luminaire
use scdtr_project.Luminaire.{
  Luminaire, sample_control, control, voltage, voltage_to_lux, set_system_gain, elapsed,
  control_delay, lpf_sampling_delay, set_lux_ref_after_consensus,
}
use scdtr_project.Lpf.{Lpf}
use scdtr_project.Metrics.{update_metrics}
use scdtr_project.Firmware.{
  Firmware, MainState, init, wakeup_wait, calibrate, run, on_board, consensus_init,
}
use scdtr_project.MainFsm
use scdtr_project.MainFsm.{
  Readings, set_state, run_state_init, run_state_wakeup_wait, finish_calibration,
  run_state_calibrate, run_state_run, dispatch,
}
use scdtr_project.MainLoop.{send_frequent_data, after_control, run_consensus}
use scdtr_project.MainLoop.Node.{InForce, Agrees, IsGood, IsGood-if}

module _ {ℓ} {F : Type ℓ} ⦃d : Float F⦄ where
  -- The references of the luminaire stay.
  record IsSteady (l l' : Luminaire F) : Type ℓ where
    lux_ref : l'.lux_ref ≡ l.lux_ref
    occupied : l'.occupied ≡ l.occupied
    lux_occupied : l'.lux_occupied ≡ l.lux_occupied
    lux_non_occupied : l'.lux_non_occupied ≡ l.lux_non_occupied

  steady-good :
      (l l' : Luminaire F) (c : Consensus F)
      → IsSteady l l'
      → InForce l
      → Agrees l c
      → InForce l' × Agrees l' c
  steady-good l l' c e in_force agreed = (
    e.lux_ref
        ∙ in_force
        ∙ sym (
            ap (λ o. if o then l'.lux_occupied else l'.lux_non_occupied) e.occupied
            ∙ ap₂ (λ x y. if l.occupied then x else y) e.lux_occupied e.lux_non_occupied),
    λ on. agreed on ∙ sym e.lux_ref,
  )

  sample_control-IsSteady :
      (now reading : ℕ) (residual : F) (l : Luminaire F) (b : Board)
      → IsSteady l (sample_control now reading residual l b).0
  unfolding sample_control control
  sample_control-IsSteady now reading residual l b =
      elim (Bool-cases (leb control_delay (elapsed now l.last_sample_time))) [
        | inl t ↦ rw t (record {
          lux_ref = refl;
          occupied = refl;
          lux_occupied = refl;
          lux_non_occupied = refl;
        })
        | inr f ↦ rw f (record {
          lux_ref = refl;
          occupied = refl;
          lux_occupied = refl;
          lux_non_occupied = refl;
        })
      ]

  loop-IsSteady :
      (now reading later : ℕ) (residual : F) (l : Luminaire F) (filter : Lpf F) (b : Board)
      → IsSteady l (Luminaire.loop now reading later residual l filter b).0
  unfolding Luminaire.loop
  loop-IsSteady now reading later residual l filter b =
      let s = sample_control-IsSteady now reading residual l b in
      let l' = (sample_control now reading residual l b).0 in
      elim (Bool-cases (ltb lpf_sampling_delay (elapsed now l'.lpf_sample_time))) [
        | inl t ↦ rw t (record {
          lux_ref = s.lux_ref;
          occupied = s.occupied;
          lux_occupied = s.lux_occupied;
          lux_non_occupied = s.lux_non_occupied;
        })
        | inr f ↦ rw f s
      ]

  finish_calibration-IsGood :
      (id now : ℕ) (s : Firmware F) → IsGood id s → IsGood id (finish_calibration now s)
  unfolding finish_calibration set_state set_system_gain consensus_init Consensus.init
  finish_calibration-IsGood id now s (own, in_force, agreed) = (own, in_force, λ on. refl)

  dispatch-IsGood :
      (id : ℕ) (m : MainState) (time : ℕ) (r : Readings) (s : Firmware F)
      → IsGood id s
      → IsGood id (dispatch m time r s)
  unfolding dispatch run_state_init run_state_wakeup_wait run_state_calibrate run_state_run
      set_state on_board
  dispatch-IsGood id init time r s g = elim (Bool-cases (ltb 2000000 time)) [
    | inl t ↦ rw t g
    | inr f ↦ rw f g
  ]
  dispatch-IsGood id wakeup_wait time r s g = elim (Bool-cases (ltb 2000000 time)) [
    | inl t ↦ rw t g
    | inr f ↦ rw f g
  ]
  dispatch-IsGood id calibrate time r s g =
      let lux = voltage_to_lux (voltage r.reading) s.luminaire in
      let (c, b) = Calibration.loop s.nodes lux r.now r.current s.calibration s.board in
      let s' : Firmware F = record s { calibration = c; board = b } in
      IsGood-if id c.done (finish_calibration r.now s') s' (finish_calibration-IsGood id r.now s' g)
        g
  dispatch-IsGood id run time r s (own, in_force, agreed) =
      let residual = get_or s.calibration.residual_array (own_index s.nodes) (nat 0) in
      let (in_force', agreed') =
        steady-good s.luminaire _ s.consensus
          (loop-IsSteady r.current r.reading r.later residual s.luminaire s.lpf s.board) in_force
          agreed in
      (own, in_force', agreed')

  pub loop-IsGood :
      (id : ℕ) (r : Readings) (s : Firmware F) → IsGood id s → IsGood id (MainFsm.loop r s)
  unfolding MainFsm.loop
  loop-IsGood id r s g = dispatch-IsGood id s.main_fsm.state _ r s g

  send_frequent_data-IsGood :
      (id : ℕ) (s : Firmware F) → IsGood id s → IsGood id (send_frequent_data s)
  unfolding send_frequent_data on_board
  send_frequent_data-IsGood id s g = elim (Bool-cases (s.nodes.hub_node == 0)) [
    | inl t ↦ rw t g
    | inr f ↦ elim (Bool-cases (s.nodes.hub_node == s.nodes.node_id)) [
      | inl t ↦ rw (f, t) g
      | inr f' ↦ rw (f, f') g
    ]
  ]

  pub after_control-IsGood :
      (id reading : ℕ) (s : Firmware F) → IsGood id s → IsGood id (after_control reading s)
  unfolding after_control
  after_control-IsGood id reading s g =
      let s' = send_frequent_data s in
      let lux = voltage_to_lux (voltage reading) s'.luminaire in
      let measured : Firmware F = record s' {
        metrics = update_metrics lux s'.luminaire s'.metrics;
      } in
      IsGood-if id s.did_control measured s (send_frequent_data-IsGood id s g) g

  phase_iterate-li_ref :
      (nodes : Nodes) (cost residual : F) (c : Consensus F)
      → (phase_iterate nodes cost residual c).li_ref ≡ c.li_ref
  unfolding phase_iterate consensus_iterate
  phase_iterate-li_ref nodes cost residual c =
      if-both (λ (c' : Consensus F). c'.li_ref ≡ c.li_ref) (is_iterate c.consensus_state)
        {x = record (consensus_iterate nodes.num_total_nodes cost residual c) {
          consensus_state = sending_duty_cycle;
        }}
        {y = c} refl refl

  phase_send-li_ref :
      (nodes : Nodes) (cost residual : F) (c : Consensus F) (b : Board)
      → (phase_send nodes cost residual c b).0.li_ref ≡ c.li_ref
  unfolding phase_send
  phase_send-li_ref nodes cost residual c b = elim (Bool-cases (is_sending c.consensus_state)) [
    | inl t ↦ rw t refl
    | inr f ↦ rw f refl
  ]

  phase_wait-li_ref :
      (nodes : Nodes) (cost residual : F) (c : Consensus F)
      → (phase_wait nodes cost residual c).li_ref ≡ c.li_ref
  unfolding phase_wait
  phase_wait-li_ref nodes cost residual c = elim (Bool-cases (is_waiting c.consensus_state)) [
    | inl t ↦ elim (Bool-cases (c.number_of_msg_received == c.number_of_msg_expected)) [
      | inl t' ↦ rw (t, t') refl
      | inr f' ↦ rw (t, f') refl
    ]
    | inr f ↦ rw f refl
  ]

  phase_update-li_ref :
      (nodes : Nodes) (cost residual : F) (c : Consensus F)
      → (phase_update nodes cost residual c).0.li_ref ≡ c.li_ref
  unfolding phase_update update_iteration
  phase_update-li_ref nodes cost residual c = elim (Bool-cases (is_update c.consensus_state)) [
    | inl t ↦ elim (Bool-cases ((c.num_iter + 1) % 256 == max_iter)) [
      | inl t' ↦ rw (t, t') refl
      | inr f' ↦ rw (t, f') refl
    ]
    | inr f ↦ rw f refl
  ]

  consensus_main-li_ref :
      (nodes : Nodes) (cost residual : F) (c : Consensus F) (b : Board)
      → (consensus_main nodes cost residual c b).0.li_ref ≡ c.li_ref
  unfolding consensus_main
  consensus_main-li_ref nodes cost residual c b =
      let c1 = phase_iterate nodes cost residual c in
      let c2 = (phase_send nodes cost residual c1 b).0 in
      phase_update-li_ref nodes cost residual (phase_wait nodes cost residual c2)
      ∙ phase_wait-li_ref nodes cost residual c2
      ∙ phase_send-li_ref nodes cost residual c1 b
      ∙ phase_iterate-li_ref nodes cost residual c

  pub run_consensus-IsGood :
      (id reading now : ℕ) (s : Firmware F) → IsGood id s → IsGood id (run_consensus reading now s)
  unfolding run_consensus set_lux_ref_after_consensus
  run_consensus-IsGood id reading now s (own, in_force, agreed) =
      let residual = get_or s.calibration.residual_array s.consensus.node_idx (nat 0) in
      let r = consensus_main s.nodes s.luminaire.cost residual s.consensus s.board in
      let kept = consensus_main-li_ref s.nodes s.luminaire.cost residual s.consensus s.board in
      elim (Bool-cases (is_off s.consensus.consensus_state)) [
        | inl t ↦ rw t (own, in_force, agreed)
        | inr f ↦ elim (Option-cases r.2) [
          | inl e ↦ rw (f, e) (own, in_force, λ on. kept ∙ agreed f)
          | inr (l, e) ↦ rw (f, e) (own, in_force, λ on. kept ∙ agreed f)
        ]
      ]
