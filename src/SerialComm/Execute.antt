-- ===== src/SerialComm/Execute.antt =====
-- `SerialComm::executeCommand`. The readings are arguments: `reading` of the sensor's converter, `ms` of
-- `millis()`. `indeterminate` is what the union holds if the type of a get command is not known.
pub mod Node
pub mod Reference
use scdtr_project.Prelude.{
  ℕ, ◌+◌, ◌-◌, ◌/◌, ◌%◌, ◌^◌, Bool, false, not, ◌==◌, if◌then◌else◌, get_or,
}
use scdtr_project.Float.{Float, nat}
use scdtr_project.Command.{Command, get_type, get_float_value}
use scdtr_project.Comm.{send_do_consensus}
use scdtr_project.Nodes.{own_index, reset_glob}
use scdtr_project.Calibration.{reset_calib}
use scdtr_project.Consensus.{reset_consensus}
use scdtr_project.Luminaire.{voltage, voltage_to_lux, set_occupied, reset_luminaire}
use scdtr_project.Luminaire.{Luminaire}
use scdtr_project.Lpf.{reset_lpf}
use scdtr_project.Metrics.{power_consumption, reset_metrics}
use scdtr_project.Board.{serial_write}
use scdtr_project.Firmware.{Firmware, init, on_board, consensus_init}

module _ {ℓ} {F : Type ℓ} ⦃d : Float F⦄ where
  -- `sendDoConsensus` and `consensus.init`
  unfoldable pub restart_consensus : Firmware F → Firmware F
  unfolding on_board consensus_init
  restart_consensus s = consensus_init (on_board (send_do_consensus s.nodes.node_id) s)

  unfoldable pub with_luminaire : Luminaire F → Firmware F → Firmware F
  with_luminaire l s = record s { luminaire = l }

  -- The branch 'O': the reference of an occupied desk.
  unfoldable pub set_lux_occupied : F → Firmware F → Firmware F
  unfolding restart_consensus with_luminaire
  set_lux_occupied v s =
      if d.eq s.luminaire.lux_occupied v
      then s
      else if s.luminaire.occupied
      then restart_consensus
          (with_luminaire (record (s.luminaire) { lux_occupied = v; lux_ref = v }) s)
      else with_luminaire (record (s.luminaire) { lux_occupied = v }) s

  -- The branch 'U': the reference of a free desk.
  unfoldable pub set_lux_non_occupied : F → Firmware F → Firmware F
  unfolding restart_consensus with_luminaire
  set_lux_non_occupied v s =
      if d.eq s.luminaire.lux_non_occupied v
      then s
      else if s.luminaire.occupied
      then with_luminaire (record (s.luminaire) { lux_non_occupied = v }) s
      else restart_consensus
          (with_luminaire (record (s.luminaire) { lux_non_occupied = v; lux_ref = v }) s)

  -- The branch 'c': the cost, which is stored too.
  unfoldable pub set_cost : F → Firmware F → Firmware F
  unfolding restart_consensus with_luminaire
  set_cost v s =
      if d.eq s.luminaire.cost v
      then s
      else record (restart_consensus (with_luminaire (record (s.luminaire) { cost = v }) s)) {
        stored_cost = v;
      }

  -- The branch 'o'.
  unfoldable pub change_occupied : Bool → Firmware F → Firmware F
  unfolding restart_consensus with_luminaire
  change_occupied o s =
      if (if o then s.luminaire.occupied else not s.luminaire.occupied)
      then s
      else restart_consensus (with_luminaire (set_occupied o s.luminaire) s)

  -- The branch 'r'. The clock of the main state machine stays.
  unfoldable pub reset_all : ℕ → Firmware F → Firmware F
  reset_all ms s =
      let n = s.nodes.num_total_nodes in
      let (l, b) = reset_luminaire s.luminaire s.board in
      let (nodes, list) = reset_glob s.nodes in
      record s {
        calibration = reset_calib s.nodes s.calibration;
        consensus = reset_consensus n s.consensus;
        lpf = reset_lpf s.lpf;
        luminaire = l;
        main_fsm = record { state = init; last_transition_time = s.main_fsm.last_transition_time };
        metrics = reset_metrics;
        nodes = nodes;
        serial = record {
          num_nodes_waiting_result = 0;
          running_total_command = false;
          total_command_result = nat 0;
          pc_discovery_had_response = s.serial.pc_discovery_had_response;
        };
        time_since_last_reset = ms;
        board = serial_write list b;
      }

  module _ (reading ms indeterminate : ℕ) where
    -- The answer to a get command, as 32 bits.
    unfoldable pub get_value : ℕ → Firmware F → ℕ
    unfolding voltage_to_lux voltage power_consumption
    get_value t s =
        if t == b'I'
        then d.to_bits (voltage_to_lux (voltage reading) s.luminaire)
        else if t == b'd'
        then d.to_bits (d.div (d.mul s.luminaire.controller.u (d.ratio 100 1)) (d.ratio 255 1))
        else if t == b'o'
        then (if s.luminaire.occupied then 1 else 0)
        else if t == b'O'
        then d.to_bits s.luminaire.lux_occupied
        else if t == b'U'
        then d.to_bits s.luminaire.lux_non_occupied
        else if t == b'L'
        then d.to_bits s.luminaire.lux_ref
        else if t == b'x'
        then d.to_bits (get_or s.calibration.residual_array (own_index s.nodes) (nat 0))
        else if t == b'r'
        then d.to_bits s.luminaire.lux_ref_after_consensus
        else if t == b'c'
        then d.to_bits s.luminaire.cost
        else if t == b't'
        then d.to_bits (nat ((ms + 2 ^ 32 - s.time_since_last_reset) % 2 ^ 32 / 1000))
        else if t == b'p'
        then d.to_bits (power_consumption s.luminaire)
        else if t == b'e'
        then d.to_bits s.metrics.energy_consumed_since_last_reset
        else if t == b'v'
        then d.to_bits s.metrics.visibility_error
        else if t == b'f'
        then d.to_bits s.metrics.flicker_error
        else indeterminate

    unfoldable pub execute_command : Command → Firmware F → Firmware F × ℕ
    unfolding get_type get_float_value
    execute_command c s =
        if c.cmd == b'g'
        then (s, get_value (get_type c) s)
        else if c.cmd == b'O'
        then (set_lux_occupied (get_float_value c) s, 1)
        else if c.cmd == b'U'
        then (set_lux_non_occupied (get_float_value c) s, 1)
        else if c.cmd == b'c'
        then (set_cost (get_float_value c) s, 1)
        else if c.cmd == b'r'
        then (reset_all ms s, 1)
        else if c.cmd == b'o'
        then (change_occupied (c.value == 1) s, 1)
        else (s, 0)
