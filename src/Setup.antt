-- ===== src/Setup.antt =====
-- `setup` of src/main.cpp, with the state that the constructors and the initial values of the global
-- objects give, `Communication::init` and `Luminaire::init`.
pub mod Start
pub mod Filters
use scdtr_project.Prelude.{ℕ, ◌+◌, ◌*◌, ◌^◌, false, List, [], ◌∷◌, set, replicate}
use scdtr_project.Float.{Float, nat}
use scdtr_project.Board.{Board, serial_write}
use scdtr_project.Nodes.{Nodes, max_num_nodes, max_node_id, register_new_node}
use scdtr_project.Stream.{buff_size, blank, new}
use scdtr_project.Calibration
use scdtr_project.Consensus.{off}
use scdtr_project.Luminaire
use scdtr_project.Lpf
use scdtr_project.Metrics.{reset_metrics}
use scdtr_project.Firmware.{Firmware}
use scdtr_project.Firmware
use scdtr_project.MainLoop.{Main}

-- What `setup` reads from the EEPROM.
pub record Eeprom {ℓ} (F : Type ℓ) : Type ℓ where
  pub node_id : ℕ
  pub slope_m : F
  pub slope_b : F
  pub cost : F
  pub a : F
  pub b : F

-- The calls of the CAN controller. Masks and filters are for extended ids.
pub data ChipCall : Type 0 where
  reset set_bitrate set_normal_mode : ChipCall
  set_filter_mask set_filter : ℕ → ℕ → ChipCall

-- `Communication::init`
pub init_can : ℕ → List ChipCall
init_can node_id =
    reset
    ∷ set_bitrate
    ∷ set_filter_mask 0 0x00FF0000
    ∷ set_filter 0 0
    ∷ set_filter 1 (node_id * 2 ^ 16)
    ∷ set_filter_mask 1 0x00FF0000
    ∷ set_filter 2 0
    ∷ set_filter 3 (node_id * 2 ^ 16)
    ∷ set_normal_mode
    ∷ []

module _ {ℓ} {F : Type ℓ} ⦃d : Float F⦄ where
  -- The global objects before `setup`. What has no initial value is 0, as globals are.
  unfoldable pub powered_on : Eeprom F → Firmware F
  unfolding Calibration.new Lpf.new reset_metrics
  powered_on e = record {
    nodes = record {
      node_id = 0;
      nodes_list = replicate max_num_nodes 0;
      node_index_on_gain_matrix = replicate (max_node_id + 1) 0;
      num_total_nodes = 0;
      hub_node = 0;
    };
    calibration = Calibration.new;
    consensus = record {
      duty_cycle_av = replicate max_num_nodes (nat 0);
      lagrange_multipliers = replicate max_num_nodes (nat 0);
      ki = replicate max_num_nodes (nat 0);
      ki_norm = nat 0;
      kinorm_kii_diff = nat 0;
      li_ref = nat 0;
      node_idx = 255;
      num_iter = 0;
      number_of_msg_expected = 0;
      consensus_state = off;
      duty_cycle_best = replicate max_num_nodes (nat 0);
      received_duty_cycle = replicate max_num_nodes (nat 0);
      number_of_msg_received = 0;
    };
    luminaire = record {
      last_sample_time = 0;
      lpf_sample_time = 0;
      ldr_slope_b = nat 0;
      ldr_slope_m = nat 0;
      system_gain = nat 0;
      simulator = record {
        step_time_initial = 0;
        v_initial = nat 0;
        v_final = nat 0;
        tau = 0;
        a = nat 0;
        b = nat 0;
      };
      controller = record { ui = nat 0; u = nat 0 };
      occupied = false;
      lux_ref = nat 0;
      lux_ref_after_consensus = nat 0;
      lux_occupied = nat 100;
      lux_non_occupied = nat 30;
      cost = nat 0;
      sampling_time = 0;
      measured_voltage = nat 0;
    };
    lpf = Lpf.new;
    metrics = reset_metrics;
    serial = record {
      num_nodes_waiting_result = 0;
      running_total_command = false;
      total_command_result = nat 0;
      pc_discovery_had_response = false;
    };
    main_fsm = record { state = Firmware.init; last_transition_time = 0 };
    time_since_last_reset = 0;
    did_control = false;
    stored_cost = e.cost;
    board = record {
      led_pwm = 0;
      sending_frame = record { can_id = 0; can_dlc = 0; payload = replicate 8 0 };
      can_out = [];
      serial_out = [];
    };
  }

  -- `setup`, and what it calls of the CAN controller.
  unfoldable pub setup : Eeprom F → Main F × List ChipCall
  unfolding powered_on Luminaire.init
  setup e =
      let s = powered_on e in
      let (nodes, list) =
        register_new_node e.node_id
          (record (s.nodes) { node_id = e.node_id; num_total_nodes = 0 }) in
      let l = record (s.luminaire) {
        simulator = record (s.luminaire.simulator) { a = e.a; b = e.b };
      } in
      (
        record {
          node = record s {
            nodes = record nodes {
              node_index_on_gain_matrix = set nodes.node_index_on_gain_matrix 0 0;
            };
            luminaire = Luminaire.init e.slope_m e.slope_b e.cost false l;
            board = serial_write list s.board;
          };
          cf_stream = new (replicate buff_size blank);
          interrupt = false;
          mcp2515_overflow = false;
          arduino_overflow = false;
          time_last_pc_discovery = 0;
        },
        init_can e.node_id,
      )
