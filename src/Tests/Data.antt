-- ===== src/Tests/Data.antt =====
-- Concrete states for the tests: a node right after it has been switched on, and a server.
use scdtr_project.Prelude.{ℕ, false, List, [], ◌∷◌, set, replicate}
use scdtr_project.Prelude.Int.{ℤ, pos}
use scdtr_project.Float.Fixed.{fixed}
use scdtr_project.Frame.{Frame}
use scdtr_project.Board.{Board}
use scdtr_project.Nodes.{Nodes}
use scdtr_project.Calibration
use scdtr_project.Calibration.{Calibration}
use scdtr_project.Consensus.{Consensus, off}
use scdtr_project.Luminaire.{Luminaire}
use scdtr_project.Lpf
use scdtr_project.Metrics.{reset_metrics}
use scdtr_project.Firmware.{Firmware}
use scdtr_project.Firmware
use scdtr_project.Server.{Server}

abbrev pub blank_frame : Frame
blank_frame = record { can_id = 0; can_dlc = 0; payload = replicate 8 0 }

abbrev pub board : Board
board = record { led_pwm = 0; sending_frame = blank_frame; can_out = []; serial_out = [] }

-- The nodes 3 and 5; this one is 3.
abbrev pub two_nodes : Nodes
two_nodes = record {
  node_id = 3;
  nodes_list = 3 ∷ 5 ∷ replicate 5 0;
  node_index_on_gain_matrix = set (set (replicate 21 0) 3 0) 5 1;
  num_total_nodes = 2;
  hub_node = 0;
}

abbrev pub zeros : ℕ → List ℤ
zeros n = replicate n (pos 0)

abbrev pub consensus : Consensus ℤ
consensus = record {
  duty_cycle_av = zeros 7;
  lagrange_multipliers = zeros 7;
  ki = zeros 7;
  ki_norm = pos 0;
  kinorm_kii_diff = pos 0;
  li_ref = pos 0;
  node_idx = 0;
  num_iter = 0;
  number_of_msg_expected = 0;
  consensus_state = off;
  duty_cycle_best = zeros 7;
  received_duty_cycle = zeros 7;
  number_of_msg_received = 0;
}

abbrev pub luminaire : Luminaire ℤ
luminaire = record {
  last_sample_time = 0;
  lpf_sample_time = 0;
  ldr_slope_b = pos 1800;
  ldr_slope_m = pos 700;
  system_gain = pos 1000;
  simulator = record {
    step_time_initial = 0;
    v_initial = pos 0;
    v_final = pos 0;
    tau = 0;
    a = pos 0;
    b = pos 0;
  };
  controller = record { ui = pos 0; u = pos 0 };
  occupied = false;
  lux_ref = pos 25000;
  lux_ref_after_consensus = pos 25000;
  lux_occupied = pos 50000;
  lux_non_occupied = pos 25000;
  cost = pos 1000;
  sampling_time = 10000;
  measured_voltage = pos 0;
}

abbrev pub node : Firmware ℤ
node = record {
  nodes = two_nodes;
  calibration = Calibration.new;
  consensus = consensus;
  luminaire = luminaire;
  lpf = Lpf.new;
  metrics = reset_metrics;
  serial = record {
    num_nodes_waiting_result = 0;
    running_total_command = false;
    total_command_result = pos 0;
    pc_discovery_had_response = false;
  };
  main_fsm = record { state = Firmware.init; last_transition_time = 0 };
  time_since_last_reset = 0;
  did_control = false;
  stored_cost = pos 1000;
  board = board;
}

-- The PC knows the nodes 3 and 5 and has one client, 8.
abbrev pub server : Server ℤ
server = record {
  node_ids = 3 ∷ 5 ∷ [];
  commands_queue = [];
  client_sessions = 8 ∷ [];
  expected_number_of_reset_ack = 0;
  number_of_reset_ack_received = 0;
  timer_running = false;
  unfinished_serial_string = [];
  writing_to_file = false;
  file_writing_started = 0;
  file_output = [];
  active_streams = λ id. [];
  last_minute_buffer = record { last_time_added_entry = 0; last_minute_buffer = λ id. [] };
  serial_out = [];
  text_out = [];
}
