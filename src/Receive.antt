-- ===== src/Receive.antt =====
-- `Communication::received` of src/communication.cpp: what a node does with a CAN frame.
pub mod Dispatch
pub mod Hub
use scdtr_project.Prelude.{ℕ, true, List, ◌==◌, if◌then◌else◌}
use scdtr_project.MsgType
use scdtr_project.Frame.{Frame, msg_type, sender}
use scdtr_project.Float.{Float, nat}
use scdtr_project.Board.{Board, serial_write}
use scdtr_project.Command.{of_buffer}
use scdtr_project.Comm.{bytes_word, send_command_response}
use scdtr_project.Comm.Packet.{forward_frequent_data}
use scdtr_project.Consensus.Main.{received_message}
use scdtr_project.Nodes.{Nodes, register_new_node}
use scdtr_project.Calibration.{Calibration, received_gain_or_residual, increment_nodes_ready}
use scdtr_project.Consensus.{Consensus}
use scdtr_project.Firmware.{Firmware, on_board, consensus_init}
use scdtr_project.SerialComm.{received_command_response_from_can}
use scdtr_project.SerialComm.Execute.{execute_command}

module _ {ℓ} {F : Type ℓ} ⦃d : Float F⦄ where
  unfoldable pub on_wakeup : ℕ → Firmware F → Firmware F
  unfolding on_board serial_write
  on_wakeup id s =
      let (nodes, list) = register_new_node id s.nodes in
      on_board (serial_write list) (record s { nodes = nodes })

  -- A negative value is no reading.
  unfoldable pub on_calib_ready : ℕ → F → Firmware F → Firmware F
  on_calib_ready id value s = record s {
    calibration = increment_nodes_ready (
        if d.le (nat 0) value
        then received_gain_or_residual s.nodes id value s.calibration
        else s.calibration);
  }

  unfoldable pub on_calib_led_on : Firmware F → Firmware F
  on_calib_led_on s = record s { calibration = record (s.calibration) { other_node_led_on = true } }

  unfoldable pub on_is_hub_node : ℕ → Firmware F → Firmware F
  on_is_hub_node id s = record s { nodes = record (s.nodes) { hub_node = id } }

  unfoldable pub on_no_longer_is_hub_node : ℕ → Firmware F → Firmware F
  on_no_longer_is_hub_node id s =
      if s.nodes.hub_node == id then record s { nodes = record (s.nodes) { hub_node = 0 } } else s

  unfoldable pub on_consensus : List ℕ → Firmware F → Firmware F
  unfolding received_message
  on_consensus bytes s = record s {
    consensus = received_message s.nodes.num_total_nodes bytes s.consensus;
  }

  -- The readings are those of `execute_command`.
  module _ (reading ms indeterminate : ℕ) where
    unfoldable pub on_commands_request : ℕ → List ℕ → Firmware F → Firmware F
    unfolding on_board
    on_commands_request id bytes s =
        let (s', value) = execute_command reading ms indeterminate (of_buffer bytes) s in
        on_board (send_command_response s'.nodes.node_id id value) s'

    unfoldable pub received : Frame → Firmware F → Firmware F
    unfolding on_wakeup on_calib_ready on_calib_led_on on_is_hub_node on_board
        on_no_longer_is_hub_node on_commands_request on_consensus
    received f s =
        if msg_type f == MsgType.wakeup_broadcast
        then on_wakeup (sender f) s
        else if msg_type f == MsgType.calib_ready
        then on_calib_ready (sender f) (d.of_bits (bytes_word f.payload)) s
        else if msg_type f == MsgType.calib_led_on
        then on_calib_led_on s
        else if msg_type f == MsgType.is_hub_node
        then on_is_hub_node (sender f) s
        else if msg_type f == MsgType.frequent_data
        then on_board (forward_frequent_data f.payload) s
        else if msg_type f == MsgType.no_longer_is_hub_node
        then on_no_longer_is_hub_node (sender f) s
        else if msg_type f == MsgType.commands_request
        then on_commands_request (sender f) f.payload s
        else if msg_type f == MsgType.commands_response
        then received_command_response_from_can (bytes_word f.payload) s
        else if msg_type f == MsgType.consensus
        then on_consensus f.payload s
        else if msg_type f == MsgType.do_consensus
        then consensus_init s
        else s
