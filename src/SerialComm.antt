-- ===== src/SerialComm.antt =====
-- src/serialComm.cpp: commands from the PC, on the hub, and from the hub, on any node.
pub mod Execute
pub mod Total
pub mod Stream
use scdtr_project.Prelude.{
  ℕ, zero, suc, ◌+◌, ◌/◌, ◌%◌, ◌^◌, true, false, not, ◌&&◌, List, [], ◌∷◌, ◌++◌, ◌==◌,
  if◌then◌else◌, length, drop,
}
use scdtr_project.Float.{Float, nat}
use scdtr_project.Board.{Board, serial_write}
use scdtr_project.Command.{Command, of_buffer}
use scdtr_project.Comm.{
  send_command_request, send_broadcast_is_hub_node, send_broadcast_no_longer_is_hub_node,
}
use scdtr_project.Nodes.{Nodes, list_nodes_message, check_if_node_exists}
use scdtr_project.Firmware.{Firmware, SerialState, on_board}
use Execute.{execute_command}

-- The bytes of a response to the PC.
unfoldable pub response_message : ℕ → List ℕ
response_message value =
    255
    ∷ b'R'
    ∷ (value / 2 ^ 24 % 256)
    ∷ (value / 2 ^ 16 % 256)
    ∷ (value / 2 ^ 8 % 256)
    ∷ (value % 256)
    ∷ []

module _ {ℓ} {F : Type ℓ} ⦃d : Float F⦄ where
  unfoldable pub send_response : ℕ → Firmware F → Firmware F
  unfolding on_board serial_write response_message
  send_response value = on_board (serial_write (response_message value))

  unfoldable pub send_total_if_all_value_for_total_received : Firmware F → Firmware F
  unfolding send_response
  send_total_if_all_value_for_total_received s =
      if s.serial.num_nodes_waiting_result == 0
      then (let s' = send_response (d.to_bits s.serial.total_command_result) s in
          record s' { serial = record (s.serial) { running_total_command = false } })
      else s

  unfoldable pub received_command_response_from_can : ℕ → Firmware F → Firmware F
  unfolding send_response send_total_if_all_value_for_total_received
  received_command_response_from_can value s =
      if not s.serial.running_total_command
      then send_response value s
      else send_total_if_all_value_for_total_received (record s {
        serial = record (s.serial) {
          num_nodes_waiting_result = (s.serial.num_nodes_waiting_result + 255) % 256;
          total_command_result = d.add s.serial.total_command_result (d.of_bits value);
        };
      })

  unfoldable pub send_list_nodes_to_pc : Firmware F → Firmware F
  unfolding on_board serial_write
  send_list_nodes_to_pc s = on_board (serial_write (list_nodes_message s.nodes)) s

  -- The PC answered the discovery message.
  unfoldable pub become_hub : Firmware F → Firmware F
  unfolding send_list_nodes_to_pc on_board
  become_hub s =
      let answered : Firmware F = record s {
        serial = record (s.serial) { pc_discovery_had_response = true };
      } in
      if s.nodes.hub_node == s.nodes.node_id
      then answered
      else send_list_nodes_to_pc (
          on_board (send_broadcast_is_hub_node s.nodes.node_id)
            (record answered { nodes = record (s.nodes) { hub_node = s.nodes.node_id } }))

  unfoldable pub send_pc_discovery : Firmware F → Firmware F
  unfolding on_board serial_write
  send_pc_discovery s =
      let no_response : SerialState F = record (s.serial) { pc_discovery_had_response = false } in
      let asked : Firmware F = record s { serial = no_response } in
      let left : Firmware F =
        if s.nodes.hub_node == s.nodes.node_id && not s.serial.pc_discovery_had_response
        then on_board (send_broadcast_no_longer_is_hub_node s.nodes.node_id)
            (record asked { nodes = record (s.nodes) { hub_node = 0 } })
        else asked in
      on_board (serial_write (255 ∷ b'D' ∷ [])) left

  -- `reading`, `ms` and `indeterminate` are those of `execute_command`.
  module _ (reading ms indeterminate : ℕ) where
    -- A command to all: the hub runs it itself, and waits for the others.
    unfoldable pub total_command : Command → Firmware F → Firmware F
    unfolding on_board send_total_if_all_value_for_total_received
    total_command c s =
        let waiting : Firmware F = record s {
          serial = record (s.serial) {
            num_nodes_waiting_result = (s.nodes.num_total_nodes + 255) % 256;
            running_total_command = true;
          };
        } in
        let (done, value) = execute_command reading ms indeterminate c waiting in
        send_total_if_all_value_for_total_received (
          on_board (send_command_request done.nodes.node_id 0 c) (record done {
            serial = record (done.serial) { total_command_result = d.of_bits value };
          }))

    -- The branches of `readSerial` for one command.
    unfoldable pub handle_command : Command → Firmware F → Firmware F
    unfolding become_hub total_command send_response on_board
    handle_command c s =
        if c.cmd == b'D'
        then become_hub s
        else if c.destination == 0
        then total_command c s
        else if c.destination == s.nodes.node_id
        then (let (s', value) = execute_command reading ms indeterminate c s in
            send_response value s')
        else if check_if_node_exists s.nodes c.destination
        then on_board (send_command_request s.nodes.node_id c.destination c) s
        else s

    -- `readSerial` over the bytes that come in: each byte 255 starts a command of six bytes, and all
    -- other bytes are passed over. The skip count says how many bytes of a command
    -- are still to be passed over, and `stale` is what its buffer held, where bytes fail to come in time.
    unfoldable pub read_serial : List ℕ → ℕ → List ℕ → Firmware F → Firmware F
    unfolding handle_command
    read_serial stale (suc skip) (byte ∷ bytes) s = read_serial stale skip bytes s
    read_serial stale zero (byte ∷ bytes) s =
        read_serial stale (if byte == 255 then 6 else 0) bytes (
          if byte == 255
          then handle_command (of_buffer (bytes ++ drop (length bytes) stale)) s
          else s)
    read_serial stale skip [] s = s
