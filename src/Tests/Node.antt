-- ===== src/Tests/Node.antt =====
-- The nodes 3 and 5, their commands, and the hub.
use scdtr_project.Prelude.{
  ℕ, ◌<◌, ◌≡◌, refl, ◌⊎◌, true, false, [], ◌∷◌, ◌++◌, arith, ◌==◌, if◌then◌else◌, replicate,
}
use scdtr_project.Prelude.Int.{ℤ, pos}
use scdtr_project.Float.Fixed.{fixed}
use scdtr_project.Stream.Inv.{IsValid}
use scdtr_project.Stream.Refine.{contents}
use scdtr_project.Command.{Command, get_type}
use scdtr_project.Command
use scdtr_project.Comm.{send_command_request, send_calib_ready}
use scdtr_project.Firmware.{Firmware}
use scdtr_project.SerialComm.{
  read_serial, response_message, received_command_response_from_can, become_hub, send_pc_discovery,
  total_command,
}
use scdtr_project.SerialComm.Execute.{get_value, execute_command}
use scdtr_project.SerialComm.Stream.{command_stream, handle_commands, read_serial-commands}
use scdtr_project.SerialComm.Execute.Reference.{IsReferenced, execute_command-IsReferenced}
use scdtr_project.SerialComm.Total.{responses, total, total_command-answered}
use scdtr_project.Receive.{received}
use scdtr_project.Receive.Dispatch.{remote-execute_command}
use scdtr_project.Receive.Hub.{become_hub-agreement, send_pc_discovery-silence}
use scdtr_project.MainFsm
use scdtr_project.MainFsm.{Readings}
use scdtr_project.MainFsm.States.{Left, loop-Left}
use scdtr_project.MainLoop.{Main, Environment, receive_frames}
use scdtr_project.MainLoop.Drain.{handle_all, receive_frames-all}
use scdtr_project.Tests.Data.{blank_frame, board, node}

-- The energy of all nodes.
abbrev get_energy : Command
get_energy = record { cmd = b'g'; destination = 0; value = b'e' }

-- Node 5 answers 7.
total_command-answered_example :
    let own = fixed.of_bits (get_value 0 0 0 (get_type get_energy) node) in
    let s' = responses (14000 ∷ []) (total_command 0 0 0 get_energy node) in
    let request = (send_command_request node.nodes.node_id 0 get_energy node.board).sending_frame in
    (s'.board.serial_out
      ≡ board.serial_out ++ response_message (fixed.to_bits (total own (14000 ∷ []))))
    × (s'.board.can_out ≡ board.can_out ++ request ∷ [])
    × (s'.serial.running_total_command ≡ false)
    × (s'.serial.num_nodes_waiting_result ≡ 0)
total_command-answered_example =
    total_command-answered 0 0 0 get_energy (14000 ∷ []) node refl refl (omega arith)

-- The state of the desk of node 5.
abbrev get_occupied : Command
get_occupied = record { cmd = b'g'; destination = 5; value = b'o' }

get_occupied-IsValid : Command.IsValid get_occupied
get_occupied-IsValid = record {
  cmd_byte = omega arith;
  destination_byte = omega arith;
  value_word = omega arith;
}

abbrev node_5 : Firmware ℤ
node_5 = record node { nodes = record (node.nodes) { node_id = 5 } }

small_result : (execute_command 0 0 0 get_occupied node_5).1 < 4294967296
unfolding execute_command get_value
small_result = omega arith

remote-execute_command_example :
    let request = (send_command_request 3 5 get_occupied board).sending_frame in
    let (t', value) = execute_command 0 0 0 get_occupied node_5 in
    let answered = received 0 0 0 request node_5 in
    let response = answered.board.sending_frame in
    (answered.board.can_out ≡ t'.board.can_out ++ response ∷ [])
    × (received 0 0 0 response node ≡ received_command_response_from_can value node)
remote-execute_command_example =
    remote-execute_command 0 0 0 3 get_occupied board node_5 node (omega arith) (omega arith)
      get_occupied-IsValid small_result

become_hub-agreement_example :
    let s' = become_hub node in
    let announcement = s'.board.sending_frame in
    (s'.nodes.hub_node ≡ 3)
    × (s'.board.can_out ≡ board.can_out ++ announcement ∷ [])
    × ((reading ms indeterminate : ℕ) (t : Firmware ℤ)
        → (received reading ms indeterminate announcement t).nodes.hub_node ≡ 3)
become_hub-agreement_example = become_hub-agreement node (omega arith) (omega arith)

-- Node 3 is the hub, and its PC has answered the last question.
abbrev hub : Firmware ℤ
hub = record node {
  nodes = record (node.nodes) { hub_node = 3 };
  serial = record (node.serial) { pc_discovery_had_response = true };
}

send_pc_discovery-silence_example :
    let s' = send_pc_discovery (send_pc_discovery hub) in
    let farewell = s'.board.sending_frame in
    (s'.nodes.hub_node ≡ 0)
    × (s'.board.can_out ≡ board.can_out ++ farewell ∷ [])
    × (s'.board.serial_out ≡ board.serial_out ++ (255 ∷ b'D' ∷ []) ++ (255 ∷ b'D' ∷ []))
    × ((reading ms indeterminate : ℕ) (t : Firmware ℤ)
        → (received reading ms indeterminate farewell t).nodes.hub_node
          ≡ (if t.nodes.hub_node == 3 then 0 else t.nodes.hub_node))
send_pc_discovery-silence_example = send_pc_discovery-silence hub (omega arith) (omega arith) refl

abbrev readings : Readings
readings = record { current = 2000004; now = 2000008; reading = 0; later = 0 }

loop-Left_example :
    ((MainFsm.loop readings node).main_fsm ≡ node.main_fsm)
    ⊎ (((MainFsm.loop readings node).main_fsm.last_transition_time ≡ 2000008)
        × Left node.main_fsm.state 2000004 node (MainFsm.loop readings node))
loop-Left_example = loop-Left readings node

-- Node 3 after an interrupt: two frames wait.
abbrev main : Main ℤ
main = record {
  node = node;
  cf_stream = record {
    cf_buffer =
        (send_calib_ready 5 (pos 48000) board).sending_frame
        ∷ blank_frame
        ∷ replicate 8 blank_frame;
    read_index = 0;
    write_index = 2;
    write_lock = false;
  };
  interrupt = true;
  mcp2515_overflow = false;
  arduino_overflow = false;
  time_last_pc_discovery = 0;
}

main-IsValid : IsValid main.cf_stream
main-IsValid = ground arith

abbrev at_rest : ℕ → Environment
at_rest i = record { reading = 0; ms = 0; indeterminate = 0 }

receive_frames-all_example :
    let m' = receive_frames at_rest main in
    (m'.node ≡ handle_all at_rest 0 (contents main.cf_stream) node)
    × (contents m'.cf_stream ≡ [])
    × IsValid m'.cf_stream
    × (m'.interrupt ≡ false)
    × (m'.arduino_overflow ≡ false)
receive_frames-all_example = receive_frames-all at_rest main main-IsValid refl

read_serial-commands_example :
    read_serial 0 0 0 [] 0 (command_stream (get_occupied ∷ get_energy ∷ [])) node
    ≡ handle_commands 0 0 0 (get_occupied ∷ get_energy ∷ []) node
read_serial-commands_example = read_serial-commands 0 0 0 [] (get_occupied ∷ get_energy ∷ []) node (
  get_occupied-IsValid,
  (record { cmd_byte = omega arith; destination_byte = omega arith; value_word = omega arith }, tt),
)

-- The desk of node 3 becomes occupied.
abbrev occupy : Command
occupy = record { cmd = b'o'; destination = 3; value = 1 }

execute_command-IsReferenced_example : IsReferenced (execute_command 0 0 0 occupy node).0
execute_command-IsReferenced_example =
    execute_command-IsReferenced 0 0 0 occupy node
      (record { in_force = refl; agreed = λ e. absurd (ground arith) })
