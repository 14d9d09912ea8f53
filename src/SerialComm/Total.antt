-- ===== src/SerialComm/Total.antt =====
-- The commands to all nodes: the total that the hub adds up and its answer to the PC.
use scdtr_project.Prelude.{
  ℕ, suc, ◌+◌, ◌%◌, ◌<◌, ◌≡◌, refl, sym, ap, subst, ◌∙◌, true, false, List, [], ◌∷◌, ◌++◌, arith,
  ◌==◌, length,
}
use scdtr_project.Float.{Float}
use scdtr_project.Board.{serial_write, send_frame, fill_frame}
use scdtr_project.Command.{Command, get_type}
use scdtr_project.Comm.{send_command_request}
use scdtr_project.Firmware.{Firmware, on_board}
use scdtr_project.SerialComm.Execute.{get_value, execute_command}
use scdtr_project.SerialComm.{
  response_message, send_response, send_total_if_all_value_for_total_received,
  received_command_response_from_can, total_command,
}

module _ {ℓ} {F : Type ℓ} ⦃d : Float F⦄ where
  -- The responses of the other nodes come in, in any order.
  pub responses : List ℕ → Firmware F → Firmware F
  responses [] s = s
  responses (v ∷ values) s = responses values (received_command_response_from_can v s)

  -- The sum, in the order in which the values come in.
  abbrev pub total : F → List ℕ → F
  total x [] = x
  total x (v ∷ values) = total (d.add x (d.of_bits v)) values

  -- What the PC has of a hub that waits for `values`.
  responses-total :
      (v : ℕ) (values : List ℕ) (s : Firmware F)
      → s.serial.running_total_command ≡ true
      → s.serial.num_nodes_waiting_result ≡ length (v ∷ values)
      → length (v ∷ values) < 256
      → let s' = responses (v ∷ values) s in
        (s'.board.serial_out
          ≡ s.board.serial_out
            ++ response_message (d.to_bits (total s.serial.total_command_result (v ∷ values))))
        × (s'.board.can_out ≡ s.board.can_out)
        × (s'.serial.running_total_command ≡ false)
        × (s'.serial.num_nodes_waiting_result ≡ 0)
  unfolding responses received_command_response_from_can send_total_if_all_value_for_total_received
      send_response on_board serial_write
  responses-total v [] s running waiting small =
      let none : (s.serial.num_nodes_waiting_result + 255) % 256 ≡ 0 = omega arith in
      rw (running, none) (refl, refl, refl, refl)
  responses-total v (w ∷ values) s running waiting small =
      let left : (s.serial.num_nodes_waiting_result + 255) % 256 ≡ length (w ∷ values) =
        omega arith in
      let some_left : ((s.serial.num_nodes_waiting_result + 255) % 256 == 0) ≡ false =
        ground arith in
      let s' : Firmware F = record s {
        serial = record (s.serial) {
          num_nodes_waiting_result = (s.serial.num_nodes_waiting_result + 255) % 256;
          total_command_result = d.add s.serial.total_command_result (d.of_bits v);
        };
      } in
      let step : received_command_response_from_can v s ≡ s' = rw (running, some_left) refl in
      let Says : Firmware F → Type 0 = λ t.
        ((responses (w ∷ values) t).board.serial_out
          ≡ s.board.serial_out
            ++ response_message (d.to_bits (total s.serial.total_command_result (v ∷ w ∷ values))))
        × ((responses (w ∷ values) t).board.can_out ≡ s.board.can_out)
        × ((responses (w ∷ values) t).serial.running_total_command ≡ false)
        × ((responses (w ∷ values) t).serial.num_nodes_waiting_result ≡ 0) in
      subst Says (sym step) (responses-total w values s' running left (omega arith))

  -- The hub with the request to the other nodes on its way, and its own value `x`.
  abbrev asking : Command → F → Firmware F → Firmware F
  asking c x s = on_board (send_command_request s.nodes.node_id 0 c) (record s {
    serial = record (s.serial) {
      num_nodes_waiting_result = (s.nodes.num_total_nodes + 255) % 256;
      running_total_command = true;
      total_command_result = x;
    };
  })

  total_command-asking :
      (reading ms indeterminate : ℕ) (c : Command) (s : Firmware F)
      → c.cmd ≡ b'g'
      → total_command reading ms indeterminate c s
        ≡ send_total_if_all_value_for_total_received
            (asking c (d.of_bits (get_value reading ms indeterminate (get_type c) s)) s)
  unfolding total_command execute_command get_value
  total_command-asking reading ms indeterminate c s get =
      let g : (c.cmd == b'g') ≡ true = ground arith in rw g refl

  -- A get command to all, and then the results of all other nodes, in any order: the hub writes one
  -- response to the PC, with the sum that starts with its own value, sends one frame, and waits for
  -- nothing more. The nodes are counted right, and there are 255 at most.
  pub total_command-answered :
      (reading ms indeterminate : ℕ) (c : Command) (values : List ℕ) (s : Firmware F)
      → c.cmd ≡ b'g'
      → s.nodes.num_total_nodes ≡ suc (length values)
      → s.nodes.num_total_nodes < 256
      → let own = d.of_bits (get_value reading ms indeterminate (get_type c) s) in
        let s' = responses values (total_command reading ms indeterminate c s) in
        let request = (send_command_request s.nodes.node_id 0 c s.board).sending_frame in
        (s'.board.serial_out
          ≡ s.board.serial_out ++ response_message (d.to_bits (total own values)))
        × (s'.board.can_out ≡ s.board.can_out ++ request ∷ [])
        × (s'.serial.running_total_command ≡ false)
        × (s'.serial.num_nodes_waiting_result ≡ 0)
  unfolding responses send_total_if_all_value_for_total_received send_response on_board serial_write
      send_command_request send_frame fill_frame
  total_command-answered reading ms indeterminate c [] s get counted small =
      let alone : (s.nodes.num_total_nodes + 255) % 256 ≡ 0 = omega arith in
      let own = d.of_bits (get_value reading ms indeterminate (get_type c) s) in
      let all : ((s.nodes.num_total_nodes + 255) % 256 == 0) ≡ true = ground arith in
      let step : total_command reading ms indeterminate c s ≡ (
          let s' = send_response (d.to_bits own) (asking c own s) in
          record s' { serial = record (s'.serial) { running_total_command = false } }) =
        total_command-asking reading ms indeterminate c s get ∙ rw all refl in
      (
        ap (λ t. t.board.serial_out) step,
        ap (λ t. t.board.can_out) step,
        ap (λ t. t.serial.running_total_command) step,
        ap (λ t. t.serial.num_nodes_waiting_result) step ∙ alone,
      )
  total_command-answered reading ms indeterminate c (v ∷ values) s get counted small =
      let own = d.of_bits (get_value reading ms indeterminate (get_type c) s) in
      let left : (s.nodes.num_total_nodes + 255) % 256 ≡ length (v ∷ values) = omega arith in
      let some_left : ((s.nodes.num_total_nodes + 255) % 256 == 0) ≡ false = ground arith in
      let step : total_command reading ms indeterminate c s ≡ asking c own s =
        total_command-asking reading ms indeterminate c s get ∙ rw some_left refl in
      let (told, sent, running, waiting) =
        responses-total v values (asking c own s) refl left (omega arith) in
      (
        ap (λ t. (responses (v ∷ values) t).board.serial_out) step ∙ told,
        ap (λ t. (responses (v ∷ values) t).board.can_out) step ∙ sent,
        ap (λ t. (responses (v ∷ values) t).serial.running_total_command) step ∙ running,
        ap (λ t. (responses (v ∷ values) t).serial.num_nodes_waiting_result) step ∙ waiting,
      )
