-- ===== src/Receive/Dispatch.antt =====
-- The frames of the senders in src/communication.cpp, at a receiver.
use scdtr_project.Prelude.{ℕ, ◌<◌, ◌≡◌, refl, sym, ap, ◌∙◌, List, [], ◌∷◌, ◌++◌, arith, drop}
use scdtr_project.MsgType
use scdtr_project.Frame.{Frame, can_message_id}
use scdtr_project.Frame.Ids.{can_message_id-fields}
use scdtr_project.Float.{Float, IsPacked}
use scdtr_project.Board.{Board}
use scdtr_project.Command.{Command, to_byte_array, of_buffer}
use scdtr_project.Command
use scdtr_project.Command.RoundTrip.{of_buffer-to_byte_array}
use scdtr_project.Comm.{
  word_bytes, bytes_word, send_command_request, send_command_response, send_calib_ready,
}
use scdtr_project.Comm.RoundTrip.{bytes_word-word_bytes, send_calib_ready-value}
use scdtr_project.Firmware.{Firmware, on_board}
use scdtr_project.SerialComm.{received_command_response_from_can}
use scdtr_project.SerialComm.Execute.{execute_command}
use scdtr_project.SerialComm.Execute.Node.{execute_command-node_id}
use scdtr_project.Receive.{
  received, on_calib_ready, on_is_hub_node, on_no_longer_is_hub_node, on_commands_request,
}

abbrev frame_of : ℕ → ℕ → ℕ → ℕ → List ℕ → Frame
frame_of node_id destination message_type dlc bytes = record {
  can_id = can_message_id node_id destination message_type;
  can_dlc = dlc;
  payload = bytes;
}

module _ {ℓ} {F : Type ℓ} ⦃d : Float F⦄ (reading ms indeterminate : ℕ) where
  received-request :
      (id destination dlc : ℕ) (bytes : List ℕ) (s : Firmware F)
      → id < 256
      → destination < 256
      → received reading ms indeterminate
          (frame_of id destination MsgType.commands_request dlc bytes)
          s
        ≡ on_commands_request reading ms indeterminate id bytes s
  unfolding received
  received-request id destination dlc bytes s h h' =
      let (m, from, to, word) =
        can_message_id-fields id destination MsgType.commands_request dlc bytes h h'
          (omega arith) in
      rw (m, from) refl

  received-response :
      (id destination dlc : ℕ) (bytes : List ℕ) (s : Firmware F)
      → id < 256
      → destination < 256
      → received reading ms indeterminate
          (frame_of id destination MsgType.commands_response dlc bytes)
          s
        ≡ received_command_response_from_can (bytes_word bytes) s
  unfolding received
  received-response id destination dlc bytes s h h' =
      let (m, from, to, word) =
        can_message_id-fields id destination MsgType.commands_response dlc bytes h h'
          (omega arith) in
      rw m refl

  received-calib_ready :
      (id dlc : ℕ) (bytes : List ℕ) (s : Firmware F)
      → id < 256
      → received reading ms indeterminate (frame_of id 0 MsgType.calib_ready dlc bytes) s
        ≡ on_calib_ready id (d.of_bits (bytes_word bytes)) s
  unfolding received
  received-calib_ready id dlc bytes s h =
      let (m, from, to, word) =
        can_message_id-fields id 0 MsgType.calib_ready dlc bytes h (omega arith) (omega arith) in
      rw (m, from) refl

  pub received-is_hub_node :
      (id dlc : ℕ) (bytes : List ℕ) (s : Firmware F)
      → id < 256
      → received reading ms indeterminate (frame_of id 0 MsgType.is_hub_node dlc bytes) s
        ≡ on_is_hub_node id s
  unfolding received
  received-is_hub_node id dlc bytes s h =
      let (m, from, to, word) =
        can_message_id-fields id 0 MsgType.is_hub_node dlc bytes h (omega arith) (omega arith) in
      rw (m, from) refl

  pub received-no_longer_is_hub_node :
      (id dlc : ℕ) (bytes : List ℕ) (s : Firmware F)
      → id < 256
      → received reading ms indeterminate (frame_of id 0 MsgType.no_longer_is_hub_node dlc bytes) s
        ≡ on_no_longer_is_hub_node id s
  unfolding received
  received-no_longer_is_hub_node id dlc bytes s h =
      let (m, from, to, word) =
        can_message_id-fields id 0 MsgType.no_longer_is_hub_node dlc bytes h (omega arith)
          (omega arith) in
      rw (m, from) refl

  -- A reading that one node broadcasts reaches the calibration of any node that receives the frame:
  -- it is stored if it is not negative, and the sender is counted as ready. The sender's id is a byte
  -- and the reading has 32 bits.
  pub received-send_calib_ready :
      (id : ℕ) (val : F) (b : Board) (s : Firmware F)
      → id < 256
      → IsPacked val
      → received reading ms indeterminate (send_calib_ready id val b).sending_frame s
        ≡ on_calib_ready id val s
  unfolding send_calib_ready
  received-send_calib_ready id val b s h p =
      received-calib_ready id 4 (send_calib_ready id val b).sending_frame.payload s h
      ∙ ap (λ v. on_calib_ready id v s) (send_calib_ready-value id val b p)

  -- A command that the hub passes on: the node that receives the request executes it, and answers with
  -- one frame, the last that it sends; when the hub receives that frame it has the result.
  -- The ids are bytes, the command's fields are in range, and the result has 32 bits.
  pub remote-execute_command :
      (hub : ℕ) (c : Command) (b : Board) (t h : Firmware F)
      → hub < 256
      → t.nodes.node_id < 256
      → Command.IsValid c
      → (execute_command reading ms indeterminate c t).1 < 4294967296
      → let request = (send_command_request hub c.destination c b).sending_frame in
        let (t', value) = execute_command reading ms indeterminate c t in
        let answered = received reading ms indeterminate request t in
        let response = answered.board.sending_frame in
        (answered.board.can_out ≡ t'.board.can_out ++ response ∷ [])
        × (received reading ms indeterminate response h
            ≡ received_command_response_from_can value h)
  unfolding send_command_request on_commands_request on_board send_command_response
  remote-execute_command hub c b t h hub_byte byte v small =
      let bytes = to_byte_array c ++ drop 6 b.sending_frame.payload in
      let same = execute_command-node_id reading ms indeterminate c t in
      let t' = (execute_command reading ms indeterminate c t).0 in
      let value = (execute_command reading ms indeterminate c t).1 in
      let reached : received reading ms indeterminate
            (send_command_request hub c.destination c b).sending_frame t
          ≡ on_board (send_command_response t'.nodes.node_id hub value) t' =
        received-request hub c.destination 6 bytes t hub_byte v.destination_byte
        ∙ ap
            (λ k.
              let (s', value) = execute_command reading ms indeterminate k t in
              on_board (send_command_response s'.nodes.node_id hub value) s')
            (of_buffer-to_byte_array c (drop 6 b.sending_frame.payload) v) in
      (
        ap (λ s. s.board.can_out) reached
            ∙ ap (λ f. t'.board.can_out ++ f ∷ []) (sym (ap (λ s. s.board.sending_frame) reached)),
        ap (λ s. received reading ms indeterminate s.board.sending_frame h) reached
            ∙ received-response t'.nodes.node_id hub 4
                (word_bytes value ++ drop 4 t'.board.sending_frame.payload) h (omega (arith, same))
                hub_byte
            ∙ ap (λ w. received_command_response_from_can w h)
                (bytes_word-word_bytes value (drop 4 t'.board.sending_frame.payload) small),
      )
