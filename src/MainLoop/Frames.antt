-- ===== src/MainLoop/Frames.antt =====
-- The frames that a node receives, and its reference and its id.
use scdtr_project.Prelude.{ℕ, ◌∙◌, inl, inr, List, ◌==◌, if◌then◌else◌, Bool-cases}
use scdtr_project.Frame.{Frame, msg_type, sender}
use scdtr_project.MsgType
use scdtr_project.Float.{Float}
use scdtr_project.Command.{of_buffer}
use scdtr_project.Comm.{bytes_word}
use scdtr_project.Comm.Packet.{forward_frequent_data}
use scdtr_project.Nodes.Roster.{register_new_node-node_id}
use scdtr_project.Firmware.{Firmware, on_board, consensus_init}
use scdtr_project.SerialComm.{received_command_response_from_can}
use scdtr_project.Receive.{
  on_wakeup, on_calib_ready, on_calib_led_on, on_is_hub_node, on_no_longer_is_hub_node,
  on_consensus, on_commands_request, received,
}
use scdtr_project.MainLoop.Node.{
  IsGood, IsGood-if, consensus_init-IsGood, received_command_response_from_can-IsGood,
  execute_command-IsGood,
}

module _ {ℓ} {F : Type ℓ} ⦃d : Float F⦄ (reading ms indeterminate : ℕ) where
  on_wakeup-IsGood : (id from : ℕ) (s : Firmware F) → IsGood id s → IsGood id (on_wakeup from s)
  unfolding on_wakeup on_board
  on_wakeup-IsGood id from s (own, in_force, agreed) =
      (register_new_node-node_id from s.nodes ∙ own, in_force, agreed)

  on_no_longer_is_hub_node-IsGood :
      (id from : ℕ) (s : Firmware F) → IsGood id s → IsGood id (on_no_longer_is_hub_node from s)
  unfolding on_no_longer_is_hub_node
  on_no_longer_is_hub_node-IsGood id from s g = elim (Bool-cases (s.nodes.hub_node == from)) [
    | inl t ↦ rw t g
    | inr f ↦ rw f g
  ]

  on_commands_request-IsGood :
      (id from : ℕ) (bytes : List ℕ) (s : Firmware F)
      → IsGood id s
      → IsGood id (on_commands_request reading ms indeterminate from bytes s)
  unfolding on_commands_request on_board
  on_commands_request-IsGood id from bytes s g =
      execute_command-IsGood reading ms indeterminate id (of_buffer bytes) s g

  pub received-IsGood :
      (id : ℕ) (f : Frame) (s : Firmware F)
      → IsGood id s
      → IsGood id (received reading ms indeterminate f s)
  unfolding received on_calib_ready on_calib_led_on on_is_hub_node on_consensus on_board
  received-IsGood id f s g =
      let restarts = if msg_type f == MsgType.do_consensus then consensus_init s else s in
      let m = if msg_type f == MsgType.consensus then on_consensus f.payload s else restarts in
      let l =
        if msg_type f == MsgType.commands_response
        then received_command_response_from_can (bytes_word f.payload) s
        else m in
      let k =
        if msg_type f == MsgType.commands_request
        then on_commands_request reading ms indeterminate (sender f) f.payload s
        else l in
      let j =
        if msg_type f == MsgType.no_longer_is_hub_node
        then on_no_longer_is_hub_node (sender f) s
        else k in
      let i =
        if msg_type f == MsgType.frequent_data
        then on_board (forward_frequent_data f.payload) s
        else j in
      let h = if msg_type f == MsgType.is_hub_node then on_is_hub_node (sender f) s else i in
      let e = if msg_type f == MsgType.calib_led_on then on_calib_led_on s else h in
      let ready = on_calib_ready (sender f) (d.of_bits (bytes_word f.payload)) s in
      let c = if msg_type f == MsgType.calib_ready then ready else e in
      IsGood-if id (msg_type f == MsgType.wakeup_broadcast) (on_wakeup (sender f) s) c
        (on_wakeup-IsGood id (sender f) s g)
        (IsGood-if id (msg_type f == MsgType.calib_ready) ready e g (
          IsGood-if id (msg_type f == MsgType.calib_led_on) (on_calib_led_on s) h g (
            IsGood-if id (msg_type f == MsgType.is_hub_node) (on_is_hub_node (sender f) s) i g (
              IsGood-if id (msg_type f == MsgType.frequent_data)
                (on_board (forward_frequent_data f.payload) s) j g
                (IsGood-if id (msg_type f == MsgType.no_longer_is_hub_node)
                  (on_no_longer_is_hub_node (sender f) s) k
                  (on_no_longer_is_hub_node-IsGood id (sender f) s g)
                  (IsGood-if id (msg_type f == MsgType.commands_request)
                    (on_commands_request reading ms indeterminate (sender f) f.payload s) l
                    (on_commands_request-IsGood id (sender f) f.payload s g)
                    (IsGood-if id (msg_type f == MsgType.commands_response)
                      (received_command_response_from_can (bytes_word f.payload) s) m
                      (received_command_response_from_can-IsGood id (bytes_word f.payload) s g)
                      (IsGood-if id (msg_type f == MsgType.consensus) (on_consensus f.payload s)
                        restarts g
                        (IsGood-if id (msg_type f == MsgType.do_consensus) (consensus_init s) s
                          (consensus_init-IsGood id s g) g)))))))))
