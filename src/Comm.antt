-- ===== src/Comm.antt =====
-- The messages of src/communication.cpp, sender's side: each function puts one message together in
-- `sendingFrame` and hands it to the bus. The receiver's side is `Receive.received`.
pub mod Duty
pub mod Packet
pub mod RoundTrip
use scdtr_project.Prelude.{ℕ, ◌+◌, ◌*◌, ◌/◌, ◌%◌, ◌^◌, List, [], ◌∷◌, ◌++◌, get_or}
use scdtr_project.MsgType
use scdtr_project.Frame.{Frame, can_message_id}
use scdtr_project.Float.{Float}
use scdtr_project.Board.{Board, send_frame, fill_frame}
use scdtr_project.Command.{Command, to_byte_array}

-- `union Convertion`: the bytes of a `uint32_t` on a little-endian machine, and back.
unfoldable pub word_bytes : ℕ → List ℕ
word_bytes w = (w % 256) ∷ (w / 2 ^ 8 % 256) ∷ (w / 2 ^ 16 % 256) ∷ (w / 2 ^ 24 % 256) ∷ []

unfoldable pub bytes_word : List ℕ → ℕ
bytes_word b = get_or b 0 0 + get_or b 1 0 * 2 ^ 8 + get_or b 2 0 * 2 ^ 16 + get_or b 3 0 * 2 ^ 24

module _ (node_id : ℕ) where
  -- A message of a type alone, to everybody.
  unfoldable pub send_signal : ℕ → Board → Board
  unfolding send_frame fill_frame
  send_signal message_type b =
      send_frame (fill_frame (can_message_id node_id 0 message_type) 0 [] b)

  unfoldable pub send_broadcast_wakeup : Board → Board
  unfolding send_signal
  send_broadcast_wakeup = send_signal MsgType.wakeup_broadcast

  unfoldable pub send_calib_led_on : Board → Board
  unfolding send_signal
  send_calib_led_on = send_signal MsgType.calib_led_on

  unfoldable pub send_do_consensus : Board → Board
  unfolding send_signal
  send_do_consensus = send_signal MsgType.do_consensus

  -- `writeFloat` has a frame of its own; `garbage` is what its last four bytes hold.
  unfoldable pub write_float : List ℕ → ℕ → ℕ → Board → Board
  unfolding word_bytes
  write_float garbage id val b =
      let frame : Frame = record {
        can_id = id;
        can_dlc = 4;
        payload = word_bytes val ++ garbage;
      } in
      record b { can_out = b.can_out ++ frame ∷ [] }

  unfoldable pub send_broadcast_is_hub_node : Board → Board
  unfolding send_signal
  send_broadcast_is_hub_node = send_signal MsgType.is_hub_node

  unfoldable pub send_broadcast_no_longer_is_hub_node : Board → Board
  unfolding send_signal
  send_broadcast_no_longer_is_hub_node = send_signal MsgType.no_longer_is_hub_node

  unfoldable pub send_command_response : ℕ → ℕ → Board → Board
  unfolding send_frame fill_frame word_bytes
  send_command_response sender value b =
      send_frame (
        fill_frame (can_message_id node_id sender MsgType.commands_response) 4 (word_bytes value) b)

  unfoldable pub send_command_request : ℕ → Command → Board → Board
  unfolding send_frame fill_frame to_byte_array
  send_command_request destination command b = send_frame (
      fill_frame (can_message_id node_id destination MsgType.commands_request) 6
        (to_byte_array command) b)

  unfoldable pub send_calib_ready {ℓ} : {F : Type ℓ} ⦃d : Float F⦄ → F → Board → Board
  unfolding send_frame fill_frame word_bytes
  send_calib_ready ⦃d⦄ val b =
      send_frame
        (fill_frame (can_message_id node_id 0 MsgType.calib_ready) 4 (word_bytes (d.to_bits val)) b)
