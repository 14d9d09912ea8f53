-- ===== src/Comm/RoundTrip.antt =====
-- What a receiver reads out of the frames of `Comm`.
use scdtr_project.Prelude.{ℕ, ◌^◌, ◌<◌, ◌≡◌, refl, ap, ◌∙◌, List, ◌∷◌, ◌++◌, arith, drop}
use scdtr_project.Float.{Float, IsPacked}
use scdtr_project.Board.{Board}
use scdtr_project.Command.{Command, of_buffer}
use scdtr_project.Command
use scdtr_project.Command.RoundTrip.{of_buffer-to_byte_array}
use scdtr_project.Comm.{
  word_bytes, bytes_word, send_command_request, send_command_response, send_calib_ready,
}
use scdtr_project.Comm.Packet.{
  Packet, packet_bytes, packet_of_buffer, send_on_serial, send_frequent_data_to_hub,
  forward_frequent_data,
}

-- A 32-bit word survives its four bytes, whatever follows them.
pub bytes_word-word_bytes :
    (w : ℕ) (rest : List ℕ) → w < 2 ^ 32 → bytes_word (word_bytes w ++ rest) ≡ w
unfolding bytes_word word_bytes
bytes_word-word_bytes w rest h = omega arith

-- A command response carries the value.
pub send_command_response-value :
    (node_id sender value : ℕ) (b : Board)
    → value < 2 ^ 32
    → bytes_word (send_command_response node_id sender value b).sending_frame.payload ≡ value
unfolding send_command_response
send_command_response-value node_id sender value b h =
    bytes_word-word_bytes value (drop 4 b.sending_frame.payload) h

-- A calibration message carries the reading.
pub send_calib_ready-value {ℓ} :
    {F : Type ℓ} ⦃d : Float F⦄ (node_id : ℕ) (val : F) (b : Board)
    → IsPacked val
    → d.of_bits (bytes_word (send_calib_ready node_id val b).sending_frame.payload) ≡ val
unfolding send_calib_ready
send_calib_ready-value ⦃d⦄ node_id val b (small, back) =
    ap d.of_bits (bytes_word-word_bytes (d.to_bits val) (drop 4 b.sending_frame.payload) small)
    ∙ back

-- A command request carries the command.
pub send_command_request-command :
    (node_id destination : ℕ) (c : Command) (b : Board)
    → Command.IsValid c
    → of_buffer (send_command_request node_id destination c b).sending_frame.payload ≡ c
unfolding send_command_request
send_command_request-command node_id destination c b v =
    of_buffer-to_byte_array c (drop 6 b.sending_frame.payload) v

-- The hub writes the same bytes for a packet that reached it over the bus as for one of its own.
pub forward_frequent_data-send_on_serial :
    (node_id hub_node : ℕ) (p : Packet) (b c : Board)
    → (forward_frequent_data
        (send_frequent_data_to_hub node_id hub_node p b).sending_frame.payload
        c)
      ≡ send_on_serial p c
unfolding forward_frequent_data send_frequent_data_to_hub send_on_serial
forward_frequent_data-send_on_serial node_id hub_node p b c = refl

-- The constructor from a buffer does not undo `toByteArray`: it never sees the PWM value of a packet
-- of four bytes, with an illuminance of 16 bits, and takes what stands in the sixth byte of the buffer.
pub packet_of_buffer-packet_bytes :
    (p : Packet) (x y : ℕ) (rest : List ℕ)
    → p.iluminance_short < 2 ^ 16
    → packet_of_buffer (packet_bytes p ++ x ∷ y ∷ rest) ≡ record p { pwm = y }
unfolding packet_of_buffer packet_bytes
packet_of_buffer-packet_bytes p x y rest h = ground arith
