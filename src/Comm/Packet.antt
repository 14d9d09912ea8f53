-- ===== src/Comm/Packet.antt =====
-- `SerialFrequentDataPacket` of include/serialComm.h.
use scdtr_project.Prelude.{ℕ, ◌+◌, ◌*◌, ◌/◌, ◌%◌, List, [], ◌∷◌, get_or}
use scdtr_project.MsgType
use scdtr_project.Frame.{can_message_id}
use scdtr_project.Float.{Float, nat}
use scdtr_project.Board.{Board, send_frame, fill_frame, serial_write}

pub record Packet : Type 0 where
  pub node : ℕ
  -- The illuminance in tenths of a lux, a `uint16_t`.
  pub iluminance_short : ℕ
  -- An `int8_t`, kept as its byte.
  pub pwm : ℕ

-- The constructor from a reading.
unfoldable pub new_packet {ℓ} : {F : Type ℓ} ⦃d : Float F⦄ → ℕ → F → ℕ → Packet
new_packet ⦃d⦄ node iluminance pwm = record {
  node = node;
  iluminance_short = d.trunc_u16 (d.mul iluminance (nat 10));
  pwm = pwm;
}

unfoldable pub packet_bytes : Packet → List ℕ
packet_bytes p = p.node ∷ (p.iluminance_short % 256) ∷ (p.iluminance_short / 256 % 256) ∷ p.pwm ∷ []

-- The constructor from a buffer. It reads the PWM value at position 5.
unfoldable pub packet_of_buffer : List ℕ → Packet
packet_of_buffer b = record {
  node = get_or b 0 0;
  iluminance_short = get_or b 1 0 + get_or b 2 0 * 256;
  pwm = get_or b 5 0;
}

-- `sendOnSerial`
unfoldable pub send_on_serial : Packet → Board → Board
unfolding serial_write packet_bytes
send_on_serial p b = serial_write (255 ∷ b'F' ∷ packet_bytes p) b

-- `Communication::sendFrequentDataToHub`
unfoldable pub send_frequent_data_to_hub : ℕ → ℕ → Packet → Board → Board
unfolding send_frame fill_frame packet_bytes
send_frequent_data_to_hub node_id hub_node p b =
    send_frame
      (fill_frame (can_message_id node_id hub_node MsgType.frequent_data) 4 (packet_bytes p) b)

-- What the hub writes on its serial port for a frame of frequent data.
unfoldable pub forward_frequent_data : List ℕ → Board → Board
unfolding serial_write
forward_frequent_data payload b =
    serial_write
      (255
        ∷ b'F'
        ∷ get_or payload 0 0
        ∷ get_or payload 1 0
        ∷ get_or payload 2 0
        ∷ get_or payload 3 0
        ∷ [])
      b
