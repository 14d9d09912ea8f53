-- ===== src/Board.antt =====
-- What the firmware does to the world outside: the PWM value of the LED pin, the frames handed to
-- `MCP2515::sendMessage`, the bytes written to the serial port, and the frame
-- `Communication::sendingFrame`, whose data bytes stay from one message to the next.
-- A frame counts as sent when it is handed over: the sources print the driver's error and go on.
-- Debug text on the serial port, which never holds the byte 255, is left out.
use scdtr_project.Prelude.{ℕ, List, [], ◌∷◌, ◌++◌, length, drop}
use scdtr_project.Frame.{Frame}

pub record Board : Type 0 where
  pub led_pwm : ℕ
  pub sending_frame : Frame
  pub can_out : List Frame
  pub serial_out : List ℕ

-- `Communication::sendFrame`
unfoldable pub send_frame : Board → Board
send_frame b = record b { can_out = b.can_out ++ b.sending_frame ∷ [] }

-- `analogWrite(LED_PIN, pwm)`
unfoldable pub analog_write : ℕ → Board → Board
analog_write pwm b = record b { led_pwm = pwm }

-- `Serial.write`, byte by byte
unfoldable pub serial_write : List ℕ → Board → Board
serial_write bytes b = record b { serial_out = b.serial_out ++ bytes }

-- Sets the id and the length of the frame to send, and the data bytes from the first on.
unfoldable pub fill_frame : ℕ → ℕ → List ℕ → Board → Board
fill_frame id dlc bytes b = record b {
  sending_frame = record {
    can_id = id;
    can_dlc = dlc;
    payload = bytes ++ drop (length bytes) b.sending_frame.payload;
  };
}
