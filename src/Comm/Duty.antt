-- ===== src/Comm/Duty.antt =====
-- The duty-cycle vector of the consensus, three values to a frame:
-- `Communication::sendConsensusDutyCycle` and the CAN_CONSENSUS branch of `received`.
pub mod Frames
pub mod Delivery
use scdtr_project.Prelude.{
  ℕ, zero, suc, ◌+◌, ◌-◌, ◌*◌, ◌/◌, ◌%◌, List, leb, if◌then◌else◌, get_or, set,
}
use scdtr_project.Prelude.Int.{signed16}
use scdtr_project.MsgType
use scdtr_project.Frame.{can_message_id}
use scdtr_project.Float.{Float, nat}
use scdtr_project.Board.{Board, send_frame}

-- `(numTotalNodes - 1) / 3 + 1`. In C the division of -1 for no node at all gives 0 too.
unfoldable pub num_messages : ℕ → ℕ
num_messages num_total_nodes = (num_total_nodes - 1) / 3 + 1

-- `(uint16_t)data[i * 2] << 8 | (uint16_t)data[i * 2 + 1]`
abbrev pub duty_at : List ℕ → ℕ → ℕ
duty_at bytes i = get_or bytes (i * 2) 0 * 256 + get_or bytes (i * 2 + 1) 0

module _ {ℓ} {F : Type ℓ} ⦃d : Float F⦄ where
  -- `round(v * 32767 / 300.0)`, an `int16_t`
  unfoldable pub encode_duty : F → ℕ
  encode_duty v = d.round16 (d.div (d.mul v (nat 32767)) (d.ratio 300 1)) % 65536

  -- `aux * 300.0 / 32767`
  unfoldable pub decode_duty : ℕ → F
  decode_duty aux = d.div (d.mul (d.of_int (signed16 aux)) (d.ratio 300 1)) (nat 32767)

  -- The loop over the three values of message `msg_i`, from value `i` on; `break` past the last node.
  pub fill_values : ℕ → ℕ → ℕ → ℕ → List F → List ℕ → List ℕ
  fill_values zero i msg_i n val bytes = bytes
  fill_values (suc rounds) i msg_i n val bytes =
      let aux = encode_duty (get_or val (msg_i * 3 + i) (nat 0)) in
      let rest =
        fill_values rounds (i + 1) msg_i n val
          (set (set bytes (i * 2) (aux / 256)) (i * 2 + 1) (aux % 256)) in
      if leb n (msg_i * 3 + i) then bytes else rest

  -- The data bytes of message `msg_i`, over those of the message before.
  unfoldable pub duty_payload : ℕ → ℕ → List F → List ℕ → List ℕ
  unfolding fill_values
  duty_payload msg_i n val bytes = set (fill_values 3 0 msg_i n val bytes) 6 msg_i

  -- The loop over the messages, from `msg_i` on.
  pub send_messages : ℕ → ℕ → ℕ → List F → Board → Board
  unfolding send_frame duty_payload
  send_messages zero msg_i n val b = b
  send_messages (suc rounds) msg_i n val b = send_messages rounds (msg_i + 1) n val (
      send_frame (record b {
        sending_frame = record {
          can_id = b.sending_frame.can_id;
          can_dlc = b.sending_frame.can_dlc;
          payload = duty_payload msg_i n val b.sending_frame.payload;
        };
      }))

  unfoldable pub send_consensus_duty_cycle : ℕ → ℕ → List F → Board → Board
  unfolding send_messages
  send_consensus_duty_cycle node_id n val b = send_messages (num_messages n) 0 n val (record b {
    sending_frame = record {
      can_id = can_message_id node_id 0 MsgType.consensus;
      can_dlc = 7;
      payload = b.sending_frame.payload;
    };
  })

  -- The body of the receiver's loop: value `i` of a frame goes to a position. The test is `<=`, as in
  -- the source.
  pub receive_one : ℕ → List ℕ → ℕ → ℕ → List F → List F
  receive_one n bytes i pos_in_vector received =
      if leb pos_in_vector n
      then set received pos_in_vector
          (d.add (get_or received pos_in_vector (nat 0)) (decode_duty (duty_at bytes i)))
      else received

  -- The receiver's loop over the three values, from value `i` on.
  pub receive_values : ℕ → ℕ → ℕ → ℕ → List ℕ → List F → List F
  receive_values zero i msg_i n bytes received = received
  receive_values (suc rounds) i msg_i n bytes received =
      receive_values rounds (i + 1) msg_i n bytes
        (receive_one n bytes i ((msg_i * 3 + i) % 256) received)

  -- What a CAN_CONSENSUS frame does to `receivedDutyCycle`.
  unfoldable pub receive_duty : ℕ → List ℕ → List F → List F
  unfolding receive_values
  receive_duty n bytes received = receive_values 3 0 (get_or bytes 6 0) n bytes received
