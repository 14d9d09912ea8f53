-- ===== src/Server.antt =====
-- `class Server` of SCDTR-PC/SCDTR-PC/Server.cpp: the state of the program on the PC.
-- Its mutexes guard single operations, which are the steps here.
pub mod Queue
pub mod Frequent
pub mod Parser
use scdtr_project.Prelude.{ℕ, Bool, Option, List, [], ◌∷◌, ◌++◌}
use scdtr_project.Prelude.Int.{ℤ}
use scdtr_project.Command.{Command, to_byte_array}
use scdtr_project.LastMinuteBuffer.{LastMinuteBuffer, Printed}

-- A client session; none is the console of the server, the null pointer.
abbrev pub Client : Type 0
Client = Option ℕ

-- `struct CommandQueueElement`
pub record QueueElement : Type 0 where
  pub command : Command
  pub client : Client

-- The errors of `input_exception`.
pub data Failure : Type 0 where
  destination_not_integer invalid_destination : Failure
  destination_not_present : ℕ → Failure
  invalid_command no_valid_argument : Failure
  not_valid_for_total : ℕ → Failure
  not_a_number not_0_or_1 : Failure

-- A text for a client: the answer to a command, a streamed value, and the texts for a new client.
pub data Text {ℓ} (F : Type ℓ) : Type ℓ where
  occupancy : ℕ → ℕ → Text F
  value_of : ℕ → ℕ → F → Text F
  ack err : Text F
  failure : Failure → Text F
  unknown_command must_be_buffer : List ℕ → Text F
  printed_values : List (Printed F) → Text F
  already_saving started_saving stopped_saving : Text F
  streamed : Printed F → Text F
  welcome client_connected empty_text : Text F

-- What a node streams to a client: PWM values, iluminance.
pub record ActiveStream : Type 0 where
  pub to_client : Client
  pub streaming_pwm : Bool
  pub streaming_iluminance : Bool

-- A line of the file of saved values: node, milliseconds since the start, percentage, iluminance.
pub record FileRow {ℓ} (F : Type ℓ) : Type ℓ where
  pub row_node : ℕ
  pub row_millis : ℤ
  pub row_pwm : F
  pub row_iluminance : F

-- The byte streams and the texts are those written so far, oldest first.
pub record Server {ℓ} (F : Type ℓ) : Type ℓ where
  pub node_ids : List ℕ
  pub commands_queue : List QueueElement
  pub client_sessions : List ℕ
  pub expected_number_of_reset_ack : ℕ
  pub number_of_reset_ack_received : ℕ
  -- `timerCommandTimeout` waits.
  pub timer_running : Bool
  pub unfinished_serial_string : List ℕ
  pub writing_to_file : Bool
  -- `millisFileWritingStated`, and what has gone to `fileOutput` since it was opened
  pub file_writing_started : ℕ
  pub file_output : List (FileRow F)
  -- The map from a node, where a node with no key has no streams.
  pub active_streams : ℕ → List ActiveStream
  pub last_minute_buffer : LastMinuteBuffer F
  pub serial_out : List ℕ
  pub text_out : List (Client × Text F)

-- A command as it goes to the hub: a sync byte, and its six bytes.
unfoldable pub command_message : Command → List ℕ
unfolding to_byte_array
command_message c = 255 ∷ to_byte_array c

module _ {ℓ} {F : Type ℓ} where
  unfoldable pub write_to_serial_port : List ℕ → Server F → Server F
  write_to_serial_port bytes s = record s { serial_out = s.serial_out ++ bytes }

  -- `sendMessage`, or `cout`
  unfoldable pub write_text : Client → Text F → Server F → Server F
  write_text client text s = record s { text_out = s.text_out ++ (client, text) ∷ [] }
