-- ===== src/Server/Queue.antt =====
-- The queue of commands of SCDTR-PC/SCDTR-PC/Server.cpp: a command is sent when the one before it has
-- been answered or has timed out.
pub mod Waiting
pub mod Order
pub mod Liveness
use scdtr_project.Prelude.{
  ℕ, ◌+◌, Bool, true, false, ◌&&◌, ◌||◌, Option, none, some, List, [], ◌∷◌, ◌++◌, ltb, ◌==◌,
  if◌then◌else◌, length, drop, is_in,
}
use scdtr_project.Float.{Float}
use scdtr_project.Command.{Command, get_type, get_float_value}
use scdtr_project.Server.{empty_text}
use scdtr_project.Server.{
  Server, QueueElement, ActiveStream, Client, Text, occupancy, value_of, ack, err,
  write_to_serial_port, command_message,
}

-- `erase(find(...))`: the first entry of that session goes. (The source has it in the list.)
unfoldable pub erase_session : ℕ → List ℕ → List ℕ
erase_session c [] = []
erase_session c (x ∷ xs) = if x == c then xs else x ∷ erase_session c xs

unfoldable pub is_client : ℕ → Client → Bool
is_client c none = false
is_client c (some x) = x == c

-- `map::erase` by key
unfoldable pub erase_stream : ℕ → List ActiveStream → List ActiveStream
unfolding is_client
erase_stream c [] = []
erase_stream c (a ∷ more) =
    let rest = erase_stream c more in if is_client c a.to_client then rest else a ∷ rest

-- Whether the client has a session. The console never disconnects.
unfoldable pub is_connected : Client → List ℕ → Bool
is_connected none sessions = true
is_connected (some c) sessions = is_in c sessions

module _ {ℓ} {F : Type ℓ} where
  -- The end of `executeNextInCommandQueue` for the first command: it is sent, and the timer starts.
  unfoldable pub send_command : Command → Server F → Server F
  unfolding write_to_serial_port command_message
  send_command c s = record (write_to_serial_port (command_message c) s) {
    number_of_reset_ack_received = (if c.cmd == b'r' then 0 else s.number_of_reset_ack_received);
    expected_number_of_reset_ack =
        (if c.cmd == b'r' then length s.node_ids else s.expected_number_of_reset_ack);
    timer_running = true;
  }

  -- `executeNextInCommandQueue` on a queue: commands of clients that have left are removed.
  unfoldable pub execute_queue : List QueueElement → Server F → Server F
  unfolding send_command is_connected
  execute_queue [] s = record s { commands_queue = [] }
  execute_queue (e ∷ q) s =
      let next = execute_queue q s in
      if is_connected e.client s.client_sessions
      then send_command e.command (record s { commands_queue = e ∷ q })
      else next

  unfoldable pub execute_next_in_command_queue : Server F → Server F
  unfolding execute_queue
  execute_next_in_command_queue s = execute_queue s.commands_queue s

  unfoldable pub add_command_to_queue : Command → Client → Server F → Server F
  unfolding execute_next_in_command_queue
  add_command_to_queue c client s =
      let s' : Server F = record s {
        commands_queue = s.commands_queue ++ record { command = c; client = client } ∷ [];
      } in
      if length s'.commands_queue == 1 then execute_next_in_command_queue s' else s'

  -- The timer has run out. (The source removes the first command of any queue.)
  unfoldable pub command_timed_out : Server F → Server F
  unfolding execute_next_in_command_queue
  command_timed_out s =
      execute_next_in_command_queue
        (record s { commands_queue = drop 1 s.commands_queue; timer_running = false })

  -- The part of `removeClientSession` on the sessions and the streams.
  unfoldable pub remove_client_session : ℕ → Server F → Server F
  unfolding erase_session erase_stream
  remove_client_session c s = record s {
    client_sessions = erase_session c s.client_sessions;
    active_streams = λ id. erase_stream c (s.active_streams id);
  }

module _ {ℓ} {F : Type ℓ} ⦃d : Float F⦄ where
  -- The text of an answer, if the command has one.
  unfoldable pub response_text : Command → ℕ → Option (Text F)
  unfolding get_type
  response_text c value =
      if c.cmd == b'g'
      then some (
          if get_type c == b'o'
          then occupancy c.destination value
          else value_of (get_type c) c.destination (d.of_bits value))
      else if c.cmd == b'o'
          || c.cmd == b'O'
          || c.cmd == b'U'
          || c.cmd == b'c'
          || c.cmd == b's'
          || c.cmd == b'r'
      then some (if value == 1 then ack else err)
      else none

  -- The texts to a client for an answer: an answer with no text goes to a session as an empty one.
  abbrev pub texts_for : Client → Option (Text F) → List (Client × Text F)
  texts_for none none = []
  texts_for (some c) none = (some c, empty_text) ∷ []
  texts_for client (some text) = (client, text) ∷ []

  unfoldable pub write_response : Client → Option (Text F) → Server F → Server F
  write_response client text s = record s { text_out = s.text_out ++ texts_for client text }

  -- `receivedCommandResponse` with a command `e` in front. A reset waits for as many
  -- acknowledgements as there are nodes.
  unfoldable pub answer_command : ℕ → QueueElement → List QueueElement → Server F → Server F
  unfolding response_text write_response execute_next_in_command_queue
  answer_command value e q s =
      let acks =
        if e.command.cmd == b'r' && value == 1
        then s.number_of_reset_ack_received + 1
        else s.number_of_reset_ack_received in
      let counted : Server F = record s { number_of_reset_ack_received = acks } in
      if e.command.cmd == b'r' && ltb acks s.expected_number_of_reset_ack
      then counted
      else execute_next_in_command_queue
          (record (write_response e.client (response_text e.command value) counted) {
            commands_queue = q;
            timer_running = false;
          })

  unfoldable pub answer_queue : ℕ → List QueueElement → Server F → Server F
  unfolding answer_command
  answer_queue value [] s = s
  answer_queue value (e ∷ q) s = answer_command value e q s

  unfoldable pub received_command_response : ℕ → Server F → Server F
  unfolding answer_queue
  received_command_response value s = answer_queue value s.commands_queue s
