-- ===== src/Tests/Sessions.antt =====
-- Sessions of the server, and what goes to its file.
use scdtr_project.Prelude.{
  ℕ, ◌+◌, ◌≤◌, ◌≡◌, refl, true, false, none, some, List, [], ◌∷◌, ◌++◌, arith, length, All, is_in,
}
use scdtr_project.Prelude.Int.{ℤ, pos}
use scdtr_project.Float.Fixed.{fixed}
use scdtr_project.Server.{Server}
use scdtr_project.Server.Queue.{add_command_to_queue, is_client}
use scdtr_project.Server.Queue.Waiting.{IsWaiting}
use scdtr_project.Server.Queue.Liveness.{answer, timeout, leave}
use scdtr_project.Server.Queue.Liveness
use scdtr_project.Interpreter.{start_save, stop_save, interpret_command}
use scdtr_project.Interpreter.Saving.{Arrival, receive_all, file_rows, interpret_command-saves}
use scdtr_project.Interpreter.Outcome.{IsOutcome, interpret_command-IsOutcome}
use scdtr_project.Session.{Pc, accepts, reads, closes, happen, happen_all, take_line, receive_read}
use scdtr_project.Session.Serving.{IsServing}
use scdtr_project.Session.Events.{happen_all-IsServing, happen-closes}
use scdtr_project.Client.{ClientProgram, text, handle_read_input, read_socket}
use scdtr_project.Client.Lines.{client-line}
use scdtr_project.Command.{typed_command}
use scdtr_project.Tests.Data.{server}

-- Client 8 and the console have asked for the iluminance at node 5.
abbrev asked : Server ℤ
asked =
    add_command_to_queue (typed_command b'g' 5 b'I') none
      (add_command_to_queue (typed_command b'g' 5 b'I') (some 8) server)

asked-IsWaiting : IsWaiting asked
unfolding add_command_to_queue
asked-IsWaiting = refl

asked-two : length asked.commands_queue ≤ 2
unfolding add_command_to_queue
asked-two = omega arith

happen_all-ends_example :
    let s' = Liveness.happen_all (timeout ∷ answer 7 ∷ leave 8 ∷ timeout ∷ []) asked in
    (s'.commands_queue ≡ []) × (s'.timer_running ≡ false)
happen_all-ends_example =
    Liveness.happen_all-ends (timeout ∷ answer 7 ∷ leave 8 ∷ timeout ∷ []) asked asked-IsWaiting
      asked-two

abbrev arrival : ℕ → Arrival ℤ
arrival pwm = record {
  clock = record { millis = 5000 + pwm; time_now = 5; later = 5 };
  node = 5;
  values = record { pwm = pwm; iluminance = pos 20000 };
}

interpret_command-saves_example :
    let started = (interpret_command 5000 (start_save ++ b'd' ∷ []) none server).0 in
    let saved = receive_all (arrival 10 ∷ arrival 20 ∷ []) started in
    let stopped = (interpret_command 6000 (stop_save ++ []) (some 8) saved).0 in
    (receive_all (arrival 30 ∷ []) stopped).file_output
    ≡ file_rows 5000 (arrival 10 ∷ arrival 20 ∷ [])
interpret_command-saves_example =
    interpret_command-saves 5000 6000 (b'd' ∷ []) [] none (some 8) (arrival 10 ∷ arrival 20 ∷ [])
      (arrival 30 ∷ []) server refl

-- "g I 9": a node that the server does not know.
abbrev unknown_node : List ℕ
unknown_node = b'g' ∷ b' ' ∷ b'I' ∷ b' ' ∷ b'9' ∷ []

interpret_command-IsOutcome_example :
    IsOutcome (some 8) server (interpret_command 1000 unknown_node (some 8) server)
interpret_command-IsOutcome_example = interpret_command-IsOutcome 1000 unknown_node (some 8) server

-- The server before any client has come.
abbrev pc : Pc ℤ
pc = record {
  server = record server { client_sessions = [] };
  connections = λ c. record { received = []; reading = false };
  sessions_made = 0;
  running = true;
}

pc-IsServing : IsServing pc
pc-IsServing = record { made = tt; distinct = tt; read = λ c on. cc; streamed = λ id. tt }

-- A client comes, turns a stream on, and another comes.
abbrev stream_line : List ℕ
stream_line = b's' ∷ b' ' ∷ b'd' ∷ b' ' ∷ b'5' ∷ []

abbrev two_clients : Pc ℤ
two_clients = happen_all (accepts [] ∷ reads 1000 0 (stream_line ++ 0 ∷ []) ∷ accepts [] ∷ []) pc

happen_all-IsServing_example : IsServing two_clients
happen_all-IsServing_example =
    happen_all-IsServing (accepts [] ∷ reads 1000 0 (stream_line ++ 0 ∷ []) ∷ accepts [] ∷ []) pc
      pc-IsServing

happen-closes_example :
    let pc' = happen (closes 2000 0) two_clients in
    (is_in 0 pc'.server.client_sessions ≡ false)
    × ((id : ℕ) → All (λ a. is_client 0 a.to_client ≡ false) (pc'.server.active_streams id))
    × ((pc'.connections 0).reading ≡ false)
unfolding happen_all happen
happen-closes_example =
    happen-closes 2000 0 two_clients
      (happen_all-IsServing (accepts [] ∷ reads 1000 0 (stream_line ++ 0 ∷ []) ∷ accepts [] ∷ []) pc
        pc-IsServing)
      refl refl

abbrev client : ClientProgram
client = record {
  running = true;
  received = 1 ∷ 2 ∷ 3 ∷ [];
  socket_out = [];
  console_out = [];
  socket_reading = true;
  console_reading = false;
}

client-line_example :
    let bytes = stream_line ++ 0 ∷ [] in
    ((handle_read_input 5 stream_line client).socket_out ≡ client.socket_out ++ bytes)
    × ((receive_read 1000 0 false (bytes ++ b'x' ∷ []) two_clients).server
        ≡ take_line 1000 stream_line (some 0) two_clients.server)
    × ((read_socket false (bytes ++ b'x' ∷ []) client).console_out
        ≡ client.console_out ++ text stream_line ∷ [])
client-line_example =
    client-line 1000 0 stream_line (b'x' ∷ []) client two_clients (omega arith) (omega arith)
      (omega arith) refl
