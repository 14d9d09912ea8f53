-- ===== src/Session.antt =====
-- The sessions of the server: SCDTR-PC/SCDTR-PC/ServerConnection.cpp, and the console and the
-- acceptor of SCDTR-PC/SCDTR-PC/Server.cpp. What boost::asio calls is an event here.
pub mod Kept
pub mod Streams
pub mod Serving
pub mod Typed
pub mod Events
use scdtr_project.Prelude.{
  ℕ, ◌+◌, Bool, true, false, none, some, List, [], ◌∷◌, ◌++◌, ltb, ◌==◌, if◌then◌else◌, length,
  take, drop,
}
use scdtr_project.Float.{Float}
use scdtr_project.Server.{Server, Client, welcome, client_connected, write_text}
use scdtr_project.Server.Queue.{add_command_to_queue, command_timed_out, remove_client_session}
use scdtr_project.Server.Frequent.{Clock}
use scdtr_project.Server.Parser.{handle_read_serial}
use scdtr_project.Interpreter.{interpret_command}

-- `ServerConnection`: the buffer `recevied`, of 1024 bytes, and whether a read is under way.
pub record Connection : Type 0 where
  pub received : List ℕ
  pub reading : Bool

-- The server with its sessions, which are numbered as they are made, and whether `io_context` runs.
pub record Pc {ℓ} (F : Type ℓ) : Type ℓ where
  pub server : Server F
  pub connections : ℕ → Connection
  pub sessions_made : ℕ
  pub running : Bool

-- What can happen at the server, in milliseconds where the clock is read.
pub data Event : Type 0 where
  accepts : List ℕ → Event
  reads : ℕ → ℕ → List ℕ → Event
  closes : ℕ → ℕ → Event
  types : ℕ → List ℕ → Event
  hears : Clock → List ℕ → Event
  times_out : Event

-- `std::string(recevied)`: up to the first 0. (The source reads on behind a buffer with no 0.)
abbrev pub c_string : List ℕ → List ℕ
c_string [] = []
c_string (c ∷ s) = let rest = c_string s in if c == 0 then [] else c ∷ rest

-- The size of `recevied`.
abbrev pub received_size : ℕ
received_size = 1024

-- A read takes what waits, up to the size of the buffer, and writes it over the beginning. What does
-- not fit waits for the next read.
abbrev pub store : List ℕ → List ℕ → List ℕ
store waiting buffer = let chunk = take received_size waiting in chunk ++ drop (length chunk) buffer

module _ {ℓ} {F : Type ℓ} where
  abbrev pub set_connection : ℕ → Connection → Pc F → Pc F
  set_connection c connection pc = record pc {
    connections = λ i. if i == c then connection else pc.connections i;
  }

  -- `start_receive_read`; `stale` is what stands in the buffer.
  unfoldable pub start_receive_read : ℕ → List ℕ → Pc F → Pc F
  start_receive_read c stale pc = set_connection c (record { received = stale; reading = true }) pc

  -- `start`
  unfoldable pub start_session : ℕ → List ℕ → Pc F → Pc F
  unfolding start_receive_read write_text
  start_session c stale pc = start_receive_read c stale (record pc {
    server = write_text none client_connected (write_text (some c) welcome pc.server);
  })

  -- The handler in `tcp_start_accept`.
  unfoldable pub accept : List ℕ → Pc F → Pc F
  unfolding start_session
  accept stale pc =
      let c = pc.sessions_made in
      start_session c stale (record pc {
        server = record pc.server { client_sessions = pc.server.client_sessions ++ c ∷ [] };
        sessions_made = c + 1;
      })

  -- The handler in `sendMessage`, for an error. (A session that has left already is erased again,
  -- which the source does not check.)
  unfoldable pub send_failed : ℕ → Pc F → Pc F
  unfolding remove_client_session
  send_failed c pc = record pc { server = remove_client_session c pc.server }

  unfoldable pub quit : Pc F → Pc F
  quit pc = record pc { running = false }

module _ {ℓ} {F : Type ℓ} ⦃d : Float F⦄ where
  -- A line is interpreted, and the command that comes of it, if any, goes to the queue.
  unfoldable pub take_line : ℕ → List ℕ → Client → Server F → Server F
  unfolding interpret_command add_command_to_queue
  take_line now line client s =
      let (s', command) = interpret_command now line client s in
      if command.cmd == 0 then s' else add_command_to_queue command client s'

  -- The handler in `start_receive_read`; `waiting` is what has come in at the socket.
  unfoldable pub receive_read : ℕ → ℕ → Bool → List ℕ → Pc F → Pc F
  unfolding take_line remove_client_session start_receive_read
  receive_read now c failed waiting pc =
      let buffer = store waiting (pc.connections c).received in
      let s = if failed then remove_client_session c pc.server else pc.server in
      if ltb 0 (length waiting)
      then start_receive_read c buffer
          (record pc { server = take_line now (c_string buffer) (some c) s })
      else set_connection c (record { received = buffer; reading = false })
          (record pc { server = s })

  -- The handler in `start_read_console`.
  unfoldable pub read_console : ℕ → List ℕ → Pc F → Pc F
  unfolding interpret_command add_command_to_queue quit
  read_console now line pc =
      let (s', command) = interpret_command now line none pc.server in
      if command.cmd == b'q'
      then quit (record pc { server = s' })
      else if command.cmd == 0
      then record pc { server = s' }
      else record pc { server = add_command_to_queue command none s' }

  -- A read ends, with data or with an error, only where one is under way; the timer runs out only if
  -- it runs.
  unfoldable pub handle : Event → Pc F → Pc F
  unfolding accept receive_read read_console handle_read_serial command_timed_out
  handle (accepts stale) pc = accept stale pc
  handle (reads now c chunk) pc =
      if (pc.connections c).reading then receive_read now c false chunk pc else pc
  handle (closes now c) pc =
      if (pc.connections c).reading then receive_read now c true [] pc else pc
  handle (types now line) pc = read_console now line pc
  handle (hears clock bytes) pc = record pc { server = handle_read_serial clock bytes pc.server }
  handle times_out pc =
      if pc.server.timer_running then record pc { server = command_timed_out pc.server } else pc

  -- After `stop` nothing is handled.
  unfoldable pub happen : Event → Pc F → Pc F
  unfolding handle
  happen e pc = if pc.running then handle e pc else pc

  unfoldable pub happen_all : List Event → Pc F → Pc F
  happen_all [] pc = pc
  happen_all (e ∷ events) pc = happen_all events (happen e pc)
