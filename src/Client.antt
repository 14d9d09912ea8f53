-- ===== src/Client.antt =====
-- SCDTR-PC/SCDTR-PC/Client.cpp: the program with which a user reaches the server from another computer.
pub mod Lines
use scdtr_project.Prelude.{
  ℕ, Bool, true, false, Option, none, some, List, [], ◌∷◌, ◌++◌, ltb, ◌==◌, if◌then◌else◌, length,
  get_or,
}
use scdtr_project.Session.{c_string, store}

-- What the client writes to its console.
pub data Shown : Type 0 where
  text : List ℕ → Shown
  connection_closed write_error : Shown

-- The bytes for the server and the texts are those written so far, oldest first.
pub record ClientProgram : Type 0 where
  pub running : Bool
  pub received : List ℕ
  pub socket_out : List ℕ
  pub console_out : List Shown
  -- Whether a read of the socket, and of the console, is under way.
  pub socket_reading : Bool
  pub console_reading : Bool

-- The loop in `start` over the addresses of the server; for each, whether `connect` gives an error.
unfoldable pub connect : Bool → List Bool → Bool
connect error [] = error
connect error (refuses ∷ more) = let rest = connect refuses more in if error then rest else error

-- `start`; `none` is the exception. `stale` is what stands in the buffer `recevied`.
unfoldable pub start : List Bool → List ℕ → Option ClientProgram
unfolding connect
start addresses stale =
    if connect true addresses
    then none
    else some (record {
      running = true;
      received = stale;
      socket_out = [];
      console_out = [];
      socket_reading = true;
      console_reading = true;
    })

unfoldable pub quit : ClientProgram → ClientProgram
quit p = record p { running = false }

-- The call of `async_write_some`, which is taken to write all bytes, and its handler for an error.
unfoldable pub write_line : List ℕ → ClientProgram → ClientProgram
write_line line p = record p { socket_out = p.socket_out ++ (line ++ 0 ∷ []) }

unfoldable pub write_failed : ClientProgram → ClientProgram
write_failed p = record p { console_out = p.console_out ++ write_error ∷ []; running = false }

-- `handle_read_input`; `len` bytes have come, and `line` is what the buffer of the console holds.
unfoldable pub handle_read_input : ℕ → List ℕ → ClientProgram → ClientProgram
unfolding quit write_line
handle_read_input len line p =
    let p' : ClientProgram =
      if ltb 0 len then (if get_or line 0 0 == b'q' then quit p else write_line line p) else p in
    record p' { console_reading = true }

-- The handler in `start_read_socket`; `waiting` is what has come in at the socket.
unfoldable pub read_socket : Bool → List ℕ → ClientProgram → ClientProgram
read_socket failed waiting p =
    let buffer = store waiting p.received in
    if failed
    then record p {
      received = buffer;
      console_out = p.console_out ++ connection_closed ∷ [];
      running = false;
      socket_reading = false;
    }
    else if ltb 0 (length waiting)
    then record p { received = buffer; console_out = p.console_out ++ text (c_string buffer) ∷ [] }
    else record p { socket_reading = false }
