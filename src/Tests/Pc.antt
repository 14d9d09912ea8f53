-- ===== src/Tests/Pc.antt =====
-- The program on the PC.
use scdtr_project.Prelude.{
  ℕ, ◌<◌, ◌≡◌, refl, ◌⊎◌, inl, inr, true, none, some, List, [], ◌∷◌, ◌++◌, arith, ◌==◌,
  if◌then◌else◌, Bool-cases, is_in,
}
use scdtr_project.Prelude.Int.{ℤ, pos}
use scdtr_project.Float.Fixed.{fixed}
use scdtr_project.Command.{Command, typed_command, float_command}
use scdtr_project.Interpreter.{interpret_command}
use scdtr_project.Interpreter.Get.{get_line, interpret_command-get}
use scdtr_project.Interpreter.Set.{set_line, interpret_command-set}
use scdtr_project.Interpreter.Streams.{stream_line, IsToggled, interpret_command-IsToggled}
use scdtr_project.Interpreter.Destination.{interpret_command-destination}
use scdtr_project.LastMinuteBuffer.{LastMinuteBuffer, FrequentDataValues, add_to_last_minute_buffer}
use scdtr_project.LastMinuteBuffer.Recent
use scdtr_project.LastMinuteBuffer.History.{
  threshold_at, since, history, add_to_last_minute_buffer-history,
}
use scdtr_project.Server.{Server, QueueElement}
use scdtr_project.Server.Queue.{
  is_connected, add_command_to_queue, command_timed_out, received_command_response,
}
use scdtr_project.Server.Queue.Waiting.{
  IsWaiting, adds, answers, times_out, stop, more, Steps-IsWaiting,
}
use scdtr_project.Server.Queue.Order.{
  messages, answer_texts, answer_all, add_all, commands-answered,
}
use scdtr_project.Server.Frequent.{Clock}
use scdtr_project.Server.Parser.{handle_read_serial}
use scdtr_project.Server.Parser.Messages.{
  Message, frequent, response, discovery, node_list, noise, encode_all, effects,
  handle_read_serial-effects,
}
use scdtr_project.Server.Parser.Messages.Split.{frequent_cut, handle_read_serial-split}
use scdtr_project.Tests.Data.{server}

abbrev clock : Clock
clock = record { millis = 1000000; time_now = 1000; later = 1000 }

-- Some debug text between the messages, and an illuminance of 25.3 lx.
abbrev traffic : List Message
traffic =
    node_list (3 ∷ 5 ∷ [])
    ∷ noise 65
    ∷ frequent (record { node = 5; iluminance_short = 253; pwm = 17 })
    ∷ discovery
    ∷ response 1
    ∷ []

handle_read_serial-effects_example :
    handle_read_serial clock (encode_all traffic) server ≡ effects clock traffic server
handle_read_serial-effects_example =
    handle_read_serial-effects clock traffic server
      (tt, (omega arith, (omega arith, (tt, ((omega arith, omega arith), tt))))) refl

handle_read_serial-split_example :
    handle_read_serial clock
      (253 ∷ 0 ∷ 17 ∷ [])
      (handle_read_serial clock (encode_all (discovery ∷ []) ++ (255 ∷ b'F' ∷ 5 ∷ [])) server)
    ≡ handle_read_serial clock
        (encode_all (discovery ∷ []) ++ ((255 ∷ b'F' ∷ 5 ∷ []) ++ (253 ∷ 0 ∷ 17 ∷ [])))
        server
handle_read_serial-split_example =
    handle_read_serial-split clock (discovery ∷ []) (255 ∷ b'F' ∷ 5 ∷ []) (253 ∷ 0 ∷ 17 ∷ []) server
      (tt, tt) (frequent_cut (5 ∷ []) (omega arith)) refl

abbrev get_lux : Command
get_lux = record { cmd = b'g'; destination = 5; value = b'I' }

-- One command of client 8 and one of the console.
abbrev queue : List QueueElement
queue =
    record { command = get_lux; client = some 8 }
    ∷ record { command = record { cmd = b'o'; destination = 3; value = 1 }; client = none }
    ∷ []

commands-answered_example :
    let s' = answer_all (50000 ∷ 1 ∷ []) (add_all queue server) in
    (s'.commands_queue ≡ [])
    × (s'.serial_out ≡ server.serial_out ++ messages queue)
    × (s'.text_out ≡ server.text_out ++ answer_texts queue (50000 ∷ 1 ∷ []))
unfolding is_connected
commands-answered_example =
    commands-answered queue (50000 ∷ 1 ∷ []) server refl refl ((refl, refl), ((refl, refl), tt))

-- A command comes in and times out.
abbrev busy : Server ℤ
busy = add_command_to_queue get_lux none server

busy-timer_running : busy.timer_running ≡ true
unfolding add_command_to_queue
busy-timer_running = refl

Steps-IsWaiting_example : IsWaiting (received_command_response 1 (command_timed_out busy))
Steps-IsWaiting_example =
    Steps-IsWaiting
      (more (adds {s = server} get_lux none)
        (more (times_out busy-timer_running) (more (answers 1) stop)))
      refl

-- Node 5 sent values 70 and 20 seconds ago.
abbrev buffer : LastMinuteBuffer ℤ
buffer = record {
  last_time_added_entry = 980;
  last_minute_buffer = λ id.
      if id == 5
      then record { time = 930; values = record { pwm = 1; iluminance = pos 1 } ∷ [] }
        ∷ record { time = 980; values = record { pwm = 2; iluminance = pos 2 } ∷ [] }
        ∷ []
      else [];
}

buffer-IsValid : Recent.IsValid buffer
buffer-IsValid id = elim (Bool-cases (id == 5)) [
  | inl t ↦ rw t (omega arith, omega arith, (omega arith, omega arith, tt))
  | inr t ↦ rw t tt
]

add_to_last_minute_buffer-history_example :
    let value : FrequentDataValues ℤ = record { pwm = 3; iluminance = pos 3 } in
    let threshold = threshold_at buffer 1000 1000 in
    let b' = add_to_last_minute_buffer 1000 1000 5 value buffer in
    Recent.IsValid b'
    × ((id : ℕ)
        → history (b'.last_minute_buffer id)
          ≡ since threshold (history (buffer.last_minute_buffer id))
            ++ (if id == 5 then (1000, value) ∷ [] else []))
add_to_last_minute_buffer-history_example =
    add_to_last_minute_buffer-history buffer 1000 1000 5 (record { pwm = 3; iluminance = pos 3 })
      buffer-IsValid (omega arith) (omega arith)

interpret_command-get_example :
    interpret_command 1000 (get_line b'L' 5 (10 ∷ [])) none server
    ≡ (server, typed_command b'g' 5 b'L')
interpret_command-get_example =
    interpret_command-get 1000 b'L' 5 (10 ∷ []) none server refl (omega arith) (omega arith) refl
      refl

-- "s d 5", at the console.
interpret_command-IsToggled_example :
    IsToggled true 5 none server
      (interpret_command 1000 (stream_line true 5 (10 ∷ [])) none server).0
interpret_command-IsToggled_example =
    interpret_command-IsToggled 1000 true 5 (10 ∷ []) none server (omega arith) (omega arith) refl
      refl

-- "U 5 60"
interpret_command-set_example :
    interpret_command 1000 (set_line b'U' 5 (b'6' ∷ b'0' ∷ [])) none server
    ≡ (server, float_command b'U' 5 (pos 60000))
interpret_command-set_example =
    interpret_command-set 1000 b'U' 5 b'6' (b'0' ∷ []) (pos 60000) none server refl refl
      (omega arith) (omega arith) refl

-- "O 5 60.5"
abbrev typed_line : List ℕ
typed_line = b'O' ∷ b' ' ∷ b'5' ∷ b' ' ∷ b'6' ∷ b'0' ∷ b'.' ∷ b'5' ∷ []

interpret_command-destination_example :
    let c = (interpret_command 1000 typed_line none server).1 in
    (c.destination < 256) × ((c.destination ≡ 0) ⊎ (is_in c.destination server.node_ids ≡ true))
interpret_command-destination_example = interpret_command-destination 1000 typed_line none server

-- The destination that was typed.
interpret_command_test : (interpret_command 1000 typed_line none server).1.destination ≡ 5
unfolding interpret_command float_command
interpret_command_test = refl
