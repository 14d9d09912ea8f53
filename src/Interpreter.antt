-- ===== src/Interpreter.antt =====
-- SCDTR-PC/SCDTR-PC/commands.cpp: the commands that a user types, at the console or at a client.
pub mod Destination
pub mod Get
pub mod Set
pub mod Saving
pub mod Outcome
pub mod Streams
use scdtr_project.Prelude.{
  ℕ, Bool, true, false, not, ◌&&◌, ◌||◌, Option, none, some, List, [], ◌∷◌, ◌++◌, ltb, ◌==◌,
  if◌then◌else◌, length, get_or, drop, stoi, starts_with, is_in,
}
use scdtr_project.Prelude.Int.{ℤ, pos, negsuc}
use scdtr_project.Float.{Float, nat}
use scdtr_project.Command.{Command, empty_command, typed_command, float_command}
use scdtr_project.LastMinuteBuffer.{Printed, print_last_minute_buffer}
use scdtr_project.Server.{
  Server, Client, ActiveStream, Text, ack, failure, unknown_command, must_be_buffer, printed_values,
  already_saving, started_saving, stopped_saving, Failure, destination_not_integer,
  invalid_destination, destination_not_present, invalid_command, no_valid_argument,
  not_valid_for_total, not_a_number, not_0_or_1, write_text,
}

-- A value, or the exception `input_exception`.
pub data Result {ℓ} (A : Type ℓ) : Type ℓ where
  ok : A → Result A
  failed : Failure → Result A

abbrev pub and_then {ℓ κ} : {A : Type ℓ} {B : Type κ} → Result A → (A → Result B) → Result B
and_then (ok a) f = f a
and_then (failed e) f = failed e

-- The checks of `commandGetDestination` on an integer.
abbrev pub check_destination : List ℕ → ℤ → Result ℕ
check_destination ids (negsuc n) = failed invalid_destination
check_destination ids (pos n) =
    if n == 0 || ltb 255 n
    then failed invalid_destination
    else if is_in n ids
    then ok n
    else failed (destination_not_present n)

abbrev pub integer_destination : List ℕ → Option ℤ → Result ℕ
integer_destination ids none = failed destination_not_integer
integer_destination ids (some n) = check_destination ids n

-- `ids` is `nodeIds` of the server.
unfoldable pub command_get_destination : List ℕ → List ℕ → Result ℕ
command_get_destination ids substring = integer_destination ids (stoi substring)

-- "IdoOULxrcptevf"
abbrev pub arguments : List ℕ
arguments =
    b'I' ∷ b'd' ∷ b'o' ∷ b'O' ∷ b'U' ∷ b'L' ∷ b'x' ∷ b'r' ∷ b'c' ∷ b'p' ∷ b't' ∷ b'e' ∷ b'v' ∷ b'f'
    ∷ []

-- "pevf"
abbrev pub arguments_with_t : List ℕ
arguments_with_t = b'p' ∷ b'e' ∷ b'v' ∷ b'f' ∷ []

unfoldable pub check_get_arguments : List ℕ → List ℕ → Result ℕ
unfolding command_get_destination
check_get_arguments ids line =
    if ltb (length line) 5 || not (get_or line 3 0 == b' ')
    then failed invalid_command
    else if not (is_in (get_or line 2 0) arguments)
    then failed no_valid_argument
    else if get_or line 4 0 == b'T'
    then (if is_in (get_or line 2 0) arguments_with_t
        then ok 0
        else failed (not_valid_for_total (get_or line 2 0)))
    else command_get_destination ids (drop 3 line)

abbrev add_char : ℕ → Option (List ℕ × List ℕ) → Option (List ℕ × List ℕ)
add_char c none = none
add_char c (some (before, after)) = some (c ∷ before, after)

-- A string up to the first space, and behind it, if there is one.
abbrev pub split_space : List ℕ → Option (List ℕ × List ℕ)
split_space [] = none
split_space (c ∷ s) =
    let rest = split_space s in if c == b' ' then some ([], s) else add_char c rest

-- "start save", "stop save"
abbrev pub start_save : List ℕ
start_save = b's' ∷ b't' ∷ b'a' ∷ b'r' ∷ b't' ∷ b' ' ∷ b's' ∷ b'a' ∷ b'v' ∷ b'e' ∷ []

abbrev pub stop_save : List ℕ
stop_save = b's' ∷ b't' ∷ b'o' ∷ b'p' ∷ b' ' ∷ b's' ∷ b'a' ∷ b'v' ∷ b'e' ∷ []

abbrev pub same_client : Client → Client → Bool
same_client none none = true
same_client none (some x) = false
same_client (some x) none = false
same_client (some x) (some y) = x == y

-- The value in the map `activeStreams[destination]`, false for a new key.
unfoldable pub is_streaming : Client → Bool → List ActiveStream → Bool
is_streaming client pwm [] = false
is_streaming client pwm (a ∷ more) =
    let rest = is_streaming client pwm more in
    if same_client client a.to_client
    then (if pwm then a.streaming_pwm else a.streaming_iluminance)
    else rest

-- The map with that value turned round.
unfoldable pub toggle : Client → Bool → List ActiveStream → List ActiveStream
toggle client pwm [] =
    record { to_client = client; streaming_pwm = pwm; streaming_iluminance = not pwm } ∷ []
toggle client pwm (a ∷ more) =
    let rest = toggle client pwm more in
    if same_client client a.to_client
    then record a {
      streaming_pwm = (if pwm then not a.streaming_pwm else a.streaming_pwm);
      streaming_iluminance = (if pwm then a.streaming_iluminance else not a.streaming_iluminance);
    }
      ∷ more
    else a ∷ rest

module _ {ℓ} {F : Type ℓ} ⦃d : Float F⦄ where
  abbrev pub number_of : ℕ → Option F → Result (ℕ × F)
  number_of destination none = failed not_a_number
  number_of destination (some v) = ok (destination, v)

  -- The string for the destination ends with the space.
  abbrev pub set_arguments : List ℕ → Option (List ℕ × List ℕ) → Result (ℕ × F)
  set_arguments ids none = failed invalid_command
  set_arguments ids (some (before, after)) =
      and_then (command_get_destination ids (before ++ b' ' ∷ []))
        (λ destination. number_of destination (d.stof after))

  unfoldable pub check_set_arguments_float : List ℕ → List ℕ → Result (ℕ × F)
  check_set_arguments_float ids line =
      if ltb (length line) 5 || not (get_or line 1 0 == b' ')
      then failed invalid_command
      else set_arguments ids (split_space (drop 2 line))

-- The value counts as true if it is not 0.
unfoldable pub check_set_arguments_bool {ℓ} :
    {F : Type ℓ} → Float F → List ℕ → List ℕ → Result (ℕ × Bool)
unfolding check_set_arguments_float
check_set_arguments_bool d ids line =
    and_then (check_set_arguments_float ⦃d = d⦄ ids line) (λ (id, v).
      if not (d.eq v (nat ⦃d = d⦄ 0)) && not (d.eq v (nat ⦃d = d⦄ 1))
      then failed not_0_or_1
      else ok (id, not (d.eq v (nat ⦃d = d⦄ 0))))

module _ {ℓ} {F : Type ℓ} ⦃d : Float F⦄ where
  -- The text of an exception, and the command that stands for none.
  abbrev pub answer_failure : Client → Failure → Server F → Server F × Command
  answer_failure client e s = (write_text client (failure e) s, empty_command)

  abbrev pub finish : Client → Server F → Result Command → Server F × Command
  finish client s (ok c) = (s, c)
  finish client s (failed e) = answer_failure client e s

  -- What is written to a stream; a text that stays empty is not sent.
  abbrev pub write_printed : Client → List (Printed F) → Server F → Server F
  write_printed client [] s = s
  write_printed client (x ∷ xs) s = write_text client (printed_values (x ∷ xs)) s

  abbrev pub print_kind : Client → ℕ → Bool → Server F → Server F
  print_kind client id pwm s =
      let (console, stream) = print_last_minute_buffer id pwm s.last_minute_buffer in
      write_printed client stream (write_printed none console s)

  unfoldable pub print_buffer : Client → List ℕ → Server F → Result ℕ → Server F × Command
  unfolding write_text print_last_minute_buffer
  print_buffer client line s (failed e) = answer_failure client e s
  print_buffer client line s (ok id) = (
    if get_or line 2 0 == b'I'
        then print_kind client id false s
        else if get_or line 2 0 == b'd'
        then print_kind client id true s
        else write_text client (must_be_buffer line) s,
    empty_command,
  )

  unfoldable pub toggle_stream : Client → List ℕ → Server F → Result ℕ → Server F × Command
  unfolding write_text is_streaming toggle
  toggle_stream client line s (failed e) = answer_failure client e s
  toggle_stream client line s (ok id) =
      let pwm = get_or line 2 0 == b'd' in
      let streams = s.active_streams id in
      let answered = if is_streaming client pwm streams then write_text client ack s else s in
      (
        if get_or line 2 0 == b'I' || pwm
            then record answered {
              active_streams =
                  λ i. if i == id then toggle client pwm streams else answered.active_streams i;
            }
            else write_text client (must_be_buffer line) s,
        empty_command,
      )

  -- `now` is the clock, in milliseconds.
  unfoldable pub start_save_values : ℕ → Client → Server F → Server F
  unfolding write_text
  start_save_values now client s =
      if s.writing_to_file
      then write_text client already_saving s
      else write_text client started_saving
          (record s { writing_to_file = true; file_writing_started = now; file_output = [] })

  unfoldable pub stop_save_values : Client → Server F → Server F
  unfolding write_text
  stop_save_values client s =
      if s.writing_to_file
      then write_text client stopped_saving (record s { writing_to_file = false })
      else s

  unfoldable pub interpret_words : List ℕ → Client → Server F → Server F × Command
  unfolding check_get_arguments check_set_arguments_float check_set_arguments_bool print_buffer
      toggle_stream write_text
  interpret_words line client s =
      let cmd = get_or line 0 0 in
      if cmd == b'g'
      then finish client s (
          and_then (check_get_arguments s.node_ids line)
            (λ id. ok (typed_command cmd id (get_or line 2 0))))
      else if cmd == b'O' || cmd == b'U' || cmd == b'c'
      then finish client s (
          and_then (check_set_arguments_float {F = F} s.node_ids line)
            (λ (id, v). ok (float_command cmd id v)))
      else if cmd == b'o'
      then finish client s (
          and_then (check_set_arguments_bool d s.node_ids line)
            (λ (id, v). ok (typed_command cmd id (if v then 1 else 0))))
      else if cmd == b'b'
      then print_buffer client line s (check_get_arguments s.node_ids line)
      else if cmd == b's'
      then toggle_stream client line s (check_get_arguments s.node_ids line)
      else (write_text client (unknown_command line) s, empty_command)

  unfoldable pub interpret_command : ℕ → List ℕ → Client → Server F → Server F × Command
  unfolding interpret_words start_save_values stop_save_values write_text
  interpret_command now line client s =
      let cmd = get_or line 0 0 in
      if cmd == b'q' || cmd == b'r'
      then (s, typed_command cmd 0 0)
      else if starts_with start_save line
      then (start_save_values now client s, empty_command)
      else if starts_with stop_save line
      then (stop_save_values client s, empty_command)
      else if ltb 2 (length line) && get_or line 1 0 == b' '
      then interpret_words line client s
      else (write_text client (unknown_command line) s, empty_command)
