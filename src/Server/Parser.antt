-- ===== src/Server/Parser.antt =====
-- `handle_read_serial` of SCDTR-PC/SCDTR-PC/Server.cpp: what comes from the hub's serial port.
pub mod Messages
use scdtr_project.Prelude.{
  ℕ, zero, suc, ◌+◌, ◌-◌, ◌*◌, ◌^◌, List, [], ◌∷◌, ◌++◌, leb, ◌==◌, if◌then◌else◌, length, get_or,
  take, drop,
}
use scdtr_project.Float.{Float, nat}
use scdtr_project.Command.{typed_command}
use scdtr_project.Server.{Server, write_to_serial_port, command_message}
use scdtr_project.Server.Queue.{received_command_response}
use scdtr_project.Server.Frequent.{Clock, received_frequent_data}

-- `sizeMsg` at the end of a round.
unfoldable pub size_msg : List ℕ → ℕ
size_msg rest =
    if leb 2 (length rest)
    then (if get_or rest 1 0 == b'F'
        then 6
        else if get_or rest 1 0 == b'R'
        then 5
        else if get_or rest 1 0 == b'L'
        then (if leb 3 (length rest) then 3 + get_or rest 2 0 else 3)
        else 2)
    else 2

module _ {ℓ} {F : Type ℓ} ⦃d : Float F⦄ (clock : Clock) where
  -- The rest of the string is kept for the next time.
  unfoldable pub keep_unfinished : List ℕ → Server F → Server F
  keep_unfinished rest s = record s { unfinished_serial_string = rest }

  -- In each of these `rest` is the string from the sync byte on.
  unfoldable pub handle_frequent : List ℕ → Server F → Server F
  unfolding received_frequent_data keep_unfinished
  handle_frequent rest s =
      let short = get_or rest 3 0 + get_or rest 4 0 * 256 in
      if leb 6 (length rest)
      then received_frequent_data clock (get_or rest 2 0)
          (record { pwm = get_or rest 5 0; iluminance = d.div (nat short) (nat 10) }) s
      else keep_unfinished rest s

  -- The length is tested against 5. Behind the end a string has the character 0.
  unfoldable pub handle_response : List ℕ → Server F → Server F
  unfolding received_command_response keep_unfinished
  handle_response rest s =
      if leb 5 (length rest)
      then received_command_response
          (get_or rest 2 0 * 2 ^ 24
            + get_or rest 3 0 * 2 ^ 16
            + get_or rest 4 0 * 2 ^ 8
            + get_or rest 5 0)
          s
      else keep_unfinished rest s

  unfoldable pub handle_discovery : Server F → Server F
  unfolding write_to_serial_port command_message typed_command
  handle_discovery = write_to_serial_port (command_message (typed_command b'D' 0 b' '))

  unfoldable pub handle_node_list : List ℕ → Server F → Server F
  unfolding keep_unfinished
  handle_node_list rest s =
      if leb 3 (length rest)
      then (if leb (3 + get_or rest 2 0) (length rest)
          then record s { node_ids = take (get_or rest 2 0) (drop 3 rest) }
          else keep_unfinished rest s)
      else keep_unfinished rest s

  -- What is done with the message at a sync byte.
  unfoldable pub handle_message : List ℕ → Server F → Server F
  unfolding handle_frequent handle_response handle_discovery handle_node_list
  handle_message rest s =
      if leb 2 (length rest)
      then (if get_or rest 1 0 == b'F'
          then handle_frequent rest s
          else if get_or rest 1 0 == b'R'
          then handle_response rest s
          else if get_or rest 1 0 == b'D'
          then handle_discovery s
          else if get_or rest 1 0 == b'L'
          then handle_node_list rest s
          else s)
      else s

  -- The loop. The skip count says how many characters there are before `offset`.
  unfoldable pub scan : ℕ → List ℕ → Server F → Server F
  unfolding handle_message size_msg
  scan skip [] s = s
  scan (suc skip) (x ∷ xs) s = scan skip xs s
  scan zero (x ∷ xs) s =
      scan (if x == 255 then size_msg (x ∷ xs) - 1 else 0) xs
        (if x == 255 then handle_message (x ∷ xs) s else s)

  -- `serial` is what has come in.
  unfoldable pub handle_read_serial : List ℕ → Server F → Server F
  unfolding scan
  handle_read_serial serial s =
      scan 0 (s.unfinished_serial_string ++ serial) (record s { unfinished_serial_string = [] })
