-- ===== src/Session/Kept.antt =====
-- The operations of the server that leave the sessions and the streams alone.
use scdtr_project.Prelude.{
  ℕ, zero, suc, ◌+◌, ◌-◌, ◌*◌, ◌/◌, ◌^◌, ◌≡◌, refl, ◌∙◌, Bool, false, ◌&&◌, List, [], ◌∷◌, ◌++◌,
  ltb, leb, ◌==◌, if◌then◌else◌, if-both, length, get_or, take, drop,
}
use scdtr_project.Float.{Float, nat}
use scdtr_project.Command.{Command}
use scdtr_project.LastMinuteBuffer.{FrequentDataValues, percent}
use scdtr_project.Server.{
  Server, Client, QueueElement, streamed, ActiveStream, write_text, write_to_serial_port,
}
use scdtr_project.Server.Queue.{
  is_connected, send_command, execute_queue, execute_next_in_command_queue, add_command_to_queue,
  command_timed_out, response_text, write_response, answer_command, answer_queue,
  received_command_response,
}
use scdtr_project.Server.Frequent.{
  file_row, Clock, write_to_file, stream_to, stream_all, received_frequent_data,
}
use scdtr_project.Server.Parser.{
  size_msg, keep_unfinished, handle_frequent, handle_response, handle_discovery, handle_node_list,
  handle_message, scan, handle_read_serial,
}

pub record IsKept {ℓ} {F : Type ℓ} (s s' : Server F) : Type 0 where
  pub sessions : s'.client_sessions ≡ s.client_sessions
  pub streams : s'.active_streams ≡ s.active_streams

module _ {ℓ} {F : Type ℓ} where
  IsKept-trans : (a b c : Server F) → IsKept b c → IsKept a b → IsKept a c
  IsKept-trans a b c k k' = record {
    sessions = k.sessions ∙ k'.sessions;
    streams = k.streams ∙ k'.streams;
  }

  if-IsKept :
      (b : Bool) (s x y : Server F) → IsKept s x → IsKept s y → IsKept s (if b then x else y)
  if-IsKept b s x y = if-both (IsKept s) b

  execute_queue-IsKept : (q : List QueueElement) (s : Server F) → IsKept s (execute_queue q s)
  unfolding execute_queue send_command
  execute_queue-IsKept [] s = (record { sessions = refl; streams = refl })
  execute_queue-IsKept (e ∷ q) s =
      if-IsKept (is_connected e.client s.client_sessions) s _ _
        (record { sessions = refl; streams = refl }) (execute_queue-IsKept q s)

  pub add_command_to_queue-IsKept :
      (c : Command) (client : Client) (s : Server F) → IsKept s (add_command_to_queue c client s)
  unfolding add_command_to_queue execute_next_in_command_queue
  add_command_to_queue-IsKept c client s =
      let q = s.commands_queue ++ record { command = c; client = client } ∷ [] in
      let s' : Server F = record s { commands_queue = q } in
      let k = execute_queue-IsKept q s' in
      if-IsKept (length q == 1) s (execute_queue q s') s'
        (record { sessions = k.sessions; streams = k.streams })
        (record { sessions = refl; streams = refl })

  pub command_timed_out-IsKept : (s : Server F) → IsKept s (command_timed_out s)
  unfolding command_timed_out execute_next_in_command_queue
  command_timed_out-IsKept s =
      let q = drop 1 s.commands_queue in
      let k = execute_queue-IsKept q (record s { commands_queue = q; timer_running = false }) in
      record { sessions = k.sessions; streams = k.streams }

  stream_to-IsKept :
      (a : ActiveStream) (v : FrequentDataValues F) (s : Server F) → IsKept s (stream_to a v s)
  unfolding stream_to write_text
  stream_to-IsKept a v s =
      let kept : IsKept s s = record { sessions = refl; streams = refl } in
      let pwm : Server F =
        if a.streaming_pwm
        then write_text a.to_client (streamed (percent (v.pwm * 100 / 255))) s
        else s in
      IsKept-trans s pwm (stream_to a v s)
        (if-IsKept a.streaming_iluminance pwm _ _ (record { sessions = refl; streams = refl })
          (record { sessions = refl; streams = refl }))
        (if-IsKept a.streaming_pwm s _ _ (record { sessions = refl; streams = refl }) kept)

  stream_all-IsKept :
      (streams : List ActiveStream) (v : FrequentDataValues F) (s : Server F)
      → IsKept s (stream_all streams v s)
  unfolding stream_all
  stream_all-IsKept [] v s = (record { sessions = refl; streams = refl })
  stream_all-IsKept (a ∷ more) v s =
      IsKept-trans s (stream_to a v s) (stream_all more v (stream_to a v s))
        (stream_all-IsKept more v (stream_to a v s)) (stream_to-IsKept a v s)

module _ {ℓ} {F : Type ℓ} ⦃d : Float F⦄ where
  answer_queue-IsKept :
      (value : ℕ) (q : List QueueElement) (s : Server F) → IsKept s (answer_queue value q s)
  unfolding answer_queue answer_command execute_next_in_command_queue write_response
  answer_queue-IsKept value [] s = (record { sessions = refl; streams = refl })
  answer_queue-IsKept value (e ∷ q) s =
      let acks =
        if e.command.cmd == b'r' && value == 1
        then s.number_of_reset_ack_received + 1
        else s.number_of_reset_ack_received in
      let counted : Server F = record s { number_of_reset_ack_received = acks } in
      let s' : Server F = record (write_response e.client (response_text e.command value) counted) {
        commands_queue = q;
        timer_running = false;
      } in
      let k = execute_queue-IsKept q s' in
      if-IsKept (e.command.cmd == b'r' && ltb acks s.expected_number_of_reset_ack) s counted
        (execute_queue q s') (record { sessions = refl; streams = refl })
        (record { sessions = k.sessions; streams = k.streams })

  received_frequent_data-IsKept :
      (clock : Clock) (id : ℕ) (v : FrequentDataValues F) (s : Server F)
      → IsKept s (received_frequent_data clock id v s)
  unfolding received_frequent_data write_to_file
  received_frequent_data-IsKept clock id v s =
      let row = file_row clock.millis s.file_writing_started id v in
      let s' : Server F = write_to_file clock.millis id v s in
      let k = stream_all-IsKept (s.active_streams id) v s' in
      let k' =
        if-IsKept s.writing_to_file s (record s { file_output = s.file_output ++ row ∷ [] }) s
          (record { sessions = refl; streams = refl })
          (record { sessions = refl; streams = refl }) in
      record { sessions = k.sessions ∙ k'.sessions; streams = k.streams ∙ k'.streams }

module _ {ℓ} {F : Type ℓ} ⦃d : Float F⦄ (clock : Clock) where
  keep_unfinished-IsKept : (rest : List ℕ) (s : Server F) → IsKept s (keep_unfinished clock rest s)
  unfolding keep_unfinished
  keep_unfinished-IsKept rest s = record { sessions = refl; streams = refl }

  handle_frequent-IsKept : (rest : List ℕ) (s : Server F) → IsKept s (handle_frequent clock rest s)
  unfolding handle_frequent
  handle_frequent-IsKept rest s =
      let v : FrequentDataValues F = record {
        pwm = get_or rest 5 0;
        iluminance = d.div (nat (get_or rest 3 0 + get_or rest 4 0 * 256)) (nat 10);
      } in
      if-IsKept (leb 6 (length rest)) s (received_frequent_data clock (get_or rest 2 0) v s)
        (keep_unfinished clock rest s) (received_frequent_data-IsKept clock (get_or rest 2 0) v s)
        (keep_unfinished-IsKept rest s)

  handle_response-IsKept : (rest : List ℕ) (s : Server F) → IsKept s (handle_response clock rest s)
  unfolding handle_response received_command_response
  handle_response-IsKept rest s =
      let value =
        get_or rest 2 0 * 2 ^ 24
        + get_or rest 3 0 * 2 ^ 16
        + get_or rest 4 0 * 2 ^ 8
        + get_or rest 5 0 in
      if-IsKept (leb 5 (length rest)) s (answer_queue value s.commands_queue s)
        (keep_unfinished clock rest s) (answer_queue-IsKept value s.commands_queue s)
        (keep_unfinished-IsKept rest s)

  handle_node_list-IsKept :
      (rest : List ℕ) (s : Server F) → IsKept s (handle_node_list clock rest s)
  unfolding handle_node_list
  handle_node_list-IsKept rest s =
      let listed : Server F = record s { node_ids = take (get_or rest 2 0) (drop 3 rest) } in
      let unfinished = keep_unfinished clock rest s in
      let whole = leb (3 + get_or rest 2 0) (length rest) in
      if-IsKept (leb 3 (length rest)) s (if whole then listed else unfinished) unfinished
        (if-IsKept whole s listed unfinished (record { sessions = refl; streams = refl })
          (keep_unfinished-IsKept rest s))
        (keep_unfinished-IsKept rest s)

  handle_message-IsKept : (rest : List ℕ) (s : Server F) → IsKept s (handle_message clock rest s)
  unfolding handle_message handle_discovery write_to_serial_port
  handle_message-IsKept rest s =
      let kind = get_or rest 1 0 in
      let kept : IsKept s s = record { sessions = refl; streams = refl } in
      let lists : Server F = if kind == b'L' then handle_node_list clock rest s else s in
      let discovers : Server F = if kind == b'D' then handle_discovery clock s else lists in
      let responds : Server F = if kind == b'R' then handle_response clock rest s else discovers in
      let all : Server F = if kind == b'F' then handle_frequent clock rest s else responds in
      if-IsKept (leb 2 (length rest)) s all s
        (if-IsKept (kind == b'F') s (handle_frequent clock rest s) responds
          (handle_frequent-IsKept rest s)
          (if-IsKept (kind == b'R') s (handle_response clock rest s) discovers
            (handle_response-IsKept rest s)
            (if-IsKept (kind == b'D') s (handle_discovery clock s) lists
              (record { sessions = refl; streams = refl })
              (if-IsKept (kind == b'L') s (handle_node_list clock rest s) s
                (handle_node_list-IsKept rest s) kept))))
        kept

  scan-IsKept : (skip : ℕ) (bytes : List ℕ) (s : Server F) → IsKept s (scan clock skip bytes s)
  unfolding scan
  scan-IsKept skip [] s = record { sessions = refl; streams = refl }
  scan-IsKept (suc skip) (x ∷ xs) s = scan-IsKept skip xs s
  scan-IsKept zero (x ∷ xs) s =
      let s' : Server F = if x == 255 then handle_message clock (x ∷ xs) s else s in
      let k = scan-IsKept (if x == 255 then size_msg (x ∷ xs) - 1 else 0) xs s' in
      let k' =
        if-IsKept (x == 255) s (handle_message clock (x ∷ xs) s) s
          (handle_message-IsKept (x ∷ xs) s) (record { sessions = refl; streams = refl }) in
      record { sessions = k.sessions ∙ k'.sessions; streams = k.streams ∙ k'.streams }

  pub handle_read_serial-IsKept :
      (bytes : List ℕ) (s : Server F) → IsKept s (handle_read_serial clock bytes s)
  unfolding handle_read_serial
  handle_read_serial-IsKept bytes s =
      let k =
        scan-IsKept 0 (s.unfinished_serial_string ++ bytes)
          (record s { unfinished_serial_string = [] }) in
      record { sessions = k.sessions; streams = k.streams }
