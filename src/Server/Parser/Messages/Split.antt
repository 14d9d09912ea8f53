-- ===== src/Server/Parser/Messages/Split.antt =====
-- Messages of the hub that come in over several reads of the serial port.
use scdtr_project.Prelude.{
  ℕ, zero, suc, ◌+◌, ◌≤◌, ◌<◌, ◌≡◌, refl, sym, ap, ◌∙◌, inl, inr, false, ◌&&◌, List, [], ◌∷◌, ◌++◌,
  arith, ltb, leb, ◌==◌, if◌then◌else◌, Bool-cases, length, All,
}
use scdtr_project.Float.{Float}
use scdtr_project.LastMinuteBuffer.{FrequentDataValues}
use scdtr_project.Server.{Server, QueueElement, ActiveStream, write_text, write_to_serial_port}
use scdtr_project.Server.Queue.{
  is_connected, send_command, execute_queue, answer_queue, answer_command,
  execute_next_in_command_queue, write_response, received_command_response,
}
use scdtr_project.Server.Frequent.{
  Clock, write_to_file, stream_to, stream_all, received_frequent_data,
}
use scdtr_project.Server.Parser.{
  handle_discovery, size_msg, handle_message, handle_frequent, handle_response, handle_node_list,
  keep_unfinished, scan, handle_read_serial,
}
use scdtr_project.Server.Parser.Messages.{
  Message, frequent, response, discovery, node_list, noise, IsMessage, encode_all, effect, effects,
  scan-messages, scan-sync, le→leb,
}

-- The beginnings that are recognised as unfinished.
pub data Beginning : List ℕ → Type 0 where
  frequent_cut : (xs : List ℕ) → length xs < 4 → Beginning (255 ∷ b'F' ∷ xs)
  response_cut : (xs : List ℕ) → length xs < 3 → Beginning (255 ∷ b'R' ∷ xs)
  list_head : Beginning (255 ∷ b'L' ∷ [])
  list_cut : (n : ℕ) (xs : List ℕ) → length xs < n → Beginning (255 ∷ b'L' ∷ n ∷ xs)

gt→leb : (k n : ℕ) → n < k → leb k n ≡ false
gt→leb k n h = ground arith

module _ {ℓ} {F : Type ℓ} ⦃d : Float F⦄ (clock : Clock) where
  -- Characters that are passed over up to the end.
  scan-over : (k : ℕ) (xs : List ℕ) (s : Server F) → length xs ≤ k → scan clock k xs s ≡ s
  unfolding scan
  scan-over k [] s h = refl
  scan-over zero (x ∷ xs) s h = absurd (omega arith)
  scan-over (suc k) (x ∷ xs) s h = scan-over k xs s (omega arith)

  scan-Beginning :
      (p : List ℕ) (s : Server F) → Beginning p → scan clock 0 p s ≡ keep_unfinished clock p s
  unfolding scan handle_message size_msg handle_frequent handle_response handle_node_list
  scan-Beginning p s (frequent_cut xs h) =
      let n = suc (suc (length xs)) in
      scan-sync clock (b'F' ∷ xs) s (keep_unfinished clock (255 ∷ b'F' ∷ xs) s) 5
        (rw (le→leb 2 n (omega arith)) refl)
        (rw (le→leb 2 n (omega arith), gt→leb 6 n (omega arith)) refl)
      ∙ scan-over 5 (b'F' ∷ xs) (keep_unfinished clock (255 ∷ b'F' ∷ xs) s) (omega arith)
  scan-Beginning p s (response_cut xs h) =
      let n = suc (suc (length xs)) in
      scan-sync clock (b'R' ∷ xs) s (keep_unfinished clock (255 ∷ b'R' ∷ xs) s) 4
        (rw (le→leb 2 n (omega arith)) refl)
        (rw (le→leb 2 n (omega arith), gt→leb 5 n (omega arith)) refl)
      ∙ scan-over 4 (b'R' ∷ xs) (keep_unfinished clock (255 ∷ b'R' ∷ xs) s) (omega arith)
  scan-Beginning p s list_head = refl
  scan-Beginning p s (list_cut n xs h) =
      let size = suc (suc (suc (length xs))) in
      scan-sync clock (b'L' ∷ n ∷ xs) s (keep_unfinished clock (255 ∷ b'L' ∷ n ∷ xs) s)
        (suc (suc n)) (rw (le→leb 2 size (omega arith), le→leb 3 size (omega arith)) (omega arith))
        (rw
          (
            le→leb 2 size (omega arith),
            le→leb 3 size (omega arith),
            gt→leb (3 + n) size (omega arith),
          )
          refl)
      ∙ scan-over (suc (suc n)) (b'L' ∷ n ∷ xs) (keep_unfinished clock (255 ∷ b'L' ∷ n ∷ xs) s)
          (omega arith)

  execute_queue-unfinished :
      (q : List QueueElement) (s : Server F)
      → (execute_queue q s).unfinished_serial_string ≡ s.unfinished_serial_string
  unfolding execute_queue send_command
  execute_queue-unfinished [] s = refl
  execute_queue-unfinished (e ∷ q) s = elim (Bool-cases (is_connected e.client s.client_sessions)) [
    | inl t ↦ rw t refl
    | inr t ↦ rw t (execute_queue-unfinished q s)
  ]

  answer_queue-unfinished :
      (value : ℕ) (q : List QueueElement) (s : Server F)
      → (answer_queue value q s).unfinished_serial_string ≡ s.unfinished_serial_string
  unfolding answer_queue answer_command execute_next_in_command_queue write_response
  answer_queue-unfinished value [] s = refl
  answer_queue-unfinished value (e ∷ q) s =
      let acks =
        if e.command.cmd == b'r' && value == 1
        then s.number_of_reset_ack_received + 1
        else s.number_of_reset_ack_received in
      elim (Bool-cases (e.command.cmd == b'r' && ltb acks s.expected_number_of_reset_ack)) [
        | inl t ↦ rw t refl
        | inr t ↦ rw t (execute_queue-unfinished q _)
      ]

  stream_to-unfinished :
      (a : ActiveStream) (v : FrequentDataValues F) (s : Server F)
      → (stream_to a v s).unfinished_serial_string ≡ s.unfinished_serial_string
  unfolding stream_to write_text
  stream_to-unfinished a v s = elim (Bool-cases a.streaming_pwm) [
    | inl t ↦ elim (Bool-cases a.streaming_iluminance) [
      | inl t' ↦ rw (t, t') refl
      | inr t' ↦ rw (t, t') refl
    ]
    | inr t ↦ elim (Bool-cases a.streaming_iluminance) [
      | inl t' ↦ rw (t, t') refl
      | inr t' ↦ rw (t, t') refl
    ]
  ]

  stream_all-unfinished :
      (streams : List ActiveStream) (v : FrequentDataValues F) (s : Server F)
      → (stream_all streams v s).unfinished_serial_string ≡ s.unfinished_serial_string
  unfolding stream_all
  stream_all-unfinished [] v s = refl
  stream_all-unfinished (a ∷ more) v s =
      stream_all-unfinished more v (stream_to a v s) ∙ stream_to-unfinished a v s

  write_to_file-unfinished :
      (millis node_id : ℕ) (v : FrequentDataValues F) (s : Server F)
      → (write_to_file millis node_id v s).unfinished_serial_string ≡ s.unfinished_serial_string
  unfolding write_to_file
  write_to_file-unfinished millis node_id v s = elim (Bool-cases s.writing_to_file) [
    | inl t ↦ rw t refl
    | inr t ↦ rw t refl
  ]

  effects-unfinished :
      (ms : List Message) (s : Server F)
      → (effects clock ms s).unfinished_serial_string ≡ s.unfinished_serial_string
  unfolding effects effect received_frequent_data received_command_response handle_discovery
      write_to_serial_port
  effects-unfinished [] s = refl
  effects-unfinished (frequent p ∷ ms) s =
      effects-unfinished ms (effect clock (frequent p) s)
      ∙ stream_all-unfinished (s.active_streams p.node) _ (write_to_file clock.millis p.node _ s)
      ∙ write_to_file-unfinished clock.millis p.node _ s
  effects-unfinished (response value ∷ ms) s =
      effects-unfinished ms (effect clock (response value) s)
      ∙ answer_queue-unfinished value s.commands_queue s
  effects-unfinished (discovery ∷ ms) s = effects-unfinished ms (effect clock discovery s)
  effects-unfinished (node_list ids ∷ ms) s = effects-unfinished ms (effect clock (node_list ids) s)
  effects-unfinished (noise byte ∷ ms) s = effects-unfinished ms s

  -- If nothing was left unfinished, a read that ends with a recognised beginning of a message, after
  -- whole messages, and the next read give the same as one read of both strings together.
  -- The beginnings are those of at least two bytes, and of four at most for a response.
  pub handle_read_serial-split :
      (ms : List Message) (p rest : List ℕ) (s : Server F)
      → All IsMessage ms
      → Beginning p
      → s.unfinished_serial_string ≡ []
      → handle_read_serial clock rest (handle_read_serial clock (encode_all ms ++ p) s)
        ≡ handle_read_serial clock (encode_all ms ++ (p ++ rest)) s
  unfolding handle_read_serial keep_unfinished
  handle_read_serial-split ms p rest s v b e =
      let start : Server F = record s { unfinished_serial_string = [] } in
      let after = effects clock ms start in
      let first : handle_read_serial clock (encode_all ms ++ p) s
          ≡ record after { unfinished_serial_string = p } =
        ap (λ u. scan clock 0 (u ++ (encode_all ms ++ p)) start) e
        ∙ scan-messages clock ms p start v
        ∙ scan-Beginning p after b in
      let whole : handle_read_serial clock (encode_all ms ++ (p ++ rest)) s
          ≡ scan clock 0 (p ++ rest) after =
        ap (λ u. scan clock 0 (u ++ (encode_all ms ++ (p ++ rest))) start) e
        ∙ scan-messages clock ms (p ++ rest) start v in
      ap (handle_read_serial clock rest) first
      ∙ ap (λ u. scan clock 0 (p ++ rest) (record after { unfinished_serial_string = u }))
          (sym (effects-unfinished ms start))
      ∙ sym whole
