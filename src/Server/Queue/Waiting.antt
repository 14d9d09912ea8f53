-- ===== src/Server/Queue/Waiting.antt =====
-- The command of the queue that waits for its answer.
use scdtr_project.Prelude.{
  ℕ, ◌+◌, ◌≡◌, refl, sym, inl, inr, Bool, true, false, ◌&&◌, List, [], ◌∷◌, ◌++◌, append-nil, arith,
  ltb, ◌==◌, if◌then◌else◌, Bool-cases, length, drop, length-append,
}
use scdtr_project.Float.{Float}
use scdtr_project.Command.{Command}
use scdtr_project.Server.{Server, QueueElement, Client, command_message}
use scdtr_project.Server.Queue.{
  is_connected, send_command, execute_queue, execute_next_in_command_queue, add_command_to_queue,
  command_timed_out, remove_client_session, write_response, answer_command, answer_queue,
  received_command_response,
}

abbrev pub has_command : List QueueElement → Bool
has_command [] = false
has_command (e ∷ q) = true

-- The bytes of the first command.
abbrev pub first_message : List QueueElement → List ℕ
first_message [] = []
first_message (e ∷ q) = command_message e.command

module _ {ℓ} {F : Type ℓ} where
  -- The timer waits just when there is a command in the queue.
  abbrev pub IsWaiting : Server F → Type 0
  IsWaiting s = s.timer_running ≡ has_command s.commands_queue

  -- The queue without the commands at its front whose clients have left.
  abbrev pub skip_left : Server F → List QueueElement → List QueueElement
  skip_left s [] = []
  skip_left s (e ∷ q) =
      let rest = skip_left s q in if is_connected e.client s.client_sessions then e ∷ q else rest

  pub execute_queue-IsWaiting :
      (q : List QueueElement) (s : Server F)
      → s.timer_running ≡ false
      → IsWaiting (execute_queue q s)
  unfolding execute_queue send_command
  execute_queue-IsWaiting [] s off = off
  execute_queue-IsWaiting (e ∷ q) s off =
      elim (Bool-cases (is_connected e.client s.client_sessions)) [
        | inl t ↦ rw t refl
        | inr t ↦ rw t (execute_queue-IsWaiting q s off)
      ]

  execute_queue-sends :
      (q : List QueueElement) (s : Server F)
      → let s' = execute_queue q s in
        (s'.commands_queue ≡ skip_left s q)
        × (s'.serial_out ≡ s.serial_out ++ first_message (skip_left s q))
        × (s'.text_out ≡ s.text_out)
        × (s'.client_sessions ≡ s.client_sessions)
  unfolding execute_queue send_command
  execute_queue-sends [] s = (refl, sym (append-nil s.serial_out), refl, refl)
  execute_queue-sends (e ∷ q) s = elim (Bool-cases (is_connected e.client s.client_sessions)) [
    | inl t ↦ rw t (refl, refl, refl, refl)
    | inr t ↦ rw t (execute_queue-sends q s)
  ]

  add-IsWaiting :
      (q : List QueueElement) (c : Command) (client : Client) (s : Server F)
      → s.timer_running ≡ has_command q
      → IsWaiting (add_command_to_queue c client (record s { commands_queue = q }))
  unfolding add_command_to_queue execute_next_in_command_queue
  add-IsWaiting [] c client s w =
      let e : QueueElement = record { command = c; client = client } in
      execute_queue-IsWaiting (e ∷ []) (record s { commands_queue = e ∷ [] }) w
  add-IsWaiting (x ∷ q) c client s w =
      let e : QueueElement = record { command = c; client = client } in
      let more : (length (x ∷ q ++ e ∷ []) == 1) ≡ false =
        ground (arith, length-append q (e ∷ [])) in
      rw more w

module _ {ℓ} {F : Type ℓ} ⦃d : Float F⦄ where
  pub answer-IsWaiting :
      (value : ℕ) (q : List QueueElement) (s : Server F)
      → IsWaiting s
      → IsWaiting (answer_queue value q s)
  unfolding answer_queue answer_command execute_next_in_command_queue write_response
  answer-IsWaiting value [] s w = w
  answer-IsWaiting value (e ∷ q) s w =
      let acks =
        if e.command.cmd == b'r' && value == 1
        then s.number_of_reset_ack_received + 1
        else s.number_of_reset_ack_received in
      elim (Bool-cases (e.command.cmd == b'r' && ltb acks s.expected_number_of_reset_ack)) [
        | inl t ↦ rw t w
        | inr t ↦ rw t (execute_queue-IsWaiting q _ refl)
      ]

  -- What happens to the queue, in the order in which it happens. The timer only runs out while it runs.
  pub data Step : Server F → Server F → Type ℓ where
    adds : {s : Server F} (c : Command) (client : Client) → Step s (add_command_to_queue c client s)
    answers : {s : Server F} (value : ℕ) → Step s (received_command_response value s)
    times_out : {s : Server F} → s.timer_running ≡ true → Step s (command_timed_out s)
    leaves : {s : Server F} (c : ℕ) → Step s (remove_client_session c s)

  pub data Steps : Server F → Server F → Type ℓ where
    stop : {s : Server F} → Steps s s
    more : {s s' s'' : Server F} → Step s s' → Steps s' s'' → Steps s s''

  Step-IsWaiting : {s s' : Server F} → Step s s' → IsWaiting s → IsWaiting s'
  unfolding command_timed_out execute_next_in_command_queue remove_client_session
      received_command_response
  Step-IsWaiting (adds {s = s} c client) w = add-IsWaiting s.commands_queue c client s w
  Step-IsWaiting (answers {s = s} value) w = answer-IsWaiting value s.commands_queue s w
  Step-IsWaiting (times_out {s = s} on) w = execute_queue-IsWaiting (drop 1 s.commands_queue) _ refl
  Step-IsWaiting (leaves c) w = w

  -- However the commands, the answers, the timeouts and the clients that leave follow each other: the
  -- timeout timer runs just when a command is in the queue, so that `command_timed_out`
  -- always has a command to remove, if that held at first, as it does with an empty queue.
  pub Steps-IsWaiting : {s s' : Server F} → Steps s s' → IsWaiting s → IsWaiting s'
  Steps-IsWaiting stop w = w
  Steps-IsWaiting (more step steps) w = Steps-IsWaiting steps (Step-IsWaiting step w)
