-- ===== src/Server/Queue/Liveness.antt =====
-- How the commands in the queue of the server come to an end.
use scdtr_project.Prelude.{
  ℕ, suc, ◌+◌, ◌≤◌, ◌≡◌, refl, sym, ap, ◌∙◌, inl, inr, false, ◌&&◌, List, [], ◌∷◌, arith, ltb, ◌==◌,
  if◌then◌else◌, Bool-cases, length, drop,
}
use scdtr_project.Float.{Float}
use scdtr_project.Server.{Server, QueueElement}
use scdtr_project.Server.Queue.{
  is_connected, send_command, execute_queue, execute_next_in_command_queue, command_timed_out,
  remove_client_session, write_response, answer_command, answer_queue, received_command_response,
}
use scdtr_project.Server.Queue.Waiting.{
  IsWaiting, has_command, execute_queue-IsWaiting, answer-IsWaiting,
}

-- What can happen while no command is added.
pub data Event : Type 0 where
  answer : ℕ → Event
  -- Three seconds have passed.
  timeout : Event
  leave : ℕ → Event

abbrev pub timeouts : List Event → ℕ
timeouts [] = 0
timeouts (answer value ∷ events) = timeouts events
timeouts (timeout ∷ events) = suc (timeouts events)
timeouts (leave c ∷ events) = timeouts events

no_command : (q : List QueueElement) → length q ≤ 0 → q ≡ []
no_command [] h = refl
no_command (e ∷ q) h = absurd (omega arith)

has_no_command : (q : List QueueElement) → has_command q ≡ false → length q ≤ 0
has_no_command [] h = omega arith
has_no_command (e ∷ q) h = cc

le_suc : {a b : ℕ} → a ≤ b → a ≤ suc b
le_suc h = omega arith

module _ {ℓ} {F : Type ℓ} where
  length-execute_queue :
      (q : List QueueElement) (s : Server F) → length (execute_queue q s).commands_queue ≤ length q
  unfolding execute_queue send_command
  length-execute_queue [] s = omega arith
  length-execute_queue (e ∷ q) s = elim (Bool-cases (is_connected e.client s.client_sessions)) [
    | inl t ↦ rw t (omega arith)
    | inr t ↦ rw t (omega (arith, length-execute_queue q s))
  ]

  -- The timer calls only while it runs.
  pub after_timeout : Server F → Server F
  unfolding command_timed_out
  after_timeout s = if s.timer_running then command_timed_out s else s

  -- A state with at most `n` commands.
  abbrev Holds : ℕ → Server F → Type 0
  Holds n s = IsWaiting s × (length s.commands_queue ≤ n)

  timed_out-Holds :
      (n : ℕ) (q : List QueueElement) (s : Server F)
      → length q ≤ suc n
      → Holds n
          (execute_queue (drop 1 q) (record s { commands_queue = drop 1 q; timer_running = false }))
  timed_out-Holds n [] s h = (
    execute_queue-IsWaiting [] _ refl,
    omega
        (arith, length-execute_queue [] (record s { commands_queue = []; timer_running = false })),
  )
  timed_out-Holds n (e ∷ q) s h = (
    execute_queue-IsWaiting q _ refl,
    omega (arith, length-execute_queue q (record s { commands_queue = q; timer_running = false })),
  )

  after_timeout-Holds : (n : ℕ) (s : Server F) → Holds (suc n) s → Holds n (after_timeout s)
  unfolding after_timeout command_timed_out execute_next_in_command_queue
  after_timeout-Holds n s (w, h) = elim (Bool-cases s.timer_running) [
    | inl t ↦ rw t (timed_out-Holds n s.commands_queue s h)
    | inr t ↦ rw t (sym t ∙ w, omega (arith, has_no_command s.commands_queue (sym w ∙ t)))
  ]

module _ {ℓ} {F : Type ℓ} ⦃d : Float F⦄ where
  length-answer_queue :
      (value : ℕ) (q : List QueueElement) (s : Server F)
      → s.commands_queue ≡ q
      → length (answer_queue value q s).commands_queue ≤ length q
  unfolding answer_queue answer_command execute_next_in_command_queue write_response
  length-answer_queue value [] s eq = rw eq (omega arith)
  length-answer_queue value (e ∷ q) s eq =
      let acks =
        if e.command.cmd == b'r' && value == 1
        then s.number_of_reset_ack_received + 1
        else s.number_of_reset_ack_received in
      elim (Bool-cases (e.command.cmd == b'r' && ltb acks s.expected_number_of_reset_ack)) [
        | inl t ↦ rw (t, eq) (omega arith)
        | inr t ↦ rw t (le_suc (length-execute_queue q _))
      ]

  pub happen : Event → Server F → Server F
  happen (answer value) s = received_command_response value s
  happen timeout s = after_timeout s
  happen (leave c) s = remove_client_session c s

  pub happen_all : List Event → Server F → Server F
  happen_all [] s = s
  happen_all (e ∷ events) s = happen_all events (happen e s)

  happen-Holds : (n : ℕ) (e : Event) (s : Server F) → Holds n s → Holds n (happen e s)
  unfolding happen remove_client_session received_command_response
  happen-Holds n (answer value) s (w, h) = (
    answer-IsWaiting value s.commands_queue s w,
    omega (arith, length-answer_queue value s.commands_queue s refl),
  )
  happen-Holds n timeout s h = after_timeout-Holds n s (h.0, le_suc h.1)
  happen-Holds n (leave c) s h = h

  happen_all-Holds :
      (n : ℕ) (events : List Event) (s : Server F)
      → Holds (timeouts events + n) s
      → Holds n (happen_all events s)
  unfolding happen_all happen
  happen_all-Holds n [] s h = (h.0, omega (arith, h.1))
  happen_all-Holds n (answer value ∷ events) s h =
      happen_all-Holds n events _ (happen-Holds (timeouts events + n) (answer value) s h)
  happen_all-Holds n (timeout ∷ events) s h =
      happen_all-Holds n events _
        (after_timeout-Holds (timeouts events + n) s (h.0, omega (arith, h.1)))
  happen_all-Holds n (leave c ∷ events) s h =
      happen_all-Holds n events _ (happen-Holds (timeouts events + n) (leave c) s h)

  -- Once three seconds have passed as often as there are commands, with answers and clients that
  -- leave in between in any order, the queue is empty and the timer has stopped, if no
  -- command is added and the timer ran at first just when there was a command.
  pub happen_all-ends :
      (events : List Event) (s : Server F)
      → IsWaiting s
      → length s.commands_queue ≤ timeouts events
      → let s' = happen_all events s in (s'.commands_queue ≡ []) × (s'.timer_running ≡ false)
  happen_all-ends events s w h =
      let (w', h') = happen_all-Holds 0 events s (w, omega (arith, h)) in
      let none_left = no_command (happen_all events s).commands_queue h' in
      (none_left, w' ∙ ap has_command none_left)
