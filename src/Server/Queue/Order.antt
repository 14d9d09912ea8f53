-- ===== src/Server/Queue/Order.antt =====
-- The order of the commands in the queue of the server, and of their answers.
use scdtr_project.Prelude.{
  ℕ, ◌≡◌, refl, sym, ap, ◌∙◌, true, false, List, [], ◌∷◌, ◌++◌, append-nil, append_assoc, arith,
  ◌==◌, length, take, drop, All, length-append,
}
use scdtr_project.Float.{Float}
use scdtr_project.Server.{Server, QueueElement, Client, Text, command_message}
use scdtr_project.Server.Queue.Waiting.{has_command}
use scdtr_project.Server.Queue.{
  add_command_to_queue, is_connected, send_command, execute_queue, execute_next_in_command_queue,
  response_text, texts_for, write_response, answer_command, answer_queue, received_command_response,
}

-- The bytes of commands that are sent one after the other.
abbrev pub messages : List QueueElement → List ℕ
messages [] = []
messages (e ∷ q) = command_message e.command ++ messages q

messages-take : (q : List QueueElement) → messages (take 1 q) ++ messages (drop 1 q) ≡ messages q
messages-take [] = refl
messages-take (e ∷ q) = ap (λ l. l ++ messages q) (append-nil (command_message e.command))

-- A command of a client with a session that is answered once: not a reset.
abbrev pub IsSimple : List ℕ → QueueElement → Type 0
IsSimple sessions e = (is_connected e.client sessions ≡ true) × ((e.command.cmd == b'r') ≡ false)

module _ {ℓ} {F : Type ℓ} ⦃d : Float F⦄ where
  -- The texts for the answers to commands.
  abbrev pub answer_texts : List QueueElement → List ℕ → List (Client × Text F)
  answer_texts [] values = []
  answer_texts (e ∷ q) [] = []
  answer_texts (e ∷ q) (v ∷ values) =
      texts_for e.client (response_text e.command v) ++ answer_texts q values

  -- Answers come in, one after the other.
  pub answer_all : List ℕ → Server F → Server F
  answer_all [] s = s
  answer_all (v ∷ values) s = answer_all values (received_command_response v s)

  -- After the first command has been answered: the server with the rest of the queue.
  abbrev answered : ℕ → QueueElement → List QueueElement → Server F → Server F
  answered v e q s = record s {
    commands_queue = q;
    timer_running = has_command q;
    serial_out = s.serial_out ++ messages (take 1 q);
    text_out = s.text_out ++ texts_for e.client (response_text e.command v);
  }

  answer_command-simple :
      (v : ℕ) (e : QueueElement) (q : List QueueElement) (s : Server F)
      → All (IsSimple s.client_sessions) (e ∷ q)
      → answer_command v e q s ≡ answered v e q s
  unfolding answer_command execute_next_in_command_queue execute_queue send_command write_response
  answer_command-simple v e [] s ((c, r), u) = rw (r, append-nil s.serial_out) refl
  answer_command-simple v e (e' ∷ q) s ((c, r), ((c', r'), u)) = rw (r, c', r') refl

  answer_all-simple :
      (q : List QueueElement) (values : List ℕ) (s : Server F)
      → s.commands_queue ≡ q
      → length values ≡ length q
      → All (IsSimple s.client_sessions) q
      → let s' = answer_all values s in
        (s'.commands_queue ≡ [])
        × (s'.serial_out ≡ s.serial_out ++ messages (drop 1 q))
        × (s'.text_out ≡ s.text_out ++ answer_texts q values)
  unfolding answer_all received_command_response answer_queue
  answer_all-simple [] [] s e len all =
      (e, sym (append-nil s.serial_out), sym (append-nil s.text_out))
  answer_all-simple [] (v ∷ values) s e len all = absurd (omega arith)
  answer_all-simple (x ∷ q) [] s e len all = absurd (omega arith)
  answer_all-simple (x ∷ q) (v ∷ values) s e len all =
      let step : received_command_response v s ≡ answered v x q s =
        ap (λ l. answer_queue v l s) e ∙ answer_command-simple v x q s all in
      let (empty, sent, told) =
        answer_all-simple q values (answered v x q s) refl (omega arith) all.1 in
      (
        ap (λ s. (answer_all values s).commands_queue) step ∙ empty,
        ap (λ s. (answer_all values s).serial_out) step
            ∙ sent
            ∙ append_assoc s.serial_out (messages (take 1 q)) (messages (drop 1 q))
            ∙ ap (λ l. s.serial_out ++ l) (messages-take q),
        ap (λ s. (answer_all values s).text_out) step
            ∙ told
            ∙ append_assoc s.text_out (texts_for x.client (response_text x.command v))
                (answer_texts q values),
      )

  -- Commands are added, one after the other.
  pub add_all : List QueueElement → Server F → Server F
  add_all [] s = s
  add_all (e ∷ q) s = add_all q (add_command_to_queue e.command e.client s)

  add-behind :
      (x e : QueueElement) (p : List QueueElement) (s : Server F)
      → add_command_to_queue e.command e.client (record s { commands_queue = x ∷ p })
        ≡ record s { commands_queue = x ∷ p ++ e ∷ [] }
  unfolding add_command_to_queue
  add-behind x e p s =
      let more : (length (x ∷ p ++ e ∷ []) == 1) ≡ false =
        ground (arith, length-append p (e ∷ [])) in
      rw more refl

  add_all-behind :
      (q : List QueueElement) (x : QueueElement) (p : List QueueElement) (s : Server F)
      → add_all q (record s { commands_queue = x ∷ p }) ≡ record s { commands_queue = (x ∷ p) ++ q }
  unfolding add_all
  add_all-behind [] x p s = ap (λ l. record s { commands_queue = l }) (sym (append-nil (x ∷ p)))
  add_all-behind (e ∷ q) x p s =
      ap (add_all q) (add-behind x e p s)
      ∙ add_all-behind q x (p ++ e ∷ []) s
      ∙ ap (λ l. record s { commands_queue = l }) (append_assoc (x ∷ p) (e ∷ []) q)

  -- The server after the first command of an empty queue.
  abbrev started : QueueElement → List QueueElement → Server F → Server F
  started e q s = record s {
    commands_queue = e ∷ q;
    timer_running = true;
    serial_out = s.serial_out ++ command_message e.command;
  }

  add-first :
      (e : QueueElement) (s : Server F)
      → IsSimple s.client_sessions e
      → add_command_to_queue e.command e.client (record s { commands_queue = [] }) ≡ started e [] s
  unfolding add_command_to_queue execute_next_in_command_queue execute_queue send_command
  add-first e s (c, r) = rw (r, c) refl

  -- Commands that come in while the queue is empty, from clients that stay and no reset among them,
  -- and then as many answers: each command has been sent to the hub, in order; each answer has gone to
  -- the client of its command, in order; and the queue is empty again.
  pub commands-answered :
      (q : List QueueElement) (values : List ℕ) (s : Server F)
      → s.commands_queue ≡ []
      → length values ≡ length q
      → All (IsSimple s.client_sessions) q
      → let s' = answer_all values (add_all q s) in
        (s'.commands_queue ≡ [])
        × (s'.serial_out ≡ s.serial_out ++ messages q)
        × (s'.text_out ≡ s.text_out ++ answer_texts q values)
  unfolding add_all
  commands-answered [] values s e len all = answer_all-simple [] values s e len all
  commands-answered (x ∷ q) values s e len all =
      let step : add_all (x ∷ q) s ≡ started x q s =
        ap (λ l. add_all (x ∷ q) (record s { commands_queue = l })) e
        ∙ ap (add_all q) (add-first x s all.0)
        ∙ add_all-behind q x [] (started x [] s) in
      let (empty, sent, told) = answer_all-simple (x ∷ q) values (started x q s) refl len all in
      (
        ap (λ s. (answer_all values s).commands_queue) step ∙ empty,
        ap (λ s. (answer_all values s).serial_out) step
            ∙ sent
            ∙ append_assoc s.serial_out (command_message x.command) (messages q),
        ap (λ s. (answer_all values s).text_out) step ∙ told,
      )
