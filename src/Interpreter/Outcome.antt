-- ===== src/Interpreter/Outcome.antt =====
-- What a typed line can change.
use scdtr_project.Prelude.{
  ℕ, ◌≤◌, ◌≡◌, refl, ap, ◌∙◌, ◌⊎◌, inl, inr, Bool, true, false, ◌&&◌, ◌||◌, none, List, [], ◌∷◌,
  ◌++◌, map, append-nil, append_assoc, arith, ltb, ◌==◌, if◌then◌else◌, ==_iff, Bool-cases, if-both,
  length, get_or, starts_with,
}
use scdtr_project.Float.{Float}
use scdtr_project.Command.{Command, empty_command}
use scdtr_project.Server.{
  Server, Client, ActiveStream, Text, ack, failure, unknown_command, must_be_buffer, printed_values,
  already_saving, started_saving, stopped_saving, write_text,
}
use scdtr_project.LastMinuteBuffer.{Printed, header, print_entries, print_last_minute_buffer}
use scdtr_project.Interpreter.{
  Result, ok, failed, check_get_arguments, finish, print_buffer, print_kind, write_printed,
  is_streaming, toggle, toggle_stream, start_save_values, stop_save_values, start_save, stop_save,
  interpret_words, interpret_command,
}

-- The streams of a node are the same, or those of this client have changed for one kind of value.
abbrev pub IsChanged : Client → List ActiveStream → List ActiveStream → Type 0
IsChanged client streams streams' =
    (streams' ≡ streams) ⊎ ((pwm : Bool) × (streams' ≡ toggle client pwm streams))

-- The streams of all nodes are the same, or those of one node have changed for one kind of value.
abbrev pub OneChanged : Client → (ℕ → List ActiveStream) → (ℕ → List ActiveStream) → Type 0
OneChanged client streams streams' =
    (streams' ≡ streams)
    ⊎ ((id : ℕ) × (pwm : Bool) × (streams'
          ≡ (λ i. if i == id then toggle client pwm (streams id) else streams i)))

pub one-IsChanged :
    (client : Client) (streams streams' : ℕ → List ActiveStream) (i : ℕ)
    → OneChanged client streams streams'
    → IsChanged client (streams i) (streams' i)
one-IsChanged client streams streams' i (inl same) = inl (ap (λ f. f i) same)
one-IsChanged client streams streams' i (inr (id, pwm, e)) = elim (Bool-cases (i == id)) [
  | inl this ↦ inr (pwm, ap (λ f. f i) e ∙ rw (this, (==_iff i id).0 this) refl)
  | inr other ↦ inl (ap (λ f. f i) e ∙ rw other refl)
]

module _ {ℓ} {F : Type ℓ} where
  -- At most one text, to this client; else only the saving has changed, or the streams of one node.
  abbrev pub IsTold : Client → Server F → Server F → Type ℓ
  IsTold client s s' =
      (texts : List (Text F)) × (length texts ≤ 1)
      × (s' ≡ record s {
        text_out = s.text_out ++ map (λ text. (client, text)) texts;
        active_streams = s'.active_streams;
        writing_to_file = s'.writing_to_file;
        file_writing_started = s'.file_writing_started;
        file_output = s'.file_output;
      })
      × OneChanged client s.active_streams s'.active_streams

  -- The header of a buffer goes to the console, and then at most one text to this client.
  abbrev pub IsPrinted : Client → Server F → Server F → Type ℓ
  IsPrinted client s s' =
      (id : ℕ) × (pwm : Bool) × (texts : List (Text F)) × (length texts ≤ 1)
      × (s' ≡ record s {
        text_out =
            s.text_out
            ++ (none, printed_values (header id pwm ∷ [])) ∷ map (λ text. (client, text)) texts;
      })

  -- A command and the same server, or no command.
  abbrev pub IsOutcome : Client → Server F → Server F × Command → Type ℓ
  IsOutcome client s (s', c) =
      (s' ≡ s) ⊎ ((c ≡ empty_command) × (IsTold client s s' ⊎ IsPrinted client s s'))

  told :
      (client : Client) (text : Text F) (s : Server F)
      → IsOutcome client s (write_text client text s, empty_command)
  unfolding write_text
  told client text s = inr (refl, inl (text ∷ [], omega arith, refl, inl refl))

module _ {ℓ} {F : Type ℓ} ⦃d : Float F⦄ where
  finish-IsOutcome :
      (client : Client) (s : Server F) (r : Result Command) → IsOutcome client s (finish client s r)
  finish-IsOutcome client s (ok c) = inl refl
  finish-IsOutcome client s (failed e) = told client (failure e) s

  print_kind-IsOutcome :
      (client : Client) (id : ℕ) (pwm : Bool) (s : Server F)
      → IsOutcome client s (print_kind client id pwm s, empty_command)
  unfolding print_last_minute_buffer write_text
  print_kind-IsOutcome client id pwm s =
      let entries = s.last_minute_buffer.last_minute_buffer id in
      written (print_entries pwm entries)
    where
      written :
          (xs : List (Printed F))
          → IsOutcome client s (
            write_printed client xs (write_text none (printed_values (header id pwm ∷ [])) s),
            empty_command,
          )
      written [] = inr (refl, inr (id, pwm, [], omega arith, refl))
      written (x ∷ xs) = inr (
        refl,
        inr (
          id,
          pwm,
          printed_values (x ∷ xs) ∷ [],
          omega arith,
          rw (append_assoc s.text_out ((none, printed_values (header id pwm ∷ [])) ∷ []) _) refl,
        ),
      )

  print_buffer-IsOutcome :
      (client : Client) (line : List ℕ) (s : Server F) (r : Result ℕ)
      → IsOutcome client s (print_buffer client line s r)
  unfolding print_buffer
  print_buffer-IsOutcome client line s (failed e) = told client (failure e) s
  print_buffer-IsOutcome client line s (ok id) =
      let Good : Server F → Type ℓ = λ s'. IsOutcome client s (s', empty_command) in
      if-both Good (get_or line 2 0 == b'I') (print_kind-IsOutcome client id false s) (
        if-both Good (get_or line 2 0 == b'd') (print_kind-IsOutcome client id true s)
          (told client (must_be_buffer line) s))

  toggle_stream-IsOutcome :
      (client : Client) (line : List ℕ) (s : Server F) (r : Result ℕ)
      → IsOutcome client s (toggle_stream client line s r)
  unfolding toggle_stream write_text
  toggle_stream-IsOutcome client line s (failed e) = told client (failure e) s
  toggle_stream-IsOutcome client line s (ok id) =
      let pwm = get_or line 2 0 == b'd' in
      elim (Bool-cases (get_or line 2 0 == b'I' || pwm)) [
        | inl known ↦ elim (Bool-cases (is_streaming client pwm (s.active_streams id))) [
          | inl on ↦
              rw (known, on) (inr (refl, inl (ack ∷ [], omega arith, refl, inr (id, pwm, refl))))
          | inr off ↦
              rw (known, off)
                (inr (
                  refl,
                  inl ([], omega arith, rw (append-nil s.text_out) refl, inr (id, pwm, refl)),
                ))
        ]
        | inr other ↦ rw other (told client (must_be_buffer line) s)
      ]

  start_save_values-IsOutcome :
      (now : ℕ) (client : Client) (s : Server F)
      → IsOutcome client s (start_save_values now client s, empty_command)
  unfolding start_save_values write_text
  start_save_values-IsOutcome now client s = elim (Bool-cases s.writing_to_file) [
    | inl on ↦ rw on (inr (refl, inl (already_saving ∷ [], omega arith, refl, inl refl)))
    | inr off ↦ rw off (inr (refl, inl (started_saving ∷ [], omega arith, refl, inl refl)))
  ]

  stop_save_values-IsOutcome :
      (client : Client) (s : Server F)
      → IsOutcome client s (stop_save_values client s, empty_command)
  unfolding stop_save_values write_text
  stop_save_values-IsOutcome client s = elim (Bool-cases s.writing_to_file) [
    | inl on ↦ rw on (inr (refl, inl (stopped_saving ∷ [], omega arith, refl, inl refl)))
    | inr off ↦ rw off (inl refl)
  ]

  interpret_words-IsOutcome :
      (line : List ℕ) (client : Client) (s : Server F)
      → IsOutcome client s (interpret_words line client s)
  unfolding interpret_words
  interpret_words-IsOutcome line client s =
      let cmd = get_or line 0 0 in
      let Good : Server F × Command → Type ℓ = IsOutcome client s in
      if-both Good (cmd == b'g') (finish-IsOutcome client s _) (
        if-both Good (cmd == b'O' || cmd == b'U' || cmd == b'c') (finish-IsOutcome client s _) (
          if-both Good (cmd == b'o') (finish-IsOutcome client s _) (
            if-both Good (cmd == b'b')
              (print_buffer-IsOutcome client line s (check_get_arguments s.node_ids line))
              (if-both Good (cmd == b's')
                (toggle_stream-IsOutcome client line s (check_get_arguments s.node_ids line))
                (told client (unknown_command line) s)))))

  -- Whatever a user types, right or wrong: either nothing has changed on the server, or no command
  -- comes of the line. In the second case at most one text goes out, to this user, and nothing
  -- changes but that, the saving of values and one kind of stream of this user for one node; or the
  -- header of a buffer goes to the console of the server and behind it at most one text to this user,
  -- and nothing else changes.
  pub interpret_command-IsOutcome :
      (now : ℕ) (line : List ℕ) (client : Client) (s : Server F)
      → IsOutcome client s (interpret_command now line client s)
  unfolding interpret_command
  interpret_command-IsOutcome now line client s =
      let cmd = get_or line 0 0 in
      let Good : Server F × Command → Type ℓ = IsOutcome client s in
      if-both Good (cmd == b'q' || cmd == b'r') (inl refl) (
        if-both Good (starts_with start_save line) (start_save_values-IsOutcome now client s) (
          if-both Good (starts_with stop_save line) (stop_save_values-IsOutcome client s) (
            if-both Good (ltb 2 (length line) && get_or line 1 0 == b' ')
              (interpret_words-IsOutcome line client s) (told client (unknown_command line) s))))
