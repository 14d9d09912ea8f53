-- ===== src/Interpreter/Saving.antt =====
-- What goes to the file of saved values between the commands that start and stop it.
use scdtr_project.Prelude.{
  ℕ, ◌≡◌, refl, sym, ap₂, ◌∙◌, inl, inr, true, false, List, [], ◌∷◌, ◌++◌, append-nil, append_assoc,
  if◌then◌else◌, Bool-cases, if-eq_true, if-eq_false,
}
use scdtr_project.Float.{Float}
use scdtr_project.LastMinuteBuffer.{FrequentDataValues}
use scdtr_project.Server.{Server, Client, FileRow, ActiveStream, write_text}
use scdtr_project.Server.Frequent.{
  Clock, file_row, write_to_file, stream_to, stream_all, received_frequent_data,
}
use scdtr_project.Interpreter.{
  start_save, stop_save, start_save_values, stop_save_values, interpret_command,
}

-- The values of a node, with the clock when they come.
pub record Arrival {ℓ} (F : Type ℓ) : Type ℓ where
  pub clock : Clock
  pub node : ℕ
  pub values : FrequentDataValues F

module _ {ℓ} {F : Type ℓ} where
  -- Streams leave the file alone.
  abbrev SameFile : Server F → Server F → Type ℓ
  SameFile s s' =
      (s'.file_output ≡ s.file_output)
      × (s'.file_writing_started ≡ s.file_writing_started)
      × (s'.writing_to_file ≡ s.writing_to_file)

  stream_to-SameFile :
      (a : ActiveStream) (v : FrequentDataValues F) (s : Server F) → SameFile s (stream_to a v s)
  unfolding stream_to write_text
  stream_to-SameFile a v s = elim (Bool-cases a.streaming_pwm) [
    | inl p ↦ elim (Bool-cases a.streaming_iluminance) [
      | inl q ↦ rw (p, q) (refl, refl, refl)
      | inr q ↦ rw (p, q) (refl, refl, refl)
    ]
    | inr p ↦ elim (Bool-cases a.streaming_iluminance) [
      | inl q ↦ rw (p, q) (refl, refl, refl)
      | inr q ↦ rw (p, q) (refl, refl, refl)
    ]
  ]

  stream_all-SameFile :
      (streams : List ActiveStream) (v : FrequentDataValues F) (s : Server F)
      → SameFile s (stream_all streams v s)
  unfolding stream_all
  stream_all-SameFile [] v s = (refl, refl, refl)
  stream_all-SameFile (a ∷ more) v s =
      let (o, t, w) = stream_to-SameFile a v s in
      let (o', t', w') = stream_all-SameFile more v (stream_to a v s) in (o' ∙ o, t' ∙ t, w' ∙ w)

module _ {ℓ} {F : Type ℓ} ⦃d : Float F⦄ where
  pub receive_all : List (Arrival F) → Server F → Server F
  receive_all [] s = s
  receive_all (a ∷ more) s = receive_all more (received_frequent_data a.clock a.node a.values s)

  -- The rows for values, in the order in which they come.
  abbrev pub file_rows : ℕ → List (Arrival F) → List (FileRow F)
  file_rows started [] = []
  file_rows started (a ∷ more) =
      file_row a.clock.millis started a.node a.values ∷ file_rows started more

  -- One arrival leaves the start and the switch, and adds its row if the switch is on.
  abbrev IsSaved : Arrival F → Server F → Server F → Type ℓ
  IsSaved a s s' =
      (s'.file_output ≡ (
        if s.writing_to_file
        then s.file_output ++ file_row a.clock.millis s.file_writing_started a.node a.values ∷ []
        else s.file_output))
      × (s'.file_writing_started ≡ s.file_writing_started)
      × (s'.writing_to_file ≡ s.writing_to_file)

  write_to_file-IsSaved :
      (a : Arrival F) (s : Server F) → IsSaved a s (write_to_file a.clock.millis a.node a.values s)
  unfolding write_to_file
  write_to_file-IsSaved a s = elim (Bool-cases s.writing_to_file) [
    | inl on ↦ rw on (refl, refl, refl)
    | inr off ↦ rw off (refl, refl, refl)
  ]

  received-IsSaved :
      (a : Arrival F) (s : Server F)
      → IsSaved a s (received_frequent_data a.clock a.node a.values s)
  unfolding received_frequent_data
  received-IsSaved a s =
      let (o, t, w) =
        stream_all-SameFile (s.active_streams a.node) a.values
          (write_to_file a.clock.millis a.node a.values s) in
      let (o', t', w') = write_to_file-IsSaved a s in (o ∙ o', t ∙ t', w ∙ w')

  receive_all-on :
      (arrivals : List (Arrival F)) (s : Server F)
      → s.writing_to_file ≡ true
      → let s' = receive_all arrivals s in
        (s'.file_output ≡ s.file_output ++ file_rows s.file_writing_started arrivals)
        × (s'.writing_to_file ≡ true)
  unfolding receive_all
  receive_all-on [] s on = (sym (append-nil s.file_output), on)
  receive_all-on (a ∷ more) s on =
      let (o, t, w) = received-IsSaved a s in
      let s' = received_frequent_data a.clock a.node a.values s in
      let (o', w') = receive_all-on more s' (w ∙ on) in
      let row = file_row a.clock.millis s.file_writing_started a.node a.values in
      (
        o'
            ∙ ap₂ (λ l n. l ++ file_rows n more)
                (o ∙ if-eq_true (s.file_output ++ row ∷ []) s.file_output on) t
            ∙ append_assoc s.file_output (row ∷ []) (file_rows s.file_writing_started more),
        w',
      )

  receive_all-off :
      (arrivals : List (Arrival F)) (s : Server F)
      → s.writing_to_file ≡ false
      → let s' = receive_all arrivals s in
        (s'.file_output ≡ s.file_output) × (s'.writing_to_file ≡ false)
  unfolding receive_all
  receive_all-off [] s off = (refl, off)
  receive_all-off (a ∷ more) s off =
      let (o, t, w) = received-IsSaved a s in
      let (o', w') =
        receive_all-off more (received_frequent_data a.clock a.node a.values s) (w ∙ off) in
      (
        o'
            ∙ o
            ∙ if-eq_false
                (s.file_output
                  ++ file_row a.clock.millis s.file_writing_started a.node a.values ∷ [])
                s.file_output off,
        w',
      )

  start_save_values-begins :
      (now : ℕ) (client : Client) (s : Server F)
      → s.writing_to_file ≡ false
      → let s' = start_save_values now client s in
        ((rows : List (Arrival F))
          → s'.file_output ++ file_rows s'.file_writing_started rows ≡ file_rows now rows)
        × (s'.writing_to_file ≡ true)
  unfolding start_save_values write_text
  start_save_values-begins now client s off = rw off (λ rows. refl, refl)

  stop_save_values-ends :
      (client : Client) (s : Server F)
      → let s' = stop_save_values client s in
        (s'.file_output ≡ s.file_output) × (s'.writing_to_file ≡ false)
  unfolding stop_save_values write_text
  stop_save_values-ends client s = elim (Bool-cases s.writing_to_file) [
    | inl on ↦ rw on (refl, refl)
    | inr off ↦ rw off (refl, refl)
  ]

  -- When no values are saved and a user types a line that starts with "start save", and later one that
  -- starts with "stop save", the file holds just the values that came in between, in their
  -- order, with the milliseconds since the start: neither what an earlier file held, nor what comes after.
  pub interpret_command-saves :
      (now after : ℕ) (rest rest' : List ℕ) (client client' : Client)
      (during later : List (Arrival F)) (s : Server F)
      → s.writing_to_file ≡ false
      → let started = (interpret_command now (start_save ++ rest) client s).0 in
        let saved = receive_all during started in
        let stopped = (interpret_command after (stop_save ++ rest') client' saved).0 in
        (receive_all later stopped).file_output ≡ file_rows now during
  unfolding interpret_command
  interpret_command-saves now after rest rest' client client' during later s off =
      let started = start_save_values now client s in
      let begins = start_save_values-begins now client s off in
      let (rows, on) = receive_all-on during started begins.1 in
      let (ends, closed) = stop_save_values-ends client' (receive_all during started) in
      let (kept, still) =
        receive_all-off later (stop_save_values client' (receive_all during started)) closed in
      kept ∙ ends ∙ rows ∙ begins.0 during
