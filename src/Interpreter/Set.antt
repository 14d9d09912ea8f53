-- ===== src/Interpreter/Set.antt =====
-- A set command as a user types it.
use scdtr_project.Prelude.{
  ℕ, ◌<◌, ◌≡◌, refl, ap, ◌∙◌, true, false, ◌||◌, some, List, [], ◌∷◌, ◌++◌, arith, ltb, ◌==◌,
  length, stoi, starts_with, is_in,
}
use scdtr_project.Prelude.Int.{pos}
use scdtr_project.Float.{Float}
use scdtr_project.Command.{float_command}
use scdtr_project.Server.{Server, Client}
use scdtr_project.Interpreter.{
  start_save, ok, and_then, finish, command_get_destination, set_arguments, split_space,
  check_set_arguments_float, interpret_words, interpret_command,
}
use scdtr_project.Interpreter.Get.{decimal}

abbrev pub set_line : ℕ → ℕ → List ℕ → List ℕ
set_line cmd id value = cmd ∷ b' ' ∷ (decimal id ++ b' ' ∷ value)

stoi-decimal_space : (n : ℕ) → n < 256 → stoi (decimal n ++ b' ' ∷ []) ≡ some (pos n)
stoi-decimal_space n h = ground arith

split_space-decimal :
    (n : ℕ) (value : List ℕ)
    → n < 256
    → split_space (decimal n ++ b' ' ∷ value) ≡ some (decimal n, value)
split_space-decimal n value h = ground arith

long_line :
    (cmd n x : ℕ) (more : List ℕ) → n < 256 → ltb (length (set_line cmd n (x ∷ more))) 5 ≡ false
long_line cmd n x more h = ground arith

longer_line :
    (cmd n x : ℕ) (more : List ℕ) → n < 256 → ltb 2 (length (set_line cmd n (x ∷ more))) ≡ true
longer_line cmd n x more h = ground arith

module _ {ℓ} {F : Type ℓ} ⦃d : Float F⦄ where
  check_set_arguments_float-set_line :
      (cmd id x : ℕ) (more ids : List ℕ) (v : F)
      → d.stof (x ∷ more) ≡ some v
      → 0 < id
      → id < 256
      → is_in id ids ≡ true
      → check_set_arguments_float ids (set_line cmd id (x ∷ more)) ≡ ok (id, v)
  unfolding check_set_arguments_float command_get_destination
  check_set_arguments_float-set_line cmd id x more ids v value pos_id byte listed =
      let in_range : (id == 0 || ltb 255 id) ≡ false = ground arith in
      rw (long_line cmd id x more byte) (
        ap (set_arguments ids) (split_space-decimal id (x ∷ more) byte)
        ∙ rw (stoi-decimal_space id byte, in_range, listed, value) refl)

  -- When a user types "O", "U" or "c", the number of a node that the server knows, between 1 and
  -- 255, and a text that is not empty and that `stof` reads as a value, the outcome is just that
  -- command for that node and that value, and nothing else happens.
  pub interpret_command-set :
      (now cmd id x : ℕ) (more : List ℕ) (v : F) (client : Client) (s : Server F)
      → is_in cmd (b'O' ∷ b'U' ∷ b'c' ∷ []) ≡ true
      → d.stof (x ∷ more) ≡ some v
      → 0 < id
      → id < 256
      → is_in id s.node_ids ≡ true
      → interpret_command now (set_line cmd id (x ∷ more)) client s ≡ (s, float_command cmd id v)
  unfolding interpret_command interpret_words
  interpret_command-set now cmd id x more v client s known value pos_id byte listed =
      let read =
        check_set_arguments_float-set_line cmd id x more s.node_ids v value pos_id byte listed in
      let long = longer_line cmd id x more byte in
      let not_q : (cmd == b'q' || cmd == b'r') ≡ false = ground arith in
      let line = set_line cmd id (x ∷ more) in
      let not_start : starts_with start_save line ≡ false = ground arith in
      let not_g : (cmd == b'g') ≡ false = ground arith in
      let sets : (cmd == b'O' || cmd == b'U' || cmd == b'c') ≡ true = ground arith in
      rw (not_q, not_start, long, not_g, sets)
        (ap (λ r. finish client s (and_then r (λ (id, v). ok (float_command cmd id v)))) read)
