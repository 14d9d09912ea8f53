-- ===== src/Interpreter/Destination.antt =====
-- The destination of the commands that a user types.
use scdtr_project.Prelude.{
  ℕ, ◌<◌, ◌≡◌, refl, sym, subst, ◌⊎◌, inl, inr, Bool, true, not, ◌&&◌, ◌||◌, Option, none, some,
  List, [], ◌∷◌, ◌++◌, arith, ltb, ◌==◌, if◌then◌else◌, Bool-cases, if-both, length, get_or, drop,
  stoi, starts_with, is_in,
}
use scdtr_project.Prelude.Int.{ℤ, pos, negsuc}
use scdtr_project.Float.{Float, nat}
use scdtr_project.Command.{Command, empty_command, typed_command, float_command}
use scdtr_project.Server.{Server, Client, write_text, unknown_command}
use scdtr_project.Interpreter.{
  Result, ok, failed, and_then, check_destination, integer_destination, command_get_destination,
  arguments, arguments_with_t, check_get_arguments, split_space, number_of, set_arguments,
  check_set_arguments_float, check_set_arguments_bool, finish, print_buffer, toggle_stream,
  start_save_values, stop_save_values, start_save, stop_save, interpret_words, interpret_command,
}

-- A byte that is 0, for all nodes, or one of `ids`.
abbrev pub IsDestination : List ℕ → ℕ → Type 0
IsDestination ids id = (id < 256) × ((id ≡ 0) ⊎ (is_in id ids ≡ true))

-- If there is a result.
abbrev Sure {ℓ} : {A : Type ℓ} → (A → Type 0) → Result A → Type 0
Sure P (ok a) = P a
Sure P (failed e) = Unit {0}

Sure-and_then {ℓ κ} :
    {A : Type ℓ} {B : Type κ} (P : A → Type 0) (Q : B → Type 0) (r : Result A) (f : A → Result B)
    → Sure P r
    → ((a : A) → P a → Sure Q (f a))
    → Sure Q (and_then r f)
Sure-and_then P Q (ok a) f p h = h a p
Sure-and_then P Q (failed e) f p h = tt

check_destination-Sure : (ids : List ℕ) (n : ℤ) → Sure (IsDestination ids) (check_destination ids n)
check_destination-Sure ids (negsuc n) = tt
check_destination-Sure ids (pos n) = elim (Bool-cases (n == 0 || ltb 255 n)) [
  | inl t ↦ rw t tt
  | inr t ↦ elim (Bool-cases (is_in n ids)) [
    | inl known ↦ rw (t, known) (ground arith, inr known)
    | inr other ↦ rw (t, other) tt
  ]
]

integer_destination-Sure :
    (ids : List ℕ) (n : Option ℤ) → Sure (IsDestination ids) (integer_destination ids n)
integer_destination-Sure ids none = tt
integer_destination-Sure ids (some n) = check_destination-Sure ids n

check_get_arguments-Sure :
    (ids line : List ℕ) → Sure (IsDestination ids) (check_get_arguments ids line)
unfolding check_get_arguments command_get_destination
check_get_arguments-Sure ids line =
    let Good = Sure (IsDestination ids) in
    if-both Good (ltb (length line) 5 || not (get_or line 3 0 == b' ')) tt (
      if-both Good (not (is_in (get_or line 2 0) arguments)) tt (
        if-both Good (get_or line 4 0 == b'T')
          (if-both Good (is_in (get_or line 2 0) arguments_with_t) (omega arith, inl refl) tt)
          (integer_destination-Sure ids (stoi (drop 3 line)))))

module _ {ℓ} {F : Type ℓ} ⦃d : Float F⦄ where
  abbrev Goes : List ℕ → ℕ × F → Type 0
  Goes ids p = IsDestination ids p.0

  number_of-Sure :
      (ids : List ℕ) (id : ℕ) (v : Option F)
      → IsDestination ids id
      → Sure (Goes ids) (number_of id v)
  number_of-Sure ids id none h = tt
  number_of-Sure ids id (some v) h = h

module _ {ℓ} (F : Type ℓ) ⦃d : Float F⦄ where
  set_arguments-Sure :
      (ids : List ℕ) (parts : Option (List ℕ × List ℕ))
      → Sure (Goes {F = F} ids) (set_arguments {F = F} ids parts)
  unfolding command_get_destination
  set_arguments-Sure ids none = tt
  set_arguments-Sure ids (some (before, after)) =
      Sure-and_then (IsDestination ids) (Goes ids)
        (integer_destination ids (stoi (before ++ b' ' ∷ []))) (λ id. number_of id (d.stof after))
        (integer_destination-Sure ids (stoi (before ++ b' ' ∷ [])))
        (λ id h. number_of-Sure ids id (d.stof after) h)

  check_set_arguments_float-Sure :
      (ids line : List ℕ) → Sure (Goes {F = F} ids) (check_set_arguments_float {F = F} ids line)
  unfolding check_set_arguments_float
  check_set_arguments_float-Sure ids line =
      if-both (Sure (Goes {F = F} ids)) (ltb (length line) 5 || not (get_or line 1 0 == b' ')) tt
        (set_arguments-Sure ids (split_space (drop 2 line)))

  check_set_arguments_bool-Sure :
      (ids line : List ℕ)
      → Sure {A = ℕ × Bool} (λ p. IsDestination ids p.0) (check_set_arguments_bool d ids line)
  unfolding check_set_arguments_bool
  check_set_arguments_bool-Sure ids line =
      let Named : ℕ × Bool → Type 0 = λ p. IsDestination ids p.0 in
      Sure-and_then (Goes {F = F} ids) Named (check_set_arguments_float ids line) _
        (check_set_arguments_float-Sure ids line)
        (λ p h. if-both (Sure Named) (not (d.eq p.1 (nat 0)) && not (d.eq p.1 (nat 1))) tt h)

module _ {ℓ} {F : Type ℓ} ⦃d : Float F⦄ where
  finish-Sure :
      (ids : List ℕ) (client : Client) (s : Server F) (r : Result Command)
      → Sure (λ c. IsDestination ids c.destination) r
      → IsDestination ids (finish client s r).1.destination
  finish-Sure ids client s (ok c) h = h
  finish-Sure ids client s (failed e) h = (omega arith, inl refl)

  print_buffer-destination :
      (client : Client) (line : List ℕ) (s : Server F) (r : Result ℕ)
      → (print_buffer client line s r).1.destination ≡ 0
  unfolding print_buffer
  print_buffer-destination client line s (ok id) = refl
  print_buffer-destination client line s (failed e) = refl

  toggle_stream-destination :
      (client : Client) (line : List ℕ) (s : Server F) (r : Result ℕ)
      → (toggle_stream client line s r).1.destination ≡ 0
  unfolding toggle_stream
  toggle_stream-destination client line s (ok id) = refl
  toggle_stream-destination client line s (failed e) = refl

  interpret_words-destination :
      (line : List ℕ) (client : Client) (s : Server F)
      → IsDestination s.node_ids (interpret_words line client s).1.destination
  unfolding interpret_words typed_command float_command check_set_arguments_bool
  interpret_words-destination line client s =
      let cmd = get_or line 0 0 in
      let ids = s.node_ids in
      let Good : Server F × Command → Type 0 = λ r. IsDestination ids r.1.destination in
      let Sent : Command → Type 0 = λ c. IsDestination ids c.destination in
      let nobody : IsDestination ids 0 = (omega arith, inl refl) in
      let gets =
        and_then (check_get_arguments ids line)
          (λ id. ok (typed_command cmd id (get_or line 2 0))) in
      let sets =
        and_then (check_set_arguments_float {F = F} ids line)
          (λ p. ok (float_command cmd p.0 p.1)) in
      let bools =
        and_then (check_set_arguments_bool d ids line)
          (λ p. ok (typed_command cmd p.0 (if p.1 then 1 else 0))) in
      let unknown : Server F × Command =
        (write_text client (unknown_command line) s, empty_command) in
      let streams : Server F × Command =
        toggle_stream client line s (check_get_arguments ids line) in
      let prints : Server F × Command = print_buffer client line s (check_get_arguments ids line) in
      let e : Server F × Command = if cmd == b's' then streams else unknown in
      let f : Server F × Command = if cmd == b'b' then prints else e in
      let g : Server F × Command = if cmd == b'o' then finish client s bools else f in
      let h : Server F × Command =
        if cmd == b'O' || cmd == b'U' || cmd == b'c' then finish client s sets else g in
      if-both Good (cmd == b'g') {x = finish client s gets} {y = h}
        (finish-Sure ids client s gets (
          Sure-and_then (IsDestination ids) Sent _ _ (check_get_arguments-Sure ids line)
            (λ id h. h)))
        (if-both Good (cmd == b'O' || cmd == b'U' || cmd == b'c') {x = finish client s sets} {y = g}
          (finish-Sure ids client s sets (
            Sure-and_then (Goes ids) Sent _ _ (check_set_arguments_float-Sure F ids line)
              (λ p h. h)))
          (if-both Good (cmd == b'o') {x = finish client s bools} {y = f}
            (finish-Sure ids client s bools (
              Sure-and_then (λ (p : ℕ × Bool). IsDestination ids p.0) Sent _ _
                (check_set_arguments_bool-Sure F ids line) (λ p h. h)))
            (if-both Good (cmd == b'b') {x = prints} {y = e}
              (subst (IsDestination ids) (sym (print_buffer-destination client line s _)) nobody)
              (if-both Good (cmd == b's') {x = streams} {y = unknown}
                (subst (IsDestination ids) (sym (toggle_stream-destination client line s _)) nobody)
                nobody))))

  -- Whatever a user types, the command that comes of it has a destination that is a byte: 0, or one of
  -- the nodes that the server knows.
  pub interpret_command-destination :
      (now : ℕ) (line : List ℕ) (client : Client) (s : Server F)
      → let c = (interpret_command now line client s).1 in
        (c.destination < 256) × ((c.destination ≡ 0) ⊎ (is_in c.destination s.node_ids ≡ true))
  unfolding interpret_command typed_command
  interpret_command-destination now line client s =
      let cmd = get_or line 0 0 in
      let Good : Server F × Command → Type 0 = λ r. IsDestination s.node_ids r.1.destination in
      let nobody : IsDestination s.node_ids 0 = (omega arith, inl refl) in
      let unknown : Server F × Command =
        (write_text client (unknown_command line) s, empty_command) in
      let words : Server F × Command = interpret_words line client s in
      let e : Server F × Command =
        if ltb 2 (length line) && get_or line 1 0 == b' ' then words else unknown in
      let stops : Server F × Command = (stop_save_values client s, empty_command) in
      let f : Server F × Command = if starts_with stop_save line then stops else e in
      let starts : Server F × Command = (start_save_values now client s, empty_command) in
      let g : Server F × Command = if starts_with start_save line then starts else f in
      if-both Good (cmd == b'q' || cmd == b'r') {x = (s, typed_command cmd 0 0)} {y = g} nobody (
        if-both Good (starts_with start_save line) {x = starts} {y = f} nobody (
          if-both Good (starts_with stop_save line) {x = stops} {y = e} nobody (
            if-both Good (ltb 2 (length line) && get_or line 1 0 == b' ') {x = words} {y = unknown}
              (interpret_words-destination line client s) nobody)))
