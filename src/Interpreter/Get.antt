-- ===== src/Interpreter/Get.antt =====
-- A get command as a user types it.
use scdtr_project.Prelude.{
  ℕ, suc, ◌+◌, ◌-◌, ◌*◌, ◌/◌, ◌%◌, ◌<◌, ◌≡◌, refl, ap, ◌∙◌, true, false, ◌||◌, some, List, [], ◌∷◌,
  ◌++◌, arith, dec_lt, ltb, leb, ◌==◌, if◌then◌else◌, length, get_or, is_space, is_digit,
  digits_value, stoi, is_in,
}
use scdtr_project.Prelude.Int.{pos}
use scdtr_project.Float.{Float}
use scdtr_project.Command.{typed_command}
use scdtr_project.Server.{Server, Client}
use scdtr_project.Interpreter.{
  ok, and_then, finish, integer_destination, command_get_destination, arguments,
  check_get_arguments, interpret_words, interpret_command,
}

-- A byte as `std::to_string` writes it.
abbrev pub decimal : ℕ → List ℕ
decimal n =
    if ltb n 10
    then (b'0' + n) ∷ []
    else if ltb n 100
    then (b'0' + n / 10) ∷ (b'0' + n % 10) ∷ []
    else (b'0' + n / 100) ∷ (b'0' + n / 10 % 10) ∷ (b'0' + n % 10) ∷ []

-- What may stand behind a number: nothing, or what does not begin with a digit, as the end of a line.
abbrev pub Ends : List ℕ → Type 0
Ends [] = Unit
Ends (c ∷ rest) = is_digit c ≡ false

digits_value-Ends : (n : ℕ) (rest : List ℕ) → Ends rest → digits_value n rest ≡ n
digits_value-Ends n [] e = refl
digits_value-Ends n (c ∷ rest) e = rw e refl

digits_value-digit :
    (n k : ℕ) (s : List ℕ) → k < 10 → digits_value n ((b'0' + k) ∷ s) ≡ digits_value (n * 10 + k) s
digits_value-digit n k s h =
    let digit : is_digit (b'0' + k) ≡ true = ground arith in
    rw digit (ap (λ m. digits_value m s) (omega arith))

-- A number that begins with this digit.
stoi-digit :
    (k n : ℕ) (s : List ℕ)
    → k < 10
    → digits_value k s ≡ n
    → n < 256
    → stoi (b' ' ∷ (b'0' + k) ∷ s) ≡ some (pos n)
stoi-digit k n s h value small =
    let digit : is_digit (b'0' + k) ≡ true = ground arith in
    let solid : is_space (b'0' + k) ≡ false = ground arith in
    let minus : (b'0' + k == b'-') ≡ false = ground arith in
    let plus : (b'0' + k == b'+') ≡ false = ground arith in
    let fits : leb n 2147483647 ≡ true = ground arith in
    rw (solid, minus, plus, digit)
      (rw
        (
          ap (λ m. digits_value m s) {x = 0 * 10 + (b'0' + k - b'0')} {y = k} (omega arith),
          value,
          fits,
        )
        refl)

stoi-decimal :
    (n : ℕ) (rest : List ℕ) → n < 256 → Ends rest → stoi (b' ' ∷ (decimal n ++ rest)) ≡ some (pos n)
stoi-decimal n rest h e = elim (dec_lt n 10) [
  | yes one ↦
      let short : ltb n 10 ≡ true = ground arith in
      rw short (stoi-digit n n rest one (digits_value-Ends n rest e) h)
  | no more ↦
      let long : ltb n 10 ≡ false = ground arith in
      rw long (elim (dec_lt n 100) [
        | yes two ↦
            let short : ltb n 100 ≡ true = ground arith in
            let whole : n / 10 * 10 + n % 10 ≡ n = omega arith in
            rw short (
              stoi-digit (n / 10) n ((b'0' + n % 10) ∷ rest) (omega arith)
                (digits_value-digit (n / 10) (n % 10) rest (omega arith)
                  ∙ digits_value-Ends (n / 10 * 10 + n % 10) rest e
                  ∙ whole)
                h)
        | no three ↦
            let longer : ltb n 100 ≡ false = ground arith in
            let top : ℕ = n / 100 * 10 + n / 10 % 10 in
            let whole : top * 10 + n % 10 ≡ n = omega arith in
            rw longer (
              stoi-digit (n / 100) n ((b'0' + n / 10 % 10) ∷ (b'0' + n % 10) ∷ rest) (omega arith)
                (digits_value-digit (n / 100) (n / 10 % 10) ((b'0' + n % 10) ∷ rest) (omega arith)
                  ∙ digits_value-digit top (n % 10) rest (omega arith)
                  ∙ digits_value-Ends (top * 10 + n % 10) rest e
                  ∙ whole)
                h)
      ])
]

decimal-nonempty : (n : ℕ) (rest : List ℕ) → n < 256 → 0 < length (decimal n ++ rest)
decimal-nonempty n rest h = ground arith

decimal-digit : (n : ℕ) (rest : List ℕ) → n < 256 → (get_or (decimal n ++ rest) 0 0 == b'T') ≡ false
decimal-digit n rest h = ground arith

abbrev pub typed_line : ℕ → ℕ → ℕ → List ℕ → List ℕ
typed_line cmd t id rest = cmd ∷ b' ' ∷ t ∷ b' ' ∷ (decimal id ++ rest)

abbrev pub get_line : ℕ → ℕ → List ℕ → List ℕ
get_line t id rest = typed_line b'g' t id rest

pub check_get_arguments-typed_line :
    (cmd t id : ℕ) (rest ids : List ℕ)
    → is_in t arguments ≡ true
    → 0 < id
    → id < 256
    → is_in id ids ≡ true
    → Ends rest
    → check_get_arguments ids (typed_line cmd t id rest) ≡ ok id
unfolding check_get_arguments command_get_destination
check_get_arguments-typed_line cmd t id rest ids known pos_id byte listed e =
    let long : ltb (suc (suc (suc (suc (length (decimal id ++ rest)))))) 5 ≡ false =
      ground (arith, decimal-nonempty id rest byte) in
    let in_range : (id == 0 || ltb 255 id) ≡ false = ground arith in
    rw (long, known, decimal-digit id rest byte)
      (ap (integer_destination ids) (stoi-decimal id rest byte e) ∙ rw (in_range, listed) refl)

module _ {ℓ} {F : Type ℓ} ⦃d : Float F⦄ where
  -- A user who types "g", one of the letters of the get commands and the number of a node that the
  -- server knows, with the end of the line or anything else behind it that does not begin with a
  -- digit, gets just the command for that letter and that node, and nothing else happens. The number
  -- is between 1 and 255.
  pub interpret_command-get :
      (now t id : ℕ) (rest : List ℕ) (client : Client) (s : Server F)
      → is_in t arguments ≡ true
      → 0 < id
      → id < 256
      → is_in id s.node_ids ≡ true
      → Ends rest
      → interpret_command now (get_line t id rest) client s ≡ (s, typed_command b'g' id t)
  unfolding interpret_command interpret_words
  interpret_command-get now t id rest client s known pos_id byte listed e =
      let long : ltb 2 (suc (suc (suc (suc (length (decimal id ++ rest)))))) ≡ true =
        ground arith in
      rw long (
        ap (λ r. finish client s (and_then r (λ id. ok (typed_command b'g' id t))))
          (check_get_arguments-typed_line b'g' t id rest s.node_ids known pos_id byte listed e))
