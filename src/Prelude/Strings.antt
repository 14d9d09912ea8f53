-- ===== src/Prelude/Strings.antt =====
-- Strings as lists of bytes, with the functions of the C++ library that the program on the PC uses.
use Prim.Native.Nat.{ℕ, ◌+◌, ◌-◌, ◌*◌}
use mathlib.Core.Bool.{Bool, true, false, ◌&&◌, ◌||◌}
use mathlib.Core.Option.{Option, none, some}
use mathlib.Core.List.{List, [], ◌∷◌}
use scdtr_project.Prelude.Tests.{leb, ◌==◌, if◌then◌else◌}
use scdtr_project.Prelude.Lists.{get_or}
use scdtr_project.Prelude.Int.{ℤ, signed}

-- `isspace` in the C locale
abbrev pub is_space : ℕ → Bool
is_space c = c == b' ' || leb 9 c && leb c 13

abbrev pub is_digit : ℕ → Bool
is_digit c = leb b'0' c && leb c b'9'

abbrev pub skip_spaces : List ℕ → List ℕ
skip_spaces [] = []
skip_spaces (c ∷ s) = let rest = skip_spaces s in if is_space c then rest else c ∷ s

-- The value of the digits that a string starts with, behind those of value `n`.
abbrev pub digits_value : ℕ → List ℕ → ℕ
digits_value n [] = n
digits_value n (c ∷ s) =
    let rest = digits_value (n * 10 + (c - b'0')) s in if is_digit c then rest else n

abbrev pub stoi_digits : Bool → List ℕ → Option ℤ
stoi_digits minus s =
    let n = digits_value 0 s in
    if is_digit (get_or s 0 0)
    then (if leb n (if minus then 2147483648 else 2147483647) then some (signed minus n) else none)
    else none

abbrev pub stoi_sign : List ℕ → Option ℤ
stoi_sign [] = none
stoi_sign (c ∷ s) =
    if c == b'-'
    then stoi_digits true s
    else if c == b'+'
    then stoi_digits false s
    else stoi_digits false (c ∷ s)

-- `std::stoi`; `none` is an exception.
abbrev pub stoi : List ℕ → Option ℤ
stoi s = stoi_sign (skip_spaces s)

-- `rfind(prefix, 0) == 0`
abbrev pub starts_with : List ℕ → List ℕ → Bool
starts_with [] s = true
starts_with (c ∷ prefix) [] = false
starts_with (c ∷ prefix) (x ∷ s) = c == x && starts_with prefix s

-- `find`
abbrev pub is_in : ℕ → List ℕ → Bool
is_in x [] = false
is_in x (y ∷ ys) = x == y || is_in x ys
