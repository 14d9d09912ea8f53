-- ===== src/Program.antt =====
-- `main` of SCDTR-PC/SCDTR-PC/main.cpp: the arguments that choose between the server and the client.
use scdtr_project.Prelude.{
  ℕ, ◌≡◌, refl, Bool, true, false, ◌&&◌, List, [], ◌∷◌, ltb, ◌==◌, if◌then◌else◌, length, get_or,
}

pub data Mode : Type 0 where
  -- The serial port, and the address of the server.
  server client : List ℕ → Mode
  usage : Mode

-- `strcmp(...) == 0`
abbrev same_string : List ℕ → List ℕ → Bool
same_string [] [] = true
same_string [] (y ∷ ys) = false
same_string (x ∷ xs) [] = false
same_string (x ∷ xs) (y ∷ ys) = x == y && same_string xs ys

abbrev server_option : List ℕ
server_option = b'-' ∷ b'-' ∷ b's' ∷ b'e' ∷ b'r' ∷ b'v' ∷ b'e' ∷ b'r' ∷ []

abbrev client_option : List ℕ
client_option = b'-' ∷ b'-' ∷ b'c' ∷ b'l' ∷ b'i' ∷ b'e' ∷ b'n' ∷ b't' ∷ []

-- What `main` runs, and its exit code. What `runServer` and `runClient` return is not looked at.
pub main : List (List ℕ) → Mode × ℕ
main argv =
    if ltb (length argv) 3
    then (usage, 1)
    else if same_string (get_or argv 1 []) server_option
    then (server (get_or argv 2 []), 0)
    else if same_string (get_or argv 1 []) client_option
    then (client (get_or argv 2 []), 0)
    else (usage, 1)

main_test : main ((b'p' ∷ []) ∷ client_option ∷ (b'h' ∷ []) ∷ []) ≡ (client (b'h' ∷ []), 0)
unfolding main
main_test = refl
