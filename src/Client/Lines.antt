-- ===== src/Client/Lines.antt =====
-- A line from the console of a client to the server, and a text back.
use scdtr_project.Prelude.{
  ℕ, zero, suc, ◌<◌, ◌≡◌, refl, ap, ◌∙◌, true, false, some, List, [], ◌∷◌, ◌++◌, append_assoc,
  arith, ltb, ◌==◌, lt→ltb, length, get_or, take, drop, All,
}
use scdtr_project.Float.{Float}
use scdtr_project.Session.{
  received_size, Pc, c_string, store, start_receive_read, take_line, receive_read,
}
use scdtr_project.Client.{ClientProgram, text, write_line, handle_read_input, read_socket}

-- The first `n` bytes of a line with its 0 and more.
take-fits :
    (line more : List ℕ) (n : ℕ)
    → length line < n
    → (tail : List ℕ) × (take n ((line ++ 0 ∷ []) ++ more) ≡ line ++ 0 ∷ tail)
take-fits line more zero h = absurd (omega arith)
take-fits [] more (suc n) h = (take n more, refl)
take-fits (x ∷ line) more (suc n) h =
    let (tail, e) = take-fits line more n (omega arith) in (tail, ap (λ l. x ∷ l) e)

c_string-append : (line rest : List ℕ) → All (λ b. 0 < b) line → c_string (line ++ 0 ∷ rest) ≡ line
c_string-append [] rest h = refl
c_string-append (x ∷ line) rest (pos_x, h) =
    let not_end : (x == 0) ≡ false = ground arith in
    rw not_end (ap (λ l. x ∷ l) (c_string-append line rest h))

-- A read of a line and its 0, which fit into the buffer, and of what comes behind.
c_string-store :
    (line more buffer : List ℕ)
    → All (λ b. 0 < b) line
    → length line < received_size
    → c_string (store ((line ++ 0 ∷ []) ++ more) buffer) ≡ line
c_string-store line more buffer h fits =
    let (tail, e) = take-fits line more received_size fits in
    let rest = drop (length (line ++ 0 ∷ tail)) buffer in
    ap (λ chunk. c_string (chunk ++ drop (length chunk) buffer)) e
    ∙ ap c_string (append_assoc line (0 ∷ tail) rest)
    ∙ c_string-append line (tail ++ rest) h

some_bytes : (line more : List ℕ) → ltb 0 (length ((line ++ 0 ∷ []) ++ more)) ≡ true
some_bytes [] more = ground arith
some_bytes (x ∷ line) more = ground arith

module _ {ℓ} {F : Type ℓ} ⦃d : Float F⦄ where
  receive_read-line :
      (now c : ℕ) (line more : List ℕ) (pc : Pc F)
      → All (λ b. 0 < b) line
      → length line < received_size
      → (receive_read now c false ((line ++ 0 ∷ []) ++ more) pc).server
        ≡ take_line now line (some c) pc.server
  unfolding receive_read start_receive_read
  receive_read-line now c line more pc h fits = rw (some_bytes line more) (
      ap (λ l. take_line now l (some c) pc.server)
        (c_string-store line more (pc.connections c).received h fits))

  -- A line of fewer than 1024 bytes with no byte 0 that a user types at a client, and that does not
  -- begin with q, goes to the server with a 0 behind it. When the server reads these bytes, with any
  -- bytes behind them, it takes just this line from the session: what comes behind in the same read
  -- is lost. A text of this kind that comes back with a 0 behind it, and any bytes behind that, is
  -- shown as it was sent.
  pub client-line :
      (now c : ℕ) (line more : List ℕ) (p : ClientProgram) (pc : Pc F)
      → All (λ b. 0 < b) line
      → 0 < length line
      → length line < received_size
      → (get_or line 0 0 == b'q') ≡ false
      → let bytes = line ++ 0 ∷ [] in
        ((handle_read_input (length line) line p).socket_out ≡ p.socket_out ++ bytes)
        × ((receive_read now c false (bytes ++ more) pc).server
            ≡ take_line now line (some c) pc.server)
        × ((read_socket false (bytes ++ more) p).console_out ≡ p.console_out ++ text line ∷ [])
  unfolding handle_read_input write_line read_socket
  client-line now c line more p pc h some_line fits other =
      let len : ltb 0 (length line) ≡ true = lt→ltb 0 (length line) some_line in
      (
        rw (len, other) refl,
        receive_read-line now c line more pc h fits,
        rw (some_bytes line more)
            (ap (λ l. p.console_out ++ text l ∷ []) (c_string-store line more p.received h fits)),
      )
