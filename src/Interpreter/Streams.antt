-- ===== src/Interpreter/Streams.antt =====
-- The streams that a user turns on and off.
use scdtr_project.Prelude.{
  ℕ, suc, ◌<◌, ◌≡◌, refl, sym, inl, inr, Bool, true, false, not, ◌&&◌, none, some, List, [], ◌∷◌,
  ◌++◌, append-nil, arith, ltb, ◌==◌, if◌then◌else◌, ==_iff, Bool-cases, length, is_in,
}
use scdtr_project.Float.{Float}
use scdtr_project.Server.{Server, Client, ActiveStream, ack, write_text}
use scdtr_project.Interpreter.{
  ok, arguments, same_client, is_streaming, toggle, toggle_stream, interpret_words,
  interpret_command,
}
use scdtr_project.Interpreter.Get.{Ends, decimal, typed_line, check_get_arguments-typed_line}

abbrev pub same : Bool → Bool → Bool
same true b = b
same false b = not b

-- "s d" for the PWM values or "s I" for the iluminance, and the number of a node.
abbrev letter : Bool → ℕ
letter pwm = if pwm then b'd' else b'I'

letter-known : (pwm : Bool) → is_in (letter pwm) arguments ≡ true
letter-known true = refl
letter-known false = refl

abbrev pub stream_line : Bool → ℕ → List ℕ → List ℕ
stream_line pwm id rest = typed_line b's' (letter pwm) id rest

-- Clients that are the same as a third are the same.
same_client_trans : (c c' a : Client) → same_client c a ≡ true → same_client c' a ≡ same_client c' c
same_client_trans none none none h = refl
same_client_trans none none (some z) h = ground arith
same_client_trans none (some y) none h = refl
same_client_trans none (some y) (some z) h = ground arith
same_client_trans (some x) none none h = ground arith
same_client_trans (some x) none (some z) h = refl
same_client_trans (some x) (some y) none h = ground arith
same_client_trans (some x) (some y) (some z) h = ground arith

same_client_apart :
    (c c' a : Client) → same_client c a ≡ false → same_client c' a ≡ true → same_client c' c ≡ false
same_client_apart none none none h k = ground arith
same_client_apart none none (some z) h k = ground arith
same_client_apart none (some y) none h k = ground arith
same_client_apart none (some y) (some z) h k = refl
same_client_apart (some x) none none h k = refl
same_client_apart (some x) none (some z) h k = ground arith
same_client_apart (some x) (some y) none h k = ground arith
same_client_apart (some x) (some y) (some z) h k = ground arith

-- What a list says after a change of one value.
is_streaming-toggle :
    (c c' : Client) (k k' : Bool) (streams : List ActiveStream)
    → is_streaming c' k' (toggle c k streams) ≡ (
        if same_client c' c && same k' k
        then not (is_streaming c k streams)
        else is_streaming c' k' streams)
unfolding is_streaming toggle
is_streaming-toggle c c' true true [] = ground arith
is_streaming-toggle c c' true false [] = ground arith
is_streaming-toggle c c' false true [] = ground arith
is_streaming-toggle c c' false false [] = ground arith
is_streaming-toggle c c' k k' (a ∷ more) =
    let ih = is_streaming-toggle c c' k k' more in
    elim (Bool-cases (same_client c a.to_client)) [
      | inl t ↦ rw (t, same_client_trans c c' a.to_client t) (ground arith)
      | inr f ↦ rw f (elim (Bool-cases (same_client c' a.to_client)) [
        | inl u ↦ rw (u, same_client_apart c c' a.to_client f u) refl
        | inr u ↦ rw u ih
      ])
    ]

-- One key of the map, and the others.
active_streams-toggle :
    (pwm : Bool) (id : ℕ) (client : Client) (streams : ℕ → List ActiveStream) (i : ℕ)
    (other : Client) (kind : Bool)
    → is_streaming other kind (if i == id then toggle client pwm (streams id) else streams i) ≡ (
        if i == id && (same_client other client && same kind pwm)
        then not (is_streaming client pwm (streams id))
        else is_streaming other kind (streams i))
active_streams-toggle pwm id client streams i other kind = elim (Bool-cases (i == id)) [
  | inl t ↦ rw (t, (==_iff i id).0 t) (is_streaming-toggle client other pwm kind (streams id))
  | inr f ↦ rw f refl
]

module _ {ℓ} {F : Type ℓ} ⦃d : Float F⦄ where
  -- Only that value of that client for that node is turned round, and the client gets an `ack` just
  -- when it was on.
  abbrev pub IsToggled : Bool → ℕ → Client → Server F → Server F → Type ℓ
  IsToggled pwm id client s s' =
      ((i : ℕ) (other : Client) (kind : Bool)
        → is_streaming other kind (s'.active_streams i) ≡ (
            if i == id && (same_client other client && same kind pwm)
            then not (is_streaming client pwm (s.active_streams id))
            else is_streaming other kind (s.active_streams i)))
      × (s'.text_out
          ≡ s.text_out
            ++ (if is_streaming client pwm (s.active_streams id) then (client, ack) ∷ [] else []))

  write_text-active_streams :
      (answers : Bool) (client : Client) (s : Server F)
      → (if answers then write_text client ack s else s).active_streams ≡ s.active_streams
  unfolding write_text
  write_text-active_streams true client s = refl
  write_text-active_streams false client s = refl

  write_text-text_out :
      (answers : Bool) (client : Client) (s : Server F)
      → (if answers then write_text client ack s else s).text_out
        ≡ s.text_out ++ (if answers then (client, ack) ∷ [] else [])
  unfolding write_text
  write_text-text_out true client s = refl
  write_text-text_out false client s = sym (append-nil s.text_out)

  toggle_stream-IsToggled :
      (pwm : Bool) (id : ℕ) (rest : List ℕ) (client : Client) (s : Server F)
      → IsToggled pwm id client s (toggle_stream client (stream_line pwm id rest) s (ok id)).0
  unfolding toggle_stream
  toggle_stream-IsToggled true id rest client s =
      let answers = is_streaming client true (s.active_streams id) in
      (
        rw (write_text-active_streams answers client s)
            (active_streams-toggle true id client s.active_streams),
        write_text-text_out answers client s,
      )
  toggle_stream-IsToggled false id rest client s =
      let answers = is_streaming client false (s.active_streams id) in
      (
        rw (write_text-active_streams answers client s)
            (active_streams-toggle false id client s.active_streams),
        write_text-text_out answers client s,
      )

  -- When a user types "s d" or "s I" and the number of a node that the server knows, between 1 and
  -- 255, with the end of the line or anything else behind it that does not begin with a digit, then for every node, client and kind of value, it streams after the command as before it,
  -- but that the named kind is turned round for this client and this node; and the only text that
  -- comes of it is an `ack` to this client, when it was on before.
  pub interpret_command-IsToggled :
      (now : ℕ) (pwm : Bool) (id : ℕ) (rest : List ℕ) (client : Client) (s : Server F)
      → 0 < id
      → id < 256
      → is_in id s.node_ids ≡ true
      → Ends rest
      → IsToggled pwm id client s (interpret_command now (stream_line pwm id rest) client s).0
  unfolding interpret_command interpret_words
  interpret_command-IsToggled now pwm id rest client s pos_id byte listed e =
      let long : ltb 2 (suc (suc (suc (suc (length (decimal id ++ rest)))))) ≡ true =
        ground arith in
      rw
        (
          long,
          check_get_arguments-typed_line b's' (letter pwm) id rest s.node_ids (letter-known pwm)
              pos_id byte listed e,
        )
        (toggle_stream-IsToggled pwm id rest client s)
