-- ===== src/Command/RoundTrip.antt =====
-- The encoding of a command in a frame, and the two readings of its 32-bit value.
use scdtr_project.Prelude.{
  ℕ, ◌<◌, ◌≡◌, sym, ap, ◌∙◌, List, [], ◌∷◌, ◌++◌, append-nil, arith, length, All,
}
use scdtr_project.Float.{Float, IsPacked}
use scdtr_project.Command.{
  Command, IsValid, get_type, typed_command, float_command, get_float_value,
}
use scdtr_project.Command.{to_byte_array, of_buffer}

-- Reading the six bytes of a command with fields in range gives the command, whatever follows them in
-- the buffer.
pub of_buffer-to_byte_array :
    (c : Command) (rest : List ℕ) → IsValid c → of_buffer (to_byte_array c ++ rest) ≡ c
unfolding of_buffer to_byte_array
of_buffer-to_byte_array c rest v = ground arith

-- Every command writes six bytes.
pub to_byte_array-bytes :
    (c : Command)
    → IsValid c
    → (length (to_byte_array c) ≡ 6) × All (λ b. b < 256) (to_byte_array c)
unfolding to_byte_array
to_byte_array-bytes c v = ground arith

-- Six numbers below 256 are the bytes of the command that is read from them.
pub to_byte_array-of_buffer :
    (a b c d e f : ℕ)
    → All (λ x. x < 256) (a ∷ b ∷ c ∷ d ∷ e ∷ f ∷ [])
    → let bytes : List ℕ = a ∷ b ∷ c ∷ d ∷ e ∷ f ∷ [] in
      (to_byte_array (of_buffer bytes) ≡ bytes) × IsValid (of_buffer bytes)
unfolding of_buffer to_byte_array
to_byte_array-of_buffer a b c d e f h = ground arith

-- The type of a get command is read back, and the command is one that the wire carries.
pub get_type-typed_command :
    (cmd destination type : ℕ)
    → cmd < 256
    → destination < 256
    → type < 256
    → let c = typed_command cmd destination type in (get_type c ≡ type) × IsValid c
unfolding typed_command get_type
get_type-typed_command cmd dest t hc hd ht = ground arith

-- The value of a set command is read back, on the other end of the wire too.
pub get_float_value-float_command {ℓ} :
    {F : Type ℓ} ⦃d : Float F⦄ (cmd destination : ℕ) (v : F)
    → cmd < 256
    → destination < 256
    → IsPacked v
    → let c = float_command cmd destination v in
      (get_float_value c ≡ v) × (of_buffer (to_byte_array c) ≡ c)
unfolding float_command get_float_value
get_float_value-float_command cmd dest v hc hd (small, back) = (
  back,
  ap of_buffer (sym (append-nil _))
      ∙ of_buffer-to_byte_array _ []
          (record { cmd_byte = hc; destination_byte = hd; value_word = small }),
)
