-- ===== src/Command.antt =====
-- src/command.cpp: the command that travels from the PC to a node, and between nodes.
pub mod RoundTrip
use scdtr_project.Prelude.{
  ℕ, ◌+◌, ◌*◌, ◌/◌, ◌%◌, ◌^◌, ◌<◌, List, [], ◌∷◌, ltb, if◌then◌else◌, get_or,
}
use scdtr_project.Float.{Float}

-- `Command`: `cmd` and a type are `char`s, kept as their byte; `value` is a `uint32_t`.
pub record Command : Type 0 where
  pub cmd : ℕ
  pub destination : ℕ
  pub value : ℕ

-- `Command()`
abbrev pub empty_command : Command
empty_command = record { cmd = 0; destination = 0; value = 0 }

-- `value = t` extends the sign of a `char`.
unfoldable pub set_type : ℕ → ℕ
set_type t = if ltb t 128 then t else t + 4294967040

-- `(int8_t)value`
unfoldable pub get_type : Command → ℕ
get_type c = c.value % 256

-- `Command(cmd, destination, type)`
unfoldable pub typed_command : ℕ → ℕ → ℕ → Command
unfolding set_type
typed_command cmd destination type = record {
  cmd = cmd;
  destination = destination;
  value = set_type type;
}

module _ {ℓ} {F : Type ℓ} ⦃d : Float F⦄ where
  -- `Command(cmd, destination, value)`, with `setFloatValue`
  unfoldable pub float_command : ℕ → ℕ → F → Command
  float_command cmd destination v = record {
    cmd = cmd;
    destination = destination;
    value = d.to_bits v;
  }

  unfoldable pub get_float_value : Command → F
  get_float_value c = d.of_bits c.value

-- `array[0..6)`
unfoldable pub to_byte_array : Command → List ℕ
to_byte_array c =
    c.destination
    ∷ c.cmd
    ∷ (c.value / 2 ^ 24 % 256)
    ∷ (c.value / 2 ^ 16 % 256)
    ∷ (c.value / 2 ^ 8 % 256)
    ∷ (c.value % 256)
    ∷ []

-- `Command(uint8_t*)` reads the first six bytes of a buffer.
unfoldable pub of_buffer : List ℕ → Command
of_buffer b = record {
  destination = get_or b 0 0;
  cmd = get_or b 1 0;
  value = get_or b 2 0 * 2 ^ 24 + get_or b 3 0 * 2 ^ 16 + get_or b 4 0 * 2 ^ 8 + get_or b 5 0;
}

-- The fields are in the range of their C types.
pub record IsValid (c : Command) : Type 0 where
  pub cmd_byte : c.cmd < 256
  pub destination_byte : c.destination < 256
  pub value_word : c.value < 2 ^ 32
