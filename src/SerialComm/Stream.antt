-- ===== src/SerialComm/Stream.antt =====
-- The bytes that the PC sends, read by src/serialComm.cpp.
use scdtr_project.Prelude.{ℕ, ◌≡◌, refl, ap, ◌∙◌, List, [], ◌∷◌, ◌++◌, length, drop, All}
use scdtr_project.Float.{Float}
use scdtr_project.Command.{Command, to_byte_array, of_buffer}
use scdtr_project.Command
use scdtr_project.Command.RoundTrip.{of_buffer-to_byte_array}
use scdtr_project.Firmware.{Firmware}
use scdtr_project.SerialComm.{handle_command, read_serial}
use scdtr_project.Server.{command_message}

-- The bytes of commands as the server writes them.
abbrev pub command_stream : List Command → List ℕ
command_stream [] = []
command_stream (c ∷ cs) = command_message c ++ command_stream cs

module _ {ℓ} {F : Type ℓ} ⦃d : Float F⦄ (reading ms indeterminate : ℕ) where
  -- The specification: each command is handled, one after the other.
  pub handle_commands : List Command → Firmware F → Firmware F
  handle_commands [] s = s
  handle_commands (c ∷ cs) s = handle_commands cs (handle_command reading ms indeterminate c s)

  -- However many commands the server has written, and whatever the node's buffer held, the node handles
  -- each command that was sent, once and in order, where the fields of the commands are in range.
  pub read_serial-commands :
      (stale : List ℕ) (cs : List Command) (s : Firmware F)
      → All Command.IsValid cs
      → read_serial reading ms indeterminate stale 0 (command_stream cs) s ≡ handle_commands cs s
  unfolding read_serial handle_commands command_message to_byte_array
  read_serial-commands stale [] s v = refl
  read_serial-commands stale (c ∷ cs) s (v, vs) =
      let rest = command_stream cs in
      let bytes = to_byte_array c ++ rest in
      let buffer : of_buffer (bytes ++ drop (length bytes) stale) ≡ c =
        of_buffer-to_byte_array c (rest ++ drop (length bytes) stale) v in
      ap
        (λ k.
          read_serial reading ms indeterminate stale 0 rest
            (handle_command reading ms indeterminate k s))
        buffer
      ∙ read_serial-commands stale cs (handle_command reading ms indeterminate c s) vs
