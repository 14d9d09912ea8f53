-- ===== src/Server/Parser/Messages.antt =====
-- The messages of the hub, read by the serial parser of the server.
pub mod Split
use scdtr_project.Prelude.{
  ℕ, suc, ◌+◌, ◌-◌, ◌*◌, ◌/◌, ◌%◌, ◌≤◌, ◌<◌, ◌≡◌, refl, sym, ap, ap₂, ◌∙◌, ◌≢◌, Bool, true, false,
  List, [], ◌∷◌, ◌++◌, append-nil, append_assoc, arith, leb, ◌==◌, if◌then◌else◌, length, take, All,
  length-append,
}
use scdtr_project.Float.{Float, nat}
use scdtr_project.Comm.Packet.{Packet, packet_bytes}
use scdtr_project.SerialComm.{response_message}
use scdtr_project.Server.{Server}
use scdtr_project.Server.Queue.{received_command_response}
use scdtr_project.Server.Frequent.{Clock, received_frequent_data}
use scdtr_project.Server.Parser.{
  size_msg, handle_message, handle_frequent, handle_response, handle_node_list, handle_discovery,
  scan, handle_read_serial,
}

-- The messages of the hub; `noise` is one byte of debug text.
pub data Message : Type 0 where
  frequent : Packet → Message
  response : ℕ → Message
  discovery : Message
  node_list : List ℕ → Message
  noise : ℕ → Message

-- The bytes that the firmware writes for them.
unfoldable pub encode : Message → List ℕ
unfolding packet_bytes response_message
encode (frequent p) = 255 ∷ b'F' ∷ packet_bytes p
encode (response value) = response_message value
encode discovery = 255 ∷ b'D' ∷ []
encode (node_list ids) = 255 ∷ b'L' ∷ length ids ∷ ids
encode (noise byte) = byte ∷ []

abbrev pub encode_all : List Message → List ℕ
encode_all [] = []
encode_all (m ∷ ms) = encode m ++ encode_all ms

-- The values have the range of their C types. A response whose last byte is 255 is not read as meant.
abbrev pub IsMessage : Message → Type 0
IsMessage (frequent p) = p.iluminance_short < 65536
IsMessage (response value) = (value < 4294967296) × (value % 256 ≢ 255)
IsMessage discovery = Unit {0}
IsMessage (node_list ids) = Unit {0}
IsMessage (noise byte) = byte ≢ 255

take-append : (xs ys : List ℕ) → take (length xs) (xs ++ ys) ≡ xs
take-append [] ys = refl
take-append (x ∷ xs) ys = ap (λ l. x ∷ l) (take-append xs ys)

pub le→leb : (k n : ℕ) → k ≤ n → leb k n ≡ true
le→leb k n h = ground arith

module _ {ℓ} {F : Type ℓ} ⦃d : Float F⦄ (clock : Clock) where
  -- What a message is meant to do.
  unfoldable pub effect : Message → Server F → Server F
  effect (frequent p) s =
      received_frequent_data clock p.node
        (record { pwm = p.pwm; iluminance = d.div (nat p.iluminance_short) (nat 10) }) s
  effect (response value) s = received_command_response value s
  effect discovery s = handle_discovery clock s
  effect (node_list ids) s = record s { node_ids = ids }
  effect (noise byte) s = s

  pub effects : List Message → Server F → Server F
  effects [] s = s
  effects (m ∷ ms) s = effects ms (effect m s)

  scan-skip :
      (xs ys : List ℕ) (s : Server F) → scan clock (length xs) (xs ++ ys) s ≡ scan clock 0 ys s
  unfolding scan
  scan-skip [] ys s = refl
  scan-skip (x ∷ xs) ys s = scan-skip xs ys s

  -- One round of the loop at a sync byte.
  pub scan-sync :
      (xs : List ℕ) (s s' : Server F) (skip : ℕ)
      → size_msg (255 ∷ xs) ≡ suc skip
      → handle_message clock (255 ∷ xs) s ≡ s'
      → scan clock 0 (255 ∷ xs) s ≡ scan clock skip xs s'
  unfolding scan
  scan-sync xs s s' skip e e' =
      let less : size_msg (255 ∷ xs) - 1 ≡ skip = omega (arith, e) in
      ap₂ (λ k t. scan clock k xs t) less e'

  scan-frequent :
      (p : Packet) (rest : List ℕ) (s : Server F)
      → p.iluminance_short < 65536
      → scan clock 0 (encode (frequent p) ++ rest) s ≡ scan clock 0 rest (effect (frequent p) s)
  unfolding scan handle_message size_msg handle_frequent encode effect packet_bytes
  scan-frequent p rest s v =
      let n = suc (suc (suc (suc (suc (suc (length rest)))))) in
      let short = p.iluminance_short in
      let xs = b'F' ∷ p.node ∷ (short % 256) ∷ (short / 256 % 256) ∷ p.pwm ∷ rest in
      let value : short % 256 + short / 256 % 256 * 256 ≡ short = omega arith in
      let size : size_msg (255 ∷ xs) ≡ 6 = rw (le→leb 2 n (omega arith)) refl in
      let did : handle_message clock (255 ∷ xs) s ≡ effect (frequent p) s =
        rw (le→leb 2 n (omega arith), le→leb 6 n (omega arith))
          (ap
            (λ x.
              received_frequent_data clock p.node
                (record { pwm = p.pwm; iluminance = d.div (nat x) (nat 10) }) s)
            value) in
      scan-sync xs s (effect (frequent p) s) 5 size did

  scan-response :
      (value : ℕ) (rest : List ℕ) (s : Server F)
      → value < 4294967296
      → value % 256 ≢ 255
      → scan clock 0 (encode (response value) ++ rest) s
        ≡ scan clock 0 rest (effect (response value) s)
  unfolding scan handle_message size_msg handle_response encode effect response_message
  scan-response value rest s v last =
      let n = suc (suc (suc (suc (suc (suc (length rest)))))) in
      let no_sync : (value % 256 == 255) ≡ false = ground arith in
      let same : value / 16777216 % 256 * 16777216
            + value / 65536 % 256 * 65536
            + value / 256 % 256 * 256
            + value % 256
          ≡ value =
        omega arith in
      let xs =
        b'R'
        ∷ (value / 16777216 % 256)
        ∷ (value / 65536 % 256)
        ∷ (value / 256 % 256)
        ∷ (value % 256)
        ∷ rest in
      let size : size_msg (255 ∷ xs) ≡ 5 = rw (le→leb 2 n (omega arith)) refl in
      let did : handle_message clock (255 ∷ xs) s ≡ received_command_response value s =
        rw (le→leb 2 n (omega arith), le→leb 5 n (omega arith))
          (ap (λ x. received_command_response x s) same) in
      scan-sync xs s (received_command_response value s) 4 size did
      ∙ ap
          (λ (b : Bool). scan clock (if b then size_msg (value % 256 ∷ rest) - 1 else 0) rest (
            if b
            then handle_message clock (value % 256 ∷ rest) (received_command_response value s)
            else received_command_response value s))
          no_sync

  scan-node_list :
      (ids rest : List ℕ) (s : Server F)
      → scan clock 0 (encode (node_list ids) ++ rest) s
        ≡ scan clock 0 rest (effect (node_list ids) s)
  unfolding scan handle_message size_msg handle_node_list encode effect
  scan-node_list ids rest s =
      let n = suc (suc (suc (length (ids ++ rest)))) in
      let xs = b'L' ∷ length ids ∷ ids ++ rest in
      let size : size_msg (255 ∷ xs) ≡ suc (suc (suc (length ids))) =
        rw (le→leb 2 n (omega arith), le→leb 3 n (omega arith)) (omega arith) in
      let did : handle_message clock (255 ∷ xs) s ≡ effect (node_list ids) s =
        rw
          (
            le→leb 2 n (omega arith),
            le→leb 3 n (omega arith),
            le→leb (3 + length ids) n (omega (arith, length-append ids rest)),
          )
          (ap (λ l. record s { node_ids = l }) (take-append ids rest)) in
      scan-sync xs s (effect (node_list ids) s) (suc (suc (length ids))) size did
      ∙ scan-skip ids rest (effect (node_list ids) s)

  scan-message :
      (m : Message) (rest : List ℕ) (s : Server F)
      → IsMessage m
      → scan clock 0 (encode m ++ rest) s ≡ scan clock 0 rest (effect m s)
  unfolding scan handle_message size_msg encode effect
  scan-message (frequent p) rest s v = scan-frequent p rest s v
  scan-message (response value) rest s v = scan-response value rest s v.0 v.1
  scan-message (node_list ids) rest s v = scan-node_list ids rest s
  scan-message (noise byte) rest s v =
      let no_sync : (byte == 255) ≡ false = ground arith in rw no_sync refl
  scan-message discovery rest s v =
      let n = suc (suc (length rest)) in
      scan-sync (b'D' ∷ rest) s (handle_discovery clock s) 1 (rw (le→leb 2 n (omega arith)) refl)
        (rw (le→leb 2 n (omega arith)) refl)

  pub scan-messages :
      (ms : List Message) (rest : List ℕ) (s : Server F)
      → All IsMessage ms
      → scan clock 0 (encode_all ms ++ rest) s ≡ scan clock 0 rest (effects ms s)
  unfolding effects
  scan-messages [] rest s v = refl
  scan-messages (m ∷ ms) rest s v =
      ap (λ l. scan clock 0 l s) (append_assoc (encode m) (encode_all ms) rest)
      ∙ scan-message m (encode_all ms ++ rest) s v.0
      ∙ scan-messages ms rest (effect m s) v.1

  -- If nothing was left unfinished, then a string that holds messages of the hub and debug text, in any
  -- order and number, does what each of them is meant to do, one after the other, where
  -- no response has 255 as its last byte and the debug text has no byte 255.
  pub handle_read_serial-effects :
      (ms : List Message) (s : Server F)
      → All IsMessage ms
      → s.unfinished_serial_string ≡ []
      → handle_read_serial clock (encode_all ms) s ≡ effects ms s
  unfolding handle_read_serial scan
  handle_read_serial-effects ms s v e =
      ap (λ u. scan clock 0 (u ++ encode_all ms) (record s { unfinished_serial_string = [] })) e
      ∙ ap (λ l. scan clock 0 l (record s { unfinished_serial_string = [] }))
          (sym (append-nil (encode_all ms)))
      ∙ scan-messages ms [] (record s { unfinished_serial_string = [] }) v
      ∙ ap (λ u. effects ms (record s { unfinished_serial_string = u })) (sym e)
