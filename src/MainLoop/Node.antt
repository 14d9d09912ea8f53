-- ===== src/MainLoop/Node.antt =====
-- The operations of the main loop, and the reference and the id of the node.
use scdtr_project.Prelude.{
  ℕ, zero, suc, ◌≡◌, refl, ◌∙◌, inl, inr, Bool, false, not, ◌&&◌, List, [], ◌∷◌, ◌++◌, ◌==◌,
  if◌then◌else◌, Bool-cases, if-both, length, drop,
}
use scdtr_project.Float.{Float}
use scdtr_project.Board.{Board}
use scdtr_project.Command.{Command, of_buffer}
use scdtr_project.Comm.{send_command_request}
use scdtr_project.Nodes.{check_if_node_exists}
use scdtr_project.Consensus
use scdtr_project.Consensus.{Consensus, is_off}
use scdtr_project.Luminaire.{Luminaire}
use scdtr_project.Firmware.{Firmware, on_board, consensus_init}
use scdtr_project.SerialComm.{
  send_response, send_total_if_all_value_for_total_received, received_command_response_from_can,
  send_list_nodes_to_pc, become_hub, send_pc_discovery, total_command, handle_command, read_serial,
}
use scdtr_project.SerialComm.Execute.{execute_command}
use scdtr_project.SerialComm.Execute.Node.{execute_command-node_id}
use scdtr_project.SerialComm.Execute.Reference.{execute_command-IsReferenced}

module _ {ℓ} {F : Type ℓ} ⦃d : Float F⦄ where
  -- The local reference is that of the desk's occupancy.
  abbrev pub InForce : Luminaire F → Type ℓ
  InForce l = l.lux_ref ≡ (if l.occupied then l.lux_occupied else l.lux_non_occupied)

  -- A consensus that runs has the local reference.
  abbrev pub Agrees : Luminaire F → Consensus F → Type ℓ
  Agrees l c = is_off c.consensus_state ≡ false → c.li_ref ≡ l.lux_ref

  abbrev pub IsGood : ℕ → Firmware F → Type ℓ
  IsGood id s = (s.nodes.node_id ≡ id) × InForce s.luminaire × Agrees s.luminaire s.consensus

  pub IsGood-if :
      (id : ℕ) (b : Bool) (x y : Firmware F)
      → IsGood id x
      → IsGood id y
      → IsGood id (if b then x else y)
  IsGood-if id b x y = if-both (IsGood id) b {x = x} {y = y}

  pub on_board-IsGood :
      (id : ℕ) (f : Board → Board) (s : Firmware F) → IsGood id s → IsGood id (on_board f s)
  unfolding on_board
  on_board-IsGood id f s g = g

  pub consensus_init-IsGood : (id : ℕ) (s : Firmware F) → IsGood id s → IsGood id (consensus_init s)
  unfolding consensus_init Consensus.init
  consensus_init-IsGood id s (own, in_force, agreed) = (own, in_force, λ on. refl)

  send_response-IsGood :
      (id value : ℕ) (s : Firmware F) → IsGood id s → IsGood id (send_response value s)
  unfolding send_response on_board
  send_response-IsGood id value s g = g

  send_total-IsGood :
      (id : ℕ) (s : Firmware F)
      → IsGood id s
      → IsGood id (send_total_if_all_value_for_total_received s)
  unfolding send_total_if_all_value_for_total_received send_response on_board
  send_total-IsGood id s g = elim (Bool-cases (s.serial.num_nodes_waiting_result == 0)) [
    | inl t ↦ rw t g
    | inr f ↦ rw f g
  ]

  pub received_command_response_from_can-IsGood :
      (id value : ℕ) (s : Firmware F)
      → IsGood id s
      → IsGood id (received_command_response_from_can value s)
  unfolding received_command_response_from_can
  received_command_response_from_can-IsGood id value s g =
      elim (Bool-cases s.serial.running_total_command) [
        | inl t ↦ rw t (send_total-IsGood id _ g)
        | inr f ↦ rw f (send_response-IsGood id value s g)
      ]

  become_hub-IsGood : (id : ℕ) (s : Firmware F) → IsGood id s → IsGood id (become_hub s)
  unfolding become_hub send_list_nodes_to_pc on_board
  become_hub-IsGood id s g = elim (Bool-cases (s.nodes.hub_node == s.nodes.node_id)) [
    | inl t ↦ rw t g
    | inr f ↦ rw f g
  ]

  pub send_pc_discovery-IsGood :
      (id : ℕ) (s : Firmware F) → IsGood id s → IsGood id (send_pc_discovery s)
  unfolding send_pc_discovery on_board
  send_pc_discovery-IsGood id s g =
      elim (Bool-cases
        (s.nodes.hub_node == s.nodes.node_id && not s.serial.pc_discovery_had_response)) [
          | inl t ↦ rw t g
          | inr f ↦ rw f g
        ]

  module _ (reading ms indeterminate : ℕ) where
    pub execute_command-IsGood :
        (id : ℕ) (c : Command) (s : Firmware F)
        → IsGood id s
        → IsGood id (execute_command reading ms indeterminate c s).0
    execute_command-IsGood id c s (own, in_force, agreed) =
        let r =
          execute_command-IsReferenced reading ms indeterminate c s
            (record { in_force = in_force; agreed = agreed }) in
        (execute_command-node_id reading ms indeterminate c s ∙ own, r.in_force, r.agreed)

    total_command-IsGood :
        (id : ℕ) (c : Command) (s : Firmware F)
        → IsGood id s
        → IsGood id (total_command reading ms indeterminate c s)
    unfolding total_command on_board
    total_command-IsGood id c s g = send_total-IsGood id _ (execute_command-IsGood id c _ g)

    handle_command-IsGood :
        (id : ℕ) (c : Command) (s : Firmware F)
        → IsGood id s
        → IsGood id (handle_command reading ms indeterminate c s)
    unfolding handle_command on_board send_response
    handle_command-IsGood id c s g =
        let run = execute_command reading ms indeterminate c s in
        let asks = on_board (send_command_request s.nodes.node_id c.destination c) s in
        let known : Firmware F = if check_if_node_exists s.nodes c.destination then asks else s in
        let own : Firmware F =
          if c.destination == s.nodes.node_id then send_response run.1 run.0 else known in
        let all : Firmware F =
          if c.destination == 0 then total_command reading ms indeterminate c s else own in
        IsGood-if id (c.cmd == b'D') (become_hub s) all (become_hub-IsGood id s g) (
          IsGood-if id (c.destination == 0) (total_command reading ms indeterminate c s) own
            (total_command-IsGood id c s g)
            (IsGood-if id (c.destination == s.nodes.node_id) (send_response run.1 run.0) known
              (execute_command-IsGood id c s g)
              (IsGood-if id (check_if_node_exists s.nodes c.destination) asks s g g)))

    pub read_serial-IsGood :
        (id : ℕ) (stale : List ℕ) (skip : ℕ) (bytes : List ℕ) (s : Firmware F)
        → IsGood id s
        → IsGood id (read_serial reading ms indeterminate stale skip bytes s)
    unfolding read_serial
    read_serial-IsGood id stale zero [] s g = g
    read_serial-IsGood id stale (suc skip) [] s g = g
    read_serial-IsGood id stale (suc skip) (byte ∷ bytes) s g =
        read_serial-IsGood id stale skip bytes s g
    read_serial-IsGood id stale zero (byte ∷ bytes) s g =
        let handled =
          handle_command reading ms indeterminate (of_buffer (bytes ++ drop (length bytes) stale))
            s in
        read_serial-IsGood id stale (if byte == 255 then 6 else 0) bytes _ (
          IsGood-if id (byte == 255) handled s
            (handle_command-IsGood id (of_buffer (bytes ++ drop (length bytes) stale)) s g) g)
