-- ===== src/Receive/Hub.antt =====
-- The choice of the hub among the nodes.
use scdtr_project.Prelude.{
  ℕ, ◌<◌, ◌≡◌, refl, sym, ap, subst, ◌∙◌, ◌≢◌, inl, inr, true, false, [], ◌∷◌, ◌++◌, arith, ◌==◌,
  if◌then◌else◌, Bool-cases,
}
use scdtr_project.Float.{Float}
use scdtr_project.Board.{Board, send_frame, fill_frame, serial_write}
use scdtr_project.Comm.{
  send_signal, send_broadcast_is_hub_node, send_broadcast_no_longer_is_hub_node,
}
use scdtr_project.Firmware.{Firmware, on_board}
use scdtr_project.SerialComm.{become_hub, send_list_nodes_to_pc, send_pc_discovery}
use scdtr_project.Receive.{received, on_is_hub_node, on_no_longer_is_hub_node}
use scdtr_project.Receive.Dispatch.{received-is_hub_node, received-no_longer_is_hub_node}

module _ {ℓ} {F : Type ℓ} ⦃d : Float F⦄ where
  -- A node that was not the hub and whose PC answers is the hub then, and sends one frame. Every node
  -- that receives this frame has the same hub. The node's id is a byte.
  pub become_hub-agreement :
      (s : Firmware F)
      → s.nodes.node_id < 256
      → s.nodes.hub_node ≢ s.nodes.node_id
      → let s' = become_hub s in
        let announcement = s'.board.sending_frame in
        (s'.nodes.hub_node ≡ s.nodes.node_id)
        × (s'.board.can_out ≡ s.board.can_out ++ announcement ∷ [])
        × ((reading ms indeterminate : ℕ) (t : Firmware F)
            → (received reading ms indeterminate announcement t).nodes.hub_node ≡ s.nodes.node_id)
  unfolding become_hub send_list_nodes_to_pc on_board serial_write send_broadcast_is_hub_node
      send_signal send_frame fill_frame on_is_hub_node
  become_hub-agreement s byte other =
      let no : (s.nodes.hub_node == s.nodes.node_id) ≡ false = ground arith in
      rw no (
        refl,
        refl,
        λ reading ms indeterminate t.
            ap (λ t. t.nodes.hub_node)
              (received-is_hub_node reading ms indeterminate s.nodes.node_id 0
                s.board.sending_frame.payload t byte),
      )

  -- After a question to the PC.
  abbrev asked : Firmware F → Firmware F
  asked s = record s {
    serial = record (s.serial) { pc_discovery_had_response = false };
    board = record (s.board) { serial_out = s.board.serial_out ++ 255 ∷ b'D' ∷ [] };
  }

  asks :
      (s : Firmware F) → s.serial.pc_discovery_had_response ≡ true → send_pc_discovery s ≡ asked s
  unfolding send_pc_discovery on_board serial_write
  asks s had = elim (Bool-cases (s.nodes.hub_node == s.nodes.node_id)) [
    | inl t ↦ rw (t, had) refl
    | inr t ↦ rw t refl
  ]

  -- A node that is not the hub asks all the same.
  asks_other : (s : Firmware F) → s.nodes.hub_node ≢ s.nodes.node_id → send_pc_discovery s ≡ asked s
  unfolding send_pc_discovery on_board serial_write
  asks_other s other =
      let no : (s.nodes.hub_node == s.nodes.node_id) ≡ false = ground arith in rw no refl

  -- The hub has had no answer since it last asked.
  drops :
      (s : Firmware F)
      → s.nodes.hub_node ≡ s.nodes.node_id
      → s.serial.pc_discovery_had_response ≡ false
      → send_pc_discovery s
        ≡ asked (
            on_board
              (send_broadcast_no_longer_is_hub_node s.nodes.node_id)
              (record s { nodes = record (s.nodes) { hub_node = 0 } }))
  unfolding send_pc_discovery on_board serial_write
  drops s hub had =
      let yes : (s.nodes.hub_node == s.nodes.node_id) ≡ true = ground arith in rw (yes, had) refl

  left-hub_node :
      (id : ℕ) (t : Firmware F)
      → (on_no_longer_is_hub_node id t).nodes.hub_node
        ≡ (if t.nodes.hub_node == id then 0 else t.nodes.hub_node)
  unfolding on_no_longer_is_hub_node
  left-hub_node id t = elim (Bool-cases (t.nodes.hub_node == id)) [
    | inl h ↦ rw h refl
    | inr h ↦ rw h refl
  ]

  -- One frame has gone out, there is no hub any more, and the PC has been asked twice.
  abbrev Silent : Firmware F → Firmware F → Type ℓ
  Silent s s' =
      (s'.nodes.hub_node ≡ 0)
      × (s'.board.can_out ≡ s.board.can_out ++ s'.board.sending_frame ∷ [])
      × (s'.board.serial_out ≡ s.board.serial_out ++ (255 ∷ b'D' ∷ []) ++ (255 ∷ b'D' ∷ []))
      × ((reading ms indeterminate : ℕ) (t : Firmware F)
          → (received reading ms indeterminate s'.board.sending_frame t).nodes.hub_node
            ≡ (if t.nodes.hub_node == s.nodes.node_id then 0 else t.nodes.hub_node))

  farewell-hub_node :
      (id reading ms indeterminate : ℕ) (b : Board) (t : Firmware F)
      → id < 256
      → (received reading ms indeterminate
          (send_broadcast_no_longer_is_hub_node id b).sending_frame
          t).nodes.hub_node
        ≡ (if t.nodes.hub_node == id then 0 else t.nodes.hub_node)
  unfolding send_broadcast_no_longer_is_hub_node send_signal send_frame fill_frame
  farewell-hub_node id reading ms indeterminate b t byte =
      ap (λ t. t.nodes.hub_node)
        (received-no_longer_is_hub_node reading ms indeterminate id 0 b.sending_frame.payload t
          byte)
      ∙ left-hub_node id t

  -- The hub asks its PC twice and has no answer in between, whether or not it had one before: it is not
  -- the hub any longer, and has sent one frame. A node that receives this frame has no hub if its
  -- hub was this one, and keeps its hub otherwise. The node's id is a byte and not 0.
  pub send_pc_discovery-silence :
      (s : Firmware F)
      → 0 < s.nodes.node_id
      → s.nodes.node_id < 256
      → s.nodes.hub_node ≡ s.nodes.node_id
      → let s' = send_pc_discovery (send_pc_discovery s) in
        let farewell = s'.board.sending_frame in
        (s'.nodes.hub_node ≡ 0)
        × (s'.board.can_out ≡ s.board.can_out ++ farewell ∷ [])
        × (s'.board.serial_out ≡ s.board.serial_out ++ (255 ∷ b'D' ∷ []) ++ (255 ∷ b'D' ∷ []))
        × ((reading ms indeterminate : ℕ) (t : Firmware F)
            → (received reading ms indeterminate farewell t).nodes.hub_node
              ≡ (if t.nodes.hub_node == s.nodes.node_id then 0 else t.nodes.hub_node))
  unfolding on_board send_broadcast_no_longer_is_hub_node send_signal send_frame fill_frame
  send_pc_discovery-silence s named byte hub =
      elim (Bool-cases s.serial.pc_discovery_had_response) [
        | inl had ↦
            subst (Silent s) (sym (ap send_pc_discovery (asks s had) ∙ drops (asked s) hub refl)) (
              refl,
              refl,
              refl,
              λ reading ms indeterminate t.
                  farewell-hub_node s.nodes.node_id reading ms indeterminate s.board t byte,
            )
        | inr had ↦
            let first = drops s hub had in
            let second = asks_other (send_pc_discovery s) (
              subst (λ (t : Firmware F). t.nodes.hub_node ≢ t.nodes.node_id) (sym first)
                (λ e. absurd (omega arith))) in
            subst (Silent s) (sym (second ∙ ap asked first)) (
              refl,
              refl,
              refl,
              λ reading ms indeterminate t.
                  farewell-hub_node s.nodes.node_id reading ms indeterminate s.board t byte,
            )
      ]
