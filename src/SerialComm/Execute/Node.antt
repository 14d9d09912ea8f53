-- ===== src/SerialComm/Execute/Node.antt =====
-- The commands of src/serialComm.cpp and the id of the node that executes them.
use scdtr_project.Prelude.{ℕ, ◌≡◌, refl, Bool, not, ◌==◌, if◌then◌else◌, if-both}
use scdtr_project.Float.{Float}
use scdtr_project.Command.{Command}
use scdtr_project.Nodes.Roster.{reset_glob-node_id}
use scdtr_project.Firmware.{Firmware, on_board, consensus_init}
use scdtr_project.SerialComm.Execute.{
  restart_consensus, with_luminaire, set_lux_occupied, set_lux_non_occupied, set_cost,
  change_occupied, reset_all, execute_command,
}

module _ {ℓ} {F : Type ℓ} ⦃d : Float F⦄ where
  abbrev Keeps : Firmware F → Firmware F → Type 0
  Keeps s s' = s'.nodes.node_id ≡ s.nodes.node_id

  set_lux_occupied-Keeps : (v : F) (s : Firmware F) → Keeps s (set_lux_occupied v s)
  unfolding set_lux_occupied restart_consensus with_luminaire consensus_init on_board
  set_lux_occupied-Keeps v s =
      if-both (Keeps s) (d.eq s.luminaire.lux_occupied v) refl
        (if-both (Keeps s) s.luminaire.occupied refl refl)

  set_lux_non_occupied-Keeps : (v : F) (s : Firmware F) → Keeps s (set_lux_non_occupied v s)
  unfolding set_lux_non_occupied restart_consensus with_luminaire consensus_init on_board
  set_lux_non_occupied-Keeps v s =
      if-both (Keeps s) (d.eq s.luminaire.lux_non_occupied v) refl
        (if-both (Keeps s) s.luminaire.occupied refl refl)

  set_cost-Keeps : (v : F) (s : Firmware F) → Keeps s (set_cost v s)
  unfolding set_cost restart_consensus with_luminaire consensus_init on_board
  set_cost-Keeps v s = if-both (Keeps s) (d.eq s.luminaire.cost v) refl refl

  change_occupied-Keeps : (o : Bool) (s : Firmware F) → Keeps s (change_occupied o s)
  unfolding change_occupied restart_consensus with_luminaire consensus_init on_board
  change_occupied-Keeps o s =
      if-both (Keeps s) (if o then s.luminaire.occupied else not s.luminaire.occupied) refl refl

  reset_all-Keeps : (ms : ℕ) (s : Firmware F) → Keeps s (reset_all ms s)
  unfolding reset_all
  reset_all-Keeps ms s = reset_glob-node_id s.nodes

  pub execute_command-node_id :
      (reading ms indeterminate : ℕ) (c : Command) (s : Firmware F)
      → Keeps s (execute_command reading ms indeterminate c s).0
  unfolding execute_command
  execute_command-node_id reading ms indeterminate c s =
      let Good : Firmware F × ℕ → Type 0 = λ r. Keeps s r.0 in
      if-both Good (c.cmd == b'g') refl (
        if-both Good (c.cmd == b'O') (set_lux_occupied-Keeps _ s) (
          if-both Good (c.cmd == b'U') (set_lux_non_occupied-Keeps _ s) (
            if-both Good (c.cmd == b'c') (set_cost-Keeps _ s) (
              if-both Good (c.cmd == b'r') (reset_all-Keeps ms s)
                (if-both Good (c.cmd == b'o') (change_occupied-Keeps _ s) refl)))))
