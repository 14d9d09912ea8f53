-- ===== src/SerialComm/Execute/Reference.antt =====
-- The commands of src/serialComm.cpp that change the reference in force.
use scdtr_project.Prelude.{
  ℕ, ◌≡◌, refl, ap, ◌∙◌, inl, inr, Bool, false, not, arith, ◌==◌, if◌then◌else◌, Bool-cases,
  if-both,
}
use scdtr_project.Float.{Float}
use scdtr_project.Command.{Command}
use scdtr_project.Consensus
use scdtr_project.Consensus.{is_off, reset_consensus}
use scdtr_project.Luminaire.{set_occupied, reset_luminaire}
use scdtr_project.Firmware.{Firmware, on_board, consensus_init}
use scdtr_project.SerialComm.Execute.{
  restart_consensus, with_luminaire, set_lux_occupied, set_lux_non_occupied, set_cost,
  change_occupied, reset_all, execute_command,
}

module _ {ℓ} {F : Type ℓ} ⦃d : Float F⦄ where
  -- The local reference is the one of an occupied or of a free desk, and a consensus that runs has it.
  pub record IsReferenced (s : Firmware F) : Type ℓ where
    pub in_force :
        s.luminaire.lux_ref
        ≡ (if s.luminaire.occupied then s.luminaire.lux_occupied else s.luminaire.lux_non_occupied)
    pub agreed :
        is_off s.consensus.consensus_state ≡ false → s.consensus.li_ref ≡ s.luminaire.lux_ref

  set_lux_occupied-IsReferenced :
      (v : F) (s : Firmware F) → IsReferenced s → IsReferenced (set_lux_occupied v s)
  unfolding set_lux_occupied restart_consensus with_luminaire consensus_init on_board Consensus.init
  set_lux_occupied-IsReferenced v s h =
      if-both IsReferenced (d.eq s.luminaire.lux_occupied v) h
        (elim (Bool-cases s.luminaire.occupied) [
          | inl t ↦ rw t (record { in_force = refl; agreed = λ e. refl })
          | inr t ↦ rw t (record {
            in_force =
                h.in_force
                ∙ ap (λ o. if o then s.luminaire.lux_occupied else s.luminaire.lux_non_occupied) t;
            agreed = h.agreed;
          })
        ])

  set_lux_non_occupied-IsReferenced :
      (v : F) (s : Firmware F) → IsReferenced s → IsReferenced (set_lux_non_occupied v s)
  unfolding set_lux_non_occupied restart_consensus with_luminaire consensus_init on_board
      Consensus.init
  set_lux_non_occupied-IsReferenced v s h =
      if-both IsReferenced (d.eq s.luminaire.lux_non_occupied v) h
        (elim (Bool-cases s.luminaire.occupied) [
          | inl t ↦ rw t (record {
            in_force =
                h.in_force
                ∙ ap (λ o. if o then s.luminaire.lux_occupied else s.luminaire.lux_non_occupied) t;
            agreed = h.agreed;
          })
          | inr t ↦ rw t (record { in_force = refl; agreed = λ e. refl })
        ])

  set_cost-IsReferenced : (v : F) (s : Firmware F) → IsReferenced s → IsReferenced (set_cost v s)
  unfolding set_cost restart_consensus with_luminaire consensus_init on_board Consensus.init
  set_cost-IsReferenced v s h =
      if-both IsReferenced (d.eq s.luminaire.cost v) h
        (record { in_force = h.in_force; agreed = λ e. refl })

  change_occupied-IsReferenced :
      (o : Bool) (s : Firmware F) → IsReferenced s → IsReferenced (change_occupied o s)
  unfolding change_occupied restart_consensus with_luminaire consensus_init on_board Consensus.init
      set_occupied
  change_occupied-IsReferenced o s h =
      if-both IsReferenced (if o then s.luminaire.occupied else not s.luminaire.occupied)
        {y = restart_consensus (with_luminaire (set_occupied o s.luminaire) s)} h
        (record { in_force = refl; agreed = λ e. refl })

  reset_all-IsReferenced : (ms : ℕ) (s : Firmware F) → IsReferenced (reset_all ms s)
  unfolding reset_all reset_luminaire set_occupied reset_consensus
  reset_all-IsReferenced ms s = record { in_force = refl; agreed = λ e. ground arith }

  -- Every command keeps this: the local reference is the one of the desk's occupancy, and a consensus
  -- that runs has this reference, since a command that changes it starts the consensus again.
  pub execute_command-IsReferenced :
      (reading ms indeterminate : ℕ) (c : Command) (s : Firmware F)
      → IsReferenced s
      → IsReferenced (execute_command reading ms indeterminate c s).0
  unfolding execute_command
  execute_command-IsReferenced reading ms indeterminate c s h =
      let Good : Firmware F × ℕ → Type ℓ = λ r. IsReferenced r.0 in
      if-both Good (c.cmd == b'g') h (
        if-both Good (c.cmd == b'O') (set_lux_occupied-IsReferenced _ s h) (
          if-both Good (c.cmd == b'U') (set_lux_non_occupied-IsReferenced _ s h) (
            if-both Good (c.cmd == b'c') (set_cost-IsReferenced _ s h) (
              if-both Good (c.cmd == b'r') (reset_all-IsReferenced ms s)
                (if-both Good (c.cmd == b'o') (change_occupied-IsReferenced _ s h) h)))))
