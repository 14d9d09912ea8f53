-- ===== src/Calibration/Gain.antt =====
-- The gain that a node computes, and its entry in the matrices of the other nodes.
use scdtr_project.Prelude.{
  ℕ, ◌+◌, ◌-◌, ◌%◌, ◌^◌, ◌<◌, ◌≡◌, refl, sym, ap, ◌∙◌, inl, inr, some, [], ◌∷◌, arith,
  if◌then◌else◌, Bool-cases, length, get_or, set, get_or-set_self, get_or-set_ne,
}
use scdtr_project.Float.{Float, nat, IsPacked}
use scdtr_project.Board.{Board}
use scdtr_project.Comm.{send_calib_ready}
use scdtr_project.Nodes.{Nodes, index_of, own_index}
use scdtr_project.Firmware.{Firmware}
use scdtr_project.Receive.{received, on_calib_ready}
use scdtr_project.Receive.Dispatch.{received-send_calib_ready}
use scdtr_project.Calibration.{increment_nodes_ready}
use scdtr_project.Calibration.{
  Calibration, wait_transient, loop, set_gain, received_gain_or_residual,
}

module _ {ℓ} {F : Type ℓ} ⦃d : Float F⦄ where
  abbrev pub gain_at : Calibration F → ℕ → ℕ → F
  gain_at c i j = get_or (get_or c.gain_matrix i []) j (nat 0)

  -- The entry (i, j) lies inside the matrix.
  abbrev pub HasEntry : ℕ → ℕ → Calibration F → Type 0
  HasEntry i j c = (i < length c.gain_matrix) × (j < length (get_or c.gain_matrix i []))

  gain_at-set_gain :
      (i j : ℕ) (g : F) (c : Calibration F) → HasEntry i j c → gain_at (set_gain i j g c) i j ≡ g
  unfolding set_gain
  gain_at-set_gain i j g c (hi, hj) =
      let row = get_or c.gain_matrix i [] in
      ap (λ r. get_or r j (nat 0)) (get_or-set_self c.gain_matrix i (set row j g) [] hi)
      ∙ get_or-set_self row j g (nat 0) hj

  received-gain :
      (peers : Nodes) (sender k : ℕ) (value : F) (c : Calibration F)
      → c.node_led_on ≡ some k
      → HasEntry (index_of peers sender) k c
      → gain_at (received_gain_or_residual peers sender value c) (index_of peers sender) k ≡ value
  unfolding received_gain_or_residual
  received-gain peers sender k value c e h =
      rw e (gain_at-set_gain (index_of peers sender) k value c h)

  -- A peer with the LED on stores what is not negative.
  taken :
      (theirs : Firmware F) (sender k : ℕ) (value : F)
      → theirs.calibration.node_led_on ≡ some k
      → HasEntry (index_of theirs.nodes sender) k theirs.calibration
      → gain_at (on_calib_ready sender value theirs).calibration (index_of theirs.nodes sender) k
        ≡ (if d.le (nat 0) value
            then value
            else gain_at theirs.calibration (index_of theirs.nodes sender) k)
  unfolding on_calib_ready increment_nodes_ready
  taken theirs sender k value e inside = elim (Bool-cases (d.le (nat 0) value)) [
    | inl positive ↦
        rw positive (received-gain theirs.nodes sender k value theirs.calibration e inside)
    | inr negative ↦ rw negative refl
  ]

  module _ (nodes : Nodes) (lux : F) (now current : ℕ) (c : Calibration F) (b : Board) (k : ℕ) where
    -- The second reading of an LED, more than a second after the LED went on.
    pub record IsSecondReading : Type ℓ where
      pub lit : c.state ≡ wait_transient
      pub settled : 1000000 < (current + 2 ^ 32 - c.last_transition_time) % 2 ^ 32
      pub second : c.lux_read_num ≡ 1
      pub led : c.node_led_on ≡ some k
      pub levels : c.pwm ≡ 20 ∷ 240 ∷ []
      pub inside : HasEntry (own_index nodes) k c
      pub two_reads : length c.lux_reads ≡ 2

    abbrev pub measured_gain : F
    measured_gain =
        d.div
          (d.sub (d.sub lux (get_or c.residual_array nodes.node_id (nat 0)))
            (get_or c.lux_reads 0 (nat 0)))
          (nat 220)

    second_reading_lem :
        IsSecondReading
        → let (c', b') = loop nodes lux now current c b in
          (gain_at c' (own_index nodes) k ≡ measured_gain)
          × (b' ≡ send_calib_ready nodes.node_id measured_gain b)
    unfolding loop
    second_reading_lem s =
        let v = d.sub lux (get_or c.residual_array nodes.node_id (nat 0)) in
        let new_read = get_or-set_self c.lux_reads 1 v (nat 0) (omega (arith, s.two_reads)) in
        let old_read =
          get_or-set_ne c.lux_reads {i = 1} {j = 0} v (nat 0) (λ e. absurd (omega arith)) in
        ground (
          arith,
          s.lit,
          s.settled,
          s.second,
          s.led,
          s.levels,
          new_read,
          old_read,
          get_or-set_self c.gain_matrix (own_index nodes)
              (set (get_or c.gain_matrix (own_index nodes) []) k measured_gain) [] s.inside.0,
          get_or-set_self (get_or c.gain_matrix (own_index nodes) []) k measured_gain (nat 0)
              s.inside.1,
        )

    pub second_reading-agreement :
        (reading ms indeterminate : ℕ) (theirs : Firmware F)
        → IsSecondReading
        → IsPacked measured_gain
        → nodes.node_id < 256
        → theirs.calibration.node_led_on ≡ some k
        → HasEntry (index_of theirs.nodes nodes.node_id) k theirs.calibration
        → let (c', b') = loop nodes lux now current c b in
          let theirs' = received reading ms indeterminate b'.sending_frame theirs in
          let row = index_of theirs.nodes nodes.node_id in
          (gain_at c' (own_index nodes) k ≡ measured_gain)
          × (gain_at theirs'.calibration row k ≡ (
              if d.le (nat 0) measured_gain
              then gain_at c' (own_index nodes) k
              else gain_at theirs.calibration row k))
    second_reading-agreement reading ms indeterminate theirs s packed byte e inside =
        let (own, sent) = second_reading_lem s in
        let row = index_of theirs.nodes nodes.node_id in
        let arrives =
          ap (λ b'. received reading ms indeterminate b'.sending_frame theirs) sent
          ∙ received-send_calib_ready reading ms indeterminate nodes.node_id measured_gain b theirs
              byte packed in
        (
          own,
          ap (λ t. gain_at t.calibration row k) arrives
              ∙ taken theirs nodes.node_id k measured_gain e inside
              ∙ ap (λ v. if d.le (nat 0) measured_gain then v else gain_at theirs.calibration row k)
                  (sym own),
        )
