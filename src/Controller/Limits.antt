-- ===== src/Controller/Limits.antt =====
-- The control signal of src/controller.cpp and the range of the PWM output.
use scdtr_project.Prelude.{ℕ, ◌≡◌, true, false, arith}
use scdtr_project.Float.{Float, nat, IsTransitive}
use scdtr_project.Controller.{Controller, calc}

module _ {ℓ} {F : Type ℓ} ⦃d : Float F⦄ where
  -- The control signal is never above 255 and never below 0, for any error, reference, gain and
  -- history, if `<` is transitive and irreflexive and 0 < 255 among the floats.
  pub calc-limits :
      (error_voltage : F) (sampling_time : ℕ) (lux_ref system_gain residual_read : F)
      (c : Controller F)
      → IsTransitive F
      → d.lt (nat 0) (nat 255) ≡ true
      → let c' = calc error_voltage sampling_time lux_ref system_gain residual_read c in
        (d.lt (nat 255) c'.u ≡ false) × (d.lt c'.u (nat 0) ≡ false)
  unfolding calc
  calc-limits e t l g r c laws pos = ground (
    arith,
    laws.lt_irrefl (nat 0),
    laws.lt_irrefl (nat 255),
    laws.lt_trans (nat 0) (nat 255) (nat 0),
  )
