-- ===== src/Controller.antt =====
-- src/controller.cpp: feed-forward and PI control with a limited integrator.
pub mod Limits
use scdtr_project.Prelude.{ℕ, ◌%◌, if◌then◌else◌}
use scdtr_project.Prelude.Int.{signed16}
use scdtr_project.Float.{Float, nat}

pub record Controller {ℓ} (F : Type ℓ) : Type ℓ where
  pub ui : F
  pub u : F

module _ {ℓ} {F : Type ℓ} ⦃d : Float F⦄ where
  unfoldable pub controller_reset : Controller F
  controller_reset = record { ui = nat 0; u = nat 0 }

  -- `uff` is an `int` of 16 bits, and goes back to a float in the sums.
  unfoldable pub feed_forward : F → F → F → F
  feed_forward lux_ref system_gain residual_read =
      d.of_int (signed16 (d.trunc16 (d.div (d.sub lux_ref residual_read) system_gain) % 65536))

  -- The limit on the integrator and on the signal.
  unfoldable pub limit : F → F → F → F → Controller F
  limit uff up ui u =
      if d.lt (nat 255) u
      then record { ui = d.sub (d.sub (nat 255) uff) up; u = nat 255 }
      else if d.lt u (nat 0)
      then record { ui = d.sub (d.sub (nat 0) uff) up; u = nat 0 }
      else record { ui = ui; u = u }

  -- The new state; the result of `calc` is its `u`, cut off to an `int` by `trunc16`.
  unfoldable pub calc : F → ℕ → F → F → F → Controller F → Controller F
  unfolding feed_forward limit
  calc error_voltage sampling_time lux_ref system_gain residual_read c =
      let uff = feed_forward lux_ref system_gain residual_read in
      let ui =
        d.add c.ui (
          d.mul (d.mul (nat sampling_time) (d.div (nat 1500) (d.ratio 1000000 1))) error_voltage) in
      let up = d.mul (nat 20) error_voltage in limit uff up ui (d.add (d.add uff up) ui)
