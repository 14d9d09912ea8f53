-- ===== src/Metrics.antt =====
-- src/metrics.cpp: energy, visibility error and flicker of a node since the last reset.
use scdtr_project.Prelude.{ℕ, ◌+◌, ◌-◌, ◌*◌, ◌%◌, ◌^◌, leb, if◌then◌else◌}
use scdtr_project.Prelude.Int.{signed16, is_neg}
use scdtr_project.Float.{Float, nat, abs}
use scdtr_project.Luminaire.{Luminaire}

pub record Metrics {ℓ} (F : Type ℓ) : Type ℓ where
  pub number_of_samples : ℕ
  -- `previousLuxSamples[0]`, the last sample, and `[1]`, the one before
  pub last_lux : F
  pub lux_before : F
  pub current_lux : F
  pub energy_consumed_since_last_reset : F
  pub flicker_error : F
  pub visibility_error : F

module _ {ℓ} {F : Type ℓ} ⦃d : Float F⦄ where
  unfoldable pub power_consumption : Luminaire F → F
  power_consumption l = d.div (d.mul (nat 1) l.controller.u) (d.ratio 255 1)

  unfoldable pub energy_consumption : Luminaire F → F
  unfolding power_consumption
  energy_consumption l = d.div (d.mul (power_consumption l) (nat l.sampling_time)) (nat 1000000)

  -- `max` is a macro of the platform: `(a) > (b) ? (a) : (b)`.
  unfoldable pub visibility_error_update : Luminaire F → Metrics F → Metrics F
  visibility_error_update l m =
      let gap = d.sub l.lux_ref_after_consensus m.current_lux in
      let new_sample = if d.lt gap (nat 0) then nat 0 else gap in
      record m {
        visibility_error =
            d.div (d.add (d.mul m.visibility_error (nat m.number_of_samples)) new_sample)
              (nat ((m.number_of_samples + 1) % 2 ^ 32));
      }

  -- The new flicker sample: the light has turned round since the last sample. The product is cut off
  -- to an `int`.
  unfoldable pub flicker_sample : Luminaire F → Metrics F → F
  flicker_sample l m =
      let up = d.sub m.current_lux m.last_lux in
      let before = d.sub m.last_lux m.lux_before in
      if is_neg (signed16 (d.trunc16 (d.mul up before) % 65536))
      then d.div (d.add (abs up) (abs before))
          (d.div (nat (2 * l.sampling_time % 2 ^ 32)) (d.ratio 1000000 1))
      else nat 0

  unfoldable pub flicker_error_update : Luminaire F → Metrics F → Metrics F
  unfolding flicker_sample
  flicker_error_update l m = record m {
    lux_before = m.last_lux;
    last_lux = m.current_lux;
    flicker_error =
        (if leb 3 m.number_of_samples
          then d.div
              (d.add (d.mul m.flicker_error (nat (m.number_of_samples - 2))) (flicker_sample l m))
              (nat (m.number_of_samples - 1))
          else m.flicker_error);
  }

  -- `updateMetrics`; `lux` is the reading.
  unfoldable pub update_metrics : F → Luminaire F → Metrics F → Metrics F
  unfolding energy_consumption flicker_error_update visibility_error_update
  update_metrics lux l m =
      let measured : Metrics F = record m {
        current_lux = lux;
        energy_consumed_since_last_reset =
            d.add m.energy_consumed_since_last_reset (energy_consumption l);
      } in
      let m' = visibility_error_update l (flicker_error_update l measured) in
      record m' { number_of_samples = (m'.number_of_samples + 1) % 2 ^ 32 }

  unfoldable pub reset_metrics : Metrics F
  reset_metrics = record {
    number_of_samples = 0;
    last_lux = nat 0;
    lux_before = nat 0;
    current_lux = nat 0;
    energy_consumed_since_last_reset = nat 0;
    flicker_error = nat 0;
    visibility_error = nat 0;
  }
