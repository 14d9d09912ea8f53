-- ===== src/Lpf.antt =====
-- src/lpf.cpp: a moving average over the last twenty samples of the voltage.
pub mod Window
pub mod Latest
use scdtr_project.Prelude.{
  ℕ, zero, suc, ◌+◌, List, [], ◌∷◌, ltb, leb, if◌then◌else◌, set, replicate,
}
use scdtr_project.Float.{Float, nat}

abbrev pub lpf_total_samples : ℕ
lpf_total_samples = 20

pub record Lpf {ℓ} (F : Type ℓ) : Type ℓ where
  pub lpf_num_samples : ℕ
  pub lpf_idx : ℕ
  pub lpf_samples : List F

module _ {ℓ} {F : Type ℓ} ⦃d : Float F⦄ where
  unfoldable pub new : Lpf F
  new = record {
    lpf_num_samples = 0;
    lpf_idx = 0;
    lpf_samples = replicate lpf_total_samples (nat 0);
  }

  unfoldable pub sample : F → Lpf F → Lpf F
  sample measured_voltage s =
      let idx = s.lpf_idx + 1 in
      record {
        lpf_samples = set s.lpf_samples s.lpf_idx measured_voltage;
        lpf_num_samples = (if ltb s.lpf_num_samples idx then idx else s.lpf_num_samples);
        lpf_idx = (if leb lpf_total_samples idx then 0 else idx);
      }

  pub sum_samples : ℕ → List F → F → F
  sum_samples zero samples acc = acc
  sum_samples (suc n) [] acc = acc
  sum_samples (suc n) (x ∷ samples) acc = sum_samples n samples (d.add acc x)

  unfoldable pub value : Lpf F → F
  unfolding sum_samples
  value s = d.div (sum_samples s.lpf_num_samples s.lpf_samples (nat 0)) (nat s.lpf_num_samples)

  -- The last line of the source writes one entry behind the array, not the array: nothing of it here.
  unfoldable pub reset_lpf : Lpf F → Lpf F
  reset_lpf s = record s {
    lpf_num_samples = 0;
    lpf_idx = 0;
    lpf_samples = set s.lpf_samples lpf_total_samples (nat 0);
  }
