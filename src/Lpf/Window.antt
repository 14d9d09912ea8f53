-- ===== src/Lpf/Window.antt =====
-- What the filter holds after any samples.
use scdtr_project.Prelude.{
  ◌+◌, ◌≤◌, ◌<◌, min, ◌≡◌, List, [], ◌∷◌, arith, dec_lt, length, length-set,
}
use scdtr_project.Float.{Float, nat}
use scdtr_project.Lpf.{Lpf, lpf_total_samples, sample, reset_lpf}

pub record IsValid {ℓ} {F : Type ℓ} (s : Lpf F) : Type 0 where
  pub storage : length s.lpf_samples ≡ lpf_total_samples
  pub idx_in : s.lpf_idx < lpf_total_samples
  pub num_le : s.lpf_num_samples ≤ lpf_total_samples
  pub idx_le : s.lpf_idx ≤ s.lpf_num_samples
  pub idx_full : s.lpf_num_samples < lpf_total_samples → s.lpf_idx ≡ s.lpf_num_samples

module _ {ℓ} {F : Type ℓ} ⦃d : Float F⦄ where
  unfoldable pub run : List F → Lpf F → Lpf F
  run [] s = s
  run (v ∷ vs) s = run vs (sample v s)

  sample-IsValid : (v : F) (s : Lpf F) → IsValid s → IsValid (sample v s)
  unfolding sample
  sample-IsValid v s h = ground (arith, length-set s.lpf_samples s.lpf_idx v)

  reset_lpf-IsValid : (s : Lpf F) → IsValid s → IsValid (reset_lpf s)
  unfolding reset_lpf
  reset_lpf-IsValid s h = ground (arith, length-set s.lpf_samples lpf_total_samples (nat 0))

  num_samples-sample :
      (v : F) (s : Lpf F)
      → IsValid s
      → (sample v s).lpf_num_samples ≡ min (s.lpf_num_samples + 1) lpf_total_samples
  unfolding sample
  num_samples-sample v s h = elim (dec_lt s.lpf_num_samples lpf_total_samples) [
    | yes lt ↦ let e = h.idx_full lt in ground arith
    | no ge ↦ ground arith
  ]

  -- After any samples the indices are in range, and the filter counts as many more samples as came, up
  -- to twenty.
  pub run-window :
      (vs : List F) (s : Lpf F)
      → IsValid s
      → IsValid (run vs s)
        × ((run vs s).lpf_num_samples ≡ min (s.lpf_num_samples + length vs) lpf_total_samples)
  unfolding run
  run-window [] s h = (h, omega (arith, h.num_le))
  run-window (v ∷ vs) s h =
      let (valid, count) = run-window vs (sample v s) (sample-IsValid v s h) in
      (valid, omega (arith, count, num_samples-sample v s h))
