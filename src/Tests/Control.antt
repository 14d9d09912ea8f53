-- ===== src/Tests/Control.antt =====
-- The controller and the filter.
use scdtr_project.Prelude.{ℕ, ◌+◌, ◌%◌, ◌≤◌, ◌<◌, min, ◌≡◌, refl, false, List, [], ◌∷◌, get_or}
use scdtr_project.Prelude.Int.{ℤ, pos}
use scdtr_project.Float.{nat}
use scdtr_project.Float.Fixed.{fixed, Fixed-IsTransitive}
use scdtr_project.Controller.{calc}
use scdtr_project.Controller.Limits.{calc-limits}
use scdtr_project.Lpf
use scdtr_project.Lpf.{lpf_total_samples}
use scdtr_project.Lpf.Window.{run}
use scdtr_project.Lpf.Latest.{run-latest}

calc-limits_example :
    let c' =
      calc
        (pos 900)
        10000
        (pos 50000)
        (pos 200)
        (pos 2000)
        (record { ui = pos 240000; u = pos 0 }) in
    (fixed.lt (nat 255) c'.u ≡ false) × (fixed.lt c'.u (nat 0) ≡ false)
calc-limits_example =
    calc-limits (pos 900) 10000 (pos 50000) (pos 200) (pos 2000)
      (record { ui = pos 240000; u = pos 0 }) Fixed-IsTransitive refl

run-latest_example :
    let vs : List ℤ = pos 1 ∷ pos 2 ∷ pos 3 ∷ [] in
    let s = run vs Lpf.new in
    (s.lpf_num_samples ≡ min 3 lpf_total_samples)
    × (s.lpf_idx ≡ 3 % lpf_total_samples)
    × ((i : ℕ)
        → i < 3
        → 3 ≤ i + lpf_total_samples
        → get_or s.lpf_samples (i % lpf_total_samples) (nat 0) ≡ get_or vs i (nat 0))
run-latest_example = run-latest (pos 1 ∷ pos 2 ∷ pos 3 ∷ [])
