-- ===== src/Simulator.antt =====
-- src/simulador.cpp: the voltage that is expected after a step of the reference.
use scdtr_project.Prelude.{ℕ, ◌+◌, ◌-◌, ◌%◌, ◌^◌}
use scdtr_project.Prelude.Int.{signed16}
use scdtr_project.Float.{Float, nat, neg}

pub record Simulator {ℓ} (F : Type ℓ) : Type ℓ where
  pub step_time_initial : ℕ
  pub v_initial : F
  pub v_final : F
  -- an `int`, as its 16-bit pattern
  pub tau : ℕ
  pub a : F
  pub b : F

module _ {ℓ} {F : Type ℓ} ⦃d : Float F⦄ where
  unfoldable pub get_tau : F → Simulator F → ℕ
  get_tau voltage s = d.trunc16 (d.add (d.mul (neg s.b) (d.log voltage)) s.a) % 65536

  -- `now` is `micros()`.
  unfoldable pub start_step : ℕ → F → F → Simulator F → Simulator F
  unfolding get_tau
  start_step now v_initial v_final s = record s {
    step_time_initial = now;
    v_initial = v_initial;
    v_final = v_final;
    tau = get_tau v_final s;
  }

  unfoldable pub simulate : ℕ → Simulator F → F
  simulate t s = d.sub s.v_final (
      d.mul (d.sub s.v_final s.v_initial) (
        d.exp (
          d.div (neg (nat ((t + 2 ^ 32 - s.step_time_initial) % 2 ^ 32)))
            (d.of_int (signed16 s.tau)))))
