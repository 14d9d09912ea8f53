-- ===== src/Consensus/Cost.antt =====
-- The cost function of src/consensus.cpp between two vectors, where no operation rounds.
use scdtr_project.Prelude.{ℕ, ◌<◌, ◌≡◌, sym, ap, ap₂, ◌∙◌, ◌≢◌, ◌⊎◌, not, List, arith, ◌==◌}
use scdtr_project.Float.{Float, nat}
use scdtr_project.Float.Exact.{IsExact, IsDivisor, mul_left_comm, sub-mul}
use scdtr_project.Float.Squares.{gather, own_rise}
use scdtr_project.Float.Squares.{entry_cost}
use scdtr_project.Consensus.Sums.{
  part, part_congr, sum_congr, sum_from-add, sum_from-sub, sum_from-mul, sum_from-split,
}
use scdtr_project.Consensus.Boundary.{kept, kept_mul}
use scdtr_project.Consensus.Reference.{tabulate-at}
use scdtr_project.Consensus.{Consensus, at, rho, sum_from, multiply_two_arrays, evaluate_cost}

module _ {ℓ} {F : Type ℓ} ⦃d : Float F⦄ where
  module _ (n : ℕ) (cost residual : F) (c : Consensus F) where
    -- The squared distance of two vectors.
    abbrev pub distance : List F → List F → F
    distance x s = sum_from 0 (λ i. d.sqr (d.sub (at x i) (at s i))) n (nat 0)

    -- The slope of the cost at the entry `i` of `s`, but for the cost of the own entry.
    abbrev pub slope : List F → ℕ → F
    slope s i =
        d.add (at c.lagrange_multipliers i) (d.mul rho (d.sub (at s i) (at c.duty_cycle_av i)))

    -- How much the cost goes up along the slope from `s` to `x`.
    abbrev pub rise : List F → List F → F
    rise x s =
        d.add (d.mul cost (d.sub (at x c.node_idx) (at s c.node_idx)))
          (sum_from 0 (λ i. d.mul (d.sub (at x i) (at s i)) (slope s i)) n (nat 0))

    abbrev entry : List F → ℕ → F
    entry x i =
        let gap = d.sub (at x i) (at c.duty_cycle_av i) in
        d.add (d.mul (at c.lagrange_multipliers i) gap) (d.mul (d.div rho (nat 2)) (d.sqr gap))

    module _ (e : IsExact F) where
      evaluate_cost-entries :
          (x : List F)
          → evaluate_cost n cost residual c x
            ≡ d.add (d.mul cost (at x c.node_idx)) (sum_from 0 (entry x) n (nat 0))
      unfolding evaluate_cost multiply_two_arrays
      evaluate_cost-entries x =
          let gap : ℕ → F = λ i. d.sub (at x i) (at c.duty_cycle_av i) in
          let y : ℕ → F = at c.lagrange_multipliers in
          let half = d.div rho (nat 2) in
          e.add_assoc (d.mul cost (at x c.node_idx)) _ _
          ∙ ap (d.add (d.mul cost (at x c.node_idx))) (
              ap₂ d.add
                (sum_congr n _ (λ i. d.mul (y i) (gap i))
                  (λ j hi. ap (d.mul (y j)) (tabulate-at gap n j (nat 0) hi)))
                (sym (sum_from-mul e 0 n half (λ i. d.sqr (gap i))))
              ∙ sym
                  (sum_from-add e 0 n (λ i. d.mul (y i) (gap i)) (λ i. d.mul half (d.sqr (gap i)))))

      entries-rise :
          (x s : List F)
          → IsDivisor {F = F} (nat 2)
          → sum_from 0 (entry x) n (nat 0)
            ≡ d.add (sum_from 0 (entry s) n (nat 0)) (
                d.add
                  (d.mul (d.div rho (nat 2)) (distance x s))
                  (sum_from 0 (λ i. d.mul (d.sub (at x i) (at s i)) (slope s i)) n (nat 0)))
      entries-rise x s divides =
          let half = d.div rho (nat 2) in
          let far : ℕ → F = λ i. d.mul half (d.sqr (d.sub (at x i) (at s i))) in
          let up : ℕ → F = λ i. d.mul (d.sub (at x i) (at s i)) (slope s i) in
          sum_congr n (entry x) (λ i. d.add (entry s i) (d.add (far i) (up i)))
            (λ j hi.
              entry_cost e rho (at x j) (at s j) (at c.duty_cycle_av j)
                (at c.lagrange_multipliers j) divides)
          ∙ sum_from-add e 0 n (entry s) (λ i. d.add (far i) (up i))
          ∙ ap (d.add (sum_from 0 (entry s) n (nat 0))) (
              sum_from-add e 0 n far up
              ∙ ap (λ r. d.add r (sum_from 0 up n (nat 0)))
                  (sum_from-mul e 0 n half (λ i. d.sqr (d.sub (at x i) (at s i)))))

      -- The cost at `x` is that at `s`, the distance times `rho / 2`, and the rise.
      pub evaluate_cost-rise :
          (x s : List F)
          → IsDivisor {F = F} (nat 2)
          → evaluate_cost n cost residual c x
            ≡ d.add
                (d.add
                  (evaluate_cost n cost residual c s)
                  (d.mul (d.div rho (nat 2)) (distance x s)))
                (rise x s)
      evaluate_cost-rise x s divides =
          let o = c.node_idx in
          let far = d.mul (d.div rho (nat 2)) (distance x s) in
          let own : d.mul cost (at x o)
              ≡ d.add (d.mul cost (d.sub (at x o) (at s o))) (d.mul cost (at s o)) =
            ap (d.mul cost) (sym (e.sub-add (at x o) (at s o))) ∙ e.mul-add cost _ (at s o) in
          evaluate_cost-entries x
          ∙ ap₂ d.add own (entries-rise x s divides)
          ∙ sym (
              gather e (d.mul cost (at s o)) (sum_from 0 (entry s) n (nat 0)) far
                (d.mul cost (d.sub (at x o) (at s o)))
                (sum_from 0 (λ i. d.mul (d.sub (at x i) (at s i)) (slope s i)) n (nat 0)))
          ∙ sym (ap (λ r. d.add (d.add r far) (rise x s)) (evaluate_cost-entries s))

      -- What two vectors differ by in the light that they give.
      pub light-sub :
          (x s : List F)
          → sum_from 0 (λ i. d.mul (d.sub (at x i) (at s i)) (at c.ki i)) n (nat 0)
            ≡ d.sub
                (multiply_two_arrays n cost residual c x c.ki)
                (multiply_two_arrays n cost residual c s c.ki)
      unfolding multiply_two_arrays
      light-sub x s =
          sum_congr n _ (λ i. d.sub (d.mul (at x i) (at c.ki i)) (d.mul (at s i) (at c.ki i)))
            (λ j hi. sub-mul e (at x j) (at s j) (at c.ki j))
          ∙ sum_from-sub e 0 n (λ i. d.mul (at x i) (at c.ki i)) (λ i. d.mul (at s i) (at c.ki i))

      -- Where the slope is `h` times the gain at every entry but one that stays, the rise is `h` times
      -- the difference in light.
      pub rise_lem :
          (x s : List F) (h : F)
          → c.node_idx < n
          → ((i : ℕ) → i < n → i ≢ c.node_idx → slope s i ≡ d.mul h (at c.ki i))
          → (d.sub (at x c.node_idx) (at s c.node_idx) ≡ nat 0)
            ⊎ (d.add cost (slope s c.node_idx) ≡ d.mul h (at c.ki c.node_idx))
          → rise x s
            ≡ d.mul h (
                d.sub
                  (multiply_two_arrays n cost residual c x c.ki)
                  (multiply_two_arrays n cost residual c s c.ki))
      rise_lem x s h inside steep own =
          let o = c.node_idx in
          let t : ℕ → F = λ i. d.sub (at x i) (at s i) in
          let k : ℕ → F = at c.ki in
          let light : ℕ → F = λ i. d.mul (t i) (k i) in
          let up : ℕ → F = λ i. d.mul (t i) (slope s i) in
          let rest = kept (λ i. not (i == o)) n light in
          let others : kept (λ i. not (i == o)) n up ≡ d.mul h rest =
            sum_congr n _ (part (λ i. not (i == o)) (λ i. d.mul h (light i))) (λ j hi.
              part_congr o j up (λ i. d.mul h (light i))
                (λ apart. ap (d.mul (t j)) (steep j hi apart) ∙ mul_left_comm e (t j) h (k j)))
            ∙ kept_mul e (λ i. not (i == o)) n h light in
          ap (d.add (d.mul cost (t o))) (
            sum_from-split e 0 n o up (omega arith) (omega (arith, inside))
            ∙ ap (d.add (up o)) others)
          ∙ own_rise e cost (t o) (slope s o) h (k o) rest own
          ∙ sym (
              ap (d.mul h) (
                sym (light-sub x s)
                ∙ sum_from-split e 0 n o light (omega arith) (omega (arith, inside))))
