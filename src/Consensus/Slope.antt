-- ===== src/Consensus/Slope.antt =====
-- Where the cost function of src/consensus.cpp is least, where no operation rounds.
use scdtr_project.Prelude.{
  ℕ, ◌<◌, ◌≡◌, sym, ap, ◌∙◌, ◌≢◌, ◌⊎◌, inl, inr, List, arith, get_or-set_self, get_or-set_ne,
}
use scdtr_project.Float.{Float, nat}
use scdtr_project.Float.Exact.{IsExact, IsDivisor, add-zero, mul-zero, sub_self}
use scdtr_project.Float.Squares.{slope_lem, own_slope_lem, zero-mul}
use scdtr_project.Consensus.Reference.{IsPrepared, tabulate-at, length-tabulate}
use scdtr_project.Consensus.Cost.{distance, slope, rise_lem, evaluate_cost-rise}
use scdtr_project.Consensus.{
  Consensus, at, rho, tabulate, multiply_two_arrays, evaluate_cost, z_vector,
}

module _ {ℓ} {F : Type ℓ} ⦃d : Float F⦄ where
  module _ (n : ℕ) (cost residual : F) (c : Consensus F) where
    abbrev z : List F
    z = z_vector n cost residual c

    module _ (e : IsExact F) (r : IsPrepared n c) (half : IsDivisor {F = F} (nat 2)) where
      z-others :
          (i : ℕ)
          → i < n
          → i ≢ c.node_idx
          → at z i ≡ d.sub (d.mul rho (at c.duty_cycle_av i)) (at c.lagrange_multipliers i)
      unfolding z_vector
      z-others i inside apart =
          get_or-set_ne (tabulate n _) _ (nat 0) (λ same. apart (sym same))
          ∙ tabulate-at _ n i (nat 0) inside

      z-own :
          at z c.node_idx
          ≡ d.sub
              (d.sub
                (d.mul rho (at c.duty_cycle_av c.node_idx))
                (at c.lagrange_multipliers c.node_idx))
              cost
      unfolding z_vector
      z-own =
          let f : ℕ → F =
            λ i. d.sub (d.mul rho (at c.duty_cycle_av i)) (at c.lagrange_multipliers i) in
          get_or-set_self (tabulate n f) c.node_idx _ (nat 0)
            (omega (arith, r.own, length-tabulate f n))
          ∙ ap (λ v. d.sub v cost) (tabulate-at f n c.node_idx (nat 0) r.own)

      -- `rho` times each entry of `s` but one that stays is `h` times its gain beyond that of `z`.
      pub least :
          (x s : List F) (h : F)
          → ((i : ℕ)
              → i < n
              → i ≢ c.node_idx
              → d.mul rho (at s i) ≡ d.add (at z i) (d.mul h (at c.ki i)))
          → (d.sub (at x c.node_idx) (at s c.node_idx) ≡ nat 0)
            ⊎ (d.mul rho (at s c.node_idx) ≡ d.add (at z c.node_idx) (d.mul h (at c.ki c.node_idx)))
          → (h ≡ nat 0)
            ⊎ (multiply_two_arrays n cost residual c x c.ki
                ≡ multiply_two_arrays n cost residual c s c.ki)
          → evaluate_cost n cost residual c x
            ≡ d.add
                (evaluate_cost n cost residual c s)
                (d.mul (d.div rho (nat 2)) (distance n cost residual c x s))
      least x s h steep own flat =
          let o = c.node_idx in
          let lights =
            d.sub (multiply_two_arrays n cost residual c x c.ki)
              (multiply_two_arrays n cost residual c s c.ki) in
          let own' : (d.sub (at x o) (at s o) ≡ nat 0)
              ⊎ (d.add cost (slope n cost residual c s o) ≡ d.mul h (at c.ki o)) =
            elim own [
              | inl stays ↦ inl stays
              | inr up ↦ inr (
                  own_slope_lem e rho (at s o) (at c.duty_cycle_av o) (at c.lagrange_multipliers o)
                    (d.mul h (at c.ki o)) cost (up ∙ ap (λ v. d.add v (d.mul h (at c.ki o))) z-own))
            ] in
          let level : d.mul h lights ≡ nat 0 = elim flat [
            | inl nothing ↦ ap (λ v. d.mul v lights) nothing ∙ zero-mul e lights
            | inr same ↦
                ap (λ v. d.mul h (d.sub v (multiply_two_arrays n cost residual c s c.ki))) same
                ∙ ap (d.mul h) (sub_self e _)
                ∙ mul-zero e h
          ] in
          evaluate_cost-rise n cost residual c e x s half
          ∙ ap (d.add _) (
              rise_lem n cost residual c e x s h r.own
                (λ i inside apart.
                  slope_lem e rho (at s i) (at c.duty_cycle_av i) (at c.lagrange_multipliers i)
                    (d.mul h (at c.ki i))
                    (steep i inside apart
                      ∙ ap (λ v. d.add v (d.mul h (at c.ki i))) (z-others i inside apart)))
                own'
              ∙ level)
          ∙ add-zero e _
