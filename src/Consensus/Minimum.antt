-- ===== src/Consensus/Minimum.antt =====
-- What the candidates of `consensus_iterate` of src/consensus.cpp cost among the vectors with which they
-- compete.
use scdtr_project.Prelude.{
  ℕ, ◌<◌, ◌≡◌, refl, sym, ap, ap₂, ◌∙◌, ◌≢◌, inl, inr, List, arith, set, get_or-set_self,
  get_or-set_ne,
}
use scdtr_project.Float.{Float, nat}
use scdtr_project.Float.Exact.{IsExact, IsDivisor, sub_self}
use scdtr_project.Float.Squares.{mul-free, mul-linear, mul-two}
use scdtr_project.Consensus.Reference.{IsPrepared, tabulate-at, length-tabulate, boundary-light}
use scdtr_project.Consensus.Cost.{distance}
use scdtr_project.Consensus.{
  Consensus, at, rho, per_rho, tabulate, multiply_two_arrays, evaluate_cost, z_vector,
  two_boundaries, unconstrained, boundary_linear, boundary_0, boundary_100, boundary_linear_0,
  boundary_linear_100,
}
use scdtr_project.Consensus.Slope.{least}

module _ {ℓ} {F : Type ℓ} ⦃d : Float F⦄ where
  module _ (n : ℕ) (cost residual : F) (c : Consensus F) where
    abbrev wanted : F
    wanted = d.sub c.li_ref residual

    abbrev z : List F
    z = z_vector n cost residual c

    -- The vectors `x` with which a candidate competes: all, those that give the reference less the
    -- residual with the gains of the node, and those with the own entry at an end.
    pub data Competes (x : List F) : List F → Type ℓ where
      free : Competes x (unconstrained n cost residual c z)
      linear :
          multiply_two_arrays n cost residual c x c.ki ≡ wanted
          → Competes x (boundary_linear n cost residual c z)
      at_0 : at x c.node_idx ≡ nat 0 → Competes x (boundary_0 n cost residual c z)
      at_100 : at x c.node_idx ≡ nat 100 → Competes x (boundary_100 n cost residual c z)
      linear_0 :
          multiply_two_arrays n cost residual c x c.ki ≡ wanted
          → at x c.node_idx ≡ nat 0
          → Competes x (boundary_linear_0 n cost residual c z)
      linear_100 :
          multiply_two_arrays n cost residual c x c.ki ≡ wanted
          → at x c.node_idx ≡ nat 100
          → Competes x (boundary_linear_100 n cost residual c z)

    module _ (e : IsExact F) (r : IsPrepared n c) (half : IsDivisor {F = F} (nat 2)) where
      end-others :
          (f : ℕ → F) (v : F) (i : ℕ)
          → i < n
          → i ≢ c.node_idx
          → at (set (tabulate n f) c.node_idx v) i ≡ f i
      end-others f v i inside apart =
          get_or-set_ne (tabulate n f) v (nat 0) (λ same. apart (sym same))
          ∙ tabulate-at f n i (nat 0) inside

      end-own :
          (x : List F) (f : ℕ → F) (v : F)
          → at x c.node_idx ≡ v
          → d.sub (at x c.node_idx) (at (set (tabulate n f) c.node_idx v) c.node_idx) ≡ nat 0
      end-own x f v stands =
          ap₂ d.sub stands (
            get_or-set_self (tabulate n f) c.node_idx v (nat 0)
              (omega (arith, r.own, length-tabulate f n)))
          ∙ sub_self e v

      module _ (by_rho : IsDivisor {F = F} rho) where
        -- A candidate with the own entry at `v` and the others as without the boundary.
        least-end :
            (x : List F) (v : F)
            → at x c.node_idx ≡ v
            → let s = set (tabulate n (λ i. per_rho n cost residual c (at z i))) c.node_idx v in
              evaluate_cost n cost residual c x
              ≡ d.add
                  (evaluate_cost n cost residual c s)
                  (d.mul (d.div rho (nat 2)) (distance n cost residual c x s))
        least-end x v stands =
            let f : ℕ → F = λ i. per_rho n cost residual c (at z i) in
            least n cost residual c e r half x (set (tabulate n f) c.node_idx v) (nat 0)
              (λ i inside apart.
                ap (d.mul rho) (end-others f v i inside apart)
                ∙ mul-free e rho by_rho (at z i) (at c.ki i))
              (inl (end-own x f v stands)) (inl refl)

        -- A candidate with the own entry at `v` and the others on the boundary.
        least-two :
            (x : List F) (v offset : F)
            → at x c.node_idx ≡ v
            → let s = set (tabulate n (two_boundaries n cost residual c z offset)) c.node_idx v in
              multiply_two_arrays n cost residual c x c.ki
                ≡ multiply_two_arrays n cost residual c s c.ki
              → evaluate_cost n cost residual c x
                ≡ d.add
                    (evaluate_cost n cost residual c s)
                    (d.mul (d.div rho (nat 2)) (distance n cost residual c x s))
        least-two x v offset stands same =
            let f = two_boundaries n cost residual c z offset in
            let m = c.kinorm_kii_diff in
            let u =
              d.sub (d.mul (at c.ki c.node_idx) (at z c.node_idx))
                (multiply_two_arrays n cost residual c z c.ki) in
            least n cost residual c e r half x (set (tabulate n f) c.node_idx v)
              (d.add (d.sub (nat 0) (d.mul rho (d.div offset m))) (d.div u m))
              (λ i inside apart.
                ap (d.mul rho) (end-others f v i inside apart)
                ∙ mul-two e rho by_rho (at z i) (at c.ki i) m offset u)
              (inl (end-own x f v stands)) (inr same)

        -- The candidate on the linear boundary.
        least-linear :
            (x : List F)
            → IsDivisor c.ki_norm
            → let s = boundary_linear n cost residual c z in
              multiply_two_arrays n cost residual c x c.ki
                ≡ multiply_two_arrays n cost residual c s c.ki
              → evaluate_cost n cost residual c x
                ≡ d.add
                    (evaluate_cost n cost residual c s)
                    (d.mul (d.div rho (nat 2)) (distance n cost residual c x s))
        unfolding boundary_linear
        least-linear x by_norm same =
            let w =
              d.add (d.sub residual c.li_ref)
                (per_rho n cost residual c (multiply_two_arrays n cost residual c z c.ki)) in
            let f : ℕ → F = λ i.
              d.sub (per_rho n cost residual c (at z i)) (d.mul (d.div (at c.ki i) c.ki_norm) w) in
            let steep : (i : ℕ)
                → i < n
                → d.mul rho (at (tabulate n f) i)
                  ≡ d.add (at z i)
                      (d.mul (d.sub (nat 0) (d.mul rho (d.div w c.ki_norm))) (at c.ki i)) =
              λ i inside.
                ap (d.mul rho) (tabulate-at f n i (nat 0) inside)
                ∙ mul-linear e rho by_rho (at z i) (at c.ki i) c.ki_norm w in
            least n cost residual c e r half x (tabulate n f)
              (d.sub (nat 0) (d.mul rho (d.div w c.ki_norm))) (λ i inside apart. steep i inside)
              (inr (steep c.node_idx r.own)) (inr same)

        -- In exact arithmetic, where the sums of squared gains are those of `init` and can be divided
        -- by, as rho and 2 can, and the own index is one of the nodes: a vector that competes with one
        -- of the six candidates costs what this candidate costs and rho / 2 times the squared distance
        -- of the two. Any vector competes with the unconstrained one, those that give the reference
        -- less the residual with those on the linear boundary, and those with the own entry at 0 or at
        -- 100 with those that have it there.
        pub candidate-least :
            IsDivisor c.ki_norm
            → IsDivisor c.kinorm_kii_diff
            → (x s : List F) → Competes x s
            → evaluate_cost n cost residual c x
              ≡ d.add
                  (evaluate_cost n cost residual c s)
                  (d.mul (d.div rho (nat 2)) (distance n cost residual c x s))
        unfolding unconstrained boundary_linear boundary_0 boundary_100 boundary_linear_0
            boundary_linear_100
        candidate-least by_norm by_others x s free =
            let f : ℕ → F = λ i. per_rho n cost residual c (at z i) in
            let steep : (i : ℕ)
                → i < n
                → d.mul rho (at (tabulate n f) i) ≡ d.add (at z i) (d.mul (nat 0) (at c.ki i)) =
              λ i inside.
                ap (d.mul rho) (tabulate-at f n i (nat 0) inside)
                ∙ mul-free e rho by_rho (at z i) (at c.ki i) in
            least n cost residual c e r half x (tabulate n f) (nat 0)
              (λ i inside apart. steep i inside) (inr (steep c.node_idx r.own)) (inl refl)
        candidate-least by_norm by_others x s (linear same) =
            least-linear x by_norm
              (same ∙ sym (boundary-light n cost residual c e r z by_norm by_others).0)
        candidate-least by_norm by_others x s (at_0 stands) = least-end x (nat 0) stands
        candidate-least by_norm by_others x s (at_100 stands) = least-end x (nat 100) stands
        candidate-least by_norm by_others x s (linear_0 same stands) =
            least-two x (nat 0) (d.sub residual c.li_ref) stands
              (same ∙ sym (boundary-light n cost residual c e r z by_norm by_others).1)
        candidate-least by_norm by_others x s (linear_100 same stands) =
            least-two x (nat 100)
              (d.add (d.sub residual c.li_ref) (d.mul (nat 100) (at c.ki c.node_idx))) stands
              (same ∙ sym (boundary-light n cost residual c e r z by_norm by_others).2)
