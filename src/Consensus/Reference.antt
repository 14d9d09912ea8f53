-- ===== src/Consensus/Reference.antt =====
-- What the candidates of `consensus_iterate` of src/consensus.cpp on the linear boundary give at the
-- desk of the node.
use scdtr_project.Prelude.{
  ℕ, zero, suc, ◌+◌, ◌≤◌, ◌<◌, ◌≡◌, refl, sym, ap, ap₂, ◌∙◌, fun_ext, Bool, true, not, List, arith,
  ◌==◌, length, get_or, set, get_or-set_self, get_or-set_ne,
}
use scdtr_project.Float.{Float, nat}
use scdtr_project.Float.Exact.{
  IsExact, IsDivisor, add-mul, sub-add_right, neg_sub, add-neg, linear-cancel, give_back, mul-zero,
}
use scdtr_project.Nodes.{Nodes, own_index}
use scdtr_project.Consensus.Fill.{fill-at}
use scdtr_project.Consensus.Sums.{part, sum_congr, part_congr, sum_from-split}
use scdtr_project.Consensus.Boundary.{kept, kept_add, kept_linear, kept_scaled}
use scdtr_project.Consensus.{
  Consensus, at, rho, per_rho, sum_from, tabulate, tabulate_from, init, multiply_two_arrays,
  two_boundaries, boundary_linear, boundary_linear_0, boundary_linear_100,
}

length-tabulate_from {ℓ} :
    {A : Type ℓ} (i : ℕ) (f : ℕ → A) (n : ℕ) → length (tabulate_from i f n) ≡ n
unfolding tabulate_from
length-tabulate_from i f zero = refl
length-tabulate_from i f (suc n) = ap suc (length-tabulate_from (i + 1) f n)

tabulate_from-at {ℓ} :
    {A : Type ℓ} (i : ℕ) (f : ℕ → A) (n j : ℕ) (z : A)
    → j < n
    → get_or (tabulate_from i f n) j z ≡ f (i + j)
unfolding tabulate_from
tabulate_from-at i f zero j z h = absurd (omega arith)
tabulate_from-at i f (suc n) zero z h = ap f (omega arith)
tabulate_from-at i f (suc n) (suc j) z h =
    tabulate_from-at (i + 1) f n j z (omega arith) ∙ ap f {x = i + 1 + j} (omega arith)

pub length-tabulate {ℓ} : {A : Type ℓ} (f : ℕ → A) (n : ℕ) → length (tabulate n f) ≡ n
unfolding tabulate
length-tabulate f n = length-tabulate_from 0 f n

pub tabulate-at {ℓ} :
    {A : Type ℓ} (f : ℕ → A) (n j : ℕ) (z : A) → j < n → get_or (tabulate n f) j z ≡ f j
unfolding tabulate
tabulate-at f n j z h = tabulate_from-at 0 f n j z h ∙ ap f {x = 0 + j} (omega arith)

module _ {ℓ} {F : Type ℓ} ⦃d : Float F⦄ where
  -- The squares of the gains are summed up, and the own index is one of the nodes.
  pub record IsPrepared (n : ℕ) (c : Consensus F) : Type ℓ where
    pub norm : c.ki_norm ≡ sum_from 0 (λ i. d.sqr (at c.ki i)) n (nat 0)
    pub others : c.kinorm_kii_diff ≡ d.sub c.ki_norm (d.sqr (at c.ki c.node_idx))
    pub own : c.node_idx < n

  pub init-IsPrepared :
      (nodes : Nodes) (gains : List F) (lux_ref : F) (c : Consensus F)
      → own_index nodes < nodes.num_total_nodes
      → nodes.num_total_nodes ≤ length c.ki
      → IsPrepared nodes.num_total_nodes (init nodes gains lux_ref c)
  unfolding init
  init-IsPrepared nodes gains lux_ref c own room = record {
    norm =
        sum_congr nodes.num_total_nodes _ _
          (λ j hi. ap d.sqr (sym (fill-at nodes.num_total_nodes _ c.ki j (nat 0) hi room)));
    others = refl;
    own = own;
  }

  module _ (n : ℕ) (cost residual : F) (c : Consensus F) (e : IsExact F) (r : IsPrepared n c) where
    abbrev light : List F → F
    light x = multiply_two_arrays n cost residual c x c.ki

    boundary_linear-light :
        (z : List F)
        → IsDivisor c.ki_norm
        → light (boundary_linear n cost residual c z) ≡ d.sub c.li_ref residual
    unfolding boundary_linear multiply_two_arrays
    boundary_linear-light z divides =
        let p = d.div (nat 1) rho in
        let k : ℕ → F = at c.ki in
        let reach = d.mul p (light z) in
        let w = d.add (d.sub residual c.li_ref) reach in
        sum_congr n _
          (λ i.
            d.mul (d.sub (per_rho n cost residual c (at z i)) (d.mul (d.div (k i) c.ki_norm) w))
              (k i))
          (λ j hi. ap (λ x. d.mul x (k j)) (tabulate-at _ n j (nat 0) hi))
        ∙ kept_linear e (λ i. true) n p c.ki_norm w (at z) k
            (r.norm ∙ sum_congr n _ _ (λ j hi. e.sqr_mul (k j))) divides
        ∙ sub-add_right e reach (d.sub residual c.li_ref)
        ∙ neg_sub e residual c.li_ref

    -- The squared gains of the other nodes.
    others-norm :
        c.kinorm_kii_diff ≡ kept (λ i. not (i == c.node_idx)) n (λ i. d.mul (at c.ki i) (at c.ki i))
    others-norm =
        let o = c.node_idx in
        let square : ℕ → F = λ i. d.mul (at c.ki i) (at c.ki i) in
        let rest = kept (λ i. not (i == o)) n square in
        r.others
        ∙ ap₂ d.sub
            (r.norm
              ∙ sum_congr n _ _ (λ j hi. e.sqr_mul (at c.ki j))
              ∙ sum_from-split e 0 n o square (omega arith) (omega (arith, r.own))
              ∙ e.add_comm (square o) rest)
            (e.sqr_mul (at c.ki o))
        ∙ e.add-sub rest (square o)

    -- The light of the others, and the own light less that of all.
    others-opposite :
        (z : List F)
        → let o = c.node_idx in
          d.add
            (kept (λ i. not (i == o)) n (λ i. d.mul (at z i) (at c.ki i)))
            (d.sub (d.mul (at c.ki o) (at z o)) (light z))
          ≡ nat 0
    unfolding multiply_two_arrays
    others-opposite z =
        let o = c.node_idx in
        let gives : ℕ → F = λ i. d.mul (at z i) (at c.ki i) in
        let a = kept (λ i. not (i == o)) n gives in
        let own = d.mul (at c.ki o) (at z o) in
        ap (λ x. d.add a (d.sub own x))
          (sum_from-split e 0 n o gives (omega arith) (omega (arith, r.own))
            ∙ ap (λ x. d.add x a) (e.mul_comm (at z o) (at c.ki o)))
        ∙ add-neg e a own

    -- With the own entry at one of its ends, the others make up for what it gives.
    end-light :
        (z : List F) (v offset : F)
        → IsDivisor c.kinorm_kii_diff
        → light (set (tabulate n (two_boundaries n cost residual c z offset)) c.node_idx v)
          ≡ d.add (d.mul v (at c.ki c.node_idx)) (d.sub (nat 0) offset)
    unfolding multiply_two_arrays
    end-light z v offset divides =
        let o = c.node_idx in
        let keep : ℕ → Bool = λ i. not (i == o) in
        let p = d.div (nat 1) rho in
        let m = c.kinorm_kii_diff in
        let k : ℕ → F = at c.ki in
        let t = two_boundaries n cost residual c z offset in
        let x = set (tabulate n t) o v in
        let a = kept keep n (λ i. d.mul (at z i) (k i)) in
        let u = d.sub (d.mul (k o) (at z o)) (light z) in
        let first : ℕ → F =
          λ i. d.sub (per_rho n cost residual c (at z i)) (d.mul (d.div (k i) m) offset) in
        let second : ℕ → F = λ i. d.mul (d.div (k i) (d.mul rho m)) u in
        let norm : m ≡ kept keep n (λ i. d.mul (k i) (k i)) = others-norm in
        let opposite : d.add a u ≡ nat 0 = others-opposite z in
        let own : at x o ≡ v =
          get_or-set_self (tabulate n t) o v (nat 0) (omega (arith, r.own, length-tabulate t n)) in
        let gives : ℕ → F = λ i. d.mul (at x i) (k i) in
        let others : kept keep n gives ≡ kept keep n (λ i. d.mul (t i) (k i)) =
          sum_congr n (part keep gives) (part keep (λ i. d.mul (t i) (k i))) (λ j hi.
            part_congr o j gives (λ i. d.mul (t i) (k i))
              (λ apart.
                ap (λ y. d.mul y (k j))
                  (get_or-set_ne (tabulate n t) v (nat 0) (λ same. apart (sym same))
                    ∙ tabulate-at t n j (nat 0) hi))) in
        sum_from-split e 0 n o gives (omega arith) (omega (arith, r.own))
        ∙ ap₂ d.add (ap (λ y. d.mul y (k o)) own) (
            others
            ∙ ap (kept keep n) (fun_ext (λ i. add-mul e (first i) (second i) (k i)))
            ∙ kept_add e keep n (λ i. d.mul (first i) (k i)) (λ i. d.mul (second i) (k i))
            ∙ ap₂ d.add (kept_linear e keep n p m offset (at z) k norm divides)
                (kept_scaled e keep n m u k norm divides)
            ∙ linear-cancel e p a u offset opposite)

    -- In exact arithmetic, once the sums of squared gains are those of `init` and can be divided by,
    -- each of the three candidates on the linear boundary, from any vector `z`, gives with the gains
    -- of the node just the reference less the residual.
    pub boundary-light :
        (z : List F)
        → IsDivisor c.ki_norm
        → IsDivisor c.kinorm_kii_diff
        → let wanted = d.sub c.li_ref residual in
          (multiply_two_arrays n cost residual c (boundary_linear n cost residual c z) c.ki
            ≡ wanted)
          × (multiply_two_arrays n cost residual c (boundary_linear_0 n cost residual c z) c.ki
              ≡ wanted)
          × (multiply_two_arrays n cost residual c (boundary_linear_100 n cost residual c z) c.ki
              ≡ wanted)
    unfolding boundary_linear_0 boundary_linear_100
    boundary-light z divides divides_others =
        let own = at c.ki c.node_idx in
        let lack = d.sub residual c.li_ref in
        (
          boundary_linear-light z divides,
          end-light z (nat 0) lack divides_others
              ∙ ap (λ x. d.add x (d.sub (nat 0) lack)) (e.mul_comm (nat 0) own ∙ mul-zero e own)
              ∙ e.zero-add (d.sub (nat 0) lack)
              ∙ neg_sub e residual c.li_ref,
          end-light z (nat 100) (d.add lack (d.mul (nat 100) own)) divides_others
              ∙ give_back e (d.mul (nat 100) own) lack
              ∙ neg_sub e residual c.li_ref,
        )
