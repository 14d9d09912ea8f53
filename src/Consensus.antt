-- ===== src/Consensus.antt =====
-- src/consensus.cpp: the nodes agree on duty cycles that cost least. In each of fifty iterations a node
-- takes the best of six candidate vectors, sends it, waits for those of the others, and averages.
pub mod Main
pub mod Iterate
pub mod Sums
pub mod Boundary
pub mod Reference
pub mod Cost
pub mod Slope
pub mod Minimum
pub mod Phases
pub mod Iterations
pub mod Fill
pub mod State
pub use State.{
  ConsensusState, off, iterate, sending_duty_cycle, waiting_recive_duty_cycle, update, is_iterate,
  is_sending, is_waiting, is_update, is_off, max_iter, Consensus, at, rho,
}
unfoldable pub use State.{fill_from, tabulate_from, fill, tabulate, sum_from}
use scdtr_project.Prelude.{ℕ, ◌-◌, ◌*◌, Bool, true, false, List, if◌then◌else◌, set}
use scdtr_project.Float.{Float, nat}
use scdtr_project.Board.{Board}
use scdtr_project.Comm.Duty.{num_messages, send_consensus_duty_cycle}
use scdtr_project.Nodes.{Nodes, max_num_nodes, own_index}

module _ {ℓ} {F : Type ℓ} ⦃d : Float F⦄ where
  -- `init`, once `calibrationFSM.gainMatrix[nodeIdx]` is `gains` and `luminaire.luxRef` is `lux_ref`.
  unfoldable pub init : Nodes → List F → F → Consensus F → Consensus F
  unfolding fill sum_from num_messages
  init nodes gains lux_ref c =
      let n = nodes.num_total_nodes in
      let scaled : ℕ → F = λ i. d.div (d.mul (at gains i) (d.ratio 255 1)) (d.ratio 100 1) in
      let norm = sum_from 0 (λ i. d.sqr (scaled i)) n (nat 0) in
      let scaled_gains = fill n scaled c.ki in
      record {
        duty_cycle_av = fill n (λ i. nat 0) c.duty_cycle_av;
        lagrange_multipliers = fill n (λ i. nat 0) c.lagrange_multipliers;
        ki = scaled_gains;
        ki_norm = norm;
        kinorm_kii_diff = d.sub norm (d.sqr (at scaled_gains (own_index nodes)));
        li_ref = lux_ref;
        node_idx = own_index nodes;
        num_iter = 0;
        number_of_msg_expected = num_messages n * (n - 1);
        consensus_state = iterate;
        duty_cycle_best = fill n (λ i. nat 0) c.duty_cycle_best;
        received_duty_cycle = fill n (λ i. nat 0) c.received_duty_cycle;
        number_of_msg_received = 0;
      }

  -- In what follows `n` is `numTotalNodes`, `cost` is `luminaire.cost` and `residual` is
  -- `calibrationFSM.residualArray[nodeIdx]`.
  module _ (n : ℕ) (cost residual : F) (c : Consensus F) where
    -- `multiplyTwoArrays`
    unfoldable pub multiply_two_arrays : List F → List F → F
    unfolding sum_from
    multiply_two_arrays a b = sum_from 0 (λ i. d.mul (at a i) (at b i)) n (nat 0)

    unfoldable pub evaluate_cost : List F → F
    unfolding sum_from tabulate multiply_two_arrays
    evaluate_cost x =
        let diff = tabulate n (λ i. d.sub (at x i) (at c.duty_cycle_av i)) in
        let norm = sum_from 0 (λ i. d.sqr (d.sub (at x i) (at c.duty_cycle_av i))) n (nat 0) in
        d.add
          (d.add (d.mul cost (at x c.node_idx)) (multiply_two_arrays c.lagrange_multipliers diff))
          (d.mul (d.div rho (nat 2)) norm)

    abbrev pub tol : F
    tol = d.ratio 1 100

    unfoldable pub check_feasibility : List F → Bool
    unfolding multiply_two_arrays
    check_feasibility x =
        if d.lt (at x c.node_idx) (d.sub (nat 0) tol)
        then false
        else if d.lt (d.add (nat 100) tol) (at x c.node_idx)
        then false
        else if d.lt (multiply_two_arrays x c.ki) (d.sub (d.sub c.li_ref residual) tol)
        then false
        else true

    -- `1 / rho * z[i]`
    abbrev pub per_rho : F → F
    per_rho x = d.mul (d.div (nat 1) rho) x

    -- The vector `z`, with the own cost taken off.
    unfoldable pub z_vector : List F
    unfolding tabulate
    z_vector =
        let z =
          tabulate n
            (λ i. d.sub (d.mul rho (at c.duty_cycle_av i)) (at c.lagrange_multipliers i)) in
        set z c.node_idx (d.sub (at z c.node_idx) cost)

    -- The six values of `dutyCycleTest`, in the order of the source, from `z`.
    unfoldable pub unconstrained : List F → List F
    unfolding tabulate
    unconstrained z = tabulate n (λ i. per_rho (at z i))

    unfoldable pub boundary_linear : List F → List F
    unfolding tabulate multiply_two_arrays
    boundary_linear z = tabulate n (λ i. d.sub (per_rho (at z i)) (
        d.mul (d.div (at c.ki i) c.ki_norm)
          (d.add (d.sub residual c.li_ref) (per_rho (multiply_two_arrays z c.ki)))))

    unfoldable pub boundary_0 : List F → List F
    unfolding tabulate
    boundary_0 z = set (tabulate n (λ i. per_rho (at z i))) c.node_idx (nat 0)

    unfoldable pub boundary_100 : List F → List F
    unfolding tabulate
    boundary_100 z = set (tabulate n (λ i. per_rho (at z i))) c.node_idx (nat 100)

    -- Entry `i` of the last two, whose first difference is `offset`.
    abbrev pub two_boundaries : List F → F → ℕ → F
    two_boundaries z offset i =
        d.add (d.sub (per_rho (at z i)) (d.mul (d.div (at c.ki i) c.kinorm_kii_diff) offset)) (
          d.mul (d.div (at c.ki i) (d.mul rho c.kinorm_kii_diff))
            (d.sub (d.mul (at c.ki c.node_idx) (at z c.node_idx)) (multiply_two_arrays z c.ki)))

    unfoldable pub boundary_linear_0 : List F → List F
    unfolding tabulate multiply_two_arrays
    boundary_linear_0 z =
        set (tabulate n (two_boundaries z (d.sub residual c.li_ref))) c.node_idx (nat 0)

    unfoldable pub boundary_linear_100 : List F → List F
    unfolding tabulate multiply_two_arrays
    boundary_linear_100 z =
        set
          (tabulate n (
            two_boundaries z
              (d.add (d.sub residual c.li_ref) (d.mul (nat 100) (at c.ki c.node_idx)))))
          c.node_idx (nat 100)

    -- A candidate replaces the best one if it is feasible and costs less. The `memcpy` writes `n` entries.
    unfoldable pub try_candidate : List F → List F × F → List F × F
    unfolding fill
    try_candidate x (best, cost_best) =
        if check_feasibility x
        then (if d.lt (evaluate_cost x) cost_best
            then (fill n (at x) best, evaluate_cost x)
            else (best, cost_best))
        else (best, cost_best)

    -- The vector of -1 and the large cost that the search starts from.
    unfoldable pub no_candidate : List F × F
    unfolding fill
    no_candidate = (fill n (λ i. d.sub (nat 0) (nat 1)) c.duty_cycle_best, d.ratio 100000 1)

    unfoldable pub consensus_iterate : Consensus F
    unfolding no_candidate try_candidate z_vector
    consensus_iterate =
        let z = z_vector in
        let b1 = try_candidate (unconstrained z) no_candidate in
        let b2 = try_candidate (boundary_linear z) b1 in
        let b3 = try_candidate (boundary_0 z) b2 in
        let b4 = try_candidate (boundary_100 z) b3 in
        let b5 = try_candidate (boundary_linear_0 z) b4 in
        let b6 = try_candidate (boundary_linear_100 z) b5 in record c { duty_cycle_best = b6.0 }

  unfoldable pub reset_consensus : ℕ → Consensus F → Consensus F
  unfolding fill
  reset_consensus n c = record {
    duty_cycle_av = fill n (λ i. nat 0) c.duty_cycle_av;
    lagrange_multipliers = fill n (λ i. nat 0) c.lagrange_multipliers;
    ki = fill n (λ i. nat 0) c.ki;
    ki_norm = nat 0;
    kinorm_kii_diff = nat 0;
    li_ref = nat 0;
    node_idx = 255;
    num_iter = 0;
    number_of_msg_expected = c.number_of_msg_expected;
    consensus_state = off;
    duty_cycle_best = fill n (λ i. nat 0) c.duty_cycle_best;
    received_duty_cycle = fill n (λ i. nat 0) c.received_duty_cycle;
    number_of_msg_received = 0;
  }
