-- ===== src/Tests/Consensus.antt =====
-- A consensus of two nodes.
use scdtr_project.Prelude.{ℕ, ◌<◌, ◌≡◌, refl, ◌⊎◌, List, [], ◌∷◌, arith, length, All}
use scdtr_project.Prelude.Int.{ℤ, pos}
use scdtr_project.Float.{nat}
use scdtr_project.Float.Fixed.{fixed, Fixed-IsTransitive}
use scdtr_project.Consensus
use scdtr_project.Consensus.{
  Consensus, at, rho, fill, off, iterate, waiting_recive_duty_cycle, max_iter, consensus_iterate,
}
use scdtr_project.Consensus.Iterate.{candidates, Beats, IsCheapest, consensus_iterate-cheapest}
use scdtr_project.Consensus.Phases.{run_iterations}
use scdtr_project.Consensus.Iterations.{consensus_ends}
use scdtr_project.Comm.Duty.{num_messages}
use scdtr_project.Float.Mod11.{Mod11, of_nat, r0, r1, r4, r5, r7, r9, mod11, mod11-IsExact, divides}
use scdtr_project.Consensus.{
  boundary_linear, boundary_linear_0, boundary_linear_100, z_vector, multiply_two_arrays,
}
use scdtr_project.Consensus.{evaluate_cost, rho}
use scdtr_project.Consensus.Cost.{distance}
use scdtr_project.Consensus.Minimum.{candidate-least, linear}
use scdtr_project.Consensus.Reference.{init-IsPrepared, boundary-light}
use scdtr_project.Tests.Data.{board, two_nodes, consensus, zeros}

abbrev gains : List ℤ
gains = pos 1500 ∷ pos 300 ∷ zeros 5

abbrev started : Consensus ℤ
started = Consensus.init two_nodes gains (pos 50000) consensus

abbrev cost : ℤ
cost = pos 1000

abbrev residual : ℤ
residual = pos 2000

consensus_iterate-cheapest_example :
    let out = (consensus_iterate 2 cost residual started).duty_cycle_best in
    (All
        (λ y. ¬ Beats 2 cost residual started y (fixed.ratio 100000 1))
        (candidates 2 cost residual started)
      × (out ≡ fill 2 (λ i. fixed.sub (nat 0) (nat 1)) started.duty_cycle_best))
    ⊎ ((x : List ℤ) × IsCheapest 2 cost residual started
          (candidates 2 cost residual started)
          (fixed.ratio 100000 1)
          x
        × (out ≡ fill 2 (at x) started.duty_cycle_best))
consensus_iterate-cheapest_example =
    consensus_iterate-cheapest 2 cost residual started Fixed-IsTransitive

-- The message of node 5 comes early in the first iteration, and late in the second one.
abbrev message : List ℕ
message = 10 ∷ 20 ∷ 30 ∷ 40 ∷ 0 ∷ 0 ∷ 0 ∷ []

abbrev iterations : List (List (List (List ℕ)))
iterations = ((message ∷ []) ∷ []) ∷ ([] ∷ [] ∷ (message ∷ []) ∷ []) ∷ []

consensus_ends_example :
    let (c', refs) =
      run_iterations two_nodes cost residual iterations
        (Consensus.init two_nodes gains (pos 50000) consensus)
        board in
    ((length iterations ≡ max_iter) → (c'.consensus_state ≡ off) × (length refs ≡ 1))
    × ((length iterations < max_iter)
        → (c'.consensus_state ≡ iterate) × (c'.num_iter ≡ length iterations) × (refs ≡ []))
unfolding num_messages
consensus_ends_example =
    consensus_ends two_nodes cost residual gains (pos 50000) iterations consensus board
      (omega arith) (omega arith) (omega arith)

-- Numbers without rounding: the nodes 3 and 5 with the gains 7 and 1 in a percentage of duty cycle.
abbrev exact_gains : List Mod11
exact_gains = r7 ∷ r1 ∷ []

abbrev exact_arrays : Consensus Mod11
exact_arrays = record {
  duty_cycle_av = r0 ∷ r0 ∷ [];
  lagrange_multipliers = r0 ∷ r0 ∷ [];
  ki = r0 ∷ r0 ∷ [];
  ki_norm = r0;
  kinorm_kii_diff = r0;
  li_ref = r0;
  node_idx = 255;
  num_iter = 0;
  number_of_msg_expected = 0;
  consensus_state = off;
  duty_cycle_best = r0 ∷ r0 ∷ [];
  received_duty_cycle = r0 ∷ r0 ∷ [];
  number_of_msg_received = 0;
}

abbrev exact : Consensus Mod11
exact = Consensus.init two_nodes exact_gains r9 exact_arrays

boundary-light_example :
    let z = z_vector 2 r1 r5 exact in
    let light : List Mod11 → Mod11 = λ x. multiply_two_arrays 2 r1 r5 exact x exact.ki in
    (light (boundary_linear 2 r1 r5 exact z) ≡ r4)
    × (light (boundary_linear_0 2 r1 r5 exact z) ≡ r4)
    × (light (boundary_linear_100 2 r1 r5 exact z) ≡ r4)
unfolding Consensus.init
boundary-light_example =
    boundary-light 2 r1 r5 exact mod11-IsExact
      (init-IsPrepared two_nodes exact_gains r9 exact_arrays (omega arith) (omega arith))
      (z_vector 2 r1 r5 exact) (divides (of_nat 13) refl) (divides (of_nat 4) refl)

-- Duty cycles that give the reference less the residual as well.
candidate-least_example :
    let x = r5 ∷ r0 ∷ [] in
    let s = boundary_linear 2 r1 r5 exact (z_vector 2 r1 r5 exact) in
    evaluate_cost 2 r1 r5 exact x
    ≡ mod11.add
        (evaluate_cost 2 r1 r5 exact s)
        (mod11.mul (mod11.div rho (of_nat 2)) (distance 2 r1 r5 exact x s))
unfolding Consensus.init multiply_two_arrays
candidate-least_example =
    candidate-least 2 r1 r5 exact mod11-IsExact
      (init-IsPrepared two_nodes exact_gains r9 exact_arrays (omega arith) (omega arith))
      (divides (of_nat 2) refl) (divides (of_nat 7) refl) (divides (of_nat 13) refl)
      (divides (of_nat 4) refl) (r5 ∷ r0 ∷ [])
      (boundary_linear 2 r1 r5 exact (z_vector 2 r1 r5 exact)) (linear refl)
