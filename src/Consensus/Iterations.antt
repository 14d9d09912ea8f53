-- ===== src/Consensus/Iterations.antt =====
-- The fifty iterations of `consensus_main` of src/consensus.cpp, with the messages of the other nodes.
use scdtr_project.Prelude.{
  ℕ, zero, suc, ◌+◌, ◌-◌, ◌*◌, ◌≤◌, ◌<◌, ◌≡◌, refl, ap, ap₂, subst, ◌∙◌, inl, List, [], ◌∷◌, ◌++◌,
  append-nil, arith, length, All,
}
use scdtr_project.Float.{Float}
use scdtr_project.Board.{Board}
use scdtr_project.Comm.Duty.{num_messages}
use scdtr_project.Nodes.{Nodes, max_num_nodes}
use scdtr_project.Consensus.{Consensus, off, iterate, max_iter, init}
use scdtr_project.Consensus.Main.{consensus_main}
use scdtr_project.Consensus.Phases.{
  IsIn, IsAt, receive_all, receive_all-IsIn, call-Left, call-Kept, run_rounds, run_iterations,
}

-- In an iteration of these rounds, after `r` messages, the last of `e` messages comes in the last round
-- and no sooner, and none comes behind it.
abbrev pub IsIteration : ℕ → ℕ → List (List (List ℕ)) → Type 0
IsIteration e r [] = ⊥
IsIteration e r (messages ∷ []) = r + length messages ≡ e
IsIteration e r (messages ∷ next ∷ more) =
    (r + length messages < e) × IsIteration e (r + length messages) (next ∷ more)

-- The messages that the other nodes send in one iteration.
abbrev pub awaited : ℕ → ℕ
awaited n = num_messages n * (n - 1)

awaited-small : (n : ℕ) → n ≤ max_num_nodes → awaited n < 65536
unfolding num_messages
awaited-small zero h = omega arith
awaited-small (suc zero) h = omega arith
awaited-small (suc (suc zero)) h = omega arith
awaited-small (suc (suc (suc zero))) h = omega arith
awaited-small (suc (suc (suc (suc zero)))) h = omega arith
awaited-small (suc (suc (suc (suc (suc zero))))) h = omega arith
awaited-small (suc (suc (suc (suc (suc (suc zero)))))) h = omega arith
awaited-small (suc (suc (suc (suc (suc (suc (suc zero))))))) h = omega arith
awaited-small (suc (suc (suc (suc (suc (suc (suc (suc n)))))))) h = absurd (omega arith)

module _ {ℓ} {F : Type ℓ} ⦃d : Float F⦄ (nodes : Nodes) (cost residual : F) where
  abbrev Run : ℕ → ℕ → Consensus F × Board × List F → Type ℓ
  Run e k (c', b', refs) =
      ((k + 1 < max_iter) → IsAt nodes cost residual e (k + 1) c' × (refs ≡ []))
      × ((k + 1 ≡ max_iter) → (c'.consensus_state ≡ off) × (length refs ≡ 1))

  run_rounds_lem :
      (e k r : ℕ) (rounds : List (List (List ℕ))) (c : Consensus F) (b : Board)
      → IsIn nodes cost residual e k r c
      → e < 65536
      → k < max_iter
      → IsIteration e r rounds
      → Run e k (run_rounds nodes cost residual rounds c b)
  unfolding run_rounds
  run_rounds_lem e k r [] c b v small h i = absurd i
  run_rounds_lem e k r (messages ∷ []) c b v small h i =
      let now = receive_all-IsIn nodes cost residual e k r messages c v (omega arith) in
      let (on, ends) =
        call-Left nodes cost residual e k (receive_all nodes cost residual messages c) b
          (subst (λ m. IsIn nodes cost residual e k m (receive_all nodes cost residual messages c))
            i now)
          h in
      (
        λ lt. let (at_next, none_yet) = on lt in (at_next, ap (λ l. l ++ []) none_yet),
        λ last. let (is_off, one) = ends last in (is_off, ap length (append-nil _) ∙ one),
      )
  run_rounds_lem e k r (messages ∷ next ∷ more) c b v small h (few, i) =
      let received = receive_all nodes cost residual messages c in
      let now = receive_all-IsIn nodes cost residual e k r messages c v (omega arith) in
      let (kept, none_yet) =
        call-Kept nodes cost residual e k (r + length messages) received b now few in
      let (c', b', lux) = consensus_main nodes cost residual received b in
      let (on, ends) =
        run_rounds_lem e k (r + length messages) (next ∷ more) c' b' kept small h i in
      (
        λ lt. let (at_next, none_set) = on lt in (at_next, ap₂ ◌++◌ none_yet none_set),
        λ last.
            let (is_off, one) = ends last in
            (
              is_off,
              ap (λ l. length (l ++ (run_rounds nodes cost residual (next ∷ more) c' b').2))
                    none_yet
                  ∙ one,
            ),
      )

  abbrev Ends : ℕ → ℕ → ℕ → Consensus F × List F → Type ℓ
  Ends e k j (c', refs) =
      ((k + j < max_iter) → IsAt nodes cost residual e (k + j) c' × (refs ≡ []))
      × ((k + j ≡ max_iter) → (0 < j) → (c'.consensus_state ≡ off) × (length refs ≡ 1))

  run_iterations_lem :
      (e k : ℕ) (iterations : List (List (List (List ℕ)))) (c : Consensus F) (b : Board)
      → IsAt nodes cost residual e k c
      → e < 65536
      → k + length iterations ≤ max_iter
      → All (IsIteration e 0) iterations
      → Ends e k (length iterations) (run_iterations nodes cost residual iterations c b)
  unfolding run_iterations
  run_iterations_lem e k [] c b v small h all = (
    λ lt. (subst (λ j. IsAt nodes cost residual e j c) (omega arith) v, refl),
    λ last pos. absurd (omega arith),
  )
  run_iterations_lem e k (rounds ∷ []) c b (starts, v) small h (whole, all) =
      let (on, ends) = run_rounds_lem e k 0 rounds c b v small (omega arith) whole in
      (
        λ lt. let (at_next, none_set) = on (omega arith) in (at_next, ap (λ l. l ++ []) none_set),
        λ last pos.
            let (is_off, one) = ends (omega arith) in (is_off, ap length (append-nil _) ∙ one),
      )
  run_iterations_lem e k (rounds ∷ next ∷ more) c b (starts, v) small h (whole, all) =
      let (c', b', early) = run_rounds nodes cost residual rounds c b in
      let rest = run_iterations nodes cost residual (next ∷ more) c' b' in
      let (at_next, none_set) =
        (run_rounds_lem e k 0 rounds c b v small (omega arith) whole).0 (omega arith) in
      let (before, at_last) =
        run_iterations_lem e (k + 1) (next ∷ more) c' b' at_next small (omega arith) all in
      (
        λ le.
            let (x, y) = before (omega arith) in
            (
              subst (λ j. IsAt nodes cost residual e j rest.0) {x = k + 1 + suc (length more)}
                  (omega arith) x,
              ap₂ ◌++◌ none_set y,
            ),
        λ last pos.
            let (is_off, one) = at_last (omega arith) (omega arith) in
            (is_off, ap (λ l. length (l ++ rest.1)) none_set ∙ one),
      )

  init-IsAt :
      (gains : List F) (lux_ref : F) (c : Consensus F)
      → IsAt nodes cost residual (awaited nodes.num_total_nodes) 0 (init nodes gains lux_ref c)
  unfolding init
  init-IsAt gains lux_ref c =
      (refl, record { live = inl refl; count = refl; got = refl; expects = refl })

  -- The consensus of up to seven nodes ends after fifty iterations and no earlier: then it is off and
  -- has set one reference, and before that it has set none. In an iteration each round receives some
  -- messages, early ones included, and calls `consensus_main`; the messages may hold anything, but
  -- exactly as many as are awaited come in each iteration, the last of them in its last round.
  pub consensus_ends :
      (gains : List F) (lux_ref : F) (iterations : List (List (List (List ℕ)))) (c : Consensus F)
      (b : Board)
      → nodes.num_total_nodes ≤ max_num_nodes
      → All (IsIteration (awaited nodes.num_total_nodes) 0) iterations
      → length iterations ≤ max_iter
      → let (c', refs) =
          run_iterations nodes cost residual iterations (init nodes gains lux_ref c) b in
        ((length iterations ≡ max_iter) → (c'.consensus_state ≡ off) × (length refs ≡ 1))
        × ((length iterations < max_iter)
            → (c'.consensus_state ≡ iterate) × (c'.num_iter ≡ length iterations) × (refs ≡ []))
  consensus_ends gains lux_ref iterations c b few all h =
      let (before, at_last) =
        run_iterations_lem (awaited nodes.num_total_nodes) 0 iterations (init nodes gains lux_ref c)
          b (init-IsAt gains lux_ref c) (awaited-small nodes.num_total_nodes few) (omega arith)
          all in
      (
        λ e. at_last (omega arith) (omega arith),
        λ lt.
            let (at_end, none_set) = before (omega arith) in
            (at_end.0, at_end.1.count ∙ omega arith, none_set),
      )
