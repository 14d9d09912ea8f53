-- ===== src/Consensus/Phases.antt =====
-- The states of `consensus_main` of src/consensus.cpp, their messages and their iterations.
use scdtr_project.Prelude.{
  ℕ, ◌+◌, ◌<◌, ◌≡◌, refl, sym, ap, subst, ◌≢◌, ◌⊎◌, inl, inr, Option, none, some, List, [], ◌∷◌,
  ◌++◌, arith, length,
}
use scdtr_project.Float.{Float}
use scdtr_project.Board.{Board}
use scdtr_project.Comm.Duty.{send_consensus_duty_cycle}
use scdtr_project.Nodes.{Nodes}
use scdtr_project.Consensus.{
  Consensus, off, iterate, sending_duty_cycle, waiting_recive_duty_cycle, max_iter,
  consensus_iterate,
}
use scdtr_project.Consensus.Main.{
  received_message, phase_iterate, phase_send, phase_wait, phase_update, consensus_main,
  new_lux_ref,
}

module _ {ℓ} {F : Type ℓ} ⦃d : Float F⦄ (nodes : Nodes) (cost residual : F) where
  -- While messages are missing, a waiting node stays as it is and sends nothing.
  pub consensus_main-waits :
      (c : Consensus F) (b : Board)
      → c.consensus_state ≡ waiting_recive_duty_cycle
      → c.number_of_msg_received ≢ c.number_of_msg_expected
      → consensus_main nodes cost residual c b ≡ (c, b, none)
  unfolding consensus_main
  consensus_main-waits c b e ne = ground arith

  -- A call in the first state sends the vector of this iteration, and nothing else, and waits.
  pub consensus_main-sends :
      (c : Consensus F) (b : Board)
      → c.consensus_state ≡ iterate
      → c.number_of_msg_received ≢ c.number_of_msg_expected
      → let c' = consensus_iterate nodes.num_total_nodes cost residual c in
        consensus_main nodes cost residual c b ≡ (
          record c' { consensus_state = waiting_recive_duty_cycle },
          send_consensus_duty_cycle nodes.node_id nodes.num_total_nodes c'.duty_cycle_best b,
          none,
        )
  unfolding consensus_main
  consensus_main-sends c b e ne = ground arith

  -- The call that finds all messages there ends the iteration.
  pub consensus_main-updates :
      (c : Consensus F) (b : Board)
      → c.consensus_state ≡ waiting_recive_duty_cycle
      → c.number_of_msg_received ≡ c.number_of_msg_expected
      → c.num_iter < max_iter
      → let (c', b', lux) = consensus_main nodes cost residual c b in
        (b' ≡ b)
        × ((c.num_iter + 1 < max_iter)
            → (c'.consensus_state ≡ iterate) × (c'.num_iter ≡ c.num_iter + 1) × (lux ≡ none))
        × ((c.num_iter + 1 ≡ max_iter)
            → (c'.consensus_state ≡ off)
              × (c'.num_iter ≡ 0)
              × (lux ≡ some (new_lux_ref nodes cost residual c)))
  unfolding consensus_main
  consensus_main-updates c b e all h = ground arith

  phase_iterate-sending :
      (c : Consensus F)
      → c.consensus_state ≡ iterate
      → phase_iterate nodes cost residual c
        ≡ record (consensus_iterate nodes.num_total_nodes cost residual c) {
          consensus_state = sending_duty_cycle;
        }
  unfolding phase_iterate
  phase_iterate-sending c e = ground (arith, e)

  -- What a call does after its first phase.
  abbrev after_iterate : Board → Consensus F → Consensus F × Board × Option F
  after_iterate b c =
      let (c2, b') = phase_send nodes cost residual c b in
      let (c4, lux) = phase_update nodes cost residual (phase_wait nodes cost residual c2) in
      (c4, b', lux)

  -- A call in the first state sends, and goes on as one that waits.
  consensus_main-goes_on :
      (c : Consensus F) (b : Board)
      → c.consensus_state ≡ iterate
      → let c' = consensus_iterate nodes.num_total_nodes cost residual c in
        consensus_main nodes cost residual c b
        ≡ consensus_main nodes cost residual
            (record c' { consensus_state = waiting_recive_duty_cycle })
            (send_consensus_duty_cycle nodes.node_id nodes.num_total_nodes c'.duty_cycle_best b)
  unfolding consensus_main phase_send phase_iterate
  consensus_main-goes_on c b e = ap (after_iterate b) (phase_iterate-sending c e)

  -- The references that a call sets.
  abbrev pub references : Option F → List F
  references none = []
  references (some r) = r ∷ []

  -- In iteration `k`, with `r` of `e` messages.
  pub record IsIn (e k r : ℕ) (c : Consensus F) : Type 0 where
    pub live : (c.consensus_state ≡ iterate) ⊎ (c.consensus_state ≡ waiting_recive_duty_cycle)
    pub count : c.num_iter ≡ k
    pub got : c.number_of_msg_received ≡ r
    pub expects : c.number_of_msg_expected ≡ e

  abbrev pub IsAt : ℕ → ℕ → Consensus F → Type 0
  IsAt e k c = (c.consensus_state ≡ iterate) × IsIn e k 0 c

  -- What the call that ends iteration `k` leaves.
  abbrev pub Left : ℕ → ℕ → Consensus F × Board × Option F → Type ℓ
  Left e k (c', b', lux) =
      ((k + 1 < max_iter) → IsAt e (k + 1) c' × (references lux ≡ []))
      × ((k + 1 ≡ max_iter) → (c'.consensus_state ≡ off) × (length (references lux) ≡ 1))

  waiting-Left :
      (e k : ℕ) (c : Consensus F) (b : Board)
      → c.consensus_state ≡ waiting_recive_duty_cycle
      → IsIn e k e c
      → k < max_iter
      → Left e k (consensus_main nodes cost residual c b)
  unfolding consensus_main
  waiting-Left e k c b waits v h = ground (arith, waits, v.count, v.got, v.expects)

  pub call-Left :
      (e k : ℕ) (c : Consensus F) (b : Board)
      → IsIn e k e c
      → k < max_iter
      → Left e k (consensus_main nodes cost residual c b)
  unfolding consensus_iterate
  call-Left e k c b v h = elim v.live [
    | inl starts ↦ subst (Left e k) (sym (consensus_main-goes_on c b starts)) (
        waiting-Left e k
          (record (consensus_iterate nodes.num_total_nodes cost residual c) {
            consensus_state = waiting_recive_duty_cycle;
          })
          _ refl (record { live = inr refl; count = v.count; got = v.got; expects = v.expects }) h)
    | inr waits ↦ waiting-Left e k c b waits v h
  ]

  -- A call while messages are missing.
  abbrev pub Kept : ℕ → ℕ → ℕ → Consensus F × Board × Option F → Type ℓ
  Kept e k r (c', b', lux) = IsIn e k r c' × (references lux ≡ [])

  pub call-Kept :
      (e k r : ℕ) (c : Consensus F) (b : Board)
      → IsIn e k r c
      → r < e
      → Kept e k r (consensus_main nodes cost residual c b)
  unfolding consensus_iterate
  call-Kept e k r c b v h =
      let missing : c.number_of_msg_received ≢ c.number_of_msg_expected =
        omega (arith, v.got, v.expects) in
      elim v.live [
        | inl starts ↦
            subst (Kept e k r) (sym (consensus_main-sends c b starts missing))
              (record { live = inr refl; count = v.count; got = v.got; expects = v.expects }, refl)
        | inr waits ↦ subst (Kept e k r) (sym (consensus_main-waits c b waits missing)) (v, refl)
      ]

  -- The messages of one round, and a call: what a round of the main loop does to the consensus.
  pub receive_all : List (List ℕ) → Consensus F → Consensus F
  receive_all [] c = c
  receive_all (bytes ∷ more) c = receive_all more (received_message nodes.num_total_nodes bytes c)

  pub receive_all-IsIn :
      (e k r : ℕ) (messages : List (List ℕ)) (c : Consensus F)
      → IsIn e k r c
      → r + length messages < 65536
      → IsIn e k (r + length messages) (receive_all messages c)
  unfolding receive_all received_message
  receive_all-IsIn e k r [] c v h = subst (λ m. IsIn e k m c) {x = r} (omega arith) v
  receive_all-IsIn e k r (bytes ∷ more) c v h =
      subst (λ m. IsIn e k m (receive_all more (received_message nodes.num_total_nodes bytes c)))
        {x = r + 1 + length more} (omega arith)
        (receive_all-IsIn e k (r + 1) more (received_message nodes.num_total_nodes bytes c)
          (record {
            live = v.live;
            count = v.count;
            got = omega (arith, v.got);
            expects = v.expects;
          })
          (omega arith))

  -- Rounds, with the references that they set.
  unfoldable pub run_rounds :
      List (List (List ℕ)) → Consensus F → Board → Consensus F × Board × List F
  run_rounds [] c b = (c, b, [])
  run_rounds (messages ∷ more) c b =
      let (c', b', lux) = consensus_main nodes cost residual (receive_all messages c) b in
      let (c'', b'', later) = run_rounds more c' b' in (c'', b'', references lux ++ later)

  unfoldable pub run_iterations :
      List (List (List (List ℕ))) → Consensus F → Board → Consensus F × List F
  run_iterations [] c b = (c, [])
  run_iterations (rounds ∷ more) c b =
      let (c', b', early) = run_rounds rounds c b in
      let (c'', later) = run_iterations more c' b' in (c'', early ++ later)
