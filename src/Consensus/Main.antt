-- ===== src/Consensus/Main.antt =====
-- `consensus_main` of src/consensus.cpp, one phase after the other, and what a message does.
use scdtr_project.Prelude.{ℕ, ◌+◌, ◌%◌, Option, none, some, List, ◌==◌, if◌then◌else◌}
use scdtr_project.Float.{Float, nat}
use scdtr_project.Board.{Board}
use scdtr_project.Comm.Duty.{send_consensus_duty_cycle, receive_duty}
use scdtr_project.Nodes.{Nodes}
use scdtr_project.Consensus.{
  Consensus, off, iterate, sending_duty_cycle, waiting_recive_duty_cycle, update, is_iterate,
  is_sending, is_waiting, is_update, max_iter, fill, at, rho, sum_from, consensus_iterate,
}

module _ {ℓ} {F : Type ℓ} ⦃d : Float F⦄ where
  -- What a frame with duty cycles does to the consensus, where there are `n` nodes: the CAN_CONSENSUS
  -- branch of `Communication::received`.
  unfoldable pub received_message : ℕ → List ℕ → Consensus F → Consensus F
  unfolding receive_duty
  received_message n bytes c = record c {
    received_duty_cycle = receive_duty n bytes c.received_duty_cycle;
    number_of_msg_received = (c.number_of_msg_received + 1) % 65536;
  }

module _ {ℓ} {F : Type ℓ} ⦃d : Float F⦄ (nodes : Nodes) (cost residual : F) where
  unfoldable pub phase_iterate : Consensus F → Consensus F
  unfolding consensus_iterate
  phase_iterate c =
      if is_iterate c.consensus_state
      then record (consensus_iterate nodes.num_total_nodes cost residual c) {
        consensus_state = sending_duty_cycle;
      }
      else c

  unfoldable pub phase_send : Consensus F → Board → Consensus F × Board
  unfolding send_consensus_duty_cycle
  phase_send c b =
      if is_sending c.consensus_state
      then (
        record c { consensus_state = waiting_recive_duty_cycle },
        send_consensus_duty_cycle nodes.node_id nodes.num_total_nodes c.duty_cycle_best b,
      )
      else (c, b)

  unfoldable pub phase_wait : Consensus F → Consensus F
  phase_wait c =
      if is_waiting c.consensus_state
      then (if c.number_of_msg_received == c.number_of_msg_expected
          then record c { consensus_state = update }
          else c)
      else c

  -- The averages and the multipliers, and the start of the next iteration.
  unfoldable pub update_iteration : Consensus F → Consensus F
  unfolding fill
  update_iteration c =
      let n = nodes.num_total_nodes in
      let av : ℕ → F = λ j.
        d.div (d.add (at c.received_duty_cycle j) (at c.duty_cycle_best j))
          (nat (c.number_of_msg_received + 1)) in
      record c {
        duty_cycle_av = fill n av c.duty_cycle_av;
        lagrange_multipliers =
            fill n
              (λ j.
                d.add (at c.lagrange_multipliers j)
                  (d.mul rho (d.sub (at c.duty_cycle_best j) (av j))))
              c.lagrange_multipliers;
        number_of_msg_received = 0;
        consensus_state = iterate;
        num_iter = (c.num_iter + 1) % 256;
        received_duty_cycle = fill n (λ j. nat 0) c.received_duty_cycle;
      }

  -- The reference that the agreed duty cycles give.
  unfoldable pub new_lux_ref : Consensus F → F
  unfolding sum_from
  new_lux_ref c =
      d.add
        (sum_from 0 (λ i. d.mul (at c.duty_cycle_best i) (at c.ki i)) nodes.num_total_nodes (nat 0))
        residual

  -- `some` is the argument of the call of `luminaire.setLuxRefAfterConsensus`.
  unfoldable pub phase_update : Consensus F → Consensus F × Option F
  unfolding update_iteration new_lux_ref
  phase_update c =
      if is_update c.consensus_state
      then (let c' = update_iteration c in
          if c'.num_iter == max_iter
          then (
            record c' { consensus_state = off; num_iter = 0; number_of_msg_received = 0 },
            some (new_lux_ref c'),
          )
          else (c', none))
      else (c, none)

  unfoldable pub consensus_main : Consensus F → Board → Consensus F × Board × Option F
  unfolding phase_iterate phase_send phase_wait phase_update
  consensus_main c b =
      let (c2, b') = phase_send (phase_iterate c) b in
      let (c4, lux) = phase_update (phase_wait c2) in (c4, b', lux)
