-- ===== src/Calibration/Rounds.antt =====
-- The rounds of src/calibrationFSM.cpp: the LED of each node in turn, and the end.
use scdtr_project.Prelude.{
  ℕ, ◌+◌, ◌-◌, ◌*◌, ◌%◌, ◌^◌, ◌≤◌, ◌<◌, ◌≡◌, refl, subst, ◌∙◌, ◌↔◌, ◌⊎◌, true, false, none, some,
  List, [], ◌∷◌, arith, length,
}
use scdtr_project.Float.{Float}
use scdtr_project.Board.{Board}
use scdtr_project.Nodes.{Nodes}
use scdtr_project.Calibration.{
  Calibration, CalibrationState, calib_init, wait_ready, wait_led_on, wait_transient, is_none, new,
  loop,
}
use scdtr_project.Calibration.Bounds.{IsSound, loop-IsSound, new-IsSound}

-- The readings that a node has taken in this calibration.
abbrev pub readings {ℓ} : {F : Type ℓ} → Calibration F → ℕ
readings c = elim c.node_led_on [ none ↦ 0 | some k ↦ 2 * k + c.lux_read_num ]

-- Between two rounds: the node waits for the others, with `k` readings taken.
pub record IsBetween {ℓ} {F : Type ℓ} (n k : ℕ) (c : Calibration F) : Type 0 where
  pub sound : IsSound n c
  pub waits : c.state ≡ wait_ready
  pub going_on : c.done ≡ false
  pub taken : readings c ≡ k

module _ {ℓ} {F : Type ℓ} ⦃d : Float F⦄ (nodes : Nodes) (now : ℕ) where
  -- The last of the other nodes says that it is ready.
  abbrev pub all_ready : Calibration F → Calibration F
  all_ready c = record c { num_nodes_ready = nodes.num_total_nodes }

  -- The node whose turn it is says that its LED is on, and the node looks at that, if it waits for it.
  led_seen : F → CalibrationState → Calibration F → Board → Calibration F × Board
  led_seen lux wait_led_on c b = loop nodes lux now now (record c { other_node_led_on = true }) b
  led_seen lux s c b = (c, b)

  -- One round: the barrier, the LED, and a reading more than a second later.
  pub run_round : F → Calibration F → Board → Calibration F × Board
  unfolding led_seen
  run_round lux c b =
      let (c1, b1) = loop nodes lux now now (all_ready c) b in
      let (c2, b2) = led_seen lux c1.state c1 b1 in
      loop nodes lux now ((now + 1000001) % 2 ^ 32) c2 b2

  -- One round for each reading of the sensor.
  pub run_rounds : List F → Calibration F → Board → Calibration F × Board
  run_rounds [] c b = (c, b)
  run_rounds (lux ∷ more) c b = let (c', b') = run_round lux c b in run_rounds more c' b'

  barrier_lem :
      (lux : F) (k : ℕ) (c : Calibration F) (b : Board)
      → IsBetween nodes.num_total_nodes k c
      → 0 < nodes.num_total_nodes
      → k < 2 * nodes.num_total_nodes
      → let c1 = (loop nodes lux now now (all_ready c) b).0 in
        ((c1.state ≡ wait_led_on) ⊎ ((c1.state ≡ wait_transient) × (c1.last_transition_time ≡ now)))
        × (readings c1 ≡ k)
        × (c1.done ≡ false)
        × (is_none c1.node_led_on ≡ false)
  unfolding loop
  barrier_lem lux k c b v pos h = ground (arith, v.sound)

  -- Ready to measure, since `now`.
  record IsLit (k : ℕ) (c : Calibration F) : Type 0 where
    lit : c.state ≡ wait_transient
    since : c.last_transition_time ≡ now
    still : c.done ≡ false
    taken : readings c ≡ k
    sound : IsSound nodes.num_total_nodes c

  led_lem :
      (lux : F) (k : ℕ) (s : CalibrationState) (c : Calibration F) (b : Board)
      → c.state ≡ s
      → (s ≡ wait_led_on) ⊎ ((s ≡ wait_transient) × (c.last_transition_time ≡ now))
      → readings c ≡ k
      → c.done ≡ false
      → IsSound nodes.num_total_nodes c
      → IsLit k (led_seen lux s c b).0
  unfolding led_seen
  led_lem lux k wait_led_on c b e st r dn v =
      let flagged : Calibration F = record c { other_node_led_on = true } in
      let sound = loop-IsSound nodes lux now now flagged b (ground (arith, v)) in
      let (st', since, dn', r') = seen lux k c b e in
      record { lit = st'; since = since; still = dn' ∙ dn; taken = r' ∙ r; sound = sound }
    where
      seen :
          (lux : F) (k : ℕ) (c : Calibration F) (b : Board)
          → c.state ≡ wait_led_on
          → let c' = (loop nodes lux now now (record c { other_node_led_on = true }) b).0 in
            (c'.state ≡ wait_transient)
            × (c'.last_transition_time ≡ now)
            × (c'.done ≡ c.done)
            × (readings c' ≡ readings c)
      seen lux k c b e = unfold loop in ground arith
  led_lem lux k wait_transient c b e st r dn v = ground arith
  led_lem lux k wait_ready c b e st r dn v = ground arith
  led_lem lux k calib_init c b e st r dn v = ground arith

  measure_lem :
      (lux : F) (k : ℕ) (c : Calibration F) (b : Board)
      → now < 2 ^ 32
      → IsLit k c
      → let c' = (loop nodes lux now ((now + 1000001) % 2 ^ 32) c b).0 in
        (c'.state ≡ wait_ready) × (c'.done ≡ false) × (readings c' ≡ k + 1)
  unfolding loop
  measure_lem lux k c b small v =
      let time : (((now + 1000001) % 2 ^ 32) + 2 ^ 32 - c.last_transition_time) % 2 ^ 32 ≡ 1000001 =
        omega (arith, v.since) in
      ground (arith, time, v.sound)

  -- One round takes one reading, as long as two for each node have not been taken.
  pub run_round-IsBetween :
      (lux : F) (k : ℕ) (c : Calibration F) (b : Board)
      → now < 2 ^ 32
      → IsBetween nodes.num_total_nodes k c
      → 0 < nodes.num_total_nodes
      → k < 2 * nodes.num_total_nodes
      → IsBetween nodes.num_total_nodes (k + 1) (run_round lux c b).0
  unfolding run_round
  run_round-IsBetween lux k c b small v pos h =
      let r1 = loop nodes lux now now (all_ready c) b in
      let (st, taken, dn, _) = barrier_lem lux k c b v pos h in
      let sound = loop-IsSound nodes lux now now (all_ready c) b (ground (arith, v.sound)) in
      let lit = led_lem lux k r1.0.state r1.0 r1.1 refl st taken dn sound in
      let r2 = led_seen lux r1.0.state r1.0 r1.1 in
      let (ends, still, more) = measure_lem lux k r2.0 r2.1 small lit in
      record {
        sound = loop-IsSound nodes lux now ((now + 1000001) % 2 ^ 32) r2.0 r2.1 lit.sound;
        waits = ends;
        going_on = still;
        taken = more;
      }

  pub run_rounds-IsBetween :
      (readings_to_take : List F) (k : ℕ) (c : Calibration F) (b : Board)
      → now < 2 ^ 32
      → IsBetween nodes.num_total_nodes k c
      → 0 < nodes.num_total_nodes
      → k + length readings_to_take ≤ 2 * nodes.num_total_nodes
      → IsBetween nodes.num_total_nodes
          (k + length readings_to_take)
          (run_rounds readings_to_take c b).0
  unfolding run_rounds
  run_rounds-IsBetween [] k c b small v pos h =
      subst (λ j. IsBetween nodes.num_total_nodes j c) (omega arith) v
  run_rounds-IsBetween (lux ∷ more) k c b small v pos h =
      subst (λ j. IsBetween nodes.num_total_nodes j (run_rounds (lux ∷ more) c b).0)
        {x = k + 1 + length more} (omega arith)
        (run_rounds-IsBetween more (k + 1) (run_round lux c b).0 (run_round lux c b).1 small
          (run_round-IsBetween lux k c b small v pos (omega arith)) pos (omega arith))

  -- The barrier after `k` readings ends the calibration exactly if `k` is two for each node.
  pub done-barrier :
      (lux : F) (k : ℕ) (c : Calibration F) (b : Board)
      → IsBetween nodes.num_total_nodes k c
      → 0 < nodes.num_total_nodes
      → k ≤ 2 * nodes.num_total_nodes
      → ((loop nodes lux now now (all_ready c) b).0.done ≡ true) ↔ (k ≡ 2 * nodes.num_total_nodes)
  unfolding loop
  done-barrier lux k c b v pos h = ground (arith, v.sound)

  start_lem :
      (lux : F) (b : Board) → IsBetween nodes.num_total_nodes 0 (loop nodes lux now now new b).0
  unfolding loop new
  start_lem lux b =
      ground (arith, loop-IsSound nodes lux now now new b (new-IsSound nodes.num_total_nodes))

  -- A calibration of one node or more whose barriers open, and where the clock stands at `now`, a
  -- number of 32 bits, but for the wait of each reading: after the first reading of the residual,
  -- `2 * n` rounds for `n` nodes, whatever they read, and one more barrier, it is done, and after any
  -- smaller number of rounds it is not.
  pub calibration_ends :
      (lux last : F) (readings_to_take : List F) (b : Board)
      → now < 2 ^ 32
      → 0 < nodes.num_total_nodes
      → length readings_to_take ≤ 2 * nodes.num_total_nodes
      → let (c, b1) = loop nodes lux now now new b in
        let (c', b2) = run_rounds readings_to_take c b1 in
        ((loop nodes last now now (all_ready c') b2).0.done ≡ true)
        ↔ (length readings_to_take ≡ 2 * nodes.num_total_nodes)
  calibration_ends lux last rs b small pos h =
      let r = loop nodes lux now now new b in
      let first : IsBetween nodes.num_total_nodes 0 r.0 = start_lem lux b in
      let s = run_rounds rs r.0 r.1 in
      done-barrier last (length rs) s.0 s.1
        (subst (λ k. IsBetween nodes.num_total_nodes k s.0) (omega arith)
          (run_rounds-IsBetween rs 0 r.0 r.1 small first pos (omega arith)))
        pos h
