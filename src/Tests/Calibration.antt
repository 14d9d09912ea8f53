-- ===== src/Tests/Calibration.antt =====
-- A calibration of two nodes.
use scdtr_project.Prelude.{
  ◌*◌, ◌≡◌, refl, ◌↔◌, true, false, some, List, [], ◌∷◌, arith, if◌then◌else◌, length, replicate,
}
use mathlib.Core.Bool
use scdtr_project.Prelude.Int.{ℤ, pos}
use scdtr_project.Float.Fixed.{fixed}
use scdtr_project.Calibration
use scdtr_project.Calibration.{Calibration, wait_transient, received_gain_or_residual}
use scdtr_project.Calibration.Bounds.{IsSound, new-IsSound, loop-IsSound}
use scdtr_project.Calibration.Rounds.{all_ready, run_rounds, calibration_ends}
use scdtr_project.Calibration.Gain.{
  IsSecondReading, measured_gain, gain_at, second_reading-agreement,
}
use scdtr_project.Firmware.{Firmware}
use scdtr_project.Receive.{received}
use scdtr_project.Tests.Data.{node, board, two_nodes}

loop-IsSound_example :
    IsSound 2 (Calibration.loop two_nodes (pos 4000) 90 100 Calibration.new board).0
loop-IsSound_example =
    loop-IsSound two_nodes (pos 4000) 90 100 Calibration.new board (new-IsSound 2)

abbrev lux_values : List ℤ
lux_values = pos 4000 ∷ pos 60000 ∷ pos 4000 ∷ pos 9000 ∷ []

calibration_ends_example :
    let (c, b1) = Calibration.loop two_nodes (pos 1000) 90 90 Calibration.new board in
    let (c', b2) = run_rounds two_nodes 90 lux_values c b1 in
    ((Calibration.loop two_nodes (pos 1000) 90 90 (all_ready two_nodes 90 c') b2).0.done ≡ true)
    ↔ (length lux_values ≡ 2 * 2)
calibration_ends_example =
    calibration_ends two_nodes 90 (pos 1000) (pos 1000) lux_values board (omega arith) (omega arith)
      (omega arith)

-- Node 3 has taken the first reading with its own LED on; node 5 knows both nodes.
abbrev measuring : Calibration ℤ
measuring = record {
  state = wait_transient;
  node_led_on = some 0;
  lux_read_num = 1;
  pwm = 20 ∷ 240 ∷ [];
  lux_reads = pos 4000 ∷ pos 0 ∷ [];
  last_transition_time = 0;
  num_nodes_ready = 0;
  other_node_led_on = false;
  gain_matrix = replicate 7 (replicate 7 (pos 0));
  residual_array = replicate 7 (pos 0);
  done = false;
}

abbrev peer : Firmware ℤ
peer = record node { nodes = record two_nodes { node_id = 5 }; calibration = measuring }

is_second : IsSecondReading two_nodes (pos 48000) 1500000 1500000 measuring board 0
is_second = record {
  lit = refl;
  settled = omega arith;
  second = refl;
  led = refl;
  levels = refl;
  inside = (omega arith, omega arith);
  two_reads = refl;
}

second_reading-agreement_example :
    let gain = measured_gain two_nodes (pos 48000) 1500000 1500000 measuring board 0 in
    let (c', b') = Calibration.loop two_nodes (pos 48000) 1500000 1500000 measuring board in
    let theirs' = received 0 0 0 b'.sending_frame peer in
    (gain_at c' 0 0 ≡ gain)
    × (gain_at theirs'.calibration 0 0
        ≡ (if fixed.le (pos 0) gain then gain_at c' 0 0 else gain_at measuring 0 0))
unfolding mathlib.Core.Bool.xor
second_reading-agreement_example =
    second_reading-agreement two_nodes (pos 48000) 1500000 1500000 measuring board 0 0 0 0 peer
      is_second (omega arith, refl) (omega arith) refl (omega arith, omega arith)
