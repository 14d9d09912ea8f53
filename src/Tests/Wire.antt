-- ===== src/Tests/Wire.antt =====
-- Frames on the wire.
use scdtr_project.Prelude.{ℕ, ◌≤◌, ◌<◌, ◌≡◌, refl, List, [], ◌∷◌, ◌++◌, arith, length, get_or, All}
use scdtr_project.Prelude.Int.{ℤ, pos, negsuc}
use scdtr_project.Float.{nat}
use scdtr_project.Float.Fixed.{fixed}
use scdtr_project.MsgType
use scdtr_project.Frame.{Frame, can_message_id}
use scdtr_project.Comm.Duty.{num_messages, send_consensus_duty_cycle}
use scdtr_project.Comm.Duty.Delivery.{deliver, transmitted, send_consensus_duty_cycle-delivers}
use scdtr_project.Tests.Data.{board}

-- Duty cycles of four nodes, in two frames.
abbrev duties : List ℤ
duties = pos 50000 ∷ negsuc 999 ∷ pos 20000 ∷ pos 99990 ∷ []

send_consensus_duty_cycle-delivers_example :
    (fs : List Frame) × ((send_consensus_duty_cycle 3 4 duties board).can_out ≡ board.can_out ++ fs)
    × (length fs ≡ num_messages 4)
    × All (λ f. (f.can_id ≡ can_message_id 3 0 MsgType.consensus) × (f.can_dlc ≡ 7)) fs
    × ((received : List ℤ) (j : ℕ)
        → j < 4
        → 4 ≤ length received
        → get_or (deliver 4 fs received) j (nat 0)
          ≡ fixed.add (get_or received j (nat 0)) (transmitted duties j))
send_consensus_duty_cycle-delivers_example =
    send_consensus_duty_cycle-delivers 3 4 duties board refl (omega arith)
