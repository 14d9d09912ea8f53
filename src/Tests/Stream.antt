-- ===== src/Tests/Stream.antt =====
-- The frame buffer at work.
use scdtr_project.Prelude.{ℕ, ◌≡◌, refl, true, false, none, some, [], ◌∷◌, arith, replicate}
use scdtr_project.Frame.{Frame}
use scdtr_project.Stream.{FrameStream, put, get}
use scdtr_project.Stream.Inv.{IsValid}
use scdtr_project.Stream.Refine.{contents, puts, gets, run, run_queue, run_refines}
use scdtr_project.Tests.Data.{blank_frame}

abbrev frame : ℕ → Frame
frame id = record { can_id = id; can_dlc = 1; payload = replicate 8 id }

-- Nine frames have come and gone, so that the indices go round.
abbrev stream : FrameStream
stream = record {
  cf_buffer = replicate 10 blank_frame;
  read_index = 9;
  write_index = 9;
  write_lock = false;
}

stream-IsValid : IsValid stream
stream-IsValid = ground arith

run_refines_example :
    run stream (puts (frame 1) ∷ puts (frame 2) ∷ gets ∷ gets ∷ gets ∷ [])
    ≡ run_queue (contents stream) (puts (frame 1) ∷ puts (frame 2) ∷ gets ∷ gets ∷ gets ∷ [])
run_refines_example =
    run_refines (puts (frame 1) ∷ puts (frame 2) ∷ gets ∷ gets ∷ gets ∷ []) stream-IsValid

-- The third `get` finds nothing.
run_test :
    run stream (puts (frame 1) ∷ gets ∷ gets ∷ [])
    ≡ (true, none) ∷ (true, some (frame 1)) ∷ (true, none) ∷ []
unfolding run put get
run_test = refl
