-- ===== src/Stream/Inv.antt =====
-- The representation invariant of `can_frame_stream`, and the number of frames it holds.
use scdtr_project.Prelude.{ℕ, ◌+◌, ◌-◌, ◌%◌, ◌<◌, ◌≡◌, true, false, List, arith}
use scdtr_project.Prelude.{length, length-set, if◌then◌else◌}
use scdtr_project.Frame.{Frame}
use scdtr_project.Stream.{FrameStream, buff_size, new, put, get}

pub record IsValid (s : FrameStream) : Type 0 where
  pub storage : length s.cf_buffer ≡ buff_size
  pub read_in : s.read_index < buff_size
  pub write_in : s.write_index < buff_size
  pub lock_full : s.write_lock ≡ true → s.read_index ≡ s.write_index

-- The number of frames that wait.
abbrev pub pending : FrameStream → ℕ
pending s =
    if s.write_lock then buff_size else (s.write_index + buff_size - s.read_index) % buff_size

pub new-IsValid : (storage : List Frame) → length storage ≡ buff_size → IsValid (new storage)
unfolding new
new-IsValid storage h = ground arith

pub put-IsValid : {s : FrameStream} (f : Frame) → IsValid s → IsValid (put s f).1
unfolding put
put-IsValid {s} f v = ground (arith, length-set s.cf_buffer s.write_index f)

pub get-IsValid : {s : FrameStream} → IsValid s → IsValid (get s).1
unfolding get
get-IsValid v = ground arith

-- A frame is refused exactly when ten wait; an accepted one counts, and none is counted twice.
pub pending-put :
    {s : FrameStream} (f : Frame)
    → IsValid s
    → ((put s f).0 ≡ (if s.write_lock then false else true))
      × (pending (put s f).1 ≡ (if s.write_lock then buff_size else pending s + 1))
unfolding put
pending-put f v = ground arith
