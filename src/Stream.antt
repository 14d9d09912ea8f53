-- ===== src/Stream.antt =====
-- include/can_frame_stream.h: the ring buffer between the CAN interrupt and the main loop.
pub mod Inv
pub mod Refine
use scdtr_project.Prelude.{
  ℕ, ◌+◌, ◌%◌, Bool, true, false, ◌&&◌, not, Option, none, some, List, ◌==◌,
}
use scdtr_project.Prelude.{if◌then◌else◌, get_or, set, replicate}
use scdtr_project.Frame.{Frame}

abbrev pub buff_size : ℕ
buff_size = 10

-- `can_frame_stream`; the indices are in range (see Stream/Inv), so the 16-bit `int`s do not wrap.
pub record FrameStream : Type 0 where
  pub cf_buffer : List Frame
  pub read_index : ℕ
  pub write_index : ℕ
  pub write_lock : Bool

-- The constructor leaves the buffer as it is: `storage`.
pub new : List Frame → FrameStream
new storage = record { cf_buffer = storage; read_index = 0; write_index = 0; write_lock = false }

-- `true` is the result 1, `false` the result 0.
unfoldable pub put : FrameStream → Frame → Bool × FrameStream
put s frame =
    if s.write_lock
    then (false, s)
    else (let w = (s.write_index + 1) % buff_size in
        (
          true,
          record s {
            cf_buffer = set s.cf_buffer s.write_index frame;
            write_index = w;
            write_lock = (w == s.read_index);
          },
        ))

abbrev pub blank : Frame
blank = record { can_id = 0; can_dlc = 0; payload = replicate 8 0 }

-- The frame that `get` writes through its reference; `none` is the result 0.
unfoldable pub get : FrameStream → Option Frame × FrameStream
get s = if not s.write_lock && s.read_index == s.write_index then (none, s) else (
  some (get_or s.cf_buffer s.read_index blank),
  record s {
    read_index = (s.read_index + 1) % buff_size;
    write_lock = (if s.write_lock && s.read_index == s.write_index then false else s.write_lock);
  },
)
