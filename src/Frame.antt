-- ===== src/Frame.antt =====
-- CAN frames: `struct can_frame` as the firmware uses it, the message types of
-- include/communication.h, and the frame ids that src/communication.cpp builds and takes apart.
pub mod Ids
use scdtr_project.Prelude.{ℕ, ◌+◌, ◌*◌, ◌/◌, ◌%◌, ◌^◌, List}

-- `data` is always eight bytes; `can_dlc` says how many of them are sent.
pub record Frame : Type 0 where
  pub can_id : ℕ
  pub can_dlc : ℕ
  pub payload : List ℕ

-- `CAN_EFF_FLAG`, bit 31: the frame has an extended id.
abbrev pub eff_flag : ℕ
eff_flag = 2 ^ 31

-- The arguments are bytes and the four parts share no bit, so `|` is `+`.
unfoldable pub can_message_id : ℕ → ℕ → ℕ → ℕ
can_message_id node_id destination message_type =
    destination * 2 ^ 16 + node_id * 2 ^ 8 + message_type + eff_flag

-- `can_id & 0x000000FF`
unfoldable pub msg_type : Frame → ℕ
msg_type f = f.can_id % 2 ^ 8

-- `(can_id & 0x0000FF00) >> 8`
unfoldable pub sender : Frame → ℕ
sender f = f.can_id / 2 ^ 8 % 2 ^ 8

-- What the acceptance mask 0x00FF0000 of `Communication::init` keeps of an id.
unfoldable pub masked_destination : Frame → ℕ
masked_destination f = f.can_id / 2 ^ 16 % 2 ^ 8
