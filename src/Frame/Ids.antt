-- ===== src/Frame/Ids.antt =====
-- Frame ids: what a receiver reads from an id that a sender built.
use scdtr_project.Prelude.{ℕ, ◌<◌, ◌^◌, ◌≡◌, arith, List}
use scdtr_project.Frame.{Frame, can_message_id, msg_type, sender, masked_destination}

-- A receiver reads back the message type, the sender and the destination, and the id is an extended
-- id that fits 32 bits, for byte arguments.
pub can_message_id-fields :
    (node_id destination message_type dlc : ℕ) (bytes : List ℕ)
    → node_id < 256
    → destination < 256
    → message_type < 256
    → let f : Frame = record {
      can_id = can_message_id node_id destination message_type;
      can_dlc = dlc;
      payload = bytes;
    } in
      (msg_type f ≡ message_type)
      × (sender f ≡ node_id)
      × (masked_destination f ≡ destination)
      × (f.can_id < 2 ^ 32)
unfolding can_message_id msg_type sender masked_destination
can_message_id-fields n d m l bs hn hd hm = omega arith
