-- ===== src/Comm/Duty/Delivery.antt =====
-- A broadcast of the duty-cycle vector: the frames that `sendConsensusDutyCycle` sends, and what they
-- add up to at a receiver.
use scdtr_project.Prelude.{
  ℕ, zero, suc, ◌+◌, ◌-◌, ◌*◌, ◌/◌, ◌%◌, ◌≤◌, ◌<◌, ◌≡◌, refl, sym, ap, ◌∙◌, List, [], ◌∷◌, ◌++◌,
  append-nil, append_assoc, arith, ℕ_discrete, length, get_or, All,
}
use scdtr_project.Frame.{Frame, can_message_id}
use scdtr_project.MsgType
use scdtr_project.Float.{Float, nat}
use scdtr_project.Board.{Board, send_frame}
use scdtr_project.Comm.Duty.{
  num_messages, duty_payload, encode_duty, decode_duty, receive_duty, send_messages,
  send_consensus_duty_cycle,
}
use scdtr_project.Comm.Duty.Frames.{
  Carries, duty_payload-Carries, length-receive_duty, receive_duty-here, receive_duty-other,
}

module _ {ℓ} {F : Type ℓ} ⦃d : Float F⦄ where
  -- A receiver takes the frames in the order in which they were sent.
  abbrev pub deliver : ℕ → List Frame → List F → List F
  deliver n [] received = received
  deliver n (f ∷ fs) received = deliver n fs (receive_duty n f.payload received)

  -- The value of a node as the receiver gets it: encoded in 16 bits and decoded.
  abbrev pub transmitted : List F → ℕ → F
  transmitted val j = decode_duty (encode_duty (get_or val j (nat 0)))

  module _ (n : ℕ) (val : List F) where
    -- The frames from number `msg_i` on add the values of the nodes from `3 * msg_i` on, once each.
    Delivers : ℕ → ℕ → List Frame → Type ℓ
    Delivers rounds msg_i fs =
        (received : List F) (j : ℕ)
        → j < n
        → j < length received
        → (msg_i ≤ j / 3
            → j / 3 < msg_i + rounds
            → get_or (deliver n fs received) j (nat 0)
              ≡ d.add (get_or received j (nat 0)) (transmitted val j))
          × (j / 3 < msg_i → get_or (deliver n fs received) j (nat 0) ≡ get_or received j (nat 0))

    one-frame :
        (k : ℕ) (bytes : List ℕ) (received : List F) (j : ℕ)
        → Carries k n val bytes
        → k < 80
        → j < n
        → j < length received
        → j / 3 ≡ k
        → get_or (receive_duty n bytes received) j (nat 0)
          ≡ d.add (get_or received j (nat 0)) (transmitted val j)
    one-frame k bytes received j (_, number, values) small h len e =
        let same : k * 3 + j % 3 ≡ j = omega arith in
        ap (λ p. get_or (receive_duty n bytes received) p (nat 0)) (sym same)
        ∙ receive_duty-here k n bytes received (j % 3) number small (omega arith) (omega arith)
            (omega arith)
        ∙ ap (λ v. d.add (get_or received (k * 3 + j % 3) (nat 0)) (decode_duty v))
            (values (j % 3) (omega arith) (omega arith))
        ∙ ap (λ p. d.add (get_or received p (nat 0)) (transmitted val p)) same

    cons-Delivers :
        (rounds k : ℕ) (f : Frame) (fs : List Frame)
        → k < 80
        → Carries k n val f.payload
        → Delivers rounds (k + 1) fs
        → Delivers (suc rounds) k (f ∷ fs)
    unfolding Delivers
    cons-Delivers rounds k f fs small carries rest received j h len =
        let next = receive_duty n f.payload received in
        let (later, before) =
          rest next j h (omega (arith, length-receive_duty n f.payload received)) in
        (
          λ lo hi. elim (ℕ_discrete (j / 3) k) [
            | yes e ↦ before (omega arith) ∙ one-frame k f.payload received j carries small h len e
            | no ne ↦
                later (omega arith) (omega arith)
                ∙ ap (λ x. d.add x (transmitted val j))
                    (receive_duty-other k n f.payload received j carries.1 small h len ne)
          ],
          λ lt.
              before (omega arith)
              ∙ receive_duty-other k n f.payload received j carries.1 small h len (omega arith),
        )

    send_messages_lem :
        (rounds msg_i : ℕ) (b : Board)
        → length b.sending_frame.payload ≡ 8
        → msg_i + rounds ≤ 80
        → (fs : List Frame) × ((send_messages rounds msg_i n val b).can_out ≡ b.can_out ++ fs)
          × (length fs ≡ rounds)
          × All
              (λ f. (f.can_id ≡ b.sending_frame.can_id) × (f.can_dlc ≡ b.sending_frame.can_dlc))
              fs
          × Delivers rounds msg_i fs
    unfolding send_messages send_frame Delivers
    send_messages_lem zero msg_i b len small = (
      [],
      sym (append-nil b.can_out),
      refl,
      tt,
      λ received j h le. (λ lo hi. absurd (omega arith), λ lt. refl),
    )
    send_messages_lem (suc rounds) msg_i b len small =
        let bytes = duty_payload msg_i n val b.sending_frame.payload in
        let carries = duty_payload-Carries msg_i n val b.sending_frame.payload len in
        let f : Frame = record {
          can_id = b.sending_frame.can_id;
          can_dlc = b.sending_frame.can_dlc;
          payload = bytes;
        } in
        let (fs, sent, count, ids, delivers) =
          send_messages_lem rounds (msg_i + 1) (send_frame (record b { sending_frame = f }))
            carries.0 (omega arith) in
        (
          f ∷ fs,
          sent ∙ append_assoc b.can_out (f ∷ []) fs,
          ap suc count,
          ((refl, refl), ids),
          cons-Delivers rounds msg_i f fs (omega arith) carries delivers,
        )

  -- The frames of one broadcast all have the id of the message, and a receiver that takes them all
  -- adds to the entry of each node, exactly once, the value sent for it, as 16 bits carry it. This
  -- holds for every number of nodes up to seven, whatever the frame held before.
  pub send_consensus_duty_cycle-delivers :
      (node_id n : ℕ) (val : List F) (b : Board)
      → length b.sending_frame.payload ≡ 8
      → n ≤ 7
      → (fs : List Frame) × ((send_consensus_duty_cycle node_id n val b).can_out ≡ b.can_out ++ fs)
        × (length fs ≡ num_messages n)
        × All (λ f. (f.can_id ≡ can_message_id node_id 0 MsgType.consensus) × (f.can_dlc ≡ 7)) fs
        × ((received : List F) (j : ℕ)
            → j < n
            → n ≤ length received
            → get_or (deliver n fs received) j (nat 0)
              ≡ d.add (get_or received j (nat 0)) (transmitted val j))
  unfolding send_consensus_duty_cycle num_messages Delivers
  send_consensus_duty_cycle-delivers node_id n val b len small =
      let start : Board = record b {
        sending_frame = record {
          can_id = can_message_id node_id 0 MsgType.consensus;
          can_dlc = 7;
          payload = b.sending_frame.payload;
        };
      } in
      let (fs, sent, count, ids, delivers) =
        send_messages_lem n val ((n - 1) / 3 + 1) 0 start len (omega arith) in
      (
        fs,
        sent,
        count,
        ids,
        λ received j h size. (delivers received j h (omega arith)).0 (omega arith) (omega arith),
      )
