-- ===== src/MainLoop/Running.antt =====
-- The program of a node from one round or interrupt to the next.
use scdtr_project.Prelude.{
  ℕ, zero, suc, ◌+◌, inl, inr, Bool, false, Option, none, some, List, [], ◌∷◌, ltb, if◌then◌else◌,
  Option-cases, if-both,
}
use scdtr_project.Frame.{Frame}
use scdtr_project.Stream.{FrameStream, get}
use scdtr_project.Stream.Inv.{IsValid, put-IsValid, get-IsValid}
use scdtr_project.Float.{Float}
use scdtr_project.Luminaire.{elapsed}
use scdtr_project.Firmware.{Firmware}
use scdtr_project.SerialComm.{read_serial, send_pc_discovery}
use scdtr_project.MainFsm
use scdtr_project.MainLoop.{
  Main, Environment, Round, drain_fuel, buffer_frame, irq_handler, handle_frame, drain,
  receive_frames, after_control, loop,
}
use scdtr_project.MainLoop.Node.{IsGood, IsGood-if, read_serial-IsGood, send_pc_discovery-IsGood}
use scdtr_project.MainLoop.Frames.{received-IsGood}
use scdtr_project.MainLoop.Phases.{loop-IsGood, after_control-IsGood, run_consensus-IsGood}

-- A round of `loop`, or an interrupt, with what the chip holds.
pub data Event : Type 0 where
  round : Round → Event
  interrupts : Option Frame → Option Frame → Bool → Event

module _ {ℓ} {F : Type ℓ} ⦃d : Float F⦄ where
  unfoldable pub happen : Event → Main F → Main F
  unfolding loop irq_handler
  happen (round r) m = loop r m
  happen (interrupts rxb0 rxb1 overflow) m = irq_handler rxb0 rxb1 overflow m

  unfoldable pub happen_all : List Event → Main F → Main F
  happen_all [] m = m
  happen_all (e ∷ events) m = happen_all events (happen e m)

  -- The frame buffer is valid, the node has this id, and its reference is that of the desk's
  -- occupancy and, while a consensus runs, that of the consensus.
  pub record IsRunning (id : ℕ) (m : Main F) : Type ℓ where
    pub valid : IsValid m.cf_stream
    pub good : IsGood id m.node

  buffer_frame-IsRunning :
      (id : ℕ) (f : Option Frame) (m : Main F) → IsRunning id m → IsRunning id (buffer_frame f m)
  unfolding buffer_frame
  buffer_frame-IsRunning id none m v = v
  buffer_frame-IsRunning id (some f) m v = record { valid = put-IsValid f v.valid; good = v.good }

  drain-IsGood :
      (id fuel : ℕ) (env : ℕ → Environment) (i : ℕ) (stream : FrameStream) (s : Firmware F)
      → IsValid stream
      → IsGood id s
      → let r = drain fuel env i stream s in IsValid r.0 × IsGood id r.1
  unfolding drain handle_frame
  drain-IsGood id zero env i stream s v g = (v, g)
  drain-IsGood id (suc fuel) env i stream s v g = elim (Option-cases (get stream).0) [
    | inl e ↦ rw e (get-IsValid v, g)
    | inr (f, e) ↦ rw e (
        drain-IsGood id fuel env (i + 1) (get stream).1 _ (get-IsValid v)
          (received-IsGood (env i).reading (env i).ms (env i).indeterminate id f s g))
  ]

  receive_frames-IsRunning :
      (id : ℕ) (env : ℕ → Environment) (m : Main F)
      → IsRunning id m
      → IsRunning id (receive_frames env m)
  unfolding receive_frames
  receive_frames-IsRunning id env m v =
      let r = drain drain_fuel env 0 m.cf_stream m.node in
      let (valid, good) = drain-IsGood id drain_fuel env 0 m.cf_stream m.node v.valid v.good in
      let m' : Main F = record m {
        node = r.1;
        cf_stream = r.0;
        interrupt = false;
        mcp2515_overflow = false;
        arduino_overflow = false;
      } in
      if-both (IsRunning id) m.interrupt {x = m'} {y = m} (record { valid = valid; good = good }) v

  loop-IsRunning : (id : ℕ) (r : Round) (m : Main F) → IsRunning id m → IsRunning id (loop r m)
  unfolding loop
  loop-IsRunning id r m v =
      let env = r.serial_env in
      let commands = read_serial env.reading env.ms env.indeterminate r.stale 0 r.bytes m.node in
      let m0 : Main F = record m { node = commands } in
      let m1 = receive_frames r.frame_env m0 in
      let w = receive_frames-IsRunning id r.frame_env m0 (record {
        valid = v.valid;
        good =
            read_serial-IsGood env.reading env.ms env.indeterminate id r.stale 0 r.bytes m.node
              v.good;
      }) in
      let due = ltb 2000 (elapsed r.ms m1.time_last_pc_discovery) in
      let asked : Firmware F = if due then send_pc_discovery m1.node else m1.node in
      let good =
        IsGood-if id due (send_pc_discovery m1.node) m1.node
          (send_pc_discovery-IsGood id m1.node w.good) w.good in
      let stepped = MainFsm.loop r.fsm asked in
      let controlled = after_control r.metrics_reading stepped in
      record {
        valid = w.valid;
        good =
            run_consensus-IsGood id r.reference_reading r.reference_time controlled
              (after_control-IsGood id r.metrics_reading stepped (loop-IsGood id r.fsm asked good));
      }

  happen-IsRunning : (id : ℕ) (e : Event) (m : Main F) → IsRunning id m → IsRunning id (happen e m)
  unfolding happen irq_handler
  happen-IsRunning id (round r) m v = loop-IsRunning id r m v
  happen-IsRunning id (interrupts rxb0 rxb1 overflow) m v =
      let w =
        buffer_frame-IsRunning id rxb1 (buffer_frame rxb0 m) (buffer_frame-IsRunning id rxb0 m v) in
      record { valid = w.valid; good = w.good }

  -- Whatever rounds of the main loop and interrupts follow each other, a node keeps a valid frame
  -- buffer, its id, the reference that belongs to the occupancy of its desk, and, while a consensus
  -- runs, this reference in the consensus, if that held at first.
  pub happen_all-IsRunning :
      (id : ℕ) (events : List Event) (m : Main F)
      → IsRunning id m
      → IsRunning id (happen_all events m)
  unfolding happen_all
  happen_all-IsRunning id [] m v = v
  happen_all-IsRunning id (e ∷ events) m v =
      happen_all-IsRunning id events (happen e m) (happen-IsRunning id e m v)
