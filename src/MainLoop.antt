-- ===== src/MainLoop.antt =====
-- `loop`, `irqHandler` and `sendFrequentData` of src/main.cpp.
pub mod Drain
pub mod Node
pub mod Frames
pub mod Phases
pub mod Running
use scdtr_project.Prelude.{
  ℕ, zero, suc, ◌+◌, ◌%◌, Bool, true, false, Option, none, some, List, ltb, ◌==◌, if◌then◌else◌,
  get_or,
}
use scdtr_project.Frame.{Frame}
use scdtr_project.Stream.{FrameStream, put, get}
use scdtr_project.Float.{Float, nat}
use scdtr_project.Comm.Packet.{new_packet, send_on_serial, send_frequent_data_to_hub}
use scdtr_project.Nodes.{Nodes, own_index}
use scdtr_project.Consensus.{is_off}
use scdtr_project.Consensus.Main.{consensus_main}
use scdtr_project.Luminaire.{voltage, voltage_to_lux, set_lux_ref_after_consensus, elapsed}
use scdtr_project.Metrics.{update_metrics}
use scdtr_project.Firmware.{Firmware, on_board}
use scdtr_project.SerialComm.{read_serial, send_pc_discovery}
use scdtr_project.Receive.{received}
use scdtr_project.MainFsm
use scdtr_project.MainFsm.{Readings}

-- The program: the node, the frame buffer, the flags that the interrupt sets, and the discovery timer.
pub record Main {ℓ} (F : Type ℓ) : Type ℓ where
  pub node : Firmware F
  pub cf_stream : FrameStream
  pub interrupt : Bool
  pub mcp2515_overflow : Bool
  pub arduino_overflow : Bool
  pub time_last_pc_discovery : ℕ

-- What a command reads while it is executed.
pub record Environment : Type 0 where
  pub reading : ℕ
  pub ms : ℕ
  pub indeterminate : ℕ

-- What one round of `loop` reads: the serial bytes, the values for the commands on the serial port and
-- for the frame number `i`, the clock for the discovery, the readings of the main state machine, the
-- sensor for the metrics, and sensor and clock for a new reference.
pub record Round : Type 0 where
  pub bytes : List ℕ
  pub stale : List ℕ
  pub serial_env : Environment
  pub frame_env : ℕ → Environment
  pub ms : ℕ
  pub fsm : Readings
  pub metrics_reading : ℕ
  pub reference_reading : ℕ
  pub reference_time : ℕ

-- The buffer holds ten frames, so that eleven rounds are enough.
abbrev pub drain_fuel : ℕ
drain_fuel = 11

module _ {ℓ} {F : Type ℓ} ⦃d : Float F⦄ where
  -- A received frame goes into the buffer, or is lost and noted.
  unfoldable pub buffer_frame : Option Frame → Main F → Main F
  buffer_frame none m = m
  buffer_frame (some f) m =
      let (accepted, stream) = put m.cf_stream f in
      record m {
        cf_stream = stream;
        arduino_overflow = (if accepted then m.arduino_overflow else true);
      }

  -- `irqHandler`: the frames in the two buffers of the chip, if any, and whether it has overflowed.
  unfoldable pub irq_handler : Option Frame → Option Frame → Bool → Main F → Main F
  unfolding buffer_frame
  irq_handler rxb0 rxb1 overflow m =
      let m' = buffer_frame rxb1 (buffer_frame rxb0 m) in
      record m' {
        mcp2515_overflow = (if overflow then true else m'.mcp2515_overflow);
        interrupt = true;
      }

  unfoldable pub handle_frame : (ℕ → Environment) → ℕ → Frame → Firmware F → Firmware F
  handle_frame env i f s = received (env i).reading (env i).ms (env i).indeterminate f s

  -- What the loop does with the answer of `get`, given the rest of the loop.
  abbrev pub when_frame :
      Option Frame
      → FrameStream × Firmware F
      → (Frame → FrameStream × Firmware F)
      → FrameStream × Firmware F
  when_frame none stop more = stop
  when_frame (some f) stop more = more f

  -- `while (has_data)`, with fuel, from frame number `i` on.
  unfoldable pub drain :
      ℕ → (ℕ → Environment) → ℕ → FrameStream → Firmware F → FrameStream × Firmware F
  drain zero env i stream s = (stream, s)
  drain (suc fuel) env i stream s =
      let (answer, stream') = get stream in
      when_frame answer (stream', s) (λ f. drain fuel env (i + 1) stream' (handle_frame env i f s))

  unfoldable pub receive_frames : (ℕ → Environment) → Main F → Main F
  unfolding drain
  receive_frames env m =
      if m.interrupt
      then (let (stream, s) = drain drain_fuel env 0 m.cf_stream m.node in
          record m {
            node = s;
            cf_stream = stream;
            interrupt = false;
            mcp2515_overflow = false;
            arduino_overflow = false;
          })
      else m

  unfoldable pub send_frequent_data : Firmware F → Firmware F
  unfolding on_board
  send_frequent_data s =
      let lux = voltage_to_lux s.luminaire.measured_voltage s.luminaire in
      let packet = new_packet s.nodes.node_id lux (d.trunc_u8 s.luminaire.controller.u % 256) in
      if s.nodes.hub_node == 0
      then s
      else if s.nodes.hub_node == s.nodes.node_id
      then on_board (send_on_serial packet) s
      else on_board (send_frequent_data_to_hub s.nodes.node_id s.nodes.hub_node packet) s

  -- After a control step: the data for the hub, and the metrics.
  unfoldable pub after_control : ℕ → Firmware F → Firmware F
  unfolding send_frequent_data
  after_control reading s =
      if s.did_control
      then (let s' = send_frequent_data s in
          record s' {
            metrics =
                update_metrics (voltage_to_lux (voltage reading) s'.luminaire) s'.luminaire
                  s'.metrics;
          })
      else s

  -- One call of `consensus_main`, and the reference that it sets.
  unfoldable pub run_consensus : ℕ → ℕ → Firmware F → Firmware F
  run_consensus reading now s =
      let residual = get_or s.calibration.residual_array s.consensus.node_idx (nat 0) in
      let (c, b, lux) = consensus_main s.nodes s.luminaire.cost residual s.consensus s.board in
      let s' : Firmware F = record s { consensus = c; board = b } in
      if is_off s.consensus.consensus_state then s else elim lux [
        | none ↦ s'
        | some l ↦ record s' { luminaire = set_lux_ref_after_consensus l reading now s'.luminaire }
      ]

  unfoldable pub loop : Round → Main F → Main F
  unfolding receive_frames after_control run_consensus
  loop r m =
      let commands =
        read_serial r.serial_env.reading r.serial_env.ms r.serial_env.indeterminate r.stale 0
          r.bytes m.node in
      let m1 = receive_frames r.frame_env (record m { node = commands }) in
      let due = ltb 2000 (elapsed r.ms m1.time_last_pc_discovery) in
      let asked = if due then send_pc_discovery m1.node else m1.node in
      let controlled = after_control r.metrics_reading (MainFsm.loop r.fsm asked) in
      let s = run_consensus r.reference_reading r.reference_time controlled in
      record m1 {
        node = record s { did_control = false };
        time_last_pc_discovery = (if due then r.ms else m1.time_last_pc_discovery);
      }
