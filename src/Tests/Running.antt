-- ===== src/Tests/Running.antt =====
-- A node from `setup` on, and the frames that its controller takes.
use scdtr_project.Prelude.{
  ℕ, ◌/◌, ◌%◌, ◌^◌, ◌≡◌, refl, Bool, true, false, ◌||◌, none, some, List, [], ◌∷◌, arith, ◌==◌,
  if◌then◌else◌, replicate,
}
use scdtr_project.Setup.{Eeprom, setup, init_can}
use scdtr_project.Setup.Start.{setup-starts}
use scdtr_project.Setup.Filters.{accepts, accepts-init_can}
use scdtr_project.Stream.Inv.{new-IsValid}
use scdtr_project.MainLoop.{Main, Environment, Round}
use scdtr_project.MainLoop.Running.{Event, round, interrupts, happen_all, IsRunning}
use scdtr_project.MainLoop.Running.{happen_all-IsRunning}
use scdtr_project.Nodes.Roster.{IsRoster}
use scdtr_project.Frame.{can_message_id}
use scdtr_project.MsgType
use scdtr_project.Prelude.Int.{ℤ, pos}
use scdtr_project.Float.Fixed.{fixed}
use scdtr_project.Stream.{buff_size, blank, new}
use scdtr_project.Tests.Data.{node}

abbrev environment : Environment
environment = record { reading = 500; ms = 3000; indeterminate = 0 }

-- The PC types a command for this node.
abbrev a_round : Round
a_round = record {
  bytes = b'+' ∷ b'g' ∷ 3 ∷ b'I' ∷ 0 ∷ 0 ∷ 0 ∷ [];
  stale = [];
  serial_env = environment;
  frame_env = λ i. environment;
  ms = 3000;
  fsm = record { current = 2000004; now = 2000008; reading = 0; later = 0 };
  metrics_reading = 500;
  reference_reading = 500;
  reference_time = 3000;
}

-- Node 5 says that it is the hub, between two rounds.
abbrev events : List Event
events =
    round a_round
    ∷ interrupts
        (some (record {
          can_id = can_message_id 5 0 MsgType.is_hub_node;
          can_dlc = 0;
          payload = replicate 8 0;
        }))
        none false
    ∷ round a_round
    ∷ []

abbrev eeprom : Eeprom ℤ
eeprom = record {
  node_id = 3;
  slope_m = pos 700;
  slope_b = pos 1800;
  cost = pos 1000;
  a = pos 13000;
  b = pos 5000;
}

setup-starts_example :
    IsRoster (3 ∷ []) (setup eeprom).0.node.nodes × IsRunning 3 (happen_all events (setup eeprom).0)
setup-starts_example = setup-starts eeprom events (omega arith) (omega arith)

abbrev running : Main ℤ
running = record {
  node = node;
  cf_stream = new (replicate buff_size blank);
  interrupt = false;
  mcp2515_overflow = false;
  arduino_overflow = false;
  time_last_pc_discovery = 0;
}

running-IsRunning : IsRunning 3 running
running-IsRunning = record {
  valid = new-IsValid (replicate buff_size blank) refl;
  good = (refl, refl, λ on. cc);
}

happen_all-IsRunning_example : IsRunning 3 (happen_all events running)
happen_all-IsRunning_example = happen_all-IsRunning 3 events running running-IsRunning

-- A comparison of the bits 16 to 23 alone under this mask.
abbrev matches : ℕ → ℕ → ℕ → Bool
matches mask filter can_id =
    if mask == 0x00FF0000 then can_id / 2 ^ 16 % 2 ^ 8 == filter / 2 ^ 16 % 2 ^ 8 else true

accepts-init_can_example : accepts matches (init_can 3) (can_message_id 5 3 2) ≡ (3 == 0 || 3 == 3)
accepts-init_can_example =
    accepts-init_can matches (λ filter can_id. refl) 3 5 3 2 (omega arith) (omega arith)
      (omega arith) (omega arith)
