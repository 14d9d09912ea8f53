-- ===== src/Firmware.antt =====
-- The state of one node: the global objects of src/glob.h and src/main.cpp, and the world outside.
use scdtr_project.Prelude.{ℕ, Bool, [], get_or}
use scdtr_project.Float.{Float}
use scdtr_project.Board.{Board}
use scdtr_project.Nodes.{Nodes, own_index}
use scdtr_project.Calibration.{Calibration}
use scdtr_project.Consensus.{Consensus}
use scdtr_project.Consensus
use scdtr_project.Luminaire.{Luminaire}
use scdtr_project.Lpf.{Lpf}
use scdtr_project.Metrics.{Metrics}

-- `class SerialComm`
pub record SerialState {ℓ} (F : Type ℓ) : Type ℓ where
  pub num_nodes_waiting_result : ℕ
  pub running_total_command : Bool
  pub total_command_result : F
  pub pc_discovery_had_response : Bool

pub data MainState : Type 0 where
  init wakeup_wait calibrate run : MainState

-- `class MainFSM`
pub record MainFsmState : Type 0 where
  pub state : MainState
  pub last_transition_time : ℕ

pub record Firmware {ℓ} (F : Type ℓ) : Type ℓ where
  pub nodes : Nodes
  pub calibration : Calibration F
  pub consensus : Consensus F
  pub luminaire : Luminaire F
  pub lpf : Lpf F
  pub metrics : Metrics F
  pub serial : SerialState F
  pub main_fsm : MainFsmState
  pub time_since_last_reset : ℕ
  pub did_control : Bool
  -- The cost in the EEPROM.
  pub stored_cost : F
  pub board : Board

module _ {ℓ} {F : Type ℓ} ⦃d : Float F⦄ where
  -- A step that only sends.
  unfoldable pub on_board : (Board → Board) → Firmware F → Firmware F
  on_board f s = record s { board = f s.board }

  -- `consensus.init()`, with the own row of the gain matrix and the current reference.
  unfoldable pub consensus_init : Firmware F → Firmware F
  consensus_init s = record s {
    consensus =
        Consensus.init s.nodes (get_or s.calibration.gain_matrix (own_index s.nodes) [])
          s.luminaire.lux_ref s.consensus;
  }
