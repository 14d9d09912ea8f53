-- ===== src/Calibration.antt =====
-- src/calibrationFSM.cpp: the state machine that measures the residual light and the gains. The nodes
-- go through it in step: each waits until all have said that they are ready.
pub mod Bounds
pub mod Rounds
pub mod Gain
use scdtr_project.Prelude.{
  ℕ, zero, suc, ◌+◌, ◌-◌, ◌%◌, ◌^◌, Bool, true, false, ◌||◌, Option, none, some, List, [], ◌∷◌, ltb,
  leb, ◌==◌, if◌then◌else◌, get_or, set, replicate,
}
use scdtr_project.Float.{Float, nat, neg}
use scdtr_project.Board.{Board, analog_write}
use scdtr_project.Comm.{send_calib_ready, send_calib_led_on}
use scdtr_project.Nodes.{Nodes, max_num_nodes, index_of, own_index}

pub data CalibrationState : Type 0 where
  calib_init wait_ready wait_led_on wait_transient : CalibrationState

pub record Calibration {ℓ} (F : Type ℓ) : Type ℓ where
  pub state : CalibrationState
  -- `nodeLedOn`; `none` is -1.
  pub node_led_on : Option ℕ
  pub lux_read_num : ℕ
  -- `pwm[0]` and `pwm[1]`
  pub pwm : List ℕ
  pub lux_reads : List F
  pub last_transition_time : ℕ
  -- an `unsigned int` of 16 bits
  pub num_nodes_ready : ℕ
  pub other_node_led_on : Bool
  pub gain_matrix : List (List F)
  pub residual_array : List F
  pub done : Bool

-- The loops of `resetCalib` over a row, over the rows and over the residuals: the first `n` entries.
pub clear_first {ℓ} : {A : Type ℓ} → ℕ → A → List A → List A
clear_first zero zero_value l = l
clear_first (suc n) zero_value [] = []
clear_first (suc n) zero_value (x ∷ l) = zero_value ∷ clear_first n zero_value l

pub clear_rows {ℓ} : {A : Type ℓ} → ℕ → ℕ → A → List (List A) → List (List A)
unfolding clear_first
clear_rows zero n zero_value rows = rows
clear_rows (suc k) n zero_value [] = []
clear_rows (suc k) n zero_value (row ∷ rows) =
    clear_first n zero_value row ∷ clear_rows k n zero_value rows

-- `nodeLedOn >= (int)numTotalNodes`
abbrev pub led_past : ℕ → Option ℕ → Bool
led_past n none = false
led_past n (some k) = leb n k

-- `nodeLedOn` as an index; the code never indexes by -1.
abbrev pub led_slot : Option ℕ → ℕ
led_slot none = 0
led_slot (some k) = k

-- `nodeLedOn++`
abbrev pub next_led : Option ℕ → Option ℕ
next_led none = some 0
next_led (some k) = some (k + 1)

abbrev pub is_none : Option ℕ → Bool
is_none none = true
is_none (some k) = false

module _ {ℓ} {F : Type ℓ} ⦃d : Float F⦄ where
  -- The constructor. The globals around it start as zeros, so `nodeLedOn` starts as 0.
  unfoldable pub new : Calibration F
  new = record {
    state = calib_init;
    node_led_on = some 0;
    lux_read_num = 0;
    pwm = 20 ∷ 240 ∷ [];
    lux_reads = nat 0 ∷ nat 0 ∷ [];
    last_transition_time = 0;
    num_nodes_ready = 0;
    other_node_led_on = false;
    gain_matrix = replicate max_num_nodes (replicate max_num_nodes (nat 0));
    residual_array = replicate max_num_nodes (nat 0);
    done = false;
  }

  -- `now` is the clock at the call.
  unfoldable pub set_state : CalibrationState → ℕ → Calibration F → Calibration F
  set_state s now c = record c { state = s; last_transition_time = now }

  unfoldable pub increment_nodes_ready : Calibration F → Calibration F
  increment_nodes_ready c = record c { num_nodes_ready = (c.num_nodes_ready + 1) % 65536 }

  unfoldable pub set_gain : ℕ → ℕ → F → Calibration F → Calibration F
  set_gain i j gain c = record c {
    gain_matrix = set c.gain_matrix i (set (get_or c.gain_matrix i []) j gain);
  }

  -- The value of a CALIB_READY message is a residual before the first LED is on, and a gain after.
  unfoldable pub received_gain_or_residual : Nodes → ℕ → F → Calibration F → Calibration F
  unfolding set_gain
  received_gain_or_residual nodes sender value c = elim c.node_led_on [
    | none ↦ record c { residual_array = set c.residual_array (index_of nodes sender) value }
    | some k ↦ set_gain (index_of nodes sender) k value c
  ]

  unfoldable pub reset_calib : Nodes → Calibration F → Calibration F
  unfolding clear_first clear_rows
  reset_calib nodes c = record c {
    state = calib_init;
    num_nodes_ready = 0;
    lux_read_num = 0;
    pwm = 20 ∷ 240 ∷ [];
    lux_reads = nat 0 ∷ nat 0 ∷ [];
    other_node_led_on = false;
    done = false;
    gain_matrix = clear_rows nodes.num_total_nodes nodes.num_total_nodes (nat 0) c.gain_matrix;
    residual_array = clear_first nodes.num_total_nodes (nat 0) c.residual_array;
  }

  -- In what follows `lux` is the reading `voltageToLux(getVoltage())` and `now` the clock in `setState`.
  module _ (nodes : Nodes) (lux : F) (now : ℕ) where
    unfoldable pub run_state_init : Calibration F → Board → Calibration F × Board
    unfolding set_state increment_nodes_ready
    run_state_init c b = (
      set_state wait_ready now
          (record (increment_nodes_ready
            (record c { residual_array = set c.residual_array (own_index nodes) lux })) {
              node_led_on = none;
            }),
      send_calib_ready nodes.node_id {F = F} lux b,
    )

    -- Every node is ready: go on to the next reading, or to the next LED.
    unfoldable pub next_reading : Calibration F → Calibration F
    next_reading c =
        if is_none c.node_led_on || c.lux_read_num == 2
        then record c {
          num_nodes_ready = 0;
          node_led_on = next_led c.node_led_on;
          lux_read_num = 0;
        }
        else record c { num_nodes_ready = 0 }

    unfoldable pub start_reading : Calibration F → Board → Calibration F × Board
    unfolding set_state analog_write
    start_reading c b =
        if led_past nodes.num_total_nodes c.node_led_on
        then (record c { done = true }, b)
        else if get_or nodes.nodes_list (led_slot c.node_led_on) 0 == nodes.node_id
        then (
          set_state wait_transient now c,
          send_calib_led_on nodes.node_id (analog_write (get_or c.pwm c.lux_read_num 0) b),
        )
        else (set_state wait_led_on now c, b)

    unfoldable pub run_state_wait_ready : Calibration F → Board → Calibration F × Board
    unfolding next_reading start_reading analog_write
    run_state_wait_ready c b =
        if c.num_nodes_ready == nodes.num_total_nodes
        then start_reading (next_reading c) (analog_write 0 b)
        else (c, analog_write 0 b)

    unfoldable pub run_state_wait_led_on : Calibration F → Board → Calibration F × Board
    unfolding set_state
    run_state_wait_led_on c b =
        if c.other_node_led_on
        then (set_state wait_transient now (record c { other_node_led_on = false }), b)
        else (c, b)

    -- The measurement, stored as `luxReads[luxReadNum++]`. The residual is read at `nodeId`, as in the
    -- source: past the array for an id of seven and more.
    unfoldable pub take_reading : Calibration F → Calibration F
    take_reading c = record c {
      lux_reads =
          set c.lux_reads c.lux_read_num
            (d.sub lux (get_or c.residual_array nodes.node_id (nat 0)));
      lux_read_num = c.lux_read_num + 1;
    }

    -- `(luxReads[1] - luxReads[0]) / (pwm[1] - pwm[0])`
    unfoldable pub reading_gain : Calibration F → F
    reading_gain c =
        d.div (d.sub (get_or c.lux_reads 1 (nat 0)) (get_or c.lux_reads 0 (nat 0)))
          (nat (get_or c.pwm 1 0 - get_or c.pwm 0 0))

    unfoldable pub finish_reading : Calibration F → Board → Calibration F × Board
    unfolding set_state increment_nodes_ready set_gain reading_gain
    finish_reading c b =
        if c.lux_read_num == 2
        then (
          set_state wait_ready now (
              increment_nodes_ready
                (set_gain (own_index nodes) (led_slot c.node_led_on) (reading_gain c) c)),
          send_calib_ready nodes.node_id {F = F} (reading_gain c) b,
        )
        else (
          set_state wait_ready now (increment_nodes_ready c),
          send_calib_ready nodes.node_id {F = F} (neg (nat 1)) b,
        )

    unfoldable pub run_state_wait_transient : ℕ → Calibration F → Board → Calibration F × Board
    unfolding take_reading finish_reading
    run_state_wait_transient time_since_last_transition c b =
        if ltb 1000000 time_since_last_transition then finish_reading (take_reading c) b else (c, b)

    -- One state's work; the source switches on `state`.
    unfoldable pub run_state : CalibrationState → ℕ → Calibration F → Board → Calibration F × Board
    unfolding run_state_init run_state_wait_ready run_state_wait_led_on run_state_wait_transient
    run_state calib_init time c b = run_state_init c b
    run_state wait_ready time c b = run_state_wait_ready c b
    run_state wait_led_on time c b = run_state_wait_led_on c b
    run_state wait_transient time c b = run_state_wait_transient time c b

    -- `current` is the clock at the start of the call. Its difference is of 32 bits.
    unfoldable pub loop : ℕ → Calibration F → Board → Calibration F × Board
    unfolding run_state
    loop current c b = run_state c.state ((current + 2 ^ 32 - c.last_transition_time) % 2 ^ 32) c b
