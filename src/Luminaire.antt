-- ===== src/Luminaire.antt =====
-- src/luminaire.cpp: the lamp, its sensor and its references.
use scdtr_project.Prelude.{
  ℕ, ◌+◌, ◌-◌, ◌*◌, ◌%◌, ◌^◌, Bool, true, false, ltb, leb, ◌==◌, if◌then◌else◌,
}
use scdtr_project.Float.{Float, nat, abs}
use scdtr_project.Board.{Board, analog_write}
use scdtr_project.Controller.{Controller, calc, controller_reset}
use scdtr_project.Simulator.{Simulator, start_step, simulate}
use scdtr_project.Lpf.{Lpf, sample}

abbrev pub control_delay : ℕ
control_delay = 10000

-- `CONTROL_DELAY / 80`
abbrev pub lpf_sampling_delay : ℕ
lpf_sampling_delay = 125

pub record Luminaire {ℓ} (F : Type ℓ) : Type ℓ where
  pub last_sample_time : ℕ
  pub lpf_sample_time : ℕ
  pub ldr_slope_b : F
  pub ldr_slope_m : F
  pub system_gain : F
  pub simulator : Simulator F
  pub controller : Controller F
  pub occupied : Bool
  pub lux_ref : F
  pub lux_ref_after_consensus : F
  pub lux_occupied : F
  pub lux_non_occupied : F
  pub cost : F
  pub sampling_time : ℕ
  pub measured_voltage : F

-- Differences of `unsigned long` times.
abbrev pub elapsed : ℕ → ℕ → ℕ
elapsed now before = (now + 2 ^ 32 - before) % 2 ^ 32

module _ {ℓ} {F : Type ℓ} ⦃d : Float F⦄ where
  -- `getVoltage`, of a reading of the converter, 0 to 1023
  unfoldable pub voltage : ℕ → F
  voltage reading = d.div (nat (reading * 5)) (d.ratio 1024 1)

  unfoldable pub lux_to_voltage : F → Luminaire F → F
  lux_to_voltage lux s =
      let r_ldr = d.pow10 (d.add (d.mul s.ldr_slope_m (d.log10 lux)) s.ldr_slope_b) in
      d.div (nat 50) (d.add (nat 10) r_ldr)

  unfoldable pub voltage_to_lux : F → Luminaire F → F
  voltage_to_lux v s =
      let r_ldr = d.div (d.mul (nat 10) (d.sub (nat 5) v)) v in
      d.pow10 (d.div (d.sub (d.log10 r_ldr) s.ldr_slope_b) s.ldr_slope_m)

  -- `reading` is the sensor's and `now` the clock, at the call.
  unfoldable pub set_lux_ref_after_consensus : F → ℕ → ℕ → Luminaire F → Luminaire F
  unfolding lux_to_voltage
  set_lux_ref_after_consensus lux reading now s = record s {
    lux_ref_after_consensus = lux;
    simulator = start_step now (voltage reading) (lux_to_voltage lux s) s.simulator;
  }

  unfoldable pub set_occupied : Bool → Luminaire F → Luminaire F
  set_occupied o s = record s {
    occupied = o;
    lux_ref = (if o then s.lux_occupied else s.lux_non_occupied);
  }

  -- `init`; the slopes and the cost are in the EEPROM.
  unfoldable pub init : F → F → F → Bool → Luminaire F → Luminaire F
  unfolding set_occupied
  init slope_m slope_b cost o s =
      set_occupied o (record s { ldr_slope_m = slope_m; ldr_slope_b = slope_b; cost = cost })

  unfoldable pub set_system_gain : F → Luminaire F → Luminaire F
  set_system_gain kii s = record s { system_gain = kii }

  -- `control`; `residual_read` is the own entry of `residualArray`.
  unfoldable pub control : ℕ → ℕ → ℕ → F → Luminaire F → Board → Luminaire F × Board
  unfolding voltage simulate calc analog_write
  control time_now sampling_time reading residual_read s b =
      let measured = voltage reading in
      let difference = d.sub (simulate time_now s.simulator) measured in
      let error = if d.le (abs difference) (d.ratio 1 100) then nat 0 else difference in
      let c =
        calc error sampling_time s.lux_ref_after_consensus s.system_gain residual_read
          s.controller in
      (
        record s { measured_voltage = measured; controller = c },
        analog_write (d.trunc16 c.u % 65536) b,
      )

  -- The first part of `loop`: the control, every hundredth of a second. The flag is `didControl`.
  unfoldable pub sample_control : ℕ → ℕ → F → Luminaire F → Board → Luminaire F × Board × Bool
  unfolding control
  sample_control time_now reading residual_read s b =
      let sampling_time = elapsed time_now s.last_sample_time in
      if leb control_delay sampling_time
      then (let sampling_time' = if s.last_sample_time == 0 then 0 else sampling_time in
          let (s', b') =
            control time_now sampling_time' reading residual_read
              (record s { sampling_time = sampling_time' }) b in
          (record s' { last_sample_time = time_now }, b', true))
      else (record s { sampling_time = sampling_time }, b, false)

  -- `loop`; `later` is the second reading of the sensor, for the filter.
  unfoldable pub loop :
      ℕ → ℕ → ℕ → F → Luminaire F → Lpf F → Board → Luminaire F × Lpf F × Board × Bool
  unfolding sample_control voltage
  loop time_now reading later residual_read s filter b =
      let (s', b', did_control) = sample_control time_now reading residual_read s b in
      if ltb lpf_sampling_delay (elapsed time_now s'.lpf_sample_time)
      then (
        record s' { lpf_sample_time = time_now },
        sample (voltage later) filter,
        b',
        did_control,
      )
      else (s', filter, b', did_control)

  unfoldable pub reset_luminaire : Luminaire F → Board → Luminaire F × Board
  unfolding set_occupied analog_write controller_reset
  reset_luminaire s b = (
    set_occupied false (record s {
      last_sample_time = 0;
      lpf_sample_time = 0;
      system_gain = nat 0;
      controller = controller_reset;
      lux_ref_after_consensus = nat 0;
      lux_occupied = nat 100;
      lux_non_occupied = nat 30;
    }),
    analog_write 0 b,
  )
