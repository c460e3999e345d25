-- ===== src/HardwareControl.antt =====
-- esp32MistingController/hardwareControl.ino: the commands to the BLDC motor, the stepper motor, the
-- high voltage and the sensors.
-- Registers and pins are left out; what the sensors read is an argument. `map` of the Arduino core is a
-- parameter, whose documented formula is `IsMap`.
pub mod Uart
pub mod Laws
mod Tests
use c_utilities.Common.{
  ℕ, zero, suc, ◌+◌, ◌-◌, ◌*◌, ◌/◌, ◌%◌, ◌^◌, ◌≤◌, ◌<◌, ◌≡◌, Bool, true, false, ◌||◌, List, [], ◌∷◌,
  ◌++◌, ltb, leb, ◌==◌, if◌then◌else◌, length, Bytes,
}
use c_utilities.Common.Int.{ℤ, pos, negsuc, to_u32}
use c_utilities.Common.Run.{Run, done, fault, ◌>>=◌}

-- motorStats_t
pub record MotorStats : Type 0 where
  pub temperature_c : ℤ
  pub speed_rpm : ℤ
  pub motor_state : Bytes

-- gStepperRunning, and the alarm of the timer gStepPulseTimerId
pub record Stepper : Type 0 where
  pub running : Bool
  pub alarm_interval : ℤ
  pub alarm_enabled : Bool

-- Both formulas are map's, (x - in_min) * (out_max - out_min) / (in_max - in_min) + out_min, with the
-- division of C, for values whose product is a long.
pub record IsMap (arduino_map : ℤ → ℤ → ℤ → ℤ → ℤ → ℤ) : Type 0 where
  pub rising :
      (x a b c d : ℕ)
      → a ≤ x
      → a < b
      → c ≤ d
      → (x - a) * (d - c) < 2 ^ 31
      → arduino_map (pos x) (pos a) (pos b) (pos c) (pos d) ≡ pos (c + (x - a) * (d - c) / (b - a))
  pub falling :
      (x a b c d : ℕ)
      → a ≤ x
      → x ≤ b
      → a < b
      → d < c
      → (x - a) * (c - d) < 2 ^ 31
      → arduino_map (pos x) (pos a) (pos b) (pos c) (pos d) ≡ pos (c - (x - a) * (c - d) / (b - a))

-- The digits of a number, before those of `s`, for a number of at most `fuel` digits.
pub digits : ℕ → ℕ → Bytes → Bytes
digits zero n s = s
digits (suc fuel) n s =
    let rest = digits fuel (n / 10) ((b'0' + n % 10) ∷ s) in
    if ltb n 10 then (b'0' + n) ∷ s else rest

-- "%d" of an int, which has at most ten digits
pub decimal : ℤ → Bytes
unfolding digits
decimal (pos n) = digits 10 n []
decimal (negsuc n) = b'-' ∷ digits 10 (n + 1) []

-- sprintf into the 64 bytes of cmd
pub printed : Bytes → Run Bytes
printed s = if ltb (length s) 64 then done s else fault

-- transmitUartData: what is written to Serial1
pub transmit_uart_data : Bytes → Bytes
transmit_uart_data tx_data = b'#' ∷ tx_data

abbrev pub strt_m : Bytes
strt_m = b's' ∷ b't' ∷ b'r' ∷ b't' ∷ b'M' ∷ b':' ∷ []

abbrev pub c_spd_m : Bytes
c_spd_m = b'c' ∷ b'S' ∷ b'p' ∷ b'd' ∷ b'M' ∷ b':' ∷ []

-- bldcOff
pub bldc_off : Run Bytes
unfolding printed transmit_uart_data
bldc_off = printed (b's' ∷ b't' ∷ b'o' ∷ b'p' ∷ b'M' ∷ b':' ∷ b'#' ∷ []) >>= λ cmd.
    done (transmit_uart_data cmd)

-- getBldcStats
pub get_bldc_stats : Run Bytes
unfolding printed transmit_uart_data
get_bldc_stats =
    printed (b'g' ∷ b'e' ∷ b't' ∷ b'S' ∷ b't' ∷ b'a' ∷ b't' ∷ b'M' ∷ b':' ∷ b'#' ∷ []) >>= λ cmd.
    done (transmit_uart_data cmd)

-- `rpm < 20 || rpm > 80`
pub outside_speeds : ℤ → Bool
outside_speeds (pos n) = ltb n 20 || ltb 80 n
outside_speeds (negsuc n) = true

module _ (arduino_map : ℤ → ℤ → ℤ → ℤ → ℤ → ℤ) where
  -- convertRpmToDhz
  pub convert_rpm_to_dhz : ℤ → ℤ
  convert_rpm_to_dhz rpm = arduino_map rpm (pos 0) (pos 15000) (pos 0) (pos 2500)

  -- A command with a speed.
  pub speed_command : Bytes → ℤ → Run Bytes
  unfolding printed transmit_uart_data
  speed_command name rpm =
      printed (name ++ (decimal (convert_rpm_to_dhz rpm) ++ b'#' ∷ [])) >>= λ cmd.
      done (transmit_uart_data cmd)

  -- bldcOn: what is sent to the motor driver. It returns 1.
  pub bldc_on : ℤ → Run Bytes
  unfolding speed_command
  bldc_on rpm = speed_command strt_m rpm

  -- changeBldcSpeed
  pub change_bldc_speed : ℤ → Run Bytes
  unfolding speed_command
  change_bldc_speed rpm = speed_command c_spd_m rpm

  -- smOn: the result, and the motor
  pub sm_on : ℤ → Stepper → ℕ × Stepper
  unfolding outside_speeds
  sm_on rpm s =
      let interval = arduino_map rpm (pos 20) (pos 80) (pos 1000) (pos 256) in
      if outside_speeds rpm
      then (0, s)
      else if s.running
      then (
        1,
        record (record (record s { alarm_enabled = false }) { alarm_interval = interval }) {
          alarm_enabled = true;
        },
      )
      else (
        1,
        record (record s { alarm_interval = interval }) { alarm_enabled = true; running = true },
      )

-- smOff, which returns 1
pub sm_off : Stepper → ℕ × Stepper
sm_off s = (1, record s { alarm_enabled = false; running = false })

-- isStepperRunning
pub is_stepper_running : Stepper → Bool
is_stepper_running s = if s.running then true else false

-- hvOn and hvOff: the duty cycle that is written
pub hv_on : ℤ → ℕ
hv_on pwm_hv_value = 127

pub hv_off : ℕ
hv_off = 0

-- waterSensorData, for what analogRead gives
pub water_sensor_data : ℕ → ℕ
water_sensor_data sensor_value = if ltb 100 sensor_value then 1 else 0

-- getTemp, for a reading of the sensor that is a number, converted to an int
pub get_temp : ℤ → ℤ
get_temp (pos n) = if ltb 100 n then negsuc 0 else pos n
get_temp (negsuc n) = if ltb 20 (n + 1) then negsuc 0 else negsuc n

-- getHumidity
pub get_humidity : ℤ → ℤ
get_humidity (pos n) = if ltb 100 n then pos 0 else pos n
get_humidity (negsuc n) = pos 0
