-- ===== src/HardwareControl/Uart.antt =====
-- hardwareControl.ino: the bytes that the motor driver sends, gathered up to a '#'.
-- char is unsigned on the ESP32, so gDataPtr turns from 255 to 0.
pub mod Receive
use c_utilities.Common.{
  ℕ, suc, ◌+◌, Bool, true, false, Option, none, some, List, [], ◌∷◌, ◌++◌, ltb, ◌==◌, if◌then◌else◌,
  length, set, u8, Bytes, replicate, drop, strlen,
}
use c_utilities.Common.Int.{ℤ}
use c_utilities.Common.Run.{Run, done, fault, ◌>>=◌}
use c_utilities.HardwareControl.{MotorStats}
use c_utilities.DeviceMonitor.Response.{Separators, command_resp_decode}

-- gRxBuff, gDataPtr and gMotorStats
pub record Uart : Type 0 where
  pub rx_buff : Bytes
  pub data_ptr : ℕ
  pub stats : MotorStats

-- `gRxBuff[gDataPtr] = x`
pub put_byte : ℕ → Uart → Run Uart
put_byte x u =
    if ltb u.data_ptr (length u.rx_buff)
    then done (record u { rx_buff = set u.rx_buff u.data_ptr x })
    else fault

-- clearCmdBuffer
pub clear_cmd_buffer : Uart → Run Uart
clear_cmd_buffer u = elim (strlen u.rx_buff) [
  | none ↦ fault
  | some n ↦ done (record u { rx_buff = replicate n 0 ++ drop n u.rx_buff; data_ptr = 0 })
]

module _ (arduino_map : ℤ → ℤ → ℤ → ℤ → ℤ → ℤ) (atoi : Bytes → ℤ) (sep : Separators) where
  -- storeMessage_BLDC
  pub store_message_bldc : ℕ → Uart → Run Uart
  unfolding put_byte clear_cmd_buffer
  store_message_bldc data_byte u =
      if data_byte == b'#'
      then (put_byte 0 u >>= λ v.
          command_resp_decode arduino_map atoi sep v.rx_buff v.stats >>= λ r.
          clear_cmd_buffer (record v { rx_buff = r.0; stats = r.1 }))
      else (put_byte data_byte u >>= λ v. done (record v { data_ptr = u8 (v.data_ptr + 1) }))

  -- bldcRxMotorStatusData, for a byte if one is there
  pub bldc_rx_motor_status_data : Option ℕ → Uart → Run Uart
  unfolding store_message_bldc
  bldc_rx_motor_status_data none u = done u
  bldc_rx_motor_status_data (some ch) u = store_message_bldc ch u

  -- Calls of bldcRxMotorStatusData with one byte each.
  pub receive : Bytes → Uart → Run Uart
  unfolding bldc_rx_motor_status_data
  receive [] u = done u
  receive (x ∷ s) u = bldc_rx_motor_status_data (some x) u >>= receive s
