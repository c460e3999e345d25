-- ===== src/DeviceMonitor.antt =====
-- esp32MistingController/deviceMonitor.ino: the measured values and the alerts.
-- What the sensors, the motor driver and the configuration say is an argument; the request that is
-- sent to the motor driver, the LED and the Serial output are left out.
pub mod Alerts
pub mod Response
use c_utilities.Common.{
  ℕ, zero, suc, ◌+◌, ◌-◌, ◌*◌, ◌/◌, ◌%◌, ◌^◌, Bool, true, false, not, Option, none, some, List, [],
  ◌∷◌, leb, ltb, ◌==◌, ◌&&◌, if◌then◌else◌,
}
use c_utilities.Common.Int.{ℤ, pos, negsuc, neg}
use c_utilities.Common.Run.{Run, done, fault}

-- Alert_Events_e, without the bound ALERT_EVT_MAX
pub data Alert : Type 0 where
  water_leak high_current high_dev_temp high_dev_hum : Alert

abbrev pub bit_of : Alert → ℕ
bit_of water_leak = 0
bit_of high_current = 1
bit_of high_dev_temp = 2
bit_of high_dev_hum = 3

-- The events that getDeviceMonitorData generates.
pub data AlertEvent : Type 0 where
  evt_dev_handle_alert evt_send_device_status : AlertEvent

-- getTemp, getHumidity, gMotorStats, isStepperRunning, and atoi of the configured stepper speed
pub record Readings : Type 0 where
  pub temp : ℤ
  pub humidity : ℤ
  pub temperature_c : ℤ
  pub speed_rpm : ℤ
  pub stepper_running : Bool
  pub sm_spd : Option ℤ

-- deviceMonitorData
pub record MonitorData : Type 0 where
  pub bldc_rpm : ℤ
  pub sm_rpm : ℤ
  pub bldc_temperature : ℤ
  pub device_temperature : ℤ
  pub device_humidity : ℤ
  pub water_flow_rate : ℤ
  pub water_sensor_status : ℤ

-- `z >= k`
abbrev pub at_least : ℕ → ℤ → Bool
at_least k (pos n) = leb k n
at_least k (negsuc n) = false

-- (n & ~mask) | ((b << p) & mask) for the mask of bit `p`
pub modify_bit : ℕ → ℕ → ℕ → ℕ
modify_bit n p b = n - n / 2 ^ p % 2 * 2 ^ p + b % 2 * 2 ^ p

-- getBldcTemperature
pub get_bldc_temperature : Readings → ℤ
get_bldc_temperature r = elim r.temperature_c [
  | pos n ↦ if ltb n 100 then pos n else pos 0
  | negsuc n ↦ if ltb (n + 1) 20 then negsuc n else pos 0
]

-- getStepperMotorRpm
pub get_stepper_motor_rpm : Readings → ℤ
get_stepper_motor_rpm r = elim r.sm_spd [
  | none ↦ pos 0
  | some spd ↦ if r.stepper_running then spd else pos 0
]

-- getBldcRpm
pub get_bldc_rpm : Readings → ℤ
get_bldc_rpm r = elim r.speed_rpm [
  | pos n ↦ if ltb 0 n && leb n 15000 then pos n else pos 0
  | negsuc n ↦ pos 0
]

-- getwaterFlowRate, for speeds whose tenfold is an int
pub get_water_flow_rate : Readings → ℤ
unfolding get_stepper_motor_rpm
get_water_flow_rate r = elim (get_stepper_motor_rpm r) [
  | pos n ↦ pos (n * 10 / 60)
  | negsuc n ↦ neg ((n + 1) * 10 / 60)
]

-- getDeviceTemperature: the value, and gDeviceAlertBitField. -1 is a failed measurement.
pub check_temperature : ℤ → ℕ → ℤ × ℕ
unfolding modify_bit
check_temperature (negsuc zero) field = (negsuc 0, field)
check_temperature temp field =
    (temp, modify_bit field (bit_of high_dev_temp) (if at_least 30 temp then 1 else 0))

pub get_device_temperature : Readings → ℕ → ℤ × ℕ
unfolding check_temperature
get_device_temperature r field = check_temperature r.temp field

-- getDeviceHumidity
pub get_device_humidity : Readings → ℕ → ℤ × ℕ
unfolding modify_bit
get_device_humidity r field =
    (r.humidity, modify_bit field (bit_of high_dev_hum) (if at_least 80 r.humidity then 1 else 0))

-- getWaterSensorData, which sets its reading to 0 before it is tested
pub get_water_sensor_data : ℕ → ℤ × ℕ
unfolding modify_bit
get_water_sensor_data field = (pos 0, modify_bit field (bit_of water_leak) 0)

-- getCurrentData, whose reading is 0, and which drops the result of modifyBit
pub get_current_data : ℕ → ℤ × ℕ
get_current_data field = (pos 0, field)

-- getDeviceMonitorData: the values, the alerts and the events generated. The flag is the allocation.
pub get_device_monitor_data : Bool → Readings → ℕ → Run (MonitorData × ℕ × List AlertEvent)
get_device_monitor_data false r field = fault
get_device_monitor_data true r field =
    let temperature = get_device_temperature r field in
    let humidity = get_device_humidity r temperature.1 in
    let water = get_water_sensor_data humidity.1 in
    let current = get_current_data water.1 in
    done (
      record {
        bldc_rpm = get_bldc_rpm r;
        sm_rpm = get_stepper_motor_rpm r;
        bldc_temperature = get_bldc_temperature r;
        device_temperature = temperature.0;
        device_humidity = humidity.0;
        water_flow_rate = get_water_flow_rate r;
        water_sensor_status = water.0;
      },
      current.1,
      if current.1 == 0 then [] else evt_dev_handle_alert ∷ evt_send_device_status ∷ [],
    )
