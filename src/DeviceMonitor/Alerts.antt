-- ===== src/DeviceMonitor/Alerts.antt =====
-- Which alerts getDeviceMonitorData raises and clears.
use c_utilities.Common.{
  ℕ, zero, ◌/◌, ◌%◌, ◌<◌, ◌≡◌, ◌≢◌, refl, ap, ◌∙◌, Bool, true, false, List, [], ◌∷◌, arith, ◌==◌,
  if◌then◌else◌,
}
use c_utilities.Common.Int.{ℤ, negsuc}
use c_utilities.Common.Run.{done}
use c_utilities.DeviceMonitor.{
  Alert, water_leak, high_current, high_dev_temp, high_dev_hum, bit_of, AlertEvent,
  evt_dev_handle_alert, evt_send_device_status, Readings, MonitorData, at_least, modify_bit,
  check_temperature, get_device_temperature, get_device_humidity, get_water_sensor_data,
  get_current_data, get_device_monitor_data,
}

-- Whether an alert is raised, as its bit.
abbrev pub raised : Alert → ℕ → ℕ
raised water_leak n = n % 2
raised high_current n = n / 2 % 2
raised high_dev_temp n = n / 4 % 2
raised high_dev_hum n = n / 8 % 2

pub raised-modify_self : (a : Alert) (n b : ℕ) → b < 2 → raised a (modify_bit n (bit_of a) b) ≡ b
unfolding modify_bit
raised-modify_self water_leak n b h = omega arith
raised-modify_self high_current n b h = omega arith
raised-modify_self high_dev_temp n b h = omega arith
raised-modify_self high_dev_hum n b h = omega arith

pub raised-modify_other :
    (a c : Alert) (n b : ℕ) → b < 2 → a ≢ c → raised c (modify_bit n (bit_of a) b) ≡ raised c n
unfolding modify_bit
raised-modify_other water_leak water_leak n b h d = absurd (d refl)
raised-modify_other high_current high_current n b h d = absurd (d refl)
raised-modify_other high_dev_temp high_dev_temp n b h d = absurd (d refl)
raised-modify_other high_dev_hum high_dev_hum n b h d = absurd (d refl)
raised-modify_other a c n b h d = omega arith

flag_bound : (b : Bool) → (if b then 1 else 0) < 2
flag_bound true = omega arith
flag_bound false = omega arith

-- The alert of the temperature, when it could be measured.
check_temperature_lem :
    (t : ℤ) (n : ℕ)
    → t ≢ negsuc 0
    → (check_temperature t n).1
      ≡ modify_bit n (bit_of high_dev_temp) (if at_least 30 t then 1 else 0)
unfolding check_temperature
check_temperature_lem (negsuc zero) n d = absurd (d refl)
check_temperature_lem t n d = refl

-- getDeviceMonitorData, given memory and a temperature that could be measured, ends with the alert of
-- the temperature raised if it is at least 30, that of the humidity if it is at least 80, that of a
-- water leak cleared and that of the current as it was; it generates both events if and only if an
-- alert is raised.
pub get_device_monitor_data_lem :
    (r : Readings) (field : ℕ)
    → r.temp ≢ negsuc 0
    → (m : MonitorData) × (n : ℕ) × (events : List AlertEvent) × (get_device_monitor_data true r
          field
        ≡ done (m, n, events))
      × (raised high_dev_temp n ≡ (if at_least 30 r.temp then 1 else 0))
      × (raised high_dev_hum n ≡ (if at_least 80 r.humidity then 1 else 0))
      × (raised water_leak n ≡ 0)
      × (raised high_current n ≡ raised high_current field)
      × (events ≡ (if n == 0 then [] else evt_dev_handle_alert ∷ evt_send_device_status ∷ []))
unfolding get_device_monitor_data get_device_temperature get_device_humidity get_water_sensor_data
    get_current_data
get_device_monitor_data_lem r field d =
    let t : ℕ = if at_least 30 r.temp then 1 else 0 in
    let u : ℕ = if at_least 80 r.humidity then 1 else 0 in
    let bt = flag_bound (at_least 30 r.temp) in
    let bu = flag_bound (at_least 80 r.humidity) in
    let n1 : ℕ = (check_temperature r.temp field).1 in
    let e = check_temperature_lem r.temp field d in
    let n2 : ℕ = modify_bit n1 (bit_of high_dev_hum) u in
    (
      _,
      _,
      _,
      refl,
      raised-modify_other water_leak high_dev_temp n2 0 (omega arith) (λ p. cc)
          ∙ raised-modify_other high_dev_hum high_dev_temp n1 u bu (λ p. cc)
          ∙ ap (raised high_dev_temp) e
          ∙ raised-modify_self high_dev_temp field t bt,
      raised-modify_other water_leak high_dev_hum n2 0 (omega arith) (λ p. cc)
          ∙ raised-modify_self high_dev_hum n1 u bu,
      raised-modify_self water_leak n2 0 (omega arith),
      raised-modify_other water_leak high_current n2 0 (omega arith) (λ p. cc)
          ∙ raised-modify_other high_dev_hum high_current n1 u bu (λ p. cc)
          ∙ ap (raised high_current) e
          ∙ raised-modify_other high_dev_temp high_current field t bt (λ p. cc),
      refl,
    )
