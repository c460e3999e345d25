-- ===== src/MainProgram/Status.antt =====
-- esp32MistingController.ino: what the device reports, and how it reacts to alerts.
-- atoi is a parameter, and what the JSON library finds in a message is an argument.
pub mod Laws
pub mod Reports
use c_utilities.Common.{
  take, ℕ, zero, suc, ◌+◌, ◌/◌, ◌%◌, ◌^◌, Bool, true, false, Option, none, some, List, [], ◌∷◌,
  ◌++◌, ◌==◌, if◌then◌else◌, Bytes, same,
}
use c_utilities.Common.Int.{ℤ, is_zero}
use c_utilities.Common.Run.{Run, done, fault, ◌>>=◌}
use c_utilities.Platform.{Eeprom}
use c_utilities.BootConfiguration.{Part, motor_config, device_id, is_present}
use c_utilities.JumpStateMachine.{
  bl_bfn_t, t_on, bl_aff_t, t_off, bl_spd, sm_spd, d_s, event_end_mist,
}
use c_utilities.DeviceMonitor.{
  Alert, water_leak, high_current, high_dev_temp, high_dev_hum, bit_of, AlertEvent, Readings,
  MonitorData, get_device_monitor_data,
}
use c_utilities.Wifi.{WlStatus, is_connected}
use c_utilities.TcpControl.Device.{name_of, device_name_key, device_id_key, ssid_key, set_value}
use c_utilities.TcpControl.Device.Commands.{execute_state_machine}
use c_utilities.MainProgram.{
  AppEvent, ConfigMessage, StatusMessage, presence, no_config, config_to_app, config_to_cloud,
  status_multicast, status_to_cloud, registration, App, act, raise, configured,
}

-- The codes of the alerts of deviceMonitor.h.
abbrev pub code_of : Alert → ℕ
code_of water_leak = 500
code_of high_current = 501
code_of high_dev_temp = 502
code_of high_dev_hum = 503

abbrev pub no_alert : ℕ
no_alert = 200

-- `if(gDeviceAlertBitField & (1<<bit)) listArray.add(code)`
pub alert_code : ℕ → Alert → List ℕ
alert_code field a = if field / 2 ^ bit_of a % 2 == 1 then code_of a ∷ [] else []

-- The array of alerts of evtSendDeviceStatus.
pub alert_codes : ℕ → List ℕ
unfolding alert_code
alert_codes field =
    if field == 0
    then no_alert ∷ []
    else alert_code field water_leak
      ++ (alert_code field high_current
          ++ (alert_code field high_dev_temp ++ alert_code field high_dev_hum))

-- EVT_DEV_HANDLE_ALERT and EVT_SEND_DEVICE_STATUS
abbrev pub event_of : AlertEvent → AppEvent
event_of AlertEvent.evt_dev_handle_alert = AppEvent.evt_dev_handle_alert
event_of AlertEvent.evt_send_device_status = AppEvent.evt_send_device_status

module _ {S : Type 0} where
  -- resDevPresentTcp
  pub res_dev_present_tcp : App S → Run (App S)
  res_dev_present_tcp a = configured device_name_key a >>= λ name. done (act (presence name) a)

  -- checkDeviceLastState
  unfoldable pub check_device_last_state : (Bytes → ℤ) → App S → Run ℕ
  check_device_last_state atoi a = configured (name_of d_s) a >>= λ o. elim o [
    | none ↦ done 0
    | some s ↦ done (if is_zero (atoi s) then 0 else 1)
  ]

  -- sendDeviceRegistration_Cloud
  pub send_device_registration_cloud : App S → Run (App S)
  send_device_registration_cloud a = configured device_name_key a >>= λ name.
      configured ssid_key a >>= λ ssid. done (act (registration name ssid) a)

  -- evtDeviceRegistrationToCloud, for what WiFi.status answers
  pub evt_device_registration_to_cloud : WlStatus → App S → Run (App S)
  unfolding send_device_registration_cloud
  evt_device_registration_to_cloud status a =
      if is_connected status then send_device_registration_cloud a else done a

  -- The events that getDeviceMonitorData generates.
  pub raise_all : List AlertEvent → App S → Run (App S)
  raise_all [] a = done a
  raise_all (e ∷ es) a = raise (event_of e) a >>= raise_all es

  -- evtDeviceMonitorStatus, for what the sensors read. The flag is the allocation. getWaterSensorData
  -- switches the alert LED off, whatever the temperature and the humidity were.
  pub evt_device_monitor_status : Bool → Readings → App S → Run (App S)
  unfolding raise_all
  evt_device_monitor_status got r a =
      get_device_monitor_data got r a.device.device_alert_bit_field >>= λ m.
      raise_all m.2 (record a {
        dev_mon_data = some m.0;
        alert_led = false;
        device = record a.device { device_alert_bit_field = m.1 };
      })

module _ {S : Type 0} (E : Eeprom S) where
  -- isMotorConfigPresent and isDeviceIdPresent
  unfoldable pub part_present : Part → App S → ℕ × App S
  part_present p a =
      let r = is_present E p a.device.store.eeprom in
      (
        r.0,
        record a { device = record a.device { store = record a.device.store { eeprom = r.1 } } },
      )

  -- getConfiguration("dId") if there is a device id: whether there is one, and which
  pub device_id_of : App S → Run (Option (Option Bytes) × App S)
  unfolding part_present
  device_id_of a =
      let r = part_present device_id a in
      if r.0 == 1
      then (configured device_id_key r.1 >>= λ o. done (some o, r.1))
      else done (none, r.1)

  -- The branch of resDevConfig with a configuration.
  pub send_config : App S → Run (App S)
  unfolding device_id_of
  send_config a = configured (name_of bl_spd) a >>= λ bl. configured (name_of sm_spd) a >>= λ sm.
      configured (name_of t_on) a >>= λ on. configured (name_of t_off) a >>= λ off.
      configured (name_of bl_bfn_t) a >>= λ before. configured (name_of bl_aff_t) a >>= λ after.
      configured (name_of d_s) a >>= λ state. device_id_of a >>= λ r.
      let message : ConfigMessage = record {
        bl_spd = bl;
        sm_spd = sm;
        t_on = on;
        t_off = off;
        bl_bfn_t = before;
        bl_aff_t = after;
        d_s = elim state [ none ↦ b'0' ∷ [] | some s ↦ s ];
        d_id = r.0;
      } in
      done (act (config_to_cloud message) (act (config_to_app message) r.1))

  -- resDevConfig
  pub res_dev_config : App S → Run (App S)
  unfolding part_present send_config
  res_dev_config a =
      let r = part_present motor_config a in
      if r.0 == 0 then done (act no_config r.1) else send_config r.1

  -- evtParseUdpMessage, for the member "cmd"
  pub evt_parse_udp_message : Option Bytes → App S → Run (App S)
  unfolding res_dev_present_tcp res_dev_config
  evt_parse_udp_message none a = fault
  evt_parse_udp_message (some cmd) a =
      if same cmd (b'd' ∷ b's' ∷ b'c' ∷ b'v' ∷ b'r' ∷ b'y' ∷ [])
      then (res_dev_present_tcp a >>= res_dev_config)
      else done a

  -- evtSendDeviceStatus, for what WiFi.status answers. `print` is what printTo of the JSON library makes
  -- of a message, of which 149 bytes fit `res`.
  pub evt_send_device_status :
      (StatusMessage → Bytes) → (Bytes → ℤ) → WlStatus → App S → Run (App S)
  unfolding check_device_last_state device_id_of alert_codes
  evt_send_device_status print atoi status a = elim a.dev_mon_data [
    | none ↦ done a
    | some m ↦ check_device_last_state atoi a >>= λ state. device_id_of a >>= λ r.
        let message : StatusMessage = record {
          monitored = m;
          d_s = state;
          d_id = r.0;
          alerts = alert_codes r.1.device.device_alert_bit_field;
        } in
        let res = take 149 (print message) in
        let a1 = act (status_multicast res) r.1 in
        done (if is_connected status then act (status_to_cloud res) a1 else a1)
  ]

  -- evtHandleAlert
  pub evt_handle_alert : (Bytes → ℤ) → (Bytes → ℤ) → App S → Run (App S)
  evt_handle_alert scaled atoi a =
      execute_state_machine scaled atoi event_end_mist a.device
      >>= set_value E true (name_of d_s) (some (b'0' ∷ []))
      >>= λ d. done (record a { device = d; alert_led = true })
