-- ===== src/MainProgram/Status/Reports.antt =====
-- What the device reports.
use c_utilities.Common.{
  take, ℕ, ◌+◌, ◌<◌, ◌≡◌, ◌≢◌, refl, ap, ap₂, ◌∙◌, Bool, true, false, Option, none, some, List, [],
  ◌∷◌, ◌++◌, ◌==◌, if◌then◌else◌, length, length-append, Bytes, arith, Option-cases, Bool-cases,
  inl, inr, if_true, if_false,
}
use c_utilities.Common.Int.{ℤ, negsuc, is_zero}
use c_utilities.Common.Run.{Run, done, ◌>>=◌}
use c_utilities.StaticQueue.Fifo.{Fifo}
use c_utilities.EventFw.{Event, EventFw}
use c_utilities.Platform.{Eeprom}
use c_utilities.BootConfiguration.{device_id}
use c_utilities.PlatformConfig.{CfgElem}
use c_utilities.PlatformConfig.Store.Represents.{lookup, Represents, Represents-eeprom}
use c_utilities.Configuration.Laws.{get_configuration_lem}
use c_utilities.JumpStateMachine.{d_s}
use c_utilities.DeviceMonitor.{
  Alert, water_leak, high_current, high_dev_temp, high_dev_hum, AlertEvent, Readings, MonitorData,
  at_least,
}
use c_utilities.DeviceMonitor.Alerts.{raised, get_device_monitor_data_lem}
use c_utilities.Wifi.{WlStatus, is_connected}
use c_utilities.TcpControl.Device.{name_of, device_id_key}
use c_utilities.MainProgram.{
  AppEvent, Handler, StatusMessage, status_multicast, status_to_cloud, App, act, configured,
}
use c_utilities.MainProgram.Network.Laws.{IsReady, with_event, with_events, raise_lem, queued}
use c_utilities.MainProgram.Status.{
  code_of, no_alert, alert_code, alert_codes, check_device_last_state, raise_all,
  evt_device_monitor_status, part_present, device_id_of, evt_send_device_status,
}

-- The codes of the alerts that are raised.
alert_code_lem :
    (n : ℕ) (a : Alert) → alert_code n a ≡ (if raised a n == 1 then code_of a ∷ [] else [])
unfolding alert_code
alert_code_lem n water_leak = ap (λ k. if k == 1 then code_of water_leak ∷ [] else []) (omega arith)
alert_code_lem n high_current =
    ap (λ k. if k == 1 then code_of high_current ∷ [] else []) (omega arith)
alert_code_lem n high_dev_temp =
    ap (λ k. if k == 1 then code_of high_dev_temp ∷ [] else []) (omega arith)
alert_code_lem n high_dev_hum =
    ap (λ k. if k == 1 then code_of high_dev_hum ∷ [] else []) (omega arith)

flag_code :
    (b : Bool) (k : ℕ)
    → (if (if b then 1 else 0) == 1 then k ∷ [] else []) ≡ (if b then k ∷ [] else [])
flag_code true k = refl
flag_code false k = refl

-- The codes of the alerts, but for the water leak.
abbrev pub codes : Bool → Bool → Bool → List ℕ
codes current hot damp =
    (if current then code_of high_current ∷ [] else [])
    ++ ((if hot then code_of high_dev_temp ∷ [] else [])
        ++ (if damp then code_of high_dev_hum ∷ [] else []))

alert_codes_lem :
    (n : ℕ) (hot damp : Bool) {k : ℕ}
    → raised water_leak n ≡ 0
    → raised high_current n ≡ k
    → raised high_dev_temp n ≡ (if hot then 1 else 0)
    → raised high_dev_hum n ≡ (if damp then 1 else 0)
    → alert_codes n ≡ (if n == 0 then no_alert ∷ [] else codes (k == 1) hot damp)
unfolding alert_codes
alert_codes_lem n hot damp {k} dry cur warm wet =
    let code : ℕ → Alert → List ℕ = λ k a. if k == 1 then code_of a ∷ [] else [] in
    let e0 : alert_code n water_leak ≡ [] =
      alert_code_lem n water_leak ∙ ap (λ k. code k water_leak) dry in
    let e1 : alert_code n high_current ≡ code k high_current =
      alert_code_lem n high_current ∙ ap (λ k. code k high_current) cur in
    let e2 : alert_code n high_dev_temp ≡ (if hot then code_of high_dev_temp ∷ [] else []) =
      alert_code_lem n high_dev_temp
      ∙ ap (λ k. code k high_dev_temp) warm
      ∙ flag_code hot (code_of high_dev_temp) in
    let e3 : alert_code n high_dev_hum ≡ (if damp then code_of high_dev_hum ∷ [] else []) =
      alert_code_lem n high_dev_hum
      ∙ ap (λ k. code k high_dev_hum) wet
      ∙ flag_code damp (code_of high_dev_hum) in
    ap (λ s. if n == 0 then no_alert ∷ [] else s)
      (ap₂ (λ x y. x ++ y) e0 (ap₂ (λ x y. x ++ y) e1 (ap₂ (λ x y. x ++ y) e2 e3)))

-- The events of an alert.
abbrev alert_events : Bool → List AlertEvent
alert_events quiet =
    if quiet then [] else AlertEvent.evt_dev_handle_alert ∷ AlertEvent.evt_send_device_status ∷ []

abbrev pub with_alert : Bool → Fifo Event → Fifo Event
with_alert quiet f =
    if quiet
    then f
    else with_event (with_event f AppEvent.evt_dev_handle_alert) AppEvent.evt_send_device_status

module _ {S : Type 0} where
  -- The events of an alert are queued, with room for two.
  raise_all_lem :
      {held : ℕ} (quiet : Bool) (a : App S) (f : Fifo Event)
      → IsReady held a.device.events f
      → length f.items + 1 < f.limit
      → (fw : EventFw Handler) × (raise_all (alert_events quiet) a ≡ done (with_events a fw))
        × IsReady held fw (with_alert quiet f)
  unfolding raise_all
  raise_all_lem true a f h room = (a.device.events, refl, h)
  raise_all_lem false a f h room =
      let (fw1, run1, h1) = raise_lem AppEvent.evt_dev_handle_alert a f h (omega arith) in
      let more = length-append f.items (queued AppEvent.evt_dev_handle_alert ∷ []) in
      let (fw2, run2, h2) =
        raise_lem AppEvent.evt_send_device_status (with_events a fw1)
          (with_event f AppEvent.evt_dev_handle_alert) h1 (omega (arith, more)) in
      (
        fw2,
        ap (λ m. m >>= raise_all (AlertEvent.evt_send_device_status ∷ [])) run1
            ∙ ap (λ m. m >>= raise_all []) run2,
        h2,
      )

  actions_if :
      (b : Bool) (x y : App S) → (if b then x else y).actions ≡ (if b then x.actions else y.actions)
  actions_if true x y = refl
  actions_if false x y = refl

  led_if :
      (b : Bool) (x y : App S)
      → x.alert_led ≡ false
      → y.alert_led ≡ false
      → (if b then x else y).alert_led ≡ false
  led_if true x y p q = p
  led_if false x y p q = q

  check_device_last_state_total :
      (atoi : Bytes → ℤ) (a : App S) (es : List CfgElem)
      → Represents a.device.store es
      → (n : ℕ) × (check_device_last_state atoi a ≡ done n)
  unfolding check_device_last_state configured
  check_device_last_state_total atoi a es h =
      let last : Option Bytes → Run ℕ =
        λ o. elim o [ none ↦ done 0 | some s ↦ done (if is_zero (atoi s) then 0 else 1) ] in
      let found = ap (λ m. m >>= last) (get_configuration_lem (name_of d_s) es a.device.store h) in
      elim (Option-cases (lookup (name_of d_s) es)) [
        | inl missing ↦ (0, found ∙ ap last missing)
        | inr (s, there) ↦ (if is_zero (atoi s) then 0 else 1, found ∙ ap last there)
      ]

module _ {S : Type 0} (E : Eeprom S) where
  device_id_of_total :
      (a : App S) (es : List CfgElem)
      → Represents a.device.store es
      → (o : Option (Option Bytes)) × (device_id_of E a ≡ done (o, (part_present E device_id a).1))
  unfolding device_id_of part_present configured
  device_id_of_total a es h =
      let r = part_present E device_id a in
      let some_id : Option Bytes → Run (Option (Option Bytes) × App S) = λ o. done (some o, r.1) in
      elim (Bool-cases (r.0 == 1)) [
        | inl there ↦ (
          some (lookup device_id_key es),
          if_true {b = r.0 == 1} _ _ there
              ∙ ap (λ m. m >>= some_id)
                  (get_configuration_lem device_id_key es r.1.device.store (Represents-eeprom h)),
        )
        | inr missing ↦ (none, if_false {b = r.0 == 1} _ _ missing)
      ]

  -- A measurement by evtDeviceMonitorStatus, given memory and a temperature that could be measured,
  -- followed by evtSendDeviceStatus: the events of an alert are queued unless no bit is set, for a queue
  -- with room for two, the alert LED is off, and the first 149 bytes of the text of a status are sent to
  -- the app, and to the cloud if WiFi is connected. The status has the code of no alert, or those of the
  -- current alert as it was, of a temperature of at least 30 and of a humidity of at least 80.
  pub reported_alerts :
      {held : ℕ} (print : StatusMessage → Bytes) (atoi : Bytes → ℤ) (status : WlStatus)
      (r : Readings) (a : App S) (es : List CfgElem) (f : Fifo Event)
      → r.temp ≢ negsuc 0
      → Represents a.device.store es
      → IsReady held a.device.events f
      → length f.items + 1 < f.limit
      → (a1 a2 : App S) × (m : StatusMessage) × (evt_device_monitor_status true r a ≡ done a1)
        × IsReady held a1.device.events (with_alert (a1.device.device_alert_bit_field == 0) f)
        × (evt_send_device_status E print atoi status a1 ≡ done a2)
        × (a2.actions ≡ (
            if is_connected status
            then (a.actions ++ status_multicast (take 149 (print m)) ∷ [])
              ++ status_to_cloud (take 149 (print m)) ∷ []
            else a.actions ++ status_multicast (take 149 (print m)) ∷ []))
        × (m.alerts ≡ (
            if a1.device.device_alert_bit_field == 0
            then no_alert ∷ []
            else codes
                (raised high_current a.device.device_alert_bit_field == 1)
                (at_least 30 r.temp)
                (at_least 80 r.humidity)))
        × (a2.alert_led ≡ false)
  unfolding evt_device_monitor_status evt_send_device_status part_present act
  reported_alerts print atoi status r a es f warm h ready room =
      let field = a.device.device_alert_bit_field in
      let (m0, n, events, run, hot, damp, dry, current, raised_events) =
        get_device_monitor_data_lem r field warm in
      let start : App S = record a {
        dev_mon_data = some m0;
        alert_led = false;
        device = record a.device { device_alert_bit_field = n };
      } in
      let (fw, queued_run, ready1) = raise_all_lem (n == 0) start f ready room in
      let a1 = with_events start fw in
      let (state, state_run) = check_device_last_state_total atoi a1 es h in
      let (o, id_run) = device_id_of_total a1 es h in
      let message : StatusMessage = record {
        monitored = m0;
        d_s = state;
        d_id = o;
        alerts = alert_codes n;
      } in
      let a1' = (part_present E device_id a1).1 in
      let res = take 149 (print message) in
      let sent = act (status_multicast res) a1' in
      let a2 = (if is_connected status then act (status_to_cloud res) sent else sent) in
      let after : MonitorData × ℕ × List AlertEvent → Run (App S) = λ m. raise_all m.2 (record a {
        dev_mon_data = some m.0;
        alert_led = false;
        device = record a.device { device_alert_bit_field = m.1 };
      }) in
      let answered : ℕ → Option (Option Bytes) × App S → Run (App S) = λ k x.
        let message : StatusMessage = record {
          monitored = m0;
          d_s = k;
          d_id = x.0;
          alerts = alert_codes x.1.device.device_alert_bit_field;
        } in
        let res = take 149 (print message) in
        let y = act (status_multicast res) x.1 in
        done (if is_connected status then act (status_to_cloud res) y else y) in
      (
        a1,
        a2,
        message,
        ap (λ m. m >>= after) run ∙ ap (λ es. raise_all es start) raised_events ∙ queued_run,
        ready1,
        ap (λ m. m >>= λ k. device_id_of E a1 >>= answered k) state_run
            ∙ ap (λ m. m >>= answered state) id_run,
        actions_if (is_connected status) (act (status_to_cloud res) sent) sent,
        alert_codes_lem n (at_least 30 r.temp) (at_least 80 r.humidity) dry current hot damp,
        led_if (is_connected status) (act (status_to_cloud res) sent) sent refl refl,
      )
