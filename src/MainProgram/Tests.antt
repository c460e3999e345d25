-- ===== src/MainProgram/Tests.antt =====
-- The main program at concrete states.
use c_utilities.Common.{
  take, ℕ, ◌-◌, ◌≡◌, refl, true, false, none, some, [], ◌∷◌, ◌++◌, ◌==◌, if◌then◌else◌, Bytes,
  arith,
}
use c_utilities.Common.Int.{ℤ, pos}
use c_utilities.Common.Run.{done}
use c_utilities.StaticQueue.Fifo.{Fifo}
use c_utilities.EventFw
use c_utilities.EventFw.{Event, EventFw}
use c_utilities.EventFw.Invariant.{Inv, init-Inv, init_table_lem}
use c_utilities.Platform.Tests.{memory, memory-IsEeprom, erased}
use c_utilities.BootConfiguration.{network_config, is_present, set_presence}
use c_utilities.PlatformConfig.{PlatformConfig}
use c_utilities.PlatformConfig.Store.Restart.{power_on}
use c_utilities.Configuration.{initialize_set_up}
use c_utilities.PlatformConfig.Text.{IsToken-is_token}
use c_utilities.PlatformConfig.Store.Steps.{Written}
use c_utilities.PlatformConfig.Store.Represents.{insert, Represents}
use c_utilities.JumpStateMachine.{d_s, event_end_mist, Controller}
use c_utilities.JumpStateMachine.Spec.{moved}
use c_utilities.JumpStateMachine.Tests.{dark, resting, resting-IsConsistent}
use c_utilities.DeviceMonitor.{Readings}
use c_utilities.Wifi.{
  WlStatus, wl_connected, wl_other, connect_with_ap, is_connected, is_connected_with_router,
}
use c_utilities.TcpControl.{na, cloud_na}
use c_utilities.TcpControl.Device.{name_of, ssid_key, password_key}
use c_utilities.TcpControl.Device.Commands.Runnable.{IsRunnable}
use c_utilities.TcpControl.Device.Commands.Tests.{entries, store, store-Represents, there, fresh}
use c_utilities.MainProgram.{
  evt_init_udp, evt_init_tcp, evt_device_registration, Handler, register_event_handlers,
  StatusMessage, wifi_disconnect, ap_mode_open, connect_with, ap_disconnect_ack, status_multicast,
  status_to_cloud, App, act,
}
use c_utilities.MainProgram.Registered.{IsRegistered, register_event_handlers_lem}
use c_utilities.MainProgram.Network.{
  evt_ap_connect, init_network_connection, evt_ap_disconnect, evt_wifi_status,
}
use c_utilities.MainProgram.Network.Laws.{IsReady, with_event, with_events, with_store}
use c_utilities.MainProgram.Network.Restart.{evt_ap_connect_restart}
use c_utilities.MainProgram.Network.Joined.{evt_ap_connect_joined}
use c_utilities.MainProgram.Network.AccessPoint.{
  with_servers, evt_wifi_status_lem, evt_ap_disconnect_lem,
}
use c_utilities.MainProgram.Status.{
  no_alert, check_device_last_state, evt_device_monitor_status, evt_send_device_status,
  evt_handle_alert,
}
use c_utilities.MainProgram.Status.Laws.{off, evt_handle_alert_lem}
use c_utilities.MainProgram.Status.Reports.{with_alert, reported_alerts}

abbrev pub blank : EventFw Handler
blank = record { event_queue = none; event_info_table = []; max_events = 0; params_live = 0 }

abbrev pub empty : Fifo Event
empty = record { items = []; limit = 10; dropped = 0 }

-- eventFwInit(20, 10), as setup calls it.
abbrev pub initialised : EventFw Handler
initialised = (EventFw.init true true true 20 10 blank).1

initialised-Inv : Inv 0 initialised empty
initialised-Inv =
    (init-Inv 20 10 blank refl refl (omega arith) (omega arith) (omega arith) (omega arith)).1

register_event_handlers_lem_example :
    (fw1 : EventFw Handler) × (register_event_handlers initialised ≡ done fw1)
    × Inv 0 fw1 empty
    × IsRegistered fw1
register_event_handlers_lem_example =
    register_event_handlers_lem initialised empty initialised-Inv (init_table_lem 20 10 blank refl)

-- The same for the other tests.
pub registered :
    (fw1 : EventFw Handler) × (register_event_handlers initialised ≡ done fw1)
    × Inv 0 fw1 empty
    × IsRegistered fw1
registered =
    register_event_handlers_lem initialised empty initialised-Inv (init_table_lem 20 10 blank refl)

abbrev pub listening : EventFw Handler
listening = registered.0

pub listening-IsReady : IsReady 0 listening empty
listening-IsReady = record { inv = registered.2; registered = registered.3 }

abbrev pub app : Controller → (ℕ → ℕ) → App (ℕ → ℕ)
app c s = record {
  device = record {
    controller = c;
    store = store s;
    events = listening;
    messenger = fresh;
    cloud_messenger = fresh;
    command_status = na;
    cloud_command_status = cloud_na;
    data_rx_mutex = 1;
    manual_mode_on = 0;
    device_alert_bit_field = 2;
    sent = [];
  };
  local_network_connected = 0;
  dev_mon_data = none;
  alert_led = false;
  actions = [];
}

abbrev pub at_once : ℕ → WlStatus × WlStatus × WlStatus
at_once n = (wl_connected, wl_other, wl_other)

pub at_once_connected : connect_with_ap at_once ≡ done (0, 0)
unfolding connect_with_ap
at_once_connected = refl

abbrev pub home : Bytes
home = b'h' ∷ b'o' ∷ []

abbrev pub secret : Bytes
secret = b's' ∷ []

evt_ap_connect_joined_example :
    (a1 : App (ℕ → ℕ)) × (evt_ap_connect memory at_once (some home) (some secret) (app dark erased)
      ≡ done a1)
    × Represents a1.device.store (insert password_key secret (insert ssid_key home entries))
    × ((x : ℕ → ℕ) × Written memory (insert password_key secret (insert ssid_key home entries)) x
        × (a1.device.store.eeprom ≡ set_presence memory network_config x))
    × ((is_present memory network_config a1.device.store.eeprom).0 ≡ 1)
    × (a1.local_network_connected ≡ 1)
    × IsReady 0 a1.device.events (
        with_event
          (with_event (with_event empty evt_init_udp) evt_init_tcp)
          evt_device_registration)
evt_ap_connect_joined_example =
    evt_ap_connect_joined memory at_once home secret (app dark erased) entries empty memory-IsEeprom
      at_once_connected (store-Represents erased) (IsToken-is_token home refl)
      (IsToken-is_token secret refl) (omega arith) (omega arith) listening-IsReady (omega arith)

evt_ap_connect_restart_example :
    (a1 b1 : App (ℕ → ℕ)) × (c : PlatformConfig (ℕ → ℕ)) × (evt_ap_connect memory at_once
        (some home)
        (some secret)
        (app dark erased)
      ≡ done a1)
    × (initialize_set_up memory true (power_on memory a1.device.store.eeprom) ≡ done (pos 0, c))
    × (init_network_connection memory at_once (with_store (app dark erased) c) ≡ done b1)
    × (b1.actions ≡ [] ++ connect_with (some home) (some secret) ∷ [])
    × (b1.local_network_connected ≡ 1)
    × Represents b1.device.store (insert password_key secret (insert ssid_key home entries))
evt_ap_connect_restart_example =
    evt_ap_connect_restart memory memory-IsEeprom at_once at_once home secret (app dark erased)
      (app dark erased) entries empty empty at_once_connected at_once_connected
      (store-Represents erased) (IsToken-is_token home refl) (IsToken-is_token secret refl)
      (omega arith) (omega arith) listening-IsReady (omega arith) listening-IsReady (omega arith)

evt_wifi_status_lem_example :
    (fw : EventFw Handler) × (evt_wifi_status wl_other 1 0 (app dark erased)
      ≡ done (with_events (act (ap_mode_open none) (act wifi_disconnect (app dark erased))) fw))
    × IsReady 0 fw (with_servers empty)
unfolding is_connected_with_router
evt_wifi_status_lem_example =
    evt_wifi_status_lem wl_other 1 0 (app dark erased) entries empty (store-Represents erased)
      listening-IsReady (omega arith)

evt_ap_disconnect_lem_example :
    (a1 : App (ℕ → ℕ)) × (evt_ap_disconnect memory (app dark erased) ≡ done a1)
    × (a1.actions ≡ ap_disconnect_ack ∷ wifi_disconnect ∷ ap_mode_open none ∷ [])
    × (a1.local_network_connected ≡ 0)
    × ((is_present memory network_config a1.device.store.eeprom).0 ≡ 0)
    × Represents a1.device.store entries
    × IsReady 0 a1.device.events (with_servers empty)
evt_ap_disconnect_lem_example =
    evt_ap_disconnect_lem memory (app dark erased) entries empty memory-IsEeprom
      (store-Represents erased) listening-IsReady (omega arith)

abbrev pub atoi : Bytes → ℤ
atoi [] = pos 0
atoi (x ∷ s) = pos (x - b'0')

evt_handle_alert_lem_example :
    (a1 : App (ℕ → ℕ)) × (evt_handle_alert memory atoi atoi (app resting erased) ≡ done a1)
    × IsRunnable atoi a1.device (insert (name_of d_s) off entries)
    × (a1.device.controller.current_state ≡ moved resting.current_state event_end_mist)
    × (check_device_last_state atoi a1 ≡ done 0)
    × (a1.alert_led ≡ true)
evt_handle_alert_lem_example =
    evt_handle_alert_lem memory atoi atoi (app resting erased) entries
      (record {
        kept = store-Represents erased;
        consistent = resting-IsConsistent;
        configured = there atoi refl;
      })
      refl (omega arith)

abbrev hot : Readings
hot = record {
  temp = pos 34;
  humidity = pos 40;
  temperature_c = pos 50;
  speed_rpm = pos 3000;
  stepper_running = true;
  sm_spd = some (pos 60);
}

-- A text that shows the codes only.
abbrev plain : StatusMessage → Bytes
plain m = m.alerts

reported_alerts_example :
    (a1 a2 : App (ℕ → ℕ)) × (m : StatusMessage) × (evt_device_monitor_status true hot
        (app dark erased)
      ≡ done a1)
    × IsReady 0 a1.device.events (with_alert (a1.device.device_alert_bit_field == 0) empty)
    × (evt_send_device_status memory plain atoi wl_other a1 ≡ done a2)
    × (a2.actions ≡ (
        if is_connected wl_other
        then ([] ++ status_multicast (take 149 (plain m)) ∷ [])
          ++ status_to_cloud (take 149 (plain m)) ∷ []
        else [] ++ status_multicast (take 149 (plain m)) ∷ []))
    × (m.alerts ≡ (if a1.device.device_alert_bit_field == 0 then no_alert ∷ [] else 501 ∷ 502 ∷ []))
    × (a2.alert_led ≡ false)
reported_alerts_example =
    reported_alerts memory plain atoi wl_other hot (app dark erased) entries empty (λ e. cc)
      (store-Represents erased) listening-IsReady (omega arith)
