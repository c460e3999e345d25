-- ===== src/MainProgram.antt =====
-- esp32MistingController/esp32MistingController.ino: the events of the application, their handlers, and
-- the state that the handlers share.
-- The JSON text of a message is left out: a message is kept as its members, in `actions`, with what the
-- WiFi library is told. The Serial output and the pauses are left out.
pub mod Network
pub mod Status
pub mod SetUp
pub mod Timers
pub mod ApList
pub mod Registered
mod Tests
use c_utilities.Common.{
  ℕ, zero, suc, Bool, true, false, Option, none, some, List, [], ◌∷◌, ◌++◌, Bytes,
}
use c_utilities.Common.Int.{ℤ}
use c_utilities.Common.Run.{Run, done, fault, ◌>>=◌}
use c_utilities.EventFw.{EventFw, add_handler}
use c_utilities.Configuration.{get_configuration}
use c_utilities.DeviceMonitor.{MonitorData}
use c_utilities.TcpControl.Device.{TcpDevice, event_generate}

-- Events_e, without its bound
pub data AppEvent : Type 0 where
  evt_init_udp evt_init_tcp evt_par_udp_msg evt_send_tcp_dev_pres evt_send_tcp_dev_config : AppEvent
  evt_get_ap_list evt_ap_connect evt_control evt_config_update evt_ap_disconnect : AppEvent
  evt_wifi_status evt_send_device_status evt_device_monitor_status evt_flush_buffer : AppEvent
  evt_device_registration evt_dev_config_cloud_update evt_dev_handle_alert : AppEvent

-- The value of the enumerator.
abbrev pub number : AppEvent → ℕ
number evt_init_udp = 0
number evt_init_tcp = 1
number evt_par_udp_msg = 2
number evt_send_tcp_dev_pres = 3
number evt_send_tcp_dev_config = 4
number evt_get_ap_list = 5
number evt_ap_connect = 6
number evt_control = 7
number evt_config_update = 8
number evt_ap_disconnect = 9
number evt_wifi_status = 10
number evt_send_device_status = 11
number evt_device_monitor_status = 12
number evt_flush_buffer = 13
number evt_device_registration = 14
number evt_dev_config_cloud_update = 15
number evt_dev_handle_alert = 16

-- The functions evtInitUdp ... evtHandleAlert.
pub data Handler : Type 0 where
  init_udp init_tcp_server parse_udp_message send_tcp_device_name_presence : Handler
  send_tcp_device_config handle_get_ap_list handle_ap_connect handle_ap_disconnect : Handler
  handle_control handle_config_update handle_wifi_status send_device_status : Handler
  device_monitor_status flush_buffer device_registration_to_cloud : Handler
  send_device_config_update_to_cloud handle_alert : Handler

-- The calls of registerEventHandlers, in their order.
abbrev pub registrations : List (AppEvent × Handler)
registrations =
    (evt_init_udp, init_udp)
    ∷ (evt_init_tcp, init_tcp_server)
    ∷ (evt_par_udp_msg, parse_udp_message)
    ∷ (evt_send_tcp_dev_pres, send_tcp_device_name_presence)
    ∷ (evt_send_tcp_dev_config, send_tcp_device_config)
    ∷ (evt_get_ap_list, handle_get_ap_list)
    ∷ (evt_ap_connect, handle_ap_connect)
    ∷ (evt_ap_disconnect, handle_ap_disconnect)
    ∷ (evt_control, handle_control)
    ∷ (evt_config_update, handle_config_update)
    ∷ (evt_wifi_status, handle_wifi_status)
    ∷ (evt_send_device_status, send_device_status)
    ∷ (evt_device_monitor_status, device_monitor_status)
    ∷ (evt_flush_buffer, flush_buffer)
    ∷ (evt_device_registration, device_registration_to_cloud)
    ∷ (evt_dev_config_cloud_update, send_device_config_update_to_cloud)
    ∷ (evt_dev_handle_alert, handle_alert)
    ∷ []

-- Calls of eventAddHandler, whose errors are not looked at.
pub add_handlers : List (AppEvent × Handler) → EventFw Handler → Run (EventFw Handler)
add_handlers [] fw = done fw
add_handlers ((e, h) ∷ rs) fw = add_handler (number e) (some h) fw >>= λ r. add_handlers rs r.1

-- registerEventHandlers
pub register_event_handlers : EventFw Handler → Run (EventFw Handler)
unfolding add_handlers
register_event_handlers fw = add_handlers registrations fw

-- The members of the message "cnfg".
pub record ConfigMessage : Type 0 where
  pub bl_spd : Option Bytes
  pub sm_spd : Option Bytes
  pub t_on : Option Bytes
  pub t_off : Option Bytes
  pub bl_bfn_t : Option Bytes
  pub bl_aff_t : Option Bytes
  pub d_s : Bytes
  pub d_id : Option (Option Bytes)

-- The members of the message "stat": the codes of the alerts are those of deviceMonitor.h.
pub record StatusMessage : Type 0 where
  pub monitored : MonitorData
  pub d_s : ℕ
  pub d_id : Option (Option Bytes)
  pub alerts : List ℕ

-- What is sent, and what the WiFi library is told. The status is sent as its text.
pub data Action : Type 0 where
  ap_connect_ack ap_disconnect_ack ap_mode_disconnect wifi_disconnect : Action
  connect_with : Option Bytes → Option Bytes → Action
  ap_mode_open : Option Bytes → Action
  presence : Option Bytes → Action
  ap_list : ℕ → List Bytes → Action
  no_config : Action
  config_to_app config_to_cloud : ConfigMessage → Action
  status_multicast status_to_cloud : Bytes → Action
  registration : Option Bytes → Option Bytes → Action

-- The device of the commands, with gLocalNetworkConnected, devMonData and the alert LED.
pub record App (S : Type 0) : Type 0 where
  pub device : TcpDevice S Handler
  pub local_network_connected : ℕ
  pub dev_mon_data : Option MonitorData
  pub alert_led : Bool
  pub actions : List Action

module _ {S : Type 0} where
  pub act : Action → App S → App S
  act x a = record a { actions = a.actions ++ x ∷ [] }

  -- eventGenerate of an event without parameter
  pub raise : AppEvent → App S → Run (App S)
  raise e a = event_generate true (number e) none 0 a.device >>= λ d. done (record a { device = d })

  -- getConfiguration
  pub configured : Bytes → App S → Run (Option Bytes)
  configured k a = get_configuration k a.device.store
