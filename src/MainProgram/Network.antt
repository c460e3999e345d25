-- ===== src/MainProgram/Network.antt =====
-- esp32MistingController.ino: joining and leaving a network.
-- What WiFi.getMode and WiFi.status answer is an argument, as are the members "ss" and "pwrd" that the
-- JSON library finds in a message.
pub mod Laws
pub mod Joined
pub mod Restart
pub mod AccessPoint
use c_utilities.Common.{
  ℕ, zero, suc, Bool, true, false, Option, none, some, [], ◌∷◌, ◌==◌, if◌then◌else◌, Bytes,
}
use c_utilities.Common.Int.{ℤ}
use c_utilities.Common.Run.{Run, done, fault, ◌>>=◌}
use c_utilities.Platform.{Eeprom}
use c_utilities.Configuration.{del_configuration}
use c_utilities.PlatformConfig.Store.{del_config}
use c_utilities.BootConfiguration.{network_config, is_present, set_presence, clear_presence}
use c_utilities.Wifi.{WlStatus, connect_with_ap, is_connected_with_router, detect_wifi_mode}
use c_utilities.TcpControl.Device.{device_name_key, ssid_key, password_key, set_value}
use c_utilities.MainProgram.{
  evt_init_udp, evt_init_tcp, evt_device_registration, ap_connect_ack, ap_disconnect_ack,
  ap_mode_disconnect, wifi_disconnect, connect_with, ap_mode_open, App, act, raise, configured,
}

-- apSsid, "ESP32_AP"
abbrev pub ap_ssid : Bytes
ap_ssid = b'E' ∷ b'S' ∷ b'P' ∷ b'3' ∷ b'2' ∷ b'_' ∷ b'A' ∷ b'P' ∷ []

module _ {S : Type 0} where
  -- The events that start the servers.
  pub start_servers : App S → Run (App S)
  start_servers a = raise evt_init_udp a >>= raise evt_init_tcp

  -- apModeSetupOpen, and the servers
  pub open_ap : Option Bytes → App S → Run (App S)
  unfolding start_servers
  open_ap name a = start_servers (act (ap_mode_open name) a)

  -- apModeSetupOpen with the name of the device, and the servers
  pub open_named_ap : App S → Run (App S)
  unfolding open_ap
  open_named_ap a = configured device_name_key a >>= λ name. open_ap name a

  -- evtWifiStatus, for the answers of WiFi.status and WiFi.getMode, before and after wifiDisconnect
  pub evt_wifi_status : WlStatus → ℕ → ℕ → App S → Run (App S)
  unfolding open_named_ap
  evt_wifi_status status mode mode_after a =
      let ret = detect_wifi_mode mode in
      if is_connected_with_router status
      then done a
      else if ret == 2
      then done a
      else let a1 = act wifi_disconnect a in
        let ret = (if detect_wifi_mode mode_after == 2 then 0 else detect_wifi_mode mode_after) in
        if ret == 0 then open_named_ap a1 else done a1

module _ {S : Type 0} (E : Eeprom S) where
  -- A change of the boot configuration.
  pub on_eeprom : (S → S) → App S → App S
  on_eeprom f a = record a {
    device = record a.device { store = record a.device.store { eeprom = f a.device.store.eeprom } };
  }

  -- setConfiguration
  pub store_value : Bytes → Option Bytes → App S → Run (App S)
  store_value k v a = set_value E true k v a.device >>= λ d. done (record a { device = d })

  -- The network has been joined: the credentials are stored.
  pub joined : Option Bytes → Option Bytes → App S → Run (App S)
  unfolding start_servers store_value on_eeprom
  joined ssid password a = start_servers a >>= λ a1.
      store_value ssid_key ssid (record a1 { local_network_connected = 1 })
      >>= store_value password_key password
      >>= λ a2. raise evt_device_registration (on_eeprom (set_presence E network_config) a2)

  -- evtApConnect, for the members of the message
  pub evt_ap_connect :
      (ℕ → WlStatus × WlStatus × WlStatus) → Option Bytes → Option Bytes → App S → Run (App S)
  unfolding joined open_ap
  evt_ap_connect status ssid password a =
      let a1 = act (connect_with ssid password) (act ap_mode_disconnect (act ap_connect_ack a)) in
      connect_with_ap status >>= λ r.
      if r.0 == 1 then open_ap (some ap_ssid) a1 else joined ssid password a1

  -- evtApDisconnect
  pub evt_ap_disconnect : App S → Run (App S)
  unfolding on_eeprom open_named_ap
  evt_ap_disconnect a =
      let a1 = on_eeprom (clear_presence E network_config) (act ap_disconnect_ack a) in
      open_named_ap (act wifi_disconnect (record a1 { local_network_connected = 0 }))

  -- delConfig, whose result is not looked at
  pub delete_value : Bytes → App S → Run (App S)
  delete_value k a = del_config E k a.device.store >>= λ r.
      done (record a { device = record a.device { store = r.1 } })

  -- The saved network cannot be joined.
  pub forget_network : App S → Run (App S)
  unfolding delete_value on_eeprom open_ap
  forget_network a = delete_value ssid_key a >>= delete_value password_key >>= λ a1.
      open_ap (some ap_ssid) (on_eeprom (clear_presence E network_config) a1)

  -- The saved network is tried.
  pub join_saved : (ℕ → WlStatus × WlStatus × WlStatus) → App S → Run (App S)
  unfolding forget_network start_servers
  join_saved status a = configured ssid_key a >>= λ ssid. configured password_key a >>= λ password.
      connect_with_ap status >>= λ r.
      let a1 = act (connect_with ssid password) a in
      if r.0 == 1
      then forget_network a1
      else (start_servers a1 >>= λ a2.
          raise evt_device_registration (record a2 { local_network_connected = 1 }))

  -- initNetworkConnection
  pub init_network_connection : (ℕ → WlStatus × WlStatus × WlStatus) → App S → Run (App S)
  unfolding join_saved open_named_ap
  init_network_connection status a =
      let r = is_present E network_config a.device.store.eeprom in
      let a1 = on_eeprom (λ s. r.1) a in if r.0 == 0 then open_named_ap a1 else join_saved status a1
