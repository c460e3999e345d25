-- ===== src/MainProgram/Network/AccessPoint.antt =====
-- The device opens its own access point when it has no network.
use c_utilities.Common.{
  ℕ, ◌+◌, ◌<◌, ◌≡◌, refl, ap, ◌∙◌, ◌||◌, List, [], ◌∷◌, ◌++◌, ◌==◌, if◌then◌else◌, length, arith,
  if_true,
}
use c_utilities.Common.Run.{done, ◌>>=◌}
use c_utilities.StaticQueue.Fifo.{Fifo}
use c_utilities.EventFw.{Event, EventFw}
use c_utilities.Platform.{Eeprom, IsEeprom}
use c_utilities.PlatformConfig.{CfgElem}
use c_utilities.PlatformConfig.Store.Represents.{lookup, Represents, Represents-eeprom}
use c_utilities.Configuration.Laws.{get_configuration_lem}
use c_utilities.BootConfiguration.{network_config, is_present}
use c_utilities.Wifi.{WlStatus}
use c_utilities.MainProgram.{evt_init_udp, evt_init_tcp, Handler, App, act, configured}
use c_utilities.MainProgram.Network.{open_ap, on_eeprom}
use c_utilities.BootConfiguration.{clear_presence}
use c_utilities.BootConfiguration.Flags.{is_present-cleared}
use c_utilities.Wifi.{is_connected_with_router, detect_wifi_mode}
use c_utilities.TcpControl.Device.{device_name_key}
use c_utilities.MainProgram.{ap_disconnect_ack, wifi_disconnect, ap_mode_open}
use c_utilities.MainProgram.Network.{
  open_named_ap, evt_wifi_status, evt_ap_disconnect, init_network_connection, join_saved,
}
use c_utilities.MainProgram.Network.Laws.{IsReady, with_event, with_events, start_servers_lem}

-- The queue with the events that start the servers.
abbrev pub with_servers : Fifo Event → Fifo Event
with_servers f = with_event (with_event f evt_init_udp) evt_init_tcp

module _ {S : Type 0} where
  -- The access point is opened under the name of the device.
  open_named_ap_lem :
      {held : ℕ} (a : App S) (es : List CfgElem) (f : Fifo Event)
      → Represents a.device.store es
      → IsReady held a.device.events f
      → length f.items + 1 < f.limit
      → (fw : EventFw Handler) × (open_named_ap a
          ≡ done (with_events (act (ap_mode_open (lookup device_name_key es)) a) fw))
        × IsReady held fw (with_servers f)
  unfolding open_named_ap open_ap configured act
  open_named_ap_lem a es f h ready room =
      let name = lookup device_name_key es in
      let (fw, run, ready1) = start_servers_lem (act (ap_mode_open name) a) f ready room in
      (
        fw,
        ap (λ m. m >>= λ name. open_ap name a)
              (get_configuration_lem device_name_key es a.device.store h)
            ∙ run,
        ready1,
      )

  -- evtWifiStatus changes nothing while a router is connected or the access point is open. Otherwise it
  -- disconnects, and opens the access point under the name of the device, with the events for its
  -- servers queued, unless the mode after that is another.
  pub evt_wifi_status_lem :
      {held : ℕ} (status : WlStatus) (mode mode_after : ℕ) (a : App S) (es : List CfgElem)
      (f : Fifo Event)
      → Represents a.device.store es
      → IsReady held a.device.events f
      → length f.items + 1 < f.limit
      → (fw : EventFw Handler) × (evt_wifi_status status mode mode_after a ≡ (
          if is_connected_with_router status || mode == 2
          then done a
          else if mode_after == 2 || mode_after == 0
          then done (
              with_events
                (act (ap_mode_open (lookup device_name_key es)) (act wifi_disconnect a))
                fw)
          else done (act wifi_disconnect a)))
        × IsReady held fw (with_servers f)
  unfolding evt_wifi_status act detect_wifi_mode
  evt_wifi_status_lem status mode mode_after a es f h ready room =
      let (fw, run, ready1) = open_named_ap_lem (act wifi_disconnect a) es f h ready room in
      (fw, ground (arith, run), ready1)

module _ {S : Type 0} (E : Eeprom S) where
  -- evtApDisconnect clears the flag of the network configuration and gLocalNetworkConnected,
  -- disconnects, and opens the access point under the name of the device, with the events for its
  -- servers queued; it deletes no configuration.
  pub evt_ap_disconnect_lem :
      {held : ℕ} (a : App S) (es : List CfgElem) (f : Fifo Event)
      → IsEeprom E
      → Represents a.device.store es
      → IsReady held a.device.events f
      → length f.items + 1 < f.limit
      → (a1 : App S) × (evt_ap_disconnect E a ≡ done a1)
        × (a1.actions
            ≡ ((a.actions ++ ap_disconnect_ack ∷ []) ++ wifi_disconnect ∷ [])
              ++ ap_mode_open (lookup device_name_key es) ∷ [])
        × (a1.local_network_connected ≡ 0)
        × ((is_present E network_config a1.device.store.eeprom).0 ≡ 0)
        × Represents a1.device.store es
        × IsReady held a1.device.events (with_servers f)
  unfolding evt_ap_disconnect on_eeprom act
  evt_ap_disconnect_lem a es f laws h ready room =
      let cleared = on_eeprom E (clear_presence E network_config) (act ap_disconnect_ack a) in
      let start = act wifi_disconnect (record cleared { local_network_connected = 0 }) in
      let (fw, run, ready1) = open_named_ap_lem start es f (Represents-eeprom h) ready room in
      (
        with_events (act (ap_mode_open (lookup device_name_key es)) start) fw,
        run,
        refl,
        refl,
        (is_present-cleared E laws network_config a.device.store.eeprom).0,
        Represents-eeprom h,
        ready1,
      )

  -- initNetworkConnection without a saved network opens the access point under the name of the device,
  -- with the events for its servers queued.
  pub init_network_connection_fresh :
      {held : ℕ} (status : ℕ → WlStatus × WlStatus × WlStatus) (a : App S) (es : List CfgElem)
      (f : Fifo Event)
      → Represents a.device.store es
      → (is_present E network_config a.device.store.eeprom).0 ≡ 0
      → IsReady held a.device.events f
      → length f.items + 1 < f.limit
      → (a1 : App S) × (init_network_connection E status a ≡ done a1)
        × (a1.actions ≡ a.actions ++ ap_mode_open (lookup device_name_key es) ∷ [])
        × Represents a1.device.store es
        × IsReady held a1.device.events (with_servers f)
  unfolding init_network_connection on_eeprom act
  init_network_connection_fresh status a es f h absent ready room =
      let r = is_present E network_config a.device.store.eeprom in
      let a0 : App S = on_eeprom E (λ x. r.1) a in
      let (fw, run, ready1) = open_named_ap_lem a0 es f (Represents-eeprom h) ready room in
      (
        with_events (act (ap_mode_open (lookup device_name_key es)) a0) fw,
        if_true {b = r.0 == 0} (open_named_ap a0) (join_saved E status a0) (ground (arith, absent))
            ∙ run,
        refl,
        Represents-eeprom h,
        ready1,
      )
