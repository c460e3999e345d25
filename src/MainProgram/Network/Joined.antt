-- ===== src/MainProgram/Network/Joined.antt =====
-- A network that is joined: its credentials are stored, and used again.
use c_utilities.Common.{
  ℕ, ◌+◌, ◌≤◌, ◌<◌, ◌≡◌, refl, ap, ◌∙◌, false, Option, some, List, [], ◌∷◌, ◌++◌, ◌==◌,
  if◌then◌else◌, length, length-append, Bytes, arith, if_false,
}
use c_utilities.Common.Run.{Run, done, ◌>>=◌}
use c_utilities.StaticQueue.Fifo.{Fifo}
use c_utilities.EventFw.{Event}
use c_utilities.Platform.{Eeprom, IsEeprom}
use c_utilities.PlatformConfig.{CfgElem}
use c_utilities.PlatformConfig.Text.{size, IsToken}
use c_utilities.PlatformConfig.Store.Steps.{Written}
use c_utilities.PlatformConfig.Store.Represents.{lookup, insert, Represents, Represents-eeprom}
use c_utilities.PlatformConfig.Store.Refines.{lookup-insert, lookup-insert_other}
use c_utilities.Configuration.Laws.{get_configuration_lem}
use c_utilities.BootConfiguration.{network_config, is_present, set_presence}
use c_utilities.BootConfiguration.Flags.{is_present-set_presence}
use c_utilities.Wifi.{WlStatus, connect_with_ap}
use c_utilities.TcpControl.Device.{ssid_key, password_key}
use c_utilities.MainProgram.{
  evt_init_udp, evt_init_tcp, evt_device_registration, ap_connect_ack, ap_mode_disconnect,
  connect_with, App, act, raise, configured,
}
use c_utilities.MainProgram.Network.{
  ap_ssid, start_servers, open_ap, store_value, evt_ap_connect, joined, on_eeprom,
}
use c_utilities.MainProgram.Network.{
  init_network_connection, join_saved, forget_network, open_named_ap,
}
use c_utilities.MainProgram.Network.Laws.{
  ssid_key-IsToken, password_key-IsToken, queued, IsReady, with_event, with_events, raise_lem,
  start_servers_lem, with_store, store_value_lem,
}

module _ {S : Type 0} (E : Eeprom S) where
  -- evtApConnect with credentials that can be stored, when the network is joined, stores them, sets the
  -- flag of the network configuration and gLocalNetworkConnected, writes the text of the configurations
  -- and the flag to the EEPROM, and queues the events for the servers and the registration, for a queue with room for three.
  pub evt_ap_connect_joined :
      {held n : ℕ} (status : ℕ → WlStatus × WlStatus × WlStatus) (s p : Bytes) (a : App S)
      (es : List CfgElem) (f : Fifo Event)
      → IsEeprom E
      → connect_with_ap status ≡ done (0, n)
      → Represents a.device.store es
      → IsToken s
      → IsToken p
      → size (insert ssid_key s es) ≤ 500
      → size (insert password_key p (insert ssid_key s es)) ≤ 500
      → IsReady held a.device.events f
      → length f.items + 2 < f.limit
      → (a1 : App S) × (evt_ap_connect E status (some s) (some p) a ≡ done a1)
        × Represents a1.device.store (insert password_key p (insert ssid_key s es))
        × ((x : S) × Written E (insert password_key p (insert ssid_key s es)) x
            × (a1.device.store.eeprom ≡ set_presence E network_config x))
        × ((is_present E network_config a1.device.store.eeprom).0 ≡ 1)
        × (a1.local_network_connected ≡ 1)
        × IsReady held a1.device.events (
            with_event
              (with_event (with_event f evt_init_udp) evt_init_tcp)
              evt_device_registration)
  unfolding evt_ap_connect joined on_eeprom act
  evt_ap_connect_joined status s p a es f laws connected h hs hp l1 l2 ready room =
      let start : App S = record a {
        actions =
            ((a.actions ++ ap_connect_ack ∷ []) ++ ap_mode_disconnect ∷ [])
            ++ connect_with (some s) (some p) ∷ [];
      } in
      let (fw, served, ready1) = start_servers_lem start f ready (omega arith) in
      let flagged : App S = record (with_events start fw) { local_network_connected = 1 } in
      let (c1, run1, h1, w1) = store_value_lem E ssid_key s flagged es h ssid_key-IsToken hs l1 in
      let (c2, run2, h2, w2) =
        store_value_lem E password_key p (with_store flagged c1) (insert ssid_key s es) h1
          password_key-IsToken hp l2 in
      let last : App S = on_eeprom E (set_presence E network_config) (with_store flagged c2) in
      let more = length-append f.items (queued evt_init_udp ∷ []) in
      let more2 = length-append (f.items ++ queued evt_init_udp ∷ []) (queued evt_init_tcp ∷ []) in
      let (fw2, run3, ready2) =
        raise_lem evt_device_registration last (with_event (with_event f evt_init_udp) evt_init_tcp)
          ready1 (omega (arith, more, more2)) in
      let by : ℕ × ℕ → Run (App S) =
        λ r. if r.0 == 1 then open_ap (some ap_ssid) start else joined E (some s) (some p) start in
      let finish : App S → Run (App S) =
        λ x. raise evt_device_registration (on_eeprom E (set_presence E network_config) x) in
      let stored : App S → Run (App S) = λ x.
        store_value E ssid_key (some s) (record x { local_network_connected = 1 })
        >>= store_value E password_key (some p)
        >>= finish in
      (
        with_events last fw2,
        ap (λ m. m >>= by) connected
            ∙ ap (λ m. m >>= stored) served
            ∙ ap (λ m. m >>= store_value E password_key (some p) >>= finish) run1
            ∙ ap (λ m. m >>= finish) run2
            ∙ run3,
        Represents-eeprom h2,
        (c2.eeprom, w2, refl),
        is_present-set_presence E laws network_config c2.eeprom,
        refl,
        ready2,
      )

  -- After evtApConnect has joined a network, getConfiguration gives its credentials.
  pub credentials_kept :
      (s p : Bytes) (es : List CfgElem) (a : App S)
      → Represents a.device.store (insert password_key p (insert ssid_key s es))
      → (configured ssid_key a ≡ done (some s)) × (configured password_key a ≡ done (some p))
  unfolding configured
  credentials_kept s p es a h = (
    get_configuration_lem ssid_key _ a.device.store h
        ∙ ap done (
            lookup-insert_other ssid_key password_key p (insert ssid_key s es) refl
            ∙ lookup-insert ssid_key s es),
    get_configuration_lem password_key _ a.device.store h
        ∙ ap done (lookup-insert password_key p (insert ssid_key s es)),
  )

  -- initNetworkConnection with a saved network that can be joined uses its credentials, sets
  -- gLocalNetworkConnected, keeps the configurations, and queues the events for the servers and the
  -- registration, for a queue with room for three.
  pub init_network_connection_joined :
      {held n : ℕ} (status : ℕ → WlStatus × WlStatus × WlStatus) (s p : Bytes) (a : App S)
      (es : List CfgElem) (f : Fifo Event)
      → connect_with_ap status ≡ done (0, n)
      → Represents a.device.store es
      → (is_present E network_config a.device.store.eeprom).0 ≡ 1
      → lookup ssid_key es ≡ some s
      → lookup password_key es ≡ some p
      → IsReady held a.device.events f
      → length f.items + 2 < f.limit
      → (a1 : App S) × (init_network_connection E status a ≡ done a1)
        × (a1.actions ≡ a.actions ++ connect_with (some s) (some p) ∷ [])
        × (a1.local_network_connected ≡ 1)
        × (a1.device.controller ≡ a.device.controller)
        × (a1.device.store.eeprom ≡ (is_present E network_config a.device.store.eeprom).1)
        × Represents a1.device.store es
        × IsReady held a1.device.events (
            with_event
              (with_event (with_event f evt_init_udp) evt_init_tcp)
              evt_device_registration)
  unfolding init_network_connection join_saved act configured
  init_network_connection_joined status s p a es f connected h present ks kp ready room =
      let a0 : App S = on_eeprom E (λ x. (is_present E network_config a.device.store.eeprom).1) a in
      let kept : Represents a0.device.store es = Represents-eeprom h in
      let start : App S = act (connect_with (some s) (some p)) a0 in
      let (fw, served, ready1) = start_servers_lem start f ready (omega arith) in
      let more = length-append f.items (queued evt_init_udp ∷ []) in
      let more2 = length-append (f.items ++ queued evt_init_udp ∷ []) (queued evt_init_tcp ∷ []) in
      let flagged : App S = record (with_events start fw) { local_network_connected = 1 } in
      let (fw2, run, ready2) =
        raise_lem evt_device_registration flagged
          (with_event (with_event f evt_init_udp) evt_init_tcp) ready1
          (omega (arith, more, more2)) in
      let saved : (is_present E network_config a.device.store.eeprom).0 == 0 ≡ false =
        ground (arith, present) in
      let finish : App S → Run (App S) =
        λ x. raise evt_device_registration (record x { local_network_connected = 1 }) in
      let third : Option Bytes → Option Bytes → ℕ × ℕ → Run (App S) = λ ss pw r.
        let x = act (connect_with ss pw) a0 in
        if r.0 == 1 then forget_network E x else (start_servers x >>= finish) in
      let second : Option Bytes → Option Bytes → Run (App S) =
        λ ss pw. connect_with_ap status >>= third ss pw in
      let first : Option Bytes → Run (App S) = λ ss. configured password_key a0 >>= second ss in
      (
        with_events flagged fw2,
        if_false {b = (is_present E network_config a.device.store.eeprom).0 == 0} (open_named_ap a0)
              (join_saved E status a0) saved
            ∙ ap (λ m. m >>= first)
                (get_configuration_lem ssid_key es a0.device.store kept ∙ ap done ks)
            ∙ ap (λ m. m >>= second (some s))
                (get_configuration_lem password_key es a0.device.store kept ∙ ap done kp)
            ∙ ap (λ m. m >>= third (some s) (some p)) connected
            ∙ ap (λ m. m >>= finish) served
            ∙ run,
        refl,
        refl,
        refl,
        refl,
        kept,
        ready2,
      )
