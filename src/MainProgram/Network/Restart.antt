-- ===== src/MainProgram/Network/Restart.antt =====
-- A network that was joined is joined again after a restart.
use c_utilities.Common.{
  ℕ, ◌+◌, ◌≤◌, ◌<◌, ◌≡◌, refl, ap, sym, subst, ◌∙◌, true, some, List, [], ◌∷◌, ◌++◌, length, Bytes,
  arith,
}
use c_utilities.Common.Int.{pos}
use c_utilities.Common.Run.{done}
use c_utilities.StaticQueue.Fifo.{Fifo}
use c_utilities.EventFw.{Event}
use c_utilities.Platform.{Eeprom, IsEeprom}
use c_utilities.PlatformConfig.{CfgElem, PlatformConfig}
use c_utilities.PlatformConfig.Text.{size, IsToken, AllTokens}
use c_utilities.PlatformConfig.Store.Represents.{lookup, insert, Represents}
use c_utilities.PlatformConfig.Store.Refines.{lookup-insert, lookup-insert_other}
use c_utilities.PlatformConfig.Store.Restart.{
  power_on, Stored, Written-Stored, Stored-set_presence, init_set_up_lem,
}
use c_utilities.Configuration.{initialize_set_up}
use c_utilities.Configuration.Laws.{initialize_set_up_lem}
use c_utilities.BootConfiguration.{Part, network_config, is_present}
use c_utilities.BootConfiguration.Flags.{is_present-get_bytes}
use c_utilities.Wifi.{WlStatus, connect_with_ap}
use c_utilities.TcpControl.Device.{ssid_key, password_key}
use c_utilities.MainProgram.{connect_with, App}
use c_utilities.MainProgram.Network.{evt_ap_connect, init_network_connection}
use c_utilities.MainProgram.Network.Laws.{IsReady, with_store}
use c_utilities.MainProgram.Network.Joined.{evt_ap_connect_joined, init_network_connection_joined}

module _ {S : Type 0} (E : Eeprom S) (laws : IsEeprom E) where
  -- initializeSetUp where the EEPROM holds a text keeps the flags.
  pub initialize_set_up-Stored :
      (es : List CfgElem) (s : S)
      → AllTokens es
      → size es ≤ 500
      → Stored E es s
      → (c : PlatformConfig S) × (initialize_set_up E true (power_on E s) ≡ done (pos 0, c))
        × Represents c es
        × ((p : Part) → (is_present E p c.eeprom).0 ≡ (is_present E p s).0)
  initialize_set_up-Stored es s h l there =
      let (c, run, r, kept) = init_set_up_lem E es s h l there in
      (
        c,
        initialize_set_up_lem E (power_on E s) c run,
        r,
        λ p. ap (λ t. (is_present E p t).0) kept ∙ is_present-get_bytes E laws p 13 500 s,
      )

  -- Let evtApConnect join a network, with credentials that can be stored and whose text leaves the last of
  -- the 500 bytes alone, and with an event queue with room for three, and let the device be switched off
  -- and on. Then initializeSetUp, given memory, reads the configurations back, and initNetworkConnection
  -- on any state with them, with an event queue with room for three and a network that can be joined,
  -- joins it with the same credentials and sets gLocalNetworkConnected.
  pub evt_ap_connect_restart :
      {held held1 n n1 : ℕ} (status status1 : ℕ → WlStatus × WlStatus × WlStatus) (s p : Bytes)
      (a b : App S) (es : List CfgElem) (f g : Fifo Event)
      → connect_with_ap status ≡ done (0, n)
      → connect_with_ap status1 ≡ done (0, n1)
      → Represents a.device.store es
      → IsToken s
      → IsToken p
      → size (insert ssid_key s es) ≤ 500
      → size (insert password_key p (insert ssid_key s es)) < 500
      → IsReady held a.device.events f
      → length f.items + 2 < f.limit
      → IsReady held1 b.device.events g
      → length g.items + 2 < g.limit
      → (a1 b1 : App S) × (c : PlatformConfig S) × (evt_ap_connect E status (some s) (some p) a
          ≡ done a1)
        × (initialize_set_up E true (power_on E a1.device.store.eeprom) ≡ done (pos 0, c))
        × (init_network_connection E status1 (with_store b c) ≡ done b1)
        × (b1.actions ≡ b.actions ++ connect_with (some s) (some p) ∷ [])
        × (b1.local_network_connected ≡ 1)
        × Represents b1.device.store (insert password_key p (insert ssid_key s es))
  evt_ap_connect_restart status status1 s p a b es f g up up1 h hs hp l1 l2 ready room ready1
        room1 =
      let new = insert password_key p (insert ssid_key s es) in
      let (a1, run, h1, (x, written, flagged), flag, connected, queue) =
        evt_ap_connect_joined E status s p a es f laws up h hs hp l1 (omega arith) ready room in
      let stored : Stored E new a1.device.store.eeprom = subst (Stored E new) (sym flagged) (
        Stored-set_presence E laws network_config new x
          (Written-Stored E laws new x (h1.prepared).tokens l2 written)) in
      let (c, up2, h2, flags) =
        initialize_set_up-Stored new a1.device.store.eeprom (h1.prepared).tokens h1.fits stored in
      let ks : lookup ssid_key new ≡ some s =
        lookup-insert_other ssid_key password_key p (insert ssid_key s es) refl
        ∙ lookup-insert ssid_key s es in
      let kp : lookup password_key new ≡ some p =
        lookup-insert password_key p (insert ssid_key s es) in
      let (b1, run1, acts, joined, control, left, h3, queue1) =
        init_network_connection_joined E status1 s p (with_store b c) new g up1 h2
          (flags network_config ∙ flag) ks kp ready1 room1 in
      (a1, b1, c, run, up2, run1, acts, joined, h3)
