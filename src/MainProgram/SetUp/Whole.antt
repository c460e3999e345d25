-- ===== src/MainProgram/SetUp/Whole.antt =====
-- setup on a device that was in use before, up to the state machine.
use c_utilities.Common.{
  ℕ, ◌+◌, ◌≤◌, ◌<◌, ◌≡◌, ap, ◌∙◌, true, some, List, [], ◌∷◌, ◌++◌, length, Bytes,
}
use c_utilities.Common.Int.{ℤ}
use c_utilities.Common.Run.{Run, done, ◌>>=◌}
use c_utilities.StaticQueue.Fifo.{Fifo}
use c_utilities.EventFw.{Event}
use c_utilities.Platform.{Eeprom, IsEeprom}
use c_utilities.BootConfiguration.{Part, network_config, is_present}
use c_utilities.BootConfiguration.Flags.{is_present_again}
use c_utilities.PlatformConfig.{CfgElem}
use c_utilities.PlatformConfig.Text.{size, AllTokens}
use c_utilities.PlatformConfig.Store.Represents.{lookup, Represents}
use c_utilities.PlatformConfig.Store.Restart.{power_on, Stored}
use c_utilities.Configuration.{read_configurations}
use c_utilities.Configuration.Laws.{read_configurations_lem}
use c_utilities.Wifi.{WlStatus, connect_with_ap}
use c_utilities.TcpControl.Device.{device_name_key, ssid_key, password_key}
use c_utilities.MainProgram.{evt_init_udp, evt_init_tcp, evt_device_registration, connect_with, App}
use c_utilities.MainProgram.Network.{init_network_connection}
use c_utilities.MainProgram.Network.Laws.{IsReady, with_event, with_store}
use c_utilities.MainProgram.Network.Joined.{init_network_connection_joined}
use c_utilities.MainProgram.Network.Restart.{initialize_set_up-Stored}
use c_utilities.MainProgram.SetUp.{set_device_name_eeprom, boot}
use c_utilities.MainProgram.SetUp.Name.{set_device_name_eeprom_kept}

-- The queue with the events of a network that is joined.
abbrev pub with_network : Fifo Event → Fifo Event
with_network f =
    with_event (with_event (with_event f evt_init_udp) evt_init_tcp) evt_device_registration

module _ {S : Type 0} (E : Eeprom S) (scaled atoi : Bytes → ℤ) where
  -- setup from initializeSetUp up to initNetworkConnection, given memory, where the EEPROM holds the
  -- text of configurations that have no empty part and no colon, among them a name and the credentials
  -- of a network that can be joined, the flag of the network is set, and the event queue has room for
  -- three: the store stands for the stored configurations, the flags are as
  -- they were, the network is joined with the stored credentials, the controller is untouched, and the
  -- events for the servers and the registration are queued.
  pub boot_lem :
      {held n : ℕ} (m4 m5 : ℕ) (status : ℕ → WlStatus × WlStatus × WlStatus) (s p name : Bytes)
      (a : App S) (es : List CfgElem) (f : Fifo Event) (memory : S)
      → IsEeprom E
      → connect_with_ap status ≡ done (0, n)
      → AllTokens es
      → size es ≤ 500
      → Stored E es memory
      → (is_present E network_config memory).0 ≡ 1
      → lookup ssid_key es ≡ some s
      → lookup password_key es ≡ some p
      → lookup device_name_key es ≡ some name
      → IsReady held a.device.events f
      → length f.items + 2 < f.limit
      → (a1 : App S) × (boot E scaled atoi true m4 m5 status (with_store a (power_on E memory))
          ≡ done a1)
        × Represents a1.device.store es
        × ((q : Part) → (is_present E q a1.device.store.eeprom).0 ≡ (is_present E q memory).0)
        × (a1.actions ≡ a.actions ++ connect_with (some s) (some p) ∷ [])
        × (a1.local_network_connected ≡ 1)
        × (a1.device.controller ≡ a.device.controller)
        × IsReady held a1.device.events (with_network f)
  unfolding boot
  boot_lem m4 m5 status s p name a es f memory laws up tokens fits there flag ks kp kn ready room =
      let (c, run, h, flags) = initialize_set_up-Stored E laws es memory tokens fits there in
      let a0 : App S = with_store a c in
      let (a1, run1, acts, joined, control, left, h1, ready1) =
        init_network_connection_joined E status s p a0 es f up h (flags network_config ∙ flag) ks kp
          ready room in
      let kept : (q : Part)
          → (is_present E q a1.device.store.eeprom).0 ≡ (is_present E q memory).0 =
        λ q.
          ap (λ x. (is_present E q x).0) left
          ∙ is_present_again E laws q network_config c.eeprom
          ∙ flags q in
      let rest : App S → Run (App S) = init_network_connection E status in
      let named : App S → Run (App S) = λ x. read_configurations x.device.store >>= λ r. rest x in
      (
        a1,
        ap (λ m. m >>= λ r. set_device_name_eeprom E m4 m5 (with_store a r.1) >>= named) run
            ∙ ap (λ m. m >>= named) (set_device_name_eeprom_kept E m4 m5 name a0 es h kn)
            ∙ ap (λ m. m >>= λ r. rest a0) (read_configurations_lem es c h)
            ∙ run1,
        h1,
        kept,
        acts,
        joined,
        control,
        ready1,
      )
