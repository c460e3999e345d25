-- ===== src/MainProgram/SetUp/Tests.antt =====
-- setup on an EEPROM that was in use.
use c_utilities.Common.{
  ℕ, ◌≡◌, ◌≤◌, List, sym, subst, refl, true, false, some, [], ◌∷◌, ◌++◌, arith,
}
use c_utilities.Common.Run.{done}
use c_utilities.Platform.Tests.{memory, memory-IsEeprom, erased}
use c_utilities.BootConfiguration.{Part, network_config, motor_config, is_present}
use c_utilities.PlatformConfig.{PlatformConfig}
use c_utilities.PlatformConfig.Store.Restart.{power_on}
use c_utilities.PlatformConfig.Text.{IsToken-is_token}
use c_utilities.PlatformConfig.Store.Represents.{insert, Represents}
use c_utilities.JumpStateMachine.Tests.{dark}
use c_utilities.TcpControl.Device.{ssid_key, password_key}
use c_utilities.TcpControl.Device.Commands.Runnable.{IsRunnable}
use c_utilities.TcpControl.Device.Commands.Tests.{entries, store, store-Represents}
use c_utilities.MainProgram.{connect_with, App}
use c_utilities.MainProgram.Network.Laws.{IsReady, with_store}
use c_utilities.MainProgram.Network.Joined.{evt_ap_connect_joined}
use c_utilities.MainProgram.SetUp.{boot, resume_machine}
use c_utilities.MainProgram.SetUp.Name.{device_name_key-IsToken}
use c_utilities.MainProgram.SetUp.Whole.{with_network, boot_lem}
use c_utilities.JumpStateMachine.Tests.{dark, resting, resting-IsConsistent}
use c_utilities.TcpControl.Device.Commands.Tests.{there}
use c_utilities.MainProgram.Tests.{
  app, empty, listening-IsReady, at_once, at_once_connected, home, secret, atoi,
}
use c_utilities.PlatformConfig.Text.{size, AllTokens}
use c_utilities.PlatformConfig.Store.Restart.{Stored, Written-Stored, Stored-set_presence}
use c_utilities.PlatformConfig.{CfgElem}
use c_utilities.Configuration.Laws.{set_configuration_fits}
use c_utilities.TcpControl.Device.{device_name_key}
use c_utilities.MainProgram.SetUp.Resume.{resumed, resume_machine_lem}

abbrev named_entries : List CfgElem
named_entries = insert device_name_key home entries

named_store : (c : PlatformConfig (ℕ → ℕ)) × Represents c named_entries
named_store =
    let (c, run, r, w) =
      set_configuration_fits memory device_name_key home entries (store erased)
        (store-Represents erased) device_name_key-IsToken (IsToken-is_token home refl)
        (omega arith) in
    (c, r)

abbrev used : List CfgElem
used = insert password_key secret (insert ssid_key home named_entries)

-- The EEPROM after a name is stored and a network is joined.
in_use :
    (m : ℕ → ℕ) × AllTokens used
    × (size used ≤ 500)
    × Stored memory used m
    × ((is_present memory network_config m).0 ≡ 1)
in_use =
    let (c, h) = named_store in
    let (a1, run, h1, (x, written, flagged), flag, joined, queue) =
      evt_ap_connect_joined memory at_once home secret (with_store (app dark erased) c)
        named_entries empty memory-IsEeprom at_once_connected h (IsToken-is_token home refl)
        (IsToken-is_token secret refl) (omega arith) (omega arith) listening-IsReady
        (omega arith) in
    let tokens = (h1.prepared).tokens in
    (
      a1.device.store.eeprom,
      tokens,
      omega arith,
      subst (Stored memory used) (sym flagged) (
          Stored-set_presence memory memory-IsEeprom network_config used x
            (Written-Stored memory memory-IsEeprom used x tokens (omega arith) written)),
      flag,
    )

boot_lem_example :
    (a1 : App (ℕ → ℕ)) × (boot memory atoi atoi true 1 2 at_once
        (with_store (app dark erased) (power_on memory in_use.0))
      ≡ done a1)
    × Represents a1.device.store used
    × ((q : Part)
        → (is_present memory q a1.device.store.eeprom).0 ≡ (is_present memory q in_use.0).0)
    × (a1.actions ≡ [] ++ connect_with (some home) (some secret) ∷ [])
    × (a1.local_network_connected ≡ 1)
    × (a1.device.controller ≡ dark)
    × IsReady 0 a1.device.events (with_network empty)
boot_lem_example =
    boot_lem memory atoi atoi 1 2 at_once home secret home (app dark erased) used empty in_use.0
      memory-IsEeprom at_once_connected in_use.1 in_use.2 in_use.3 in_use.4 refl refl refl
      listening-IsReady (omega arith)

resume_machine_lem_example :
    (a1 : App (ℕ → ℕ)) × (resume_machine memory atoi atoi (app resting erased) ≡ done a1)
    × IsRunnable atoi a1.device entries
    × (a1.device.controller.current_state ≡ resumed (is_present memory motor_config erased).0 false)
    × (a1 ≡ record (app resting erased) {
      device = record (app resting erased).device {
        controller = a1.device.controller;
        store = record (store erased) { eeprom = (is_present memory motor_config erased).1 };
      };
    })
resume_machine_lem_example =
    resume_machine_lem memory atoi atoi (app resting erased) entries (b'1' ∷ [])
      (record {
        kept = store-Represents erased;
        consistent = resting-IsConsistent;
        configured = there atoi refl;
      })
      refl refl
