-- ===== src/MainProgram/SetUp.antt =====
-- esp32MistingController.ino: setup, once the frameworks are initialised.
-- The address of the WiFi interface is an argument: its last two bytes.
pub mod Name
pub mod Resume
pub mod Whole
mod Tests
use c_utilities.Common.{
  ℕ, zero, suc, ◌+◌, ◌-◌, ◌/◌, ◌%◌, Bool, true, false, Option, none, some, List, [], ◌∷◌, ◌++◌, ltb,
  ◌==◌, if◌then◌else◌, Bytes,
}
use c_utilities.Common.Int.{ℤ}
use c_utilities.Common.Run.{Run, done, fault, ◌>>=◌}
use c_utilities.Platform.{Eeprom}
use c_utilities.BootConfiguration.{motor_config}
use c_utilities.Configuration.{initialize_set_up, read_configurations}
use c_utilities.JumpStateMachine.{event_init_bldc, event_end_mist, JumpEvent}
use c_utilities.JumpStateMachine.Init.{init_jump_state_machine}
use c_utilities.Wifi.{WlStatus}
use c_utilities.TcpControl.Device.{device_name_key}
use c_utilities.TcpControl.Device.Commands.{execute_state_machine}
use c_utilities.MainProgram.{App, evt_device_registration, raise, configured}
use c_utilities.MainProgram.Network.{store_value, init_network_connection}
use c_utilities.MainProgram.Status.{part_present, check_device_last_state}

-- A hexadecimal digit of String(x, 16).
pub hex_digit : ℕ → ℕ
hex_digit n = if ltb n 10 then b'0' + n else b'a' + (n - 10)

-- String(x, 16) of a byte, which writes no leading zero
pub hex : ℕ → Bytes
hex x = if ltb x 16 then hex_digit x ∷ [] else hex_digit (x / 16) ∷ hex_digit (x % 16) ∷ []

-- macToStr, of the last two bytes
pub mac_to_str : ℕ → ℕ → Bytes
unfolding hex hex_digit
mac_to_str m4 m5 = hex m4 ++ hex m5

-- "MistController", and deviceName as saveDeviceName leaves it
abbrev pub mist_controller : Bytes
mist_controller =
    b'M' ∷ b'i' ∷ b's' ∷ b't' ∷ b'C' ∷ b'o' ∷ b'n' ∷ b't' ∷ b'r' ∷ b'o' ∷ b'l' ∷ b'l' ∷ b'e' ∷ b'r'
    ∷ []

unfoldable pub save_device_name : ℕ → ℕ → Bytes
unfolding mac_to_str hex hex_digit
save_device_name m4 m5 = mist_controller ++ mac_to_str m4 m5

module _ {S : Type 0} (E : Eeprom S) where
  -- setDeviceNameEEPROM
  pub set_device_name_eeprom : ℕ → ℕ → App S → Run (App S)
  unfolding save_device_name
  set_device_name_eeprom m4 m5 a = configured device_name_key a >>= λ o. elim o [
    | none ↦ store_value E device_name_key (some (save_device_name m4 m5)) a
    | some name ↦ done a
  ]

module _ {S : Type 0} (E : Eeprom S) (scaled atoi : Bytes → ℤ) where
  -- executeStateMachine
  pub run_machine : JumpEvent → App S → Run (App S)
  run_machine e a =
      execute_state_machine scaled atoi e a.device >>= λ d. done (record a { device = d })

  -- The part of setup behind initJumpStateMachine, before the registration.
  pub resume_machine : App S → Run (App S)
  unfolding run_machine
  resume_machine a =
      let r = part_present E motor_config a in
      if r.0 == 0
      then done r.1
      else (check_device_last_state atoi r.1 >>= λ state.
          run_machine (if state == 1 then event_init_bldc else event_end_mist) r.1)

  -- The part of setup from initJumpStateMachine on, before the registration.
  pub start_machine : App S → Run (App S)
  unfolding resume_machine
  start_machine a = init_jump_state_machine true a.device.controller >>= λ c.
      resume_machine (record a { device = record a.device { controller = c } })

  -- setup from initializeSetUp on, up to initNetworkConnection. The flag is the allocation of the array of configurations.
  pub boot : Bool → ℕ → ℕ → (ℕ → WlStatus × WlStatus × WlStatus) → App S → Run (App S)
  unfolding set_device_name_eeprom
  boot got m4 m5 status a = initialize_set_up E got a.device.store >>= λ r.
      set_device_name_eeprom E m4 m5 (record a { device = record a.device { store = r.1 } })
      >>= λ a1. read_configurations a1.device.store >>= λ x. init_network_connection E status a1

  -- setup from initializeSetUp on
  pub set_up : Bool → ℕ → ℕ → (ℕ → WlStatus × WlStatus × WlStatus) → App S → Run (App S)
  unfolding boot start_machine
  set_up got m4 m5 status a =
      boot got m4 m5 status a >>= start_machine >>= raise evt_device_registration
