-- ===== src/BootConfiguration.antt =====
-- esp32MistingController/bootConfiguration.ino: flags in the first bytes of the EEPROM.
pub mod Flags
use c_utilities.Common.{ℕ, ◌==◌, if◌then◌else◌}
use c_utilities.Platform.{
  Eeprom, get_persistent_byte, set_persistent_byte, set_persistent_bytes_with_data_byte,
}

abbrev pub ep_boot_cfg_start : ℕ
ep_boot_cfg_start = 0

abbrev pub ep_boot_cfg_length : ℕ
ep_boot_cfg_length = 13

-- The three pieces of configuration that have a flag.
pub data Part : Type 0 where
  network_config motor_config device_id : Part

abbrev pub address_of : Part → ℕ
address_of network_config = 1
address_of motor_config = 2
address_of device_id = 3

abbrev pub mark_of : Part → ℕ
mark_of network_config = 0xB5
mark_of motor_config = 0xC5
mark_of device_id = 0xD5

module _ {S : Type 0} (E : Eeprom S) where
  -- isFirstBoot
  pub is_first_boot : S → ℕ × S
  is_first_boot s =
      let r = get_persistent_byte E 0 s in
      if r.0 == 0xA5 then (0, r.1) else (1, set_persistent_byte E 0 0xA5 r.1)

  -- isNetworkConfigPresent, isMotorConfigPresent, isDeviceIdPresent
  pub is_present : Part → S → ℕ × S
  is_present p s =
      let r = get_persistent_byte E (address_of p) s in (if r.0 == mark_of p then 1 else 0, r.1)

  -- setNetworkConfigPresence, setMotorConfigPresence, setDeviceIdPresence
  pub set_presence : Part → S → S
  set_presence p s = set_persistent_byte E (address_of p) (mark_of p) s

  -- clearNetworkConfigPresence, clearMotorConfigPresence, clearDeviceIdPresence
  pub clear_presence : Part → S → S
  clear_presence p s = set_persistent_byte E (address_of p) 0 s

  -- flushBootConfig
  pub flush_boot_config : S → S
  flush_boot_config s =
      set_persistent_bytes_with_data_byte E ep_boot_cfg_start ep_boot_cfg_length 0 s
