-- ===== src/Configuration.antt =====
-- esp32MistingController/configuration.ino: the interface of the key and value store.
pub mod Laws
use c_utilities.Common.{ℕ, zero, suc, Bool, Option, none, some, if◌then◌else◌, Bytes}
use c_utilities.Common.Int.{ℤ, pos, negsuc, is_zero}
use c_utilities.Common.Run.{Run, done, fault, ◌>>=◌}
use c_utilities.Platform.{Eeprom}
use c_utilities.PlatformConfig.{PlatformConfig, failed}
use c_utilities.PlatformConfig.Store.{
  set_config, get_config, del_config, flush_config, read_config, init_set_up,
}

-- `if(f()) return -1; return 0;`
pub status_of_result : ℤ → ℤ
status_of_result z = if is_zero z then pos 0 else failed

module _ {S : Type 0} where
  -- getConfiguration
  pub get_configuration : Bytes → PlatformConfig S → Run (Option Bytes)
  get_configuration key c = get_config key c

  -- readConfigurations: the result, and the bytes at `configData`
  pub read_configurations : PlatformConfig S → Run (ℤ × Bytes)
  read_configurations c = read_config c >>= λ b. done (pos 0, b)

module _ {S : Type 0} (E : Eeprom S) where
  -- setConfiguration. A value that is NULL is read only by a store that is set up.
  pub set_configuration :
      Bool → Bytes → Option Bytes → PlatformConfig S → Run (ℤ × PlatformConfig S)
  unfolding status_of_result
  set_configuration got key none c = if c.set_up_init then fault else done (failed, c)
  set_configuration got key (some v) c =
      set_config E got key v c >>= λ r. done (status_of_result r.0, r.1)

  -- delConfiguration
  pub del_configuration : Bytes → PlatformConfig S → Run (ℤ × PlatformConfig S)
  unfolding status_of_result
  del_configuration key c = del_config E key c >>= λ r. done (status_of_result r.0, r.1)

  -- resetConfigurations
  pub reset_configurations : PlatformConfig S → ℤ × PlatformConfig S
  reset_configurations c = (pos 0, flush_config E c)

  -- initializeSetUp
  pub initialize_set_up : Bool → PlatformConfig S → Run (ℤ × PlatformConfig S)
  initialize_set_up got c = init_set_up E got c >>= λ r. elim r.0 [
    | negsuc zero ↦ done (failed, r.1)
    | _ ↦ done (pos 0, r.1)
  ]
