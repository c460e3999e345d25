-- ===== src/Configuration/Laws.antt =====
-- The interface on a store that represents a list of keys and values.
use c_utilities.Common.{zero, ◌≡◌, ap, true, some, List, ◌≤◌, Bytes}
use c_utilities.Common.Int.{ℤ, pos, negsuc}
use c_utilities.Common.Run.{Run, done, ◌>>=◌}
use c_utilities.Platform.{Eeprom}
use c_utilities.PlatformConfig.{CfgElem, PlatformConfig, failed}
use c_utilities.PlatformConfig.Text.{size, IsToken}
use c_utilities.PlatformConfig.Store.Represents.{
  lookup, insert, Represents, get_config_lem, read_config_lem,
}
use c_utilities.PlatformConfig.Store.Steps.{Written}
use c_utilities.PlatformConfig.Store.Refines.{set_config_fits}
use c_utilities.PlatformConfig.Store.{init_set_up}
use c_utilities.Configuration.{
  get_configuration, read_configurations, set_configuration, status_of_result, initialize_set_up,
}

module _ {S : Type 0} where
  pub get_configuration_lem :
      (k : Bytes) (es : List CfgElem) (c : PlatformConfig S)
      → Represents c es
      → get_configuration k c ≡ done (lookup k es)
  unfolding get_configuration
  get_configuration_lem k es c h = get_config_lem k es c h

  pub read_configurations_lem :
      (es : List CfgElem) (c : PlatformConfig S) (h : Represents c es)
      → read_configurations c ≡ done (pos 0, h.prepared.buffer)
  unfolding read_configurations
  read_configurations_lem es c h = ap (λ m. m >>= λ b. done (pos 0, b)) (read_config_lem es c h)

module _ {S : Type 0} (E : Eeprom S) where
  -- A value that fits is set.
  pub set_configuration_fits :
      (k v : Bytes) (es : List CfgElem) (c : PlatformConfig S)
      → Represents c es
      → IsToken k
      → IsToken v
      → size (insert k v es) ≤ 500
      → (c1 : PlatformConfig S) × (set_configuration E true k (some v) c ≡ done (pos 0, c1))
        × Represents c1 (insert k v es)
        × Written E (insert k v es) c1.eeprom
  unfolding set_configuration status_of_result
  set_configuration_fits k v es c h hk hv l =
      let (c1, t, run, r, e, n) = set_config_fits E k v es c h hk hv l in
      (c1, ap (λ m. m >>= λ r. done (status_of_result r.0, r.1)) run, r, (t, c.eeprom, e, n))

  -- initializeSetUp passes the result on.
  pub initialize_set_up_lem :
      (c c1 : PlatformConfig S)
      → init_set_up E true c ≡ done (pos 0, c1)
      → initialize_set_up E true c ≡ done (pos 0, c1)
  unfolding initialize_set_up
  initialize_set_up_lem c c1 run = ap (λ m. m >>= passed_on) run
    where
      passed_on : ℤ × PlatformConfig S → Run (ℤ × PlatformConfig S)
      passed_on r = elim r.0 [ negsuc zero ↦ done (failed, r.1) | _ ↦ done (pos 0, r.1) ]
