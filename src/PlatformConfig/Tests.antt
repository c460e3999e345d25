-- ===== src/PlatformConfig/Tests.antt =====
-- A store of one configuration, changed and read back, and the theorems at it.
use c_utilities.Common.{
  ℕ, ◌<◌, ◌≡◌, ◌≢◌, refl, true, false, some, none, [], ◌∷◌, replicate, length-replicate, Bytes,
  arith, same,
}
use c_utilities.Common.Int.{pos}
use c_utilities.Common.Run.{done, fault}
use c_utilities.Platform.Tests.{memory, memory-IsEeprom, erased}
use c_utilities.PlatformConfig.{CfgElem, PlatformConfig, strtok, failed}
use c_utilities.PlatformConfig.Text.{IsToken}
use c_utilities.PlatformConfig.Store.{set_config, get_config, del_config, init_set_up}
use c_utilities.PlatformConfig.Store.Represents.{insert, Represents}
use c_utilities.PlatformConfig.Store.Refines.{put_config, set_config_refines, get_config-set_config}
use c_utilities.PlatformConfig.Store.Delete.{del_config_last}
use c_utilities.PlatformConfig.Store.Restart.{power_on, init_set_up-set_config}

abbrev state_off : CfgElem
state_off = record { key = 100 ∷ 83 ∷ []; value = 48 ∷ [] }

-- The store that holds "dS:0".
abbrev store : PlatformConfig (ℕ → ℕ)
store = record {
  ep_cfg = some (replicate 500 0);
  curr_ptr = some 0;
  cfg = some (some state_off ∷ []);
  set_up_init = true;
  config_count = 1;
  config_bytes = 6;
  eeprom = erased;
}

IsToken-single : (x : ℕ) → x ≢ 0 → x ≢ 58 → x < 256 → IsToken (x ∷ [])
IsToken-single x p q r = record { plain = (p, q, r, tt); nonempty = λ e. cc }

one : IsToken (49 ∷ [])
one =
    IsToken-single 49 (λ e. absurd (omega (arith, e))) (λ e. absurd (omega (arith, e)))
      (omega arith)

state_key : IsToken (100 ∷ 83 ∷ [])
state_key = record {
  plain = (
    λ e. absurd (omega (arith, e)),
    λ e. absurd (omega (arith, e)),
    omega arith,
    (λ e. absurd (omega (arith, e)), λ e. absurd (omega (arith, e)), omega arith, tt),
  );
  nonempty = λ e. cc;
}

store-Represents : Represents store (state_off ∷ [])
store-Represents = record {
  prepared = record {
    held = refl;
    counted = refl;
    tokens = (
      state_key,
      IsToken-single 48 (λ e. absurd (omega (arith, e))) (λ e. absurd (omega (arith, e)))
          (omega arith),
      tt,
    );
    buffer = replicate 500 0;
    is_buffer = refl;
    length_buffer = length-replicate {A = ℕ} 500 0;
    ready = refl;
  };
  sized = refl;
  fits = omega arith;
}

-- strtok skips separators before a token, and overwrites the one behind it.
strtok_skips :
    strtok 0 (58 ∷ 97 ∷ 58 ∷ 49 ∷ 0 ∷ []) ≡ done (some (97 ∷ []), 3, 58 ∷ 97 ∷ 0 ∷ 49 ∷ 0 ∷ [])
unfolding strtok
strtok_skips = refl

-- A pair without a value gives no token.
strtok_empty : strtok 2 (97 ∷ 0 ∷ 0 ∷ []) ≡ done (none, 2, 97 ∷ 0 ∷ 0 ∷ [])
unfolding strtok
strtok_empty = refl

set_config_refines_example :
    (c1 : PlatformConfig (ℕ → ℕ)) × (set_config memory true (100 ∷ 83 ∷ []) (49 ∷ []) store
      ≡ done ((put_config (100 ∷ 83 ∷ []) (49 ∷ []) (state_off ∷ [])).0, c1))
    × Represents c1 (put_config (100 ∷ 83 ∷ []) (49 ∷ []) (state_off ∷ [])).1
set_config_refines_example =
    set_config_refines memory (100 ∷ 83 ∷ []) (49 ∷ []) (state_off ∷ []) store store-Represents
      state_key one

get_config-set_config_example :
    (c1 : PlatformConfig (ℕ → ℕ)) × (set_config memory true (49 ∷ []) (49 ∷ []) store
      ≡ done (pos 0, c1))
    × (get_config (49 ∷ []) c1 ≡ done (some (49 ∷ [])))
    × ((j : Bytes) → same j (49 ∷ []) ≡ false → get_config j c1 ≡ get_config j store)
get_config-set_config_example =
    get_config-set_config memory (49 ∷ []) (49 ∷ []) (state_off ∷ []) store store-Represents one one
      (omega arith)

init_set_up-set_config_example :
    (c1 : PlatformConfig (ℕ → ℕ)) × (c2 : PlatformConfig (ℕ → ℕ)) × (set_config memory true
        (100 ∷ 83 ∷ [])
        (49 ∷ [])
        store
      ≡ done (pos 0, c1))
    × (init_set_up memory true (power_on memory c1.eeprom) ≡ done (pos 0, c2))
    × Represents c2 (insert (100 ∷ 83 ∷ []) (49 ∷ []) (state_off ∷ []))
init_set_up-set_config_example =
    init_set_up-set_config memory memory-IsEeprom (100 ∷ 83 ∷ []) (49 ∷ []) (state_off ∷ []) store
      store-Represents state_key one (omega arith)

del_config_last_example :
    (c1 : PlatformConfig (ℕ → ℕ)) × (del_config memory (100 ∷ 83 ∷ []) store ≡ done (failed, c1))
    × ((k : Bytes) → get_config k c1 ≡ fault)
del_config_last_example = del_config_last memory state_off store store-Represents
