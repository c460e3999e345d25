-- ===== src/PlatformConfig.antt =====
-- esp32MistingController/platformConfig.ino: a store of keys and values, kept as the text
-- "key:value\0key:value\0\0" in a buffer of 500 bytes and in the EEPROM.
-- A pointer into the buffer is an offset. The strtok calls take the address of the character ':' for
-- a string; the character declared behind it is '\0', and the model relies on that layout. Memory
-- for strings (strdup) is taken to be given; a failed malloc or realloc is an argument,
-- and realloc to 0 bytes answers NULL.
pub mod Store
pub mod Text
pub mod Load
mod Tests
use c_utilities.Common.{
  ℕ, zero, suc, ◌+◌, ◌-◌, Bool, true, false, ◌&&◌, ◌||◌, Option, none, some, List, [], ◌∷◌, ◌++◌,
  ltb, leb, ◌==◌, if◌then◌else◌, length, get_elem?, set, take, replicate, Bytes, same, drop, strlen,
  write_at,
}
use c_utilities.Common.Int.{ℤ, pos, negsuc}
use c_utilities.Common.Strtok
use c_utilities.Common.Run.{Run, done, fault, out_of_fuel, ◌>>=◌}
use c_utilities.Platform.{
  Eeprom, get_persistent_bytes, set_persistent_bytes, set_persistent_bytes_with_data_byte,
}

-- gEpCfgStart, gEpCfgLength, gEpKeyValueSeparator, gEpKeyValueTerminator
abbrev pub ep_cfg_start : ℕ
ep_cfg_start = 13

abbrev pub ep_cfg_length : ℕ
ep_cfg_length = 500

abbrev pub separator : ℕ
separator = 58

abbrev pub terminator : ℕ
terminator = 0

-- CfgElem_t, with both strings
pub record CfgElem : Type 0 where
  pub key : Bytes
  pub value : Bytes

-- The static variables. The entries of gCfg are `none` while both their pointers are NULL.
pub record PlatformConfig (S : Type 0) : Type 0 where
  pub ep_cfg : Option Bytes
  pub curr_ptr : Option ℕ
  pub cfg : Option (List (Option CfgElem))
  pub set_up_init : Bool
  pub config_count : ℕ
  pub config_bytes : ℕ
  pub eeprom : S

abbrev pub failed : ℤ
failed = negsuc 0

-- strtok with &gEpKeyValueSeparator
pub strtok : ℕ → Bytes → Run (Option Bytes × ℕ × Bytes)
unfolding Strtok.strtok
strtok p buffer = Strtok.strtok (separator ∷ []) p buffer

module _ {S : Type 0} where
  -- epCfgResetKeyValuePtr
  pub reset_key_value_ptr : PlatformConfig S → PlatformConfig S
  reset_key_value_ptr c = record c { curr_ptr = elim c.ep_cfg [ none ↦ none | some b ↦ some 0 ] }

  -- epCfgGetNextKeyValuePair at offset `p` of the buffer, of which `rest` is left
  pub next_at : ℕ → Bytes → PlatformConfig S → Run (Option ℕ × PlatformConfig S)
  next_at p [] c = fault
  next_at p (x ∷ rest) c =
      if x == 0 then done (none, record c { config_bytes = p + 1 }) else elim (strlen rest) [
        | none ↦ fault
        | some n ↦ done (some p, record c { curr_ptr = some (p + suc n + 1) })
      ]

  pub get_next_key_value_pair : PlatformConfig S → Run (Option ℕ × PlatformConfig S)
  unfolding next_at
  get_next_key_value_pair c = elim c.curr_ptr [
    | none ↦ done (none, c)
    | some p ↦ elim c.ep_cfg [ none ↦ fault | some b ↦ next_at p (drop p b) c ]
  ]

  -- The loop of epCfgCountKeyValuePair, for at most `fuel` rounds.
  pub count_from : ℕ → ℕ → PlatformConfig S → Run (ℕ × PlatformConfig S)
  count_from zero count c = out_of_fuel
  count_from (suc fuel) count c = get_next_key_value_pair c >>= λ r. elim r.0 [
    | none ↦ done (count, r.1)
    | some p ↦ count_from fuel (count + 1) r.1
  ]

  -- epCfgCountKeyValuePair. Every round moves on by a byte at least.
  pub count_key_value_pair : PlatformConfig S → Run (ℕ × PlatformConfig S)
  unfolding count_from reset_key_value_ptr
  count_key_value_pair c = count_from (suc ep_cfg_length) 0 (reset_key_value_ptr c) >>= λ r.
      done (r.0, record r.1 { config_count = r.0 })

  -- initCfg. The flag is the allocation.
  pub init_cfg : Bool → PlatformConfig S → Run (ℤ × PlatformConfig S)
  unfolding count_key_value_pair
  init_cfg got c = count_key_value_pair c >>= λ r.
      if r.0 == 0
      then done (pos 1, r.1)
      else if got
      then done (pos 0, record r.1 { cfg = some (replicate r.0 none) })
      else done (failed, record r.1 { cfg = none })

  -- cfgAdd: the array is written at `index`
  pub cfg_add : ℕ → Option Bytes → Option Bytes → PlatformConfig S → Run (ℤ × PlatformConfig S)
  cfg_add index k v c = elim c.cfg [
    | none ↦ done (failed, c)
    | some xs ↦ elim k [
      | none ↦ fault
      | some k ↦ elim v [
        | none ↦ fault
        | some v ↦
            if ltb index (length xs)
            then done (
              pos 0,
              record c { cfg = some (set xs index (some (record { key = k; value = v }))) },
            )
            else fault
      ]
    ]
  ]

  -- A round of loadCfg for the pair at offset `p`.
  pub load_pair : ℕ → ℕ → PlatformConfig S → Run (ℤ × PlatformConfig S)
  unfolding strtok cfg_add
  load_pair cfg_count p c = elim c.ep_cfg [
    | none ↦ fault
    | some b ↦ strtok p b >>= λ k.
        strtok k.1 k.2 >>= λ v. cfg_add cfg_count k.0 v.0 (record c { ep_cfg = some v.2 })
  ]

  -- The loop of loadCfg, for at most `fuel` rounds.
  pub load_from : ℕ → ℕ → PlatformConfig S → Run (ℤ × PlatformConfig S)
  unfolding load_pair
  load_from zero cfg_count c = out_of_fuel
  load_from (suc fuel) cfg_count c = get_next_key_value_pair c >>= λ r. elim r.0 [
    | none ↦ done (pos 0, r.1)
    | some p ↦ load_pair cfg_count p r.1 >>= λ q. elim q.0 [
      | pos zero ↦ load_from fuel (cfg_count + 1) q.1
      | _ ↦ done (failed, q.1)
    ]
  ]

  -- loadCfg
  pub load_cfg : Bool → PlatformConfig S → Run (ℤ × PlatformConfig S)
  unfolding init_cfg load_from
  load_cfg got c = init_cfg got c >>= λ r. elim r.0 [
    | pos zero ↦ load_from (suc ep_cfg_length) 0 (reset_key_value_ptr r.1)
    | e ↦ done (e, r.1)
  ]
