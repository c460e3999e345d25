-- ===== src/PlatformConfig/Store.antt =====
-- esp32MistingController/platformConfig.ino: reading and changing the configurations, and the text
-- that is made of them for the EEPROM.
pub mod Represents
pub mod Save
pub mod Array
pub mod Steps
pub mod Refines
pub mod Restart
pub mod Delete
use c_utilities.Common.{
  ℕ, zero, suc, ◌+◌, ◌-◌, Bool, true, false, Option, none, some, List, [], ◌∷◌, ◌++◌, ltb, ◌==◌,
  ◌&&◌, if◌then◌else◌, length, get_elem?, set, take, replicate, Bytes, same, write_at,
}
use c_utilities.Common.Int.{ℤ, pos, negsuc}
use c_utilities.Common.Run.{Run, done, fault, ◌>>=◌}
use c_utilities.Platform.{
  Eeprom, get_persistent_bytes, set_persistent_bytes, set_persistent_bytes_with_data_byte,
}
use c_utilities.PlatformConfig.{
  CfgElem, PlatformConfig, failed, ep_cfg_start, ep_cfg_length, separator, terminator,
  reset_key_value_ptr, cfg_add, load_cfg,
}

-- `gCfg[i]`, whose strings are read
pub elem_at : ℕ → Option (List (Option CfgElem)) → Run CfgElem
elem_at i none = fault
elem_at i (some xs) = elim (get_elem? xs i) [
  | none ↦ fault
  | some none ↦ fault
  | some (some x) ↦ done x
]

-- The loop of findKeyMatchedIndex, with `rounds` entries from `i` on. No match, -1, is `none`.
pub find_from : ℕ → ℕ → Bytes → Option (List (Option CfgElem)) → Run (Option ℕ)
unfolding elem_at
find_from zero i k cfg = done none
find_from (suc rounds) i k cfg =
    elem_at i cfg >>= λ x. if same k x.key then done (some i) else find_from rounds (i + 1) k cfg

-- The loop of createEpCfg, with `rounds` entries from `i` on, and the pointer at offset `p`.
pub create_from : ℕ → ℕ → Option (List (Option CfgElem)) → ℕ → Bytes → Run (ℕ × Bytes)
unfolding elem_at
create_from zero i cfg p buffer = done (p, buffer)
create_from (suc rounds) i cfg p buffer = elem_at i cfg >>= λ x.
    let text = x.key ++ separator ∷ x.value in
    write_at buffer p (text ++ terminator ∷ []) >>= λ b.
    create_from rounds (i + 1) cfg (p + length text + 1) b

-- keyValuePairEpConfigBytes
pub key_value_pair_bytes : Bytes → Bytes → ℕ
key_value_pair_bytes k v = length k + length v + 2

module _ {S : Type 0} where
  -- findKeyMatchedIndex
  pub find_key_matched_index : Bytes → PlatformConfig S → Run (Option ℕ)
  unfolding find_from
  find_key_matched_index k c = find_from c.config_count 0 k c.cfg

  -- getConfig, with getCfgKeyValue
  pub get_config : Bytes → PlatformConfig S → Run (Option Bytes)
  unfolding find_key_matched_index
  get_config k c =
      if c.set_up_init
      then (find_key_matched_index k c >>= λ m. elim m [
        | none ↦ done none
        | some i ↦ elem_at i c.cfg >>= λ x. done (some x.value)
      ])
      else done none

  -- getKeyValue: the string at `getValue`
  pub get_key_value : ℕ → PlatformConfig S → Run Bytes
  get_key_value index c = elem_at index c.cfg >>= λ x. done x.value

  -- isKeyPresent: the result, and the string at `getValue`
  pub is_key_present : Bytes → PlatformConfig S → Run (ℤ × Bytes)
  unfolding find_key_matched_index
  is_key_present k c = find_key_matched_index k c >>= λ m. elim m [
    | none ↦ done (failed, [])
    | some i ↦ elem_at i c.cfg >>= λ x. done (pos 0, x.value)
  ]

  -- createEpCfg
  pub create_ep_cfg : PlatformConfig S → Run (PlatformConfig S)
  unfolding create_from reset_key_value_ptr
  create_ep_cfg c = elim c.ep_cfg [
    | none ↦ fault
    | some b ↦ create_from c.config_count 0 c.cfg 0 b >>= λ r.
        write_at r.1 r.0 (terminator ∷ []) >>= λ b1.
        done (record c { ep_cfg = some b1; curr_ptr = some 0; config_bytes = r.0 + 1 })
  ]

  -- allocMemForNewConfig. The flag is the allocation, whose result is written before it is tested.
  pub alloc_mem_for_new_config : Bool → PlatformConfig S → Run (PlatformConfig S)
  alloc_mem_for_new_config false c = fault
  alloc_mem_for_new_config true c = elim c.cfg [
    | none ↦ done (record c { cfg = some (none ∷ []) })
    | some xs ↦ done (record c { cfg = some (take c.config_count xs ++ none ∷ []) })
  ]

  -- addConfig
  pub add_config : Bool → Bytes → Bytes → PlatformConfig S → Run (ℤ × PlatformConfig S)
  unfolding alloc_mem_for_new_config
  add_config got k v c = alloc_mem_for_new_config got c >>= λ c1.
      cfg_add c1.config_count (some k) (some v) c1 >>= λ r. elim r.0 [
        | pos zero ↦ done (pos 0, record r.1 { config_count = r.1.config_count + 1 })
        | _ ↦ done (failed, r.1)
      ]

  -- cfgUpdate
  pub cfg_update : ℕ → Bytes → PlatformConfig S → Run (PlatformConfig S)
  cfg_update index v c = elem_at index c.cfg >>= λ x. elim c.cfg [
    | none ↦ fault
    | some xs ↦ done (record c { cfg = some (set xs index (some (record x { value = v }))) })
  ]

  -- updateConfig, which answers 0 in each case
  pub update_config : ℕ → Bytes → PlatformConfig S → Run (PlatformConfig S)
  unfolding cfg_update
  update_config index v c = elem_at index c.cfg >>= λ x.
      if same x.value v
      then done c
      else if ltb (length x.value) (length v)
          && ltb ep_cfg_length (c.config_bytes + (length v - length x.value))
      then done c
      else cfg_update index v c

  -- cfgAdd as cfgShift calls it: entry `i + 1` is copied to entry `i`
  pub shift_from : ℕ → ℕ → PlatformConfig S → Run (PlatformConfig S)
  shift_from zero i c = done c
  shift_from (suc rounds) i c = elem_at (i + 1) c.cfg >>= λ x.
      cfg_add i (some x.key) (some x.value) c >>= λ r. shift_from rounds (i + 1) r.1

  -- deallocateConfigElement of the last entry. realloc to no bytes gives the memory back
  -- and answers NULL, as heap_caps_realloc of the ESP32 does.
  pub deallocate_config_element : PlatformConfig S → ℤ × PlatformConfig S
  deallocate_config_element c = elim (c.config_count - 1) [
    | zero ↦ (failed, record c { cfg = none })
    | suc n ↦
        (pos 0, record c { cfg = elim c.cfg [ none ↦ none | some xs ↦ some (take (suc n) xs) ] })
  ]

  -- cfgShift
  pub cfg_shift : ℕ → PlatformConfig S → Run (ℤ × PlatformConfig S)
  unfolding shift_from deallocate_config_element
  cfg_shift index c = elim (c.config_count - index - 1) [
    | zero ↦ elem_at index c.cfg >>= λ x. done (deallocate_config_element c)
    | suc n ↦ shift_from (suc n) index c >>= λ c1. done (pos 0, (deallocate_config_element c1).1)
  ]

  -- flushEpCfg
  pub flush_ep_cfg : PlatformConfig S → Run (PlatformConfig S)
  flush_ep_cfg c = elim c.ep_cfg [
    | none ↦ fault
    | some b ↦ done (record c { ep_cfg = some (replicate ep_cfg_length terminator) })
  ]

  -- readConfig: the bytes put at `configData`
  pub read_config : PlatformConfig S → Run Bytes
  read_config c = elim c.ep_cfg [ none ↦ fault | some b ↦ done b ]

module _ {S : Type 0} (E : Eeprom S) where
  -- readEpCfg. The flag is the allocation.
  pub read_ep_cfg : Bool → PlatformConfig S → ℤ × PlatformConfig S
  read_ep_cfg got c =
      let read = get_persistent_bytes E ep_cfg_start ep_cfg_length c.eeprom in
      let filled = record c { ep_cfg = some read.0; eeprom = read.1 } in
      elim c.ep_cfg [
        | none ↦ if got then (pos 0, filled) else (failed, c)
        | some b ↦ (pos 0, filled)
      ]

  -- initSetUp
  pub init_set_up : Bool → PlatformConfig S → Run (ℤ × PlatformConfig S)
  unfolding read_ep_cfg
  init_set_up got c =
      let (e, c1) = read_ep_cfg got c in
      elim e [
        | pos zero ↦ load_cfg got c1 >>= λ r. elim r.0 [
          | negsuc zero ↦ done (failed, r.1)
          | _ ↦ done (pos 0, record r.1 { set_up_init = true })
        ]
        | _ ↦ done (failed, c1)
      ]

  -- writeEpCfg
  pub write_ep_cfg : PlatformConfig S → Run (ℤ × PlatformConfig S)
  write_ep_cfg c = elim c.ep_cfg [
    | none ↦ done (failed, c)
    | some b ↦ set_persistent_bytes E ep_cfg_start b ep_cfg_length c.eeprom >>= λ s.
        done (pos 0, record c { eeprom = s })
  ]

  -- The text made anew and stored.
  pub save : PlatformConfig S → Run (ℤ × PlatformConfig S)
  unfolding write_ep_cfg create_ep_cfg
  save c = create_ep_cfg c >>= write_ep_cfg

  -- setConfig
  pub set_config : Bool → Bytes → Bytes → PlatformConfig S → Run (ℤ × PlatformConfig S)
  unfolding save add_config update_config find_key_matched_index
  set_config got k v c =
      if c.set_up_init
      then (find_key_matched_index k c >>= λ m. elim m [
        | none ↦
            if ltb ep_cfg_length (c.config_bytes + key_value_pair_bytes k v)
            then done (failed, c)
            else (add_config got k v c >>= λ r. elim r.0 [
              | pos zero ↦ save r.1
              | _ ↦ done (failed, r.1)
            ])
        | some i ↦ update_config i v c >>= save
      ])
      else done (failed, c)

  -- deleteAndUpdateConfig
  pub delete_and_update_config : ℕ → PlatformConfig S → Run (ℤ × PlatformConfig S)
  unfolding cfg_shift flush_ep_cfg save
  delete_and_update_config index c = cfg_shift index c >>= λ r. elim r.0 [
    | pos zero ↦ flush_ep_cfg (record r.1 { config_count = r.1.config_count - 1 }) >>= save
    | _ ↦ done (failed, r.1)
  ]

  -- delConfig
  pub del_config : Bytes → PlatformConfig S → Run (ℤ × PlatformConfig S)
  unfolding delete_and_update_config find_key_matched_index
  del_config k c = find_key_matched_index k c >>= λ m. elim m [
    | none ↦ done (pos 0, c)
    | some i ↦ delete_and_update_config i c
  ]

  -- flushConfig
  pub flush_config : PlatformConfig S → PlatformConfig S
  flush_config c = record c {
    eeprom = set_persistent_bytes_with_data_byte E ep_cfg_start ep_cfg_length 0 c.eeprom;
  }
