-- ===== src/PlatformConfig/Store/Delete.antt =====
-- delConfig of the only configuration.
use c_utilities.Common.{
  ℕ, zero, suc, ◌-◌, ◌≡◌, refl, ap, ◌∙◌, Option, none, some, [], ◌∷◌, Bytes, same, arith, if_true,
  take, if◌then◌else◌,
}
use c_utilities.Common.Int.{ℤ, pos}
use c_utilities.Common.Run.{Run, done, fault, ◌>>=◌}
use c_utilities.Platform.{Eeprom}
use c_utilities.PlatformConfig.{CfgElem, PlatformConfig, failed}
use c_utilities.PlatformConfig.Store.{
  elem_at, find_from, shift_from, find_key_matched_index, get_config, deallocate_config_element,
  cfg_shift, flush_ep_cfg, save, delete_and_update_config, del_config,
}
use c_utilities.PlatformConfig.Store.Represents.{Represents, elem_at_lem}
use c_utilities.PlatformConfig.Store.Refines.{same_refl}

module _ {S : Type 0} where
  -- The only entry is given back, and with it the array.
  cfg_shift_last :
      (e : CfgElem) (c : PlatformConfig S)
      → Represents c (e ∷ [])
      → cfg_shift 0 c ≡ done (failed, record c { cfg = none })
  unfolding cfg_shift deallocate_config_element
  cfg_shift_last e c h =
      let p = h.prepared in
      let one : c.config_count ≡ 1 = p.counted in
      let zero_left : c.config_count - 0 - 1 ≡ 0 = omega (arith, one) in
      let by : ℕ → Run (ℤ × PlatformConfig S) = λ n. elim n [
        | zero ↦ elem_at 0 c.cfg >>= λ x. done (deallocate_config_element c)
        | suc n ↦ shift_from (suc n) 0 c >>= λ c1. done (pos 0, (deallocate_config_element c1).1)
      ] in
      let freed : ℕ → ℤ × PlatformConfig S = λ n. elim n [
        | zero ↦ (failed, record c { cfg = none })
        | suc n ↦ (
          pos 0,
          record c { cfg = elim c.cfg [ none ↦ none | some xs ↦ some (take (suc n) xs) ] },
        )
      ] in
      let none_left : c.config_count - 1 ≡ 0 = omega (arith, one) in
      ap by zero_left
      ∙ ap (λ r. r >>= λ x. done (deallocate_config_element c))
          (elem_at_lem c.cfg (e ∷ []) 0 p.held refl)
      ∙ ap (λ n. done (freed n)) none_left

module _ {S : Type 0} (E : Eeprom S) where
  -- delConfig of the only configuration, with a realloc that answers NULL for 0 bytes, answers -1,
  -- and leaves a store in which every search reads through NULL.
  pub del_config_last :
      (e : CfgElem) (c : PlatformConfig S)
      → Represents c (e ∷ [])
      → (c1 : PlatformConfig S) × (del_config E e.key c ≡ done (failed, c1))
        × ((k : Bytes) → get_config k c1 ≡ fault)
  unfolding del_config delete_and_update_config find_key_matched_index find_from elem_at get_config
  del_config_last e c h =
      let p = h.prepared in
      let one : c.config_count ≡ 1 = p.counted in
      let c1 : PlatformConfig S = record c { cfg = none } in
      let matched : CfgElem → Run (Option ℕ) =
        λ x. if same e.key x.key then done (some 0) else done none in
      let found : find_key_matched_index e.key c ≡ done (some 0) =
        ap (λ n. find_from n 0 e.key c.cfg) one
        ∙ ap (λ r. r >>= matched) (elem_at_lem c.cfg (e ∷ []) 0 p.held refl)
        ∙ if_true (done (some 0)) (done none) (same_refl e.key) in
      let removed : Option ℕ → Run (ℤ × PlatformConfig S) =
        λ m. elim m [ none ↦ done (pos 0, c) | some i ↦ delete_and_update_config E i c ] in
      let stored : ℤ × PlatformConfig S → Run (ℤ × PlatformConfig S) = λ r. elim r.0 [
        | pos zero ↦ flush_ep_cfg (record r.1 { config_count = r.1.config_count - 1 }) >>= save E
        | _ ↦ done (failed, r.1)
      ] in
      let looked : Bytes → Option ℕ → Run (Option Bytes) =
        λ k m. elim m [ none ↦ done none | some i ↦ elem_at i none >>= λ x. done (some x.value) ] in
      (
        c1,
        ap (λ r. r >>= removed) found ∙ ap (λ r. r >>= stored) (cfg_shift_last e c h),
        λ k.
            if_true (find_key_matched_index k c1 >>= looked k) (done none) p.ready
            ∙ ap (λ n. find_from n 0 k none >>= looked k) one,
      )
