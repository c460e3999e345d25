-- ===== src/PlatformConfig/Store/Refines.antt =====
-- setConfig on the configurations that the store stands for.
use c_utilities.Common.{
  ℕ, zero, ◌+◌, ◌≤◌, ◌<◌, ◌≡◌, refl, ap, sym, ◌∙◌, subst, true, false, Bool, Option, none, some,
  List, [], ◌∷◌, ◌++◌, if◌then◌else◌, length, set, Bytes, same, arith, ltb, inl, inr, Bool-cases,
}
use c_utilities.Common.Int.{ℤ, pos}
use c_utilities.Common.Run.{Run, done, ◌>>=◌}
use c_utilities.Platform.{Eeprom}
use c_utilities.PlatformConfig.{CfgElem, PlatformConfig, failed, ep_cfg_length}
use c_utilities.PlatformConfig.Text.{text, size, IsToken}
use c_utilities.PlatformConfig.Store.{
  save, add_config, update_config, set_config, find_key_matched_index, key_value_pair_bytes,
  get_config,
}
use c_utilities.PlatformConfig.Store.Represents.{
  lookup, insert, Prepared, Represents, find_key_matched_index_lem, get_config_lem,
}
use c_utilities.PlatformConfig.Store.Array.{size-append, same_sound}
use c_utilities.PlatformConfig.Store.Steps.{
  add_config_lem, update_config_lem, eeprom_after, save_lem,
}

-- Setting a key: the answer, and the configurations. What does not fit changes nothing, and is
-- answered by -1 for a new key, by 0 for one that is there.
abbrev pub put_config : Bytes → Bytes → List CfgElem → ℤ × List CfgElem
put_config k v es =
    if ltb 500 (size (insert k v es))
    then (elim (lookup k es) [ none ↦ failed | some w ↦ pos 0 ], es)
    else (pos 0, insert k v es)

module _ {S : Type 0} (E : Eeprom S) where
  abbrev after_add : ℤ × PlatformConfig S → Run (ℤ × PlatformConfig S)
  after_add r = elim r.0 [ pos zero ↦ save E r.1 | _ ↦ done (failed, r.1) ]

  -- setConfig once the key has been looked for.
  abbrev after_search : Bytes → Bytes → PlatformConfig S → Option ℕ → Run (ℤ × PlatformConfig S)
  after_search k v c m = elim m [
    | none ↦
        if ltb ep_cfg_length (c.config_bytes + key_value_pair_bytes k v)
        then done (failed, c)
        else (add_config true k v c >>= after_add)
    | some i ↦ update_config i v c >>= save E
  ]

  set_config_start :
      (k v : Bytes) (es : List CfgElem) (c : PlatformConfig S)
      → Represents c es
      → set_config E true k v c ≡ find_key_matched_index k c >>= after_search k v c
  unfolding set_config
  set_config_start k v es c h =
      ap (λ b. if b then find_key_matched_index k c >>= after_search k v c else done (failed, c))
        h.prepared.ready

  -- A configuration that fits is set and stored.
  pub set_config_fits :
      (k v : Bytes) (es : List CfgElem) (c : PlatformConfig S)
      → Represents c es
      → IsToken k
      → IsToken v
      → size (insert k v es) ≤ 500
      → (c1 : PlatformConfig S) × (t : Bytes) × (set_config E true k v c ≡ done (pos 0, c1))
        × Represents c1 (insert k v es)
        × (c1.eeprom ≡ eeprom_after E (text (insert k v es) t) c.eeprom)
        × (length (text (insert k v es) t) ≡ 500)
  unfolding key_value_pair_bytes
  set_config_fits k v es c h hk hv l =
      let start = set_config_start k v es c h in
      let x : CfgElem = record { key = k; value = v } in
      let count : c.config_bytes ≡ size es = h.sized in
      elim (find_key_matched_index_lem k es c h) [
        | inl (absent, run, ins) ↦
            let bytes = size-append es (x ∷ []) in
            let sizes : size (insert k v es) ≡ size (es ++ x ∷ []) = ap size (ins v) in
            let room : ltb ep_cfg_length (c.config_bytes + key_value_pair_bytes k v) ≡ false =
              ground (arith, bytes, count, sizes) in
            let (c0, added, p, stays) = add_config_lem k v es c h.prepared hk hv in
            let (c1, t, saved, r, e, n) =
              save_lem E (insert k v es) c0 (subst (Prepared c0) (sym (ins v)) p) l in
            (
              c1,
              t,
              start
                  ∙ ap (λ m. m >>= after_search k v c) run
                  ∙ ap (λ b. if b then done (failed, c) else (add_config true k v c >>= after_add))
                      room
                  ∙ ap (λ m. m >>= after_add) added
                  ∙ saved,
              r,
              e ∙ ap (eeprom_after E (text (insert k v es) t)) stays,
              n,
            )
        | inr (i, y, run, there, value, upd) ↦
            let (c0, updated, p, stays) = update_config_lem i v es y c h there hv in
            let small : ltb 500 (size (set es i (record y { value = v }))) ≡ false =
              ground (arith, ap size (upd v)) in
            let q : Prepared c0 (set es i (record y { value = v })) =
              subst (λ b. Prepared c0 (if b then es else set es i (record y { value = v }))) small
                p in
            let (c1, t, saved, r, e, n) =
              save_lem E (insert k v es) c0 (subst (Prepared c0) (sym (upd v)) q) l in
            (
              c1,
              t,
              start
                  ∙ ap (λ m. m >>= after_search k v c) run
                  ∙ ap (λ m. m >>= save E) updated
                  ∙ saved,
              r,
              e ∙ ap (eeprom_after E (text (insert k v es) t)) stays,
              n,
            )
      ]

  -- A configuration that does not fit leaves the others as they were.
  set_config_full :
      (k v : Bytes) (es : List CfgElem) (c : PlatformConfig S)
      → Represents c es
      → IsToken v
      → 500 < size (insert k v es)
      → (c1 : PlatformConfig S) × (set_config E true k v c
          ≡ done (elim (lookup k es) [ none ↦ failed | some w ↦ pos 0 ], c1))
        × Represents c1 es
  unfolding key_value_pair_bytes
  set_config_full k v es c h hv l =
      let start = set_config_start k v es c h in
      let x : CfgElem = record { key = k; value = v } in
      let count : c.config_bytes ≡ size es = h.sized in
      let answer : Option Bytes → ℤ = λ o. elim o [ none ↦ failed | some w ↦ pos 0 ] in
      elim (find_key_matched_index_lem k es c h) [
        | inl (absent, run, ins) ↦
            let bytes = size-append es (x ∷ []) in
            let sizes : size (insert k v es) ≡ size (es ++ x ∷ []) = ap size (ins v) in
            let room : ltb ep_cfg_length (c.config_bytes + key_value_pair_bytes k v) ≡ true =
              ground (arith, bytes, count, sizes) in
            (
              c,
              start
                  ∙ ap (λ m. m >>= after_search k v c) run
                  ∙ ap (λ b. if b then done (failed, c) else (add_config true k v c >>= after_add))
                      room
                  ∙ ap (λ o. done (answer o, c)) (sym absent),
              h,
            )
        | inr (i, y, run, there, value, upd) ↦
            let (c0, updated, p, stays) = update_config_lem i v es y c h there hv in
            let large : ltb 500 (size (set es i (record y { value = v }))) ≡ true =
              ground (arith, ap size (upd v)) in
            let q : Prepared c0 es =
              subst (λ b. Prepared c0 (if b then es else set es i (record y { value = v }))) large
                p in
            let (c1, t, saved, r, e, n) = save_lem E es c0 q h.fits in
            (
              c1,
              start
                  ∙ ap (λ m. m >>= after_search k v c) run
                  ∙ ap (λ m. m >>= save E) updated
                  ∙ saved
                  ∙ ap (λ o. done (answer o, c1)) (sym value),
              r,
            )
      ]

  -- setConfig does what `put_config` says, for keys and values that are tokens, when memory is given.
  pub set_config_refines :
      (k v : Bytes) (es : List CfgElem) (c : PlatformConfig S)
      → Represents c es
      → IsToken k
      → IsToken v
      → (c1 : PlatformConfig S) × (set_config E true k v c ≡ done ((put_config k v es).0, c1))
        × Represents c1 (put_config k v es).1
  set_config_refines k v es c h hk hv =
      let answer : ℤ = elim (lookup k es) [ none ↦ failed | some w ↦ pos 0 ] in
      let Result : ℤ × List CfgElem → Type 0 = λ r.
        (c1 : PlatformConfig S) × (set_config E true k v c ≡ done (r.0, c1)) × Represents c1 r.1 in
      let pick : Bool → ℤ × List CfgElem =
        λ b. if b then (answer, es) else (pos 0, insert k v es) in
      elim (Bool-cases (ltb 500 (size (insert k v es)))) [
        | inl large ↦
            subst (λ b. Result (pick b)) (sym large)
              (set_config_full k v es c h hv (ground (arith, large)))
        | inr small ↦
            let (c1, t, run, r, e, n) = set_config_fits k v es c h hk hv (ground (arith, small)) in
            subst (λ b. Result (pick b)) (sym small) (c1, run, r)
      ]

pub same_refl : (s : Bytes) → same s s ≡ true
same_refl [] = refl
same_refl (x ∷ s) = ground (arith, same_refl s)

pub lookup-insert : (k v : Bytes) (es : List CfgElem) → lookup k (insert k v es) ≡ some v
lookup-insert k v [] = ap (λ b. if b then some v else none) (same_refl k)
lookup-insert k v (e ∷ es) = elim (Bool-cases (same k e.key)) [
  | inl hit ↦
      ap (λ b. lookup k (if b then record e { value = v } ∷ es else e ∷ insert k v es)) hit
      ∙ ap (λ b. if b then some v else lookup k es) hit
  | inr miss ↦
      ap (λ b. lookup k (if b then record e { value = v } ∷ es else e ∷ insert k v es)) miss
      ∙ ap (λ b. if b then some e.value else lookup k (insert k v es)) miss
      ∙ lookup-insert k v es
]

pub lookup-insert_other :
    (j k v : Bytes) (es : List CfgElem) → same j k ≡ false → lookup j (insert k v es) ≡ lookup j es
lookup-insert_other j k v [] n = ap (λ b. if b then some v else none) n
lookup-insert_other j k v (e ∷ es) n = elim (Bool-cases (same k e.key)) [
  | inl hit ↦
      let other : same j e.key ≡ false = ap (same j) (sym (same_sound k e.key hit)) ∙ n in
      ap (λ b. lookup j (if b then record e { value = v } ∷ es else e ∷ insert k v es)) hit
      ∙ ap (λ b. if b then some v else lookup j es) other
      ∙ sym (ap (λ b. if b then some e.value else lookup j es) other)
  | inr miss ↦
      ap (λ b. lookup j (if b then record e { value = v } ∷ es else e ∷ insert k v es)) miss
      ∙ ap (λ o. if same j e.key then some e.value else o) (lookup-insert_other j k v es n)
]

module _ {S : Type 0} (E : Eeprom S) where
  -- For a key and a value that are not empty and have no colon, and a text that fits, getConfig answers
  -- what setConfig set last, and setting a key leaves the others.
  pub get_config-set_config :
      (k v : Bytes) (es : List CfgElem) (c : PlatformConfig S)
      → Represents c es
      → IsToken k
      → IsToken v
      → size (insert k v es) ≤ 500
      → (c1 : PlatformConfig S) × (set_config E true k v c ≡ done (pos 0, c1))
        × (get_config k c1 ≡ done (some v))
        × ((j : Bytes) → same j k ≡ false → get_config j c1 ≡ get_config j c)
  get_config-set_config k v es c h hk hv l =
      let (c1, t, run, r, e, n) = set_config_fits E k v es c h hk hv l in
      (
        c1,
        run,
        get_config_lem k (insert k v es) c1 r ∙ ap done (lookup-insert k v es),
        λ j other.
            get_config_lem j (insert k v es) c1 r
            ∙ ap done (lookup-insert_other j k v es other)
            ∙ sym (get_config_lem j es c h),
      )
