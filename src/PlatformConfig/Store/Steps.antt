-- ===== src/PlatformConfig/Store/Steps.antt =====
-- The parts of setConfig: an entry added, an entry updated, the text stored.
use c_utilities.Common.{
  ℕ, zero, ◌+◌, ◌-◌, ◌≤◌, ◌<◌, ◌≡◌, refl, ap, ap₂, sym, ◌∙◌, subst, true, false, Bool, ◌&&◌, Option,
  none, some, List, [], ◌∷◌, ◌++◌, map, if◌then◌else◌, length, length-append, length-map,
  length-set, get_elem?, set, set_middle, set_same, take, Bytes, same, arith, ltb, inl, inr,
  Bool-cases,
}
use c_utilities.Common.Int.{ℤ, pos}
use c_utilities.Common.Run.{Run, done, fault, ◌>>=◌}
use c_utilities.Platform.{Eeprom, set_persistent_bytes}
use c_utilities.Platform.Laws.{write_all, set_bytes_lem}
use c_utilities.PlatformConfig.{
  CfgElem, PlatformConfig, failed, cfg_add, ep_cfg_start, ep_cfg_length,
}
use c_utilities.PlatformConfig.Text.{text, size, IsToken}
use c_utilities.PlatformConfig.Store.{
  save, write_ep_cfg, alloc_mem_for_new_config, add_config, cfg_update, update_config,
}
use c_utilities.PlatformConfig.Store.Represents.{
  array_lem, Holds, Prepared, Represents, elem_at_lem,
}
use c_utilities.PlatformConfig.Store.Save.{create_ep_cfg_lem}
use c_utilities.PlatformConfig.Store.Array.{
  size-set, AllTokens-append, AllTokens-set, set-map, take_all, map-append, same_sound,
}

module _ {S : Type 0} where
  alloc_lem :
      (c : PlatformConfig S) (es : List CfgElem) (cfg : Option (List (Option CfgElem)))
      → c.cfg ≡ cfg
      → Holds cfg es
      → c.config_count ≡ length es
      → alloc_mem_for_new_config true c ≡ done (record c { cfg = some (map some es ++ none ∷ []) })
  unfolding alloc_mem_for_new_config
  alloc_lem c es none e h n =
      let f : Option (List (Option CfgElem)) → Run (PlatformConfig S) = λ o. elim o [
        | none ↦ done (record c { cfg = some (none ∷ []) })
        | some xs ↦ done (record c { cfg = some (take c.config_count xs ++ none ∷ []) })
      ] in
      ap f e ∙ ap (λ ys. done (record c { cfg = some (map some ys ++ none ∷ []) })) (sym h)
  alloc_lem c es (some xs) e h n =
      let f : Option (List (Option CfgElem)) → Run (PlatformConfig S) = λ o. elim o [
        | none ↦ done (record c { cfg = some (none ∷ []) })
        | some xs ↦ done (record c { cfg = some (take c.config_count xs ++ none ∷ []) })
      ] in
      let made : List (Option CfgElem) → Run (PlatformConfig S) =
        λ xs. done (record c { cfg = some (xs ++ none ∷ []) }) in
      ap f e ∙ ap₂ (λ k xs. made (take k xs)) n h ∙ ap made (take_all es)

  pub add_config_lem :
      (k v : Bytes) (es : List CfgElem) (c : PlatformConfig S)
      → Prepared c es
      → IsToken k
      → IsToken v
      → (c1 : PlatformConfig S) × (add_config true k v c ≡ done (pos 0, c1))
        × Prepared c1 (es ++ record { key = k; value = v } ∷ [])
        × (c1.eeprom ≡ c.eeprom)
  unfolding add_config cfg_add
  add_config_lem k v es c h hk hv =
      let x : CfgElem = record { key = k; value = v } in
      let c0 : PlatformConfig S = record c { cfg = some (map some es ++ none ∷ []) } in
      let after : ℤ × PlatformConfig S → Run (ℤ × PlatformConfig S) = λ r. elim r.0 [
        | pos zero ↦ done (pos 0, record r.1 { config_count = r.1.config_count + 1 })
        | _ ↦ done (failed, r.1)
      ] in
      let add : PlatformConfig S → Run (ℤ × PlatformConfig S) =
        λ c1. cfg_add c1.config_count (some k) (some v) c1 >>= after in
      let n : c.config_count ≡ length es = h.counted in
      let len : length (map some es) ≡ length es = length-map some es in
      let inside : c.config_count < length (map some es ++ none ∷ []) =
        omega (arith, n, len, length-append (map some es) (none ∷ [])) in
      let put_there : List (Option CfgElem) → PlatformConfig S = λ ys. record c { cfg = some ys } in
      let added : cfg_add c.config_count (some k) (some v) c0
          ≡ done (pos 0, put_there (set (map some es ++ none ∷ []) c.config_count (some x))) =
        ground arith in
      let index : c.config_count ≡ length (map some es) = omega (arith, n, len) in
      let array : set (map some es ++ none ∷ []) c.config_count (some x) ≡ map some (es ++ x ∷ []) =
        ap (λ i. set (map some es ++ none ∷ []) i (some x)) index
        ∙ set_middle (map some es) none (some x) []
        ∙ sym (map-append es (x ∷ [])) in
      let c1 : PlatformConfig S = record (put_there (map some (es ++ x ∷ []))) {
        config_count = c.config_count + 1;
      } in
      let same_store : add_config true k v c ≡ done (pos 0, c1) =
        ap (λ m. m >>= add) (alloc_lem c es c.cfg refl h.held n)
        ∙ ap (λ m. m >>= after) added
        ∙ ap (λ ys. after (pos 0, put_there ys)) array in
      (
        c1,
        same_store,
        record {
          held = refl;
          counted = omega (arith, n, length-append es (x ∷ []));
          tokens = AllTokens-append es k v h.tokens hk hv;
          buffer = h.buffer;
          is_buffer = h.is_buffer;
          length_buffer = h.length_buffer;
          ready = h.ready;
        },
        refl,
      )

  cfg_update_lem :
      (i : ℕ) (v : Bytes) (es : List CfgElem) (x : CfgElem) (c : PlatformConfig S)
      → Prepared c es
      → get_elem? es i ≡ some x
      → IsToken v
      → (c1 : PlatformConfig S) × (cfg_update i v c ≡ done c1)
        × Prepared c1 (set es i (record x { value = v }))
        × (c1.eeprom ≡ c.eeprom)
  unfolding cfg_update
  cfg_update_lem i v es x c h e hv =
      let y : CfgElem = record x { value = v } in
      let c1 : PlatformConfig S = record c { cfg = some (map some (set es i y)) } in
      let stored : Option (List (Option CfgElem)) → Run (PlatformConfig S) = λ o. elim o [
        | none ↦ fault
        | some xs ↦ done (record c { cfg = some (set xs i (some y)) })
      ] in
      let go : CfgElem → Run (PlatformConfig S) = λ x. elim c.cfg [
        | none ↦ fault
        | some xs ↦ done (record c { cfg = some (set xs i (some (record x { value = v }))) })
      ] in
      (
        c1,
        ap (λ m. m >>= go) (elem_at_lem c.cfg es i h.held e)
            ∙ ap stored (array_lem c.cfg es i h.held e)
            ∙ ap (λ xs. done (record c { cfg = some xs })) (set-map es i y),
        record {
          held = refl;
          counted = h.counted ∙ sym (length-set es i y);
          tokens = AllTokens-set es i x v e h.tokens hv;
          buffer = h.buffer;
          is_buffer = h.is_buffer;
          length_buffer = h.length_buffer;
          ready = h.ready;
        },
        refl,
      )

  -- A value that does not fit is left out, and so is one that is there already.
  pub update_config_lem :
      (i : ℕ) (v : Bytes) (es : List CfgElem) (x : CfgElem) (c : PlatformConfig S)
      → Represents c es
      → get_elem? es i ≡ some x
      → IsToken v
      → let new = set es i (record x { value = v }) in
        (c1 : PlatformConfig S) × (update_config i v c ≡ done c1)
        × Prepared c1 (if ltb 500 (size new) then es else new)
        × (c1.eeprom ≡ c.eeprom)
  unfolding update_config
  update_config_lem i v es x c h e hv =
      let new = set es i (record x { value = v }) in
      let bytes : size new + length x.value ≡ size es + length v = size-set es i x v e in
      let count : c.config_bytes ≡ size es = h.sized in
      let fits : size es ≤ 500 = h.fits in
      let room : Bool =
        ltb (length x.value) (length v) && ltb 500 (c.config_bytes + (length v - length x.value)) in
      let go : CfgElem → Run (PlatformConfig S) = λ x.
        if same x.value v
        then done c
        else if ltb (length x.value) (length v)
            && ltb ep_cfg_length (c.config_bytes + (length v - length x.value))
        then done c
        else cfg_update i v c in
      let start : update_config i v c ≡ go x =
        ap (λ m. m >>= go) (elem_at_lem c.cfg es i h.prepared.held e) in
      let Result : PlatformConfig S → Type 0 =
        λ c1. Prepared c1 (if ltb 500 (size new) then es else new) in
      let kept : (b : Bool) → ltb 500 (size new) ≡ b → es ≡ (if b then es else new) → Result c =
        λ b q r.
          subst (λ b. Prepared c (if b then es else new)) (sym q)
            (subst (Prepared c) r h.prepared) in
      elim (Bool-cases (same x.value v)) [
        | inl s ↦
            let unchanged : es ≡ new = sym (
              ap (λ w. set es i (record x { value = w })) (sym (same_sound x.value v s))
              ∙ set_same es i e) in
            let small : ltb 500 (size new) ≡ false = ground (arith, ap size unchanged) in
            (
              c,
              start ∙ ap (λ b. if b then done c else (if room then done c else cfg_update i v c)) s,
              kept false small unchanged,
              refl,
            )
        | inr s ↦ elim (Bool-cases room) [
          | inl r ↦
              let large : ltb 500 (size new) ≡ true = ground (arith, bytes, count) in
              (
                c,
                start
                    ∙ ap₂ (λ b d. if b then done c else (if d then done c else cfg_update i v c)) s
                        r,
                kept true large refl,
                refl,
              )
          | inr r ↦
              let small : ltb 500 (size new) ≡ false = ground (arith, bytes, count) in
              let (c1, run, p, stays) = cfg_update_lem i v es x c h.prepared e hv in
              (
                c1,
                start
                    ∙ ap₂ (λ b d. if b then done c else (if d then done c else cfg_update i v c)) s
                        r
                    ∙ run,
                subst (λ b. Prepared c1 (if b then es else new)) (sym small) p,
                stays,
              )
        ]
      ]

module _ {S : Type 0} (E : Eeprom S) where
  -- What the EEPROM holds after a text is stored.
  abbrev pub eeprom_after : Bytes → S → S
  eeprom_after b s = E.finish (write_all E ep_cfg_start b (E.begin s))

  -- The text of `es`, with what follows it in the buffer, was the last to be stored.
  abbrev pub Written : List CfgElem → S → Type 0
  Written es s =
      (t : Bytes) × (x : S) × (s ≡ eeprom_after (text es t) x) × (length (text es t) ≡ 500)

  -- The text of the configurations is made and stored.
  pub save_lem :
      (es : List CfgElem) (c : PlatformConfig S)
      → Prepared c es
      → size es ≤ 500
      → (c1 : PlatformConfig S) × (t : Bytes) × (save E c ≡ done (pos 0, c1))
        × Represents c1 es
        × (c1.eeprom ≡ eeprom_after (text es t) c.eeprom)
        × (length (text es t) ≡ 500)
  unfolding save write_ep_cfg
  save_lem es c h l =
      let (t, made, len) =
        create_ep_cfg_lem es c h.buffer h.held h.counted h.is_buffer
          (omega (arith, h.length_buffer)) in
      let b = text es t in
      let full : length b ≡ 500 = len ∙ h.length_buffer in
      let c0 : PlatformConfig S = record c {
        ep_cfg = some b;
        curr_ptr = some 0;
        config_bytes = size es;
      } in
      let c1 : PlatformConfig S = record c0 { eeprom = eeprom_after b c.eeprom } in
      (
        c1,
        t,
        ap (λ m. m >>= write_ep_cfg E) made
            ∙ ap
                (λ n. set_persistent_bytes E ep_cfg_start b n c.eeprom >>= λ s.
                  done (pos 0, record c0 { eeprom = s }))
                (sym full)
            ∙ ap (λ m. m >>= λ s. done (pos 0, record c0 { eeprom = s }))
                (set_bytes_lem E ep_cfg_start b c.eeprom),
        record {
          prepared = record {
            held = h.held;
            counted = h.counted;
            tokens = h.tokens;
            buffer = b;
            is_buffer = refl;
            length_buffer = full;
            ready = h.ready;
          };
          sized = refl;
          fits = l;
        },
        refl,
        full,
      )
