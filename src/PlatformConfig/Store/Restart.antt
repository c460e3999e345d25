-- ===== src/PlatformConfig/Store/Restart.antt =====
-- What setConfig stored, read back by initSetUp after a restart.
use c_utilities.Common.{
  zero, ◌+◌, ◌-◌, ◌≤◌, ◌<◌, ◌≡◌, refl, ap, ap₂, sym, ◌∙◌, true, false, none, some, List, [], ◌∷◌,
  ◌++◌, append_assoc, length, length-append, Bytes, arith,
}
use c_utilities.Common.Int.{ℤ, pos, negsuc}
use c_utilities.Common.Run.{Run, done, ◌>>=◌}
use c_utilities.Platform.{Eeprom, IsEeprom, get_persistent_bytes}
use c_utilities.Platform.Laws.{AllBytes, get_bytes_prefix}
use c_utilities.BootConfiguration.{Part, set_presence}
use c_utilities.BootConfiguration.Flags.{get_bytes-set_presence}
use c_utilities.PlatformConfig.{CfgElem, PlatformConfig, failed, separator, terminator, load_cfg}
use c_utilities.PlatformConfig.Text.{
  text, lines, line, size, text-lines, length-lines, length-text, IsToken, AllTokens, IsPlain,
}
use c_utilities.PlatformConfig.Load.Whole.{answer, array, read_in, load_cfg_lem}
use c_utilities.PlatformConfig.Store.{read_ep_cfg, init_set_up, set_config}
use c_utilities.PlatformConfig.Store.Represents.{insert, Holds, Represents}
use c_utilities.PlatformConfig.Store.Steps.{eeprom_after, Written}
use c_utilities.PlatformConfig.Store.Refines.{set_config_fits}

AllBytes-append : (xs ys : Bytes) → AllBytes xs → AllBytes ys → AllBytes (xs ++ ys)
AllBytes-append [] ys h k = k
AllBytes-append (x ∷ xs) ys h k = (h.0, AllBytes-append xs ys h.1 k)

IsPlain-AllBytes : (s : Bytes) → IsPlain s → AllBytes s
IsPlain-AllBytes [] h = tt
IsPlain-AllBytes (x ∷ s) h = (h.2, IsPlain-AllBytes s h.3)

lines-AllBytes : (es : List CfgElem) → AllTokens es → AllBytes (lines es)
lines-AllBytes [] h = tt
lines-AllBytes (e ∷ es) h =
    let ends : AllBytes (terminator ∷ []) = (omega arith, tt) in
    let value =
      AllBytes-append e.value (terminator ∷ []) (IsPlain-AllBytes e.value (h.1).plain) ends in
    AllBytes-append (line separator e) (lines es)
      (AllBytes-append e.key (separator ∷ (e.value ++ terminator ∷ []))
        (IsPlain-AllBytes e.key (h.0).plain) (omega arith, value))
      (lines-AllBytes es h.2)

array_held : (es : List CfgElem) → Holds (array es none) es
array_held [] = refl
array_held (e ∷ es) = refl

module _ {S : Type 0} where
  -- initSetUp once the configurations are loaded.
  abbrev close : ℤ × PlatformConfig S → Run (ℤ × PlatformConfig S)
  close r = elim r.0 [
    | negsuc zero ↦ done (failed, r.1)
    | _ ↦ done (pos 0, record r.1 { set_up_init = true })
  ]

  close-answer :
      (es : List CfgElem) (c : PlatformConfig S)
      → close (answer es, c) ≡ done (pos 0, record c { set_up_init = true })
  close-answer [] c = refl
  close-answer (e ∷ es) c = refl

module _ {S : Type 0} (E : Eeprom S) where
  -- The static variables at power-on.
  abbrev pub power_on : S → PlatformConfig S
  power_on s = record {
    ep_cfg = none;
    curr_ptr = none;
    cfg = none;
    set_up_init = false;
    config_count = 0;
    config_bytes = 0;
    eeprom = s;
  }

  -- The EEPROM holds the text of `es`.
  abbrev pub Stored : List CfgElem → S → Type 0
  Stored es s =
      (rest : Bytes) × ((get_persistent_bytes E 13 500 s).0 ≡ text es rest)
      × (length (text es rest) ≡ 500)

  -- initSetUp where the EEPROM holds a text.

  pub init_set_up_lem :
      (es : List CfgElem) (s : S)
      → AllTokens es
      → size es ≤ 500
      → Stored es s
      → (c : PlatformConfig S) × (init_set_up E true (power_on s) ≡ done (pos 0, c))
        × Represents c es
        × (c.eeprom ≡ (get_persistent_bytes E 13 500 s).1)
  unfolding init_set_up read_ep_cfg
  init_set_up_lem es s h l (rest, e, n) =
      let c0 : PlatformConfig S = record (power_on s) {
        eeprom = (get_persistent_bytes E 13 500 s).1;
      } in
      let (b, p, run, len) = load_cfg_lem es rest c0 h l in
      let c1 : PlatformConfig S = record (read_in c0 es b p) { set_up_init = true } in
      (
        c1,
        ap (λ xs. load_cfg true (record c0 { ep_cfg = some xs }) >>= close) e
            ∙ ap (λ m. m >>= close) run
            ∙ close-answer es (read_in c0 es b p),
        record {
          prepared = record {
            held = array_held es;
            counted = refl;
            tokens = h;
            buffer = b;
            is_buffer = refl;
            length_buffer = len ∙ n;
            ready = refl;
          };
          sized = refl;
          fits = l;
        },
        refl,
      )

module _ {S : Type 0} (E : Eeprom S) (laws : IsEeprom E) where
  -- What was written is there, as long as the text leaves the last of the 500 bytes alone.
  pub Written-Stored :
      (es : List CfgElem) (s : S) → AllTokens es → size es < 500 → Written E es s → Stored E es s
  Written-Stored es s h l (t, x, e, n) =
      let xs = lines es ++ terminator ∷ [] in
      let bytes : AllBytes xs =
        AllBytes-append (lines es) (terminator ∷ []) (lines-AllBytes es h) (omega arith, tt) in
      let sized : length xs ≡ size es =
        length-append (lines es) (terminator ∷ []) ∙ length-lines es in
      let split : (ys : Bytes) → text es ys ≡ xs ++ ys =
        λ ys. text-lines es ys ∙ sym (append_assoc (lines es) (terminator ∷ []) ys) in
      let (zs, got, len) =
        get_bytes_prefix E laws 13 (500 - size es) xs t (E.begin x) bytes (omega (arith, sized)) in
      let all : length xs + (500 - size es) ≡ 500 = omega (arith, sized) in
      let read : (get_persistent_bytes E 13 500 s).0 ≡ text es zs =
        ap₂ (λ m s. (get_persistent_bytes E 13 m s).0) (sym all)
          (e ∙ ap (λ b. eeprom_after E b x) (split t))
        ∙ got
        ∙ sym (split zs) in
      (zs, read, omega (arith, length-text es zs, len))

  -- The flags stand before the text.
  pub Stored-set_presence :
      (p : Part) (es : List CfgElem) (s : S) → Stored E es s → Stored E es (set_presence E p s)
  Stored-set_presence p es s (rest, e, n) =
      (rest, get_bytes-set_presence E laws p 13 500 s (omega arith) ∙ e, n)

  -- A configuration whose key and value are not empty and have no colon is there after a restart, with
  -- all the others, as long as the text leaves the last of the 500 bytes alone.
  pub init_set_up-set_config :
      (k v : Bytes) (es : List CfgElem) (c : PlatformConfig S)
      → Represents c es
      → IsToken k
      → IsToken v
      → size (insert k v es) < 500
      → (c1 : PlatformConfig S) × (c2 : PlatformConfig S) × (set_config E true k v c
          ≡ done (pos 0, c1))
        × (init_set_up E true (power_on E c1.eeprom) ≡ done (pos 0, c2))
        × Represents c2 (insert k v es)
  init_set_up-set_config k v es c h hk hv l =
      let new = insert k v es in
      let (c1, t, run, r, e, n) = set_config_fits E k v es c h hk hv (omega arith) in
      let tokens = (r.prepared).tokens in
      let there = Written-Stored new c1.eeprom tokens l (t, c.eeprom, e, n) in
      let (c2, up, r2, read) = init_set_up_lem E new c1.eeprom tokens (omega arith) there in
      (c1, c2, run, up, r2)
