-- ===== src/PlatformConfig/Load/Whole.antt =====
-- loadCfg over the text of some configurations.
use c_utilities.Common.{
  ℕ, zero, suc, ◌+◌, ◌≤◌, ◌<◌, ◌≡◌, refl, ap, ap₂, ◌∙◌, true, false, Option, none, some, List, [],
  ◌∷◌, map, ◌==◌, if◌then◌else◌, length, replicate, Bytes, arith,
}
use c_utilities.Common.Int.{ℤ, pos}
use c_utilities.Common.Run.{Run, done, ◌>>=◌}
use c_utilities.PlatformConfig.{
  CfgElem, PlatformConfig, ep_cfg_length, count_key_value_pair, reset_key_value_ptr, init_cfg,
  load_from, load_cfg,
}
use c_utilities.PlatformConfig.Text.{text, size, AllTokens}
use c_utilities.PlatformConfig.Load.{count_from_lem}
use c_utilities.PlatformConfig.Load.Loop.{loaded, load_from_lem}

pub length-size : (es : List CfgElem) → length es < size es
length-size [] = omega arith
length-size (e ∷ es) = omega (arith, length-size es)

-- What loadCfg answers, 1 for no configurations, and the array, left as it was then.
abbrev pub answer : List CfgElem → ℤ
answer [] = pos 1
answer (e ∷ es) = pos 0

abbrev pub array : List CfgElem → Option (List (Option CfgElem)) → Option (List (Option CfgElem))
array [] old = old
array (e ∷ es) old = some (map some (e ∷ es))

module _ {S : Type 0} where
  -- The store after the text is read.
  abbrev pub read_in : PlatformConfig S → List CfgElem → Bytes → ℕ → PlatformConfig S
  read_in c es b p = record c {
    ep_cfg = some b;
    curr_ptr = some p;
    cfg = array es c.cfg;
    config_count = length es;
    config_bytes = size es;
  }

  count_lem :
      (es : List CfgElem) (rest : Bytes) (c : PlatformConfig S)
      → AllTokens es
      → size es ≤ 500
      → let b = text es rest in
        (p : ℕ) × (count_key_value_pair (record c { ep_cfg = some b })
          ≡ done (
            length es,
            record c {
              ep_cfg = some b;
              curr_ptr = some p;
              config_count = length es;
              config_bytes = size es;
            },
          ))
  unfolding count_key_value_pair reset_key_value_ptr
  count_lem es rest c h l =
      let (p, run) = count_from_lem 501 0 [] es rest c h (omega (arith, length-size es)) in
      let close : ℕ × PlatformConfig S → Run (ℕ × PlatformConfig S) =
        λ r. done (r.0, record r.1 { config_count = r.0 }) in
      let whole : ℕ → ℕ → Run (ℕ × PlatformConfig S) = λ n k. done (
        n,
        record c {
          ep_cfg = some (text es rest);
          curr_ptr = some p;
          config_count = n;
          config_bytes = k;
        },
      ) in
      let n : 0 + length es ≡ length es = omega arith in
      let k : 0 + size es ≡ size es = omega arith in (p, ap (λ m. m >>= close) run ∙ ap₂ whole n k)

  -- initCfg once the pairs are counted, and loadCfg after it.
  abbrev made : ℕ × PlatformConfig S → Run (ℤ × PlatformConfig S)
  made r =
      if r.0 == 0
      then done (pos 1, r.1)
      else done (pos 0, record r.1 { cfg = some (replicate r.0 none) })

  abbrev fill : ℤ × PlatformConfig S → Run (ℤ × PlatformConfig S)
  fill r = elim r.0 [
    | pos zero ↦ load_from (suc ep_cfg_length) 0 (reset_key_value_ptr r.1)
    | e ↦ done (e, r.1)
  ]

  -- loadCfg reads the configurations that the text was made of.
  pub load_cfg_lem :
      (es : List CfgElem) (rest : Bytes) (c : PlatformConfig S)
      → AllTokens es
      → size es ≤ 500
      → (b : Bytes) × (p : ℕ) × (load_cfg true (record c { ep_cfg = some (text es rest) })
          ≡ done (answer es, read_in c es b p))
        × (length b ≡ length (text es rest))
  unfolding load_cfg init_cfg reset_key_value_ptr
  load_cfg_lem [] rest c h l =
      let (p, run) = count_lem [] rest c h l in
      (text [] rest, p, ap (λ m. (m >>= made) >>= fill) run, refl)
  load_cfg_lem (e ∷ es) rest c h l =
      let ds = e ∷ es in
      let (p, run) = count_lem ds rest c h l in
      let c0 : PlatformConfig S = record c { config_count = length ds; config_bytes = size ds } in
      let counted : PlatformConfig S = record c0 {
        ep_cfg = some (text ds rest);
        curr_ptr = some p;
      } in
      let some_there : (length ds == 0) ≡ false = ground arith in
      let (b, q, loop, len) =
        load_from_lem 501 [] ds [] rest c0 h (omega (arith, length-size ds)) in
      let k : 0 + size ds ≡ size ds = omega arith in
      (
        b,
        q,
        ap (λ m. (m >>= made) >>= fill) run
            ∙ ap
                (λ z.
                  (if z
                    then done (pos 1, counted)
                    else done (pos 0, record counted { cfg = some (replicate (length ds) none) }))
                  >>= fill)
                some_there
            ∙ loop
            ∙ ap (λ n. loaded c0 b q ds n) k,
        omega (arith, len),
      )
