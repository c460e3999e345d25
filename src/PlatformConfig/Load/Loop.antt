-- ===== src/PlatformConfig/Load/Loop.antt =====
-- The loop of loadCfg over a text.
use c_utilities.Common.{
  ℕ, zero, suc, ◌+◌, ◌<◌, ◌≡◌, refl, ap, ap₂, sym, ◌∙◌, Option, none, some, List, [], ◌∷◌, ◌++◌,
  map, append_assoc, append-nil, length, length-append, length-replicate, set, Bytes, arith,
  replicate,
}
use c_utilities.Common.Int.{ℤ, pos}
use c_utilities.Common.Run.{Run, done, ◌>>=◌}
use c_utilities.PlatformConfig.{
  CfgElem, PlatformConfig, separator, terminator, load_pair, load_from, failed,
}
use c_utilities.PlatformConfig.Text.{line, text, size, length-text, IsToken, AllTokens}
use c_utilities.PlatformConfig.Load.{
  text_split, length-line, next_text, next_end, st, load_pair_lem,
}

-- The array while `es` are still to be read.
abbrev pub filled : List CfgElem → ℕ → List (Option CfgElem)
filled ds n = map some ds ++ replicate n none

set-filled :
    (ds : List CfgElem) (e : CfgElem) (n : ℕ)
    → set (filled ds (suc n)) (length ds) (some e) ≡ filled (ds ++ e ∷ []) n
set-filled [] e n = refl
set-filled (d ∷ ds) e n = ap (◌∷◌ (some d)) (set-filled ds e n)

length-filled : (ds : List CfgElem) (n : ℕ) → length (filled ds n) ≡ length ds + n
length-filled [] n = length-replicate n none ∙ omega arith
length-filled (d ∷ ds) n = omega (arith, length-filled ds n)

module _ {S : Type 0} where
  abbrev load_next : ℕ → ℕ → Option ℕ × PlatformConfig S → Run (ℤ × PlatformConfig S)
  load_next fuel n r = elim r.0 [
    | none ↦ done (pos 0, r.1)
    | some p ↦ load_pair n p r.1 >>= λ q. elim q.0 [
      | pos zero ↦ load_from fuel (n + 1) q.1
      | _ ↦ done (failed, q.1)
    ]
  ]

  abbrev after_pair : ℕ → ℕ → ℤ × PlatformConfig S → Run (ℤ × PlatformConfig S)
  after_pair fuel n q = elim q.0 [ pos zero ↦ load_from fuel (n + 1) q.1 | _ ↦ done (failed, q.1) ]

  -- A round of the loop.
  load_step :
      (fuel : ℕ) (pre : Bytes) (e : CfgElem) (t : Bytes) (c : PlatformConfig S) (ds : List CfgElem)
      (n : ℕ)
      → IsToken e.key
      → IsToken e.value
      → load_from (suc fuel) (length ds) (
          st c
            (pre ++ (e.key ++ (separator ∷ (e.value ++ (terminator ∷ t)))))
            (length pre)
            (filled ds (suc n)))
        ≡ load_from fuel (length (ds ++ e ∷ [])) (
            st c
              ((pre ++ line terminator e) ++ t)
              (length (pre ++ line terminator e))
              (filled (ds ++ e ∷ []) n))
  unfolding load_from
  load_step fuel pre e t c ds n hk hv =
      let q = length pre + (length e.key + length e.value + 2) in
      let inside : length ds < length (filled ds (suc n)) =
        omega (arith, length-filled ds (suc n)) in
      let count : length ds + 1 ≡ length (ds ++ e ∷ []) =
        omega (arith, length-append ds (e ∷ [])) in
      ap (λ m. m >>= load_next fuel (length ds))
        (next_text pre e t (record c { cfg = some (filled ds (suc n)) }) hk hv)
      ∙ ap (λ m. m >>= after_pair fuel (length ds))
          (load_pair_lem (length ds) pre e t c q (filled ds (suc n)) hk hv inside)
      ∙ ap₂
          (λ k xs.
            load_from fuel k
              (st c (pre ++ (e.key ++ (terminator ∷ (e.value ++ (terminator ∷ t))))) q xs))
          count (set-filled ds e n)
      ∙ ap₂ (λ b p. load_from fuel (length (ds ++ e ∷ [])) (st c b p (filled (ds ++ e ∷ []) n)))
          (text_split terminator pre e t) (sym (length-line terminator pre e))

  abbrev pub loaded : PlatformConfig S → Bytes → ℕ → List CfgElem → ℕ → Run (ℤ × PlatformConfig S)
  loaded c b p es k = done (pos 0, record (st c b p (map some es)) { config_bytes = k })

  pub load_from_lem :
      (fuel : ℕ) (ds es : List CfgElem) (pre rest : Bytes) (c : PlatformConfig S)
      → AllTokens es
      → length es < fuel
      → (b : Bytes) × (p : ℕ) × (load_from fuel
            (length ds)
            (st c (pre ++ text es rest) (length pre) (filled ds (length es)))
          ≡ loaded c b p (ds ++ es) (length pre + size es))
        × (length b ≡ length pre + length (text es rest))
  unfolding load_from
  load_from_lem zero ds es pre rest c h l = absurd (omega arith)
  load_from_lem (suc fuel) ds [] pre rest c h l = (
    pre ++ terminator ∷ rest,
    length pre,
    ap (λ m. m >>= load_next fuel (length ds))
          (next_end pre rest (record c { cfg = some (filled ds 0) }))
        ∙ ap
            (λ xs. done (
              pos 0,
              record (st c (pre ++ terminator ∷ rest) (length pre) xs) {
                config_bytes = length pre + 1;
              },
            ))
            (append-nil (map some ds) ∙ ap (map some) (sym (append-nil ds))),
    length-append pre (terminator ∷ rest),
  )
  load_from_lem (suc fuel) ds (e ∷ es) pre rest c h l =
      let (b, p, run, size_b) =
        load_from_lem fuel (ds ++ e ∷ []) es (pre ++ line terminator e) rest c h.2 (omega arith) in
      (
        b,
        p,
        load_step fuel pre e (text es rest) c ds (length es) h.0 h.1
            ∙ run
            ∙ ap₂ (λ xs k. loaded c b p xs k) (append_assoc ds (e ∷ []) es)
                (omega (arith, length-line terminator pre e)),
        omega (
          arith,
          size_b,
          length-line terminator pre e,
          length-text es rest,
          length-text (e ∷ es) rest,
        ),
      )
