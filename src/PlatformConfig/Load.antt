-- ===== src/PlatformConfig/Load.antt =====
-- loadCfg reads back the configurations that a text was made of.
use c_utilities.Common.{
  ℕ, zero, suc, ◌+◌, ◌-◌, ◌≤◌, ◌<◌, ◌≡◌, ◌≢◌, refl, ap, ap₂, sym, ◌∙◌, Bool, true, false, Option,
  none, some, List, [], ◌∷◌, ◌++◌, map, append_assoc, append-nil, ◌==◌, if◌then◌else◌, length,
  length-append, length-map, length-replicate, get_elem?, set, set_middle, drop, drop-append, Bytes,
  strlen, arith, ltb, replicate,
}
mod Loop
pub mod Whole
use mathlib.Core.Option
use c_utilities.Common.Int.{ℤ, pos, negsuc}
use c_utilities.Common.Run.{Run, done, fault, ◌>>=◌}
use c_utilities.PlatformConfig.{
  CfgElem, PlatformConfig, separator, terminator, strtok, next_at, get_next_key_value_pair,
  count_from, reset_key_value_ptr, count_key_value_pair, init_cfg, cfg_add, load_pair, load_from,
  load_cfg, ep_cfg_length, failed,
}
use c_utilities.PlatformConfig.Text.{
  line, text, size, length-text, IsToken, AllTokens, strlen-append, strtok-separator,
  strtok-terminator,
}

text_split :
    (x : ℕ) (pre : Bytes) (e : CfgElem) (t : Bytes)
    → pre ++ (e.key ++ (x ∷ (e.value ++ (terminator ∷ t)))) ≡ (pre ++ line x e) ++ t
text_split x pre e t = sym (
    append_assoc pre (line x e) t
    ∙ ap (λ xs. pre ++ xs)
        (append_assoc e.key (x ∷ (e.value ++ (terminator ∷ []))) t
          ∙ ap (λ xs. e.key ++ (x ∷ xs)) (append_assoc e.value (terminator ∷ []) t)))

length-line :
    (x : ℕ) (pre : Bytes) (e : CfgElem)
    → length (pre ++ line x e) ≡ length pre + (length e.key + length e.value + 2)
length-line x pre e = omega (
  arith,
  length-append pre (line x e),
  length-append e.key (x ∷ (e.value ++ (terminator ∷ []))),
  length-append e.value (terminator ∷ []),
)

module _ {S : Type 0} where
  -- The buffer, and where the pointer into it stands.
  abbrev at : PlatformConfig S → Bytes → ℕ → PlatformConfig S
  at c b p = record c { ep_cfg = some b; curr_ptr = some p }

  next_at-text :
      (p : ℕ) (k v t : Bytes) (c : PlatformConfig S)
      → IsToken k
      → IsToken v
      → next_at p (k ++ (separator ∷ (v ++ (terminator ∷ t)))) c
        ≡ done (some p, record c { curr_ptr = some (p + (length k + length v + 2)) })
  unfolding next_at
  next_at-text p [] v t c hk hv = absurd (hk.nonempty refl)
  next_at-text p (x ∷ k) v t c hk hv =
      let plain = hk.plain in
      let tail = strlen-append v (terminator ∷ t) hv.plain refl in
      let behind : strlen (separator ∷ (v ++ (terminator ∷ t))) ≡ some (suc (length v + 0)) =
        ap (Option.map suc) tail in
      let whole = strlen-append k (separator ∷ (v ++ (terminator ∷ t))) plain.3 behind in
      ground (arith, plain.0, whole)

  next_text :
      (pre : Bytes) (e : CfgElem) (t : Bytes) (c : PlatformConfig S)
      → IsToken e.key
      → IsToken e.value
      → let b = pre ++ (e.key ++ (separator ∷ (e.value ++ (terminator ∷ t)))) in
        get_next_key_value_pair (at c b (length pre))
        ≡ done (some (length pre), at c b (length pre + (length e.key + length e.value + 2)))
  unfolding get_next_key_value_pair
  next_text pre e t c hk hv =
      let r = e.key ++ (separator ∷ (e.value ++ (terminator ∷ t))) in
      ap (λ d. next_at (length pre) d (at c (pre ++ r) (length pre))) (drop-append pre r)
      ∙ next_at-text (length pre) e.key e.value t (at c (pre ++ r) (length pre)) hk hv

  next_end :
      (pre rest : Bytes) (c : PlatformConfig S)
      → get_next_key_value_pair (at c (pre ++ terminator ∷ rest) (length pre))
        ≡ done (
          none,
          record (at c (pre ++ terminator ∷ rest) (length pre)) { config_bytes = length pre + 1 },
        )
  unfolding get_next_key_value_pair next_at
  next_end pre rest c =
      ap (λ d. next_at (length pre) d (at c (pre ++ terminator ∷ rest) (length pre)))
        (drop-append pre (terminator ∷ rest))

  -- What follows a step to the next pair.
  abbrev count_next : ℕ → ℕ → Option ℕ × PlatformConfig S → Run (ℕ × PlatformConfig S)
  count_next fuel n r = elim r.0 [ none ↦ done (n, r.1) | some p ↦ count_from fuel (n + 1) r.1 ]

  abbrev counted : PlatformConfig S → ℕ → Bytes → ℕ → ℕ → Run (ℕ × PlatformConfig S)
  counted c n b p k = done (n, record (at c b p) { config_bytes = k })

  -- Counting what is left of the text leaves the buffer.
  count_from_lem :
      (fuel n : ℕ) (pre : Bytes) (es : List CfgElem) (rest : Bytes) (c : PlatformConfig S)
      → AllTokens es
      → length es < fuel
      → (p : ℕ) × (count_from fuel n (at c (pre ++ text es rest) (length pre))
          ≡ counted c (n + length es) (pre ++ text es rest) p (length pre + size es))
  unfolding count_from
  count_from_lem zero n pre es rest c h l = absurd (omega arith)
  count_from_lem (suc fuel) n pre [] rest c h l = (
    length pre,
    ap (λ m. m >>= count_next fuel n) (next_end pre rest c)
        ∙ ap (λ x. counted c x (pre ++ terminator ∷ rest) (length pre) (length pre + 1))
            (omega arith),
  )
  count_from_lem (suc fuel) n pre (e ∷ es) rest c h l =
      let (p, ih) =
        count_from_lem fuel (n + 1) (pre ++ line separator e) es rest c h.2 (omega arith) in
      let number : n + 1 + length es ≡ n + suc (length es) = omega arith in
      let bytes : length (pre ++ line separator e) + size es ≡ length pre + size (e ∷ es) =
        omega (arith, length-line separator pre e) in
      (
        p,
        ap (λ m. m >>= count_next fuel n) (next_text pre e (text es rest) c h.0 h.1)
            ∙ ap₂ (λ b q. count_from fuel (n + 1) (at c b q))
                (text_split separator pre e (text es rest)) (sym (length-line separator pre e))
            ∙ ih
            ∙ ap₂ (λ x k. counted c x ((pre ++ line separator e) ++ text es rest) p k) number bytes
            ∙ ap (λ b. counted c (n + suc (length es)) b p (length pre + size (e ∷ es)))
                (sym (text_split separator pre e (text es rest))),
      )

  -- The buffer, the pointer and the array of configurations.
  abbrev st : PlatformConfig S → Bytes → ℕ → List (Option CfgElem) → PlatformConfig S
  st c b p xs = record c { ep_cfg = some b; curr_ptr = some p; cfg = some xs }

  cfg_add_lem :
      (i : ℕ) (e : CfgElem) (c : PlatformConfig S) (b : Bytes) (q : ℕ) (xs : List (Option CfgElem))
      → i < length xs
      → cfg_add i (some e.key) (some e.value) (st c b q xs)
        ≡ done (pos 0, st c b q (set xs i (some e)))
  unfolding cfg_add
  cfg_add_lem i e c b q xs l = ground arith

  load_pair_lem :
      (i : ℕ) (pre : Bytes) (e : CfgElem) (t : Bytes) (c : PlatformConfig S) (q : ℕ)
      (xs : List (Option CfgElem))
      → IsToken e.key
      → IsToken e.value
      → i < length xs
      → load_pair i
          (length pre)
          (st c (pre ++ (e.key ++ (separator ∷ (e.value ++ (terminator ∷ t))))) q xs)
        ≡ done (
          pos 0,
          st c
              (pre ++ (e.key ++ (terminator ∷ (e.value ++ (terminator ∷ t)))))
              q
              (set xs i (some e)),
        )
  unfolding load_pair
  load_pair_lem i pre e t c q xs hk hv l =
      let r = e.value ++ (terminator ∷ t) in
      let start = pre ++ (e.key ++ (separator ∷ r)) in
      let mid = pre ++ (e.key ++ (terminator ∷ r)) in
      let next = λ (k : Option Bytes × ℕ × Bytes).
        strtok k.1 k.2 >>= λ v. cfg_add i k.0 v.0 (st c v.2 q xs) in
      let bytes : mid ≡ (pre ++ (e.key ++ terminator ∷ [])) ++ r = sym (
        append_assoc pre (e.key ++ terminator ∷ []) r
        ∙ ap (λ xs. pre ++ xs) (append_assoc e.key (terminator ∷ []) r)) in
      let offset : length pre + length e.key + 1 ≡ length (pre ++ (e.key ++ terminator ∷ [])) =
        omega (
          arith,
          length-append pre (e.key ++ terminator ∷ []),
          length-append e.key (terminator ∷ []),
        ) in
      ap (λ m. m >>= next) (strtok-separator pre e.key r hk)
      ∙ ap₂ (λ n b. strtok n b >>= λ v. cfg_add i (some e.key) v.0 (st c v.2 q xs)) offset bytes
      ∙ ap (λ m. m >>= λ v. cfg_add i (some e.key) v.0 (st c v.2 q xs))
          (strtok-terminator (pre ++ (e.key ++ terminator ∷ [])) e.value t hv)
      ∙ cfg_add_lem i e c ((pre ++ (e.key ++ terminator ∷ [])) ++ r) q xs l
      ∙ ap (λ b. done (pos 0, st c b q (set xs i (some e)))) (sym bytes)
