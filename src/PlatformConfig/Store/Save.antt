-- ===== src/PlatformConfig/Store/Save.antt =====
-- createEpCfg: the text made of the configurations.
use c_utilities.Common.{
  ℕ, ◌+◌, ◌≤◌, ◌<◌, ◌≡◌, ap, ap₂, sym, ◌∙◌, subst, Option, none, some, List, [], ◌∷◌, ◌++◌,
  append_assoc, append-nil, length, length-append, length-drop, get_elem?_middle, set, set_middle,
  drop, Bytes, arith, write_at,
}
use c_utilities.Common.Run.{Run, done, fault, ◌>>=◌}
use c_utilities.PlatformConfig.{CfgElem, PlatformConfig, separator, terminator}
use c_utilities.PlatformConfig.Text.{line, lines, text, size, text-lines, length-text, length-lines}
use c_utilities.PlatformConfig.Store.{create_from, create_ep_cfg}
use c_utilities.PlatformConfig.Store.Represents.{Holds, elem_at_lem}

-- A string written where there is room for it.
write_at_lem :
    (d s tail : Bytes)
    → length s ≤ length tail
    → write_at (d ++ tail) (length d) s ≡ done ((d ++ s) ++ drop (length s) tail)
write_at_lem d [] tail l = ap (λ xs. done (xs ++ tail)) (sym (append-nil d))
write_at_lem d (x ∷ s) [] l = absurd (omega arith)
write_at_lem d (x ∷ s) (y ∷ tail) l =
    let room : length d < length (d ++ y ∷ tail) = omega (arith, length-append d (y ∷ tail)) in
    let written : set (d ++ y ∷ tail) (length d) x ≡ (d ++ x ∷ []) ++ tail =
      set_middle d y x tail ∙ sym (append_assoc d (x ∷ []) tail) in
    let next : length d + 1 ≡ length (d ++ x ∷ []) = omega (arith, length-append d (x ∷ [])) in
    let step : write_at (d ++ y ∷ tail) (length d) (x ∷ s)
        ≡ write_at (set (d ++ y ∷ tail) (length d) x) (length d + 1) s =
      ground arith in
    step
    ∙ ap₂ (λ xs n. write_at xs n s) written next
    ∙ write_at_lem (d ++ x ∷ []) s tail (omega arith)
    ∙ ap (λ xs. done (xs ++ drop (length s) tail)) (append_assoc d (x ∷ []) s)

-- The lines written one behind the other. What is left of the buffer behind them is `t`.
create_from_lem :
    (pre post : List CfgElem) (cfg : Option (List (Option CfgElem))) (d tail : Bytes)
    → Holds cfg (pre ++ post)
    → length (lines post) ≤ length tail
    → (t : Bytes) × (create_from (length post) (length pre) cfg (length d) (d ++ tail)
        ≡ done (length (d ++ lines post), (d ++ lines post) ++ t))
      × (length t + length (lines post) ≡ length tail)
unfolding create_from
create_from_lem pre [] cfg d tail h l =
    (tail, ap (λ xs. done (length xs, xs ++ tail)) (sym (append-nil d)), omega arith)
create_from_lem pre (e ∷ post) cfg d tail h l =
    let here = elem_at_lem cfg (pre ++ e ∷ post) (length pre) h (get_elem?_middle pre e post) in
    let s = line separator e in
    let k = λ (n : ℕ) (b : Bytes). create_from (length post) (length pre + 1) cfg n b in
    let body = λ (x : CfgElem).
      write_at (d ++ tail) (length d) ((x.key ++ separator ∷ x.value) ++ terminator ∷ []) >>= λ b.
      k (length d + length (x.key ++ separator ∷ x.value) + 1) b in
    let is_line : (e.key ++ separator ∷ e.value) ++ terminator ∷ [] ≡ s =
      append_assoc e.key (separator ∷ e.value) (terminator ∷ []) in
    let moved : length d + length (e.key ++ separator ∷ e.value) + 1 ≡ length (d ++ s) = omega (
      arith,
      length-append d s,
      ap length is_line,
      length-append (e.key ++ separator ∷ e.value) (terminator ∷ []),
    ) in
    let room : length s ≤ length tail = omega (arith, length-append s (lines post)) in
    let next : length (pre ++ e ∷ []) ≡ length pre + 1 = length-append pre (e ∷ []) in
    let (t, run, size_t) =
      create_from_lem (pre ++ e ∷ []) post cfg (d ++ s) (drop (length s) tail)
        (subst (Holds cfg) (sym (append_assoc pre (e ∷ []) post)) h)
        (omega (arith, length-drop (length s) tail, length-append s (lines post))) in
    (
      t,
      ap (λ m. m >>= body) here
          ∙ ap₂ (λ w n. write_at (d ++ tail) (length d) w >>= k n) is_line moved
          ∙ ap (λ m. m >>= k (length (d ++ s))) (write_at_lem d s tail room)
          ∙ ap
              (λ n.
                create_from (length post) n cfg (length (d ++ s))
                  ((d ++ s) ++ drop (length s) tail))
              (sym next)
          ∙ run
          ∙ ap (λ xs. done (length xs, xs ++ t)) (append_assoc d s (lines post)),
      omega (arith, size_t, length-drop (length s) tail, length-append s (lines post)),
    )

module _ {S : Type 0} where
  -- createEpCfg writes the text of the configurations.
  pub create_ep_cfg_lem :
      (es : List CfgElem) (c : PlatformConfig S) (b : Bytes)
      → Holds c.cfg es
      → c.config_count ≡ length es
      → c.ep_cfg ≡ some b
      → size es ≤ length b
      → (t : Bytes) × (create_ep_cfg c
          ≡ done
              (record c { ep_cfg = some (text es t); curr_ptr = some 0; config_bytes = size es }))
        × (length (text es t) ≡ length b)
  unfolding create_ep_cfg
  create_ep_cfg_lem es c b h n is_b l =
      let (t, run, size_t) = create_from_lem [] es c.cfg [] b h (omega (arith, length-lines es)) in
      let made : ℕ → Bytes → Run (PlatformConfig S) =
        λ k xs. done (record c { ep_cfg = some xs; curr_ptr = some 0; config_bytes = k }) in
      let close : ℕ × Bytes → Run (PlatformConfig S) =
        λ r. write_at r.1 r.0 (terminator ∷ []) >>= made (r.0 + 1) in
      let whole : Option Bytes → Run (PlatformConfig S) =
        λ o. elim o [ none ↦ fault | some b ↦ create_from c.config_count 0 c.cfg 0 b >>= close ] in
      let closed : (lines es ++ terminator ∷ []) ++ drop 1 t ≡ text es (drop 1 t) =
        append_assoc (lines es) (terminator ∷ []) (drop 1 t) ∙ sym (text-lines es (drop 1 t)) in
      (
        drop 1 t,
        ap whole is_b
            ∙ ap (λ k. create_from k 0 c.cfg 0 b >>= close) n
            ∙ ap (λ m. m >>= close) run
            ∙ ap (λ m. m >>= made (length (lines es) + 1))
                (write_at_lem (lines es) (terminator ∷ []) t (omega (arith, length-lines es)))
            ∙ ap₂ (λ k xs. made k xs) (length-lines es) closed,
        omega (arith, length-text es (drop 1 t), length-drop 1 t, length-lines es),
      )
