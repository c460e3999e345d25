-- ===== src/Common/Strtok.antt =====
-- strtok of the C library, on a buffer and with a string of separators. A pointer into the buffer is
-- an offset; reading past the buffer is a fault.
use Prim.Native.Nat.{ℕ, suc, ◌+◌}
use mathlib.Core.Path.{◌≡◌, refl, ap, ap₂, sym, ◌∙◌}
use mathlib.Core.Logic.{◌≢◌}
use mathlib.Core.Bool.{Bool, true, false, ◌||◌}
use mathlib.Core.List.{[], ◌∷◌, ◌++◌, append_assoc}
use mathlib.Core.Option.{Option, none, some}
use native.Mathlib.Omega.{arith}
use c_utilities.Common.Tests.{◌==◌, if◌then◌else◌}
use c_utilities.Common.Lists.{
  length, get_elem?, set, drop, length-append, get_elem?_middle, set_middle, drop-append,
}
use c_utilities.Common.Run.{Run, done, fault}
use c_utilities.Common.Strings.{Bytes}

-- Whether a byte is one of the separators.
abbrev pub contains : Bytes → ℕ → Bool
contains [] x = false
contains (d ∷ ds) x = x == d || contains ds x

-- The end of a token at `e`, where strtok writes a NUL over a separator.
pub cut : Bytes → ℕ → Option ℕ → Bytes → Run (Option Bytes × ℕ × Bytes)
cut t e none buffer = fault
cut t e (some x) buffer =
    if x == 0 then done (some t, e, buffer) else done (some t, e + 1, set buffer e 0)

-- The token `t` at offset `s` of a buffer.
pub end_token : ℕ → Bytes → Bytes → Run (Option Bytes × ℕ × Bytes)
unfolding cut
end_token s buffer t = cut t (s + length t) (get_elem? buffer (s + length t)) buffer

module _ (ds : Bytes) where
  -- The token at the start of what is left of a buffer.
  pub token : Bytes → Bytes
  token [] = []
  token (x ∷ s) = let rest = token s in if contains ds x || x == 0 then [] else x ∷ rest

  -- How many separators stand there.
  pub skipped : Bytes → ℕ
  skipped [] = 0
  skipped (x ∷ s) = let rest = skipped s in if contains ds x then suc rest else 0

  -- The token at offset `s` of a buffer, of which `rest` is left.
  pub start_token : ℕ → Bytes → Bytes → Run (Option Bytes × ℕ × Bytes)
  unfolding end_token token
  start_token s buffer [] = fault
  start_token s buffer (x ∷ rest) =
      if x == 0 then done (none, s, buffer) else end_token s buffer (token (x ∷ rest))

  -- Where a token starts, from offset `p` on.
  unfoldable pub token_start : ℕ → Bytes → ℕ
  unfolding skipped
  token_start p buffer = p + skipped (drop p buffer)

  -- strtok from offset `p` on: the token, where the next call goes on, and the buffer.
  unfoldable pub strtok : ℕ → Bytes → Run (Option Bytes × ℕ × Bytes)
  unfolding token_start start_token
  strtok p buffer = let s = token_start p buffer in start_token s buffer (drop s buffer)

  -- A string without separators.
  abbrev pub Unseparated : Bytes → Type 0
  Unseparated [] = Unit
  Unseparated (x ∷ s) = (x ≢ 0) × (contains ds x ≡ false) × Unseparated s

  token_lem :
      (s t : Bytes) (x : ℕ)
      → Unseparated s
      → (contains ds x || x == 0) ≡ true
      → token (s ++ x ∷ t) ≡ s
  unfolding token
  token_lem [] t x p e = ap (λ b. if b then [] else x ∷ token t) e
  token_lem (y ∷ s) t x p e = ground (arith, p.0, p.1, token_lem s t x p.2 e)

  skipped_lem : (s t : Bytes) → s ≢ [] → Unseparated s → skipped (s ++ t) ≡ 0
  unfolding skipped
  skipped_lem [] t n p = absurd (n refl)
  skipped_lem (x ∷ s) t n p = ground (arith, p.1)

  start_token_lem :
      (n : ℕ) (b s t : Bytes)
      → s ≢ []
      → Unseparated s
      → start_token n b (s ++ t) ≡ end_token n b (token (s ++ t))
  unfolding start_token
  start_token_lem n b [] t ne p = absurd (ne refl)
  start_token_lem n b (x ∷ s) t ne p = ground (arith, p.0)

  -- Where a string starts, a token starts.
  pub token_start_lem :
      (pre s t : Bytes)
      → s ≢ []
      → Unseparated s
      → token_start (length pre) (pre ++ (s ++ t)) ≡ length pre
  unfolding token_start
  token_start_lem pre s t ne p =
      ap (λ d. length pre + skipped d) (drop-append pre (s ++ t))
      ∙ omega (arith, skipped_lem s t ne p)

  -- strtok where a string starts that ends with the byte `x`.
  strtok_lem :
      (pre s t : Bytes) (x : ℕ)
      → s ≢ []
      → Unseparated s
      → (contains ds x || x == 0) ≡ true
      → strtok (length pre) (pre ++ (s ++ x ∷ t))
        ≡ cut s (length pre + length s) (some x) (pre ++ (s ++ x ∷ t))
  unfolding strtok end_token
  strtok_lem pre s t x ne p e =
      let b = pre ++ (s ++ x ∷ t) in
      let at_end : get_elem? b (length pre + length s) ≡ some x =
        ap₂ (λ xs n. get_elem? xs n) (sym (append_assoc pre s (x ∷ t))) (sym (length-append pre s))
        ∙ get_elem?_middle (pre ++ s) x t in
      ap (λ n. start_token n b (drop n b)) (token_start_lem pre s (x ∷ t) ne p)
      ∙ ap (start_token (length pre) b) (drop-append pre (s ++ x ∷ t))
      ∙ start_token_lem (length pre) b s (x ∷ t) ne p
      ∙ ap (end_token (length pre) b) (token_lem s t x p e)
      ∙ ap (λ o. cut s (length pre + length s) o b) at_end

  -- strtok at a string with a separator behind it: the separator is overwritten.
  pub strtok-separator :
      (pre s t : Bytes) (x : ℕ)
      → s ≢ []
      → Unseparated s
      → x ≢ 0
      → contains ds x ≡ true
      → strtok (length pre) (pre ++ (s ++ x ∷ t))
        ≡ done (some s, length pre + length s + 1, pre ++ (s ++ 0 ∷ t))
  unfolding cut
  strtok-separator pre s t x ne p nz e =
      let written : set (pre ++ (s ++ x ∷ t)) (length pre + length s) 0 ≡ pre ++ (s ++ 0 ∷ t) =
        ap₂ (λ xs n. set xs n 0) (sym (append_assoc pre s (x ∷ t))) (sym (length-append pre s))
        ∙ set_middle (pre ++ s) x 0 t
        ∙ append_assoc pre s (0 ∷ t) in
      strtok_lem pre s t x ne p (ground (arith, e)) ∙ ground (arith, nz, written)

  -- strtok at a string with a NUL behind it.
  pub strtok-terminator :
      (pre s t : Bytes)
      → s ≢ []
      → Unseparated s
      → strtok (length pre) (pre ++ (s ++ 0 ∷ t))
        ≡ done (some s, length pre + length s, pre ++ (s ++ 0 ∷ t))
  unfolding cut
  strtok-terminator pre s t ne p = strtok_lem pre s t 0 ne p (ground arith)

  -- strtok at a NUL finds nothing.
  pub strtok_end :
      (pre t : Bytes)
      → contains ds 0 ≡ false
      → strtok (length pre) (pre ++ 0 ∷ t) ≡ done (none, length pre, pre ++ 0 ∷ t)
  unfolding strtok token_start skipped start_token
  strtok_end pre t e =
      let b = pre ++ 0 ∷ t in
      let left : drop (length pre) b ≡ 0 ∷ t = drop-append pre (0 ∷ t) in
      let here : length pre + skipped (drop (length pre) b) ≡ length pre =
        ap (λ d. length pre + skipped d) left ∙ ground (arith, e) in
      ap (λ n. start_token n b (drop n b)) here ∙ ap (start_token (length pre) b) left
