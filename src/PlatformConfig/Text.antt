-- ===== src/PlatformConfig/Text.antt =====
-- The text of a list of configurations, and how strlen and strtok walk over it.
use c_utilities.Common.{
  ℕ, ◌+◌, ◌<◌, ◌≡◌, ◌≢◌, refl, ap, sym, ◌∙◌, Bool, true, false, not, ◌&&◌, ltb, ◌==◌, some, List,
  [], ◌∷◌, ◌++◌, append_assoc, length, length-append, Bytes, strlen, arith,
}
use c_utilities.Common.Strtok
use c_utilities.Common.Run.{done}
use c_utilities.PlatformConfig.{CfgElem, separator, terminator, strtok}

-- "key:value\0" for each configuration, the last '\0', and what is behind it in the buffer.
abbrev pub text : List CfgElem → Bytes → Bytes
text [] rest = terminator ∷ rest
text (e ∷ es) rest = e.key ++ (separator ∷ (e.value ++ (terminator ∷ text es rest)))

-- "key:value\0", with the separator as it stands in the buffer
abbrev pub line : ℕ → CfgElem → Bytes
line x e = e.key ++ (x ∷ (e.value ++ (terminator ∷ [])))

-- The lines of some configurations.
abbrev pub lines : List CfgElem → Bytes
lines [] = []
lines (e ∷ es) = line separator e ++ lines es

-- The length of a text.
abbrev pub size : List CfgElem → ℕ
size [] = 1
size (e ∷ es) = length e.key + length e.value + 2 + size es

pub length-text : (es : List CfgElem) (rest : Bytes) → length (text es rest) ≡ size es + length rest
length-text [] rest = omega arith
length-text (e ∷ es) rest = omega (
  arith,
  length-append e.key (separator ∷ (e.value ++ (terminator ∷ text es rest))),
  length-append e.value (terminator ∷ text es rest),
  length-text es rest,
)

pub text-lines : (es : List CfgElem) (rest : Bytes) → text es rest ≡ lines es ++ terminator ∷ rest
text-lines [] rest = refl
text-lines (e ∷ es) rest =
    let t = lines es ++ terminator ∷ rest in
    ap (λ xs. e.key ++ (separator ∷ (e.value ++ (terminator ∷ xs)))) (text-lines es rest)
    ∙ ap (λ xs. e.key ++ (separator ∷ xs)) (sym (append_assoc e.value (terminator ∷ []) t))
    ∙ sym (append_assoc e.key (separator ∷ (e.value ++ (terminator ∷ []))) t)
    ∙ sym (append_assoc (line separator e) (lines es) (terminator ∷ rest))

pub length-lines : (es : List CfgElem) → length (lines es) + 1 ≡ size es
length-lines es = omega (
  arith,
  ap length (text-lines es []),
  length-text es [],
  length-append (lines es) (terminator ∷ []),
)

-- A string of bytes without separators.
abbrev pub IsPlain : Bytes → Type 0
IsPlain [] = Unit
IsPlain (x ∷ s) = (x ≢ 0) × (x ≢ separator) × (x < 256) × IsPlain s

-- Keys and values that can be read back.
pub record IsToken (s : Bytes) : Type 0 where
  pub plain : IsPlain s
  pub nonempty : s ≢ []

-- A test for tokens.
abbrev pub is_plain : Bytes → Bool
is_plain [] = true
is_plain (x ∷ s) = not (x == 0) && not (x == separator) && ltb x 256 && is_plain s

abbrev pub is_token : Bytes → Bool
is_token [] = false
is_token (x ∷ s) = is_plain (x ∷ s)

pub IsPlain-is_plain : (s : Bytes) → is_plain s ≡ true → IsPlain s
IsPlain-is_plain [] h = tt
IsPlain-is_plain (x ∷ s) h = (
  λ p. absurd (ground (arith, p, h)),
  λ p. absurd (ground (arith, p, h)),
  ground (arith, h),
  IsPlain-is_plain s (ground (arith, h)),
)

pub IsToken-is_token : (s : Bytes) → is_token s ≡ true → IsToken s
IsToken-is_token [] h = absurd cc
IsToken-is_token (x ∷ s) h = record { plain = IsPlain-is_plain (x ∷ s) h; nonempty = λ e. cc }

abbrev pub AllTokens : List CfgElem → Type 0
AllTokens [] = Unit
AllTokens (e ∷ es) = IsToken e.key × IsToken e.value × AllTokens es

pub strlen-append :
    (s t : Bytes) {n : ℕ} → IsPlain s → strlen t ≡ some n → strlen (s ++ t) ≡ some (length s + n)
strlen-append [] t p h = h ∙ ap some (omega arith)
strlen-append (x ∷ s) t p h = ground (arith, p.0, strlen-append s t p.3 h)

IsPlain-Unseparated : (s : Bytes) → IsPlain s → Strtok.Unseparated (separator ∷ []) s
IsPlain-Unseparated [] p = tt
IsPlain-Unseparated (x ∷ s) p = (p.0, ground (arith, p.1), IsPlain-Unseparated s p.3)

-- strtok at a string with a separator behind it: the separator is overwritten.
pub strtok-separator :
    (pre s t : Bytes)
    → IsToken s
    → strtok (length pre) (pre ++ (s ++ separator ∷ t))
      ≡ done (some s, length pre + length s + 1, pre ++ (s ++ terminator ∷ t))
unfolding strtok
strtok-separator pre s t h =
    Strtok.strtok-separator (separator ∷ []) pre s t separator h.nonempty
      (IsPlain-Unseparated s h.plain) (λ e. absurd (omega (arith, e))) (ground arith)

-- strtok at a string with a NUL behind it.
pub strtok-terminator :
    (pre s t : Bytes)
    → IsToken s
    → strtok (length pre) (pre ++ (s ++ terminator ∷ t))
      ≡ done (some s, length pre + length s, pre ++ (s ++ terminator ∷ t))
unfolding strtok
strtok-terminator pre s t h =
    Strtok.strtok-terminator (separator ∷ []) pre s t h.nonempty (IsPlain-Unseparated s h.plain)
