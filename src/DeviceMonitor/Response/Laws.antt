-- ===== src/DeviceMonitor/Response/Laws.antt =====
-- What commandRespDecode makes of a response "statM:temperature,speed,state".
use c_utilities.Common.{
  ℕ, ◌+◌, ◌<◌, ◌≡◌, ◌≢◌, refl, ap, ap₂, sym, ◌∙◌, Bool, true, not, ◌&&◌, ◌==◌, Option, none, some,
  [], ◌∷◌, ◌++◌, append_assoc, append-nil, ltb, length, length-append, Bytes, arith, if_true,
}
use c_utilities.Common.Int.{ℤ}
use c_utilities.Common.Run.{Run, done, ◌>>=◌}
use c_utilities.Common.Strtok.{
  contains, Unseparated, strtok, token_start_lem, strtok-separator, strtok-terminator,
}
use c_utilities.HardwareControl.{MotorStats}
use c_utilities.DeviceMonitor.Response.{
  to_i16, Separators, stat_m, copy_state, convert_dhz_to_rpm, number_of, decode_stats, decode_named,
  command_resp_decode,
}

-- The bytes of a parameter: no NUL, and none of ":,#".
abbrev pub IsPlain : Bytes → Type 0
IsPlain [] = Unit
IsPlain (x ∷ s) = (x ≢ 0) × (x ≢ b':') × (x ≢ b',') × (x ≢ b'#') × IsPlain s

pub record IsParam (s : Bytes) : Type 0 where
  pub plain : IsPlain s
  pub nonempty : s ≢ []

-- A test for parameters.
abbrev pub is_plain : Bytes → Bool
is_plain [] = true
is_plain (x ∷ s) =
    not (x == 0) && not (x == b':') && not (x == b',') && not (x == b'#') && is_plain s

pub IsPlain-is_plain : (s : Bytes) → is_plain s ≡ true → IsPlain s
IsPlain-is_plain [] h = tt
IsPlain-is_plain (x ∷ s) h = (
  λ e. absurd (ground (arith, h, e)),
  λ e. absurd (ground (arith, h, e)),
  λ e. absurd (ground (arith, h, e)),
  λ e. absurd (ground (arith, h, e)),
  IsPlain-is_plain s (ground (arith, h)),
)

pub IsParam-is_plain : (x : ℕ) (s : Bytes) → is_plain (x ∷ s) ≡ true → IsParam (x ∷ s)
IsParam-is_plain x s h = record { plain = IsPlain-is_plain (x ∷ s) h; nonempty = λ e. cc }

-- The parameters of a response, and what stands behind them.
abbrev pub params : Bytes → Bytes → Bytes → Bytes → Bytes
params a b c rest = a ++ b',' ∷ (b ++ b',' ∷ (c ++ rest))

abbrev pub colon : Bytes
colon = b':' ∷ []

abbrev pub comma : Bytes
comma = b',' ∷ []

-- The separators, when each is followed by a NUL.
abbrev pub separators : Separators
separators = record { cmd = colon; param = comma }

-- The motor as the parameters say.
abbrev pub stats_of : (ℤ → ℤ → ℤ → ℤ → ℤ → ℤ) → (Bytes → ℤ) → Bytes → Bytes → Bytes → MotorStats
stats_of arduino_map atoi a b c = record {
  temperature_c = to_i16 (atoi a);
  speed_rpm = to_i16 (convert_dhz_to_rpm arduino_map (atoi b));
  motor_state = c;
}

Unseparated-comma : (s : Bytes) → IsPlain s → Unseparated comma s
Unseparated-comma [] p = tt
Unseparated-comma (x ∷ s) p = (p.0, ground (arith, p.2), Unseparated-comma s p.4)

Unseparated-colon : (s t : Bytes) → IsPlain s → Unseparated colon t → Unseparated colon (s ++ t)
Unseparated-colon [] t p h = h
Unseparated-colon (x ∷ s) t p h = (p.0, ground (arith, p.1), Unseparated-colon s t p.4 h)

-- The next call of strtok goes on behind the NUL that the last one wrote.
next_strtok :
    (ds pre s t : Bytes)
    → strtok ds (length pre + length s + 1) (pre ++ (s ++ 0 ∷ t))
      ≡ strtok ds (length (pre ++ (s ++ 0 ∷ []))) ((pre ++ (s ++ 0 ∷ [])) ++ t)
next_strtok ds pre s t =
    ap₂ (strtok ds) (omega (arith, length-append pre (s ++ 0 ∷ []), length-append s (0 ∷ [])))
      (sym (append_assoc pre (s ++ 0 ∷ []) t ∙ ap (λ x. pre ++ x) (append_assoc s (0 ∷ []) t)))

append_ne_nil : (s t : Bytes) → s ≢ [] → s ++ t ≢ []
append_ne_nil [] t n e = n refl
append_ne_nil (x ∷ s) t n e = cc

pub params_split :
    (a b c rest : Bytes) (x : ℕ) → params a b c (x ∷ rest) ≡ params a b c [] ++ x ∷ rest
params_split a b c rest x =
    ap (λ s. a ++ b',' ∷ (b ++ b',' ∷ s)) (ap (λ s. s ++ x ∷ rest) (sym (append-nil c)))
    ∙ ap (λ s. a ++ b',' ∷ s) (sym (append_assoc b (b',' ∷ (c ++ [])) (x ∷ rest)))
    ∙ sym (append_assoc a (b',' ∷ (b ++ b',' ∷ (c ++ []))) (x ∷ rest))

params-Unseparated :
    (a b c : Bytes) → IsPlain a → IsPlain b → IsPlain c → Unseparated colon (params a b c [])
params-Unseparated a b c ha hb hc = Unseparated-colon a (b',' ∷ (b ++ b',' ∷ (c ++ []))) ha (
  λ e. absurd (omega (arith, e)),
  refl,
  Unseparated-colon b (b',' ∷ (c ++ [])) hb
      (λ e. absurd (omega (arith, e)), refl, Unseparated-colon c [] hc tt),
)

-- A string without NUL and separators, by a test.
abbrev pub unseparated : Bytes → Bytes → Bool
unseparated ds [] = true
unseparated ds (x ∷ s) = not (x == 0) && not (contains ds x) && unseparated ds s

pub Unseparated-unseparated : (ds s : Bytes) → unseparated ds s ≡ true → Unseparated ds s
Unseparated-unseparated ds [] h = tt
Unseparated-unseparated ds (x ∷ s) h = (
  λ e. absurd (ground (arith, h, e)),
  ground (arith, h),
  Unseparated-unseparated ds s (ground (arith, h)),
)

pub stat_m-Unseparated : Unseparated colon stat_m
stat_m-Unseparated = Unseparated-unseparated colon stat_m refl

module _ (arduino_map : ℤ → ℤ → ℤ → ℤ → ℤ → ℤ) (atoi : Bytes → ℤ) where
  decode_stats_lem :
      (pre a b c rest : Bytes) (stats : MotorStats)
      → IsParam a
      → IsParam b
      → IsParam c
      → length c < 12
      → decode_stats arduino_map atoi comma (length pre) (pre ++ params a b c (0 ∷ rest)) stats
        ≡ done (
          ((pre ++ (a ++ 0 ∷ [])) ++ (b ++ 0 ∷ [])) ++ (c ++ 0 ∷ rest),
          stats_of arduino_map atoi a b c,
        )
  unfolding decode_stats number_of copy_state
  decode_stats_lem pre a b c rest stats ha hb hc short =
      let pre1 = pre ++ (a ++ 0 ∷ []) in
      let pre2 = pre1 ++ (b ++ 0 ∷ []) in
      let left : Bytes = b ++ b',' ∷ (c ++ 0 ∷ rest) in
      let s1 : ℤ → ℤ → MotorStats = λ t d. record stats {
        temperature_c = to_i16 t;
        speed_rpm = to_i16 (convert_dhz_to_rpm arduino_map d);
      } in
      let third : ℤ → ℤ → Option Bytes × ℕ × Bytes → Run (Bytes × MotorStats) =
        λ t d r. copy_state r.0 (s1 t d) >>= λ x. done (r.2, x) in
      let second : ℤ → Option Bytes × ℕ × Bytes → Run (Bytes × MotorStats) =
        λ t r. number_of atoi r.0 >>= λ d. strtok comma r.1 r.2 >>= third t d in
      let first : Option Bytes × ℕ × Bytes → Run (Bytes × MotorStats) =
        λ r. number_of atoi r.0 >>= λ t. strtok comma r.1 r.2 >>= second t in
      ap (λ m. m >>= first)
        (strtok-separator comma pre a left b',' ha.nonempty (Unseparated-comma a ha.plain)
          (λ e. absurd (omega (arith, e))) refl)
      ∙ ap (λ m. m >>= second (atoi a))
          (next_strtok comma pre a left
            ∙ strtok-separator comma pre1 b (c ++ 0 ∷ rest) b',' hb.nonempty
                (Unseparated-comma b hb.plain) (λ e. absurd (omega (arith, e))) refl)
      ∙ ap (λ m. m >>= third (atoi a) (atoi b))
          (next_strtok comma pre1 b (c ++ 0 ∷ rest)
            ∙ strtok-terminator comma pre2 c rest hc.nonempty (Unseparated-comma c hc.plain))
      ∙ ap (λ m. m >>= λ x. done (pre2 ++ (c ++ 0 ∷ rest), x))
          (if_true {b = ltb (length c) 12} _ _ (ground (arith, short)))

  -- A response "statM:" with three parameters.
  pub command_resp_decode_lem :
      (a b c rest : Bytes) (stats : MotorStats)
      → IsParam a
      → IsParam b
      → IsParam c
      → length c < 12
      → command_resp_decode arduino_map atoi separators
          (stat_m ++ b':' ∷ params a b c (0 ∷ rest))
          stats
        ≡ done (
          stat_m ++ 0 ∷ (((a ++ 0 ∷ []) ++ (b ++ 0 ∷ [])) ++ (c ++ 0 ∷ rest)),
          stats_of arduino_map atoi a b c,
        )
  unfolding command_resp_decode decode_named
  command_resp_decode_lem a b c rest stats ha hb hc short =
      let pre = stat_m ++ 0 ∷ [] in
      let p : Bytes = params a b c [] in
      let whole = params_split a b c rest 0 in
      let ne = append_ne_nil a (b',' ∷ (b ++ b',' ∷ (c ++ []))) ha.nonempty in
      let plain = params-Unseparated a b c ha.plain hb.plain hc.plain in
      let named : Bytes → ℕ × Bytes → Option Bytes × ℕ × Bytes → Run (Bytes × MotorStats) =
        λ name r q. decode_named arduino_map atoi separators name r q stats in
      let found : Option Bytes × ℕ × Bytes → Run (Bytes × MotorStats) = λ r. elim r.0 [
        | none ↦ done (r.2, stats)
        | some name ↦ strtok colon r.1 r.2 >>= named name (r.1, r.2)
      ] in
      ap (λ t. strtok colon 0 (stat_m ++ b':' ∷ t) >>= found) whole
      ∙ ap (λ m. m >>= found)
          (strtok-separator colon [] stat_m (p ++ 0 ∷ rest) b':' (λ e. cc) stat_m-Unseparated
            (λ e. absurd (omega (arith, e))) refl)
      ∙ ap (λ m. m >>= named stat_m (6, pre ++ (p ++ 0 ∷ rest)))
          (strtok-terminator colon pre p rest ne plain)
      ∙ ap₂ (λ n t. decode_stats arduino_map atoi comma n (pre ++ t) stats)
          (token_start_lem colon pre p (0 ∷ rest) ne plain) (sym whole)
      ∙ decode_stats_lem pre a b c rest stats ha hb hc short
