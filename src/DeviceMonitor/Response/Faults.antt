-- ===== src/DeviceMonitor/Response/Faults.antt =====
-- Responses at which commandRespDecode calls atoi with NULL.
use c_utilities.Common.{
  ℕ, ◌+◌, ◌≡◌, ◌≢◌, refl, ap, ap₂, sym, ◌∙◌, false, Option, none, some, [], ◌∷◌, ◌++◌, append_assoc,
  length, length-append, Bytes, arith,
}
use c_utilities.Common.Int.{ℤ}
use c_utilities.Common.Run.{Run, done, fault, ◌>>=◌}
use c_utilities.Common.Strtok.{
  contains, Unseparated, strtok, token_start_lem, strtok-separator, strtok-terminator, strtok_end,
}
use c_utilities.HardwareControl.{MotorStats}
use c_utilities.DeviceMonitor.Response.{
  Separators, stat_m, number_of, decode_stats, decode_named, command_resp_decode,
}
use c_utilities.DeviceMonitor.Response.Laws.{params, colon, comma, separators, stat_m-Unseparated}

module _ (arduino_map : ℤ → ℤ → ℤ → ℤ → ℤ → ℤ) (atoi : Bytes → ℤ) where
  decode_stats_none :
      (ds pre rest : Bytes) (stats : MotorStats)
      → contains ds 0 ≡ false
      → decode_stats arduino_map atoi ds (length pre) (pre ++ 0 ∷ rest) stats ≡ fault
  unfolding decode_stats number_of
  decode_stats_none ds pre rest stats e = rw (strtok_end ds pre rest e)

  decode_stats_one :
      (ds pre a rest : Bytes) (stats : MotorStats)
      → a ≢ []
      → Unseparated ds a
      → contains ds 0 ≡ false
      → decode_stats arduino_map atoi ds (length pre) (pre ++ (a ++ 0 ∷ rest)) stats ≡ fault
  unfolding decode_stats number_of
  decode_stats_one ds pre a rest stats ne p e =
      let ended : strtok ds (length pre + length a) (pre ++ (a ++ 0 ∷ rest))
          ≡ done (none, length (pre ++ a), (pre ++ a) ++ 0 ∷ rest) =
        ap₂ (strtok ds) (sym (length-append pre a)) (sym (append_assoc pre a (0 ∷ rest)))
        ∙ strtok_end ds (pre ++ a) rest e in
      rw (strtok-terminator ds pre a rest ne p) (rw ended)

  -- A response "statM" without parameters: atoi is called with NULL.
  pub command_resp_decode_bare :
      (rest : Bytes) (stats : MotorStats)
      → command_resp_decode arduino_map atoi separators (stat_m ++ 0 ∷ rest) stats ≡ fault
  unfolding command_resp_decode decode_named decode_stats number_of
  command_resp_decode_bare rest stats =
      let named : Bytes → ℕ × Bytes → Option Bytes × ℕ × Bytes → Run (Bytes × MotorStats) =
        λ name r q. decode_named arduino_map atoi separators name r q stats in
      let found : Option Bytes × ℕ × Bytes → Run (Bytes × MotorStats) = λ r. elim r.0 [
        | none ↦ done (r.2, stats)
        | some name ↦ strtok colon r.1 r.2 >>= named name (r.1, r.2)
      ] in
      ap (λ m. m >>= found) (strtok-terminator colon [] stat_m rest (λ e. cc) stat_m-Unseparated)
      ∙ ap (λ m. m >>= named stat_m (5, stat_m ++ 0 ∷ rest)) (strtok_end colon stat_m rest refl)
      ∙ decode_stats_none comma stat_m rest stats refl

  -- Should gParamSeparator stand right behind gCmdSeparator, both end the name of a response and each of
  -- its parameters: only the first parameter is found, and atoi is called with NULL for the second.
  pub command_resp_decode_adjacent :
      (ds ps a b c rest : Bytes) (stats : MotorStats)
      → a ≢ []
      → Unseparated (b':' ∷ b',' ∷ ds) stat_m
      → Unseparated (b':' ∷ b',' ∷ ds) a
      → Unseparated ps a
      → contains ps 0 ≡ false
      → command_resp_decode arduino_map atoi
          (record { cmd = b':' ∷ b',' ∷ ds; param = ps })
          (stat_m ++ b':' ∷ params a b c (0 ∷ rest))
          stats
        ≡ fault
  unfolding command_resp_decode decode_named decode_stats number_of
  command_resp_decode_adjacent ds ps a b c rest stats ne hn hc hp hz =
      let both : Bytes = b':' ∷ b',' ∷ ds in
      let pre = stat_m ++ 0 ∷ [] in
      let left : Bytes = b ++ b',' ∷ (c ++ 0 ∷ rest) in
      let sep : Separators = record { cmd = both; param = ps } in
      let named : Bytes → ℕ × Bytes → Option Bytes × ℕ × Bytes → Run (Bytes × MotorStats) =
        λ name r q. decode_named arduino_map atoi sep name r q stats in
      let found : Option Bytes × ℕ × Bytes → Run (Bytes × MotorStats) = λ r. elim r.0 [
        | none ↦ done (r.2, stats)
        | some name ↦ strtok both r.1 r.2 >>= named name (r.1, r.2)
      ] in
      ap (λ m. m >>= found)
        (strtok-separator both [] stat_m (a ++ b',' ∷ left) b':' (λ e. cc) hn
          (λ e. absurd (omega (arith, e))) refl)
      ∙ ap (λ m. m >>= named stat_m (6, pre ++ (a ++ b',' ∷ left)))
          (strtok-separator both pre a left b',' ne hc (λ e. absurd (omega (arith, e))) refl)
      ∙ ap (λ n. decode_stats arduino_map atoi ps n (pre ++ (a ++ 0 ∷ left)) stats)
          (token_start_lem both pre a (b',' ∷ left) ne hc)
      ∙ decode_stats_one ps pre a left stats ne hp hz
