-- ===== src/DeviceMonitor/Response.antt =====
-- deviceMonitor.ino: commandRespDecode, the responses of the motor driver.
-- `&gCmdSeparator` and `&gParamSeparator` are passed to strtok as strings: what stands in memory from
-- there on is an argument. atoi and `map` are parameters.
pub mod Laws
pub mod Faults
use c_utilities.Common.{
  ℕ, ◌+◌, ◌-◌, ◌%◌, ◌^◌, Bool, true, false, Option, none, some, [], ◌∷◌, ltb, if◌then◌else◌, length,
  Bytes, same,
}
use c_utilities.Common.Int.{ℤ, pos, negsuc, to_u32}
use c_utilities.Common.Run.{Run, done, fault, ◌>>=◌}
use c_utilities.Common.Strtok.{strtok, token_start}
use c_utilities.HardwareControl.{MotorStats}

-- (int16_t)z
abbrev pub to_i16 : ℤ → ℤ
to_i16 z = let n = to_u32 z % 2 ^ 16 in if ltb n (2 ^ 15) then pos n else negsuc (2 ^ 16 - 1 - n)

-- The strings behind the two pointers.
pub record Separators : Type 0 where
  pub cmd : Bytes
  pub param : Bytes

-- "statM"
abbrev pub stat_m : Bytes
stat_m = b's' ∷ b't' ∷ b'a' ∷ b't' ∷ b'M' ∷ []

-- strcpy into the 12 bytes of motorState, from a pointer that may be NULL
pub copy_state : Option Bytes → MotorStats → Run MotorStats
copy_state none stats = fault
copy_state (some s) stats =
    if ltb (length s) 12 then done (record stats { motor_state = s }) else fault

module _ (arduino_map : ℤ → ℤ → ℤ → ℤ → ℤ → ℤ) where
  -- convertDhzToRpm
  unfoldable pub convert_dhz_to_rpm : ℤ → ℤ
  convert_dhz_to_rpm d_hz = arduino_map d_hz (pos 0) (pos 2500) (pos 0) (pos 15000)

-- atoi of what strtok found; NULL is dereferenced
pub number_of : (Bytes → ℤ) → Option Bytes → Run ℤ
number_of atoi none = fault
number_of atoi (some s) = done (atoi s)

module _ (arduino_map : ℤ → ℤ → ℤ → ℤ → ℤ → ℤ) (atoi : Bytes → ℤ) where
  -- The parameters of "statM", from the offset of the first on.
  pub decode_stats : Bytes → ℕ → Bytes → MotorStats → Run (Bytes × MotorStats)
  unfolding convert_dhz_to_rpm number_of copy_state
  decode_stats param p buffer stats = strtok param p buffer >>= λ a.
      number_of atoi a.0 >>= λ temperature. strtok param a.1 a.2 >>= λ b.
      number_of atoi b.0 >>= λ d_hz. strtok param b.1 b.2 >>= λ c.
      copy_state c.0 (record stats {
        temperature_c = to_i16 temperature;
        speed_rpm = to_i16 (convert_dhz_to_rpm arduino_map d_hz);
      })
      >>= λ stats1. done (c.2, stats1)

  -- What follows the name of the response: the parameters at `r`, when strtok finds them, or NULL, from
  -- which the next strtok goes on where the last ended.
  pub decode_named :
      Separators
      → Bytes
      → ℕ × Bytes
      → Option Bytes × ℕ × Bytes
      → MotorStats
      → Run (Bytes × MotorStats)
  unfolding decode_stats
  decode_named sep name r q stats =
      if same name stat_m
      then decode_stats sep.param
          (elim q.0 [ none ↦ q.1 | some params ↦ token_start sep.cmd r.0 r.1 ]) q.2 stats
      else done (q.2, stats)

  -- commandRespDecode
  pub command_resp_decode : Separators → Bytes → MotorStats → Run (Bytes × MotorStats)
  unfolding decode_named
  command_resp_decode sep buffer stats = strtok sep.cmd 0 buffer >>= λ r. elim r.0 [
    | none ↦ done (r.2, stats)
    | some name ↦ strtok sep.cmd r.1 r.2 >>= λ q. decode_named sep name (r.1, r.2) q stats
  ]
