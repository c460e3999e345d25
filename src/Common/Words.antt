-- ===== src/Common/Words.antt =====
-- The unsigned machine words of dataTypes.h: a value is a native number, and arithmetic that can
-- wrap is reduced by the modulus of its type.
use Prim.Native.Nat.{ℕ, ◌+◌, ◌-◌, ◌%◌, ◌^◌}

-- UInt8_t and Bool
abbrev pub u8 : ℕ → ℕ
u8 n = n % 2 ^ 8

-- UInt32_t
abbrev pub u32 : ℕ → ℕ
u32 n = n % 2 ^ 32

-- `x - 1` and `x--` on UInt32_t
abbrev pub u32_pred : ℕ → ℕ
u32_pred n = (n + 2 ^ 32 - 1) % 2 ^ 32

-- `x--` on UInt8_t
abbrev pub u8_pred : ℕ → ℕ
u8_pred n = (n + 2 ^ 8 - 1) % 2 ^ 8
