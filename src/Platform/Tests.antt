-- ===== src/Platform/Tests.antt =====
-- The EEPROM as a function, and the theorems on bytes and flags at it.
use c_utilities.Common.{ℕ, refl, arith, ◌==◌, if◌then◌else◌}
use c_utilities.Platform.{Eeprom, IsEeprom}

abbrev pub memory : Eeprom (ℕ → ℕ)
memory = record {
  begin = λ s. s;
  finish = λ s. s;
  read = λ s a. s a;
  write = λ s a v b. if b == a then v else s b;
}

pub memory-IsEeprom : IsEeprom memory
memory-IsEeprom = record {
  written = λ s a v p w. ground arith;
  others = λ s a b v n. ground (arith, n);
  persists = λ s a. refl;
}

abbrev pub erased : ℕ → ℕ
erased a = 255
