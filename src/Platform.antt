-- ===== src/Platform.antt =====
-- esp32MistingController/platform.ino: bytes that outlive a restart, in the EEPROM.
-- The EEPROM library is a parameter, with its documented behaviour as laws.
pub mod Laws
pub mod Tests
use c_utilities.Common.{
  ℕ, zero, suc, ◌+◌, ◌*◌, ◌/◌, ◌%◌, ◌<◌, ◌≡◌, ◌≢◌, Option, none, some, List, [], ◌∷◌, get_elem?,
}
use c_utilities.Common.Run.{Run, done, fault, ◌>>=◌}

-- EEPROM.begin(512), EEPROM.end(), EEPROM.read and EEPROM.write, on the library's state
pub record Eeprom (S : Type 0) : Type 0 where
  pub begin : S → S
  pub finish : S → S
  pub read : S → ℕ → ℕ
  pub write : S → ℕ → ℕ → S

-- A byte written is there to be read, and what `finish` commits is what `begin` loads.
pub record IsEeprom {S : Type 0} (E : Eeprom S) : Type 0 where
  pub written : (s : S) (a v : ℕ) → a < 512 → v < 256 → E.read (E.write s a v) a ≡ v
  pub others : (s : S) (a b v : ℕ) → a ≢ b → E.read (E.write s a v) b ≡ E.read s b
  pub persists : (s : S) (a : ℕ) → E.read (E.begin (E.finish s)) a ≡ E.read s a

module _ {S : Type 0} (E : Eeprom S) where
  -- getPersistentByte
  pub get_persistent_byte : ℕ → S → ℕ × S
  get_persistent_byte address s = (E.read (E.begin s) address, E.finish (E.begin s))

  -- The loop of getPersistentBytes, for `len` more bytes.
  pub read_from : ℕ → ℕ → S → List ℕ
  read_from zero address s = []
  read_from (suc len) address s = E.read s address ∷ read_from len (address + 1) s

  -- getPersistentBytes, with the bytes that it puts at `getConfig`
  pub get_persistent_bytes : ℕ → ℕ → S → List ℕ × S
  unfolding read_from
  get_persistent_bytes address len s = (read_from len address (E.begin s), E.finish (E.begin s))

  -- getPersistentShort
  pub get_persistent_short : ℕ → S → ℕ × S
  get_persistent_short address s =
      let lsb = E.read (E.begin s) address in
      let msb = E.read (E.begin s) (address + 1) in
      ((msb * 256 + lsb) % 65536, E.finish (E.begin s))

  -- setPersistentByte
  unfoldable pub set_persistent_byte : ℕ → ℕ → S → S
  set_persistent_byte address value s = E.finish (E.write (E.begin s) address value)

  -- setPersistentShort
  pub set_persistent_short : ℕ → ℕ → S → S
  set_persistent_short address value s =
      let lsb = value % 256 in
      let msb = value / 256 % 256 in
      E.finish (E.write (E.write (E.begin s) address lsb) (address + 1) msb)

  -- The loop of setPersistentBytes, for `len` more bytes from index `i` on.
  pub write_from : ℕ → ℕ → ℕ → List ℕ → S → Run S
  write_from zero i address value s = done s
  write_from (suc len) i address value s = elim (get_elem? value i) [
    | none ↦ fault
    | some v ↦ write_from len (i + 1) (address + 1) value (E.write s address v)
  ]

  -- setPersistentBytes
  pub set_persistent_bytes : ℕ → List ℕ → ℕ → S → Run S
  unfolding write_from
  set_persistent_bytes address value len s =
      write_from len 0 address value (E.begin s) >>= λ s1. done (E.finish s1)

  -- The loop of setPersistentBytesWithDataByte, for `len` more bytes.
  pub fill_from : ℕ → ℕ → ℕ → S → S
  fill_from zero address data_byte s = s
  fill_from (suc len) address data_byte s =
      fill_from len (address + 1) data_byte (E.write s address data_byte)

  -- setPersistentBytesWithDataByte
  pub set_persistent_bytes_with_data_byte : ℕ → ℕ → ℕ → S → S
  unfolding fill_from
  set_persistent_bytes_with_data_byte address len data_byte s =
      E.finish (fill_from len address data_byte (E.begin s))
