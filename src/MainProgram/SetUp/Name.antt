-- ===== src/MainProgram/SetUp/Name.antt =====
-- The name of the device.
use c_utilities.Common.{
  ℕ, ◌+◌, ◌*◌, ◌/◌, ◌%◌, ◌≤◌, ◌<◌, ◌≡◌, ◌≢◌, refl, ap, ap₂, sym, subst, ◌∙◌, false, Option, none,
  some, List, [], ◌∷◌, ◌++◌, ltb, Bytes, same, arith, Bool-cases, Option-cases, inl, inr, if_true,
  if_false,
}
use c_utilities.Common.Run.{Run, done, ◌>>=◌}
use c_utilities.Platform.{Eeprom}
use c_utilities.PlatformConfig.{CfgElem}
use c_utilities.PlatformConfig.Text.{size, IsPlain, IsToken, IsToken-is_token, IsPlain-is_plain}
use c_utilities.PlatformConfig.Store.Represents.{lookup, insert, Represents}
use c_utilities.PlatformConfig.Store.Refines.{lookup-insert, lookup-insert_other}
use c_utilities.Configuration.Laws.{get_configuration_lem}
use c_utilities.TcpControl.Device.{device_name_key}
use c_utilities.MainProgram.{App, configured}
use c_utilities.MainProgram.Network.{store_value}
use c_utilities.MainProgram.Network.Laws.{with_store, store_value_lem}
use c_utilities.MainProgram.SetUp.{
  hex_digit, hex, mac_to_str, mist_controller, save_device_name, set_device_name_eeprom,
}

hex_one : (x : ℕ) → x < 16 → hex x ≡ hex_digit x ∷ []
unfolding hex
hex_one x h = if_true {b = ltb x 16} _ _ (ground (arith, h))

hex_two : (x : ℕ) → 16 ≤ x → hex x ≡ hex_digit (x / 16) ∷ hex_digit (x % 16) ∷ []
unfolding hex
hex_two x h = if_false {b = ltb x 16} _ _ (ground (arith, h))

-- Different addresses can give one name: a digit moves from the one byte to the other, since no leading
-- zero is written.
pub mac_to_str_collides :
    (a b c : ℕ)
    → 0 < a
    → a < 16
    → 0 < b
    → b < 16
    → c < 16
    → mac_to_str a (b * 16 + c) ≡ mac_to_str (a * 16 + b) c
unfolding mac_to_str
mac_to_str_collides a b c a1 a2 b1 b2 c2 =
    let left : hex (b * 16 + c) ≡ hex_digit b ∷ hex_digit c ∷ [] =
      hex_two (b * 16 + c) (omega arith)
      ∙ ap₂ (λ x y. hex_digit x ∷ hex_digit y ∷ []) (omega arith) (omega arith) in
    let right : hex (a * 16 + b) ≡ hex_digit a ∷ hex_digit b ∷ [] =
      hex_two (a * 16 + b) (omega arith)
      ∙ ap₂ (λ x y. hex_digit x ∷ hex_digit y ∷ []) (omega arith) (omega arith) in
    ap₂ (λ x y. x ++ y) (hex_one a a2) left ∙ sym (ap₂ (λ x y. x ++ y) right (hex_one c c2))

hex_digit_bounds : (n : ℕ) → n < 16 → (hex_digit n ≢ 0) × (hex_digit n ≢ b':') × (hex_digit n < 256)
unfolding hex_digit
hex_digit_bounds n h =
    (λ e. absurd (ground (arith, e)), λ e. absurd (ground (arith, e)), ground arith)

digit-IsPlain : (n : ℕ) (s : Bytes) → n < 16 → IsPlain s → IsPlain (hex_digit n ∷ s)
digit-IsPlain n s h p = let b = hex_digit_bounds n h in (b.0, b.1, b.2, p)

IsPlain-append : (s t : Bytes) → IsPlain s → IsPlain t → IsPlain (s ++ t)
IsPlain-append [] t p q = q
IsPlain-append (x ∷ s) t p q = (p.0, p.1, p.2, IsPlain-append s t p.3 q)

hex-IsPlain : (x : ℕ) → x < 256 → IsPlain (hex x)
hex-IsPlain x h = elim (Bool-cases (ltb x 16)) [
  | inl short ↦
      subst IsPlain (sym (hex_one x (ground (arith, short))))
        (digit-IsPlain x [] (ground (arith, short)) tt)
  | inr long ↦ subst IsPlain (sym (hex_two x (ground (arith, long)))) (
      digit-IsPlain (x / 16) (hex_digit (x % 16) ∷ []) (omega arith)
        (digit-IsPlain (x % 16) [] (omega arith) tt))
]

-- The name can be stored and read back.
save_device_name-IsToken : (m4 m5 : ℕ) → m4 < 256 → m5 < 256 → IsToken (save_device_name m4 m5)
unfolding save_device_name mac_to_str
save_device_name-IsToken m4 m5 h4 h5 = record {
  plain =
      IsPlain-append mist_controller (hex m4 ++ hex m5) (IsPlain-is_plain mist_controller refl)
        (IsPlain-append (hex m4) (hex m5) (hex-IsPlain m4 h4) (hex-IsPlain m5 h5));
  nonempty = λ e. cc;
}

pub device_name_key-IsToken : IsToken device_name_key
device_name_key-IsToken = IsToken-is_token device_name_key refl

-- The name of the device after setDeviceNameEEPROM.
abbrev pub name_after : ℕ → ℕ → Option Bytes → Bytes
name_after m4 m5 none = save_device_name m4 m5
name_after m4 m5 (some name) = name

module _ {S : Type 0} (E : Eeprom S) where
  -- setDeviceNameEEPROM keeps the name that is stored, and otherwise stores the one made of the address,
  -- if it fits; the other configurations stay.
  pub set_device_name_eeprom_lem :
      (m4 m5 : ℕ) (a : App S) (es : List CfgElem)
      → m4 < 256
      → m5 < 256
      → Represents a.device.store es
      → size (insert device_name_key (save_device_name m4 m5) es) ≤ 500
      → (a1 : App S) × (es1 : List CfgElem) × (set_device_name_eeprom E m4 m5 a ≡ done a1)
        × Represents a1.device.store es1
        × (lookup device_name_key es1 ≡ some (name_after m4 m5 (lookup device_name_key es)))
        × ((k : Bytes) → same k device_name_key ≡ false → lookup k es1 ≡ lookup k es)
  unfolding set_device_name_eeprom configured
  set_device_name_eeprom_lem m4 m5 a es h4 h5 h fits =
      let name = save_device_name m4 m5 in
      let by : Option Bytes → Run (App S) =
        λ o. elim o [ none ↦ store_value E device_name_key (some name) a | some name ↦ done a ] in
      let found = ap (λ m. m >>= by) (get_configuration_lem device_name_key es a.device.store h) in
      elim (Option-cases (lookup device_name_key es)) [
        | inl missing ↦
            let (c, run, r, w) =
              store_value_lem E device_name_key name a es h device_name_key-IsToken
                (save_device_name-IsToken m4 m5 h4 h5) fits in
            (
              with_store a c,
              insert device_name_key name es,
              found ∙ ap by missing ∙ run,
              r,
              lookup-insert device_name_key name es
                  ∙ ap (λ o. some (name_after m4 m5 o)) (sym missing),
              λ k other. lookup-insert_other k device_name_key name es other,
            )
        | inr (old, there) ↦ (
          a,
          es,
          found ∙ ap by there,
          h,
          there ∙ ap (λ o. some (name_after m4 m5 o)) (sym there),
          λ k other. refl,
        )
      ]

  -- A name that is stored is kept.
  pub set_device_name_eeprom_kept :
      (m4 m5 : ℕ) (name : Bytes) (a : App S) (es : List CfgElem)
      → Represents a.device.store es
      → lookup device_name_key es ≡ some name
      → set_device_name_eeprom E m4 m5 a ≡ done a
  unfolding set_device_name_eeprom configured
  set_device_name_eeprom_kept m4 m5 name a es h there =
      ap
        (λ m. m >>= λ o. elim o [
          | none ↦ store_value E device_name_key (some (save_device_name m4 m5)) a
          | some name ↦ done a
        ])
        (get_configuration_lem device_name_key es a.device.store h ∙ ap done there)
