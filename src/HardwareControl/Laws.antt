-- ===== src/HardwareControl/Laws.antt =====
-- Speeds on their way to the motors.
use c_utilities.Common.{
  ℕ, zero, suc, ◌+◌, ◌-◌, ◌*◌, ◌/◌, ◌%◌, ◌≤◌, ◌<◌, ◌≡◌, refl, ap, ◌∙◌, true, [], ◌∷◌, ◌++◌, ltb,
  length, length-append, Bytes, arith, Bool-cases, inl, inr, if_true, if_false,
}
use c_utilities.Common.Int.{ℤ, pos}
use c_utilities.Common.Run.{done, ◌>>=◌}
use c_utilities.HardwareControl.{
  Stepper, IsMap, digits, decimal, printed, transmit_uart_data, strt_m, convert_rpm_to_dhz,
  speed_command, bldc_on, outside_speeds, sm_on,
}
use c_utilities.DeviceMonitor.Response.{convert_dhz_to_rpm}

-- The number that decimal digits stand for, behind those of `n`.
abbrev pub value_of : ℕ → Bytes → ℕ
value_of n [] = n
value_of n (x ∷ s) = value_of (n * 10 + (x - b'0')) s

abbrev pub AllDigits : Bytes → Type 0
AllDigits [] = Unit
AllDigits (x ∷ s) = (b'0' ≤ x) × (x ≤ b'9') × AllDigits s

-- The first number with more than `n` digits.
ten_to : ℕ → ℕ
ten_to zero = 1
ten_to (suc n) = 10 * ten_to n

value_of-digits :
    (fuel n : ℕ) (s : Bytes)
    → n < ten_to (suc fuel)
    → value_of 0 (digits (suc fuel) n s) ≡ value_of n s
unfolding digits ten_to
value_of-digits zero n s h =
    ap (value_of 0) (if_true {b = ltb n 10} _ _ (ground arith))
    ∙ ap (λ m. value_of m s) (omega arith)
value_of-digits (suc fuel) n s h = elim (Bool-cases (ltb n 10)) [
  | inl last ↦
      ap (value_of 0) (if_true {b = ltb n 10} _ _ last) ∙ ap (λ m. value_of m s) (omega arith)
  | inr more ↦
      ap (value_of 0) (if_false {b = ltb n 10} _ _ more)
      ∙ value_of-digits fuel (n / 10) ((b'0' + n % 10) ∷ s) (omega arith)
      ∙ ap (λ m. value_of m s) (omega arith)
]

digits-AllDigits : (fuel n : ℕ) (s : Bytes) → AllDigits s → AllDigits (digits fuel n s)
unfolding digits
digits-AllDigits zero n s h = h
digits-AllDigits (suc fuel) n s h =
    let rest = digits-AllDigits fuel (n / 10) ((b'0' + n % 10) ∷ s) (omega arith, omega arith, h) in
    elim (Bool-cases (ltb n 10)) [
      | inl last ↦ rw last (omega arith, ground (arith, last), h)
      | inr more ↦ rw more rest
    ]

length-digits : (fuel n : ℕ) (s : Bytes) → length (digits fuel n s) ≤ fuel + length s
unfolding digits
length-digits zero n s = omega arith
length-digits (suc fuel) n s = ground (arith, length-digits fuel (n / 10) ((b'0' + n % 10) ∷ s))

few : (rpm : ℕ) → rpm ≤ 15000 → rpm / 6 < ten_to 10
unfolding ten_to
few rpm h = omega arith

module _ (arduino_map : ℤ → ℤ → ℤ → ℤ → ℤ → ℤ) (m : IsMap arduino_map) where
  convert_rpm_to_dhz_lem :
      (rpm : ℕ) → rpm ≤ 15000 → convert_rpm_to_dhz arduino_map (pos rpm) ≡ pos (rpm / 6)
  unfolding convert_rpm_to_dhz
  convert_rpm_to_dhz_lem rpm h =
      m.rising rpm 0 15000 0 2500 (omega arith) (omega arith) (omega arith) (omega arith)
      ∙ ap pos (omega arith)

  -- A speed of at most 15000 rpm that is converted to dHz and back loses less than 6 rpm: it is the
  -- multiple of 6 below.
  pub convert_dhz_to_rpm-convert_rpm_to_dhz :
      (rpm : ℕ)
      → rpm ≤ 15000
      → convert_dhz_to_rpm arduino_map (convert_rpm_to_dhz arduino_map (pos rpm))
        ≡ pos (rpm / 6 * 6)
  unfolding convert_dhz_to_rpm
  convert_dhz_to_rpm-convert_rpm_to_dhz rpm h =
      ap (convert_dhz_to_rpm arduino_map) (convert_rpm_to_dhz_lem rpm h)
      ∙ m.rising (rpm / 6) 0 2500 0 15000 (omega arith) (omega arith) (omega arith) (omega arith)
      ∙ ap pos (omega arith)

  -- bldcOn at a speed of at most 15000 rpm fits its buffer, and sends a '#', "strtM:", digits that
  -- stand for a sixth of the speed, and a '#'.
  pub bldc_on_lem :
      (rpm : ℕ)
      → rpm ≤ 15000
      → (ds : Bytes) × (bldc_on arduino_map (pos rpm) ≡ done (b'#' ∷ (strt_m ++ (ds ++ b'#' ∷ []))))
        × AllDigits ds
        × (value_of 0 ds ≡ rpm / 6)
  unfolding bldc_on speed_command decimal printed transmit_uart_data
  bldc_on_lem rpm h =
      let ds = digits 10 (rpm / 6) [] in
      let text : ℤ → Bytes = λ z. strt_m ++ (decimal z ++ b'#' ∷ []) in
      let short : ltb (length (text (pos (rpm / 6)))) 64 ≡ true =
        ground (arith, length-append ds (b'#' ∷ []), length-digits 10 (rpm / 6) []) in
      (
        ds,
        ap (λ z. printed (text z) >>= λ cmd. done (transmit_uart_data cmd))
              (convert_rpm_to_dhz_lem rpm h)
            ∙ ap (λ r. r >>= λ cmd. done (transmit_uart_data cmd))
                (if_true {b = ltb (length (text (pos (rpm / 6)))) 64} _ _ short),
        digits-AllDigits 10 (rpm / 6) [] tt,
        value_of-digits 9 (rpm / 6) [] (few rpm h),
      )

  -- smOn at 20 to 80 rpm starts the stepper motor with an alarm every 256 to 1000 microseconds, the
  -- shorter the higher the speed. The alarm's handler toggles the pin.
  pub sm_on_lem :
      (rpm : ℕ) (s : Stepper)
      → 20 ≤ rpm
      → rpm ≤ 80
      → (n : ℕ) × (sm_on arduino_map (pos rpm) s
          ≡ (1, record { running = true; alarm_interval = pos n; alarm_enabled = true }))
        × (256 ≤ n)
        × (n ≤ 1000)
        × (n ≡ 1000 - (rpm - 20) * 744 / 60)
  unfolding sm_on outside_speeds
  sm_on_lem rpm s l u =
      let interval =
        m.falling rpm 20 80 1000 256 (omega arith) (omega arith) (omega arith) (omega arith)
          (omega arith) in
      (1000 - (rpm - 20) * 744 / 60, ground (arith, interval), omega arith, omega arith, refl)

  -- smOn at another speed answers 0 and changes nothing.
  pub sm_on_refused :
      (z : ℤ) (s : Stepper) → outside_speeds z ≡ true → sm_on arduino_map z s ≡ (0, s)
  unfolding sm_on
  sm_on_refused z s h = if_true _ _ h
