-- ===== src/HardwareControl/Uart/Receive.antt =====
-- A response of the motor driver, received byte by byte, sets the statistics of the motor.
use c_utilities.Common.{
  ℕ, zero, suc, ◌+◌, ◌<◌, ◌≡◌, ◌≢◌, refl, ap, ap₂, sym, ◌∙◌, false, none, [], ◌∷◌, ◌++◌,
  append_assoc, append-nil, ltb, ◌==◌, Option, some, strlen, length, length-append, set_middle,
  replicate, drop, u8, Bytes, arith, if_true, if_false,
}
use c_utilities.Common.Int.{ℤ}
use c_utilities.Common.Run.{Run, done, fault, ◌>>=◌}
use c_utilities.HardwareControl.{MotorStats}
use c_utilities.HardwareControl.Uart.{
  Uart, put_byte, clear_cmd_buffer, store_message_bldc, bldc_rx_motor_status_data, receive,
}
use c_utilities.DeviceMonitor.Response.{stat_m, command_resp_decode}
use c_utilities.DeviceMonitor.Response.Laws.{
  IsPlain, IsParam, params, params_split, separators, stats_of, command_resp_decode_lem,
}

-- A message up to its end.
abbrev NoEnd : Bytes → Type 0
NoEnd [] = Unit
NoEnd (x ∷ s) = (x ≢ b'#') × NoEnd s

not_end : (x : ℕ) → (x == b'#') ≡ false → x ≢ b'#'
not_end x h e = ground (arith, h, e)

NoEnd-append : (s t : Bytes) → NoEnd s → NoEnd t → NoEnd (s ++ t)
NoEnd-append [] t p q = q
NoEnd-append (x ∷ s) t p q = (p.0, NoEnd-append s t p.1 q)

NoEnd-IsPlain : (s : Bytes) → IsPlain s → NoEnd s
NoEnd-IsPlain [] p = tt
NoEnd-IsPlain (x ∷ s) p = (p.3, NoEnd-IsPlain s p.4)

NoEnd-message :
    (a b c : Bytes) → IsPlain a → IsPlain b → IsPlain c → NoEnd (stat_m ++ b':' ∷ params a b c [])
NoEnd-message a b c ha hb hc =
    let name : NoEnd (stat_m ++ b':' ∷ []) = (
      not_end b's' refl,
      (
        not_end b't' refl,
        (not_end b'a' refl, (not_end b't' refl, (not_end b'M' refl, (not_end b':' refl, tt)))),
      ),
    ) in
    NoEnd-append (stat_m ++ b':' ∷ []) (params a b c []) name (
      NoEnd-append a (b',' ∷ (b ++ b',' ∷ (c ++ []))) (NoEnd-IsPlain a ha) (
        not_end b',' refl,
        NoEnd-append b (b',' ∷ (c ++ [])) (NoEnd-IsPlain b hb)
            (not_end b',' refl, NoEnd-append c [] (NoEnd-IsPlain c hc) tt),
      ))

abbrev uart : Bytes → ℕ → MotorStats → Uart
uart b p s = record { rx_buff = b; data_ptr = p; stats = s }

put_byte_lem :
    (pre : Bytes) (x y : ℕ) (rest : Bytes) (stats : MotorStats)
    → put_byte x (uart (pre ++ y ∷ rest) (length pre) stats)
      ≡ done (uart (pre ++ x ∷ rest) (length pre) stats)
unfolding put_byte
put_byte_lem pre x y rest stats =
    let b = pre ++ y ∷ rest in
    if_true {b = ltb (length pre) (length b)} _ _ (ground (arith, length-append pre (y ∷ rest)))
    ∙ ap (λ b. done (uart b (length pre) stats)) (set_middle pre y x rest)

-- A buffer around one of its bytes.
split_at :
    (xs : Bytes) (n : ℕ)
    → n < length xs
    → (old : Bytes) × (y : ℕ) × (rest : Bytes) × (xs ≡ old ++ y ∷ rest) × (length old ≡ n)
split_at [] n h = elim h [ ]
split_at (x ∷ xs) zero h = ([], x, xs, refl, refl)
split_at (x ∷ xs) (suc n) h =
    let (old, y, rest, e, l) = split_at xs n (omega arith) in
    (x ∷ old, y, rest, ap (◌∷◌ x) e, ap suc l)

module _ (arduino_map : ℤ → ℤ → ℤ → ℤ → ℤ → ℤ) (atoi : Bytes → ℤ) where
  -- A byte that does not end a message.
  store_byte :
      (pre : Bytes) (x y : ℕ) (rest : Bytes) (stats : MotorStats)
      → x ≢ b'#'
      → length pre < 255
      → store_message_bldc arduino_map atoi separators x (uart (pre ++ y ∷ rest) (length pre) stats)
        ≡ done (uart ((pre ++ x ∷ []) ++ rest) (length (pre ++ x ∷ [])) stats)
  unfolding store_message_bldc
  store_byte pre x y rest stats n l =
      let next : Uart → Run Uart = λ v. done (record v { data_ptr = u8 (v.data_ptr + 1) }) in
      if_false {b = x == b'#'} _ _ (ground (arith, n))
      ∙ ap (λ r. r >>= next) (put_byte_lem pre x y rest stats)
      ∙ ap₂ (λ b p. done (uart b p stats)) (sym (append_assoc pre (x ∷ []) rest))
          (omega (arith, length-append pre (x ∷ []), l))

  -- The bytes of a message up to its end are stored one after the other.
  receive_bytes :
      (pre s old rest t : Bytes) (stats : MotorStats)
      → NoEnd s
      → length old ≡ length s
      → length pre + length s < 256
      → receive arduino_map atoi separators
          (s ++ t)
          (uart (pre ++ (old ++ rest)) (length pre) stats)
        ≡ receive arduino_map atoi separators t
            (uart ((pre ++ s) ++ rest) (length (pre ++ s)) stats)
  unfolding receive bldc_rx_motor_status_data
  receive_bytes pre [] [] rest t stats n e l =
      ap (λ b. receive arduino_map atoi separators t (uart (b ++ rest) (length b) stats))
        (sym (append-nil pre))
  receive_bytes pre [] (y ∷ old) rest t stats n e l = absurd (omega arith)
  receive_bytes pre (x ∷ s) [] rest t stats n e l = absurd (omega arith)
  receive_bytes pre (x ∷ s) (y ∷ old) rest t stats n e l =
      ap (λ r. r >>= receive arduino_map atoi separators (s ++ t))
        (store_byte pre x y (old ++ rest) stats n.0 (omega arith))
      ∙ receive_bytes (pre ++ x ∷ []) s old rest t stats n.1 (omega arith)
          (omega (arith, length-append pre (x ∷ [])))
      ∙ ap (λ b. receive arduino_map atoi separators t (uart (b ++ rest) (length b) stats))
          (append_assoc pre (x ∷ []) s)

  -- The byte that ends a message.
  store_end :
      (pre : Bytes) (y n : ℕ) (rest decoded : Bytes) (stats stats1 : MotorStats)
      → command_resp_decode arduino_map atoi separators (pre ++ 0 ∷ rest) stats
        ≡ done (decoded, stats1)
      → strlen decoded ≡ some n
      → store_message_bldc arduino_map atoi separators b'#'
          (uart (pre ++ y ∷ rest) (length pre) stats)
        ≡ done (uart (replicate n 0 ++ drop n decoded) 0 stats1)
  unfolding store_message_bldc clear_cmd_buffer
  store_end pre y n rest decoded stats stats1 run len =
      let clear : Bytes × MotorStats → Run Uart =
        λ r. clear_cmd_buffer (uart r.0 (length pre) r.1) in
      let next : Uart → Run Uart = λ v.
        command_resp_decode arduino_map atoi separators v.rx_buff v.stats >>= λ r.
        clear_cmd_buffer (record v { rx_buff = r.0; stats = r.1 }) in
      let cleared : Option ℕ → Run Uart = λ o. elim o [
        | none ↦ fault
        | some n ↦ done (uart (replicate n 0 ++ drop n decoded) 0 stats1)
      ] in
      ap (λ r. r >>= next) (put_byte_lem pre 0 y rest stats)
      ∙ ap (λ r. r >>= clear) run
      ∙ ap cleared len

  -- A response "statM:temperature,speed,state#" that fits the buffer, received byte by byte from the
  -- start of the buffer, sets the statistics to its values, leaves the empty string in the buffer, and
  -- puts the next byte at its start, when the separators are ":" and ",", and the state has less than 12 characters.
  pub receive_stats :
      (a b c : Bytes) (u : Uart)
      → IsParam a
      → IsParam b
      → IsParam c
      → length c < 12
      → length (params a b c []) < 250
      → length u.rx_buff ≡ 256
      → u.data_ptr ≡ 0
      → (u1 : Uart) × (receive arduino_map atoi separators
            (stat_m ++ b':' ∷ params a b c (b'#' ∷ []))
            u
          ≡ done u1)
        × (u1.stats ≡ stats_of arduino_map atoi a b c)
        × (u1.data_ptr ≡ 0)
        × (strlen u1.rx_buff ≡ some 0)
        × (length u1.rx_buff ≡ 256)
  unfolding receive bldc_rx_motor_status_data
  receive_stats a b c u ha hb hc short fits full start =
      let msg = stat_m ++ b':' ∷ params a b c [] in
      let (old, y, rest, e, l) = split_at u.rx_buff (length msg) (omega (arith, fits, full)) in
      let after : Bytes = stat_m ++ 0 ∷ (((a ++ 0 ∷ []) ++ (b ++ 0 ∷ [])) ++ (c ++ 0 ∷ rest)) in
      let no_end = NoEnd-message a b c ha.plain hb.plain hc.plain in
      (
        uart (replicate 5 0 ++ drop 5 after) 0 (stats_of arduino_map atoi a b c),
        ap (λ s. receive arduino_map atoi separators (stat_m ++ b':' ∷ s) u)
              (params_split a b c [] b'#')
            ∙ ap₂ (λ b p. receive arduino_map atoi separators (msg ++ b'#' ∷ []) (uart b p u.stats))
                e start
            ∙ receive_bytes [] msg old (y ∷ rest) (b'#' ∷ []) u.stats no_end l (omega arith)
            ∙ ap (λ r. r >>= receive arduino_map atoi separators [])
                (store_end msg y 5 rest after u.stats (stats_of arduino_map atoi a b c)
                  (ap
                      (λ s.
                        command_resp_decode arduino_map atoi separators (stat_m ++ b':' ∷ s)
                          u.stats)
                      (sym (params_split a b c rest 0))
                    ∙ command_resp_decode_lem arduino_map atoi a b c rest u.stats ha hb hc short)
                  refl),
        refl,
        refl,
        refl,
        omega (
          arith,
          full,
          ap length e,
          l,
          length-append old (y ∷ rest),
          length-append a (b',' ∷ (b ++ b',' ∷ (c ++ []))),
          length-append b (b',' ∷ (c ++ [])),
          length-append c [],
          length-append ((a ++ 0 ∷ []) ++ (b ++ 0 ∷ [])) (c ++ 0 ∷ rest),
          length-append (a ++ 0 ∷ []) (b ++ 0 ∷ []),
          length-append a (0 ∷ []),
          length-append b (0 ∷ []),
          length-append c (0 ∷ rest),
        ),
      )
