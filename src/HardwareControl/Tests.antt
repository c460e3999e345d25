-- ===== src/HardwareControl/Tests.antt =====
-- The commands and responses of the motors at concrete values.
use c_utilities.Common.{
  some, strlen, ℕ, ◌+◌, ◌-◌, ◌*◌, ◌/◌, ◌≡◌, refl, false, [], ◌∷◌, ◌++◌, leb, if◌then◌else◌, length,
  replicate, length-replicate, Bytes, arith, if_true, if_false,
}
use c_utilities.Common.Int.{ℤ, pos}
use c_utilities.Common.Run.{done, fault}
use c_utilities.HardwareControl.{MotorStats, Stepper, IsMap, strt_m, bldc_on}
use c_utilities.HardwareControl.Laws.{value_of, AllDigits, bldc_on_lem}
use c_utilities.HardwareControl.Uart.{Uart, receive}
use c_utilities.HardwareControl.Uart.Receive.{receive_stats}
use c_utilities.DeviceMonitor.Response.{stat_m, command_resp_decode, convert_dhz_to_rpm}
use c_utilities.DeviceMonitor.Response.Laws.{
  params, separators, stats_of, IsParam-is_plain, Unseparated-unseparated,
}
use c_utilities.DeviceMonitor.Response.Faults.{command_resp_decode_adjacent}

-- map for numbers that are not negative.
abbrev map_of : ℤ → ℤ → ℤ → ℤ → ℤ → ℤ
map_of (pos x) (pos a) (pos b) (pos c) (pos d) =
    if leb c d then pos (c + (x - a) * (d - c) / (b - a)) else pos (c - (x - a) * (c - d) / (b - a))
map_of x a b c d = pos 0

map_of-IsMap : IsMap map_of
map_of-IsMap = record {
  rising = λ x a b c d l m n o. if_true {b = leb c d} _ _ (ground (arith, n));
  falling = λ x a b c d l u m n o. if_false {b = leb c d} _ _ (ground (arith, n));
}

abbrev atoi : Bytes → ℤ
atoi s = pos (value_of 0 s)

abbrev idle : MotorStats
idle = record { temperature_c = pos 0; speed_rpm = pos 0; motor_state = [] }

abbrev temperature : Bytes
temperature = b'2' ∷ b'5' ∷ []

abbrev speed : Bytes
speed = b'5' ∷ b'0' ∷ b'0' ∷ []

abbrev run : Bytes
run = b'R' ∷ b'U' ∷ b'N' ∷ []

abbrev empty : Uart
empty = record { rx_buff = replicate 256 0; data_ptr = 0; stats = idle }

receive_stats_example :
    (u1 : Uart) × (receive map_of atoi separators
        (stat_m ++ b':' ∷ params temperature speed run (b'#' ∷ []))
        empty
      ≡ done u1)
    × (u1.stats ≡ stats_of map_of atoi temperature speed run)
    × (u1.data_ptr ≡ 0)
    × (strlen u1.rx_buff ≡ some 0)
    × (length u1.rx_buff ≡ 256)
receive_stats_example =
    receive_stats map_of atoi temperature speed run empty (IsParam-is_plain b'2' (b'5' ∷ []) refl)
      (IsParam-is_plain b'5' (b'0' ∷ b'0' ∷ []) refl)
      (IsParam-is_plain b'R' (b'U' ∷ b'N' ∷ []) refl) (omega arith) (omega arith)
      (length-replicate {A = ℕ} 256 0) refl

speed_is_rpm :
    stats_of map_of atoi temperature speed run
    ≡ record { temperature_c = pos 25; speed_rpm = pos 3000; motor_state = run }
unfolding convert_dhz_to_rpm
speed_is_rpm = refl

command_resp_decode_adjacent_example :
    command_resp_decode map_of atoi
      (record { cmd = b':' ∷ b',' ∷ []; param = b',' ∷ [] })
      (stat_m ++ b':' ∷ params temperature speed run (0 ∷ []))
      idle
    ≡ fault
command_resp_decode_adjacent_example =
    command_resp_decode_adjacent map_of atoi [] (b',' ∷ []) temperature speed run [] idle (λ e. cc)
      (Unseparated-unseparated (b':' ∷ b',' ∷ []) stat_m refl)
      (Unseparated-unseparated (b':' ∷ b',' ∷ []) temperature refl)
      (Unseparated-unseparated (b',' ∷ []) temperature refl) refl

bldc_on_lem_example :
    (ds : Bytes) × (bldc_on map_of (pos 3000) ≡ done (b'#' ∷ (strt_m ++ (ds ++ b'#' ∷ []))))
    × AllDigits ds
    × (value_of 0 ds ≡ 3000 / 6)
bldc_on_lem_example = bldc_on_lem map_of map_of-IsMap 3000 (omega arith)

abbrev standing : Stepper
standing = record { running = false; alarm_interval = pos 256; alarm_enabled = false }
