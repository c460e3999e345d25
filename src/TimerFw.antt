-- ===== src/TimerFw.antt =====
-- timerFw.cpp: callback timers multiplexed on one platform timer.
-- The static variables are the fields of a record; the array of control blocks is a list whose
-- entries are NULL (`none`) or a block. A callback is a name, and what it does to the framework and
-- to the rest of the program is the parameter `invoke` of `tick` and `fw_process`. No operation
-- changes gMaxTimers once the framework is initialised, so the loops count its value down.
pub mod Create
pub mod Query
pub mod Tick
pub mod Slots
pub mod Invariant
pub mod Calls
pub mod Blocks
mod Tests
use c_utilities.Common.{
  ℕ, zero, suc, ◌+◌, ◌*◌, ◌/◌, Bool, true, false, Option, none, some, List, [], ltb, leb, ◌==◌,
  ◌&&◌, if◌then◌else◌, get_elem?, set, replicate, u8, u32, u32_pred, u8_pred,
}
use c_utilities.Common.Int.{ℤ, pos, negsuc, of_u32}
use c_utilities.Common.Run.{Run, done, fault, out_of_fuel, ◌>>=◌}
use c_utilities.ErrorTypes.{
  ErrorType, code, e_tmr_ready, e_tmr_not_ready, e_tmr_not_exist, e_tmr_out_of_bound,
  e_tmr_too_small, e_tmr_running, e_tmr_paused, e_tmr_not_paused, e_tmr_not_running, e_tmr_max,
  e_success,
}
use c_utilities.PlatformTimer
use c_utilities.PlatformTimer.{PlatformTimer}

-- TimerState_e
pub data TimerState : Type 0 where
  init running paused expired : TimerState

-- TimerType_e
pub data TimerType : Type 0 where
  realtime high_prio low_prio : TimerType

abbrev pub is_running : TimerState → Bool
is_running running = true
is_running _ = false

abbrev pub is_paused : TimerState → Bool
is_paused paused = true
is_paused _ = false

-- The value of the enumerator.
abbrev pub type_value : TimerType → ℕ
type_value realtime = 1
type_value high_prio = 2
type_value low_prio = 3

-- Timer_t. `repeat` is a Bool of the C code, any byte; `arg` is an address.
pub record Timer (Cb : Type 0) : Type 0 where
  pub repeat : ℕ
  pub timer_id : ℕ
  pub cb : Option Cb
  pub arg : ℕ
  pub ticks : ℕ
  pub ticks_remaining : ℕ
  pub expiry_count : ℕ
  pub state : TimerState
  pub type : TimerType

-- The callback that the platform timer is given.
pub data ExpiryCb : Type 0 where
  pf_tmr_cb : ExpiryCb

-- gTimerCb, gMaxTimers, gTickMs, gTimerCount, gTimerFwInit, and the platform timer
pub record TimerFw (Cb : Type 0) : Type 0 where
  pub timer_cb : List (Option (Timer Cb))
  pub max_timers : ℕ
  pub tick_ms : ℕ
  pub timer_count : ℕ
  pub is_init : Bool
  pub platform : PlatformTimer ExpiryCb

-- What validateTimer finds.
pub data Lookup (Cb : Type 0) : Type 0 where
  refused : ErrorType → Lookup Cb
  found : ℕ → Timer Cb → Lookup Cb

-- A division by zero is undefined.
pub divided : ℕ → ℕ → Run ℕ
divided a d = if d == 0 then fault else done (a / d)

module _ {Cb : Type 0} where
  -- `*gTimerCb[i] = t`
  abbrev pub store : ℕ → Timer Cb → TimerFw Cb → TimerFw Cb
  store i t fw = record fw { timer_cb = set fw.timer_cb i (some t) }

  -- timerFwInit. The flag is the allocation of the array; without it gTimerCb is NULL.
  pub fw_init : Bool → ℕ → ℕ → TimerFw Cb → ErrorType × TimerFw Cb
  unfolding PlatformTimer.start
  fw_init got min_timer_ms max fw = if fw.is_init then (e_tmr_ready, fw) else (
    e_success,
    record fw {
      timer_cb = if got then replicate max none else [];
      max_timers = max;
      tick_ms = min_timer_ms;
      is_init = true;
      platform = (PlatformTimer.start min_timer_ms pf_tmr_cb fw.platform).1;
    },
  )

  check_slot : ℕ → Option (Option (Timer Cb)) → Run (Lookup Cb)
  check_slot i none = fault
  check_slot i (some none) = done (refused e_tmr_not_exist)
  check_slot i (some (some t)) = done (found i t)

  -- validateTimer, with the control block that the callers go on to read.
  pub validate : ℤ → TimerFw Cb → Run (Lookup Cb)
  unfolding check_slot
  validate (negsuc n) fw = done (refused e_tmr_out_of_bound)
  validate (pos i) fw =
      if leb fw.max_timers i
      then done (refused e_tmr_out_of_bound)
      else if fw.is_init
      then check_slot i (get_elem? fw.timer_cb i)
      else done (refused e_tmr_not_ready)

  -- The shape of the operations on one timer: validate, then check and change the block.
  pub apply_found :
      (Timer Cb → Run (ErrorType × Timer Cb))
      → TimerFw Cb
      → Lookup Cb
      → Run (ErrorType × TimerFw Cb)
  apply_found f fw (refused e) = done (e, fw)
  apply_found f fw (found i t) = f t >>= λ r. done (r.0, store i r.1 fw)

  pub operate :
      (Timer Cb → Run (ErrorType × Timer Cb)) → ℤ → TimerFw Cb → Run (ErrorType × TimerFw Cb)
  operate f id fw = validate id fw >>= apply_found f fw

  pub start_block : Timer Cb → ErrorType × Timer Cb
  start_block t =
      if is_running t.state
      then (e_tmr_running, t)
      else if is_paused t.state
      then (e_tmr_paused, t)
      else (e_success, record t { ticks_remaining = t.ticks; state = running; expiry_count = 0 })

  pub stop_block : Timer Cb → ErrorType × Timer Cb
  stop_block t = (e_success, record t { ticks_remaining = 0; expiry_count = 0; state = init })

  pub pause_block : Timer Cb → ErrorType × Timer Cb
  pause_block t =
      if is_running t.state
      then (e_success, record t { state = paused })
      else (e_tmr_not_running, t)

  pub resume_block : Timer Cb → ErrorType × Timer Cb
  resume_block t =
      if is_paused t.state then (e_success, record t { state = running }) else (e_tmr_not_paused, t)

  pub update_block : ℕ → ℕ → Timer Cb → Run (ErrorType × Timer Cb)
  unfolding divided
  update_block tick_ms ms t =
      if ltb ms tick_ms
      then done (e_tmr_too_small, t)
      else (divided ms tick_ms >>= λ n. done (e_success, record t { ticks = n }))

  -- timer_c_Start
  pub start : ℤ → TimerFw Cb → Run (ErrorType × TimerFw Cb)
  start = operate (λ t. done (start_block t))

  -- timer_c_Stop
  pub stop : ℤ → TimerFw Cb → Run (ErrorType × TimerFw Cb)
  stop = operate (λ t. done (stop_block t))

  -- timerPause
  pub pause : ℤ → TimerFw Cb → Run (ErrorType × TimerFw Cb)
  pause = operate (λ t. done (pause_block t))

  -- timerResume
  pub resume : ℤ → TimerFw Cb → Run (ErrorType × TimerFw Cb)
  resume = operate (λ t. done (resume_block t))

  -- timerUpdateInterval
  pub update_interval : ℤ → ℕ → TimerFw Cb → Run (ErrorType × TimerFw Cb)
  update_interval id ms fw = operate (update_block fw.tick_ms ms) id fw

  pub destroy_found : TimerFw Cb → Lookup Cb → ErrorType × TimerFw Cb
  destroy_found fw (refused e) = (e, fw)
  destroy_found fw (found i t) =
      if is_running t.state
      then (e_tmr_running, fw)
      else if is_paused t.state
      then (e_tmr_paused, fw)
      else (
        e_success,
        record fw { timer_cb = set fw.timer_cb i none; timer_count = u8_pred fw.timer_count },
      )

  -- timerDestroy
  pub destroy : ℤ → TimerFw Cb → Run (ErrorType × TimerFw Cb)
  unfolding destroy_found
  destroy id fw = validate id fw >>= λ l. done (destroy_found fw l)
