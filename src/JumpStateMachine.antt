-- ===== src/JumpStateMachine.antt =====
-- esp32MistingController/jumpStateMachine.ino: the state machine of the mist cycle.
-- The Serial output is left out. Commands to the motors and the high-voltage module are kept as what
-- each was told last. The configuration, and the C library's atof and atoi, are parameters.
pub mod Cycle
pub mod Init
pub mod Expiries
pub mod Phases
pub mod Tests
pub mod Spec
use c_utilities.Common.{
  ◌^◌, ℕ, zero, suc, ◌+◌, ◌*◌, ◌/◌, Bool, true, false, Option, none, some, ltb, ◌==◌, ◌&&◌,
  if◌then◌else◌,
}
use c_utilities.Common.Int.{ℤ, pos, negsuc, neg, to_u32, is_zero}
use c_utilities.Common.Run.{Run, done, fault, out_of_fuel, ◌>>=◌}
use c_utilities.TimerFw.{TimerFw, start, update_interval}

-- jumpStates_e. STATE_MAX is the size of the table.
pub data JumpState : Type 0 where
  state_na state_mist_end state_bldc_init state_sm_init state_hv_init : JumpState
  state_hv_end state_sm_end state_bldc_end state_mist_off_time state_misting_end : JumpState

-- jumpEvents_e. EVENT_MAX is the size of the table.
pub data JumpEvent : Type 0 where
  event_na event_init_bldc event_init_sm event_init_hv event_end_hv event_end_sm : JumpEvent
  event_end_bldc event_start_mist_cycle event_off_mist event_end_mist : JumpEvent
  event_com_mist_cycle event_mist_end_delay : JumpEvent

-- The functions that the table points to.
pub data Operation : Type 0 where
  start_bldc_timer_init start_sm_timer_init start_hv_timer_init : Operation
  stop_hv_timer_init stop_sm_timer_init stop_bldc_timer_init : Operation
  start_mist_off_timer end_mist misting_end : Operation

-- The keys that are read from the configuration.
pub data Key : Type 0 where
  bl_bfn_t t_on bl_aff_t t_off bl_spd sm_spd d_s : Key

-- The callbacks of the timers.
pub data Expiry : Type 0 where
  on_start_sm on_start_hv on_stop_hv on_stop_sm on_stop_bldc on_device_stop : Expiry
  on_mist_stop_delay : Expiry

-- jumpStateMachine_t
pub record Jump : Type 0 where
  pub next_state : JumpState
  pub operation : Option Operation

-- What the motors and the high-voltage module have been told: `none` is off.
pub record Hardware : Type 0 where
  pub bldc : Option ℤ
  pub sm : Option ℤ
  pub hv : Option ℕ

-- gCurrentState, gPrevState, gPrevEvent, the timers and their ids
pub record Controller : Type 0 where
  pub current_state : JumpState
  pub prev_state : JumpState
  pub prev_event : JumpEvent
  pub hardware : Hardware
  pub timers : TimerFw Expiry
  pub start_sm_timer_id : ℤ
  pub start_hv_timer_id : ℤ
  pub stop_hv_timer_id : ℤ
  pub stop_sm_timer_id : ℤ
  pub stop_bldc_timer_id : ℤ
  pub device_stop_timer_id : ℤ
  pub mist_stop_delay_timer_id : ℤ

abbrev pub jump_to : JumpState → Operation → Jump
jump_to s o = record { next_state = s; operation = some o }

-- gJumpSm after initJumpStateMachine. The entries that it does not set are zero.
pub jump_sm : JumpState → JumpEvent → Jump
jump_sm state_misting_end event_init_bldc = jump_to state_bldc_init start_bldc_timer_init
jump_sm state_mist_end event_mist_end_delay = jump_to state_misting_end misting_end
jump_sm state_bldc_init event_init_sm = jump_to state_sm_init start_sm_timer_init
jump_sm state_bldc_init event_end_mist = jump_to state_mist_end end_mist
jump_sm state_sm_init event_init_hv = jump_to state_hv_init start_hv_timer_init
jump_sm state_sm_init event_end_mist = jump_to state_mist_end end_mist
jump_sm state_hv_init event_end_hv = jump_to state_hv_end stop_hv_timer_init
jump_sm state_hv_init event_end_mist = jump_to state_mist_end end_mist
jump_sm state_hv_end event_end_sm = jump_to state_sm_end stop_sm_timer_init
jump_sm state_hv_end event_end_mist = jump_to state_mist_end end_mist
jump_sm state_sm_end event_end_bldc = jump_to state_bldc_end stop_bldc_timer_init
jump_sm state_sm_end event_end_mist = jump_to state_mist_end end_mist
jump_sm state_bldc_end event_com_mist_cycle = jump_to state_mist_off_time start_mist_off_timer
jump_sm state_bldc_end event_end_mist = jump_to state_mist_end end_mist
jump_sm state_mist_off_time event_start_mist_cycle = jump_to state_bldc_init start_bldc_timer_init
jump_sm state_mist_off_time event_end_mist = jump_to state_mist_end end_mist
jump_sm state_mist_end event_end_mist = jump_to state_mist_end end_mist
jump_sm _ _ = record { next_state = state_na; operation = none }

-- C's division of a signed by a positive number, which rounds towards 0.
pub quot : ℤ → ℕ → ℤ
quot (pos n) d = pos (n / d)
quot (negsuc n) d = neg ((n + 1) / d)

pub times : ℤ → ℕ → ℤ
times (pos n) k = pos (n * k)
times (negsuc n) k = neg ((n + 1) * k)

-- timerUpdateInterval, whose error is not looked at, and timer_c_Start, whose error is printed.
pub start_timer : ℤ → ℕ → Controller → Run Controller
start_timer id ms c =
    update_interval id ms c.timers >>= λ r. start id r.1 >>= λ q. done (record c { timers = q.1 })

pub set_bldc : Option ℤ → Controller → Controller
set_bldc x c = record c { hardware = record c.hardware { bldc = x } }

pub set_sm : Option ℤ → Controller → Controller
set_sm x c = record c { hardware = record c.hardware { sm = x } }

pub set_hv : Option ℕ → Controller → Controller
set_hv x c = record c { hardware = record c.hardware { hv = x } }

-- hvStart
pub hv_start : Controller → Controller
unfolding set_hv
hv_start c = set_hv (some 200) c

-- The state is changed before the operation is called.
pub enter : JumpState → JumpEvent → Controller → Controller
enter s e c = record c { current_state = s; prev_state = c.current_state; prev_event = e }

-- `if (nextState > STATE_NA && nextState < STATE_MAX)`, else the loop is left.
pub unless_na : JumpState → Controller → Run Controller → Run Controller
unless_na state_na c rest = done c
unless_na s c rest = rest

-- The values of an int.
abbrev pub fits_int : ℤ → Bool
fits_int (pos n) = ltb n (2 ^ 31)
fits_int (negsuc n) = ltb n (2 ^ 31)

-- `scaled s` is (float)atof(s) * 1000000 without its fraction, which need not be an int.
module _ {Str : Type 0} (config : Key → Option Str) (scaled atoi : Str → ℤ) where
  -- floatToInt, which returns no value for NULL. A float beyond the ints has no conversion to int.
  pub float_to_int : Option Str → Run ℤ
  unfolding quot
  float_to_int none = fault
  float_to_int (some s) = if fits_int (scaled s) then done (quot (scaled s) 100000) else fault

  -- atoi of a configuration's value
  pub int_of : Option Str → Run ℤ
  int_of none = fault
  int_of (some s) = done (atoi s)

  -- The timer `id` is started for the interval that the configuration has for `key`.
  pub start_configured : Key → ℤ → Controller → Run Controller
  unfolding float_to_int times
  start_configured key id c =
      float_to_int (config key) >>= λ n. start_timer id (to_u32 (times n 100)) c

  -- bldcStart
  pub bldc_start : Controller → Run Controller
  unfolding int_of set_bldc
  bldc_start c = int_of (config bl_spd) >>= λ n. done (set_bldc (some n) c)

  -- smStart
  pub sm_start : Controller → Run Controller
  unfolding int_of set_sm
  sm_start c = int_of (config sm_spd) >>= λ n. done (set_sm (some n) c)

  -- The functions of the table, each of which returns EVENT_NA.
  pub operate : Operation → Controller → Run Controller
  unfolding bldc_start sm_start hv_start set_bldc set_sm set_hv
  operate start_bldc_timer_init c =
      bldc_start c >>= λ c1. start_configured bl_bfn_t c1.start_sm_timer_id c1
  operate start_sm_timer_init c = sm_start c
  operate start_hv_timer_init c = start_configured t_on c.stop_hv_timer_id (hv_start c)
  operate stop_hv_timer_init c = done (set_hv none c)
  operate stop_sm_timer_init c = start_configured bl_aff_t c.stop_bldc_timer_id (set_sm none c)
  operate stop_bldc_timer_init c = done (set_bldc none c)
  operate start_mist_off_timer c = start_configured t_off c.device_stop_timer_id c
  operate end_mist c =
      start_timer c.mist_stop_delay_timer_id 1000 (set_hv none (set_sm none (set_bldc none c)))
  operate misting_end c = done c

  -- The operation of an entry, with the event that the loop goes on with.
  pub operate_jump : Option Operation → Controller → Run (JumpEvent × Controller)
  operate_jump none c = done (event_na, c)
  operate_jump (some o) c = operate o c >>= λ c1. done (event_na, c1)

  -- The loop of executeStateMachine, for at most `fuel` rounds.
  pub execute_from : ℕ → JumpEvent → Controller → Run Controller
  execute_from zero e c = out_of_fuel
  execute_from (suc fuel) event_na c = done c
  execute_from (suc fuel) e c =
      let j = jump_sm c.current_state e in
      let rest =
        operate_jump j.operation (enter j.next_state e c) >>= λ r. execute_from fuel r.0 r.1 in
      unless_na j.next_state c rest

  -- executeStateMachine. No operation returns another event than EVENT_NA: two rounds are enough.
  pub execute : JumpEvent → Controller → Run Controller
  execute e c = execute_from 2 e c

  execute_both : JumpEvent → JumpEvent → Controller → Run Controller
  unfolding execute
  execute_both e1 e2 c = execute e1 c >>= execute e2

  -- The end of onMistStopDelayTimerExpiry, when gManualModeOnFlag is 0: the stored device state is
  -- looked at.
  pub resume_device : Option Str → Controller → Run Controller
  unfolding execute
  resume_device none c = done c
  resume_device (some s) c = if is_zero (atoi s) then done c else execute event_init_bldc c

  -- The callbacks of the timers. `manual` is gManualModeOnFlag.
  pub on_expiry : ℕ → Expiry → Controller → Run Controller
  unfolding execute execute_both
  on_expiry manual on_start_sm c = execute_both event_init_sm event_init_hv c
  on_expiry manual on_start_hv c = done c
  on_expiry manual on_stop_hv c = execute_both event_end_hv event_end_sm c
  on_expiry manual on_stop_sm c = done c
  on_expiry manual on_stop_bldc c = execute_both event_end_bldc event_com_mist_cycle c
  on_expiry manual on_device_stop c = execute event_start_mist_cycle c
  on_expiry manual on_mist_stop_delay c = execute event_mist_end_delay c >>= λ c1.
      if manual == 0 then resume_device (config d_s) c1 else done c1
