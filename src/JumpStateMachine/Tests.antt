-- ===== src/JumpStateMachine/Tests.antt =====
-- The theorems on the state machine at concrete controllers.
use c_utilities.Common.{ℕ, ◌*◌, ◌≡◌, refl, true, Option, none, some, List, [], ◌∷◌, arith}
use c_utilities.Common.Int.{ℤ, pos}
use c_utilities.Common.Run.{done, ◌>>=◌}
use c_utilities.TimerFw.{init, low_prio, Timer, TimerFw, pf_tmr_cb, store}
use c_utilities.TimerFw.Blocks.{armed}
use c_utilities.TimerFw.Invariant.{IsTimer, IsValid}
use c_utilities.JumpStateMachine.{
  Key, bl_spd, sm_spd, d_s, bl_bfn_t, t_on, bl_aff_t, t_off, JumpState, state_na, state_bldc_init,
  state_sm_init, state_hv_init, state_misting_end, event_na, event_init_hv, event_end_mist,
  Hardware, Controller, Key, Expiry, on_start_sm, on_start_hv, on_stop_hv, on_stop_sm, on_stop_bldc,
  on_device_stop, on_mist_stop_delay, jump_sm, execute, on_expiry,
}
use c_utilities.JumpStateMachine.Spec.{all_off}
use c_utilities.JumpStateMachine.Cycle.{power, IsConsistent, IsConfigured, execute_total}
use c_utilities.JumpStateMachine.Expiries.{EndsIn, on_expiry_total, stop_lem}
use c_utilities.JumpStateMachine.Phases.{Phase, starting, id_of, phase_lem}

-- Every value is 5, in a type of strings that are numbers.
abbrev config : Key → Option ℕ
config k = some 5

abbrev scaled : ℕ → ℤ
scaled n = pos (n * 1000000)

abbrev atoi : ℕ → ℤ
atoi n = pos n

config-IsConfigured : IsConfigured config scaled
config-IsConfigured bl_spd = (5, refl, refl)
config-IsConfigured sm_spd = (5, refl, refl)
config-IsConfigured d_s = (5, refl, refl)
config-IsConfigured bl_bfn_t = (5, refl, refl)
config-IsConfigured t_on = (5, refl, refl)
config-IsConfigured bl_aff_t = (5, refl, refl)
config-IsConfigured t_off = (5, refl, refl)

abbrev timer : Expiry → Timer Expiry
timer x = record {
  repeat = 0;
  timer_id = 0;
  cb = some x;
  arg = 0;
  ticks = 400;
  ticks_remaining = 0;
  expiry_count = 0;
  state = init;
  type = low_prio;
}

timer-IsTimer : (x : Expiry) → IsTimer (timer x)
timer-IsTimer x = record {
  period = omega arith;
  period_word = omega arith;
  remaining_word = omega arith;
  active = tt;
}

abbrev timers : List (Option (Timer Expiry)) → ℕ → TimerFw Expiry
timers xs n = record {
  timer_cb = xs;
  max_timers = 7;
  tick_ms = 10;
  timer_count = n;
  is_init = true;
  platform = record { exp_cb = some pf_tmr_cb; period = some 10 };
}

abbrev seven : TimerFw Expiry
seven =
    timers
      (some (timer on_start_sm)
        ∷ some (timer on_start_hv)
        ∷ some (timer on_stop_hv)
        ∷ some (timer on_stop_sm)
        ∷ some (timer on_stop_bldc)
        ∷ some (timer on_device_stop)
        ∷ some (timer on_mist_stop_delay)
        ∷ [])
      7

seven-IsValid : IsValid seven
seven-IsValid = record {
  slots = refl;
  max_word = omega arith;
  tick_pos = omega arith;
  counted = refl;
  ready = refl;
  timers = (
    timer-IsTimer on_start_sm,
    (
      timer-IsTimer on_start_hv,
      (
        timer-IsTimer on_stop_hv,
        (
          timer-IsTimer on_stop_sm,
          (
            timer-IsTimer on_stop_bldc,
            (timer-IsTimer on_device_stop, (timer-IsTimer on_mist_stop_delay, tt)),
          ),
        ),
      ),
    ),
  );
}

abbrev pub no_timers : TimerFw Expiry
no_timers = timers (none ∷ none ∷ none ∷ none ∷ none ∷ none ∷ none ∷ []) 0

pub no_timers-IsValid : IsValid no_timers
no_timers-IsValid = record {
  slots = refl;
  max_word = omega arith;
  tick_pos = omega arith;
  counted = refl;
  ready = refl;
  timers = tt;
}

abbrev controller : JumpState → Hardware → TimerFw Expiry → Controller
controller s h t = record {
  current_state = s;
  prev_state = state_na;
  prev_event = event_na;
  hardware = h;
  timers = t;
  start_sm_timer_id = pos 0;
  start_hv_timer_id = pos 1;
  stop_hv_timer_id = pos 2;
  stop_sm_timer_id = pos 3;
  stop_bldc_timer_id = pos 4;
  device_stop_timer_id = pos 5;
  mist_stop_delay_timer_id = pos 6;
}

-- The stepper motor has just been started.
abbrev pub pumping : Controller
pumping =
    controller state_sm_init (record { bldc = some (pos 9); sm = some (pos 8); hv = none }) seven

pub pumping-IsConsistent : IsConsistent pumping
pumping-IsConsistent = record { timers = seven-IsValid; hardware = refl }

-- The BLDC motor has just been started.
abbrev spraying : Controller
spraying = controller state_bldc_init (record { bldc = some (pos 9); sm = none; hv = none }) seven

spraying-IsConsistent : IsConsistent spraying
spraying-IsConsistent = record { timers = seven-IsValid; hardware = refl }

-- The machine waits to be switched on.
abbrev pub resting : Controller
resting = controller state_misting_end (record { bldc = none; sm = none; hv = none }) seven

pub resting-IsConsistent : IsConsistent resting
resting-IsConsistent = record { timers = seven-IsValid; hardware = refl }

abbrev pub dark : Controller
dark = controller state_na (record { bldc = none; sm = none; hv = none }) no_timers

execute_total_example :
    (c1 : Controller) × (execute config scaled atoi event_init_hv pumping ≡ done c1)
    × IsConsistent c1
    × (c1.current_state ≡ state_hv_init)
unfolding jump_sm
execute_total_example =
    execute_total config scaled atoi event_init_hv pumping config-IsConfigured pumping-IsConsistent

on_expiry_total_example : EndsIn state_hv_init (on_expiry config scaled atoi 0 on_start_sm spraying)
unfolding jump_sm
on_expiry_total_example =
    on_expiry_total config scaled atoi 0 on_start_sm spraying config-IsConfigured
      spraying-IsConsistent

stop_lem_example :
    (c1 : Controller) × (execute config scaled atoi event_end_mist pumping
        >>= on_expiry config scaled atoi 1 on_mist_stop_delay
      ≡ done c1)
    × (c1.current_state ≡ state_misting_end)
    × (power c1.hardware ≡ all_off)
stop_lem_example =
    stop_lem config scaled atoi 1 pumping config-IsConfigured pumping-IsConsistent (omega arith)
      (λ p. cc) (λ p. cc)

-- The high voltage is on for five seconds, 500 ticks of ten milliseconds.
phase_lem_example :
    (c1 : Controller) × (on_expiry config scaled atoi 0 on_start_sm spraying ≡ done c1)
    × IsConsistent c1
    × (c1.current_state ≡ state_hv_init)
    × (c1.timers ≡ store 2 (armed 2 500 (timer on_stop_hv)) seven)
    × ((q : Phase) → id_of q c1 ≡ id_of q spraying)
unfolding c_utilities.JumpStateMachine.times c_utilities.JumpStateMachine.quot config-IsConfigured
    jump_sm
phase_lem_example =
    phase_lem config scaled atoi starting 0 2 (timer on_stop_hv) spraying config-IsConfigured
      spraying-IsConsistent refl refl refl refl refl (omega arith)
