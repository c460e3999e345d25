-- ===== src/TimerFw/Tests.antt =====
-- The theorems on the timer framework at concrete frameworks.
use c_utilities.Common.{ℕ, ◌+◌, ◌≡◌, refl, true, false, [], ◌∷◌, none, some, arith, get_elem?}
use c_utilities.Common.Int.{ℤ, pos}
use c_utilities.Common.Run.{Run, done, fault}
use c_utilities.ErrorTypes.{ErrorType, e_success}
use c_utilities.TimerFw.{
  running, expired, high_prio, low_prio, Timer, TimerFw, pf_tmr_cb, start, destroy, validate,
}
use c_utilities.TimerFw.Invariant.{IsValid}
use c_utilities.TimerFw.Calls.{creates, perform, perform-IsValid}
use c_utilities.TimerFw.Tick.{tick, process_slot, fw_process}
use c_utilities.TimerFw.Tick.Total.{IsWellBehaved, EndsValid, tick_total, fw_process_total}
use c_utilities.TimerFw.Tick.Timing.Expiry.{tick_times, started_expires}
use c_utilities.TimerFw.Tick.Destroyed.{destroyed_in_callback}

-- A callback is a number that is added to a total.
abbrev add : ℕ → ℕ → ℕ → TimerFw ℕ × ℕ → TimerFw ℕ × ℕ
add c i arg w = (w.0, w.1 + c)

add-IsWellBehaved : IsWellBehaved add
add-IsWellBehaved = record {
  keeps = λ c i arg w v. v;
  stays = λ c i arg w {t} e. (t, e);
  keeps_expiring = λ c i arg w b. b;
  same_max = λ c i arg w. refl;
}

abbrev blank : TimerFw ℕ
blank = record {
  timer_cb = [];
  max_timers = 0;
  tick_ms = 0;
  timer_count = 0;
  is_init = false;
  platform = record { exp_cb = none; period = none };
}

-- A single-shot timer of three ticks that has expired, and a repetitive timer that is running.
abbrev late : Timer ℕ
late = record {
  repeat = 0;
  timer_id = 0;
  cb = some 5;
  arg = 0;
  ticks = 3;
  ticks_remaining = 0;
  expiry_count = 1;
  state = expired;
  type = high_prio;
}

abbrev lively : Timer ℕ
lively = record {
  repeat = 1;
  timer_id = 2;
  cb = some 7;
  arg = 4;
  ticks = 2;
  ticks_remaining = 1;
  expiry_count = 0;
  state = running;
  type = low_prio;
}

abbrev fw : TimerFw ℕ
fw = record {
  timer_cb = some late ∷ none ∷ some lively ∷ [];
  max_timers = 3;
  tick_ms = 10;
  timer_count = 2;
  is_init = true;
  platform = record { exp_cb = some pf_tmr_cb; period = some 10 };
}

fw-IsValid : IsValid fw
fw-IsValid = record {
  slots = refl;
  max_word = omega arith;
  tick_pos = omega arith;
  counted = refl;
  ready = refl;
  timers = (
    record {
      period = omega arith;
      period_word = omega arith;
      remaining_word = omega arith;
      active = tt;
    },
    (
      record {
        period = omega arith;
        period_word = omega arith;
        remaining_word = omega arith;
        active = omega arith;
      },
      tt,
    ),
  );
}

perform-IsValid_example :
    (r : ℤ × TimerFw ℕ) × (perform (creates high_prio 30 1 (some 2) 0) fw ≡ done r) × IsValid r.1
perform-IsValid_example =
    perform-IsValid (creates high_prio 30 1 (some 2) 0) fw (omega arith) fw-IsValid

tick_total_example : EndsValid 3 (tick add (fw, 100))
tick_total_example = tick_total add add-IsWellBehaved (fw, 100) fw-IsValid

fw_process_total_example : EndsValid 3 (fw_process add (fw, 100))
fw_process_total_example = fw_process_total add add-IsWellBehaved (fw, 100) fw-IsValid

started_expires_example :
    (before later : TimerFw ℕ) × (start (pos 0) fw ≡ done (e_success, before))
    × (tick_times add 3 (before, 100) ≡ done (later, 100))
    × (get_elem? later.timer_cb 0 ≡ some (some late))
started_expires_example =
    started_expires add 0 late fw 100 fw-IsValid (refl, (refl, tt)) refl refl refl

-- A callback that destroys its timer.
abbrev left : Run (ErrorType × TimerFw ℕ) → TimerFw ℕ → TimerFw ℕ
left (done r) x = r.1
left _ x = x

abbrev destroy_own : ℕ → ℕ → ℕ → TimerFw ℕ × ℕ → TimerFw ℕ × ℕ
destroy_own c i arg w = (left (destroy (pos i) w.0) w.0, w.1)

destroyed_in_callback_example : process_slot destroy_own high_prio 0 (fw, 100) ≡ fault
unfolding destroy validate
destroyed_in_callback_example =
    destroyed_in_callback destroy_own 0 5 late fw 100 fw-IsValid refl refl refl (omega arith) refl
      refl
