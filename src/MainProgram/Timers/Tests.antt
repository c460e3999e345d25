-- ===== src/MainProgram/Timers/Tests.antt =====
-- The timers of the application at a concrete framework.
use c_utilities.Common.{ℕ, ◌≡◌, refl, true, none, some, replicate, arith}
use c_utilities.Common.Int.{pos}
use c_utilities.Common.Run.{done}
use c_utilities.EventFw.{EventFw}
use c_utilities.TimerFw.{low_prio, TimerFw, pf_tmr_cb}
use c_utilities.TimerFw
use c_utilities.TimerFw.Invariant.{IsValid}
use c_utilities.TimerFw.Tick.{process_slot}
use c_utilities.TimerFw.Tick.Timing.Expiry.{tick_times}
use c_utilities.Platform.Tests.{erased}
use c_utilities.JumpStateMachine.Tests.{dark}
use c_utilities.MainProgram.{Handler}
use c_utilities.MainProgram.Timers.{
  AppTimer, device_monitor_timer, AppTimers, id_of, create_application_timers, raised_by,
}
use c_utilities.MainProgram.Timers.Laws.{block_of}
use c_utilities.MainProgram.Timers.Events.{call, application_timer_event}
use c_utilities.MainProgram.Network.Laws.{IsReady, with_event, with_events}
use c_utilities.MainProgram.Tests.{app, empty, listening-IsReady}

-- What timerFwInit(100, 15) leaves, as setup calls it.
abbrev ticking : AppTimers AppTimer
ticking = record {
  timers = record {
    timer_cb = replicate 15 none;
    max_timers = 15;
    tick_ms = 100;
    timer_count = 0;
    is_init = true;
    platform = record { exp_cb = some pf_tmr_cb; period = some 100 };
  };
  wifi_status_timer_id = pos 0;
  send_device_status_timer_id = pos 0;
  device_monitor_timer_id = pos 0;
  flush_buffer_timer_id = pos 0;
}

ticking-IsValid : IsValid ticking.timers
ticking-IsValid = record {
  slots = refl;
  max_word = omega arith;
  tick_pos = omega arith;
  counted = refl;
  ready = refl;
  timers = tt;
}

application_timer_event_example :
    (ts1 : AppTimers AppTimer) × (later : TimerFw AppTimer) × (i : ℕ) × (ev : EventFw Handler)
    × (create_application_timers (λ u. u) true ticking ≡ done ts1)
    × (id_of device_monitor_timer ts1 ≡ pos i)
    × (tick_times call 40 (ts1.timers, done (app dark erased))
        ≡ done (later, done (app dark erased)))
    × (process_slot call low_prio i (later, done (app dark erased))
        ≡ done (
          TimerFw.store i (block_of (λ u. u) device_monitor_timer i 100) later,
          done (with_events (app dark erased) ev),
        ))
    × IsReady 0 ev (with_event empty (raised_by device_monitor_timer))
application_timer_event_example =
    application_timer_event device_monitor_timer ticking (app dark erased) empty ticking-IsValid
      (omega arith) (omega arith) tt listening-IsReady (omega arith)
