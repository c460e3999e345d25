-- ===== src/MainProgram/Timers/Events.antt =====
-- A timer of the application that has expired queues its event.
use c_utilities.Common.{
  ℕ, ◌+◌, ◌-◌, ◌*◌, ◌/◌, ◌≤◌, if◌then◌else◌, ◌<◌, ◌≡◌, refl, ap, ◌∙◌, true, some, length, arith,
  get_elem?, ltb, ◌==◌, ◌&&◌,
}
use c_utilities.Common.Int.{pos}
use c_utilities.Common.Run.{Run, done, ◌>>=◌}
use c_utilities.StaticQueue.Fifo.{Fifo}
use c_utilities.EventFw.{Event, EventFw}
use c_utilities.TimerFw.{low_prio, type_value, Timer, TimerFw, store}
use c_utilities.TimerFw.Invariant.{IsValid}
use c_utilities.TimerFw.Tick.Timing.{AllDeferred}
use c_utilities.TimerFw.Tick.Timing.Expiry.{tick_times}
use c_utilities.TimerFw.Tick.{notify, change, same_type, process_block, process_slot}
use c_utilities.MainProgram.{Handler, App}
use c_utilities.MainProgram.Network.Laws.{IsReady, with_event, with_events, raise_lem}
use c_utilities.MainProgram.Timers.{
  AppTimer, AppTimers, period_of, id_of, create_application_timers, raised_by, on_timer_expiry,
}
use c_utilities.MainProgram.Timers.Laws.{block_of, counted_down, application_timers_expire}

module _ {S : Type 0} where
  -- The callbacks, on the rest of the program.
  abbrev pub call :
      AppTimer → ℕ → ℕ → TimerFw AppTimer × Run (App S) → TimerFw AppTimer × Run (App S)
  call t i arg w = (w.0, w.1 >>= on_timer_expiry t)

  -- processNonRtTimers, at the entry of a timer of low priority that has expired, queues the event of
  -- the timer, in a queue with room, and forgets the expiries.
  pub expired_timer_raises :
      {held : ℕ} (t : AppTimer) (i : ℕ) (b : Timer AppTimer) (fw : TimerFw AppTimer) (a : App S)
      (f : Fifo Event)
      → get_elem? fw.timer_cb i ≡ some (some b)
      → b.cb ≡ some t
      → b.type ≡ low_prio
      → 0 < b.expiry_count
      → IsReady held a.device.events f
      → length f.items < f.limit
      → (ev : EventFw Handler) × (process_slot call low_prio i (fw, done a)
          ≡ done (store i (record b { expiry_count = 0 }) fw, done (with_events a ev)))
        × IsReady held ev (with_event f (raised_by t))
  unfolding process_slot process_block same_type notify change on_timer_expiry
  expired_timer_raises t i b fw a f at is_cb low expired ready room =
      let (ev, run, ready1) = raise_lem (raised_by t) a f ready room in
      let due : ltb 0 b.expiry_count && (type_value b.type == 3) ≡ true =
        ground (arith, expired, ap type_value low) in
      (ev, ground (arith, at, is_cb, due, run), ready1)

  -- After createApplicationTimers, as many interrupts as the period of a timer has ticks, and its turn
  -- in processNonRtTimers, the event of the timer is queued and the timer is as it was when it was
  -- started. The framework before is valid, has room for four timers, a tick of at most four seconds and
  -- no realtime timer, memory is given, and the event queue has room.
  pub application_timer_event :
      {held : ℕ} (t : AppTimer) (ts : AppTimers AppTimer) (a : App S) (f : Fifo Event)
      → IsValid ts.timers
      → ts.timers.timer_count + 3 < ts.timers.max_timers
      → ts.timers.tick_ms ≤ 4000
      → AllDeferred ts.timers.timer_cb
      → IsReady held a.device.events f
      → length f.items < f.limit
      → let n = period_of t * 1000 / ts.timers.tick_ms in
        (ts1 : AppTimers AppTimer) × (later : TimerFw AppTimer) × (i : ℕ) × (ev : EventFw Handler)
        × (create_application_timers (λ u. u) true ts ≡ done ts1)
        × (id_of t ts1 ≡ pos i)
        × (tick_times call n (ts1.timers, done a) ≡ done (later, done a))
        × (process_slot call low_prio i (later, done a)
            ≡ done
                (store i (block_of (λ u. u) t i ts.timers.tick_ms) later, done (with_events a ev)))
        × IsReady held ev (with_event f (raised_by t))
  application_timer_event t ts a f v few short d ready room =
      let n = period_of t * 1000 / ts.timers.tick_ms in
      let (ts1, later, i, run, is_id, ticks, at) =
        application_timers_expire (λ u. u) call n t ts (done a) v few short d (omega arith) in
      let b = block_of (λ u. u) t i ts.timers.tick_ms in
      let all : n == n ≡ true = ground arith in
      let last : counted_down n b ≡ record b { expiry_count = 1 } =
        ap
          (λ x. record b {
            ticks_remaining = if x then n else n - n;
            expiry_count = if x then 1 else 0;
          })
          all in
      let (ev, called, ready1) =
        expired_timer_raises t i (record b { expiry_count = 1 }) later a f
          (at ∙ ap (λ x. some (some x)) last) refl refl (omega arith) ready room in
      (ts1, later, i, ev, run, is_id, ticks, called, ready1)
