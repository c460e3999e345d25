-- ===== src/MainProgram/Timers/Laws.antt =====
-- The timers of the application run, each with its own period.
use mathlib.Core.Option
use c_utilities.Common.{
  ℕ, ◌+◌, ◌-◌, ◌*◌, ◌==◌, if◌then◌else◌, get_elem?-map, ◌/◌, ◌^◌, ◌≤◌, ◌<◌, ◌≡◌, ◌≢◌, refl, ap, sym,
  ◌∙◌, true, none, some, arith, get_elem?, u8, get_elem?-set_self, get_elem?-set_ne,
  lt_of_get_elem?,
}
use c_utilities.Common.Int.{ℤ, pos}
use c_utilities.Common.Run.{done, ◌>>=◌}
use c_utilities.TimerFw.{running, low_prio, Timer, TimerFw, store, start}
use c_utilities.TimerFw.Slots.{AllSome-get, AllSome-set}
use c_utilities.TimerFw.Invariant.{IsTimer, IsValid, store-IsValid}
use c_utilities.TimerFw.Blocks.{start_lem}
use c_utilities.TimerFw.Create.{new_timer}
use c_utilities.TimerFw.Create.Laws.{create_lem, with_new}
use c_utilities.TimerFw.Tick.Timing.{AllDeferred, IsDeferred, advance_by}
use c_utilities.TimerFw.Tick.Timing.Expiry.{
  after, tick_times, tick_times_lem, advance_by_repetitive,
}
use c_utilities.MainProgram.Timers.{
  AppTimer, wifi_status_timer, send_device_status_timer, device_monitor_timer, flush_buffer_timer,
  period_of, AppTimers, id_of, keep_timer_id, create_and_start, create_application_timers,
}

all_timers :
    (P : AppTimer → Type 0) (t : AppTimer)
    → P wifi_status_timer
    → P send_device_status_timer
    → P device_monitor_timer
    → P flush_buffer_timer
    → P t
all_timers P wifi_status_timer w s d f = w
all_timers P send_device_status_timer w s d f = s
all_timers P device_monitor_timer w s d f = d
all_timers P flush_buffer_timer w s d f = f

-- A repetitive timer `n` ticks after its start.
abbrev pub counted_down : {Cb : Type 0} → ℕ → Timer Cb → Timer Cb
counted_down n b = record b {
  ticks_remaining = if n == b.ticks then b.ticks else b.ticks - n;
  expiry_count = if n == b.ticks then 1 else 0;
}

module _ {Cb : Type 0} (named : AppTimer → Cb) where
  -- The control block of a timer that has just been started in entry `i`.
  abbrev pub block_of : AppTimer → ℕ → ℕ → Timer Cb
  block_of t i tick_ms = record {
    repeat = 1;
    timer_id = u8 i;
    cb = some (named t);
    arg = 0;
    ticks = period_of t * 1000 / tick_ms;
    ticks_remaining = period_of t * 1000 / tick_ms;
    expiry_count = 0;
    state = running;
    type = low_prio;
  }

  -- The timer with this id has just been started.
  abbrev pub Runs : AppTimer → ℤ → TimerFw Cb → Type 0
  Runs t id fw =
      (i : ℕ) × (id ≡ pos i) × (get_elem? fw.timer_cb i ≡ some (some (block_of t i fw.tick_ms)))

  -- The timers of `fw` are there.
  abbrev pub Keeps : TimerFw Cb → TimerFw Cb → Type 0
  Keeps fw fw1 =
      (k : ℕ) (b : Timer Cb)
      → get_elem? fw.timer_cb k ≡ some (some b)
      → get_elem? fw1.timer_cb k ≡ some (some b)

  -- One more timer, which has just been started.
  pub record IsNext (t : AppTimer) (id : ℤ) (fw fw1 : TimerFw Cb) : Type 0 where
    pub valid : IsValid fw1
    pub runs : Runs t id fw1
    pub keeps : Keeps fw fw1
    pub counted : fw1.timer_count ≡ fw.timer_count + 1
    pub same_max : fw1.max_timers ≡ fw.max_timers
    pub same_tick : fw1.tick_ms ≡ fw.tick_ms
    pub deferred : AllDeferred fw.timer_cb → AllDeferred fw1.timer_cb

  period_of_bound : (t : AppTimer) → (4000 ≤ period_of t * 1000) × (period_of t * 1000 < 2 ^ 32)
  period_of_bound wifi_status_timer = (omega arith, omega arith)
  period_of_bound send_device_status_timer = (omega arith, omega arith)
  period_of_bound device_monitor_timer = (omega arith, omega arith)
  period_of_bound flush_buffer_timer = (omega arith, omega arith)

  create_and_start_lem :
      (t : AppTimer) (a : AppTimers Cb)
      → IsValid a.timers
      → a.timers.timer_count < a.timers.max_timers
      → a.timers.tick_ms ≤ 4000
      → (id : ℤ) × (fw : TimerFw Cb) × (create_and_start named true t a
          ≡ done (keep_timer_id t id (record a { timers = fw })))
        × IsNext t id a.timers fw
  unfolding create_and_start new_timer
  create_and_start_lem t a v room short =
      let fw = a.timers in
      let ms = period_of t * 1000 in
      let (i, f, run, v1) =
        create_lem low_prio ms 1 (some (named t)) 0 fw v room (omega (arith, period_of_bound t))
          (period_of_bound t).1 in
      let fw1 = with_new low_prio ms 1 (some (named t)) 0 i fw in
      let new = new_timer low_prio i 1 (some (named t)) 0 (ms / fw.tick_ms) in
      let inside = lt_of_get_elem? fw.timer_cb i f.free in
      let here : get_elem? fw1.timer_cb i ≡ some (some new) =
        get_elem?-set_self fw.timer_cb i (some new) inside in
      let block = block_of t i fw.tick_ms in
      let inside1 = lt_of_get_elem? fw1.timer_cb i here in
      let h : IsTimer new = AllSome-get IsTimer fw1.timer_cb i v1.timers here in
      (
        pos i,
        store i block fw1,
        ap
              (λ m. m >>= λ r.
                start r.0 r.1 >>= λ q. done (keep_timer_id t r.0 (record a { timers = q.1 })))
              run
            ∙ ap (λ m. m >>= λ q. done (keep_timer_id t (pos i) (record a { timers = q.1 })))
                (start_lem i new fw1 v1 here refl refl),
        record {
          valid = store-IsValid fw1 i block v1 here (record {
            period = h.period;
            period_word = h.period_word;
            remaining_word = h.period_word;
            active = h.period;
          });
          runs = (i, refl, get_elem?-set_self fw1.timer_cb i (some block) inside1);
          keeps = λ k b e.
              let other : i ≢ k = λ same.
                let clash : some none ≡ some (some b) =
                  sym f.free ∙ ap (get_elem? fw.timer_cb) same ∙ e in
                absurd (cc) in
              get_elem?-set_ne fw1.timer_cb i k (some block) other
              ∙ get_elem?-set_ne fw.timer_cb i k (some new) other
              ∙ e;
          counted = refl;
          same_max = refl;
          same_tick = refl;
          deferred = λ d.
              AllSome-set IsDeferred fw1.timer_cb i block
                (AllSome-set IsDeferred fw.timer_cb i new d refl) refl;
        },
      )

  Runs-Keeps :
      (t : AppTimer) (id : ℤ) (fw fw1 : TimerFw Cb)
      → Runs t id fw
      → Keeps fw fw1
      → fw1.tick_ms ≡ fw.tick_ms
      → Runs t id fw1
  Runs-Keeps t id fw fw1 (i, e, at) kept same = (
    i,
    e,
    kept i (block_of t i fw.tick_ms) at ∙ ap (λ m. some (some (block_of t i m))) (sym same),
  )

  -- createApplicationTimers on a valid framework with room for four timers, whose tick is at most four
  -- seconds, given memory: each of the four timers has just been started, under the id that is stored
  -- for it.
  pub create_application_timers_lem :
      (a : AppTimers Cb)
      → IsValid a.timers
      → a.timers.timer_count + 3 < a.timers.max_timers
      → a.timers.tick_ms ≤ 4000
      → (a1 : AppTimers Cb) × (create_application_timers named true a ≡ done a1)
        × IsValid a1.timers
        × ((t : AppTimer) → Runs t (id_of t a1) a1.timers)
        × (a1.timers.tick_ms ≡ a.timers.tick_ms)
        × (AllDeferred a.timers.timer_cb → AllDeferred a1.timers.timer_cb)
  unfolding create_application_timers
  create_application_timers_lem a v room short =
      let (id1, fw1, run1, k1) = create_and_start_lem wifi_status_timer a v (omega arith) short in
      let a1 = keep_timer_id wifi_status_timer id1 (record a { timers = fw1 }) in
      let (id2, fw2, run2, k2) =
        create_and_start_lem send_device_status_timer a1 k1.valid
          (omega (arith, k1.counted, k1.same_max)) (omega (arith, k1.same_tick)) in
      let a2 = keep_timer_id send_device_status_timer id2 (record a1 { timers = fw2 }) in
      let (id3, fw3, run3, k3) =
        create_and_start_lem device_monitor_timer a2 k2.valid
          (omega (arith, k1.counted, k1.same_max, k2.counted, k2.same_max))
          (omega (arith, k1.same_tick, k2.same_tick)) in
      let a3 = keep_timer_id device_monitor_timer id3 (record a2 { timers = fw3 }) in
      let (id4, fw4, run4, k4) =
        create_and_start_lem flush_buffer_timer a3 k3.valid
          (omega (arith, k1.counted, k1.same_max, k2.counted, k2.same_max, k3.counted, k3.same_max))
          (omega (arith, k1.same_tick, k2.same_tick, k3.same_tick)) in
      let runs3 : (t : AppTimer) (id : ℤ) → Runs t id fw3 → Runs t id fw4 =
        λ t id r. Runs-Keeps t id fw3 fw4 r k4.keeps k4.same_tick in
      let runs2 : (t : AppTimer) (id : ℤ) → Runs t id fw2 → Runs t id fw4 =
        λ t id r. runs3 t id (Runs-Keeps t id fw2 fw3 r k3.keeps k3.same_tick) in
      let next = create_and_start named true in
      let a4 = keep_timer_id flush_buffer_timer id4 (record a3 { timers = fw4 }) in
      (
        a4,
        ap
              (λ m.
                m
                >>= next send_device_status_timer
                >>= next device_monitor_timer
                >>= next flush_buffer_timer)
              run1
            ∙ ap (λ m. m >>= next device_monitor_timer >>= next flush_buffer_timer) run2
            ∙ ap (λ m. m >>= next flush_buffer_timer) run3
            ∙ run4,
        k4.valid,
        λ t.
            all_timers (λ t. Runs t (id_of t a4) fw4) t
              (runs2 wifi_status_timer id1
                (Runs-Keeps wifi_status_timer id1 fw1 fw2 k1.runs k2.keeps k2.same_tick))
              (runs2 send_device_status_timer id2 k2.runs) (runs3 device_monitor_timer id3 k3.runs)
              k4.runs,
        k4.same_tick ∙ k3.same_tick ∙ k2.same_tick ∙ k1.same_tick,
        λ d. k4.deferred (k3.deferred (k2.deferred (k1.deferred d))),
      )

  -- In the framework left by createApplicationTimers, without realtime timers, `n` interrupts of the
  -- platform timer, up to the period of a timer in ticks, count its ticks down; in the last of them the
  -- timer expires once and is running again, with all its ticks to go. The framework before is valid, has
  -- room for four timers, a tick of at most four seconds and no realtime timer, and memory is given.
  pub application_timers_expire :
      {S : Type 0} (invoke : Cb → ℕ → ℕ → TimerFw Cb × S → TimerFw Cb × S) (n : ℕ) (t : AppTimer)
      (a : AppTimers Cb) (s : S)
      → IsValid a.timers
      → a.timers.timer_count + 3 < a.timers.max_timers
      → a.timers.tick_ms ≤ 4000
      → AllDeferred a.timers.timer_cb
      → n ≤ period_of t * 1000 / a.timers.tick_ms
      → (a1 : AppTimers Cb) × (later : TimerFw Cb) × (i : ℕ) × (create_application_timers named true
            a
          ≡ done a1)
        × (id_of t a1 ≡ pos i)
        × (tick_times invoke n (a1.timers, s) ≡ done (later, s))
        × (get_elem? later.timer_cb i
            ≡ some (some (counted_down n (block_of t i a.timers.tick_ms))))
  application_timers_expire invoke n t a s v room short d l =
      let (a1, run, v1, runs, tick, keeps) = create_application_timers_lem a v room short in
      let (i, is_id, at) = runs t in
      let b = block_of t i a.timers.tick_ms in
      let at1 : get_elem? a1.timers.timer_cb i ≡ some (some b) =
        at ∙ ap (λ m. some (some (block_of t i m))) tick in
      let h : IsTimer b = AllSome-get IsTimer a1.timers.timer_cb i v1.timers at1 in
      (
        a1,
        after n a1.timers,
        i,
        run,
        is_id,
        tick_times_lem invoke n a1.timers s v1 (keeps d),
        get_elem?-map (Option.map (advance_by n)) a1.timers.timer_cb i at1
            ∙ ap (λ x. some (some x)) (advance_by_repetitive n b refl refl refl refl h.period l),
      )
