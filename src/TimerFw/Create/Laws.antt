-- ===== src/TimerFw/Create/Laws.antt =====
-- timerCreate takes the first free entry, and keeps the invariant.
use c_utilities.Common.{
  ℕ, zero, suc, ◌+◌, ◌-◌, ◌/◌, inl, inr, ◌^◌, ◌≤◌, ◌<◌, ◌≡◌, ◌⊎◌, ap, ◌∙◌, Bool, true, Option, none,
  some, arith, get_elem?, set, length-set, leb, ◌==◌, if◌then◌else◌, Bool-cases, lt_of_get_elem?,
}
use c_utilities.Common.Int.{pos}
use c_utilities.Common.Run.{done}
use c_utilities.ErrorTypes.{code, e_tmr_max, e_tmr_too_small}
use c_utilities.TimerFw.{TimerType, Timer, TimerFw}
use c_utilities.TimerFw.Slots.{AllSome-set, occupied-fill, IsFirstFree, first_free}
use c_utilities.TimerFw.Invariant.{IsTimer, IsValid}
use c_utilities.TimerFw.Create.{new_timer, occupy, seek_free, create}

module _ {Cb : Type 0} (type : TimerType) (ms repeat : ℕ) (cb : Option Cb) (arg : ℕ) where
  -- The framework with the new timer in entry `i`.
  abbrev pub with_new : ℕ → TimerFw Cb → TimerFw Cb
  with_new i fw = record fw {
    timer_cb = set fw.timer_cb i (some (new_timer type i repeat cb arg (ms / fw.tick_ms)));
    timer_count = fw.timer_count + 1;
  }

  occupy_lem :
      (i : ℕ) (fw : TimerFw Cb)
      → 0 < fw.tick_ms
      → fw.timer_count < 2 ^ 8 - 1
      → occupy true type ms repeat cb arg i fw ≡ done (pos i, with_new i fw)
  unfolding occupy
  occupy_lem i fw p w = ground arith

  seek_free_lem :
      (rounds i j : ℕ) (fw : TimerFw Cb)
      → i ≤ j
      → j < i + rounds
      → IsFirstFree fw.timer_cb j
      → seek_free true type ms repeat cb arg rounds i fw ≡ occupy true type ms repeat cb arg j fw
  unfolding seek_free
  seek_free_lem zero i j fw h k f = absurd (omega arith)
  seek_free_lem (suc rounds) i j fw h k f = elim (Bool-cases (i == j)) [
    | inl same ↦
        let here : i ≡ j = ground arith in
        ground (arith, f.free, ap (get_elem? fw.timer_cb) here, here)
    | inr differ ↦
        let (t, taken) = f.before i (ground arith) in
        ground (arith, taken, seek_free_lem rounds (i + 1) j fw (ground arith) (omega arith) f)
  ]

  with_new-IsValid :
      (i : ℕ) (fw : TimerFw Cb)
      → IsValid fw
      → fw.tick_ms ≤ ms
      → ms < 2 ^ 32
      → get_elem? fw.timer_cb i ≡ some none
      → IsValid (with_new i fw)
  unfolding new_timer
  with_new-IsValid i fw v l w e = record {
    slots = omega (arith, length-set fw.timer_cb i (some new), v.slots);
    max_word = v.max_word;
    tick_pos = v.tick_pos;
    counted = omega (arith, occupied-fill fw.timer_cb i new e, v.counted);
    ready = v.ready;
    timers = AllSome-set IsTimer fw.timer_cb i new v.timers valid;
  }
    where
      new : Timer Cb
      new = new_timer type i repeat cb arg (ms / fw.tick_ms)

      valid : IsTimer new
      valid = record {
        period = grind (arith, v.tick_pos);
        period_word = grind (arith, v.tick_pos);
        remaining_word = omega arith;
        active = tt;
      }

  -- timerCreate, of an interval of at least a tick while fewer timers exist than allowed and memory
  -- is given: the new timer takes the first free entry, whose index is the result, and the
  -- invariant is kept.
  pub create_lem :
      (fw : TimerFw Cb)
      → IsValid fw
      → fw.timer_count < fw.max_timers
      → fw.tick_ms ≤ ms
      → ms < 2 ^ 32
      → (i : ℕ) × IsFirstFree fw.timer_cb i
        × (create true type ms repeat cb arg fw ≡ done (pos i, with_new i fw))
        × IsValid (with_new i fw)
  unfolding create
  create_lem fw v c l w =
      let (i, f) = first_free fw.timer_cb (omega (arith, v.counted, v.slots)) in
      let inside = lt_of_get_elem? fw.timer_cb i f.free in
      let sought =
        seek_free_lem fw.max_timers 0 i fw (omega arith) (omega (arith, v.slots)) f
        ∙ occupy_lem i fw v.tick_pos (omega (arith, v.max_word)) in
      (i, f, ground (arith, sought), with_new-IsValid i fw v l w f.free)

  -- timerCreate of too short an interval, or beyond the number of timers allowed, changes nothing.
  pub create_refused :
      (got : Bool) (fw : TimerFw Cb)
      → (fw.max_timers ≤ fw.timer_count) ⊎ ((fw.timer_count < fw.max_timers) × (ms < fw.tick_ms))
      → create got type ms repeat cb arg fw
        ≡ done (code (if leb fw.max_timers fw.timer_count then e_tmr_max else e_tmr_too_small), fw)
  unfolding create
  create_refused got fw h = ground arith
