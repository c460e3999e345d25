-- ===== src/TimerFw/Tick/Timing/Expiry.antt =====
-- A timer of the main context that is started expires after exactly its number of ticks.
use mathlib.Core.Option
use c_utilities.Common.{
  ℕ, zero, suc, ◌-◌, ◌≤◌, ◌<◌, ◌≡◌, refl, ap, sym, ◌∙◌, false, Option, none, some, List, [], ◌∷◌,
  map, arith, get_elem?, ◌==◌, if◌then◌else◌, get_elem?-set_self, lt_of_get_elem?, get_elem?-map,
  length-map, Bool-cases, inl, inr,
}
use c_utilities.Common.Int.{pos}
use c_utilities.Common.Run.{Run, done, ◌>>=◌}
use c_utilities.ErrorTypes.{e_success}
use c_utilities.TimerFw.{running, expired, Timer, TimerFw, store, is_running, start, is_paused}
use c_utilities.TimerFw.Slots.{AllSome-get, AllSome-set, AllSome-map, occupied-map}
use c_utilities.TimerFw.Invariant.{IsTimer, IsValid, store-IsValid}
use c_utilities.TimerFw.Blocks.{start_lem}
use c_utilities.TimerFw.Tick.{tick}
use c_utilities.TimerFw.Tick.Timing.{
  is_realtime, IsDeferred, AllDeferred, advance, advance-type, advance_by, tick_deferred,
}

module _ {Cb : Type 0} where
  advance-IsTimer : (t : Timer Cb) → IsTimer t → IsTimer (advance t)
  unfolding advance
  advance-IsTimer t h = record {
    period = ground (arith, h.period);
    period_word = ground (arith, h.period_word);
    remaining_word = ground (arith, h.period_word, h.remaining_word);
    active = ground (arith, h.active, h.period);
  }

  advance-IsDeferred : (t : Timer Cb) → IsDeferred t → IsDeferred (advance t)
  advance-IsDeferred t h = ap is_realtime (advance-type t) ∙ h

  -- The framework after `n` ticks.
  abbrev pub after : ℕ → TimerFw Cb → TimerFw Cb
  after n fw = record fw { timer_cb = map (Option.map (advance_by n)) fw.timer_cb }

  after-IsValid : (fw : TimerFw Cb) → IsValid fw → IsValid (after 1 fw)
  unfolding advance_by
  after-IsValid fw v = record {
    slots = length-map (Option.map advance) fw.timer_cb ∙ v.slots;
    max_word = v.max_word;
    tick_pos = v.tick_pos;
    counted = v.counted ∙ sym (occupied-map advance fw.timer_cb);
    ready = v.ready;
    timers = AllSome-map IsTimer IsTimer advance advance-IsTimer fw.timer_cb v.timers;
  }

  -- A timer that has expired once.
  abbrev pub fired : Timer Cb → Timer Cb
  fired t =
      if t.repeat == 1
      then record t { ticks_remaining = t.ticks; state = running; expiry_count = 1 }
      else record t { ticks_remaining = 0; state = expired; expiry_count = 1 }

  -- A running timer before its last tick.
  advance_by_pending :
      (n : ℕ) (t : Timer Cb)
      → t.state ≡ running
      → n < t.ticks_remaining
      → advance_by n t ≡ record t { ticks_remaining = t.ticks_remaining - n }
  unfolding advance_by advance
  advance_by_pending zero t r h = ap (λ k. record t { ticks_remaining = k }) (omega arith)
  advance_by_pending (suc n) t r h =
      let u = record t { ticks_remaining = t.ticks_remaining - 1 } in
      let step : advance t ≡ u = ground (arith, ap is_running r) in
      let left : t.ticks_remaining - 1 - n ≡ t.ticks_remaining - suc n = omega arith in
      ap (advance_by n) step
      ∙ advance_by_pending n u r (omega arith)
      ∙ ap (λ k. record t { ticks_remaining = k }) left

  -- A running timer in its last tick.
  advance_by_expiry :
      (n : ℕ) (t : Timer Cb)
      → t.state ≡ running
      → t.ticks_remaining ≡ suc n
      → t.expiry_count ≡ 0
      → advance_by (suc n) t ≡ fired t
  unfolding advance_by advance
  advance_by_expiry zero t r e c = ground (arith, ap is_running r, e, c, r)
  advance_by_expiry (suc n) t r e c =
      let u = record t { ticks_remaining = t.ticks_remaining - 1 } in
      let step : advance t ≡ u = ground (arith, ap is_running r, e) in
      ap (advance_by (suc n)) step ∙ advance_by_expiry n u r (omega arith) c

  -- A repetitive timer up to its first expiry.
  pub advance_by_repetitive :
      (n : ℕ) (t : Timer Cb)
      → t.state ≡ running
      → t.repeat ≡ 1
      → t.ticks_remaining ≡ t.ticks
      → t.expiry_count ≡ 0
      → 0 < t.ticks
      → n ≤ t.ticks
      → advance_by n t ≡ record t {
        ticks_remaining = if n == t.ticks then t.ticks else t.ticks - n;
        expiry_count = if n == t.ticks then 1 else 0;
      }
  advance_by_repetitive n t r once e c p l = elim (Bool-cases (n == t.ticks)) [
    | inl last ↦
        let whole : suc (n - 1) ≡ n = ground arith in
        let at : t.ticks_remaining ≡ suc (n - 1) = ground arith in
        ap (λ k. advance_by k t) (sym whole)
        ∙ advance_by_expiry (n - 1) t r at c
        ∙ ground (arith, last, once, r)
    | inr before ↦
        advance_by_pending n t r (ground (arith, before, e)) ∙ ground (arith, before, e, c)
  ]

  map_blocks_none : (xs : List (Option (Timer Cb))) → map (Option.map (advance_by 0)) xs ≡ xs
  unfolding advance_by
  map_blocks_none [] = refl
  map_blocks_none (none ∷ xs) = ap (◌∷◌ none) (map_blocks_none xs)
  map_blocks_none (some t ∷ xs) = ap (◌∷◌ (some t)) (map_blocks_none xs)

  map_blocks_suc :
      (n : ℕ) (xs : List (Option (Timer Cb)))
      → map (Option.map (advance_by n)) (map (Option.map (advance_by 1)) xs)
        ≡ map (Option.map (advance_by (suc n))) xs
  unfolding advance_by
  map_blocks_suc n [] = refl
  map_blocks_suc n (none ∷ xs) = ap (◌∷◌ none) (map_blocks_suc n xs)
  map_blocks_suc n (some t ∷ xs) = ap (◌∷◌ (some (advance_by n (advance t)))) (map_blocks_suc n xs)

module _ {Cb S : Type 0} (invoke : Cb → ℕ → ℕ → TimerFw Cb × S → TimerFw Cb × S) where
  -- `n` interrupts of the platform timer.
  pub tick_times : ℕ → TimerFw Cb × S → Run (TimerFw Cb × S)
  tick_times zero w = done w
  tick_times (suc n) w = tick invoke w >>= tick_times n

  pub tick_times_lem :
      (n : ℕ) (fw : TimerFw Cb) (s : S)
      → IsValid fw
      → AllDeferred fw.timer_cb
      → tick_times n (fw, s) ≡ done (after n fw, s)
  unfolding tick_times advance_by
  tick_times_lem zero fw s v d =
      ap (λ xs. done (record fw { timer_cb = xs }, s)) (sym (map_blocks_none fw.timer_cb))
  tick_times_lem (suc n) fw s v d =
      let d1 = AllSome-map IsDeferred IsDeferred advance advance-IsDeferred fw.timer_cb d in
      ap (λ m. m >>= tick_times n) (tick_deferred invoke fw s v d)
      ∙ tick_times_lem n (after 1 fw) s (after-IsValid fw v) d1
      ∙ ap (λ xs. done (record fw { timer_cb = xs }, s)) (map_blocks_suc n fw.timer_cb)

  -- The ticks after a start, of which `n` are given.
  abbrev started : ℕ → Timer Cb → TimerFw Cb → TimerFw Cb
  started i t fw =
      store i (record t { ticks_remaining = t.ticks; state = running; expiry_count = 0 }) fw

  started_ticks :
      (n i : ℕ) (t : Timer Cb) (fw : TimerFw Cb) (s : S)
      → IsValid fw
      → AllDeferred fw.timer_cb
      → get_elem? fw.timer_cb i ≡ some (some t)
      → tick_times n (started i t fw, s) ≡ done (after n (started i t fw), s)
  started_ticks n i t fw s v d e =
      let h = AllSome-get IsTimer fw.timer_cb i v.timers e in
      let u = record t { ticks_remaining = t.ticks; state = running; expiry_count = 0 } in
      tick_times_lem n (started i t fw) s
        (store-IsValid fw i u v e (record {
          period = h.period;
          period_word = h.period_word;
          remaining_word = h.period_word;
          active = h.period;
        }))
        (AllSome-set IsDeferred fw.timer_cb i u d (AllSome-get IsDeferred fw.timer_cb i d e))

  started_block :
      (n i : ℕ) (t : Timer Cb) (fw : TimerFw Cb)
      → get_elem? fw.timer_cb i ≡ some (some t)
      → get_elem? (after n (started i t fw)).timer_cb i
        ≡ some (
            some (
              advance_by n
                (record t { ticks_remaining = t.ticks; state = running; expiry_count = 0 })))
  started_block n i t fw e = get_elem?-map (Option.map (advance_by n)) (started i t fw).timer_cb i (
      get_elem?-set_self fw.timer_cb i
        (some (record t { ticks_remaining = t.ticks; state = running; expiry_count = 0 }))
        (lt_of_get_elem? fw.timer_cb i e))

  -- timer_c_Start of a timer that neither runs nor is paused, in a valid framework without realtime
  -- timers, succeeds; after fewer ticks than the timer's number the timer is running with the rest
  -- of them to go, and has not expired.
  pub started_pending :
      (n i : ℕ) (t : Timer Cb) (fw : TimerFw Cb) (s : S)
      → IsValid fw
      → AllDeferred fw.timer_cb
      → get_elem? fw.timer_cb i ≡ some (some t)
      → is_running t.state ≡ false
      → is_paused t.state ≡ false
      → n < t.ticks
      → (before later : TimerFw Cb) × (start (pos i) fw ≡ done (e_success, before))
        × (tick_times n (before, s) ≡ done (later, s))
        × (get_elem? later.timer_cb i
            ≡ some (
                some
                  (record t { ticks_remaining = t.ticks - n; state = running; expiry_count = 0 })))
  started_pending n i t fw s v d e r p h =
      let u = record t { ticks_remaining = t.ticks; state = running; expiry_count = 0 } in
      (
        started i t fw,
        after n (started i t fw),
        start_lem i t fw v e r p,
        started_ticks n i t fw s v d e,
        started_block n i t fw e ∙ ap (λ x. some (some x)) (advance_by_pending n u refl h),
      )

  -- timer_c_Start of a timer that neither runs nor is paused, in a valid framework without realtime
  -- timers, succeeds; after exactly the timer's number of ticks the timer has expired once, and is
  -- running with all its ticks to go if it is repetitive, else in the state expired.
  pub started_expires :
      (i : ℕ) (t : Timer Cb) (fw : TimerFw Cb) (s : S)
      → IsValid fw
      → AllDeferred fw.timer_cb
      → get_elem? fw.timer_cb i ≡ some (some t)
      → is_running t.state ≡ false
      → is_paused t.state ≡ false
      → (before later : TimerFw Cb) × (start (pos i) fw ≡ done (e_success, before))
        × (tick_times t.ticks (before, s) ≡ done (later, s))
        × (get_elem? later.timer_cb i ≡ some (some (fired t)))
  started_expires i t fw s v d e r p =
      let u = record t { ticks_remaining = t.ticks; state = running; expiry_count = 0 } in
      let h = AllSome-get IsTimer fw.timer_cb i v.timers e in
      let whole : suc (t.ticks - 1) ≡ t.ticks = omega (arith, h.period) in
      let fires : advance_by t.ticks u ≡ fired t =
        ap (λ n. advance_by n u) (sym whole)
        ∙ advance_by_expiry (t.ticks - 1) u refl (sym whole) refl in
      (
        started i t fw,
        after t.ticks (started i t fw),
        start_lem i t fw v e r p,
        started_ticks t.ticks i t fw s v d e,
        started_block t.ticks i t fw e ∙ ap (λ x. some (some x)) fires,
      )
