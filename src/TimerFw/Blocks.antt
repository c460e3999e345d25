-- ===== src/TimerFw/Blocks.antt =====
-- timerFw.cpp: what the operations do to the timer they name, and which of them cancel out.
use c_utilities.Common.{
  ◌/◌, ◌<◌, ◌≤◌, ◌^◌, ℕ, ◌≡◌, refl, ap, sym, subst, ◌∙◌, false, none, some, arith, get_elem?, set,
  set_same, set-set, get_elem?-set_self, lt_of_get_elem?, u8_pred,
}
use c_utilities.Common.Int.{pos}
use c_utilities.Common.Run.{Run, done, ◌>>=◌}
use c_utilities.ErrorTypes.{ErrorType, e_success}
use c_utilities.TimerFw.{
  update_interval, update_block, divided, running, paused, is_running, is_paused, Timer, TimerFw,
  store, found, validate, check_slot, operate, apply_found, start, start_block, pause, pause_block,
  resume, resume_block, destroy, destroy_found,
}
use c_utilities.TimerFw.Slots.{AllSome-get}
use c_utilities.TimerFw.Invariant.{IsActive, IsTimer, IsValid, store-IsValid}

module _ {Cb : Type 0} (i : ℕ) where
  pub validate_found :
      (t : Timer Cb) (fw : TimerFw Cb)
      → IsValid fw
      → get_elem? fw.timer_cb i ≡ some (some t)
      → validate (pos i) fw ≡ done (found i t)
  unfolding validate check_slot
  validate_found t fw v e =
      let inside = lt_of_get_elem? fw.timer_cb i e in ground (arith, e, inside, v.slots, v.ready)

  -- An operation on an existing timer changes its block.
  pub operate_lem :
      (f : Timer Cb → Run (ErrorType × Timer Cb)) (t : Timer Cb) (r : ErrorType × Timer Cb)
      (fw : TimerFw Cb)
      → IsValid fw
      → get_elem? fw.timer_cb i ≡ some (some t)
      → f t ≡ done r
      → operate f (pos i) fw ≡ done (r.0, store i r.1 fw)
  unfolding operate apply_found
  operate_lem f t r fw v e run =
      ap (λ m. m >>= apply_found f fw) (validate_found t fw v e)
      ∙ ap (λ m. m >>= λ x. done (x.0, store i x.1 fw)) run

  -- timerUpdateInterval of an interval of at least a tick.
  pub update_interval_lem :
      (ms : ℕ) (t : Timer Cb) (fw : TimerFw Cb)
      → IsValid fw
      → get_elem? fw.timer_cb i ≡ some (some t)
      → fw.tick_ms ≤ ms
      → update_interval (pos i) ms fw
        ≡ done (e_success, store i (record t { ticks = ms / fw.tick_ms }) fw)
  unfolding update_interval update_block divided
  update_interval_lem ms t fw v e l =
      operate_lem (update_block fw.tick_ms ms) t (e_success, record t { ticks = ms / fw.tick_ms })
        fw v e (ground (arith, l, v.tick_pos))

  -- timer_c_Start of a timer that neither runs nor is paused.
  pub start_lem :
      (t : Timer Cb) (fw : TimerFw Cb)
      → IsValid fw
      → get_elem? fw.timer_cb i ≡ some (some t)
      → is_running t.state ≡ false
      → is_paused t.state ≡ false
      → start (pos i) fw
        ≡ done (
          e_success,
          store i (record t { ticks_remaining = t.ticks; state = running; expiry_count = 0 }) fw,
        )
  unfolding start start_block
  start_lem t fw v e r p =
      operate_lem (λ u. done (start_block u)) t
        (e_success, record t { ticks_remaining = t.ticks; state = running; expiry_count = 0 }) fw v
        e (ground (arith, r, p))

  -- A timer that is started with a number of ticks.
  abbrev pub armed : ℕ → Timer Cb → Timer Cb
  armed n t = record t { ticks = n; ticks_remaining = n; state = running; expiry_count = 0 }

  -- timerUpdateInterval and then timer_c_Start.
  pub start-update_interval :
      (ms : ℕ) (t : Timer Cb) (fw : TimerFw Cb)
      → IsValid fw
      → get_elem? fw.timer_cb i ≡ some (some t)
      → is_running t.state ≡ false
      → is_paused t.state ≡ false
      → fw.tick_ms ≤ ms
      → ms < 2 ^ 32
      → (fw1 : TimerFw Cb) × (update_interval (pos i) ms fw ≡ done (e_success, fw1))
        × (start (pos i) fw1 ≡ done (e_success, store i (armed (ms / fw.tick_ms) t) fw))
  start-update_interval ms t fw v e r p l w =
      let n = ms / fw.tick_ms in
      let u = record t { ticks = n } in
      let h = AllSome-get IsTimer fw.timer_cb i v.timers e in
      let v1 = store-IsValid fw i u v e (record {
        period = grind (arith, v.tick_pos, l);
        period_word = grind (arith, v.tick_pos, w);
        remaining_word = h.remaining_word;
        active = h.active;
      }) in
      let there = get_elem?-set_self fw.timer_cb i (some u) (lt_of_get_elem? fw.timer_cb i e) in
      (
        store i u fw,
        update_interval_lem ms t fw v e l,
        start_lem u (store i u fw) v1 there r p
            ∙ ap (λ xs. done (e_success, record fw { timer_cb = xs }))
                (set-set fw.timer_cb i (some u) (some (armed n t))),
      )

  -- timerPause of a running timer and then timerResume both succeed, and leave the framework as it
  -- was: the remaining ticks are kept.
  pub resume-pause :
      (t : Timer Cb) (fw : TimerFw Cb)
      → IsValid fw
      → get_elem? fw.timer_cb i ≡ some (some t)
      → t.state ≡ running
      → (held : TimerFw Cb) × (pause (pos i) fw ≡ done (e_success, held))
        × (resume (pos i) held ≡ done (e_success, fw))
  unfolding pause resume pause_block resume_block
  resume-pause t fw v e r =
      let u = record t { state = paused } in
      let held = store i u fw in
      let h = AllSome-get IsTimer fw.timer_cb i v.timers e in
      let hu : IsTimer u = record {
        period = h.period;
        period_word = h.period_word;
        remaining_word = h.remaining_word;
        active = subst (λ x. IsActive x t.ticks_remaining) r h.active;
      } in
      let e1 = get_elem?-set_self fw.timer_cb i (some u) (lt_of_get_elem? fw.timer_cb i e) in
      let back : store i (record u { state = running }) held ≡ fw =
        ap (λ xs. record fw { timer_cb = xs })
          (set-set fw.timer_cb i (some u) (some (record u { state = running }))
            ∙ ap (λ x. set fw.timer_cb i (some (record t { state = x }))) (sym r)
            ∙ set_same fw.timer_cb i e) in
      (
        held,
        operate_lem (λ x. done (pause_block x)) t (e_success, u) fw v e
            (ground (arith, ap is_running r)),
        operate_lem (λ x. done (resume_block x)) u (e_success, record u { state = running }) held
              (store-IsValid fw i u v e hu) e1 refl
            ∙ ap (λ x. done (e_success, x)) back,
      )

  -- timerDestroy of a timer that neither runs nor is paused.
  pub destroy_lem :
      (t : Timer Cb) (fw : TimerFw Cb)
      → IsValid fw
      → get_elem? fw.timer_cb i ≡ some (some t)
      → is_running t.state ≡ false
      → is_paused t.state ≡ false
      → destroy (pos i) fw
        ≡ done (
          e_success,
          record fw { timer_cb = set fw.timer_cb i none; timer_count = u8_pred fw.timer_count },
        )
  unfolding destroy destroy_found
  destroy_lem t fw v e r p =
      ap (λ m. m >>= λ l. done (destroy_found fw l)) (validate_found t fw v e)
      ∙ ground (arith, r, p)
