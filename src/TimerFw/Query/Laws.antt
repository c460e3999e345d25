-- ===== src/TimerFw/Query/Laws.antt =====
-- What the functions that read a timer return of an existing timer.
use c_utilities.Common.{
  ℕ, ◌-◌, ◌*◌, ◌/◌, ◌%◌, ◌^◌, ◌≤◌, ◌<◌, ◌≡◌, refl, ap, ◌∙◌, false, some, arith, get_elem?,
  get_elem?-set_self, lt_of_get_elem?, ◌==◌, if◌then◌else◌, u32,
}
use c_utilities.Common.Int.{ℤ, pos, of_u32}
use c_utilities.Common.Run.{done, ◌>>=◌}
use c_utilities.ErrorTypes.{e_success}
use c_utilities.TimerFw.{
  TimerType, realtime, high_prio, low_prio, type_value, Timer, TimerFw, store, update_interval,
  update_block, divided,
}
use c_utilities.TimerFw.Invariant.{IsTimer, IsValid, store-IsValid}
use c_utilities.TimerFw.Slots.{AllSome-get}
use c_utilities.TimerFw.Blocks.{validate_found, operate_lem}
use c_utilities.TimerFw.Query.{interval, is_singleshot, query, read_found}

type_value_positive : (x : TimerType) → (type_value x == 0) ≡ false
type_value_positive realtime = refl
type_value_positive high_prio = refl
type_value_positive low_prio = refl

module _ {Cb : Type 0} (i : ℕ) where
  query_lem :
      (g : Timer Cb → ℤ) (t : Timer Cb) (fw : TimerFw Cb)
      → IsValid fw
      → get_elem? fw.timer_cb i ≡ some (some t)
      → query g (pos i) fw ≡ done (g t)
  unfolding query read_found
  query_lem g t fw v e = ap (λ m. m >>= λ l. done (read_found g l)) (validate_found i t fw v e)

  -- timerSingleshot answers 0 of every existing timer, be it repetitive or single-shot.
  pub is_singleshot_lem :
      (t : Timer Cb) (fw : TimerFw Cb)
      → IsValid fw
      → get_elem? fw.timer_cb i ≡ some (some t)
      → is_singleshot (pos i) fw ≡ done (pos 0)
  unfolding is_singleshot
  is_singleshot_lem t fw v e =
      query_lem (λ u. if type_value u.type == 0 then pos 1 else pos 0) t fw v e
      ∙ ap (λ b. done (if b then pos 1 else pos 0)) (type_value_positive t.type)

  -- timerUpdateInterval of an existing timer to at least a tick, and less than 2^31 ms, succeeds;
  -- timerInterval then returns the interval rounded down to a multiple of the tick.
  pub interval-update_interval :
      (ms : ℕ) (t : Timer Cb) (fw : TimerFw Cb)
      → IsValid fw
      → get_elem? fw.timer_cb i ≡ some (some t)
      → fw.tick_ms ≤ ms
      → ms < 2 ^ 31
      → (updated : TimerFw Cb) × (update_interval (pos i) ms fw ≡ done (e_success, updated))
        × (interval (pos i) updated ≡ done (pos (ms - ms % fw.tick_ms)))
  unfolding update_interval interval update_block divided
  interval-update_interval ms t fw v e l w =
      let u = record t { ticks = ms / fw.tick_ms } in
      let updated = store i u fw in
      let whole : ms / fw.tick_ms * fw.tick_ms ≡ ms - ms % fw.tick_ms = grind (arith, v.tick_pos) in
      let rounded : of_u32 (u32 (ms / fw.tick_ms * fw.tick_ms)) ≡ pos (ms - ms % fw.tick_ms) =
        ground (arith, whole) in
      let h = AllSome-get IsTimer fw.timer_cb i v.timers e in
      let valid : IsValid updated = store-IsValid fw i u v e (record {
        period = grind (arith, v.tick_pos);
        period_word = grind (arith, v.tick_pos);
        remaining_word = h.remaining_word;
        active = h.active;
      }) in
      (
        updated,
        operate_lem i (update_block fw.tick_ms ms) t (e_success, u) fw v e
            (ground (arith, v.tick_pos)),
        query_lem (λ x. of_u32 (u32 (x.ticks * fw.tick_ms))) u updated valid
              (get_elem?-set_self fw.timer_cb i (some u) (lt_of_get_elem? fw.timer_cb i e))
            ∙ ap done rounded,
      )
