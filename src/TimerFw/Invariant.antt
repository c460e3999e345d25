-- ===== src/TimerFw/Invariant.antt =====
-- The invariant of the timer framework, and the operations on one timer.
use c_utilities.Common.{
  ℕ, ◌/◌, ◌^◌, ◌<◌, ◌≡◌, ◌≢◌, refl, ap, sym, subst, ◌∙◌, true, false, inl, inr, Option, none, some,
  arith, length, get_elem?, replicate, length-set, length-replicate, leb, ltb, get_elem?-some,
  Bool-cases,
}
use c_utilities.Common.Int.{ℤ, pos, negsuc}
use c_utilities.Common.Run.{Run, done, ◌>>=◌}
use c_utilities.ErrorTypes.{
  ErrorType, e_tmr_not_exist, e_tmr_out_of_bound, e_tmr_too_small, e_success,
}
use c_utilities.TimerFw.{
  is_running, is_paused, TimerState, running, paused, Timer, TimerFw, fw_init, store, Lookup,
  refused, found, validate, check_slot, operate, apply_found, start_block, stop_block, pause_block,
  resume_block, update_block, destroy_found,
}
use c_utilities.TimerFw.Slots.{
  AllSome, AllSome-get, AllSome-set, AllSome-clear, AllSome-replicate, occupied, occupied-replicate,
  occupied-set, occupied-clear, occupied-le-length,
}

-- A timer that runs or is paused has ticks to go.
abbrev pub IsActive : TimerState → ℕ → Type 0
IsActive running n = 0 < n
IsActive paused n = 0 < n
IsActive _ n = Unit

module _ {Cb : Type 0} where
  pub record IsTimer (t : Timer Cb) : Type 0 where
    pub period : 0 < t.ticks
    pub period_word : t.ticks < 2 ^ 32
    pub remaining_word : t.ticks_remaining < 2 ^ 32
    pub active : IsActive t.state t.ticks_remaining

  pub record IsValid (fw : TimerFw Cb) : Type 0 where
    pub slots : length fw.timer_cb ≡ fw.max_timers
    pub max_word : fw.max_timers < 2 ^ 8
    pub tick_pos : 0 < fw.tick_ms
    pub counted : fw.timer_count ≡ occupied fw.timer_cb
    pub ready : fw.is_init ≡ true
    pub timers : AllSome IsTimer fw.timer_cb

  -- timerFwInit with a positive tick and at most 255 timers establishes the invariant.
  pub fw_init-IsValid :
      (min_timer_ms max : ℕ) (fw : TimerFw Cb)
      → fw.is_init ≡ false
      → fw.timer_count ≡ 0
      → 0 < min_timer_ms
      → max < 2 ^ 8
      → ((fw_init true min_timer_ms max fw).0 ≡ e_success)
        × IsValid (fw_init true min_timer_ms max fw).1
  unfolding fw_init
  fw_init-IsValid min_timer_ms max fw n c p w = (
    ground arith,
    record {
      slots = ground (arith, length-replicate {A = Option (Timer Cb)} max none);
      max_word = ground arith;
      tick_pos = ground arith;
      counted = ground (arith, occupied-replicate (Timer Cb) max);
      ready = ground arith;
      timers = subst (AllSome IsTimer) (sym cleared) (AllSome-replicate IsTimer max);
    },
  )
    where
      cleared : (fw_init true min_timer_ms max fw).1.timer_cb ≡ replicate max none
      cleared = ground arith

  -- What validateTimer answers of a valid framework, as a fact about the array.
  pub data Answers (fw : TimerFw Cb) : Lookup Cb → Type 0 where
    no : (e : ErrorType) → e ≢ e_success → Answers fw (refused e)
    at : (i : ℕ) (t : Timer Cb) → get_elem? fw.timer_cb i ≡ some (some t) → Answers fw (found i t)

  check_slot_total :
      (fw : TimerFw Cb) (i : ℕ) (slot : Option (Timer Cb))
      → get_elem? fw.timer_cb i ≡ some slot
      → (l : Lookup Cb) × (check_slot i (some slot) ≡ done l) × Answers fw l
  unfolding check_slot
  check_slot_total fw i none e = (refused e_tmr_not_exist, refl, no e_tmr_not_exist (λ p. cc))
  check_slot_total fw i (some t) e = (found i t, refl, at i t e)

  validate_in_bounds :
      (fw : TimerFw Cb) (i : ℕ) {slot : Option (Timer Cb)}
      → leb fw.max_timers i ≡ false
      → fw.is_init ≡ true
      → get_elem? fw.timer_cb i ≡ some slot
      → validate (pos i) fw ≡ check_slot i (some slot)
  unfolding validate
  validate_in_bounds fw i b r e = ground arith

  -- validateTimer indexes the array within bounds.
  pub validate_total :
      (fw : TimerFw Cb) (id : ℤ)
      → IsValid fw
      → (l : Lookup Cb) × (validate id fw ≡ done l) × Answers fw l
  unfolding validate
  validate_total fw (negsuc n) v =
      (refused e_tmr_out_of_bound, refl, no e_tmr_out_of_bound (λ p. cc))
  validate_total fw (pos i) v = elim (Bool-cases (leb fw.max_timers i)) [
    | inl outside ↦ (refused e_tmr_out_of_bound, ground arith, no e_tmr_out_of_bound (λ p. cc))
    | inr inside ↦
        let (slot, e) = get_elem?-some fw.timer_cb i (ground (arith, v.slots)) in
        let (l, run, a) = check_slot_total fw i slot e in
        (l, validate_in_bounds fw i inside v.ready e ∙ run, a)
  ]

  -- A change of one block.
  pub store-IsValid :
      (fw : TimerFw Cb) (i : ℕ) {t : Timer Cb} (u : Timer Cb)
      → IsValid fw
      → get_elem? fw.timer_cb i ≡ some (some t)
      → IsTimer u
      → IsValid (store i u fw)
  store-IsValid fw i u v e h = record {
    slots = omega (arith, length-set fw.timer_cb i (some u), v.slots);
    max_word = v.max_word;
    tick_pos = v.tick_pos;
    counted = omega (arith, occupied-set fw.timer_cb i u e, v.counted);
    ready = v.ready;
    timers = AllSome-set IsTimer fw.timer_cb i u v.timers h;
  }

  -- An operation on one timer that keeps what holds of the timer.
  pub operate-IsValid :
      (f : Timer Cb → Run (ErrorType × Timer Cb)) (fw : TimerFw Cb) (id : ℤ)
      → ((t : Timer Cb) → IsTimer t → (r : ErrorType × Timer Cb) × (f t ≡ done r) × IsTimer r.1)
      → IsValid fw
      → (r : ErrorType × TimerFw Cb) × (operate f id fw ≡ done r) × IsValid r.1
  unfolding operate apply_found
  operate-IsValid f fw id keeps v =
      let (l, run, a) = validate_total fw id v in
      let (r, run', w) = found_case l a in (r, ap (λ m. m >>= apply_found f fw) run ∙ run', w)
    where
      found_case :
          (l : Lookup Cb)
          → Answers fw l
          → (r : ErrorType × TimerFw Cb) × (apply_found f fw l ≡ done r) × IsValid r.1
      found_case l (no e n) = ((e, fw), refl, v)
      found_case l (at i t e) =
          let (r, run, w) = keeps t (AllSome-get IsTimer fw.timer_cb i v.timers e) in
          (
            (r.0, store i r.1 fw),
            ap (λ m. m >>= λ x. done (x.0, store i x.1 fw)) run,
            store-IsValid fw i r.1 v e w,
          )

  pub start_block-IsTimer : (t : Timer Cb) → IsTimer t → IsTimer (start_block t).1
  unfolding start_block
  start_block-IsTimer t h = ground arith

  pub stop_block-IsTimer : (t : Timer Cb) → IsTimer t → IsTimer (stop_block t).1
  unfolding stop_block
  stop_block-IsTimer t h = ground arith

  pub pause_block-IsTimer : (t : Timer Cb) → IsTimer t → IsTimer (pause_block t).1
  unfolding pause_block
  pause_block-IsTimer t h = ground arith

  pub resume_block-IsTimer : (t : Timer Cb) → IsTimer t → IsTimer (resume_block t).1
  unfolding resume_block
  resume_block-IsTimer t h = ground arith

  -- An interval of at least a tick is a positive number of ticks.
  pub update_block-IsTimer :
      (tick_ms ms : ℕ) (t : Timer Cb)
      → 0 < tick_ms
      → ms < 2 ^ 32
      → IsTimer t
      → (r : ErrorType × Timer Cb) × (update_block tick_ms ms t ≡ done r) × IsTimer r.1
  unfolding update_block
  update_block-IsTimer tick_ms ms t p w h = elim (Bool-cases (ltb ms tick_ms)) [
    | inl small ↦ ((e_tmr_too_small, t), ground arith, h)
    | inr large ↦ (
      (e_success, record t { ticks = ms / tick_ms }),
      ground arith,
      record {
        period = grind arith;
        period_word = grind arith;
        remaining_word = h.remaining_word;
        active = h.active;
      },
    )
  ]

  pub destroy_found-IsValid :
      (fw : TimerFw Cb) (l : Lookup Cb) → IsValid fw → Answers fw l → IsValid (destroy_found fw l).1
  unfolding destroy_found
  destroy_found-IsValid fw l v (no e n) = v
  destroy_found-IsValid fw l v (at i t e) = elim (Bool-cases (is_running t.state)) [
    | inl r ↦ rw r v
    | inr r ↦ elim (Bool-cases (is_paused t.state)) [
      | inl p ↦ rw (r, p) v
      | inr p ↦
          rw (r, p)
            (record {
              slots = omega (arith, length-set fw.timer_cb i none, v.slots);
              max_word = v.max_word;
              tick_pos = v.tick_pos;
              counted = omega (
                arith,
                occupied-clear fw.timer_cb i e,
                v.counted,
                occupied-le-length fw.timer_cb,
                v.slots,
                v.max_word,
              );
              ready = v.ready;
              timers = AllSome-clear IsTimer fw.timer_cb i v.timers;
            })
    ]
  ]
