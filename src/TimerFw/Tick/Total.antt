-- ===== src/TimerFw/Tick/Total.antt =====
-- The tick and the main loop's processing end, for callbacks that do not destroy their own timer.
use c_utilities.Common.{
  ℕ, zero, suc, ◌+◌, ◌^◌, ◌<◌, ◌≡◌, refl, ap, sym, ◌∙◌, Option, none, some, arith, get_elem?, ltb,
  ◌==◌, ◌&&◌, Bool-cases, u32, u32_pred, inl, inr, get_elem?-set_self, set-set, subst,
  lt_of_get_elem?, get_elem?-some,
}
use c_utilities.Common.Run.{Run, done, ◌>>=◌}
use c_utilities.TimerFw.{
  TimerType, realtime, high_prio, low_prio, Timer, TimerFw, store, is_running,
}
use c_utilities.TimerFw.Slots.{AllSome-get}
use c_utilities.TimerFw.Invariant.{IsTimer, IsValid, store-IsValid}
use c_utilities.TimerFw.Tick.{
  notify, change, expire, reload, tick_block, tick_slot, for_timers, tick, process_block,
  process_slot, process_non_rt, same_type, fw_process,
}

module _ {Cb : Type 0} where
  -- What holds of the block of a timer that is just expiring.
  pub record IsExpiring (t : Timer Cb) : Type 0 where
    pub period : 0 < t.ticks
    pub period_word : t.ticks < 2 ^ 32
    pub remaining_word : t.ticks_remaining < 2 ^ 32

  -- The framework while timer `i` is expiring: valid, once block `i` is.
  pub record IsValidBut (i : ℕ) (fw : TimerFw Cb) : Type 0 where
    pub block : Timer Cb
    pub at : get_elem? fw.timer_cb i ≡ some (some block)
    pub expiring : IsExpiring block
    pub repair : (u : Timer Cb) → IsTimer u → IsValid (store i u fw)

-- What the framework relies on of the callbacks: they leave it valid, also while the timer that they
-- are called for is expiring, and they leave the control block of that timer allocated.
pub record IsWellBehaved {Cb S : Type 0} (invoke : Cb → ℕ → ℕ → TimerFw Cb × S → TimerFw Cb × S)
    : Type 0 where
  pub keeps : (c : Cb) (i arg : ℕ) (w : TimerFw Cb × S) → IsValid w.0 → IsValid (invoke c i arg w).0
  pub stays :
      (c : Cb) (i arg : ℕ) (w : TimerFw Cb × S) {t : Timer Cb}
      → get_elem? w.0.timer_cb i ≡ some (some t)
      → (u : Timer Cb) × (get_elem? (invoke c i arg w).0.timer_cb i ≡ some (some u))
  pub keeps_expiring :
      (c : Cb) (i arg : ℕ) (w : TimerFw Cb × S)
      → IsValidBut i w.0
      → IsValidBut i (invoke c i arg w).0
  pub same_max :
      (c : Cb) (i arg : ℕ) (w : TimerFw Cb × S) → (invoke c i arg w).0.max_timers ≡ w.0.max_timers

reload-IsTimer : {Cb : Type 0} (t : Timer Cb) → IsExpiring t → IsTimer (reload t)
unfolding reload
reload-IsTimer t h = ground arith

module _ {Cb : Type 0} where
  -- A block stored is there to be read.
  get_elem?-store :
      (i : ℕ) (u : Timer Cb) (fw : TimerFw Cb) {t : Timer Cb}
      → get_elem? fw.timer_cb i ≡ some (some t)
      → get_elem? (store i u fw).timer_cb i ≡ some (some u)
  get_elem?-store i u fw e =
      get_elem?-set_self fw.timer_cb i (some u) (lt_of_get_elem? fw.timer_cb i e)

  store-store : (i : ℕ) (t u : Timer Cb) (fw : TimerFw Cb) → store i u (store i t fw) ≡ store i u fw
  store-store i t u fw =
      ap (λ xs. record fw { timer_cb = xs }) (set-set fw.timer_cb i (some t) (some u))

  -- A change that keeps the number of ticks leaves the timer expiring.
  store-IsValidBut :
      (i : ℕ) (t : Timer Cb) (fw : TimerFw Cb)
      → IsValidBut i fw
      → IsExpiring t
      → IsValidBut i (store i t fw)
  store-IsValidBut i t fw b h = record {
    block = t;
    at = get_elem?-store i t fw b.at;
    expiring = h;
    repair = λ u hu. subst IsValid (sym (store-store i t u fw)) (b.repair u hu);
  }

  IsValid-IsValidBut :
      (i : ℕ) (fw : TimerFw Cb) {t : Timer Cb}
      → IsValid fw
      → get_elem? fw.timer_cb i ≡ some (some t)
      → IsValidBut i fw
  IsValid-IsValidBut i fw {t} v e =
      let h = AllSome-get IsTimer fw.timer_cb i v.timers e in
      record {
        block = t;
        at = e;
        expiring = record {
          period = h.period;
          period_word = h.period_word;
          remaining_word = h.remaining_word;
        };
        repair = λ u hu. store-IsValid fw i u v e hu;
      }

module _ {Cb S : Type 0} where
  -- A run that ends in a valid framework for as many timers.
  abbrev pub EndsValid : ℕ → Run (TimerFw Cb × S) → Type 0
  EndsValid max m = (w : TimerFw Cb × S) × (m ≡ done w) × IsValid w.0 × (w.0.max_timers ≡ max)

  -- The block of entry `i` is changed where it stands.
  change_lem :
      (i : ℕ) (f : Timer Cb → Timer Cb) (fw : TimerFw Cb) (s : S) {t : Timer Cb}
      → get_elem? fw.timer_cb i ≡ some (some t)
      → change i f (fw, s) ≡ done (store i (f t) fw, s)
  unfolding change
  change_lem i f fw s e = ground arith

  -- The end of an expiry, where block `i` is read anew and reloaded.
  reload_lem :
      (i : ℕ) (fw : TimerFw Cb) (s : S)
      → IsValidBut i fw
      → EndsValid fw.max_timers (change i reload (fw, s))
  reload_lem i fw s b = (
    (store i (reload b.block) fw, s),
    change_lem i reload fw s b.at,
    b.repair (reload b.block) (reload-IsTimer b.block b.expiring),
    refl,
  )

module _ {Cb S : Type 0} (invoke : Cb → ℕ → ℕ → TimerFw Cb × S → TimerFw Cb × S)
    (wb : IsWellBehaved invoke) where
  notify-IsValidBut :
      (cb : Option Cb) (i arg : ℕ) (w : TimerFw Cb × S)
      → IsValidBut i w.0
      → IsValidBut i (notify invoke cb i arg w).0
        × ((notify invoke cb i arg w).0.max_timers ≡ w.0.max_timers)
  unfolding notify
  notify-IsValidBut none i arg w b = (b, refl)
  notify-IsValidBut (some c) i arg w b = (wb.keeps_expiring c i arg w b, wb.same_max c i arg w)

  notify-IsValid :
      (cb : Option Cb) (i arg : ℕ) (w : TimerFw Cb × S) {t : Timer Cb}
      → IsValid w.0
      → get_elem? w.0.timer_cb i ≡ some (some t)
      → IsValid (notify invoke cb i arg w).0
        × ((notify invoke cb i arg w).0.max_timers ≡ w.0.max_timers)
        × ((u : Timer Cb) × (get_elem? (notify invoke cb i arg w).0.timer_cb i ≡ some (some u)))
  unfolding notify
  notify-IsValid none i arg w {t} v e = (v, refl, (t, e))
  notify-IsValid (some c) i arg w v e =
      (wb.keeps c i arg w v, wb.same_max c i arg w, wb.stays c i arg w e)

  -- The change that marks the expiry as processed.
  acknowledge_lem :
      (i : ℕ) (fw : TimerFw Cb) (s : S) (b : IsValidBut i fw)
      → change i (λ u. record u { expiry_count = 0 }) (fw, s)
        ≡ done (store i (record b.block { expiry_count = 0 }) fw, s)
  acknowledge_lem i fw s b = change_lem i (λ u. record u { expiry_count = 0 }) fw s b.at

  expire_total :
      (type : TimerType) (i : ℕ) (t : Timer Cb) (fw : TimerFw Cb) (s : S)
      → IsValidBut i fw
      → EndsValid fw.max_timers (expire invoke type i t (fw, s))
  unfolding expire
  expire_total realtime i t fw s b =
      let (b1, max1) = notify-IsValidBut t.cb i t.arg (fw, s) b in
      let w1 = notify invoke t.cb i t.arg (fw, s) in
      let acked = record b1.block { expiry_count = 0 } in
      let b2 = store-IsValidBut i acked w1.0 b1 (record {
        period = b1.expiring.period;
        period_word = b1.expiring.period_word;
        remaining_word = b1.expiring.remaining_word;
      }) in
      let (w3, run, v, max3) = reload_lem i (store i acked w1.0) w1.1 b2 in
      (w3, ap (λ m. m >>= change i reload) (acknowledge_lem i w1.0 w1.1 b1) ∙ run, v, max3 ∙ max1)
  expire_total high_prio i t fw s b = reload_lem i fw s b
  expire_total low_prio i t fw s b = reload_lem i fw s b

  -- One tick of a timer that does not run, that goes on running, or that expires.
  tick_block_total :
      (i : ℕ) (t : Timer Cb) (fw : TimerFw Cb) (s : S)
      → IsValid fw
      → get_elem? fw.timer_cb i ≡ some (some t)
      → EndsValid fw.max_timers (tick_block invoke i t (fw, s))
  unfolding tick_block
  tick_block_total i t fw s v e =
      let h = AllSome-get IsTimer fw.timer_cb i v.timers e in
      elim (Bool-cases (is_running t.state && ltb 0 t.ticks_remaining)) [
        | inl live ↦ elim (Bool-cases (u32_pred t.ticks_remaining == 0)) [
          | inl last ↦
              let u : Timer Cb = record t {
                ticks_remaining = u32_pred t.ticks_remaining;
                expiry_count = u32 (t.expiry_count + 1);
              } in
              let b = store-IsValidBut i u fw (IsValid-IsValidBut i fw v e) (record {
                period = h.period;
                period_word = h.period_word;
                remaining_word = omega arith;
              }) in
              let (w, run, valid, same) = expire_total t.type i u (store i u fw) s b in
              (w, ground (arith, run), valid, same)
          | inr more ↦
              let u : Timer Cb = record t { ticks_remaining = u32_pred t.ticks_remaining } in
              (
                (store i u fw, s),
                ground arith,
                store-IsValid fw i u v e (record {
                  period = h.period;
                  period_word = h.period_word;
                  remaining_word = omega arith;
                  active = ground arith;
                }),
                refl,
              )
        ]
        | inr idle ↦ ((fw, s), ground arith, v, refl)
      ]

  slot_total :
      (i : ℕ) (slot : Option (Timer Cb)) (fw : TimerFw Cb) (s : S)
      → IsValid fw
      → get_elem? fw.timer_cb i ≡ some slot
      → EndsValid fw.max_timers (tick_slot invoke i (fw, s))
  unfolding tick_slot
  slot_total i none fw s v e = ((fw, s), ground arith, v, refl)
  slot_total i (some t) fw s v e =
      let (w, run, valid, same) = tick_block_total i t fw s v e in
      (w, ground (arith, run), valid, same)

  -- A loop over the timers whose rounds end validly.
  for_timers_total :
      (body : ℕ → TimerFw Cb × S → Run (TimerFw Cb × S)) (max : ℕ)
      → ((i : ℕ) (w : TimerFw Cb × S)
          → i < max
          → w.0.max_timers ≡ max
          → IsValid w.0
          → EndsValid max (body i w))
      → (rounds i : ℕ) (w : TimerFw Cb × S) → i + rounds ≡ max
      → w.0.max_timers ≡ max
      → IsValid w.0
      → EndsValid max (for_timers body rounds i w)
  unfolding for_timers
  for_timers_total body max each zero i w e m v = (w, refl, v, m)
  for_timers_total body max each (suc rounds) i w e m v =
      let (w1, run1, v1, m1) = each i w (omega arith) m v in
      let (w2, run2, v2, m2) =
        for_timers_total body max each rounds (i + 1) w1 (omega arith) m1 v1 in
      (w2, ap (λ n. n >>= for_timers body rounds (i + 1)) run1 ∙ run2, v2, m2)

  -- pfTmrCb on a valid framework ends without undefined behaviour in a valid framework, if the
  -- callbacks are well behaved: in particular every running timer has ticks to go.
  pub tick_total : (w : TimerFw Cb × S) → IsValid w.0 → EndsValid w.0.max_timers (tick invoke w)
  unfolding tick
  tick_total w v =
      for_timers_total (tick_slot invoke) w.0.max_timers
        (λ i w' h m v'.
          let (slot, e) = get_elem?-some w'.0.timer_cb i (omega (arith, v'.slots)) in
          let (w2, run, v2, m2) = slot_total i slot w'.0 w'.1 v' e in (w2, run, v2, m2 ∙ m))
        w.0.max_timers 0 w (omega arith) refl v

  -- A callback in the main context, and the mark that its expiry is processed.
  process_block_total :
      (type : TimerType) (i : ℕ) (t : Timer Cb) (fw : TimerFw Cb) (s : S)
      → IsValid fw
      → get_elem? fw.timer_cb i ≡ some (some t)
      → EndsValid fw.max_timers (process_block invoke type i t (fw, s))
  unfolding process_block
  process_block_total type i t fw s v e =
      elim (Bool-cases (ltb 0 t.expiry_count && same_type t.type type)) [
        | inl pending ↦
            let w1 = notify invoke t.cb i t.arg (fw, s) in
            let (v1, max1, kept) = notify-IsValid t.cb i t.arg (fw, s) v e in
            let (u, e1) = kept in
            let h = AllSome-get IsTimer w1.0.timer_cb i v1.timers e1 in
            let acked = record u { expiry_count = 0 } in
            (
              (store i acked w1.0, w1.1),
              ground (
                arith,
                change_lem i (λ (x : Timer Cb). record x { expiry_count = 0 }) w1.0 w1.1 e1,
              ),
              store-IsValid w1.0 i acked v1 e1 (record {
                period = h.period;
                period_word = h.period_word;
                remaining_word = h.remaining_word;
                active = h.active;
              }),
              max1,
            )
        | inr rest ↦ ((fw, s), ground arith, v, refl)
      ]

  process_slot_total :
      (type : TimerType) (i : ℕ) (slot : Option (Timer Cb)) (fw : TimerFw Cb) (s : S)
      → IsValid fw
      → get_elem? fw.timer_cb i ≡ some slot
      → EndsValid fw.max_timers (process_slot invoke type i (fw, s))
  unfolding process_slot
  process_slot_total type i none fw s v e = ((fw, s), ground arith, v, refl)
  process_slot_total type i (some t) fw s v e =
      let (w, run, valid, same) = process_block_total type i t fw s v e in
      (w, ground (arith, run), valid, same)

  process_non_rt_total :
      (type : TimerType) (w : TimerFw Cb × S)
      → IsValid w.0
      → EndsValid w.0.max_timers (process_non_rt invoke type w)
  unfolding process_non_rt
  process_non_rt_total type w v =
      for_timers_total (process_slot invoke type) w.0.max_timers
        (λ i w' h m v'.
          let (slot, e) = get_elem?-some w'.0.timer_cb i (omega (arith, v'.slots)) in
          let (w2, run, v2, m2) = process_slot_total type i slot w'.0 w'.1 v' e in
          (w2, run, v2, m2 ∙ m))
        w.0.max_timers 0 w (omega arith) refl v

  -- timerFwProcess on a valid framework ends without undefined behaviour in a valid framework, if
  -- the callbacks are well behaved.
  pub fw_process_total :
      (w : TimerFw Cb × S) → IsValid w.0 → EndsValid w.0.max_timers (fw_process invoke w)
  unfolding fw_process
  fw_process_total w v =
      let (w1, run1, v1, m1) = process_non_rt_total high_prio w v in
      let (w2, run2, v2, m2) = process_non_rt_total low_prio w1 v1 in
      (w2, ap (λ m. m >>= process_non_rt invoke low_prio) run1 ∙ run2, v2, m2 ∙ m1)
