-- ===== src/TimerFw/Tick.antt =====
-- timerFw.cpp: the tick of the platform timer, and the callbacks of the main context.
pub mod Total
pub mod Timing
pub mod Destroyed
use c_utilities.Common.{
  ℕ, zero, suc, ◌+◌, Bool, Option, none, some, ltb, ◌==◌, ◌&&◌, if◌then◌else◌, get_elem?, u32,
  u32_pred,
}
use c_utilities.Common.Run.{Run, done, fault, ◌>>=◌}
use c_utilities.TimerFw.{
  expired, TimerType, realtime, high_prio, low_prio, is_running, type_value, Timer, TimerFw, store,
}

-- `type == t.type`
unfoldable pub same_type : TimerType → TimerType → Bool
same_type a b = type_value a == type_value b

module _ {Cb : Type 0} where
  -- A repetitive timer is reloaded, a single-shot one has expired.
  pub reload : Timer Cb → Timer Cb
  reload t =
      if t.repeat == 1 then record t { ticks_remaining = t.ticks } else record t { state = expired }

module _ {Cb S : Type 0} where
  -- A change of block `i`, which is read anew: the callback may have changed it, or destroyed it.
  unfoldable pub change : ℕ → (Timer Cb → Timer Cb) → TimerFw Cb × S → Run (TimerFw Cb × S)
  change i f (fw, s) = elim (get_elem? fw.timer_cb i) [
    | none ↦ fault
    | some none ↦ fault
    | some (some t) ↦ done (store i (f t) fw, s)
  ]

  -- `for (int i = ...; i < gMaxTimers; i++)` with `rounds` rounds left
  pub for_timers :
      (ℕ → TimerFw Cb × S → Run (TimerFw Cb × S)) → ℕ → ℕ → TimerFw Cb × S → Run (TimerFw Cb × S)
  for_timers body zero i w = done w
  for_timers body (suc rounds) i w = body i w >>= for_timers body rounds (i + 1)

-- The rest of the program, that callbacks read and write, beside the framework.
module _ {Cb S : Type 0} (invoke : Cb → ℕ → ℕ → TimerFw Cb × S → TimerFw Cb × S) where
  -- `if (cb != NULL) cb(i, arg)`
  unfoldable pub notify : Option Cb → ℕ → ℕ → TimerFw Cb × S → TimerFw Cb × S
  notify none i arg w = w
  notify (some c) i arg w = invoke c i arg w

  -- Block `i` has just come to 0 ticks.
  expire : TimerType → ℕ → Timer Cb → TimerFw Cb × S → Run (TimerFw Cb × S)
  unfolding notify
  expire realtime i t w =
      change i (λ u. record u { expiry_count = 0 }) (notify t.cb i t.arg w) >>= change i reload
  expire high_prio i t w = change i reload w
  expire low_prio i t w = change i reload w

  -- One block in pfTmrCb.
  tick_block : ℕ → Timer Cb → TimerFw Cb × S → Run (TimerFw Cb × S)
  tick_block i t (fw, s) =
      if is_running t.state && ltb 0 t.ticks_remaining
      then (let u = record t { ticks_remaining = u32_pred t.ticks_remaining } in
          if u.ticks_remaining == 0
          then (let v = record u { expiry_count = u32 (u.expiry_count + 1) } in
              expire v.type i v (store i v fw, s))
          else done (store i u fw, s))
      else done (fw, s)

  pub tick_slot : ℕ → TimerFw Cb × S → Run (TimerFw Cb × S)
  tick_slot i (fw, s) = elim (get_elem? fw.timer_cb i) [
    | none ↦ fault
    | some none ↦ done (fw, s)
    | some (some t) ↦ tick_block i t (fw, s)
  ]

  -- pfTmrCb
  pub tick : TimerFw Cb × S → Run (TimerFw Cb × S)
  tick w = for_timers tick_slot w.0.max_timers 0 w

  unfoldable pub process_block : TimerType → ℕ → Timer Cb → TimerFw Cb × S → Run (TimerFw Cb × S)
  unfolding notify same_type
  process_block type i t w =
      if ltb 0 t.expiry_count && same_type t.type type
      then change i (λ u. record u { expiry_count = 0 }) (notify t.cb i t.arg w)
      else done w

  unfoldable pub process_slot : TimerType → ℕ → TimerFw Cb × S → Run (TimerFw Cb × S)
  process_slot type i (fw, s) = elim (get_elem? fw.timer_cb i) [
    | none ↦ fault
    | some none ↦ done (fw, s)
    | some (some t) ↦ process_block type i t (fw, s)
  ]

  -- processNonRtTimers
  pub process_non_rt : TimerType → TimerFw Cb × S → Run (TimerFw Cb × S)
  process_non_rt type w = for_timers (process_slot type) w.0.max_timers 0 w

  -- timerFwProcess
  pub fw_process : TimerFw Cb × S → Run (TimerFw Cb × S)
  fw_process w = process_non_rt high_prio w >>= process_non_rt low_prio
