-- ===== src/TimerFw/Tick/Destroyed.antt =====
-- A callback of the main context that destroys the timer it is called for.
use c_utilities.Common.{
  ℕ, ◌<◌, ◌≡◌, refl, ap, sym, ◌∙◌, true, false, none, some, arith, get_elem?, set,
  get_elem?-set_self, lt_of_get_elem?, u8_pred,
}
use c_utilities.Common.Int.{pos}
use c_utilities.Common.Run.{Run, done, fault}
use c_utilities.ErrorTypes.{e_success}
use c_utilities.TimerFw.{
  TimerType, realtime, high_prio, low_prio, Timer, TimerFw, is_running, is_paused, destroy,
}
use c_utilities.TimerFw.Invariant.{IsValid}
use c_utilities.TimerFw.Blocks.{destroy_lem}
use c_utilities.TimerFw.Tick.{notify, change, same_type, process_block, process_slot}

same_type_refl : (x : TimerType) → same_type x x ≡ true
unfolding same_type
same_type_refl realtime = refl
same_type_refl high_prio = refl
same_type_refl low_prio = refl

abbrev result : {A : Type 0} → A → Run A → A
result a (done x) = x
result a _ = a

module _ {Cb S : Type 0} (invoke : Cb → ℕ → ℕ → TimerFw Cb × S → TimerFw Cb × S) where
  -- processNonRtTimers dereferences NULL at an expired timer whose callback destroys it with
  -- timerDestroy, as it may when the timer neither runs nor is paused.
  pub destroyed_in_callback :
      (i : ℕ) (c : Cb) (t : Timer Cb) (fw : TimerFw Cb) (s : S)
      → IsValid fw
      → get_elem? fw.timer_cb i ≡ some (some t)
      → is_running t.state ≡ false
      → is_paused t.state ≡ false
      → 0 < t.expiry_count
      → t.cb ≡ some c
      → destroy (pos i) fw ≡ done (e_success, (invoke c i t.arg (fw, s)).0)
      → process_slot invoke t.type i (fw, s) ≡ fault
  unfolding process_slot process_block notify change
  destroyed_in_callback i c t fw s v e r p x h d =
      let after : (e_success, (invoke c i t.arg (fw, s)).0) ≡ (
        e_success,
        record fw { timer_cb = set fw.timer_cb i none; timer_count = u8_pred fw.timer_count },
      ) =
        ap (result (e_success, fw)) (sym d ∙ destroy_lem i t fw v e r p) in
      let gone : get_elem? (invoke c i t.arg (fw, s)).0.timer_cb i ≡ some none =
        ap (λ y. get_elem? y.1.timer_cb i) after
        ∙ get_elem?-set_self fw.timer_cb i none (lt_of_get_elem? fw.timer_cb i e) in
      ground (arith, e, h, gone, same_type_refl t.type)
