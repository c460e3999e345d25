-- ===== src/TimerFw/Tick/Timing.antt =====
-- When timers expire: without realtime timers a tick advances every block by one step, so a timer
-- that is started expires after exactly its number of ticks.
pub mod Expiry
use mathlib.Core.Option
use c_utilities.Common.{
  ℕ, zero, suc, ◌+◌, ◌-◌, ◌^◌, ◌≤◌, ◌<◌, ◌≡◌, ◌≢◌, refl, ap, ap₂, sym, subst, ◌∙◌, Bool, true,
  false, Option, none, some, List, [], ◌∷◌, ◌++◌, map, arith, length, get_elem?, set, leb, ltb,
  ◌==◌, ◌&&◌, if◌then◌else◌, Bool-cases, u32, u32_pred, ◌⊎◌, inl, inr, get_elem?-set_self, set-set,
  set_same, lt_of_get_elem?, get_elem?_middle, set_middle, append_assoc, append-nil, length-append,
}
use c_utilities.Common.Run.{Run, done, fault, ◌>>=◌}
use c_utilities.TimerFw.{
  TimerState, running, paused, expired, init, TimerType, realtime, high_prio, low_prio, Timer,
  TimerFw, store, is_running,
}
use c_utilities.TimerFw.Slots.{AllSome, AllSome-get}
use c_utilities.TimerFw.Invariant.{IsTimer, IsValid, store-IsValid}
use c_utilities.TimerFw.Tick.{
  notify, change, expire, reload, tick_block, tick_slot, for_timers, tick,
}

abbrev pub is_realtime : TimerType → Bool
is_realtime realtime = true
is_realtime _ = false

module _ {Cb : Type 0} where
  -- A timer whose callback runs in the main context.
  abbrev pub IsDeferred : Timer Cb → Type 0
  IsDeferred t = is_realtime t.type ≡ false

  -- Timers that all belong to the main context.
  abbrev pub AllDeferred : List (Option (Timer Cb)) → Type 0
  AllDeferred xs = AllSome IsDeferred xs

  -- One tick of such a timer.
  pub advance : Timer Cb → Timer Cb
  advance t =
      if is_running t.state && ltb 0 t.ticks_remaining
      then (if t.ticks_remaining == 1
          then (if t.repeat == 1
              then record t { ticks_remaining = t.ticks; expiry_count = u32 (t.expiry_count + 1) }
              else record t {
                ticks_remaining = 0;
                expiry_count = u32 (t.expiry_count + 1);
                state = expired;
              })
          else record t { ticks_remaining = t.ticks_remaining - 1 })
      else t

  pub advance_by : ℕ → Timer Cb → Timer Cb
  advance_by zero t = t
  advance_by (suc n) t = advance_by n (advance t)

  advance-type : (t : Timer Cb) → (advance t).type ≡ t.type
  unfolding advance
  advance-type t = ground arith

rest_all :
    {A : Type 0} (P : A → Type 0) (slot : Option A) (post : List (Option A))
    → AllSome P (slot ∷ post)
    → AllSome P post
rest_all P none post h = h
rest_all P (some a) post h = h.1

module _ {Cb S : Type 0} (invoke : Cb → ℕ → ℕ → TimerFw Cb × S → TimerFw Cb × S) where
  expire_deferred :
      (type : TimerType) (i : ℕ) (t : Timer Cb) (w : TimerFw Cb × S)
      → is_realtime type ≡ false
      → expire invoke type i t w ≡ change i reload w
  unfolding expire
  expire_deferred realtime i t w d = absurd (cc)
  expire_deferred high_prio i t w d = refl
  expire_deferred low_prio i t w d = refl

  -- The block is read back as it was stored.
  reload_stored :
      (i : ℕ) (v : Timer Cb) (fw : TimerFw Cb) (s : S) {t : Timer Cb}
      → get_elem? fw.timer_cb i ≡ some (some t)
      → change i reload (store i v fw, s) ≡ done (store i (reload v) fw, s)
  unfolding change
  reload_stored i v fw s e = ground (
    arith,
    get_elem?-set_self fw.timer_cb i (some v) (lt_of_get_elem? fw.timer_cb i e),
    set-set fw.timer_cb i (some v) (some (reload v)),
  )

  tick_block_deferred :
      (i : ℕ) (t : Timer Cb) (fw : TimerFw Cb) (s : S)
      → IsTimer t
      → IsDeferred t
      → get_elem? fw.timer_cb i ≡ some (some t)
      → tick_block invoke i t (fw, s) ≡ done (store i (advance t) fw, s)
  unfolding tick_block advance reload
  tick_block_deferred i t fw s h d e =
      elim (Bool-cases (is_running t.state && ltb 0 t.ticks_remaining)) [
        | inl live ↦ elim (Bool-cases (t.ticks_remaining == 1)) [
          | inl last ↦
              let v : Timer Cb = record t {
                ticks_remaining = 0;
                expiry_count = u32 (t.expiry_count + 1);
              } in
              let expired_now : tick_block invoke i t (fw, s)
                  ≡ expire invoke t.type i v (store i v fw, s) =
                ground (arith, last) in
              let reloaded : reload v ≡ advance t = ground (arith, last, live) in
              expired_now
              ∙ expire_deferred t.type i v (store i v fw, s) d
              ∙ reload_stored i v fw s e
              ∙ ap (λ u. done (store i u fw, s)) reloaded
          | inr more ↦ ground (arith, h.remaining_word)
        ]
        | inr idle ↦
            ground (arith, ap (λ xs. record fw { timer_cb = xs }) (set_same fw.timer_cb i e))
      ]

  slot_deferred :
      (pre : List (Option (Timer Cb))) (slot : Option (Timer Cb)) (post : List (Option (Timer Cb)))
      (fw : TimerFw Cb) (s : S)
      → fw.timer_cb ≡ pre ++ slot ∷ post
      → AllSome IsTimer (slot ∷ post)
      → AllDeferred (slot ∷ post)
      → tick_slot invoke (length pre) (fw, s)
        ≡ done (record fw { timer_cb = pre ++ Option.map advance slot ∷ post }, s)
  unfolding tick_slot
  slot_deferred pre none post fw s e h d =
      let here = ap (λ xs. get_elem? xs (length pre)) e ∙ get_elem?_middle pre none post in
      let kept : tick_slot invoke (length pre) (fw, s) ≡ done (fw, s) = ground (arith, here) in
      kept ∙ ap (λ xs. done (record fw { timer_cb = xs }, s)) e
  slot_deferred pre (some t) post fw s e h d =
      let here = ap (λ xs. get_elem? xs (length pre)) e ∙ get_elem?_middle pre (some t) post in
      let taken : tick_slot invoke (length pre) (fw, s) ≡ tick_block invoke (length pre) t (fw, s) =
        ground (arith, here) in
      taken
      ∙ tick_block_deferred (length pre) t fw s h.0 d.0 here
      ∙ ap (λ xs. done (record fw { timer_cb = set xs (length pre) (some (advance t)) }, s)) e
      ∙ ap (λ xs. done (record fw { timer_cb = xs }, s))
          (set_middle pre (some t) (some (advance t)) post)

  loop_deferred :
      (pre post : List (Option (Timer Cb))) (fw : TimerFw Cb) (s : S)
      → fw.timer_cb ≡ pre ++ post
      → AllSome IsTimer post
      → AllDeferred post
      → for_timers (tick_slot invoke) (length post) (length pre) (fw, s)
        ≡ done (record fw { timer_cb = pre ++ map (Option.map advance) post }, s)
  unfolding for_timers
  loop_deferred pre [] fw s e h d = ap (λ xs. done (record fw { timer_cb = xs }, s)) e
  loop_deferred pre (slot ∷ post) fw s e h d =
      let next = record fw { timer_cb = pre ++ Option.map advance slot ∷ post } in
      let split : pre ++ Option.map advance slot ∷ post
          ≡ (pre ++ (Option.map advance slot ∷ [])) ++ post =
        sym (append_assoc pre (Option.map advance slot ∷ []) post) in
      let rest =
        loop_deferred (pre ++ (Option.map advance slot ∷ [])) post next s split
          (rest_all IsTimer slot post h) (rest_all IsDeferred slot post d) in
      ap (λ m. m >>= for_timers (tick_slot invoke) (length post) (length pre + 1))
        (slot_deferred pre slot post fw s e h d)
      ∙ ap (λ n. for_timers (tick_slot invoke) (length post) n (next, s))
          (sym (length-append pre (Option.map advance slot ∷ [])))
      ∙ rest
      ∙ ap (λ xs. done (record fw { timer_cb = xs }, s))
          (append_assoc pre (Option.map advance slot ∷ []) (map (Option.map advance) post))

  -- pfTmrCb on a valid framework without realtime timers advances every timer by one step, calls no
  -- callback and changes nothing else.
  pub tick_deferred :
      (fw : TimerFw Cb) (s : S)
      → IsValid fw
      → AllDeferred fw.timer_cb
      → tick invoke (fw, s)
        ≡ done (record fw { timer_cb = map (Option.map advance) fw.timer_cb }, s)
  unfolding tick
  tick_deferred fw s v d =
      ap (λ n. for_timers (tick_slot invoke) n 0 (fw, s)) (sym v.slots)
      ∙ loop_deferred [] fw.timer_cb fw s refl v.timers d
