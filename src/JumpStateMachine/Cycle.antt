-- ===== src/JumpStateMachine/Cycle.antt =====
-- executeStateMachine carries out the mist cycle.
use c_utilities.Common.{
  if◌then◌else◌, sym, ℕ, ◌^◌, ◌<◌, ◌≡◌, ◌≢◌, refl, ap, sym, ◌∙◌, Bool, true, false, Option, none,
  some, arith,
}
use c_utilities.Common.Int.{ℤ, pos, negsuc, to_u32}
use c_utilities.Common.Run.{fault, Run, done, ◌>>=◌}
use c_utilities.TimerFw.{start}
use c_utilities.TimerFw.Invariant.{IsValid}
use c_utilities.TimerFw.Calls.{start_total, update_interval_total}
use c_utilities.JumpStateMachine.{
  d_s, fits_int, JumpState, state_na, Jump, JumpEvent, event_na, Operation, start_bldc_timer_init,
  start_sm_timer_init, start_hv_timer_init, stop_hv_timer_init, stop_sm_timer_init,
  stop_bldc_timer_init, start_mist_off_timer, end_mist, misting_end, jump_sm, jump_to, Hardware,
  Controller, Key, bl_spd, sm_spd, bl_bfn_t, t_on, t_off, bl_aff_t, unless_na, start_timer,
  set_bldc, set_sm, set_hv, hv_start, enter, quot, times, float_to_int, int_of, start_configured,
  bldc_start, sm_start, operate, operate_jump, execute_from, execute,
}
use c_utilities.JumpStateMachine.Spec.{Power, powered, switched, empty, jump, entries, after, moved}

abbrev pub is_on : {A : Type 0} → Option A → Bool
is_on none = false
is_on (some a) = true

abbrev pub power : Hardware → Power
power h = record { bldc_on = is_on h.bldc; sm_on = is_on h.sm; hv_on = is_on h.hv }

-- The timers are valid, and the hardware is as the state says.
pub record IsConsistent (c : Controller) : Type 0 where
  pub timers : IsValid c.timers
  pub hardware : power c.hardware ≡ powered c.current_state

-- A run that leaves the timers valid, the state `s`, and the hardware switched as `p`.
abbrev Ends : JumpState → Power → Run Controller → Type 0
Ends s p m =
    (c : Controller) × (m ≡ done c)
    × IsValid c.timers
    × (c.current_state ≡ s)
    × (power c.hardware ≡ p)

pub to_u32_word : (z : ℤ) → to_u32 z < 2 ^ 32
to_u32_word (pos n) = omega arith
to_u32_word (negsuc n) = omega arith

start_timer_total :
    (id : ℤ) (ms : ℕ) (c : Controller)
    → ms < 2 ^ 32
    → IsValid c.timers
    → Ends c.current_state (power c.hardware) (start_timer id ms c)
unfolding start_timer
start_timer_total id ms c w v =
    let (r, run, v1) = update_interval_total id ms c.timers w v in
    let (q, run1, v2) = start_total id r.1 v1 in
    (
      record c { timers = q.1 },
      ap (λ m. m >>= λ r. start id r.1 >>= λ q. done (record c { timers = q.1 })) run
          ∙ ap (λ m. m >>= λ q. done (record c { timers = q.1 })) run1,
      v2,
      refl,
      refl,
    )

-- The keys whose values are times.
abbrev pub is_time : Key → Bool
is_time bl_spd = false
is_time sm_spd = false
is_time d_s = false
is_time k = true

-- A time whose millionfold is an int.
abbrev pub suits : Key → ℤ → Bool
suits k z = if is_time k then fits_int z else true

-- The configuration has a value for every key, and those of the times can be converted.
abbrev pub IsConfigured : {Str : Type 0} → (Key → Option Str) → (Str → ℤ) → Type 0
IsConfigured {Str} config scaled =
    (k : Key) → (s : Str) × (config k ≡ some s) × (suits k (scaled s) ≡ true)

module _ {Str : Type 0} (config : Key → Option Str) (scaled atoi : Str → ℤ) where
  start_configured_total :
      (k : Key) (id : ℤ) (c : Controller)
      → IsConfigured config scaled
      → is_time k ≡ true
      → IsValid c.timers
      → Ends c.current_state (power c.hardware) (start_configured config scaled atoi k id c)
  unfolding start_configured float_to_int
  start_configured_total k id c f timed v =
      let (s, e, suit) = f k in
      let small : fits_int (scaled s) ≡ true =
        sym (ap (λ b. if b then fits_int (scaled s) else true) timed) ∙ suit in
      let next : Bool → Run Controller = λ b.
        (if b then done (quot (scaled s) 100000) else fault) >>= λ n.
        start_timer id (to_u32 (times n 100)) c in
      let ms = to_u32 (times (quot (scaled s) 100000) 100) in
      let (c1, run, v1, same, hw) =
        start_timer_total id ms c (to_u32_word (times (quot (scaled s) 100000) 100)) v in
      (
        c1,
        ap (λ o. float_to_int config scaled atoi o >>= λ n. start_timer id (to_u32 (times n 100)) c)
              e
            ∙ ap next small
            ∙ run,
        v1,
        same,
        hw,
      )

  pub int_of_total :
      (k : Key)
      → IsConfigured config scaled
      → (n : ℤ) × (int_of config scaled atoi (config k) ≡ done n)
  unfolding int_of
  int_of_total k f = let (s, e, suit) = f k in (atoi s, ap (int_of config scaled atoi) e)

  operate_total :
      (o : Operation) (c : Controller)
      → IsConfigured config scaled
      → IsValid c.timers
      → Ends c.current_state (switched o (power c.hardware)) (operate config scaled atoi o c)
  unfolding operate bldc_start sm_start hv_start set_bldc set_sm set_hv
  operate_total start_bldc_timer_init c f v =
      let (n, e) = int_of_total bl_spd f in
      let c0 = record c { hardware = record c.hardware { bldc = some n } } in
      let (c1, run, v1, same, hw) =
        start_configured_total bl_bfn_t c.start_sm_timer_id c0 f refl v in
      (
        c1,
        ap
              (λ m. m >>= (λ n. done (set_bldc (some n) c)) >>= λ c1.
                start_configured config scaled atoi bl_bfn_t c1.start_sm_timer_id c1)
              e
            ∙ run,
        v1,
        same,
        hw,
      )
  operate_total start_sm_timer_init c f v =
      let (n, e) = int_of_total sm_spd f in
      (
        record c { hardware = record c.hardware { sm = some n } },
        ap (λ m. m >>= λ n. done (set_sm (some n) c)) e,
        v,
        refl,
        refl,
      )
  operate_total start_hv_timer_init c f v =
      start_configured_total t_on c.stop_hv_timer_id
        (record c { hardware = record c.hardware { hv = some 200 } }) f refl v
  operate_total stop_hv_timer_init c f v = (_, refl, v, refl, refl)
  operate_total stop_sm_timer_init c f v =
      start_configured_total bl_aff_t c.stop_bldc_timer_id
        (record c { hardware = record c.hardware { sm = none } }) f refl v
  operate_total stop_bldc_timer_init c f v = (_, refl, v, refl, refl)
  operate_total start_mist_off_timer c f v =
      start_configured_total t_off c.device_stop_timer_id c f refl v
  operate_total end_mist c f v =
      start_timer_total c.mist_stop_delay_timer_id 1000
        (record c { hardware = record { bldc = none; sm = none; hv = none } }) (omega arith) v
  operate_total misting_end c f v = (_, refl, v, refl, refl)

  -- A round of the loop for the entry `j` of the table.
  abbrev round : JumpEvent → Controller → Jump → Run Controller
  round e c j = unless_na j.next_state c (
      operate_jump config scaled atoi j.operation (enter j.next_state e c) >>= λ r.
      execute_from config scaled atoi 1 r.0 r.1)

  execute_lem :
      (e : JumpEvent) (c : Controller)
      → e ≢ event_na
      → execute config scaled atoi e c ≡ round e c (jump_sm c.current_state e)
  unfolding execute execute_from
  execute_lem event_na c n = absurd (n refl)
  execute_lem e c n = refl

  unless_na_lem :
      (s : JumpState) (c : Controller) (rest : Run Controller)
      → s ≢ state_na
      → unless_na s c rest ≡ rest
  unfolding unless_na
  unless_na_lem state_na c rest n = absurd (n refl)
  unless_na_lem s c rest n = refl

  leave :
      (j : Jump) (e : JumpEvent) (c : Controller) → j.next_state ≡ state_na → round e c j ≡ done c
  unfolding unless_na
  leave j e c h =
      ap
        (λ s. unless_na s c (
          operate_jump config scaled atoi j.operation (enter j.next_state e c) >>= λ r.
          execute_from config scaled atoi 1 r.0 r.1))
        h

  execute_empty :
      (e : JumpEvent) (c : Controller)
      → (jump_sm c.current_state e).next_state ≡ state_na
      → execute config scaled atoi e c ≡ done c
  unfolding execute execute_from
  execute_empty event_na c h = refl
  execute_empty e c h = leave (jump_sm c.current_state e) e c h

  -- An operation's end, and the round that follows.
  abbrev again : Controller → JumpEvent × Controller
  again c = (event_na, c)

  abbrev next_round : Run (JumpEvent × Controller) → Run Controller
  next_round m = m >>= λ r. execute_from config scaled atoi 1 r.0 r.1

  pub execute_jump :
      (e : JumpEvent) (c : Controller) (s1 : JumpState) (o : Operation) {c1 : Controller}
      → jump_sm c.current_state e ≡ jump_to s1 o
      → s1 ≢ state_na
      → e ≢ event_na
      → operate config scaled atoi o (enter s1 e c) ≡ done c1
      → execute config scaled atoi e c ≡ done c1
  unfolding execute_from operate_jump
  execute_jump e c s1 o h n m run =
      execute_lem e c m
      ∙ ap (round e c) h
      ∙ unless_na_lem s1 c _ n
      ∙ ap (λ m. next_round (m >>= λ x. done (again x))) run

  after_jump : (s s1 : JumpState) → s1 ≢ state_na → after s s1 ≡ s1
  after_jump s state_na n = absurd (n refl)
  after_jump s s1 n = refl

  -- executeStateMachine on consistent hardware and valid timers, with every key configured and times
  -- whose millionfold is an int, ends
  -- after at most two rounds, without undefined behaviour, in the state that the table says, and
  -- keeps timers valid and hardware consistent: so no event switches the high voltage on, or leaves
  -- it on, but in STATE_HV_INIT.
  pub execute_total :
      (e : JumpEvent) (c : Controller)
      → IsConfigured config scaled
      → IsConsistent c
      → (c1 : Controller) × (execute config scaled atoi e c ≡ done c1)
        × IsConsistent c1
        × (c1.current_state ≡ moved c.current_state e)
  unfolding enter
  execute_total e c f v = elim (entries c.current_state e) [
    | empty h ↦ (c, execute_empty e c h, v, sym (ap (after c.current_state) h))
    | jump s1 o h n m sw ↦
        let (c1, run, v1, same, hw) = operate_total o (enter s1 e c) f v.timers in
        (
          c1,
          execute_jump e c s1 o h n m run,
          record {
            timers = v1;
            hardware = hw ∙ ap (switched o) v.hardware ∙ sw ∙ ap powered (sym same);
          },
          same
              ∙ sym (after_jump c.current_state s1 n)
              ∙ sym (ap (λ j. after c.current_state j.next_state) h),
        )
  ]
