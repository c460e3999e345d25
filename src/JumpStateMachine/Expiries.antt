-- ===== src/JumpStateMachine/Expiries.antt =====
-- The callbacks of the timers drive the machine through the mist cycle.
use c_utilities.Common.{
  ℕ, ◌≡◌, ◌≢◌, inl, inr, refl, ap, ◌∙◌, Bool, false, Option, none, some, ◌==◌, ◌&&◌, not,
  if◌then◌else◌, Bool-cases, arith,
}
use c_utilities.Common.Int.{ℤ, is_zero}
use c_utilities.Common.Run.{Run, done, ◌>>=◌}
use c_utilities.JumpStateMachine.{
  JumpState, state_na, state_mist_end, state_misting_end, JumpEvent, event_init_bldc, event_init_sm,
  event_init_hv, event_end_hv, event_end_sm, event_end_bldc, event_start_mist_cycle, event_end_mist,
  event_com_mist_cycle, event_mist_end_delay, Controller, Key, d_s, Expiry, on_start_sm,
  on_start_hv, on_stop_hv, on_stop_sm, on_stop_bldc, on_device_stop, on_mist_stop_delay, jump_sm,
  execute, execute_both, resume_device, on_expiry,
}
use c_utilities.JumpStateMachine.Spec.{powered, all_off, moved}
use c_utilities.JumpStateMachine.Cycle.{power, IsConsistent, IsConfigured, execute_total}

-- A run that ends consistently in the state `s`.
abbrev pub EndsIn : JumpState → Run Controller → Type 0
EndsIn s m = (c : Controller) × (m ≡ done c) × IsConsistent c × (c.current_state ≡ s)

end_mist-moved :
    (s : JumpState) → s ≢ state_na → s ≢ state_misting_end → moved s event_end_mist ≡ state_mist_end
unfolding jump_sm
end_mist-moved state_na n m = absurd (n refl)
end_mist-moved state_misting_end n m = absurd (m refl)
end_mist-moved s n m = refl

module _ {Str : Type 0} (config : Key → Option Str) (scaled atoi : Str → ℤ) where
  -- Whether the misting is started again after a stop.
  abbrev is_resumed : ℕ → Option Str → Bool
  is_resumed manual none = false
  is_resumed manual (some s) = manual == 0 && not (is_zero (atoi s))

  -- The state after the expiry of a timer.
  abbrev pub expired : ℕ → Expiry → JumpState → JumpState
  expired manual on_start_sm s = moved (moved s event_init_sm) event_init_hv
  expired manual on_start_hv s = s
  expired manual on_stop_hv s = moved (moved s event_end_hv) event_end_sm
  expired manual on_stop_sm s = s
  expired manual on_stop_bldc s = moved (moved s event_end_bldc) event_com_mist_cycle
  expired manual on_device_stop s = moved s event_start_mist_cycle
  expired manual on_mist_stop_delay s =
      let stopped = moved s event_mist_end_delay in
      if is_resumed manual (config d_s) then moved stopped event_init_bldc else stopped

  then_execute :
      (e : JumpEvent) (m : Run Controller) {s : JumpState}
      → IsConfigured config scaled
      → EndsIn s m
      → EndsIn (moved s e) (m >>= execute config scaled atoi e)
  then_execute e m f (c, run, k, at) =
      let (c1, run1, k1, at1) = execute_total config scaled atoi e c f k in
      (
        c1,
        ap (λ n. n >>= execute config scaled atoi e) run ∙ run1,
        k1,
        at1 ∙ ap (λ s. moved s e) at,
      )

  execute_both_total :
      (e1 e2 : JumpEvent) (c : Controller)
      → IsConfigured config scaled
      → IsConsistent c
      → EndsIn (moved (moved c.current_state e1) e2) (execute_both config scaled atoi e1 e2 c)
  unfolding execute_both
  execute_both_total e1 e2 c f k =
      then_execute e2 (execute config scaled atoi e1 c) f
        (execute_total config scaled atoi e1 c f k)

  resume_device_total :
      (manual : ℕ) (stored : Option Str) (c : Controller)
      → IsConfigured config scaled
      → IsConsistent c
      → EndsIn
          (if is_resumed manual stored
            then moved c.current_state event_init_bldc
            else c.current_state)
          (if manual == 0 then resume_device config scaled atoi stored c else done c)
  unfolding resume_device
  resume_device_total manual none c f k = (c, ground arith, k, refl)
  resume_device_total manual (some s) c f k = elim (Bool-cases (manual == 0)) [
    | inl automatic ↦ elim (Bool-cases (is_zero (atoi s))) [
      | inl off ↦ (c, ground arith, k, ground arith)
      | inr on ↦
          let (c1, run, k1, at) = execute_total config scaled atoi event_init_bldc c f k in
          (c1, ground (arith, run), k1, at ∙ ground arith)
    ]
    | inr held ↦ (c, ground arith, k, ground arith)
  ]

  -- The callback of each timer, on a consistent machine with every key configured and times
  -- whose millionfold is an int, ends without
  -- undefined behaviour, consistently, in the state that follows.
  pub on_expiry_total :
      (manual : ℕ) (x : Expiry) (c : Controller)
      → IsConfigured config scaled
      → IsConsistent c
      → EndsIn (expired manual x c.current_state) (on_expiry config scaled atoi manual x c)
  unfolding on_expiry
  on_expiry_total manual on_start_sm c f k = execute_both_total event_init_sm event_init_hv c f k
  on_expiry_total manual on_start_hv c f k = (c, refl, k, refl)
  on_expiry_total manual on_stop_hv c f k = execute_both_total event_end_hv event_end_sm c f k
  on_expiry_total manual on_stop_sm c f k = (c, refl, k, refl)
  on_expiry_total manual on_stop_bldc c f k =
      execute_both_total event_end_bldc event_com_mist_cycle c f k
  on_expiry_total manual on_device_stop c f k =
      execute_total config scaled atoi event_start_mist_cycle c f k
  on_expiry_total manual on_mist_stop_delay c f k =
      let (c1, run, k1, at) = execute_total config scaled atoi event_mist_end_delay c f k in
      let (c2, run2, k2, at2) = resume_device_total manual (config d_s) c1 f k1 in
      (
        c2,
        ap
              (λ n. n >>= λ x.
                if manual == 0 then resume_device config scaled atoi (config d_s) x else done x)
              run
            ∙ run2,
        k2,
        at2 ∙ ap (λ s. if is_resumed manual (config d_s) then moved s event_init_bldc else s) at,
      )

  not_resumed : (manual : ℕ) (stored : Option Str) → manual ≢ 0 → is_resumed manual stored ≡ false
  not_resumed manual none m = refl
  not_resumed manual (some s) m = ground (arith, m)

  -- A stop, on a consistent machine with every key configured and times whose millionfold is an int:
  -- EVENT_END_MIST in any state of the mist cycle, and then, in manual mode, the expiry of
  -- the delay timer leave everything off in STATE_MISTING_END.
  pub stop_lem :
      (manual : ℕ) (c : Controller)
      → IsConfigured config scaled
      → IsConsistent c
      → manual ≢ 0
      → c.current_state ≢ state_na
      → c.current_state ≢ state_misting_end
      → (c1 : Controller) × (execute config scaled atoi event_end_mist c
            >>= on_expiry config scaled atoi manual on_mist_stop_delay
          ≡ done c1)
        × (c1.current_state ≡ state_misting_end)
        × (power c1.hardware ≡ all_off)
  unfolding jump_sm
  stop_lem manual c f k m n n1 =
      let (c1, run, k1, at) = execute_total config scaled atoi event_end_mist c f k in
      let (c2, run2, k2, at2) = on_expiry_total manual on_mist_stop_delay c1 f k1 in
      let stopped : c1.current_state ≡ state_mist_end = at ∙ end_mist-moved c.current_state n n1 in
      let ended : c2.current_state ≡ state_misting_end =
        at2
        ∙ ap (expired manual on_mist_stop_delay) stopped
        ∙ ap (λ b. if b then moved state_misting_end event_init_bldc else state_misting_end)
            (not_resumed manual (config d_s) m) in
      (
        c2,
        ap (λ n. n >>= on_expiry config scaled atoi manual on_mist_stop_delay) run ∙ run2,
        ended,
        k2.hardware ∙ ap powered ended,
      )
