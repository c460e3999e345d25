-- ===== src/JumpStateMachine/Init.antt =====
-- initJumpStateMachine: the names of the events, the first state, and the timers. The table that it
-- fills is `jump_sm`. The names are only printed: of gEvents, it is kept which entries have one.
use c_utilities.Common.{
  List, [], ◌∷◌, ltb, if◌then◌else◌, length, set, replicate, false, ℕ, ◌*◌, ◌≡◌, refl, ap, ◌∙◌,
  Bool, true, some, arith,
}
use c_utilities.Common.Int.{ℤ}
use c_utilities.Common.Run.{fault, Run, done, ◌>>=◌}
use c_utilities.TimerFw.{low_prio}
use c_utilities.TimerFw.Create.{create}
use c_utilities.TimerFw.Invariant.{IsValid}
use c_utilities.TimerFw.Calls.{create-EndsValid}
use c_utilities.JumpStateMachine.{
  state_misting_end, Controller, Expiry, on_start_sm, on_start_hv, on_stop_hv, on_stop_sm,
  on_stop_bldc, on_device_stop, on_mist_stop_delay,
}
use c_utilities.JumpStateMachine.Spec.{all_off}
use c_utilities.JumpStateMachine.Cycle.{power, IsConsistent}

-- SEND_DEV_MONITOR_TIME
abbrev pub send_dev_monitor_time : ℕ
send_dev_monitor_time = 4

-- The global variable that holds the id of the timer with this callback.
keep_id : Expiry → ℤ → Controller → Controller
keep_id on_start_sm i c = record c { start_sm_timer_id = i }
keep_id on_start_hv i c = record c { start_hv_timer_id = i }
keep_id on_stop_hv i c = record c { stop_hv_timer_id = i }
keep_id on_stop_sm i c = record c { stop_sm_timer_id = i }
keep_id on_stop_bldc i c = record c { stop_bldc_timer_id = i }
keep_id on_device_stop i c = record c { device_stop_timer_id = i }
keep_id on_mist_stop_delay i c = record c { mist_stop_delay_timer_id = i }

-- A timer is created and its id stored; an error is printed. The flag is the allocation.
create_timer : Bool → Expiry → Controller → Run Controller
unfolding keep_id
create_timer got cb c =
    create got low_prio (send_dev_monitor_time * 1000) 0 (some cb) 0 c.timers >>= λ r.
    done (keep_id cb r.0 (record c { timers = r.1 }))

-- EVENT_MAX, the length of gEvents
abbrev event_max : ℕ
event_max = 12

-- The entries of gEvents that are written, in this order: all events but EVENT_OFF_MIST, and EVENT_MAX.
abbrev written_names : List ℕ
written_names = 0 ∷ 1 ∷ 2 ∷ 3 ∷ 4 ∷ 5 ∷ 6 ∷ 7 ∷ 9 ∷ 10 ∷ 11 ∷ 12 ∷ []

-- The writes to gEvents.
write_names : List ℕ → List Bool → Run (List Bool)
write_names [] names = done names
write_names (i ∷ is) names =
    if ltb i (length names) then write_names is (set names i true) else fault

-- The part of initJumpStateMachine behind the names.
pub create_timers : Bool → Controller → Run Controller
unfolding create_timer
create_timers got c =
    create_timer got on_start_sm (record c { current_state = state_misting_end })
    >>= create_timer got on_start_hv
    >>= create_timer got on_stop_hv
    >>= create_timer got on_stop_sm
    >>= create_timer got on_stop_bldc
    >>= create_timer got on_device_stop
    >>= create_timer got on_mist_stop_delay

-- initJumpStateMachine
pub init_jump_state_machine : Bool → Controller → Run Controller
unfolding write_names create_timers
init_jump_state_machine got c =
    write_names written_names (replicate event_max false) >>= λ names. create_timers got c

-- A run that ends consistently, in the first state.
abbrev Consistently : Run Controller → Type 0
Consistently m =
    (c : Controller) × (m ≡ done c) × IsConsistent c × (c.current_state ≡ state_misting_end)

keep_id-IsConsistent :
    (cb : Expiry) (i : ℤ) (c : Controller) → IsConsistent c → IsConsistent (keep_id cb i c)
unfolding keep_id
keep_id-IsConsistent on_start_sm i c k = record { timers = k.timers; hardware = k.hardware }
keep_id-IsConsistent on_start_hv i c k = record { timers = k.timers; hardware = k.hardware }
keep_id-IsConsistent on_stop_hv i c k = record { timers = k.timers; hardware = k.hardware }
keep_id-IsConsistent on_stop_sm i c k = record { timers = k.timers; hardware = k.hardware }
keep_id-IsConsistent on_stop_bldc i c k = record { timers = k.timers; hardware = k.hardware }
keep_id-IsConsistent on_device_stop i c k = record { timers = k.timers; hardware = k.hardware }
keep_id-IsConsistent on_mist_stop_delay i c k = record { timers = k.timers; hardware = k.hardware }

keep_id-current_state :
    (cb : Expiry) (i : ℤ) (c : Controller) → (keep_id cb i c).current_state ≡ c.current_state
unfolding keep_id
keep_id-current_state on_start_sm i c = refl
keep_id-current_state on_start_hv i c = refl
keep_id-current_state on_stop_hv i c = refl
keep_id-current_state on_stop_sm i c = refl
keep_id-current_state on_stop_bldc i c = refl
keep_id-current_state on_device_stop i c = refl
keep_id-current_state on_mist_stop_delay i c = refl

create_timer_total :
    (cb : Expiry) (m : Run Controller) → Consistently m → Consistently (m >>= create_timer true cb)
unfolding create_timer
create_timer_total cb m (c, e, k, at) =
    let (r, run, v) =
      create-EndsValid low_prio (send_dev_monitor_time * 1000) 0 (some cb) 0 c.timers (omega arith)
        k.timers in
    (
      keep_id cb r.0 (record c { timers = r.1 }),
      ap (λ n. n >>= create_timer true cb) e
          ∙ ap (λ n. n >>= λ r. done (keep_id cb r.0 (record c { timers = r.1 }))) run,
      keep_id-IsConsistent cb r.0 (record c { timers = r.1 })
          (record { timers = v; hardware = k.hardware }),
      keep_id-current_state cb r.0 (record c { timers = r.1 }) ∙ at,
    )

-- The write of gEvents[EVENT_MAX] is out of bounds.
pub init_jump_state_machine_overrun :
    (got : Bool) (c : Controller) → init_jump_state_machine got c ≡ fault
unfolding init_jump_state_machine write_names
init_jump_state_machine_overrun got c = refl

-- The rest of initJumpStateMachine, on valid timers and with everything off, given memory for the
-- timers, ends in STATE_MISTING_END, with valid timers and a state that agrees with the hardware.
pub create_timers-IsConsistent :
    (c : Controller)
    → IsValid c.timers
    → power c.hardware ≡ all_off
    → (c1 : Controller) × (create_timers true c ≡ done c1)
      × IsConsistent c1
      × (c1.current_state ≡ state_misting_end)
unfolding create_timers
create_timers-IsConsistent c v h = create_timer_total on_mist_stop_delay _ (
    create_timer_total on_device_stop _ (
      create_timer_total on_stop_bldc _ (
        create_timer_total on_stop_sm _ (
          create_timer_total on_stop_hv _ (
            create_timer_total on_start_hv _ (
              create_timer_total on_start_sm (done (record c { current_state = state_misting_end }))
                (_, refl, record { timers = v; hardware = h }, refl)))))))
