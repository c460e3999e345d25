-- ===== src/JumpStateMachine/Phases.antt =====
-- The four phases of the mist cycle that end with the expiry of a timer, and the timers that are
-- started for them.
use c_utilities.Common.{
  ℕ, ◌/◌, ◌≤◌, ◌≡◌, refl, ap, sym, subst, ◌∙◌, Bool, true, false, Option, none, some, get_elem?,
  if◌then◌else◌,
}
use c_utilities.Common.Int.{ℤ, pos, to_u32}
use c_utilities.Common.Run.{Run, done, fault, out_of_fuel, ◌>>=◌}
use c_utilities.ErrorTypes.{ErrorType}
use c_utilities.TimerFw.{is_running, is_paused, Timer, TimerFw, store, start}
use c_utilities.TimerFw.Invariant.{IsValid}
use c_utilities.TimerFw.Blocks.{armed, start-update_interval}
use c_utilities.JumpStateMachine.{
  JumpState, state_bldc_init, state_sm_init, state_hv_init, state_hv_end, state_sm_end,
  state_bldc_end, state_mist_off_time, JumpEvent, event_init_sm, event_init_hv, event_end_hv,
  event_end_sm, event_end_bldc, event_com_mist_cycle, event_start_mist_cycle, start_sm_timer_init,
  start_hv_timer_init, stop_hv_timer_init, stop_sm_timer_init, stop_bldc_timer_init,
  start_mist_off_timer, start_bldc_timer_init, Key, bl_bfn_t, t_on, bl_aff_t, t_off, bl_spd, sm_spd,
  Expiry, on_start_sm, on_stop_hv, on_stop_bldc, on_device_stop, Controller, jump_sm, quot, times,
  fits_int, float_to_int, start_timer, start_configured, bldc_start, sm_start, hv_start, set_bldc,
  set_sm, set_hv, enter, operate, execute, execute_both, on_expiry,
}
use c_utilities.JumpStateMachine.Cycle.{
  is_time, IsConfigured, IsConsistent, to_u32_word, int_of_total, execute_jump,
}
use c_utilities.JumpStateMachine.Expiries.{expired, on_expiry_total}

pub data Phase : Type 0 where
  starting misting stopping pausing : Phase

abbrev pub following : Phase → Phase
following starting = misting
following misting = stopping
following stopping = pausing
following pausing = starting

-- The state of the machine in a phase.
abbrev pub state_of : Phase → JumpState
state_of starting = state_bldc_init
state_of misting = state_hv_init
state_of stopping = state_sm_end
state_of pausing = state_mist_off_time

-- The callback that ends a phase.
abbrev pub expiry_of : Phase → Expiry
expiry_of starting = on_start_sm
expiry_of misting = on_stop_hv
expiry_of stopping = on_stop_bldc
expiry_of pausing = on_device_stop

-- The configuration of the length of a phase.
abbrev pub key_of : Phase → Key
key_of starting = bl_bfn_t
key_of misting = t_on
key_of stopping = bl_aff_t
key_of pausing = t_off

-- The variable with the id of the timer of a phase.
abbrev pub id_of : Phase → Controller → ℤ
id_of starting c = c.start_sm_timer_id
id_of misting c = c.stop_hv_timer_id
id_of stopping c = c.stop_bldc_timer_id
id_of pausing c = c.device_stop_timer_id

key_of-is_time : (p : Phase) → is_time (key_of p) ≡ true
key_of-is_time starting = refl
key_of-is_time misting = refl
key_of-is_time stopping = refl
key_of-is_time pausing = refl

module _ {Str : Type 0} (config : Key → Option Str) (scaled atoi : Str → ℤ) where
  -- The milliseconds of a time.
  abbrev pub interval : Str → ℕ
  interval s = to_u32 (times (quot (scaled s) 100000) 100)

  start_configured_lem :
      (p : Phase) (i : ℕ) (t : Timer Expiry) (c : Controller) {id : ℤ}
      (f : IsConfigured config scaled)
      → IsValid c.timers
      → id ≡ pos i
      → get_elem? c.timers.timer_cb i ≡ some (some t)
      → is_running t.state ≡ false
      → is_paused t.state ≡ false
      → c.timers.tick_ms ≤ interval (f (key_of p)).0
      → start_configured config scaled atoi (key_of p) id c
        ≡ done (record c {
          timers = store i (armed i (interval (f (key_of p)).0 / c.timers.tick_ms) t) c.timers;
        })
  unfolding start_configured float_to_int start_timer
  start_configured_lem p i t c f v is_id e r q l =
      let (s, there, suit) = f (key_of p) in
      let small : fits_int (scaled s) ≡ true =
        sym (ap (λ b. if b then fits_int (scaled s) else true) (key_of-is_time p)) ∙ suit in
      let (fw1, updated, started) =
        start-update_interval i (interval s) t c.timers v e r q l
          (to_u32_word (times (quot (scaled s) 100000) 100)) in
      let next : Bool → Run Controller = λ b.
        (if b then done (quot (scaled s) 100000) else fault) >>= λ n.
        start_timer (pos i) (to_u32 (times n 100)) c in
      let stored : ErrorType × TimerFw Expiry → Run Controller =
        λ q. done (record c { timers = q.1 }) in
      ap (λ z. start_configured config scaled atoi (key_of p) z c) is_id
      ∙ ap
          (λ o.
            float_to_int config scaled atoi o >>= λ n. start_timer (pos i) (to_u32 (times n 100)) c)
          there
      ∙ ap next small
      ∙ ap (λ m. m >>= λ r. start (pos i) r.1 >>= stored) updated
      ∙ ap (λ m. m >>= stored) started

  both :
      (e1 e2 : JumpEvent) (c mid : Controller) {c1 : Controller}
      → execute config scaled atoi e1 c ≡ done mid
      → execute config scaled atoi e2 mid ≡ done c1
      → execute_both config scaled atoi e1 e2 c ≡ done c1
  unfolding execute_both
  both e1 e2 c mid run1 run2 = ap (λ m. m >>= execute config scaled atoi e2) run1 ∙ run2

  -- The callback that ends the phase `p`, run on `c`, starts the timer `t` of the next one.
  abbrev Starts : Phase → ℕ → Timer Expiry → ℕ → ℕ → Controller → Type 0
  Starts p manual t i n c =
      (c1 : Controller) × (on_expiry config scaled atoi manual (expiry_of p) c ≡ done c1)
      × (c1.timers ≡ store i (armed i n t) c.timers)
      × ((q : Phase) → id_of q c1 ≡ id_of q c)

  same_ids :
      (c c1 : Controller)
      → c1.start_sm_timer_id ≡ c.start_sm_timer_id
      → c1.stop_hv_timer_id ≡ c.stop_hv_timer_id
      → c1.stop_bldc_timer_id ≡ c.stop_bldc_timer_id
      → c1.device_stop_timer_id ≡ c.device_stop_timer_id
      → (q : Phase) → id_of q c1 ≡ id_of q c
  same_ids c c1 a b d e starting = a
  same_ids c c1 a b d e misting = b
  same_ids c c1 a b d e stopping = d
  same_ids c c1 a b d e pausing = e

  on_expiry-Starts :
      (p : Phase) (manual i : ℕ) (t : Timer Expiry) (c : Controller)
      (f : IsConfigured config scaled)
      → IsValid c.timers
      → c.current_state ≡ state_of p
      → id_of (following p) c ≡ pos i
      → get_elem? c.timers.timer_cb i ≡ some (some t)
      → is_running t.state ≡ false
      → is_paused t.state ≡ false
      → c.timers.tick_ms ≤ interval (f (key_of (following p))).0
      → Starts p manual t i (interval (f (key_of (following p))).0 / c.timers.tick_ms) c
  unfolding on_expiry jump_sm operate enter sm_start bldc_start hv_start set_bldc set_sm set_hv
  on_expiry-Starts starting manual i t c f v at is_id e r q l =
      let (n, number) = int_of_total config scaled atoi sm_spd f in
      let mid = set_sm (some n) (enter state_sm_init event_init_sm c) in
      let last = hv_start (enter state_hv_init event_init_hv mid) in
      (
        _,
        both event_init_sm event_init_hv c mid
            (execute_jump config scaled atoi event_init_sm c state_sm_init start_sm_timer_init
              (ap (λ s. jump_sm s event_init_sm) at) (λ e. cc) (λ e. cc)
              (ap (λ m. m >>= λ n. done (set_sm (some n) (enter state_sm_init event_init_sm c)))
                number))
            (execute_jump config scaled atoi event_init_hv mid state_hv_init start_hv_timer_init
              refl (λ e. cc) (λ e. cc) (start_configured_lem misting i t last f v is_id e r q l)),
        refl,
        same_ids c _ refl refl refl refl,
      )
  on_expiry-Starts misting manual i t c f v at is_id e r q l =
      let mid = set_hv none (enter state_hv_end event_end_hv c) in
      let last = set_sm none (enter state_sm_end event_end_sm mid) in
      (
        _,
        both event_end_hv event_end_sm c mid
            (execute_jump config scaled atoi event_end_hv c state_hv_end stop_hv_timer_init
              (ap (λ s. jump_sm s event_end_hv) at) (λ e. cc) (λ e. cc) refl)
            (execute_jump config scaled atoi event_end_sm mid state_sm_end stop_sm_timer_init refl
              (λ e. cc) (λ e. cc) (start_configured_lem stopping i t last f v is_id e r q l)),
        refl,
        same_ids c _ refl refl refl refl,
      )
  on_expiry-Starts stopping manual i t c f v at is_id e r q l =
      let mid = set_bldc none (enter state_bldc_end event_end_bldc c) in
      let last = enter state_mist_off_time event_com_mist_cycle mid in
      (
        _,
        both event_end_bldc event_com_mist_cycle c mid
            (execute_jump config scaled atoi event_end_bldc c state_bldc_end stop_bldc_timer_init
              (ap (λ s. jump_sm s event_end_bldc) at) (λ e. cc) (λ e. cc) refl)
            (execute_jump config scaled atoi event_com_mist_cycle mid state_mist_off_time
              start_mist_off_timer refl (λ e. cc) (λ e. cc)
              (start_configured_lem pausing i t last f v is_id e r q l)),
        refl,
        same_ids c _ refl refl refl refl,
      )
  on_expiry-Starts pausing manual i t c f v at is_id e r q l =
      let (n, number) = int_of_total config scaled atoi bl_spd f in
      let first = enter state_bldc_init event_start_mist_cycle c in
      let last = set_bldc (some n) first in
      let next : Controller → Run Controller =
        λ x. start_configured config scaled atoi bl_bfn_t x.start_sm_timer_id x in
      (
        _,
        execute_jump config scaled atoi event_start_mist_cycle c state_bldc_init
            start_bldc_timer_init (ap (λ s. jump_sm s event_start_mist_cycle) at) (λ e. cc)
            (λ e. cc)
            (ap (λ m. m >>= (λ n. done (set_bldc (some n) first)) >>= next) number
              ∙ start_configured_lem starting i t last f v is_id e r q l),
        refl,
        same_ids c _ refl refl refl refl,
      )

  reached :
      (p : Phase) (manual : ℕ) (c : Controller)
      → c.current_state ≡ state_of p
      → expired config scaled atoi manual (expiry_of p) c.current_state ≡ state_of (following p)
  unfolding jump_sm
  reached starting manual c at = ap (expired config scaled atoi manual on_start_sm) at
  reached misting manual c at = ap (expired config scaled atoi manual on_stop_hv) at
  reached stopping manual c at = ap (expired config scaled atoi manual on_stop_bldc) at
  reached pausing manual c at = ap (expired config scaled atoi manual on_device_stop) at

  -- The controller of a run that ends.
  result : Controller → Run Controller → Controller
  result c (done c1) = c1
  result c fault = c
  result c out_of_fuel = c

  -- The callback that ends a phase of the mist cycle, on a consistent machine in that phase, with every
  -- key configured and times whose millionfold is an int, leads to the next phase, consistently. If the
  -- timer of the next phase exists under its stored id, neither runs nor is paused, and its configured
  -- time is at least a tick, the callback starts that timer with the ticks of the configured time and
  -- changes no other timer. The four ids are kept.
  pub phase_lem :
      (p : Phase) (manual i : ℕ) (t : Timer Expiry) (c : Controller)
      (f : IsConfigured config scaled)
      → IsConsistent c
      → c.current_state ≡ state_of p
      → id_of (following p) c ≡ pos i
      → get_elem? c.timers.timer_cb i ≡ some (some t)
      → is_running t.state ≡ false
      → is_paused t.state ≡ false
      → c.timers.tick_ms ≤ interval (f (key_of (following p))).0
      → (c1 : Controller) × (on_expiry config scaled atoi manual (expiry_of p) c ≡ done c1)
        × IsConsistent c1
        × (c1.current_state ≡ state_of (following p))
        × (c1.timers
            ≡ store i
                (armed i (interval (f (key_of (following p))).0 / c.timers.tick_ms) t)
                c.timers)
        × ((q : Phase) → id_of q c1 ≡ id_of q c)
  unfolding result
  phase_lem p manual i t c f k at is_id e r q l =
      let (c1, run, timers, ids) = on_expiry-Starts p manual i t c f k.timers at is_id e r q l in
      let (c2, run2, k2, at2) = on_expiry_total config scaled atoi manual (expiry_of p) c f k in
      let same : c2 ≡ c1 = ap (result c) (sym run2 ∙ run) in
      (
        c1,
        run,
        subst IsConsistent same k2,
        ap (λ x. x.current_state) (sym same) ∙ at2 ∙ reached p manual c at,
        timers,
        ids,
      )
