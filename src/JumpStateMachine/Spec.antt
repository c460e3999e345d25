-- ===== src/JumpStateMachine/Spec.antt =====
-- The mist cycle: what is on in each state, and which event leads where.
use c_utilities.Common.{◌≡◌, ◌≢◌, refl, Bool, true, false}
use c_utilities.JumpStateMachine.{
  JumpState, state_na, state_mist_end, state_bldc_init, state_sm_init, state_hv_init, state_hv_end,
  state_sm_end, state_bldc_end, state_mist_off_time, state_misting_end, JumpEvent, event_na,
  event_init_bldc, event_init_sm, event_init_hv, event_end_hv, event_end_sm, event_end_bldc,
  event_start_mist_cycle, event_end_mist, event_com_mist_cycle, event_mist_end_delay, Operation,
  start_bldc_timer_init, start_sm_timer_init, start_hv_timer_init, stop_hv_timer_init,
  stop_sm_timer_init, stop_bldc_timer_init, start_mist_off_timer, end_mist, misting_end, jump_sm,
  jump_to,
}

-- Whether BLDC motor, stepper motor and high-voltage module are on.
pub record Power : Type 0 where
  pub bldc_on : Bool
  pub sm_on : Bool
  pub hv_on : Bool

abbrev pub all_off : Power
all_off = record { bldc_on = false; sm_on = false; hv_on = false }

-- The high voltage is on only while both motors are, the stepper only while the BLDC motor is.
abbrev pub powered : JumpState → Power
powered state_bldc_init = record all_off { bldc_on = true }
powered state_sm_init = record all_off { bldc_on = true; sm_on = true }
powered state_hv_init = record { bldc_on = true; sm_on = true; hv_on = true }
powered state_hv_end = record all_off { bldc_on = true; sm_on = true }
powered state_sm_end = record all_off { bldc_on = true }
powered _ = all_off

-- What an operation switches.
abbrev pub switched : Operation → Power → Power
switched start_bldc_timer_init p = record p { bldc_on = true }
switched start_sm_timer_init p = record p { sm_on = true }
switched start_hv_timer_init p = record p { hv_on = true }
switched stop_hv_timer_init p = record p { hv_on = false }
switched stop_sm_timer_init p = record p { sm_on = false }
switched stop_bldc_timer_init p = record p { bldc_on = false }
switched start_mist_off_timer p = p
switched end_mist p = all_off
switched misting_end p = p

-- An entry of the table: it is empty, or its operation switches what the change of state wants.
pub data Entry (s : JumpState) (e : JumpEvent) : Type 0 where
  empty : (jump_sm s e).next_state ≡ state_na → Entry s e
  jump :
      (s1 : JumpState) (o : Operation)
      → jump_sm s e ≡ jump_to s1 o
      → s1 ≢ state_na
      → e ≢ event_na
      → switched o (powered s) ≡ powered s1
      → Entry s e

pub entries : (s : JumpState) (e : JumpEvent) → Entry s e
unfolding jump_sm
entries state_misting_end event_init_bldc =
    jump state_bldc_init start_bldc_timer_init refl (λ p. cc) (λ p. cc) refl
entries state_mist_end event_mist_end_delay =
    jump state_misting_end misting_end refl (λ p. cc) (λ p. cc) refl
entries state_bldc_init event_init_sm =
    jump state_sm_init start_sm_timer_init refl (λ p. cc) (λ p. cc) refl
entries state_bldc_init event_end_mist = jump state_mist_end end_mist refl (λ p. cc) (λ p. cc) refl
entries state_sm_init event_init_hv =
    jump state_hv_init start_hv_timer_init refl (λ p. cc) (λ p. cc) refl
entries state_sm_init event_end_mist = jump state_mist_end end_mist refl (λ p. cc) (λ p. cc) refl
entries state_hv_init event_end_hv =
    jump state_hv_end stop_hv_timer_init refl (λ p. cc) (λ p. cc) refl
entries state_hv_init event_end_mist = jump state_mist_end end_mist refl (λ p. cc) (λ p. cc) refl
entries state_hv_end event_end_sm =
    jump state_sm_end stop_sm_timer_init refl (λ p. cc) (λ p. cc) refl
entries state_hv_end event_end_mist = jump state_mist_end end_mist refl (λ p. cc) (λ p. cc) refl
entries state_sm_end event_end_bldc =
    jump state_bldc_end stop_bldc_timer_init refl (λ p. cc) (λ p. cc) refl
entries state_sm_end event_end_mist = jump state_mist_end end_mist refl (λ p. cc) (λ p. cc) refl
entries state_bldc_end event_com_mist_cycle =
    jump state_mist_off_time start_mist_off_timer refl (λ p. cc) (λ p. cc) refl
entries state_bldc_end event_end_mist = jump state_mist_end end_mist refl (λ p. cc) (λ p. cc) refl
entries state_mist_off_time event_start_mist_cycle =
    jump state_bldc_init start_bldc_timer_init refl (λ p. cc) (λ p. cc) refl
entries state_mist_off_time event_end_mist =
    jump state_mist_end end_mist refl (λ p. cc) (λ p. cc) refl
entries state_mist_end event_end_mist = jump state_mist_end end_mist refl (λ p. cc) (λ p. cc) refl
entries s e = empty refl

-- The state after an event.
abbrev pub after : JumpState → JumpState → JumpState
after s state_na = s
after s s1 = s1

abbrev pub moved : JumpState → JumpEvent → JumpState
moved s e = after s (jump_sm s e).next_state

-- What the first state makes of the two events that the program starts with.
pub moved_first :
    (moved state_misting_end event_init_bldc ≡ state_bldc_init)
    × (moved state_misting_end event_end_mist ≡ state_misting_end)
unfolding jump_sm
moved_first = (refl, refl)
