-- ===== src/MainProgram/SetUp/Resume.antt =====
-- What the state machine does after a restart.
use c_utilities.Common.{
  ℕ, ◌≡◌, refl, ap, sym, ◌∙◌, Bool, true, false, Option, none, some, List, ◌==◌, if◌then◌else◌,
  Bytes, Bool-cases, inl, inr, if_true, if_false,
}
use c_utilities.Common.Int.{ℤ, is_zero}
use c_utilities.Common.Run.{Run, done, ◌>>=◌}
use c_utilities.Platform.{Eeprom}
use c_utilities.BootConfiguration.{motor_config, is_present}
use c_utilities.PlatformConfig.{CfgElem}
use c_utilities.PlatformConfig.Store.Represents.{lookup}
use c_utilities.Configuration.Laws.{get_configuration_lem}
use c_utilities.JumpStateMachine.{
  d_s, JumpState, state_misting_end, state_bldc_init, JumpEvent, event_init_bldc, event_end_mist,
}
use c_utilities.JumpStateMachine.Spec.{moved, moved_first}
use c_utilities.TcpControl.Device.{TcpDevice, name_of}
use c_utilities.TcpControl.Device.Commands.Runnable.{
  IsRunnable, IsRunnable-eeprom, execute_state_machine_lem,
}
use c_utilities.MainProgram.{Handler, App, configured}
use c_utilities.MainProgram.Status.{part_present, check_device_last_state}
use c_utilities.MainProgram.SetUp.{run_machine, resume_machine}

-- The state after a restart, with a motor configuration and with the stored device state.
abbrev pub resumed : ℕ → Bool → JumpState
resumed present off =
    if present == 0 then state_misting_end else if off then state_misting_end else state_bldc_init

first_event : (off : Bool) → JumpEvent
first_event off = if (if off then 0 else 1) == 1 then event_init_bldc else event_end_mist

moved-first_event :
    (off : Bool)
    → moved state_misting_end (first_event off)
      ≡ (if off then state_misting_end else state_bldc_init)
unfolding first_event
moved-first_event true = moved_first.1
moved-first_event false = moved_first.0

module _ {S : Type 0} (E : Eeprom S) (scaled atoi : Bytes → ℤ) where
  -- setup behind initJumpStateMachine, on a device that can run and is in STATE_MISTING_END, starts the
  -- mist cycle if there is a motor configuration and the stored device state, which has to be there, is
  -- not 0; otherwise the machine stays in that state. Either way the device can run, and nothing but the controller and the
  -- state of the EEPROM library changes.
  pub resume_machine_lem :
      (a : App S) (es : List CfgElem) (v : Bytes)
      → IsRunnable scaled a.device es
      → a.device.controller.current_state ≡ state_misting_end
      → lookup (name_of d_s) es ≡ some v
      → (a1 : App S) × (resume_machine E scaled atoi a ≡ done a1)
        × IsRunnable scaled a1.device es
        × (a1.device.controller.current_state
            ≡ resumed (is_present E motor_config a.device.store.eeprom).0 (is_zero (atoi v)))
        × (a1 ≡ record a {
          device = record a.device {
            controller = a1.device.controller;
            store = record a.device.store {
              eeprom = (is_present E motor_config a.device.store.eeprom).1;
            };
          };
        })
  unfolding resume_machine run_machine part_present check_device_last_state configured first_event
  resume_machine_lem a es v h first there =
      let r = part_present E motor_config a in
      let ready : IsRunnable scaled r.1.device es = IsRunnable-eeprom h in
      let stays : Bool = is_zero (atoi v) in
      let event : JumpEvent = first_event stays in
      elim (Bool-cases (r.0 == 0)) [
        | inl absent ↦ (
          r.1,
          if_true {b = r.0 == 0} _ _ absent,
          ready,
          first ∙ sym (if_true {b = r.0 == 0} _ _ absent),
          refl,
        )
        | inr present ↦
            let (c2, run, ready2, to) =
              execute_state_machine_lem scaled atoi event r.1.device es ready in
            let given : TcpDevice S Handler → Run (App S) = λ d. done (record r.1 { device = d }) in
            let by : ℕ → Run (App S) = λ state.
              run_machine E scaled atoi (if state == 1 then event_init_bldc else event_end_mist)
                r.1 in
            let last : Option Bytes → Run ℕ =
              λ o. elim o [ none ↦ done 0 | some s ↦ done (if is_zero (atoi s) then 0 else 1) ] in
            (
              record r.1 { device = record r.1.device { controller = c2 } },
              if_false {b = r.0 == 0} _ _ present
                  ∙ ap (λ m. m >>= last >>= by)
                      (get_configuration_lem (name_of d_s) es r.1.device.store ready.kept
                        ∙ ap done there)
                  ∙ ap (λ m. m >>= given) run,
              ready2,
              to
                  ∙ ap (λ s. moved s event) first
                  ∙ moved-first_event stays
                  ∙ sym (if_false {b = r.0 == 0} _ _ present),
              refl,
            )
      ]
