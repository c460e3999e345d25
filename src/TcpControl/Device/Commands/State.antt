-- ===== src/TcpControl/Device/Commands/State.antt =====
-- The command "dSt": it stops the mist cycle, or starts it, and keeps the state in the store.
use c_utilities.Common.{
  ◌≤◌, ◌≡◌, ◌≢◌, refl, ap, ◌∙◌, Bool, true, Option, none, some, List, [], ◌∷◌, ◌++◌, Bytes, arith,
  ◌⊎◌, if_true, inl, inr, ◌==◌, ◌||◌, not, if◌then◌else◌,
}
use c_utilities.Common.Int.{ℤ, pos, is_zero}
use c_utilities.Common.Run.{Run, done, fault, ◌>>=◌}
use c_utilities.Platform.{Eeprom, IsEeprom}
use c_utilities.BootConfiguration.{Part, motor_config, is_present}
use c_utilities.BootConfiguration.Flags.{is_present_again}
use c_utilities.PlatformConfig.{CfgElem, PlatformConfig}
use c_utilities.PlatformConfig.Text.{size, IsToken}
use c_utilities.PlatformConfig.Store.Represents.{insert, Represents, Represents-eeprom}
use c_utilities.JumpStateMachine.{d_s, Controller, JumpEvent, event_end_mist}
use c_utilities.JumpStateMachine.Spec.{moved}
use c_utilities.TcpControl.{Field, cl_st, member}
use c_utilities.TcpControl.Device.{
  TcpDevice, name_of, device_state_answer, equals, send, set_value, motor_config_present,
}
use c_utilities.TcpControl.Device.Commands.{
  execute_state_machine, text_of, switch_on, switch_off, handle_device_state,
}
use c_utilities.TcpControl.Device.Commands.Runnable.{
  IsRunnable, execute_state_machine_lem, set_value_lem, d_s-IsToken, d_s-suits,
}

module _ {S Cb J : Type 0} (E : Eeprom S) (scaled atoi : Bytes → ℤ) (parse : Bytes → Option J)
    (get : J → Field → Option Bytes) (has_cn_mm : J → Bool) where
  -- A device state stored, and an event given to the state machine.
  store_and_execute :
      (e : JumpEvent) (s : Bytes) (d : TcpDevice S Cb) (es : List CfgElem)
      → IsRunnable scaled d es
      → IsToken s
      → size (insert (name_of d_s) s es) ≤ 500
      → (c : Controller) × (p : PlatformConfig S) × (set_value E true (name_of d_s) (some s) d
            >>= execute_state_machine scaled atoi e
          ≡ done (record d { controller = c; store = p }))
        × IsRunnable scaled (record d { controller = c; store = p }) (insert (name_of d_s) s es)
        × (c.current_state ≡ moved d.controller.current_state e)
  store_and_execute e s d es h t l =
      let (p, set, h1) =
        set_value_lem E scaled (name_of d_s) s d es h d_s-IsToken t l
          (λ j e. d_s-suits j (scaled s) e) in
      let (c, run, h2, to) =
        execute_state_machine_lem scaled atoi e (record d { store = p }) (insert (name_of d_s) s es)
          h1 in
      (c, p, ap (λ m. m >>= execute_state_machine scaled atoi e) set ∙ run, h2, to)

  -- The handler once the message is decoded.
  dispatched :
      (text s : Bytes) (z : ℤ) (d : TcpDevice S Cb)
      → text_of d ≡ done text
      → member parse get text cl_st ≡ some s
      → atoi s ≡ z
      → handle_device_state E true scaled atoi parse get has_cn_mm d ≡ (
          if is_zero z
          then switch_off E true scaled atoi parse get has_cn_mm s d
          else if equals 1 z
          then switch_on E true scaled atoi parse get has_cn_mm s d
          else done (send (device_state_answer none) d))
  unfolding handle_device_state
  dispatched text s z d read there number =
      let by : ℤ → Bytes → Run (TcpDevice S Cb) = λ z s.
        if is_zero z
        then switch_off E true scaled atoi parse get has_cn_mm s d
        else if equals 1 z
        then switch_on E true scaled atoi parse get has_cn_mm s d
        else done (send (device_state_answer none) d) in
      let next : Option Bytes → Run (TcpDevice S Cb) =
        λ o. elim o [ none ↦ fault | some s ↦ by (atoi s) s ] in
      ap (λ m. m >>= λ text. next (member parse get text cl_st)) read
      ∙ ap next there
      ∙ ap (λ z. by z s) number

  -- The state 0 is stored, stops the mist cycle, and is answered by the code 200.
  pub handle_device_state_stops :
      (text s : Bytes) (d : TcpDevice S Cb) (es : List CfgElem)
      → IsRunnable scaled d es
      → text_of d ≡ done text
      → member parse get text cl_st ≡ some s
      → atoi s ≡ pos 0
      → IsToken s
      → size (insert (name_of d_s) s es) ≤ 500
      → (d1 : TcpDevice S Cb) × (handle_device_state E true scaled atoi parse get has_cn_mm d
          ≡ done d1)
        × IsRunnable scaled d1 (insert (name_of d_s) s es)
        × (d1.controller.current_state ≡ moved d.controller.current_state event_end_mist)
        × (d1.sent ≡ d.sent ++ device_state_answer (some (0, 200)) ∷ [])
  unfolding switch_off send
  handle_device_state_stops text s d es h read there number t l =
      let (c, p, run, h1, to) = store_and_execute event_end_mist s d es h t l in
      (
        send (device_state_answer (some (0, 200))) (record d { controller = c; store = p }),
        dispatched text s (pos 0) d read there number
            ∙ ap (λ m. m >>= λ d1. done (send (device_state_answer (some (0, 200))) d1)) run,
        record { kept = h1.kept; consistent = h1.consistent; configured = h1.configured },
        to,
        refl,
      )

  -- The state 1 is refused, with the code 400, without a motor configuration or with an alert: the
  -- configurations, the flags, the state machine, the events and the alerts stay.
  pub handle_device_state_refused :
      (text s : Bytes) (d : TcpDevice S Cb) (es : List CfgElem)
      → IsEeprom E
      → Represents d.store es
      → text_of d ≡ done text
      → member parse get text cl_st ≡ some s
      → atoi s ≡ pos 1
      → ((is_present E motor_config d.store.eeprom).0 ≡ 0) ⊎ (d.device_alert_bit_field ≢ 0)
      → (d1 : TcpDevice S Cb) × (handle_device_state E true scaled atoi parse get has_cn_mm d
          ≡ done d1)
        × (d1.sent ≡ d.sent ++ device_state_answer (some (0, 400)) ∷ [])
        × Represents d1.store es
        × ((p : Part) → (is_present E p d1.store.eeprom).0 ≡ (is_present E p d.store.eeprom).0)
        × (d1.controller ≡ d.controller)
        × (d1.events ≡ d.events)
        × (d1.device_alert_bit_field ≡ d.device_alert_bit_field)
  unfolding switch_on equals motor_config_present send
  handle_device_state_refused text s d es laws h read there number why =
      let first = (is_present E motor_config d.store.eeprom).0 in
      let alerts = d.device_alert_bit_field in
      let refused : (first == 0 || not (alerts == 0)) ≡ true = elim why [
        | inl absent ↦ ground (arith, absent)
        | inr alert ↦ ground (arith, alert)
      ] in
      (
        send (device_state_answer (some (0, 400))) (motor_config_present E d).1,
        dispatched text s (pos 1) d read there number ∙ if_true _ _ refused,
        refl,
        Represents-eeprom h,
        λ p. is_present_again E laws p motor_config d.store.eeprom,
        refl,
        refl,
        refl,
      )
