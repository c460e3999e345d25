-- ===== src/MainProgram/Status/Laws.antt =====
-- What an alert leads to, and what the device reports.
use c_utilities.Common.{
  ℕ, ◌≤◌, ◌≡◌, refl, ap, ◌∙◌, true, Option, none, some, List, [], ◌∷◌, if◌then◌else◌, Bytes,
}
use c_utilities.Common.Int.{ℤ, pos, is_zero}
use c_utilities.Common.Run.{Run, done, ◌>>=◌}
use c_utilities.Platform.{Eeprom}
use c_utilities.PlatformConfig.{CfgElem}
use c_utilities.PlatformConfig.Text.{size, IsToken, IsToken-is_token}
use c_utilities.PlatformConfig.Store.Represents.{insert}
use c_utilities.PlatformConfig.Store.Refines.{lookup-insert}
use c_utilities.Configuration.Laws.{get_configuration_lem}
use c_utilities.JumpStateMachine.{d_s, event_end_mist}
use c_utilities.JumpStateMachine.Spec.{moved}
use c_utilities.TcpControl.Device.{TcpDevice, name_of, set_value}
use c_utilities.TcpControl.Device.Commands.Runnable.{
  IsRunnable, execute_state_machine_lem, set_value_lem, d_s-IsToken, d_s-suits,
}
use c_utilities.MainProgram.{Handler, App, configured}
use c_utilities.MainProgram.Status.{check_device_last_state, evt_handle_alert}

-- "0"
abbrev pub off : Bytes
off = b'0' ∷ []

off-IsToken : IsToken off
off-IsToken = IsToken-is_token off refl

module _ {S : Type 0} (E : Eeprom S) (scaled atoi : Bytes → ℤ) where
  -- evtHandleAlert on a device that can run ends the mist cycle, stores the device state 0, which
  -- checkDeviceLastState then finds, and switches the alert LED on.
  pub evt_handle_alert_lem :
      (a : App S) (es : List CfgElem)
      → IsRunnable scaled a.device es
      → atoi off ≡ pos 0
      → size (insert (name_of d_s) off es) ≤ 500
      → (a1 : App S) × (evt_handle_alert E scaled atoi a ≡ done a1)
        × IsRunnable scaled a1.device (insert (name_of d_s) off es)
        × (a1.device.controller.current_state
            ≡ moved a.device.controller.current_state event_end_mist)
        × (check_device_last_state atoi a1 ≡ done 0)
        × (a1.alert_led ≡ true)
  unfolding evt_handle_alert check_device_last_state configured
  evt_handle_alert_lem a es h zero_is fits =
      let (c, run, h1, to) = execute_state_machine_lem scaled atoi event_end_mist a.device es h in
      let stopped : TcpDevice S Handler = record a.device { controller = c } in
      let (p, set, h2) =
        set_value_lem E scaled (name_of d_s) off stopped es h1 d_s-IsToken off-IsToken fits
          (λ j e. d_s-suits j (scaled off) e) in
      let lit : TcpDevice S Handler → Run (App S) =
        λ d. done (record a { device = d; alert_led = true }) in
      let last : Option Bytes → Run ℕ =
        λ o. elim o [ none ↦ done 0 | some s ↦ done (if is_zero (atoi s) then 0 else 1) ] in
      (
        record a { device = record stopped { store = p }; alert_led = true },
        ap (λ m. m >>= set_value E true (name_of d_s) (some off) >>= lit) run
            ∙ ap (λ m. m >>= lit) set,
        h2,
        to,
        ap (λ m. m >>= last)
              (get_configuration_lem (name_of d_s) _ p h2.kept
                ∙ ap done (lookup-insert (name_of d_s) off es))
            ∙ ap (λ z. done (if is_zero z then 0 else 1)) zero_is,
        refl,
      )
