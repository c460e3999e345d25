-- ===== src/TcpControl/Device/Commands.antt =====
-- esp32MistingController/tcpControlServer.ino: the handlers of the commands, and the reading of
-- messages. An eventGenerate call names its event by its number in Events_e.
pub mod Runnable
pub mod State
pub mod Receive
pub mod Tests
use c_utilities.Common.{
  ℕ, zero, suc, Bool, true, false, Option, none, some, ◌==◌, ◌&&◌, ◌||◌, not, if◌then◌else◌, length,
  Bytes, same,
}
use c_utilities.Common.Int.{ℤ, pos, negsuc, is_zero}
use c_utilities.Common.Run.{Run, done, fault, ◌>>=◌}
use c_utilities.Platform.{Eeprom}
use c_utilities.Configuration.{get_configuration}
use c_utilities.BootConfiguration.{device_id, is_present, set_presence}
use c_utilities.JumpStateMachine.{
  Key, bl_bfn_t, t_on, bl_aff_t, t_off, bl_spd, sm_spd, d_s, JumpEvent, event_end_mist,
  event_init_bldc, execute,
}
use c_utilities.TcpControl.{
  Messenger, CommandStatus, na, get_ap_list, ap_connect, ap_disconnect, control, config_update,
  req_wifi_config, dev_state, dev_name_update, check_hv_module, CloudCommandStatus, cloud_na,
  device_register, Field, cmd, cl_st, cl_ml_md, cl_bl_spd, cl_sm_spd, cl_t_on, cl_t_off,
  cl_bl_bfn_t, cl_bl_aff_t, cl_cfrm, cl_dv_nm, cl_d_id, c_string, member, command_decoder,
  store_message, re_init_messenger,
}
use c_utilities.TcpControl.Device.{
  TcpDevice, name_of, device_name_key, device_id_key, ssid_key, password_key, device_state_answer,
  in_ap_mode, credentials, equals, config_of, send, motors_off, motors_on, event_generate,
  set_value, motor_config_present, set_motor_config_presence,
}

-- atoi of a string that may be NULL
pub atoi_of : (Bytes → ℤ) → Option Bytes → Run ℤ
atoi_of atoi none = fault
atoi_of atoi (some s) = done (atoi s)

module _ {S Cb : Type 0} where
  -- The text of the message.
  pub text_of : TcpDevice S Cb → Run Bytes
  text_of d = c_string d.messenger.buffer

module _ {S Cb : Type 0} (scaled atoi : Bytes → ℤ) where
  -- executeStateMachine
  pub execute_state_machine : JumpEvent → TcpDevice S Cb → Run (TcpDevice S Cb)
  execute_state_machine e d = execute (config_of d.store) scaled atoi e d.controller >>= λ c.
      done (record d { controller = c })

  -- The stored device state looked at: 0, something else, or not there.
  pub by_device_state :
      (TcpDevice S Cb → Run (TcpDevice S Cb))
      → (TcpDevice S Cb → Run (TcpDevice S Cb))
      → TcpDevice S Cb
      → Run (TcpDevice S Cb)
  by_device_state off on d = get_configuration (name_of d_s) d.store >>= λ o. elim o [
    | none ↦ done d
    | some s ↦ if is_zero (atoi s) then off d else on d
  ]

  -- Misting stopped and started.
  pub restart : TcpDevice S Cb → Run (TcpDevice S Cb)
  unfolding execute_state_machine
  restart d = execute_state_machine event_end_mist d >>= execute_state_machine event_init_bldc

  -- checkHVmoduleTcp
  pub check_hv_module_tcp : TcpDevice S Cb → Run (TcpDevice S Cb)
  unfolding by_device_state restart
  check_hv_module_tcp d = by_device_state done restart d

  -- The branch of handleConfigUpdateJson for "cnMm"
  pub cancel_manual_mode : TcpDevice S Cb → Run (TcpDevice S Cb)
  unfolding by_device_state restart
  cancel_manual_mode d =
      by_device_state (λ d. execute_state_machine event_end_mist (motors_off d)) restart
        (record d { manual_mode_on = 0 })

module _ {S Cb J : Type 0} (E : Eeprom S) (got : Bool) (scaled atoi : Bytes → ℤ)
    (parse : Bytes → Option J) (get : J → Field → Option Bytes) (has_cn_mm : J → Bool) where
  -- The device state set to on, or refused.
  pub switch_on : Bytes → TcpDevice S Cb → Run (TcpDevice S Cb)
  unfolding execute_state_machine
  switch_on s d =
      let (first, d1) = motor_config_present E d in
      if first == 0 || not (d1.device_alert_bit_field == 0)
      then done (send (device_state_answer (some (0, 400))) d1)
      else let (second, d2) = motor_config_present E d1 in
        if second == 1 && d2.device_alert_bit_field == 0
        then (set_value E got (name_of d_s) (some s) d2
            >>= execute_state_machine scaled atoi event_init_bldc
            >>= λ d3. done (send (device_state_answer (some (1, 200))) d3))
        else done (send (device_state_answer none) d2)

  -- The device state set to off.
  pub switch_off : Bytes → TcpDevice S Cb → Run (TcpDevice S Cb)
  unfolding execute_state_machine
  switch_off s d =
      set_value E got (name_of d_s) (some s) d
      >>= execute_state_machine scaled atoi event_end_mist
      >>= λ d1. done (send (device_state_answer (some (0, 200))) d1)

  -- handleDeviceState
  pub handle_device_state : TcpDevice S Cb → Run (TcpDevice S Cb)
  unfolding switch_on switch_off text_of
  handle_device_state d = text_of d >>= λ text. elim (member parse get text cl_st) [
    | none ↦ fault
    | some s ↦
        if is_zero (atoi s)
        then switch_off s d
        else if equals 1 (atoi s)
        then switch_on s d
        else done (send (device_state_answer none) d)
  ]

  -- The six values of a new configuration stored.
  pub store_values : Bytes → TcpDevice S Cb → Run (TcpDevice S Cb)
  store_values text d =
      set_value E got (name_of bl_spd) (member parse get text cl_bl_spd) d
      >>= set_value E got (name_of sm_spd) (member parse get text cl_sm_spd)
      >>= set_value E got (name_of t_on) (member parse get text cl_t_on)
      >>= set_value E got (name_of t_off) (member parse get text cl_t_off)
      >>= set_value E got (name_of bl_bfn_t) (member parse get text cl_bl_bfn_t)
      >>= set_value E got (name_of bl_aff_t) (member parse get text cl_bl_aff_t)

  -- Cases 1 and 3 of handleConfigUpdateJson: the configuration is saved, in auto or in manual mode.
  pub save_config : ℕ → Bytes → TcpDevice S Cb → Run (TcpDevice S Cb)
  unfolding store_values by_device_state execute_state_machine
  save_config manual text d =
      execute_state_machine scaled atoi event_end_mist (record d { manual_mode_on = manual })
      >>= store_values text
      >>= λ d1.
          by_device_state scaled atoi done (execute_state_machine scaled atoi event_init_bldc)
            (set_motor_config_presence E d1)

  -- Case 2: the motors run with the new values, which are not saved.
  pub try_config : Bytes → TcpDevice S Cb → Run (TcpDevice S Cb)
  unfolding execute_state_machine atoi_of
  try_config text d =
      execute_state_machine scaled atoi event_end_mist (record d { manual_mode_on = 1 }) >>= λ d1.
      atoi_of atoi (member parse get text cl_bl_spd) >>= λ bl.
      atoi_of atoi (member parse get text cl_sm_spd) >>= λ sm. done (motors_on bl sm d1)

  -- The branch of handleConfigUpdateJson for "cl"
  pub new_config : Bytes → TcpDevice S Cb → Run (TcpDevice S Cb)
  unfolding save_config try_config atoi_of
  new_config text d = atoi_of atoi (member parse get text cl_ml_md) >>= λ m.
      let cfrm = atoi_of atoi (member parse get text cl_cfrm) in
      if is_zero m
      then (cfrm >>= λ f. if equals 1 f then save_config 0 text d else done d)
      else if equals 1 m
      then (cfrm >>= λ f.
          if is_zero f
          then try_config text d
          else if equals 1 f
          then save_config 1 text d
          else done d)
      else done d

  -- handleConfigUpdateJson
  pub handle_config_update_json : TcpDevice S Cb → Run (TcpDevice S Cb)
  unfolding new_config cancel_manual_mode text_of
  handle_config_update_json d = text_of d >>= λ text.
      if (elim (parse text) [ none ↦ false | some j ↦ has_cn_mm j ])
      then cancel_manual_mode scaled atoi d
      else new_config text d

  -- changeDeviceName
  pub change_device_name : TcpDevice S Cb → Run (TcpDevice S Cb)
  unfolding text_of
  change_device_name d = text_of d >>= λ text. elim (parse text) [
    | none ↦ done d
    | some j ↦ set_value E got device_name_key (get j cl_dv_nm) d
  ]

  -- responseWifiConfig, for what WiFi.getMode and WiFi.status say
  pub response_wifi_config : ℕ → Bool → TcpDevice S Cb → Run (TcpDevice S Cb)
  response_wifi_config wifi_mode connected d =
      if wifi_mode == 2
      then done (send in_ap_mode d)
      else if wifi_mode == 1 && connected
      then (get_configuration ssid_key d.store >>= λ ssid.
          get_configuration password_key d.store >>= λ password.
          done (send (credentials ssid password) d))
      else done d

  -- eventGenerate with the message
  pub generate_message : ℕ → TcpDevice S Cb → Run (TcpDevice S Cb)
  unfolding text_of
  generate_message event d =
      text_of d >>= λ text. event_generate got event (some d.messenger.buffer) (length text) d

  -- processCommand
  pub process_command : ℕ → Bool → TcpDevice S Cb → Run (TcpDevice S Cb)
  unfolding generate_message handle_config_update_json response_wifi_config handle_device_state
      change_device_name check_hv_module_tcp
  process_command wifi_mode connected d = elim d.command_status [
    | na ↦ done d
    | get_ap_list ↦ event_generate got 5 none 0 d
    | ap_connect ↦ generate_message 6 d >>= event_generate got 14 none 0
    | control ↦ generate_message 7 d
    | config_update ↦ handle_config_update_json d >>= event_generate got 15 none 0
    | ap_disconnect ↦ event_generate got 9 none 0 d
    | req_wifi_config ↦ response_wifi_config wifi_mode connected d
    | dev_state ↦ handle_device_state d
    | dev_name_update ↦ change_device_name d >>= event_generate got 14 none 0
    | check_hv_module ↦ check_hv_module_tcp scaled atoi d
  ]

  -- A message that is ready is decoded, processed and dropped.
  pub handle_message : ℕ → Bool → TcpDevice S Cb → Run (TcpDevice S Cb)
  unfolding process_command
  handle_message wifi_mode connected d = command_decoder parse get d.messenger >>= λ status.
      process_command wifi_mode connected (record d { command_status = status }) >>= λ d1.
      done (record d1 { messenger = re_init_messenger; data_rx_mutex = 1 })

  -- handleTcpControlMessages, for a client that is connected and the byte that it sent, if any: 255
  -- is what `read` gives without one
  pub handle_tcp_control_messages : ℕ → ℕ → Bool → TcpDevice S Cb → Run (TcpDevice S Cb)
  unfolding handle_message
  handle_tcp_control_messages data_byte wifi_mode connected d =
      (if data_byte == 255
        then done d
        else (store_message data_byte d.messenger >>= λ r.
            done (record d { messenger = r.1; data_rx_mutex = 0 })))
      >>= λ d1. if d1.messenger.ready then handle_message wifi_mode connected d1 else done d1

  -- storeDeviceId
  pub store_device_id : TcpDevice S Cb → Run (TcpDevice S Cb)
  store_device_id d = c_string d.cloud_messenger.buffer >>= λ text. elim (parse text) [
    | none ↦ done d
    | some j ↦
        let (present, s) = is_present E device_id d.store.eeprom in
        let d1 = record d { store = record d.store { eeprom = s } } in
        let renew = set_value E got device_id_key (get j cl_d_id) d1 >>= λ d2. done (record d2 {
          store = record d2.store { eeprom = set_presence E device_id d2.store.eeprom };
        }) in
        if present == 0
        then (get_configuration device_id_key d1.store >>= λ old. elim old [
          | none ↦ renew
          | some o ↦ elim (get j cl_d_id) [
            | none ↦ fault
            | some n ↦ if same o n then done d1 else renew
          ]
        ])
        else renew
  ]

  -- processCommand_Cloud
  pub process_command_cloud : TcpDevice S Cb → Run (TcpDevice S Cb)
  unfolding store_device_id
  process_command_cloud d = elim d.cloud_command_status [
    | device_register ↦ store_device_id d
    | cloud_na ↦ done d
  ]
