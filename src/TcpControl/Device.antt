-- ===== src/TcpControl/Device.antt =====
-- esp32MistingController/tcpControlServer.ino: what the commands of the app do to the state machine,
-- the configuration, the events and the answers.
-- The JSON library, atof and atoi are parameters; the JSON text of an answer is left out. One flag
-- stands for every allocation. checkHVmoduleHardware does nothing but print.
pub mod Commands
use c_utilities.Common.{
  ℕ, zero, suc, ◌+◌, Bool, true, false, Option, none, some, List, [], ◌∷◌, ◌++◌, ◌==◌, ◌&&◌, ◌||◌,
  not, if◌then◌else◌, length, Bytes, same,
}
use c_utilities.Common.Int.{ℤ, pos, negsuc, is_zero}
use c_utilities.Common.Run.{Run, done, fault, out_of_fuel, ◌>>=◌}
use c_utilities.EventFw.{EventFw, generate}
use c_utilities.Platform.{Eeprom}
use c_utilities.PlatformConfig.{PlatformConfig}
use c_utilities.Configuration.{set_configuration, get_configuration}
use c_utilities.BootConfiguration.{motor_config, device_id, is_present, set_presence}
use c_utilities.JumpStateMachine.{
  Key, bl_bfn_t, t_on, bl_aff_t, t_off, bl_spd, sm_spd, d_s, Controller, JumpEvent, event_end_mist,
  event_init_bldc, execute, set_bldc, set_sm,
}
use c_utilities.TcpControl.{
  Messenger, CommandStatus, CloudCommandStatus, Field, cmd, cl_st, cl_ml_md, cl_bl_spd, cl_sm_spd,
  cl_t_on, cl_t_off, cl_bl_bfn_t, cl_bl_aff_t, cl_cfrm, cl_dv_nm, cl_d_id, c_string, member,
}

-- The names of the keys in the store.
abbrev pub name_of : Key → Bytes
name_of bl_bfn_t = 98 ∷ 108 ∷ 66 ∷ 102 ∷ 110 ∷ 84 ∷ []
name_of t_on = 116 ∷ 79 ∷ 110 ∷ []
name_of bl_aff_t = 98 ∷ 108 ∷ 65 ∷ 102 ∷ 102 ∷ 84 ∷ []
name_of t_off = 116 ∷ 79 ∷ 102 ∷ 102 ∷ []
name_of bl_spd = 98 ∷ 108 ∷ 83 ∷ 112 ∷ 100 ∷ []
name_of sm_spd = 115 ∷ 109 ∷ 83 ∷ 112 ∷ 100 ∷ []
name_of d_s = 100 ∷ 83 ∷ []

-- "dN", "dId", "ssid" and "password"
abbrev pub device_name_key : Bytes
device_name_key = 100 ∷ 78 ∷ []

abbrev pub device_id_key : Bytes
device_id_key = 100 ∷ 73 ∷ 100 ∷ []

abbrev pub ssid_key : Bytes
ssid_key = 115 ∷ 115 ∷ 105 ∷ 100 ∷ []

abbrev pub password_key : Bytes
password_key = 112 ∷ 97 ∷ 115 ∷ 115 ∷ 119 ∷ 111 ∷ 114 ∷ 100 ∷ []

-- What is sent to the app: the answer to "dSt" with its members "st" and "stC", if it has them, and
-- those to "rqtWfCnfg".
pub data Answer : Type 0 where
  device_state_answer : Option (ℕ × ℕ) → Answer
  in_ap_mode : Answer
  credentials : Option Bytes → Option Bytes → Answer

-- The state machine with the store, the events, the variables of this file, gDeviceAlertBitField,
-- and the answers sent.
pub record TcpDevice (S Cb : Type 0) : Type 0 where
  pub controller : Controller
  pub store : PlatformConfig S
  pub events : EventFw Cb
  pub messenger : Messenger
  pub cloud_messenger : Messenger
  pub command_status : CommandStatus
  pub cloud_command_status : CloudCommandStatus
  pub data_rx_mutex : ℕ
  pub manual_mode_on : ℕ
  pub device_alert_bit_field : ℕ
  pub sent : List Answer

-- `n == z`
equals : ℕ → ℤ → Bool
equals n (pos k) = k == n
equals n (negsuc k) = false

-- What a search for a key found. The state machine faults on a key that is missing.
found_value : Run (Option Bytes) → Option Bytes
found_value (done o) = o
found_value fault = none
found_value out_of_fuel = none

-- getConfiguration, as the state machine calls it
pub config_of : {S : Type 0} → PlatformConfig S → Key → Option Bytes
unfolding found_value
config_of c k = found_value (get_configuration (name_of k) c)

module _ {S Cb : Type 0} where
  -- sendTcpResponseMessages
  pub send : Answer → TcpDevice S Cb → TcpDevice S Cb
  send a d = record d { sent = d.sent ++ a ∷ [] }

  -- bldcOff and smOff
  pub motors_off : TcpDevice S Cb → TcpDevice S Cb
  motors_off d = record d { controller = set_sm none (set_bldc none d.controller) }

  -- bldcOn and smOn
  pub motors_on : ℤ → ℤ → TcpDevice S Cb → TcpDevice S Cb
  motors_on bl sm d = record d { controller = set_sm (some sm) (set_bldc (some bl) d.controller) }

  -- eventGenerate, whose error is not looked at
  unfoldable pub event_generate :
      Bool → ℕ → Option Bytes → ℕ → TcpDevice S Cb → Run (TcpDevice S Cb)
  event_generate got event param len d =
      generate got event param len d.events >>= λ r. done (record d { events = r.1 })

module _ {S Cb : Type 0} (E : Eeprom S) where
  -- setConfiguration, whose error is not looked at
  unfoldable pub set_value : Bool → Bytes → Option Bytes → TcpDevice S Cb → Run (TcpDevice S Cb)
  set_value got key value d =
      set_configuration E got key value d.store >>= λ r. done (record d { store = r.1 })

  -- isMotorConfigPresent
  pub motor_config_present : TcpDevice S Cb → ℕ × TcpDevice S Cb
  motor_config_present d =
      let r = is_present E motor_config d.store.eeprom in
      (r.0, record d { store = record d.store { eeprom = r.1 } })

  -- setMotorConfigPresence
  pub set_motor_config_presence : TcpDevice S Cb → TcpDevice S Cb
  set_motor_config_presence d = record d {
    store = record d.store { eeprom = set_presence E motor_config d.store.eeprom };
  }
