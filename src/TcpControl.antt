-- ===== src/TcpControl.antt =====
-- esp32MistingController/tcpControlServer.ino: control messages of the app, collected byte by byte
-- and decoded. The JSON library is a parameter of what decodes.
pub mod Device
pub mod Framing
use c_utilities.Common.{
  ℕ, zero, suc, ◌+◌, ◌-◌, ◌%◌, Bool, true, false, ◌&&◌, ◌||◌, Option, none, some, List, [], ◌∷◌,
  ltb, ◌==◌, if◌then◌else◌, length, set, replicate, Bytes, same,
}
use c_utilities.Common.Run.{Run, done, fault, ◌>>=◌}

-- CONTROL_MESSAGE_BUFF_LEN
abbrev pub buff_len : ℕ
buff_len = 256

-- commandStatus_e, without the bound CMDSTATUS_MAX
pub data CommandStatus : Type 0 where
  na get_ap_list ap_connect ap_disconnect control config_update req_wifi_config : CommandStatus
  dev_state dev_name_update check_hv_module : CommandStatus

-- cloudCommandStatus_e, without its bound
pub data CloudCommandStatus : Type 0 where
  cloud_na device_register : CloudCommandStatus

-- tcpClientControlMessageBuffer, messageWritePtr and messageReady
pub record Messenger : Type 0 where
  pub buffer : Bytes
  pub write_ptr : ℕ
  pub ready : Bool

-- '\n', '\0' and '\r' end a message.
abbrev pub is_end : ℕ → Bool
is_end x = x == 10 || x == 0 || x == 13

-- `buffer[i] = x`
pub store_at : ℕ → ℕ → Bytes → Run Bytes
store_at i x buffer = if ltb i (length buffer) then done (set buffer i x) else fault

-- The test for a full buffer.
pub flush_full : Messenger → Messenger
flush_full m =
    if ltb (buff_len - 1) m.write_ptr
    then record m { write_ptr = 0; buffer = replicate buff_len 0 }
    else m

-- storeMessage: what it returns, and the messenger
pub store_message : ℕ → Messenger → Run (ℕ × Messenger)
unfolding flush_full store_at
store_message data_byte m =
    let m1 = flush_full m in
    if is_end data_byte
    then (store_at m1.write_ptr 0 m1.buffer >>= λ b.
        done (0, record m1 { buffer = b; write_ptr = 0; ready = true }))
    else let i = if data_byte == 123 && ltb m1.write_ptr 5 then 0 else m1.write_ptr in
      store_at i data_byte m1.buffer >>= λ b.
      done (1, record m1 { buffer = b; write_ptr = (i + 1) % 256 })

-- storeMessage_Cloud, which leaves the pointer where a message ends
pub store_message_cloud : ℕ → Messenger → Run (ℕ × Messenger)
unfolding flush_full store_at
store_message_cloud data_byte m =
    let m1 = flush_full m in
    if is_end data_byte
    then (store_at m1.write_ptr 0 m1.buffer >>= λ b.
        done (0, record m1 { buffer = b; ready = true }))
    else (store_at m1.write_ptr data_byte m1.buffer >>= λ b.
        done (1, record m1 { buffer = b; write_ptr = (m1.write_ptr + 1) % 256 }))

-- reInitMessenger and reInitMessenger_Cloud
pub re_init_messenger : Messenger
re_init_messenger = record { buffer = replicate buff_len 0; write_ptr = 0; ready = false }

-- The string in a buffer.
pub c_string : Bytes → Run Bytes
c_string [] = fault
c_string (x ∷ s) = let rest = c_string s in if x == 0 then done [] else (rest >>= λ t. done (x ∷ t))

-- "cnfgUpdt"
abbrev pub config_update_name : Bytes
config_update_name = 99 ∷ 110 ∷ 102 ∷ 103 ∷ 85 ∷ 112 ∷ 100 ∷ 116 ∷ []

-- "apLst"
abbrev pub get_ap_list_name : Bytes
get_ap_list_name = 97 ∷ 112 ∷ 76 ∷ 115 ∷ 116 ∷ []

-- "apCnt"
abbrev pub ap_connect_name : Bytes
ap_connect_name = 97 ∷ 112 ∷ 67 ∷ 110 ∷ 116 ∷ []

-- "apDscnt"
abbrev pub ap_disconnect_name : Bytes
ap_disconnect_name = 97 ∷ 112 ∷ 68 ∷ 115 ∷ 99 ∷ 110 ∷ 116 ∷ []

-- "control"
abbrev pub control_name : Bytes
control_name = 99 ∷ 111 ∷ 110 ∷ 116 ∷ 114 ∷ 111 ∷ 108 ∷ []

-- "rqtWfCnfg"
abbrev pub req_wifi_config_name : Bytes
req_wifi_config_name = 114 ∷ 113 ∷ 116 ∷ 87 ∷ 102 ∷ 67 ∷ 110 ∷ 102 ∷ 103 ∷ []

-- "dSt"
abbrev pub dev_state_name : Bytes
dev_state_name = 100 ∷ 83 ∷ 116 ∷ []

-- "nmChng"
abbrev pub dev_name_update_name : Bytes
dev_name_update_name = 110 ∷ 109 ∷ 67 ∷ 104 ∷ 110 ∷ 103 ∷ []

-- "cHv"
abbrev pub check_hv_module_name : Bytes
check_hv_module_name = 99 ∷ 72 ∷ 118 ∷ []

-- "devRg"
abbrev pub device_register_name : Bytes
device_register_name = 100 ∷ 101 ∷ 118 ∷ 82 ∷ 103 ∷ []

-- The chain of strcmp calls in commandDecoder.
pub status_of : Bytes → CommandStatus
status_of cmd =
    if same cmd config_update_name
    then config_update
    else if same cmd get_ap_list_name
    then get_ap_list
    else if same cmd ap_connect_name
    then ap_connect
    else if same cmd ap_disconnect_name
    then ap_disconnect
    else if same cmd control_name
    then control
    else if same cmd req_wifi_config_name
    then req_wifi_config
    else if same cmd dev_state_name
    then dev_state
    else if same cmd dev_name_update_name
    then dev_name_update
    else if same cmd check_hv_module_name
    then check_hv_module
    else na

-- The members that are read of a command: "cmd", "cmdr", and those of "cl".
pub data Field : Type 0 where
  cmd cmdr cl_st cl_ml_md cl_bl_spd cl_sm_spd cl_t_on cl_t_off cl_bl_bfn_t cl_bl_aff_t : Field
  cl_cfrm cl_dv_nm cl_d_id : Field

-- parseObject and the string members of the object, NULL where there is none
module _ {J : Type 0} (parse : Bytes → Option J) (get : J → Field → Option Bytes) where
  -- A member of the object in a text. An object that could not be parsed has none.
  pub member : Bytes → Field → Option Bytes
  member text f = elim (parse text) [ none ↦ none | some j ↦ get j f ]

  -- commandDecoder: the new gCommandStatus
  pub command_decoder : Messenger → Run CommandStatus
  unfolding member status_of
  command_decoder m = c_string m.buffer >>= λ text.
      done (elim (member text cmd) [ none ↦ na | some s ↦ status_of s ])

  -- commandDecoder_Cloud: the new gCloudCommandStatus, left as it was without the member "cmdr"
  pub command_decoder_cloud : CloudCommandStatus → Messenger → Run CloudCommandStatus
  unfolding member
  command_decoder_cloud old m = c_string m.buffer >>= λ text. done (elim (member text cmdr) [
    | none ↦ old
    | some s ↦ if same s device_register_name then device_register else cloud_na
  ])
