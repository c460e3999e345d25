-- ===== src/UdpMulticast.antt =====
-- esp32MistingController/udpMulticast.ino: discovery messages and their answers, and the messages of
-- the cloud. The UDP and TCP libraries are parameters: what they answer is an argument, and what is
-- sent is a result.
pub mod Laws
mod Tests
use c_utilities.Common.{
  ℕ, zero, suc, Bool, true, false, ◌||◌, ◌&&◌, Option, none, some, List, [], ◌∷◌, ltb, ◌==◌,
  if◌then◌else◌, length, Bytes,
}
use c_utilities.Common.Run.{Run, done, fault, ◌>>=◌}
use c_utilities.EventFw.{EventFw, generate}
use c_utilities.Platform.{Eeprom}
use c_utilities.Common.Int.{ℤ}
use c_utilities.TcpControl.{Field, store_message_cloud, command_decoder_cloud, re_init_messenger}
use c_utilities.TcpControl.Device.{TcpDevice}
use c_utilities.TcpControl.Device.Commands.{process_command_cloud}

-- BUFFER_LENGTH
abbrev pub buffer_length : ℕ
buffer_length = 256

-- sendIdentityResponse, for whether the app could be reached: what is returned, and what is sent
pub send_identity_response : Bool → Bytes → ℕ × Option Bytes
send_identity_response reached message = if reached then (0, some message) else (1, none)

-- sendIdentityResponse_Cloud, for whether the router is there, the cloud is connected, or can be
pub send_identity_response_cloud : Bool → Bool → Bool → Bytes → ℕ × Option Bytes
send_identity_response_cloud wifi connected reached message =
    if wifi
    then (if connected then (0, some message) else if reached then (0, some message) else (1, none))
    else (0, none)

module _ {Cb : Type 0} where
  -- receiveMulticastMessage, for a packet that is read whole, [] if there is none: the packet and a
  -- '\0' are written to the 256 bytes of a local array.
  pub receive_multicast_message : Bool → Bytes → EventFw Cb → Run (ℕ × EventFw Cb)
  receive_multicast_message got [] fw = done (1, fw)
  receive_multicast_message got (x ∷ packet) fw =
      if ltb (length (x ∷ packet)) buffer_length
      then (generate got 2 (some (x ∷ packet)) (length (x ∷ packet)) fw >>= λ r. done (0, r.1))
      else fault

module _ {S Cb J : Type 0} (E : Eeprom S) (got : Bool) (scaled atoi : Bytes → ℤ)
    (parse : Bytes → Option J) (get : J → Field → Option Bytes) (has_cn_mm : J → Bool) where
  -- A message of the cloud that is ready is decoded, processed and dropped.
  pub handle_cloud_message : TcpDevice S Cb → Run (TcpDevice S Cb)
  handle_cloud_message d =
      command_decoder_cloud parse get d.cloud_command_status d.cloud_messenger >>= λ status.
      process_command_cloud E got scaled atoi parse get has_cn_mm
        (record d { cloud_command_status = status })
      >>= λ d1. done (record d1 { cloud_messenger = re_init_messenger })

  -- handleTcpControlMessages_CLoud, for a byte if one is available
  pub handle_tcp_control_messages_cloud : Option ℕ → TcpDevice S Cb → Run (TcpDevice S Cb)
  unfolding handle_cloud_message
  handle_tcp_control_messages_cloud none d = done d
  handle_tcp_control_messages_cloud (some x) d =
      (if x == 255
        then done d
        else (store_message_cloud x d.cloud_messenger >>= λ r.
            done (record d { cloud_messenger = r.1 })))
      >>= λ d1. if d1.cloud_messenger.ready then handle_cloud_message d1 else done d1
