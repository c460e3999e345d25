-- ===== src/TcpControl/Device/Commands/Receive.antt =====
-- A message from its first byte to its effect.
use c_utilities.Common.{
  ℕ, ◌≤◌, ◌<◌, ◌≡◌, ◌≢◌, refl, ap, sym, ◌∙◌, subst, Bool, true, false, Option, none, some, List, [],
  ◌∷◌, ◌++◌, length-set, set, Bytes, arith, if_true, if_false, ◌==◌, if◌then◌else◌,
}
use c_utilities.Common.Int.{ℤ, pos}
use c_utilities.Common.Run.{Run, done, ◌>>=◌}
use c_utilities.Platform.{Eeprom}
use c_utilities.PlatformConfig.{CfgElem}
use c_utilities.PlatformConfig.Text.{size, IsToken}
use c_utilities.PlatformConfig.Store.Represents.{insert}
use c_utilities.JumpStateMachine.{d_s, event_end_mist}
use c_utilities.JumpStateMachine.Spec.{moved}
use c_utilities.TcpControl.{
  Messenger, Field, cmd, cl_st, member, is_end, store_message, re_init_messenger, c_string,
  command_decoder, status_of, dev_state_name, dev_state, CommandStatus, na,
}
use c_utilities.TcpControl.Framing.{
  IsBounded, store_all, AllPlain, IsContinued-AllPlain, IsMessage, place, placed,
  store_message_plain, message_lem,
}
use c_utilities.TcpControl.Device.{TcpDevice, name_of, device_state_answer}
use c_utilities.TcpControl.Device.Commands.{
  handle_tcp_control_messages, handle_message, text_of, process_command, handle_device_state,
}
use c_utilities.TcpControl.Device.Commands.Runnable.{IsRunnable}
use c_utilities.TcpControl.Device.Commands.State.{handle_device_state_stops}

module _ {J : Type 0} (parse : Bytes → Option J) (get : J → Field → Option Bytes) where
  -- The decoder finds the command "dSt".
  decoded :
      (s : Bytes) (m : Messenger)
      → c_string m.buffer ≡ done s
      → member parse get s cmd ≡ some dev_state_name
      → command_decoder parse get m ≡ done dev_state
  unfolding command_decoder status_of
  decoded s m text is_cmd =
      let by : Option Bytes → Run CommandStatus =
        λ o. done (elim o [ none ↦ na | some c ↦ status_of c ]) in
      ap (λ q. q >>= λ text. by (member parse get text cmd)) text ∙ ap by is_cmd

module _ {S Cb J : Type 0} (E : Eeprom S) (scaled atoi : Bytes → ℤ) (parse : Bytes → Option J)
    (get : J → Field → Option Bytes) (has_cn_mm : J → Bool) (wifi_mode : ℕ) (connected : Bool) where
  abbrev receive : ℕ → TcpDevice S Cb → Run (TcpDevice S Cb)
  receive x d =
      handle_tcp_control_messages E true scaled atoi parse get has_cn_mm x wifi_mode connected d

  -- handleTcpControlMessages for each byte of a message.
  abbrev pub receive_all : Bytes → TcpDevice S Cb → Run (TcpDevice S Cb)
  receive_all [] d = done d
  receive_all (x ∷ s) d = receive x d >>= receive_all s

  abbrev handle : TcpDevice S Cb → Run (TcpDevice S Cb)
  handle d = handle_message E true scaled atoi parse get has_cn_mm wifi_mode connected d

  -- A byte is stored, and the message handled when it is ready.
  receive_stored :
      (x : ℕ) (d : TcpDevice S Cb) (n : ℕ) (m : Messenger)
      → x ≢ 255
      → store_message x d.messenger ≡ done (n, m)
      → let d1 = record d { messenger = m; data_rx_mutex = 0 } in
        receive x d ≡ (if m.ready then handle d1 else done d1)
  unfolding handle_tcp_control_messages
  receive_stored x d n m p h =
      let other : (x == 255) ≡ false = ground (arith, p) in
      let next : TcpDevice S Cb → Run (TcpDevice S Cb) =
        λ d1. if d1.messenger.ready then handle d1 else done d1 in
      let keep : ℕ × Messenger → Run (TcpDevice S Cb) =
        λ r. done (record d { messenger = r.1; data_rx_mutex = 0 }) in
      ap (λ b. (if b then done d else (store_message x d.messenger >>= keep)) >>= next) other
      ∙ ap (λ r. (r >>= keep) >>= next) h

  -- The bytes before the end of a message are only stored.
  receive_all_stored :
      (s : Bytes) (d : TcpDevice S Cb) (m : Messenger)
      → AllPlain s
      → IsBounded d.messenger
      → d.messenger.ready ≡ false
      → store_all s d.messenger ≡ done m
      → (k : ℕ) × (receive_all s d ≡ done (record d { messenger = m; data_rx_mutex = k }))
  receive_all_stored [] d m h b r run =
      let same_messenger : d.messenger ≡ m = cc in
      (d.data_rx_mutex, ap (λ m. done (record d { messenger = m })) same_messenger)
  receive_all_stored (x ∷ s) d m h b r run =
      let m0 = d.messenger in
      let m1 : Messenger = (placed (place x m0) m0 (set m0.buffer (place x m0) x)).1 in
      let step : store_message x m0 ≡ done (1, m1) = store_message_plain x m0 b h.0 in
      let bounded : IsBounded m1 = record {
        whole = length-set m0.buffer (place x m0) x ∙ b.whole;
        inside = omega arith;
      } in
      let d1 : TcpDevice S Cb = record d { messenger = m1; data_rx_mutex = 0 } in
      let (k, rest) =
        receive_all_stored s d1 m h.2 bounded r
          (sym (ap (λ q. q >>= λ q. store_all s q.1) step) ∙ run) in
      (
        k,
        ap (λ q. q >>= receive_all s)
              (receive_stored x d 1 m1 h.1 step ∙ if_false (handle d1) (done d1) r)
            ∙ rest,
      )

  handle_stops :
      (s v : Bytes) (d d1 : TcpDevice S Cb)
      → c_string d.messenger.buffer ≡ done s
      → member parse get s cmd ≡ some dev_state_name
      → handle_device_state E true scaled atoi parse get has_cn_mm
          (record d { command_status = dev_state })
        ≡ done d1
      → handle d ≡ done (record d1 { messenger = re_init_messenger; data_rx_mutex = 1 })
  unfolding handle_message process_command
  handle_stops s v d d1 text is_cmd run =
      let close : TcpDevice S Cb → Run (TcpDevice S Cb) =
        λ d1. done (record d1 { messenger = re_init_messenger; data_rx_mutex = 1 }) in
      ap
        (λ q. q >>= λ status.
          process_command E true scaled atoi parse get has_cn_mm wifi_mode connected
            (record d { command_status = status })
          >>= close)
        (decoded parse get s d.messenger text is_cmd)
      ∙ ap (λ q. q >>= close) run

  -- "dSt" with the state 0, received byte by byte, stops the mist cycle.
  pub handle_tcp_control_messages_stop :
      (s v : Bytes) (x : ℕ) (d : TcpDevice S Cb) (es : List CfgElem)
      → IsMessage s
      → is_end x ≡ true
      → IsBounded d.messenger
      → d.messenger.write_ptr < 5
      → d.messenger.ready ≡ false
      → member parse get s cmd ≡ some dev_state_name
      → member parse get s cl_st ≡ some v
      → atoi v ≡ pos 0
      → IsToken v
      → size (insert (name_of d_s) v es) ≤ 500
      → IsRunnable scaled d es
      → (d1 : TcpDevice S Cb) × (receive_all s d >>= receive x ≡ done d1)
        × IsRunnable scaled d1 (insert (name_of d_s) v es)
        × (d1.controller.current_state ≡ moved d.controller.current_state event_end_mist)
        × (d1.sent ≡ d.sent ++ device_state_answer (some (0, 200)) ∷ [])
        × (d1.messenger ≡ re_init_messenger)
  unfolding text_of
  handle_tcp_control_messages_stop s v x d es msg e b l r is_cmd is_st number t fit h =
      let rest = msg.rest in
      let first : AllPlain (123 ∷ rest) =
        (refl, λ p. absurd (omega (arith, p)), IsContinued-AllPlain 1 rest msg.continued) in
      let plain : AllPlain s = subst AllPlain (sym msg.starts) first in
      let (m1, m2, run, last, text, ready, still) = message_lem s x d.messenger msg e b l in
      let (k, all) = receive_all_stored s d m1 plain b r run in
      let not_255 : x ≢ 255 = λ p. absurd (ground (arith, p, e)) in
      let d2 : TcpDevice S Cb = record d { messenger = m1; data_rx_mutex = k } in
      let d3 : TcpDevice S Cb = record d { messenger = m2; data_rx_mutex = 0 } in
      let d4 : TcpDevice S Cb = record d3 { command_status = dev_state } in
      let h4 : IsRunnable scaled d4 es = record {
        kept = h.kept;
        consistent = h.consistent;
        configured = h.configured;
      } in
      let (d5, stop, h5, to, sent) =
        handle_device_state_stops E scaled atoi parse get has_cn_mm s v d4 es h4 text is_st number t
          fit in
      (
        record d5 { messenger = re_init_messenger; data_rx_mutex = 1 },
        ap (λ q. q >>= receive x) all
            ∙ receive_stored x d2 0 m2 not_255 last
            ∙ if_true (handle d3) (done d3) ready
            ∙ handle_stops s v d3 d5 text is_cmd stop,
        record { kept = h5.kept; consistent = h5.consistent; configured = h5.configured },
        to,
        sent,
        refl,
      )
