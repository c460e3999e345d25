-- ===== src/TcpControl/Device/Commands/Tests.antt =====
-- A device with every key in its store, and the theorems on commands at it.
use c_utilities.Common.{
  ℕ, ◌-◌, ◌≡◌, inl, refl, Bool, true, false, Option, none, some, List, [], ◌∷◌, ◌++◌, map,
  replicate, length-replicate, Bytes, arith,
}
use c_utilities.Common.Int.{ℤ, pos}
use c_utilities.Common.Run.{done, ◌>>=◌}
use c_utilities.EventFw.{EventFw}
use c_utilities.Platform.Tests.{memory, memory-IsEeprom, erased}
use c_utilities.BootConfiguration.{Part, is_present, motor_config, set_presence, clear_presence}
use c_utilities.BootConfiguration.Flags.{is_present-cleared}
use c_utilities.PlatformConfig.{CfgElem, PlatformConfig}
use c_utilities.PlatformConfig.Text.{IsToken, IsToken-is_token, size}
use c_utilities.PlatformConfig.Store.Represents.{insert, lookup, Represents}
use c_utilities.JumpStateMachine.{
  fits_int, Key, bl_bfn_t, t_on, bl_aff_t, t_off, bl_spd, sm_spd, d_s, Controller, event_end_mist,
}
use c_utilities.JumpStateMachine.Spec.{moved}
use c_utilities.JumpStateMachine.Tests.{pumping, pumping-IsConsistent, resting}
use c_utilities.TcpControl.{
  Messenger, Field, cmd, cl_st, na, cloud_na, dev_state_name, re_init_messenger, c_string, member,
}
use c_utilities.TcpControl.Framing.{IsMessage, IsBounded}
use c_utilities.TcpControl.Device.{TcpDevice, name_of, device_state_answer}
use c_utilities.TcpControl.Device.Commands.{
  handle_device_state, handle_tcp_control_messages, text_of,
}
use c_utilities.JumpStateMachine.Cycle.{suits}
use c_utilities.TcpControl.Device.Commands.Runnable.{IsRunnable}
use c_utilities.TcpControl.Device.Commands.State.{handle_device_state_refused}
use c_utilities.TcpControl.Device.Commands.Receive.{receive_all, handle_tcp_control_messages_stop}

abbrev pub entry : Key → CfgElem
entry k = record { key = name_of k; value = 49 ∷ [] }

abbrev pub entries : List CfgElem
entries = map entry (bl_bfn_t ∷ t_on ∷ bl_aff_t ∷ t_off ∷ bl_spd ∷ sm_spd ∷ d_s ∷ [])

abbrev pub store : (ℕ → ℕ) → PlatformConfig (ℕ → ℕ)
store s = record {
  ep_cfg = some (replicate 500 0);
  curr_ptr = some 0;
  cfg = some (map some entries);
  set_up_init = true;
  config_count = 7;
  config_bytes = size entries;
  eeprom = s;
}

one : IsToken (49 ∷ [])
one = IsToken-is_token (49 ∷ []) refl

zero_text : IsToken (48 ∷ [])
zero_text = IsToken-is_token (48 ∷ []) refl

key-IsToken : (k : Key) → IsToken (name_of k)
key-IsToken bl_bfn_t = IsToken-is_token (name_of bl_bfn_t) refl
key-IsToken t_on = IsToken-is_token (name_of t_on) refl
key-IsToken bl_aff_t = IsToken-is_token (name_of bl_aff_t) refl
key-IsToken t_off = IsToken-is_token (name_of t_off) refl
key-IsToken bl_spd = IsToken-is_token (name_of bl_spd) refl
key-IsToken sm_spd = IsToken-is_token (name_of sm_spd) refl
key-IsToken d_s = IsToken-is_token (name_of d_s) refl

pub there :
    (scaled : Bytes → ℤ)
    → fits_int (scaled (49 ∷ [])) ≡ true
    → (k : Key) → (v : Bytes) × (lookup (name_of k) entries ≡ some v) × (suits k (scaled v) ≡ true)
there scaled h bl_bfn_t = (49 ∷ [], refl, h)
there scaled h t_on = (49 ∷ [], refl, h)
there scaled h bl_aff_t = (49 ∷ [], refl, h)
there scaled h t_off = (49 ∷ [], refl, h)
there scaled h bl_spd = (49 ∷ [], refl, refl)
there scaled h sm_spd = (49 ∷ [], refl, refl)
there scaled h d_s = (49 ∷ [], refl, refl)

pub store-Represents : (s : ℕ → ℕ) → Represents (store s) entries
store-Represents s = record {
  prepared = record {
    held = refl;
    counted = refl;
    tokens = (
      key-IsToken bl_bfn_t,
      one,
      (
        key-IsToken t_on,
        one,
        (
          key-IsToken bl_aff_t,
          one,
          (
            key-IsToken t_off,
            one,
            (key-IsToken bl_spd, one, (key-IsToken sm_spd, one, (key-IsToken d_s, one, tt))),
          ),
        ),
      ),
    );
    buffer = replicate 500 0;
    is_buffer = refl;
    length_buffer = length-replicate {A = ℕ} 500 0;
    ready = refl;
  };
  sized = refl;
  fits = omega arith;
}

abbrev pub fresh : Messenger
fresh = record { buffer = replicate 256 0; write_ptr = 0; ready = false }

fresh-IsBounded : IsBounded fresh
fresh-IsBounded = record { whole = length-replicate {A = ℕ} 256 0; inside = omega arith }

abbrev no_events : EventFw ℕ
no_events = record { event_queue = none; event_info_table = []; max_events = 0; params_live = 0 }

abbrev device : Controller → (ℕ → ℕ) → Messenger → TcpDevice (ℕ → ℕ) ℕ
device c s m = record {
  controller = c;
  store = store s;
  events = no_events;
  messenger = m;
  cloud_messenger = fresh;
  command_status = na;
  cloud_command_status = cloud_na;
  data_rx_mutex = 1;
  manual_mode_on = 0;
  device_alert_bit_field = 0;
  sent = [];
}

-- The second byte of "{0}" is the device state; every text is the command "dSt".
abbrev parse : Bytes → Option Bytes
parse s = some s

abbrev second : Bytes → Bytes
second [] = []
second (x ∷ []) = []
second (x ∷ y ∷ s) = y ∷ []

abbrev get : Bytes → Field → Option Bytes
get s cmd = some dev_state_name
get s cl_st = some (second s)
get s _ = none

abbrev digit : Bytes → ℤ
digit [] = pos 0
digit (x ∷ s) = pos (x - 48)

abbrev no_cancel : Bytes → Bool
no_cancel s = false

abbrev off_text : Bytes
off_text = 123 ∷ 48 ∷ 125 ∷ []

abbrev on_text : Bytes
on_text = 123 ∷ 49 ∷ 125 ∷ []

off_text-IsMessage : IsMessage off_text
off_text-IsMessage = record {
  rest = 48 ∷ 125 ∷ [];
  starts = refl;
  continued = (
    refl,
    λ l p. absurd (omega (arith, p)),
    λ p. absurd (omega (arith, p)),
    (refl, λ l p. absurd (omega (arith, p)), λ p. absurd (omega (arith, p)), tt),
  );
  short = omega arith;
}

handle_tcp_control_messages_stop_example :
    (d1 : TcpDevice (ℕ → ℕ) ℕ) × (receive_all memory digit digit parse get no_cancel 1 true off_text
          (device pumping erased fresh)
        >>= (λ d.
            handle_tcp_control_messages memory true digit digit parse get no_cancel 10 1 true d)
      ≡ done d1)
    × IsRunnable digit d1 (insert (name_of d_s) (48 ∷ []) entries)
    × (d1.controller.current_state ≡ moved pumping.current_state event_end_mist)
    × (d1.sent ≡ device_state_answer (some (0, 200)) ∷ [])
    × (d1.messenger ≡ re_init_messenger)
unfolding member
handle_tcp_control_messages_stop_example =
    handle_tcp_control_messages_stop memory digit digit parse get no_cancel 1 true off_text
      (48 ∷ []) 10 (device pumping erased fresh) entries off_text-IsMessage refl fresh-IsBounded
      (omega arith) refl refl refl refl zero_text (omega arith)
      (record {
        kept = store-Represents erased;
        consistent = pumping-IsConsistent;
        configured = there digit refl;
      })

-- The messenger once a message and its end are stored.
abbrev holding_text : Bytes → Messenger
holding_text s = record { buffer = s ++ replicate 253 0; write_ptr = 0; ready = true }

abbrev cleared_memory : ℕ → ℕ
cleared_memory = clear_presence memory motor_config erased

abbrev configured_memory : ℕ → ℕ
configured_memory = set_presence memory motor_config erased

read_on : (c : Controller) (s : ℕ → ℕ) → text_of (device c s (holding_text on_text)) ≡ done on_text
unfolding text_of c_string
read_on c s = refl

handle_device_state_refused_example :
    (d1 : TcpDevice (ℕ → ℕ) ℕ) × (handle_device_state memory true digit digit parse get no_cancel
        (device resting cleared_memory (holding_text on_text))
      ≡ done d1)
    × (d1.sent ≡ device_state_answer (some (0, 400)) ∷ [])
    × Represents d1.store entries
    × ((p : Part)
        → (is_present memory p d1.store.eeprom).0 ≡ (is_present memory p cleared_memory).0)
    × (d1.controller ≡ resting)
    × (d1.events ≡ (device resting cleared_memory (holding_text on_text)).events)
    × (d1.device_alert_bit_field
        ≡ (device resting cleared_memory (holding_text on_text)).device_alert_bit_field)
unfolding member
handle_device_state_refused_example =
    handle_device_state_refused memory digit digit parse get no_cancel on_text (49 ∷ [])
      (device resting cleared_memory (holding_text on_text)) entries memory-IsEeprom
      (store-Represents cleared_memory) (read_on resting cleared_memory) refl refl
      (inl (is_present-cleared memory memory-IsEeprom motor_config erased).0)
