-- ===== src/MainProgram/Network/Laws.antt =====
-- What joining and leaving a network does to the store, the flags and the events.
use c_utilities.Common.{
  ℕ, ◌+◌, ◌≤◌, ◌<◌, ◌≡◌, refl, ap, subst, ◌∙◌, true, false, none, some, List, [], ◌∷◌, ◌++◌, ◌==◌,
  length, length-append, get_elem?, inl, Bytes, arith, if_false,
}
use c_utilities.Common.Int.{ℤ}
use c_utilities.Common.Run.{Run, done, ◌>>=◌}
use c_utilities.ErrorTypes.{ErrorType}
use c_utilities.StaticQueue.Fifo.{Reply, Fifo, offer}
use c_utilities.EventFw.{Event, EventFw}
use c_utilities.EventFw.Invariant.{Inv}
use c_utilities.EventFw.Generate.{generate_kept}
use c_utilities.Platform.{Eeprom}
use c_utilities.PlatformConfig.{CfgElem, PlatformConfig}
use c_utilities.PlatformConfig.Text.{size, IsToken, IsToken-is_token}
use c_utilities.PlatformConfig.Store.Steps.{Written}
use c_utilities.PlatformConfig.Store.Represents.{insert, Represents}
use c_utilities.Configuration.Laws.{set_configuration_fits}
use c_utilities.TcpControl.Device.{TcpDevice, event_generate, ssid_key, password_key, set_value}
use c_utilities.MainProgram.{AppEvent, evt_init_udp, evt_init_tcp, number, Handler, App, raise}
use c_utilities.MainProgram.Registered.{handler_of, IsRegistered}
use c_utilities.MainProgram.Network.{start_servers, store_value}

pub ssid_key-IsToken : IsToken ssid_key
ssid_key-IsToken = IsToken-is_token ssid_key refl

pub password_key-IsToken : IsToken password_key
password_key-IsToken = IsToken-is_token password_key refl

-- The event without parameter, as it is queued.
abbrev pub queued : AppEvent → Event
queued e = record { event_id = number e; param_len = 0; param = none }

-- Every event has its handler, and `f` is the queue.
pub record IsReady (held : ℕ) (fw : EventFw Handler) (f : Fifo Event) : Type 0 where
  pub inv : Inv held fw f
  pub registered : IsRegistered fw

abbrev pub with_event : Fifo Event → AppEvent → Fifo Event
with_event f e = record f { items = f.items ++ queued e ∷ [] }

module _ {S : Type 0} where
  abbrev pub with_store : App S → PlatformConfig S → App S
  with_store a c = record a { device = record a.device { store = c } }

  abbrev pub with_events : App S → EventFw Handler → App S
  with_events a fw = record a { device = record a.device { events = fw } }

  -- eventGenerate with room in the queue.
  pub raise_lem :
      {held : ℕ} (e : AppEvent) (a : App S) (f : Fifo Event)
      → IsReady held a.device.events f
      → length f.items < f.limit
      → (fw : EventFw Handler) × (raise e a ≡ done (with_events a fw))
        × IsReady held fw (with_event f e)
  unfolding raise event_generate
  raise_lem {held} e a f h room =
      let (fw, run, w, table) =
        generate_kept true a.device.events f (number e) none 0 (handler_of e) h.inv (h.registered e)
          refl (inl refl) in
      let given : ErrorType × EventFw Handler → Run (TcpDevice S Handler) =
        λ r. done (record a.device { events = r.1 }) in
      let full : (length f.items == f.limit) ≡ false = ground (arith, room) in
      let second : Reply Event × Fifo Event → Fifo Event = λ r. r.1 in
      let offered : (offer f (queued e)).1 ≡ with_event f e =
        ap second (if_false {b = length f.items == f.limit} _ _ full) in
      (
        fw,
        ap (λ m. m >>= given >>= λ d. done (record a { device = d })) run,
        record {
          inv = subst (Inv held fw) offered w;
          registered = λ e. ap (λ t. get_elem? t (number e)) table ∙ h.registered e;
        },
      )

  -- Both servers are started, with room for two events.
  pub start_servers_lem :
      {held : ℕ} (a : App S) (f : Fifo Event)
      → IsReady held a.device.events f
      → length f.items + 1 < f.limit
      → (fw : EventFw Handler) × (start_servers a ≡ done (with_events a fw))
        × IsReady held fw (with_event (with_event f evt_init_udp) evt_init_tcp)
  unfolding start_servers
  start_servers_lem a f h room =
      let (fw1, run1, h1) = raise_lem evt_init_udp a f h (omega arith) in
      let more = length-append f.items (queued evt_init_udp ∷ []) in
      let (fw2, run2, h2) =
        raise_lem evt_init_tcp (with_events a fw1) (with_event f evt_init_udp) h1
          (omega (arith, more)) in
      (fw2, ap (λ m. m >>= raise evt_init_tcp) run1 ∙ run2, h2)

module _ {S : Type 0} (E : Eeprom S) where
  -- setConfiguration of a value that fits.
  pub store_value_lem :
      (k v : Bytes) (a : App S) (es : List CfgElem)
      → Represents a.device.store es
      → IsToken k
      → IsToken v
      → size (insert k v es) ≤ 500
      → (c : PlatformConfig S) × (store_value E k (some v) a ≡ done (with_store a c))
        × Represents c (insert k v es)
        × Written E (insert k v es) c.eeprom
  unfolding store_value set_value
  store_value_lem k v a es h hk hv l =
      let (c, run, r, w) = set_configuration_fits E k v es a.device.store h hk hv l in
      let given : ℤ × PlatformConfig S → Run (TcpDevice S Handler) =
        λ r. done (record a.device { store = r.1 }) in
      (c, ap (λ m. m >>= given >>= λ d. done (record a { device = d })) run, r, w)
