-- ===== src/MainProgram/Registered.antt =====
-- registerEventHandlers gives every event its handler.
use c_utilities.Common.{
  ℕ, ◌≡◌, ap, refl, ◌∙◌, Bool, true, false, ◌&&◌, Option, none, some, List, [], ◌∷◌, set, get_elem?,
  replicate, arith,
}
use c_utilities.Common.Run.{done, ◌>>=◌}
use c_utilities.StaticQueue.Fifo.{Fifo}
use c_utilities.EventFw.{Event, EventFw}
use c_utilities.EventFw.Invariant.{Inv, add_handler_free}
use c_utilities.MainProgram.{
  AppEvent, evt_init_udp, evt_init_tcp, evt_par_udp_msg, evt_send_tcp_dev_pres,
  evt_send_tcp_dev_config, evt_get_ap_list, evt_ap_connect, evt_control, evt_config_update,
  evt_ap_disconnect, evt_wifi_status, evt_send_device_status, evt_device_monitor_status,
  evt_flush_buffer, evt_device_registration, evt_dev_config_cloud_update, evt_dev_handle_alert,
  number, Handler, init_udp, init_tcp_server, parse_udp_message, send_tcp_device_name_presence,
  send_tcp_device_config, handle_get_ap_list, handle_ap_connect, handle_ap_disconnect,
  handle_control, handle_config_update, handle_wifi_status, send_device_status,
  device_monitor_status, flush_buffer, device_registration_to_cloud,
  send_device_config_update_to_cloud, handle_alert, registrations, add_handlers,
  register_event_handlers,
}

-- The handler that an event is meant for.
abbrev pub handler_of : AppEvent → Handler
handler_of evt_init_udp = init_udp
handler_of evt_init_tcp = init_tcp_server
handler_of evt_par_udp_msg = parse_udp_message
handler_of evt_send_tcp_dev_pres = send_tcp_device_name_presence
handler_of evt_send_tcp_dev_config = send_tcp_device_config
handler_of evt_get_ap_list = handle_get_ap_list
handler_of evt_ap_connect = handle_ap_connect
handler_of evt_control = handle_control
handler_of evt_config_update = handle_config_update
handler_of evt_ap_disconnect = handle_ap_disconnect
handler_of evt_wifi_status = handle_wifi_status
handler_of evt_send_device_status = send_device_status
handler_of evt_device_monitor_status = device_monitor_status
handler_of evt_flush_buffer = flush_buffer
handler_of evt_device_registration = device_registration_to_cloud
handler_of evt_dev_config_cloud_update = send_device_config_update_to_cloud
handler_of evt_dev_handle_alert = handle_alert

abbrev Table : Type 0
Table = List (Option Handler)

-- The table after some registrations, and whether each finds its entry free.
filled : List (AppEvent × Handler) → Table → Table
filled [] t = t
filled ((e, h) ∷ rs) t = filled rs (set t (number e) (some h))

abbrev is_free : Option (Option Handler) → Bool
is_free (some none) = true
is_free _ = false

all_free : List (AppEvent × Handler) → Table → Bool
all_free [] t = true
all_free ((e, h) ∷ rs) t =
    is_free (get_elem? t (number e)) && all_free rs (set t (number e) (some h))

free_entry : (o : Option (Option Handler)) → is_free o ≡ true → o ≡ some none
free_entry none h = cc
free_entry (some none) h = refl
free_entry (some (some x)) h = cc

-- Every event has its handler.
abbrev pub IsRegistered : EventFw Handler → Type 0
IsRegistered fw =
    (e : AppEvent) → get_elem? fw.event_info_table (number e) ≡ some (some (handler_of e))

add_handlers_lem :
    {held : ℕ} (rs : List (AppEvent × Handler)) (fw : EventFw Handler) (f : Fifo Event)
    → Inv held fw f
    → all_free rs fw.event_info_table ≡ true
    → (fw1 : EventFw Handler) × (add_handlers rs fw ≡ done fw1)
      × Inv held fw1 f
      × (fw1.event_info_table ≡ filled rs fw.event_info_table)
unfolding add_handlers all_free filled
add_handlers_lem [] fw f v h = (fw, refl, v, refl)
add_handlers_lem ((e, x) ∷ rs) fw f v h =
    let free = free_entry (get_elem? fw.event_info_table (number e)) (ground (arith, h)) in
    let (run, w) = add_handler_free fw (number e) x v free in
    let (fw1, run1, w1, t) = add_handlers_lem rs _ f w (ground (arith, h)) in
    (fw1, ap (λ m. m >>= λ r. add_handlers rs r.1) run ∙ run1, w1, t)

registered :
    (e : AppEvent)
    → get_elem? (filled registrations (replicate 20 none)) (number e) ≡ some (some (handler_of e))
unfolding filled
registered evt_init_udp = refl
registered evt_init_tcp = refl
registered evt_par_udp_msg = refl
registered evt_send_tcp_dev_pres = refl
registered evt_send_tcp_dev_config = refl
registered evt_get_ap_list = refl
registered evt_ap_connect = refl
registered evt_control = refl
registered evt_config_update = refl
registered evt_ap_disconnect = refl
registered evt_wifi_status = refl
registered evt_send_device_status = refl
registered evt_device_monitor_status = refl
registered evt_flush_buffer = refl
registered evt_device_registration = refl
registered evt_dev_config_cloud_update = refl
registered evt_dev_handle_alert = refl

-- registerEventHandlers on a framework for 20 events without callbacks gives every event its handler,
-- and keeps the invariant and the queue.
pub register_event_handlers_lem :
    {held : ℕ} (fw : EventFw Handler) (f : Fifo Event)
    → Inv held fw f
    → fw.event_info_table ≡ replicate 20 none
    → (fw1 : EventFw Handler) × (register_event_handlers fw ≡ done fw1)
      × Inv held fw1 f
      × IsRegistered fw1
unfolding register_event_handlers all_free
register_event_handlers_lem fw f v t =
    let free = ap (all_free registrations) t in
    let (fw1, run, w, t1) = add_handlers_lem registrations fw f v free in
    (
      fw1,
      run,
      w,
      λ e. ap (λ t. get_elem? t (number e)) (t1 ∙ ap (filled registrations) t) ∙ registered e,
    )
