-- ===== src/EventFw/Invariant.antt =====
-- What holds of the event framework once it is initialised, and what each operation does to it.
use c_utilities.Common.{
  ℕ, ◌+◌, ◌<◌, ◌^◌, ◌≡◌, ◌≢◌, inl, inr, refl, ◌∙◌, true, false, List, [], ◌∷◌, Option, none, some,
  arith, ◌==◌, if◌then◌else◌, length, get_elem?, set, length-set, length-replicate,
  get_elem?-set_ne, get_elem?-some, lt_of_get_elem?, Bool-cases, replicate,
}
use c_utilities.Common.Run.{done}
use c_utilities.ErrorTypes.{ErrorType, e_null, e_evt_exist, e_evt_out_of_bounds, e_success}
use c_utilities.StaticQueue
use c_utilities.StaticQueue.{StaticQueue}
use c_utilities.StaticQueue.Fifo.{Fifo}
use c_utilities.StaticQueue.Refinement.{Represents}
use c_utilities.StaticQueue.Handles.{create-Represents}
use c_utilities.EventFw.{
  Event, EventFw, cleared_event, init, add_handler, is_out_of_bounds, register,
}

-- The parameter blocks that an event owns, and those that a list of events owns.
abbrev pub block : Event → ℕ
block e = if e.param_len == 0 then 0 else 1

abbrev pub blocks : List Event → ℕ
blocks [] = 0
blocks (e ∷ es) = block e + blocks es

abbrev pub OwnsParam : ℕ → Option (List ℕ) → Type 0
OwnsParam len none = len ≡ 0
OwnsParam len (some bytes) = (len ≢ 0) × (length bytes ≡ len)

module _ {Cb : Type 0} where
  -- The event has a registered callback, and a parameter exactly if its length is not 0.
  pub record IsDeliverable (table : List (Option Cb)) (e : Event) : Type 0 where
    pub callback : Cb
    pub registered : get_elem? table e.event_id ≡ some (some callback)
    pub owns : OwnsParam e.param_len e.param

  abbrev pub AllDeliverable : List (Option Cb) → List Event → Type 0
  AllDeliverable table [] = Unit
  AllDeliverable table (e ∷ es) = IsDeliverable table e × AllDeliverable table es

  -- The framework is initialised, its queue holds the events of `f`, and besides their parameter
  -- blocks `held` more are allocated.
  pub record Inv (held : ℕ) (fw : EventFw Cb) (f : Fifo Event) : Type 0 where
    pub queue : StaticQueue Event
    pub is_queue : fw.event_queue ≡ some queue
    pub holds : Represents queue f
    pub table_len : length fw.event_info_table ≡ fw.max_events
    pub some_events : 0 < fw.max_events
    pub events_word : fw.max_events < 2 ^ 8
    pub deliverable : AllDeliverable fw.event_info_table f.items
    pub live : fw.params_live ≡ held + blocks f.items

  -- eventFwInit with all its allocations, for 1 to 255 events and a queue of positive length,
  -- succeeds and leaves an empty queue and no parameter block.
  pub init-Inv :
      (max_events max_queue : ℕ) (fw : EventFw Cb)
      → fw.event_queue ≡ none
      → fw.params_live ≡ 0
      → 0 < max_events
      → max_events < 2 ^ 8
      → 0 < max_queue
      → max_queue < 2 ^ 32
      → let (e, fw') = init true true true max_events max_queue fw in
        (e ≡ e_success) × Inv 0 fw' (record { items = []; limit = max_queue; dropped = 0 })
  unfolding init StaticQueue.create
  init-Inv max_events max_queue fw n l p w pq wq = (
    ground arith,
    record {
      queue = created;
      is_queue = ground arith;
      holds = create-Represents cleared_event max_queue 12 pq wq refl;
      table_len = ground (arith, length-replicate {A = Option Cb} max_events none);
      some_events = ground arith;
      events_word = ground arith;
      deliverable = tt;
      live = ground arith;
    },
  )
    where
      created : StaticQueue Event
      created = record {
        valid_mark = 0xAA55AA55;
        queue_len = max_queue;
        queue_data_size = 12;
        queue_write_ptr = 0;
        queue_read_ptr = 0;
        queue_msg_count = 0;
        queue_high_mark = 0;
        queue_drop_count = 0;
        queue_data = replicate max_queue cleared_event;
      }

  -- No event has a callback then.
  pub init_table_lem :
      (max_events max_queue : ℕ) (fw : EventFw Cb)
      → fw.event_queue ≡ none
      → (init true true true max_events max_queue fw).1.event_info_table ≡ replicate max_events none
  unfolding init StaticQueue.create
  init_table_lem max_events max_queue fw n = ground arith

  AllDeliverable-set :
      (table : List (Option Cb)) (event : ℕ) (cb : Cb) (es : List Event)
      → get_elem? table event ≡ some none
      → AllDeliverable table es
      → AllDeliverable (set table event (some cb)) es
  AllDeliverable-set table event cb [] n d = tt
  AllDeliverable-set table event cb (e ∷ es) n d = (
    record {
      callback = d.0.callback;
      registered =
          get_elem?-set_ne table event e.event_id (some cb) (λ p. cc (n, d.0.registered, p))
          ∙ d.0.registered;
      owns = d.0.owns;
    },
    AllDeliverable-set table event cb es n d.1,
  )

  register-Inv :
      {held : ℕ} (fw : EventFw Cb) {f : Fifo Event} (event : ℕ) (cb slot : Option Cb)
      → get_elem? fw.event_info_table event ≡ some slot
      → Inv held fw f
      → (r : ErrorType × EventFw Cb) × (register cb event (some slot) fw ≡ done r) × Inv held r.1 f
  unfolding register
  register-Inv fw event none slot e v = ((e_null, fw), refl, v)
  register-Inv fw event (some cb) (some old) e v = ((e_evt_exist, fw), refl, v)
  register-Inv fw {f} event (some cb) none e v = (
    (e_success, record fw { event_info_table = set fw.event_info_table event (some cb) }),
    refl,
    record {
      queue = v.queue;
      is_queue = v.is_queue;
      holds = v.holds;
      table_len = omega (arith, length-set fw.event_info_table event (some cb), v.table_len);
      some_events = v.some_events;
      events_word = v.events_word;
      deliverable = AllDeliverable-set fw.event_info_table event cb f.items e v.deliverable;
      live = v.live;
    },
  )

  -- Of an initialised framework an event within bounds has an entry in the table.
  pub slot_in_bounds :
      {held : ℕ} (fw : EventFw Cb) {f : Fifo Event} (event : ℕ)
      → Inv held fw f
      → is_out_of_bounds fw event ≡ false
      → (slot : Option Cb) × (get_elem? fw.event_info_table event ≡ some slot)
  slot_in_bounds fw event v b = get_elem?-some fw.event_info_table event (ground arith)

  add_handler_in_bounds :
      (fw : EventFw Cb) (event : ℕ) (cb slot : Option Cb) {q : StaticQueue Event}
      → fw.event_queue ≡ some q
      → is_out_of_bounds fw event ≡ false
      → get_elem? fw.event_info_table event ≡ some slot
      → add_handler event cb fw ≡ register cb event (some slot) fw
  unfolding add_handler
  add_handler_in_bounds fw event cb slot q b e = ground arith

  -- eventAddHandler never reads outside its table, and keeps the invariant.
  pub add_handler-Inv :
      {held : ℕ} (fw : EventFw Cb) {f : Fifo Event} (event : ℕ) (cb : Option Cb)
      → Inv held fw f
      → (r : ErrorType × EventFw Cb) × (add_handler event cb fw ≡ done r) × Inv held r.1 f
  unfolding add_handler
  add_handler-Inv fw event cb v = elim (Bool-cases (is_out_of_bounds fw event)) [
    | inl outside ↦ ((e_evt_out_of_bounds, fw), ground (arith, v.is_queue), v)
    | inr inside ↦
        let (slot, e) = slot_in_bounds fw event v inside in
        let (r, run, w) = register-Inv fw event cb slot e v in
        (r, add_handler_in_bounds fw event cb slot v.is_queue inside e ∙ run, w)
  ]

  -- eventAddHandler of a callback where there is none.
  pub add_handler_free :
      {held : ℕ} (fw : EventFw Cb) {f : Fifo Event} (event : ℕ) (cb : Cb)
      → Inv held fw f
      → get_elem? fw.event_info_table event ≡ some none
      → let fw1 = record fw { event_info_table = set fw.event_info_table event (some cb) } in
        (add_handler event (some cb) fw ≡ done (e_success, fw1)) × Inv held fw1 f
  unfolding register
  add_handler_free fw event cb v e =
      let inside : is_out_of_bounds fw event ≡ false = ground (
        arith,
        lt_of_get_elem? fw.event_info_table event e,
        v.table_len,
        v.some_events,
        v.events_word,
      ) in
      (
        add_handler_in_bounds fw event (some cb) none v.is_queue inside e,
        record {
          queue = v.queue;
          is_queue = v.is_queue;
          holds = v.holds;
          table_len = omega (arith, length-set fw.event_info_table event (some cb), v.table_len);
          some_events = v.some_events;
          events_word = v.events_word;
          deliverable = AllDeliverable-set fw.event_info_table event cb _ e v.deliverable;
          live = v.live;
        },
      )
