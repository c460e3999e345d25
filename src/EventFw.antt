-- ===== src/EventFw.antt =====
-- eventFw.cpp: events from high-priority contexts, queued and handed to registered callbacks in
-- the main context.
-- The three static variables are the fields of a record, with a count of the parameter blocks that
-- eventGenerate has allocated and nobody has freed yet. A callback is a name; what it does to the
-- framework and to the rest of the program is the parameter `invoke` of `process`.
pub mod Invariant
pub mod Generate
pub mod Process
pub mod Order
pub mod Truncation
pub mod Tests
use c_utilities.Common.{
  ℕ, zero, suc, ◌+◌, ◌-◌, ◌^◌, Bool, true, false, Option, none, some, List, [], ltb, leb, ◌==◌,
  if◌then◌else◌, length, get_elem?, set, take, replicate, u8, u32, u32_pred,
}
use c_utilities.Common.Int.{to_u32}
use c_utilities.Common.Run.{Run, done, fault, out_of_fuel, ◌>>=◌}
use c_utilities.ErrorTypes.{
  ErrorType, code, e_nomem, e_null, e_bug, e_internal, e_evt_exist, e_evt_out_of_bounds,
  e_evt_not_exist, e_evt_not_ready, e_evt_ready, e_success,
}
use c_utilities.StaticQueue
use c_utilities.StaticQueue.{StaticQueue}

-- Event_s. The parameter is the block of bytes that `param` points to.
pub record Event : Type 0 where
  pub event_id : ℕ
  pub param_len : ℕ
  pub param : Option (List ℕ)

-- gEventQueue, gEventInfoTable and gMaxEvents
pub record EventFw (Cb : Type 0) : Type 0 where
  pub event_queue : Option (StaticQueue Event)
  pub event_info_table : List (Option Cb)
  pub max_events : ℕ
  pub params_live : ℕ

abbrev pub cleared_event : Event
cleared_event = record { event_id = 0; param_len = 0; param = none }

-- sizeof(Event_t): three words
abbrev event_size : ℕ
event_size = 12

-- What a numeric function returns for E_BUG.
abbrev pub bug_word : ℕ
bug_word = to_u32 (code e_bug)

-- The return of 0xFFFFFFFF.
abbrev pub lost_param_word : ℕ
lost_param_word = 0xFFFFFFFF

-- The memcpy of `len` bytes from `param` into a new block.
copy_param : Option (List ℕ) → ℕ → Run (List ℕ)
copy_param none len = fault
copy_param (some bytes) len = if leb len (length bytes) then done (take len bytes) else fault

module _ {Cb : Type 0} where
  -- `event > gMaxEvents - 1`, an unsigned comparison
  abbrev pub is_out_of_bounds : EventFw Cb → ℕ → Bool
  is_out_of_bounds fw event = ltb (u32_pred fw.max_events) event

  init_table : Bool → ℕ → EventFw Cb → ErrorType × EventFw Cb
  init_table false max_events fw = (e_nomem, record fw { event_queue = none })
  init_table true max_events fw = (
    e_success,
    record fw { event_info_table = replicate max_events none; max_events = u8 max_events },
  )

  init_queue : Bool → ℕ → EventFw Cb → ErrorType × EventFw Cb
  unfolding init_table
  init_queue got_table max_events fw = elim fw.event_queue [
    | none ↦ (e_internal, fw)
    | some q ↦ init_table got_table max_events fw
  ]

  -- eventFwInit. The flags are the three allocations: queue object, queue cells, event table.
  pub init : Bool → Bool → Bool → ℕ → ℕ → EventFw Cb → ErrorType × EventFw Cb
  unfolding init_queue StaticQueue.create
  init got_object got_cells got_table max_events max_queue fw = elim fw.event_queue [
    | some q ↦ (e_evt_ready, fw)
    | none ↦ init_queue got_table max_events (record fw {
      event_queue = StaticQueue.create got_object got_cells cleared_event max_queue event_size;
    })
  ]

  register : Option Cb → ℕ → Option (Option Cb) → EventFw Cb → Run (ErrorType × EventFw Cb)
  register none event slot fw = done (e_null, fw)
  register (some cb) event none fw = fault
  register (some cb) event (some (some old)) fw = done (e_evt_exist, fw)
  register (some cb) event (some none) fw =
      done (e_success, record fw { event_info_table = set fw.event_info_table event (some cb) })

  -- eventAddHandler
  pub add_handler : ℕ → Option Cb → EventFw Cb → Run (ErrorType × EventFw Cb)
  unfolding register
  add_handler event cb fw = elim fw.event_queue [
    | none ↦ done (e_evt_not_ready, fw)
    | some q ↦
        if is_out_of_bounds fw event
        then done (e_evt_out_of_bounds, fw)
        else register cb event (get_elem? fw.event_info_table event) fw
  ]

  -- The event is put on the queue; its block of `blocks` bytes is freed if there is no room.
  enqueue : Event → ℕ → EventFw Cb → ErrorType × EventFw Cb
  enqueue evt blocks fw =
      let (e, q) = StaticQueue.put fw.event_queue (some evt) in
      elim e [
        | e_success ↦
            (e_success, record fw { event_queue = q; params_live = fw.params_live + blocks })
        | _ ↦ (e_internal, record fw { event_queue = q })
      ]

  post : Bool → ℕ → Option (List ℕ) → ℕ → EventFw Cb → Run (ErrorType × EventFw Cb)
  unfolding enqueue copy_param
  post got_param event param len fw =
      if len == 0
      then done (enqueue (record { event_id = event; param_len = len; param = none }) 0 fw)
      else if got_param
      then (copy_param param len >>= λ bytes.
          done (enqueue (record { event_id = event; param_len = len; param = some bytes }) 1 fw))
      else done (e_nomem, fw)

  generate_for :
      Bool
      → ℕ
      → Option (List ℕ)
      → ℕ
      → Option (Option Cb)
      → EventFw Cb
      → Run (ErrorType × EventFw Cb)
  unfolding post
  generate_for got_param event param len none fw = fault
  generate_for got_param event param len (some none) fw = done (e_evt_not_exist, fw)
  generate_for got_param event param len (some (some cb)) fw = post got_param event param len fw

  -- eventGenerate. The flag is the allocation of the copy of the parameter.
  pub generate : Bool → ℕ → Option (List ℕ) → ℕ → EventFw Cb → Run (ErrorType × EventFw Cb)
  unfolding generate_for
  generate got_param event param len fw = elim fw.event_queue [
    | none ↦ done (e_evt_not_ready, fw)
    | some q ↦
        if is_out_of_bounds fw event
        then done (e_evt_out_of_bounds, fw)
        else generate_for got_param event param len (get_elem? fw.event_info_table event) fw
  ]

  -- eventQueueHighWaterMark
  pub queue_high_water_mark : EventFw Cb → ℕ
  queue_high_water_mark fw = elim fw.event_queue [
    | none ↦ 0
    | some q ↦ StaticQueue.high_mark (some q)
  ]

  -- eventDropCount
  pub drop_count : EventFw Cb → ℕ
  drop_count fw = elim fw.event_queue [ none ↦ 0 | some q ↦ StaticQueue.drop_count (some q) ]

  -- eventProcessCount
  pub process_count : EventFw Cb → ℕ
  process_count fw = elim fw.event_queue [ none ↦ 0 | some q ↦ StaticQueue.msg_count (some q) ]

-- One round of the loop: the queue was empty, the function returns early, or the loop goes on.
pub data Round (Cb S : Type 0) : Type 0 where
  drained : EventFw Cb × S → Round Cb S
  stopped : ℕ → EventFw Cb × S → Round Cb S
  handled : EventFw Cb × S → Round Cb S
  faulted : Round Cb S

-- The end of a round: the block of the parameter is freed.
pub release_param : {Cb S : Type 0} → Event → EventFw Cb × S → Round Cb S
release_param evt (fw, s) = if evt.param_len == 0 then handled (fw, s) else elim evt.param [
  | none ↦ stopped lost_param_word (fw, s)
  | some bytes ↦ handled (record fw { params_live = fw.params_live - 1 }, s)
]

-- The rest of the program, that callbacks read and write, beside the framework.
module _ {Cb S : Type 0}
    (invoke : Cb → ℕ → Option (List ℕ) → ℕ → EventFw Cb × S → EventFw Cb × S) where
  deliver : Event → Option (Option Cb) → EventFw Cb × S → Round Cb S
  unfolding release_param
  deliver evt none w = faulted
  deliver evt (some none) w = stopped bug_word w
  deliver evt (some (some cb)) w =
      release_param evt (invoke cb evt.event_id evt.param evt.param_len w)

  dispatch : Option Event → EventFw Cb × S → Round Cb S
  unfolding deliver
  dispatch none w = faulted
  dispatch (some evt) (fw, s) =
      if is_out_of_bounds fw evt.event_id
      then stopped bug_word (fw, s)
      else deliver evt (get_elem? fw.event_info_table evt.event_id) (fw, s)

  pub process_round : EventFw Cb × S → Round Cb S
  unfolding dispatch
  process_round (fw, s) =
      let (e, out, q) = StaticQueue.get fw.event_queue true in
      let w : EventFw Cb × S = (record fw { event_queue = q }, s) in
      elim e [ e_success ↦ dispatch out w | _ ↦ drained w ]

  -- eventFwProcess: the value that it returns, and the program after it. Each round has one unit of
  -- fuel.
  pub process_from : ℕ → ℕ → EventFw Cb × S → Run (ℕ × EventFw Cb × S)
  process_from zero count w = out_of_fuel
  process_from (suc fuel) count w = elim (process_round w) [
    | drained (fw, s) ↦ done (count, fw, s)
    | stopped code (fw, s) ↦ done (code, fw, s)
    | handled w' ↦ process_from fuel (u32 (count + 1)) w'
    | faulted ↦ fault
  ]

  pub process : ℕ → EventFw Cb × S → Run (ℕ × EventFw Cb × S)
  unfolding process_from
  process fuel w = process_from fuel 0 w
