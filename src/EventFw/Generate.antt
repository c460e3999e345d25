-- ===== src/EventFw/Generate.antt =====
-- eventGenerate: what it queues, and when it refuses.
use c_utilities.Common.{
  ℕ, ◌+◌, ◌<◌, ◌≤◌, ◌^◌, ◌≡◌, ◌≢◌, ◌⊎◌, inl, inr, refl, ap, ◌∙◌, Bool, true, false, List, [], ◌∷◌,
  ◌++◌, Option, none, some, arith, ◌==◌, if◌then◌else◌, length, get_elem?, Bool-cases, take,
  length-take, lt_of_get_elem?,
}
use c_utilities.Common.Run.{done}
use c_utilities.ErrorTypes.{
  ErrorType, e_nomem, e_internal, e_evt_out_of_bounds, e_evt_not_exist, e_success,
}
use c_utilities.StaticQueue.{StaticQueue}
use c_utilities.StaticQueue.Fifo.{Fifo, offer}
use c_utilities.StaticQueue.Refinement.{put_refines}
use c_utilities.EventFw.{Event, EventFw, generate, is_out_of_bounds, enqueue, post, generate_for}
use c_utilities.EventFw.Invariant.{block, blocks, OwnsParam, IsDeliverable, AllDeliverable, Inv}

-- The caller's memory holds as many bytes as it says.
abbrev pub IsReadable : Option (List ℕ) → ℕ → Type 0
IsReadable none len = len ≡ 0
IsReadable (some bytes) len = len ≤ length bytes

-- The parameter of the queued event: a copy of the caller's bytes, NULL if there are none.
abbrev copied : Option (List ℕ) → ℕ → Option (List ℕ)
copied none len = none
copied (some bytes) len = if len == 0 then none else some (take len bytes)

abbrev pub message : ℕ → Option (List ℕ) → ℕ → Event
message event param len = record { event_id = event; param_len = len; param = copied param len }

-- The error for an event that is offered to a queue.
abbrev pub answer : Fifo Event → ErrorType
answer f = if length f.items == f.limit then e_internal else e_success

message-OwnsParam :
    (param : Option (List ℕ)) (len : ℕ) → IsReadable param len → OwnsParam len (copied param len)
message-OwnsParam none len h = h
message-OwnsParam (some bytes) len h = elim (Bool-cases (len == 0)) [
  | inl e ↦ rw e (ground arith)
  | inr e ↦ rw e (ground arith, length-take len bytes h)
]

blocks-append : (xs ys : List Event) → blocks (xs ++ ys) ≡ blocks xs + blocks ys
blocks-append [] ys = omega arith
blocks-append (x ∷ xs) ys = omega (arith, blocks-append xs ys)

module _ {Cb : Type 0} where
  AllDeliverable-append :
      (table : List (Option Cb)) (es : List Event) (e : Event)
      → AllDeliverable table es
      → IsDeliverable table e
      → AllDeliverable table (es ++ e ∷ [])
  AllDeliverable-append table [] e d h = (h, tt)
  AllDeliverable-append table (x ∷ es) e d h = (d.0, AllDeliverable-append table es e d.1 h)

  -- The abstract queue after an offer is still all deliverable.
  offer-deliverable :
      (table : List (Option Cb)) (f : Fifo Event) (e : Event)
      → AllDeliverable table f.items
      → IsDeliverable table e
      → AllDeliverable table (offer f e).1.items
  offer-deliverable table f e d h = elim (Bool-cases (length f.items == f.limit)) [
    | inl full ↦ rw full d
    | inr room ↦ rw room (AllDeliverable-append table f.items e d h)
  ]

  enqueue-Inv :
      {held : ℕ} (fw : EventFw Cb) (f : Fifo Event) (e : Event)
      → Inv held fw f
      → IsDeliverable fw.event_info_table e
      → (fw' : EventFw Cb) × (enqueue e (block e) fw ≡ (answer f, fw'))
        × Inv held fw' (offer f e).1
        × (fw'.event_info_table ≡ fw.event_info_table)
  unfolding enqueue
  enqueue-Inv fw f e v h =
      let (q, put, r) = put_refines v.queue f e v.holds in
      elim (Bool-cases (length f.items == f.limit)) [
        | inl full ↦ (
          record fw { event_queue = some q },
          ground (arith, v.is_queue, put),
          record {
            queue = q;
            is_queue = refl;
            holds = r;
            table_len = v.table_len;
            some_events = v.some_events;
            events_word = v.events_word;
            deliverable = offer-deliverable fw.event_info_table f e v.deliverable h;
            live = ground (arith, v.live);
          },
          refl,
        )
        | inr room ↦ (
          record fw { event_queue = some q; params_live = fw.params_live + block e },
          ground (arith, v.is_queue, put),
          record {
            queue = q;
            is_queue = refl;
            holds = r;
            table_len = v.table_len;
            some_events = v.some_events;
            events_word = v.events_word;
            deliverable = offer-deliverable fw.event_info_table f e v.deliverable h;
            live = ground (arith, v.live, blocks-append f.items (e ∷ []));
          },
          refl,
        )
      ]

  -- An accepted call, past its checks: the framework is as if the message had been offered.
  post-enqueue :
      (got : Bool) (fw : EventFw Cb) (event : ℕ) (param : Option (List ℕ)) (len : ℕ)
      → IsReadable param len
      → (len ≡ 0) ⊎ (got ≡ true)
      → post got event param len fw
        ≡ done (enqueue (message event param len) (block (message event param len)) fw)
  unfolding post
  post-enqueue got fw event none len h m = ground arith
  post-enqueue got fw event (some bytes) len h m = ground arith

  generate_in_bounds :
      (got : Bool) (fw : EventFw Cb) (event : ℕ) (param : Option (List ℕ)) (len : ℕ)
      (slot : Option Cb) {q : StaticQueue Event}
      → fw.event_queue ≡ some q
      → is_out_of_bounds fw event ≡ false
      → get_elem? fw.event_info_table event ≡ some slot
      → generate got event param len fw ≡ generate_for got event param len (some slot) fw
  unfolding generate
  generate_in_bounds got fw event param len slot q b e = ground arith

  -- What `generate_lem` says, and that the callbacks stay.
  pub generate_kept :
      (got : Bool) {held : ℕ} (fw : EventFw Cb) (f : Fifo Event) (event : ℕ)
      (param : Option (List ℕ)) (len : ℕ) (cb : Cb)
      → Inv held fw f
      → get_elem? fw.event_info_table event ≡ some (some cb)
      → IsReadable param len
      → (len ≡ 0) ⊎ (got ≡ true)
      → (fw' : EventFw Cb) × (generate got event param len fw ≡ done (answer f, fw'))
        × Inv held fw' (offer f (message event param len)).1
        × (fw'.event_info_table ≡ fw.event_info_table)
  unfolding generate_for
  generate_kept got fw f event param len cb v reg h m =
      let (fw', run, w, table) =
        enqueue-Inv fw f (message event param len) v
          (record { callback = cb; registered = reg; owns = message-OwnsParam param len h }) in
      (
        fw',
        generate_in_bounds got fw event param len (some cb) v.is_queue
              (ground (
                arith,
                lt_of_get_elem? fw.event_info_table event reg,
                v.table_len,
                v.some_events,
                v.events_word,
              ))
              reg
            ∙ post-enqueue got fw event param len h m
            ∙ ap done run,
        w,
        table,
      )

  -- eventGenerate of an event with a callback, with readable parameters and memory for their copy:
  -- the message is offered to the queue, the answer is E_SUCCESS, or E_INTERNAL if the queue is
  -- full, no undefined behaviour occurs, and the invariant is kept.
  pub generate_lem :
      (got : Bool) {held : ℕ} (fw : EventFw Cb) (f : Fifo Event) (event : ℕ)
      (param : Option (List ℕ)) (len : ℕ) (cb : Cb)
      → Inv held fw f
      → get_elem? fw.event_info_table event ≡ some (some cb)
      → IsReadable param len
      → (len ≡ 0) ⊎ (got ≡ true)
      → (fw' : EventFw Cb) × (generate got event param len fw ≡ done (answer f, fw'))
        × Inv held fw' (offer f (message event param len)).1
  generate_lem got fw f event param len cb v reg h m =
      let (fw', run, w, table) = generate_kept got fw f event param len cb v reg h m in
      (fw', run, w)

  -- Why a call can be refused before anything is queued, and with which error.
  pub data Refusal (got : Bool) (fw : EventFw Cb) (event len : ℕ) : ErrorType → Type 0 where
    outside : fw.max_events ≤ event → event < 2 ^ 32 → Refusal got fw event len e_evt_out_of_bounds
    unregistered :
        get_elem? fw.event_info_table event ≡ some none → Refusal got fw event len e_evt_not_exist
    no_memory :
        {cb : Cb}
        → get_elem? fw.event_info_table event ≡ some (some cb)
        → len ≢ 0
        → got ≡ false
        → Refusal got fw event len e_nomem

  -- eventGenerate refuses an event out of bounds, one without a callback, and one whose parameter
  -- cannot be copied for want of memory, each with its own error, and then changes nothing.
  pub generate_refused :
      (got : Bool) {held : ℕ} (fw : EventFw Cb) {f : Fifo Event} (event : ℕ)
      (param : Option (List ℕ)) (len : ℕ) {e : ErrorType}
      → Inv held fw f
      → Refusal got fw event len e
      → generate got event param len fw ≡ done (e, fw)
  unfolding generate
  generate_refused got fw event param len v (outside b w) =
      ground (arith, v.is_queue, v.some_events, v.events_word)
  generate_refused got fw event param len v (unregistered e) =
      ground (arith, v.is_queue, lt_of_get_elem? fw.event_info_table event e, v.table_len)
  generate_refused got fw event param len v (no_memory e n g) =
      ground (arith, v.is_queue, lt_of_get_elem? fw.event_info_table event e, v.table_len)
