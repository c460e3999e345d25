-- ===== src/EventFw/Process.antt =====
-- eventFwProcess: it drains the queue, in order, and gives back every parameter block.
use c_utilities.Common.{
  ℕ, zero, suc, ◌+◌, ◌-◌, ◌<◌, ◌≤◌, ◌≡◌, refl, ap, ◌∙◌, List, [], ◌∷◌, Option, none, some, arith,
  length, get_elem?, u32, lt_of_get_elem?,
}
use c_utilities.Common.Run.{done}
use c_utilities.StaticQueue.Fifo.{Fifo}
use c_utilities.StaticQueue.Refinement.{get_refines}
use c_utilities.EventFw.{
  Event, EventFw, drained, handled, process_round, process_from, process, release_param,
}
use c_utilities.EventFw.Invariant.{block, blocks, OwnsParam, Inv}

abbrev pub list_of : List Event → ℕ → ℕ → Fifo Event
list_of es limit dropped = record { items = es; limit = limit; dropped = dropped }

-- What the framework relies on of the callbacks: they leave it valid (they may register callbacks
-- and generate events), and they do not generate events for ever, which a potential of the rest of
-- the program pays for.
pub record IsWellBehaved {Cb S : Type 0}
    (invoke : Cb → ℕ → Option (List ℕ) → ℕ → EventFw Cb × S → EventFw Cb × S) (potential : S → ℕ)
    : Type 0 where
  pub keeps :
      (cb : Cb) (event : ℕ) (param : Option (List ℕ)) (len held : ℕ) (fw : EventFw Cb) (s : S)
      (f : Fifo Event)
      → Inv held fw f
      → (f' : Fifo Event) × Inv held (invoke cb event param len (fw, s)).0 f'
        × (length f'.items + potential (invoke cb event param len (fw, s)).1
            ≤ length f.items + potential s)

release_param-handled :
    {Cb S : Type 0} (e : Event) (param : Option (List ℕ)) (fw : EventFw Cb) (s : S)
    → e.param ≡ param
    → OwnsParam e.param_len param
    → release_param e (fw, s) ≡ handled (record fw { params_live = fw.params_live - block e }, s)
unfolding release_param
release_param-handled e none fw s p o = ground arith
release_param-handled e (some bytes) fw s p o = ground (arith, o.0)

-- The end of a round, after a callback that kept the invariant.
pub released :
    {Cb S : Type 0} (e : Event) (fw : EventFw Cb) (s : S) (f : Fifo Event)
    → OwnsParam e.param_len e.param
    → Inv (block e) fw f
    → (fw' : EventFw Cb) × Inv 0 fw' f
      × (fw'.event_info_table ≡ fw.event_info_table)
      × (release_param e (fw, s) ≡ handled (fw', s))
unfolding release_param
released e fw s f o v = (
  record fw { params_live = fw.params_live - block e },
  record {
    queue = v.queue;
    is_queue = v.is_queue;
    holds = v.holds;
    table_len = v.table_len;
    some_events = v.some_events;
    events_word = v.events_word;
    deliverable = v.deliverable;
    live = omega (arith, v.live);
  },
  refl,
  release_param-handled e e.param fw s refl o,
)

module _ {Cb S : Type 0}
    (invoke : Cb → ℕ → Option (List ℕ) → ℕ → EventFw Cb × S → EventFw Cb × S) where
  pub drained_empty :
      (fw : EventFw Cb) (limit dropped : ℕ) (s : S)
      → Inv 0 fw (list_of [] limit dropped)
      → (fw' : EventFw Cb) × Inv 0 fw' (list_of [] limit dropped)
        × (process_round invoke (fw, s) ≡ drained (fw', s))
  unfolding process_round
  drained_empty fw limit dropped s v =
      let (q, got, r) = get_refines v.queue (list_of [] limit dropped) v.holds in
      (
        record fw { event_queue = some q },
        record {
          queue = q;
          is_queue = refl;
          holds = r;
          table_len = v.table_len;
          some_events = v.some_events;
          events_word = v.events_word;
          deliverable = tt;
          live = v.live;
        },
        ground (arith, v.is_queue, got),
      )

  -- The framework while the oldest event is with its callback: its block counts as held.
  pub popped :
      (fw : EventFw Cb) (e : Event) (es : List Event) (limit dropped : ℕ) (s : S)
      → Inv 0 fw (list_of (e ∷ es) limit dropped)
      → (fw' : EventFw Cb) × (cb : Cb) × Inv (block e) fw' (list_of es limit dropped)
        × OwnsParam e.param_len e.param
        × (fw'.event_info_table ≡ fw.event_info_table)
        × (get_elem? fw.event_info_table e.event_id ≡ some (some cb))
        × (process_round invoke (fw, s)
            ≡ release_param e (invoke cb e.event_id e.param e.param_len (fw', s)))
  unfolding process_round
  popped fw e es limit dropped s v =
      let (q, got, r) = get_refines v.queue (list_of (e ∷ es) limit dropped) v.holds in
      let d = v.deliverable.0 in
      (
        record fw { event_queue = some q },
        d.callback,
        record {
          queue = q;
          is_queue = refl;
          holds = r;
          table_len = v.table_len;
          some_events = v.some_events;
          events_word = v.events_word;
          deliverable = v.deliverable.1;
          live = omega (arith, v.live);
        },
        d.owns,
        refl,
        d.registered,
        ground (
          arith,
          v.is_queue,
          got,
          d.registered,
          v.table_len,
          v.some_events,
          v.events_word,
          lt_of_get_elem? fw.event_info_table e.event_id d.registered,
        ),
      )

  pub process_from_drained :
      (fuel count : ℕ) (w : EventFw Cb × S) {w' : EventFw Cb × S}
      → process_round invoke w ≡ drained w'
      → process_from invoke (suc fuel) count w ≡ done (count, w'.0, w'.1)
  unfolding process_from
  process_from_drained fuel count w e = ground arith

  pub process_from_handled :
      (fuel count : ℕ) (w : EventFw Cb × S) {w' : EventFw Cb × S}
      → process_round invoke w ≡ handled w'
      → process_from invoke (suc fuel) count w ≡ process_from invoke fuel (u32 (count + 1)) w'
  unfolding process_from
  process_from_handled fuel count w e = ground arith

  -- With fuel for each event and for the potential, the loop ends: it has handled `k` events
  -- without a fault or an early return, the queue is empty, and no parameter block is left.
  process_from_total :
      (potential : S → ℕ)
      → IsWellBehaved invoke potential
      → (fuel count : ℕ) (fw : EventFw Cb) (s : S) (es : List Event) (limit dropped : ℕ)
      → Inv 0 fw (list_of es limit dropped)
      → length es + potential s < fuel
      → (k : ℕ) × (fw' : EventFw Cb) × (s' : S) × (f' : Fifo Event) × (process_from invoke fuel
            (u32 count)
            (fw, s)
          ≡ done (u32 (count + k), fw', s'))
        × Inv 0 fw' f'
        × (f'.items ≡ [])
        × (k + potential s' ≤ length es + potential s)
  process_from_total potential wb zero count fw s es limit dropped v h = absurd (omega arith)
  process_from_total potential wb (suc fuel) count fw s [] limit dropped v h =
      let (fw', v', e) = drained_empty fw limit dropped s v in
      (
        0,
        fw',
        s,
        list_of [] limit dropped,
        (process_from_drained fuel (u32 count) _ e ∙ ap (λ c. done (c, fw', s)) (omega arith)),
        v',
        refl,
        (omega arith),
      )
  process_from_total potential wb (suc fuel) count fw s (e ∷ es) limit dropped v h =
      let (fw1, cb, v1, o, same, reg, run1) = popped fw e es limit dropped s v in
      let (f2, v2, m2) =
        wb.keeps cb e.event_id e.param e.param_len (block e) fw1 s (list_of es limit dropped) v1 in
      let w2 = invoke cb e.event_id e.param e.param_len (fw1, s) in
      let (fw3, v3, same3, run3) = released e w2.0 w2.1 f2 o v2 in
      let (k, fw4, s4, f4, run4, v4, i4, m4) =
        process_from_total potential wb fuel (count + 1) fw3 w2.1 f2.items f2.limit f2.dropped v3
          (omega arith) in
      (
        k + 1,
        fw4,
        s4,
        f4,
        process_from_handled fuel (u32 count) _ (run1 ∙ run3)
            ∙ ap (λ c. process_from invoke fuel c (fw3, w2.1)) (omega arith)
            ∙ run4
            ∙ ap (λ c. done (c, fw4, s4)) (omega arith),
        v4,
        i4,
        omega arith,
      )

  -- eventFwProcess, with callbacks that keep the framework valid and whose generated events are
  -- paid for by a potential: with fuel for the queued events and the potential it returns, without
  -- undefined behaviour, the number of the events that it handled; the queue is then empty and no
  -- parameter block is left allocated.
  pub process_total :
      (potential : S → ℕ) (fuel : ℕ) (fw : EventFw Cb) (s : S) (f : Fifo Event)
      → IsWellBehaved invoke potential
      → Inv 0 fw f
      → length f.items + potential s < fuel
      → (k : ℕ) × (fw' : EventFw Cb) × (s' : S) × (f' : Fifo Event) × (process invoke fuel (fw, s)
          ≡ done (u32 k, fw', s'))
        × Inv 0 fw' f'
        × (f'.items ≡ [])
        × (fw'.params_live ≡ 0)
        × (k + potential s' ≤ length f.items + potential s)
  unfolding process
  process_total potential fuel fw s f wb v h =
      let (k, fw', s', f', run, v', i, m) =
        process_from_total potential wb fuel 0 fw s f.items f.limit f.dropped v h in
      (
        k,
        fw',
        s',
        f',
        run ∙ ap (λ (c : ℕ). done (u32 c, fw', s')) (omega arith),
        v',
        i,
        omega (arith, v'.live, ap blocks i),
        m,
      )
