-- ===== src/EventFw/Tests.antt =====
-- Runs of the event framework, and the theorems at concrete frameworks.
use c_utilities.Common.{
  ℕ, ◌+◌, ◌≤◌, ◌≡◌, inr, refl, true, List, [], ◌∷◌, Option, none, some, arith, u32,
}
use c_utilities.Common.Run.{done, fault}
use c_utilities.ErrorTypes.{e_success, e_evt_out_of_bounds}
use c_utilities.StaticQueue
use c_utilities.StaticQueue.{StaticQueue, valid_mark_value}
use c_utilities.StaticQueue.Fifo.{Fifo, offer}
use c_utilities.StaticQueue.Refinement.{Represents}
use c_utilities.EventFw.{
  Event, EventFw, init, add_handler, generate, process, process_round, cleared_event,
}
use c_utilities.EventFw.Invariant.{Inv}
use c_utilities.EventFw.Generate.{outside, generate_lem, generate_refused, message}
use c_utilities.EventFw.Process.{IsWellBehaved, process_total}
use c_utilities.EventFw.Order.{process_in_order}
use c_utilities.EventFw.Truncation.{add_handler_overrun}

pub data Handler : Type 0 where
  log ring : Handler

-- `log` appends the event to a log, `ring` does nothing.
abbrev act : Handler → ℕ → Option (List ℕ) → ℕ → List ℕ → List ℕ
act log event param len s = event ∷ s
act ring event param len s = s

abbrev invoke :
    Handler → ℕ → Option (List ℕ) → ℕ → EventFw Handler × List ℕ → EventFw Handler × List ℕ
invoke cb event param len w = (w.0, act cb event param len w.1)

abbrev before : EventFw Handler
before = record { event_queue = none; event_info_table = []; max_events = 0; params_live = 0 }

-- Two events, one with a parameter of two bytes, in a queue of three.
abbrev first : Event
first = record { event_id = 1; param_len = 2; param = some (7 ∷ 8 ∷ []) }

abbrev second : Event
second = record { event_id = 0; param_len = 0; param = none }

abbrev pub pending : Fifo Event
pending = record { items = first ∷ second ∷ []; limit = 3; dropped = 0 }

abbrev queue : StaticQueue Event
queue = record {
  valid_mark = valid_mark_value;
  queue_len = 3;
  queue_data_size = 12;
  queue_write_ptr = 2;
  queue_read_ptr = 0;
  queue_msg_count = 2;
  queue_high_mark = 0;
  queue_drop_count = 0;
  queue_data = first ∷ second ∷ cleared_event ∷ [];
}

queue-Represents : Represents queue pending
queue-Represents = record {
  valid = omega arith;
  counted = refl;
  limited = refl;
  lost = refl;
  window = (refl, (refl, tt));
}

abbrev busy : EventFw Handler
busy = record {
  event_queue = some queue;
  event_info_table = some ring ∷ some log ∷ none ∷ [];
  max_events = 3;
  params_live = 1;
}

busy-Inv : Inv 0 busy pending
busy-Inv = record {
  queue = queue;
  is_queue = refl;
  holds = queue-Represents;
  table_len = refl;
  some_events = omega arith;
  events_word = omega arith;
  deliverable = (
    record { callback = log; registered = refl; owns = (omega arith, refl) },
    (record { callback = ring; registered = refl; owns = refl }, tt),
  );
  live = refl;
}

-- The same with a third callback.
abbrev pub listening : EventFw Handler
listening = record busy { event_info_table = some ring ∷ some log ∷ some log ∷ [] }

pub listening-Inv : Inv 0 listening pending
listening-Inv = record {
  queue = queue;
  is_queue = refl;
  holds = queue-Represents;
  table_len = refl;
  some_events = omega arith;
  events_word = omega arith;
  deliverable = (
    record { callback = log; registered = refl; owns = (omega arith, refl) },
    (record { callback = ring; registered = refl; owns = refl }, tt),
  );
  live = refl;
}

process-busy :
    process invoke 3 (busy, [])
    ≡ done (
      2,
      record busy {
        event_queue = some (record queue { queue_read_ptr = 2; queue_msg_count = 0 });
        params_live = 0;
      },
      1 ∷ [],
    )
unfolding process process_round StaticQueue.get
process-busy = refl

generate_lem_example :
    (fw' : EventFw Handler) × (generate true 1 (some (5 ∷ 6 ∷ [])) 1 busy ≡ done (e_success, fw'))
    × Inv 0 fw' (offer pending (message 1 (some (5 ∷ 6 ∷ [])) 1)).1
generate_lem_example =
    generate_lem true busy pending 1 (some (5 ∷ 6 ∷ [])) 1 log busy-Inv refl (omega arith)
      (inr refl)

generate_refused_example : generate true 9 none 0 busy ≡ done (e_evt_out_of_bounds, busy)
generate_refused_example =
    generate_refused true busy 9 none 0 busy-Inv (outside (omega arith) (omega arith))

invoke-IsWellBehaved : IsWellBehaved invoke (λ s. 0)
invoke-IsWellBehaved = record { keeps = λ cb event param len held fw s f v. (f, v, omega arith) }

process_total_example :
    (k : ℕ) × (fw' : EventFw Handler) × (s' : List ℕ) × (f' : Fifo Event) × (process invoke 3
        (busy, [])
      ≡ done (u32 k, fw', s'))
    × Inv 0 fw' f'
    × (f'.items ≡ [])
    × (fw'.params_live ≡ 0)
    × (k + 0 ≤ 2 + 0)
process_total_example =
    process_total invoke (λ s. 0) 3 busy [] pending invoke-IsWellBehaved busy-Inv (omega arith)

process_in_order_example :
    (fw' : EventFw Handler) × (process invoke 3 (busy, []) ≡ done (2, fw', 1 ∷ []))
    × Inv 0 fw' (record pending { items = [] })
    × (fw'.params_live ≡ 0)
process_in_order_example =
    process_in_order invoke act 3 busy [] pending (λ cb event param len fw s. refl) busy-Inv
      (omega arith)

add_handler_overrun_example :
    add_handler 300 (some log) (init true true true 256 10 before).1 ≡ fault
add_handler_overrun_example =
    add_handler_overrun 1 10 300 log before refl (omega arith) (omega arith)
