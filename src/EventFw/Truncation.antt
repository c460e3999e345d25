-- ===== src/EventFw/Truncation.antt =====
-- gMaxEvents is a UInt8_t: what becomes of a larger number of events.
use c_utilities.Common.{
  ℕ, ◌*◌, ◌<◌, ◌≤◌, ◌^◌, ◌≡◌, refl, true, Option, none, some, arith, get_elem?, replicate, zero,
  suc,
}
use c_utilities.Common.Run.{fault}
use c_utilities.EventFw.{EventFw, init, add_handler}

get_elem?_past : {A : Type 0} (n i : ℕ) (a : A) → n ≤ i → get_elem? (replicate n a) i ≡ none
get_elem?_past zero i a h = refl
get_elem?_past (suc n) zero a h = absurd (omega arith)
get_elem?_past (suc n) (suc i) a h = get_elem?_past n i a (omega arith)

-- Initialised for a positive multiple of 256 events, the framework checks no bound: eventAddHandler
-- of any event past the table indexes it out of bounds.
pub add_handler_overrun :
    {Cb : Type 0} (k max_queue event : ℕ) (cb : Cb) (fw : EventFw Cb)
    → fw.event_queue ≡ none
    → 256 * k ≤ event
    → event < 2 ^ 32
    → add_handler event (some cb) (init true true true (256 * k) max_queue fw).1 ≡ fault
unfolding add_handler init
add_handler_overrun {Cb} k max_queue event cb fw n past w =
    ground (arith, get_elem?_past {A = Option Cb} (256 * k) event none past)
