-- ===== src/EventFw/Order.antt =====
-- eventFwProcess hands the queued events to their callbacks in the order in which they came.
use c_utilities.Common.{
  ℕ, zero, suc, ◌+◌, ◌<◌, ◌≡◌, refl, ap, ap₂, ◌∙◌, sym, List, [], ◌∷◌, Option, some, arith, length,
  get_elem?, u32,
}
use c_utilities.Common.Run.{done}
use c_utilities.StaticQueue.Fifo.{Fifo}
use c_utilities.EventFw.{Event, EventFw, process_from, process, release_param}
use c_utilities.EventFw.Invariant.{Inv}
use c_utilities.EventFw.Process.{
  list_of, drained_empty, popped, released, process_from_drained, process_from_handled,
}

module _ {Cb S : Type 0} where
  -- One event, by the entry of its callback.
  abbrev pub react : (Cb → ℕ → Option (List ℕ) → ℕ → S → S) → Option (Option Cb) → Event → S → S
  react act (some (some cb)) e s = act cb e.event_id e.param e.param_len s
  react act _ e s = s

  -- The events of a list, one after the other.
  abbrev pub play : (Cb → ℕ → Option (List ℕ) → ℕ → S → S) → List (Option Cb) → List Event → S → S
  play act table [] s = s
  play act table (e ∷ es) s = play act table es (react act (get_elem? table e.event_id) e s)

module _ {Cb S : Type 0}
    (invoke : Cb → ℕ → Option (List ℕ) → ℕ → EventFw Cb × S → EventFw Cb × S) where
  process_from_in_order :
      (act : Cb → ℕ → Option (List ℕ) → ℕ → S → S)
      → ((cb : Cb) (event : ℕ) (param : Option (List ℕ)) (len : ℕ) (fw : EventFw Cb) (s : S)
          → invoke cb event param len (fw, s) ≡ (fw, act cb event param len s))
      → (fuel count : ℕ) (table : List (Option Cb)) (fw : EventFw Cb) (s : S) (es : List Event)
        (limit dropped : ℕ)
      → fw.event_info_table ≡ table
      → Inv 0 fw (list_of es limit dropped)
      → length es < fuel
      → (fw' : EventFw Cb) × (process_from invoke fuel (u32 count) (fw, s)
          ≡ done (u32 (count + length es), fw', play act table es s))
        × Inv 0 fw' (list_of [] limit dropped)
  process_from_in_order act quiet zero count table fw s es limit dropped t v h =
      absurd (omega arith)
  process_from_in_order act quiet (suc fuel) count table fw s [] limit dropped t v h =
      let (fw', v', e) = drained_empty invoke fw limit dropped s v in
      (
        fw',
        process_from_drained invoke fuel (u32 count) _ e ∙ ap (λ c. done (c, fw', s)) (omega arith),
        v',
      )
  process_from_in_order act quiet (suc fuel) count table fw s (e ∷ es) limit dropped t v h =
      let (fw1, cb, v1, o, same, reg, run1) = popped invoke fw e es limit dropped s v in
      let s2 = act cb e.event_id e.param e.param_len s in
      let (fw3, v3, same3, run3) = released e fw1 s2 (list_of es limit dropped) o v1 in
      let called = quiet cb e.event_id e.param e.param_len fw1 s in
      let (fw4, run4, v4) =
        process_from_in_order act quiet fuel (count + 1) table fw3 s2 es limit dropped
          (same3 ∙ same ∙ t) v3 (omega arith) in
      (
        fw4,
        process_from_handled invoke fuel (u32 count) _ (run1 ∙ ap (release_param e) called ∙ run3)
            ∙ ap (λ c. process_from invoke fuel c (fw3, s2)) (omega arith)
            ∙ run4
            ∙ ap₂ (λ c slot. done (c, fw4, play act table es (react act slot e s))) (omega arith)
                (sym reg ∙ ap (λ rows. get_elem? rows e.event_id) t),
        v4,
      )

  -- With callbacks that act on the rest of the program only, eventFwProcess returns the number of
  -- the queued events, after it has called the callback of each in the order of the queue; the
  -- queue is then empty, with the same limit and drop count, and no parameter block is left.
  pub process_in_order :
      (act : Cb → ℕ → Option (List ℕ) → ℕ → S → S) (fuel : ℕ) (fw : EventFw Cb) (s : S)
      (f : Fifo Event)
      → ((cb : Cb) (event : ℕ) (param : Option (List ℕ)) (len : ℕ) (fw : EventFw Cb) (s : S)
          → invoke cb event param len (fw, s) ≡ (fw, act cb event param len s))
      → Inv 0 fw f
      → length f.items < fuel
      → (fw' : EventFw Cb) × (process invoke fuel (fw, s)
          ≡ done (u32 (length f.items), fw', play act fw.event_info_table f.items s))
        × Inv 0 fw' (record f { items = [] })
        × (fw'.params_live ≡ 0)
  unfolding process
  process_in_order act fuel fw s f quiet v h =
      let (fw', run, v') =
        process_from_in_order act quiet fuel 0 fw.event_info_table fw s f.items f.limit f.dropped
          refl v h in
      (
        fw',
        run
            ∙ ap (λ (c : ℕ). done (u32 c, fw', play act fw.event_info_table f.items s))
                (omega arith),
        v',
        v'.live,
      )
