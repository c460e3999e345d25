-- ===== src/StaticQueue/Handles.antt =====
-- Handles: a new queue, a destroyed one, the counters that the accessors read.
use c_utilities.Common.{
  ℕ, ◌<◌, ◌^◌, ◌≡◌, ◌⊎◌, ◌∙◌, Bool, true, List, [], ◌∷◌, none, some, arith, length,
}
use c_utilities.Common.Int.{to_u32}
use c_utilities.ErrorTypes.{code, e_success, e_queue_invalid}
use c_utilities.StaticQueue.{
  StaticQueue, valid_mark_value, create, destroy, put_at, get_at, put, get, max_len, msg_count,
  high_mark, drop_count,
}
use c_utilities.StaticQueue.Fifo.{Call, puts, gets, Fifo}
use c_utilities.StaticQueue.Invariant.{IsValid, create-IsValid, put_at-IsValid, get_at-IsValid}
use c_utilities.StaticQueue.Refinement.{Represents, call}

module _ {A : Type 0} where
  -- A queue of positive length, once created, holds the empty list.
  pub create-Represents :
      (cleared : A) (len size : ℕ) {q : StaticQueue A}
      → 0 < len
      → len < 2 ^ 32
      → create true true cleared len size ≡ some q
      → Represents q (record { items = []; limit = len; dropped = 0 })
  unfolding create
  create-Represents cleared len size h w e = ground (arith, create-IsValid cleared len size h w e)

  -- Where either allocation fails there is no queue.
  pub create_nomem :
      (got_object got_data : Bool) (cleared : A) (len size : ℕ)
      → (create got_object got_data cleared len size ≡ none)
        ⊎ ((got_object ≡ true) × (got_data ≡ true))
  unfolding create
  create_nomem got_object got_data cleared len size = ground arith

  -- After staticQueueDestroy of a queue that bears the mark, every operation on the object answers
  -- E_QUEUE_INVALID (the accessors as a UInt32_t), a second destroy too, and changes nothing.
  pub destroyed_refused :
      (q : StaticQueue A) (a : A)
      → q.valid_mark ≡ valid_mark_value
      → let dead = (destroy (some q)).1 in
        ((destroy (some q)).0 ≡ e_success)
        × (put dead (some a) ≡ (e_queue_invalid, dead))
        × (get dead true ≡ (e_queue_invalid, none, dead))
        × (destroy dead ≡ (e_queue_invalid, dead))
        × (max_len dead ≡ to_u32 (code e_queue_invalid))
        × (msg_count dead ≡ to_u32 (code e_queue_invalid))
        × (high_mark dead ≡ to_u32 (code e_queue_invalid))
        × (drop_count dead ≡ to_u32 (code e_queue_invalid))
  unfolding destroy put get max_len msg_count high_mark drop_count
  destroyed_refused q a m = ground arith

  -- What the accessors tell of a queue that represents a list.
  pub accessors-Represents :
      (q : StaticQueue A) (f : Fifo A)
      → Represents q f
      → (max_len (some q) ≡ f.limit)
        × (msg_count (some q) ≡ length f.items)
        × (drop_count (some q) ≡ f.dropped)
  unfolding max_len msg_count drop_count
  accessors-Represents q f r = ground arith

  -- The object after a history of calls.
  pub after_all : StaticQueue A → List (Call A) → StaticQueue A
  after_all q [] = q
  after_all q (c ∷ cs) = after_all (call q c).1 cs

  call-high_mark :
      (q : StaticQueue A) (c : Call A) → (call q c).1.queue_high_mark ≡ q.queue_high_mark
  unfolding put_at get_at
  call-high_mark q (puts a) = ground arith
  call-high_mark q gets = ground arith

  call-IsValid : (q : StaticQueue A) (c : Call A) → IsValid q → IsValid (call q c).1
  call-IsValid q (puts a) v = put_at-IsValid q a v
  call-IsValid q gets v = get_at-IsValid q v

  -- No history of calls on a valid queue changes what staticQueueHighMark returns.
  pub high_mark-after_all :
      (cs : List (Call A)) (q : StaticQueue A)
      → IsValid q
      → high_mark (some (after_all q cs)) ≡ q.queue_high_mark
  unfolding high_mark after_all
  high_mark-after_all [] q v = ground arith
  high_mark-after_all (c ∷ cs) q v =
      high_mark-after_all cs (call q c).1 (call-IsValid q c v) ∙ call-high_mark q c
