-- ===== src/StaticQueue/Invariant.antt =====
-- The invariant of a queue object, and what it says of the pointers.
use c_utilities.Common.{
  ℕ, ◌+◌, ◌-◌, ◌<◌, ◌≤◌, ◌^◌, ◌≡◌, true, some, arith, ltb, if◌then◌else◌, length, length-set,
  length-replicate,
}
use c_utilities.StaticQueue.{StaticQueue, valid_mark_value, create, put_at, get_at, advance}

-- The index `k` steps past the start of the array, going round once at most.
abbrev pub wrap : ℕ → ℕ → ℕ
wrap len k = if ltb k len then k else k - len

-- The pointers are moved one cell on, without overflow.
pub advance-wrap : (len ptr : ℕ) → len < 2 ^ 32 → ptr < len → advance len ptr ≡ wrap len (ptr + 1)
unfolding advance
advance-wrap len ptr w h = ground arith

module _ {ℓ} {A : Type ℓ} where
  pub record IsValid (q : StaticQueue A) : Type 0 where
    pub count_in : q.queue_msg_count ≤ q.queue_len
    pub mark : q.valid_mark ≡ valid_mark_value
    pub word : q.queue_len < 2 ^ 32
    pub read_in : q.queue_read_ptr < q.queue_len
    pub write_at : q.queue_write_ptr ≡ wrap q.queue_len (q.queue_read_ptr + q.queue_msg_count)
    pub cells : length q.queue_data ≡ q.queue_len

  -- A new queue satisfies the invariant.
  pub create-IsValid :
      (cleared : A) (len size : ℕ) {q : StaticQueue A}
      → 0 < len
      → len < 2 ^ 32
      → create true true cleared len size ≡ some q
      → IsValid q
  unfolding create
  create-IsValid cleared len size h w e = ground (arith, length-replicate len cleared)

  -- staticQueuePut keeps the invariant.
  pub put_at-IsValid : (q : StaticQueue A) (a : A) → IsValid q → IsValid (put_at q a).1
  unfolding put_at
  put_at-IsValid q a v = ground (arith, length-set q.queue_data q.queue_write_ptr a)

  -- staticQueueGet keeps the invariant.
  pub get_at-IsValid : (q : StaticQueue A) → IsValid q → IsValid (get_at q).2
  unfolding get_at
  get_at-IsValid q v = ground arith
