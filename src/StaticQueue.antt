-- ===== src/StaticQueue.antt =====
-- staticQueue.cpp: a queue of fixed length in preallocated memory.
-- A queue handle is `none` for NULL. The data array is a list of cells, each one element of
-- `queueDataSize` bytes, so the memcpy at `queueData + ptr * queueDataSize` writes or reads cell
-- `ptr`. What calloc returns is an argument: `true` where it gives memory.
pub mod Fifo
pub mod Invariant
pub mod Refinement
pub mod Handles
mod Tests
use c_utilities.Common.{
  ℕ, ◌+◌, Bool, true, false, Option, none, some, List, ◌==◌, if◌then◌else◌, get_elem?, set,
  replicate, u32, u32_pred, not, ◌&&◌,
}
use c_utilities.Common.Int.{to_u32}
use c_utilities.ErrorTypes.{
  ErrorType, code, e_null, e_bug, e_queue_invalid, e_queue_full, e_queue_empty, e_success,
}

-- STATIC_QUEUE_OBJ_VALID_MARK
abbrev pub valid_mark_value : ℕ
valid_mark_value = 0xAA55AA55

-- StaticQueue_s
pub record StaticQueue {ℓ} (A : Type ℓ) : Type ℓ where
  pub valid_mark : ℕ
  pub queue_len : ℕ
  pub queue_data_size : ℕ
  pub queue_write_ptr : ℕ
  pub queue_read_ptr : ℕ
  pub queue_msg_count : ℕ
  pub queue_high_mark : ℕ
  pub queue_drop_count : ℕ
  pub queue_data : List A

-- The number that an accessor of type UInt32_t returns for an error.
abbrev error_word : ErrorType → ℕ
error_word e = to_u32 (code e)

-- `if (++ptr == queueLen) ptr = 0`, as both pointers are moved.
unfoldable pub advance : ℕ → ℕ → ℕ
advance len ptr = let moved = u32 (ptr + 1) in if moved == len then 0 else moved

module _ {ℓ} {A : Type ℓ} where
  -- staticQueueCreate. `cleared` is the element of zero bytes that calloc leaves in each cell.
  unfoldable pub create : Bool → Bool → A → ℕ → ℕ → Option (StaticQueue A)
  create false got_data cleared len size = none
  create true false cleared len size = none
  create true true cleared len size = some (record {
    valid_mark = valid_mark_value;
    queue_len = len;
    queue_data_size = size;
    queue_write_ptr = 0;
    queue_read_ptr = 0;
    queue_msg_count = 0;
    queue_high_mark = 0;
    queue_drop_count = 0;
    queue_data = replicate len cleared;
  })

  -- staticQueueDestroy: the error, and the object as it is when its memory is given back.
  unfoldable pub destroy : Option (StaticQueue A) → ErrorType × Option (StaticQueue A)
  destroy none = (e_null, none)
  destroy (some q) =
      if q.valid_mark == valid_mark_value
      then (e_success, some (record q { valid_mark = 0 }))
      else (e_queue_invalid, some q)

  -- The check at the end of staticQueuePut and staticQueueGet.
  sanity : Bool → StaticQueue A → ErrorType
  sanity edge q = if edge && not (q.queue_write_ptr == q.queue_read_ptr) then e_bug else e_success

  -- The cells, pointer and count after an element is copied in.
  stored : StaticQueue A → A → StaticQueue A
  unfolding advance
  stored q a = record q {
    queue_data = set q.queue_data q.queue_write_ptr a;
    queue_write_ptr = advance q.queue_len q.queue_write_ptr;
    queue_msg_count = u32 (q.queue_msg_count + 1);
  }

  -- The pointer and count after an element is copied out.
  taken : StaticQueue A → StaticQueue A
  unfolding advance
  taken q = record q {
    queue_read_ptr = advance q.queue_len q.queue_read_ptr;
    queue_msg_count = u32_pred q.queue_msg_count;
  }

  -- staticQueuePut behind its NULL checks.
  unfoldable pub put_at : StaticQueue A → A → ErrorType × StaticQueue A
  unfolding sanity stored
  put_at q a =
      if not (q.valid_mark == valid_mark_value)
      then (e_queue_invalid, q)
      else if q.queue_msg_count == q.queue_len
      then (e_queue_full, record q { queue_drop_count = u32 (q.queue_drop_count + 1) })
      else (let q' = stored q a in (sanity (q'.queue_msg_count == q'.queue_len) q', q'))

  -- staticQueueGet behind its NULL checks. The option is what is copied to `data`.
  unfoldable pub get_at : StaticQueue A → ErrorType × Option A × StaticQueue A
  unfolding sanity taken
  get_at q =
      if not (q.valid_mark == valid_mark_value)
      then (e_queue_invalid, none, q)
      else if q.queue_msg_count == 0
      then (e_queue_empty, none, q)
      else (let q' = taken q in
          (sanity (q'.queue_msg_count == 0) q', get_elem? q.queue_data q.queue_read_ptr, q'))

  -- staticQueuePut
  unfoldable pub put : Option (StaticQueue A) → Option A → ErrorType × Option (StaticQueue A)
  unfolding put_at
  put none d = (e_null, none)
  put (some q) none = (e_null, some q)
  put (some q) (some a) = let (e, q') = put_at q a in (e, some q')

  -- staticQueueGet. The flag says whether `data` points to memory.
  unfoldable pub get : Option (StaticQueue A) → Bool → ErrorType × Option A × Option (StaticQueue A)
  unfolding get_at
  get none has_data = (e_null, none, none)
  get (some q) false = (e_null, none, some q)
  get (some q) true = let (e, out, q') = get_at q in (e, out, some q')

  -- What the four accessors below do with the handle before they read a field.
  read_field : Option (StaticQueue A) → (StaticQueue A → ℕ) → ℕ
  read_field none field = error_word e_null
  read_field (some q) field =
      if q.valid_mark == valid_mark_value then field q else error_word e_queue_invalid

  -- staticQueueMaxLen
  pub max_len : Option (StaticQueue A) → ℕ
  unfolding read_field
  max_len h = read_field h (λ q. q.queue_len)

  -- staticQueueMsgCount
  pub msg_count : Option (StaticQueue A) → ℕ
  unfolding read_field
  msg_count h = read_field h (λ q. q.queue_msg_count)

  -- staticQueueHighMark
  pub high_mark : Option (StaticQueue A) → ℕ
  unfolding read_field
  high_mark h = read_field h (λ q. q.queue_high_mark)

  -- staticQueueDropCount
  pub drop_count : Option (StaticQueue A) → ℕ
  unfolding read_field
  drop_count h = read_field h (λ q. q.queue_drop_count)
