-- ===== src/StaticQueue/Fifo.antt =====
-- What staticQueue.h promises, without the memory: a first-in first-out list of at most `limit`
-- elements that counts what it has to drop.
use c_utilities.Common.{
  ℕ, ◌+◌, Option, none, some, List, [], ◌∷◌, ◌++◌, ◌==◌, if◌then◌else◌, length, u32,
}
use c_utilities.ErrorTypes.{ErrorType, e_queue_full, e_queue_empty, e_success}

module _ {ℓ} (A : Type ℓ) where
  -- A client's calls.
  pub data Call : Type ℓ where
    puts : A → Call
    gets : Call

  -- Oldest first.
  pub record Fifo : Type ℓ where
    pub items : List A
    pub limit : ℕ
    pub dropped : ℕ

  -- What a call returns: the error, and what is copied out.
  abbrev pub Reply : Type ℓ
  Reply = ErrorType × Option A

module _ {ℓ} {A : Type ℓ} where
  abbrev pub offer : Fifo A → A → Reply A × Fifo A
  offer f a =
      if length f.items == f.limit
      then ((e_queue_full, none), record f { dropped = u32 (f.dropped + 1) })
      else ((e_success, none), record f { items = f.items ++ a ∷ [] })

  abbrev pub poll_items : List A → Fifo A → Reply A × Fifo A
  poll_items [] f = ((e_queue_empty, none), f)
  poll_items (x ∷ xs) f = ((e_success, some x), record f { items = xs })

  abbrev pub poll : Fifo A → Reply A × Fifo A
  poll f = poll_items f.items f

  abbrev pub serve : Fifo A → Call A → Reply A × Fifo A
  serve f (puts a) = offer f a
  serve f gets = poll f

  unfoldable pub serve_all : Fifo A → List (Call A) → List (Reply A)
  serve_all f [] = []
  serve_all f (c ∷ cs) = let (r, f') = serve f c in r ∷ serve_all f' cs
