-- ===== src/StaticQueue/Refinement.antt =====
-- A valid queue object behaves as the bounded list of the elements between its pointers.
use c_utilities.Common.{
  ℕ, ap, ap₂, ◌+◌, ◌<◌, ◌≡◌, refl, true, List, [], ◌∷◌, ◌++◌, none, some, arith, length,
  length-append, get_elem?, set, get_elem?-set_self, get_elem?-set_ne,
}
use c_utilities.StaticQueue.{StaticQueue, put_at, get_at, put, get}
use c_utilities.StaticQueue.Fifo.{
  Call, puts, gets, Fifo, Reply, offer, poll, poll_items, serve, serve_all,
}
use c_utilities.StaticQueue.Invariant.{IsValid, wrap, advance-wrap, put_at-IsValid, get_at-IsValid}

module _ {A : Type 0} where
  -- The cells from index `start` on, going round at `len`, hold these elements.
  abbrev pub Window : List A → ℕ → ℕ → List A → Type 0
  Window cells len start [] = Unit
  Window cells len start (x ∷ xs) =
      (get_elem? cells start ≡ some x) × Window cells len (wrap len (start + 1)) xs

  -- The queue object holds this abstract queue.
  pub record Represents (q : StaticQueue A) (f : Fifo A) : Type 0 where
    pub valid : IsValid q
    pub counted : length f.items ≡ q.queue_msg_count
    pub limited : f.limit ≡ q.queue_len
    pub lost : f.dropped ≡ q.queue_drop_count
    pub window : Window q.queue_data q.queue_len q.queue_read_ptr f.items

  -- Writing just past a window that leaves a cell free extends it by the element written.
  Window-set :
      (cells : List A) (len start i : ℕ) (xs : List A) (a : A)
      → len ≡ length cells
      → start < len
      → length xs < len
      → i ≡ wrap len (start + length xs)
      → Window cells len start xs
      → Window (set cells i a) len start (xs ++ a ∷ [])
  Window-set cells len start i [] a l s n e w = (ground (arith, get_elem?-set_self cells i a), tt)
  Window-set cells len start i (x ∷ xs) a l s n e w = (
    ground (arith, get_elem?-set_ne cells i start a),
    Window-set cells len (wrap len (start + 1)) i xs a l (ground arith) (omega arith) (ground arith)
        w.1,
  )

  -- The oldest element of a window, and the window that it leaves.
  Window-front :
      (cells : List A) (len start : ℕ) (x : A) (xs : List A)
      → Window cells len start (x ∷ xs)
      → (get_elem? cells start ≡ some x) × Window cells len (wrap len (start + 1)) xs
  Window-front cells len start x xs w = w

  -- staticQueuePut appends where there is room, and otherwise drops and counts; its error is the
  -- one of the abstract queue, so E_BUG is never returned.
  pub put_at_refines :
      (q : StaticQueue A) (f : Fifo A) (a : A)
      → Represents q f
      → ((put_at q a).0 ≡ (offer f a).0.0) × Represents (put_at q a).1 (offer f a).1
  unfolding put_at
  put_at_refines q f a r = ground (
    arith,
    put_at-IsValid q a r.valid,
    length-append f.items (a ∷ []),
    Window-set q.queue_data q.queue_len q.queue_read_ptr q.queue_write_ptr f.items a,
  )

  -- The same, on the items of the abstract queue.
  get_at_refines_items :
      (q : StaticQueue A) (f : Fifo A) (xs : List A)
      → f.items ≡ xs
      → Represents q f
      → ((get_at q).0 ≡ (poll_items xs f).0.0)
        × ((get_at q).1 ≡ (poll_items xs f).0.1)
        × Represents (get_at q).2 (poll_items xs f).1
  unfolding get_at
  get_at_refines_items q f [] e r = ground (arith, get_at-IsValid q r.valid, ap length e)
  get_at_refines_items q f (x ∷ xs) e r = ground (
    arith,
    get_at-IsValid q r.valid,
    ap length e,
    advance-wrap q.queue_len q.queue_read_ptr,
    rw e at r.window,
  )

  pub get_at_refines :
      (q : StaticQueue A) (f : Fifo A)
      → Represents q f
      → ((get_at q).0 ≡ (poll f).0.0)
        × ((get_at q).1 ≡ (poll f).0.1)
        × Represents (get_at q).2 (poll f).1
  get_at_refines q f r = get_at_refines_items q f f.items refl r

  -- A call made through the handle, and its reply.
  abbrev pub call : StaticQueue A → Call A → Reply A × StaticQueue A
  call q (puts a) = let (e, q') = put_at q a in ((e, none), q')
  call q gets = let (e, out, q') = get_at q in ((e, out), q')

  call_refines :
      (q : StaticQueue A) (f : Fifo A) (c : Call A)
      → Represents q f
      → ((call q c).0 ≡ (serve f c).0) × Represents (call q c).1 (serve f c).1
  call_refines q f (puts a) r = ground (arith, put_at_refines q f a r)
  call_refines q f gets r = ground (arith, get_at_refines q f r)

  unfoldable pub call_all : StaticQueue A → List (Call A) → List (Reply A)
  call_all q [] = []
  call_all q (c ∷ cs) = let (reply, q') = call q c in reply ∷ call_all q' cs

  -- No history of staticQueuePut and staticQueueGet tells a valid queue object from the bounded
  -- list that it represents: every error and every element read is the same.
  pub call_all_refines :
      (cs : List (Call A)) (q : StaticQueue A) (f : Fifo A)
      → Represents q f
      → call_all q cs ≡ serve_all f cs
  unfolding call_all serve_all
  call_all_refines [] q f r = refl
  call_all_refines (c ∷ cs) q f r =
      ap₂ ◌∷◌ (call_refines q f c r).0
        (call_all_refines cs (call q c).1 (serve f c).1 (call_refines q f c r).1)

  -- staticQueuePut through a handle that is not NULL, of data that is not NULL.
  pub put_refines :
      (q : StaticQueue A) (f : Fifo A) (a : A)
      → Represents q f
      → (q' : StaticQueue A) × (put (some q) (some a) ≡ ((offer f a).0.0, some q'))
        × Represents q' (offer f a).1
  unfolding put
  put_refines q f a r = (
    (put_at q a).1,
    ap (λ e. (e, some (put_at q a).1)) (put_at_refines q f a r).0,
    (put_at_refines q f a r).1,
  )

  -- staticQueueGet through a handle that is not NULL, into memory that is not NULL.
  pub get_refines :
      (q : StaticQueue A) (f : Fifo A)
      → Represents q f
      → (q' : StaticQueue A) × (get (some q) true ≡ ((poll f).0.0, (poll f).0.1, some q'))
        × Represents q' (poll f).1
  unfolding get
  get_refines q f r = (
    (get_at q).2,
    ap₂ (λ e out. (e, out, some (get_at q).2)) (get_at_refines q f r).0 (get_at_refines q f r).1,
    (get_at_refines q f r).2,
  )
