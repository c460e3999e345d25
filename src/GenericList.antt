-- ===== src/GenericList.antt =====
-- genericLinkList/genericLL.c: a singly linked list of copied elements.
-- The nodes behind a pointer are a chain: no two pointers into the list share nodes. A pointer that
-- was never written is `wild`, and reading through it faults. Counts are not bounded.
pub mod Sort
pub mod Laws
mod Tests
use c_utilities.Common.{
  ℕ, zero, suc, ◌+◌, ◌-◌, Bool, true, false, Option, none, some, ltb, ◌==◌, if◌then◌else◌,
}
use c_utilities.Common.Int.{ℤ, pos, negsuc}
use c_utilities.Common.Run.{Run, done, fault, out_of_fuel, ◌>>=◌}

-- ListNode_t, behind a pointer
pub data Chain (A : Type 0) : Type 0 where
  null wild : Chain A
  node : A → Chain A → Chain A

-- ListHandle_t. `listLimit` is never read.
pub record ListHandle (A : Type 0) : Type 0 where
  pub head : Chain A
  pub list_count : ℕ
  pub high_mark : ℕ
  pub element_size : ℕ
  pub add_count : ℕ
  pub del_count : ℕ

module _ {A : Type 0} where
  -- sListNew. The flag is the allocation.
  pub s_list_new : Bool → ℕ → Run (ListHandle A)
  s_list_new false element_size = fault
  s_list_new true element_size = done (record {
    head = null;
    list_count = 0;
    high_mark = 0;
    element_size = element_size;
    add_count = 0;
    del_count = 0;
  })

  -- The new node goes first. Only a node that is put before another has its `next` written: the
  -- first one keeps what the memory held, `fresh`.
  pub link : Chain A → A → Chain A → Chain A
  link fresh x null = node x fresh
  link fresh x head = node x head

  -- sListItemAdd, for a list and an element, if any, and the two allocations
  pub s_list_item_add :
      Bool → Bool → Chain A → Option A → Option (ListHandle A) → Option (ListHandle A)
  unfolding link
  s_list_item_add got_node got_data fresh element none = none
  s_list_item_add got_node got_data fresh none (some l) = some l
  s_list_item_add false got_data fresh (some x) (some l) = some l
  s_list_item_add true false fresh (some x) (some l) = some l
  s_list_item_add true true fresh (some x) (some l) = some (record l {
    head = link fresh x l.head;
    list_count = l.list_count + 1;
    add_count = l.add_count + 1;
    high_mark = if ltb l.high_mark (l.list_count + 1) then l.high_mark + 1 else l.high_mark;
  })

  -- sListGetCount
  pub s_list_get_count : Option (ListHandle A) → ℤ
  s_list_get_count none = negsuc 0
  s_list_get_count (some l) = pos l.list_count

  -- sListGetHighMark
  pub s_list_get_high_mark : Option (ListHandle A) → ℤ
  s_list_get_high_mark none = negsuc 0
  s_list_get_high_mark (some l) = pos l.high_mark

  -- The loop of sListReset, which gives back every node: the head that is left
  pub free_all : Chain A → Run (Chain A)
  free_all null = done null
  free_all wild = fault
  free_all (node x rest) = free_all rest

  -- sListReset
  pub s_list_reset : Option (ListHandle A) → Run (Option (ListHandle A))
  unfolding free_all
  s_list_reset none = done none
  s_list_reset (some l) = free_all l.head >>= λ h.
      done (some (record l { head = h; add_count = 0; list_count = 0; del_count = 0 }))

  -- sListDestroy: the handle is given back too.
  pub s_list_destroy : Option (ListHandle A) → Run (Option (ListHandle A))
  unfolding s_list_reset
  s_list_destroy none = done none
  s_list_destroy (some l) = s_list_reset (some l) >>= λ r. done none

  -- The loop of sListIterator, with what `dataFn` makes of the data
  pub iterate : (A → A) → Chain A → Run (Chain A)
  iterate data_fn null = done null
  iterate data_fn wild = fault
  iterate data_fn (node x rest) = iterate data_fn rest >>= λ c. done (node (data_fn x) c)

  -- sListIterator
  pub s_list_iterator : Option (ListHandle A) → (A → A) → Run (Option (ListHandle A))
  unfolding iterate
  s_list_iterator none data_fn = done none
  s_list_iterator (some l) data_fn =
      iterate data_fn l.head >>= λ h. done (some (record l { head = h }))

  -- The loop of sListItemGet, with `keyFn` for a key
  pub find : (A → Bool) → Chain A → Run (Option A)
  find key_fn null = done none
  find key_fn wild = fault
  find key_fn (node x rest) =
      let later = find key_fn rest in if key_fn x then done (some x) else later

  -- sListItemGet
  pub s_list_item_get : Option (ListHandle A) → (A → Bool) → Run (Option A)
  unfolding find
  s_list_item_get none key_fn = done none
  s_list_item_get (some l) key_fn = find key_fn l.head

  -- `node->next` of a node that has been given back, or not.
  pub next_of : Bool → Chain A → Run (Chain A)
  next_of freed null = fault
  next_of freed wild = fault
  next_of true (node x rest) = fault
  next_of false (node x rest) = done rest

  -- The loop of sListItemDel from a node on, with the nodes that stay linked and the number of those
  -- given back. A node that matches is unlinked and given back before its `next` is read.
  pub delete_later : (A → Bool) → Chain A → Run (ℕ × Chain A)
  unfolding next_of
  delete_later key_fn null = done (0, null)
  delete_later key_fn wild = fault
  delete_later key_fn (node x rest) =
      let freed = key_fn x in
      let later = delete_later key_fn rest in
      next_of freed (node x rest) >>= λ next.
      later >>= λ r. done (if freed then (r.0 + 1, r.1) else (r.0, node x r.1))

  -- What sListItemDel does with the nodes: how many are given back, and the head that is left.
  pub delete_from : (A → Bool) → Chain A → Run (ℕ × Chain A)
  unfolding delete_later
  delete_from key_fn null = done (0, null)
  delete_from key_fn wild = fault
  delete_from key_fn (node x rest) =
      if key_fn x
      then done (1, rest)
      else (delete_later key_fn rest >>= λ r. done (r.0, node x r.1))

  -- sListItemDel, for a key that is not NULL
  pub s_list_item_del : Option (ListHandle A) → (A → Bool) → Run (Option (ListHandle A))
  unfolding delete_from
  s_list_item_del none key_fn = done none
  s_list_item_del (some l) key_fn = delete_from key_fn l.head >>= λ r. done (
      some
        (record l { head = r.1; del_count = l.del_count + r.0; list_count = l.list_count - r.0 }))

  -- The loop of sListReverse
  pub reverse_onto : Chain A → Chain A → Run (Chain A)
  reverse_onto null prev = done prev
  reverse_onto wild prev = fault
  reverse_onto (node x rest) prev = reverse_onto rest (node x prev)

  -- sListReverse
  pub s_list_reverse : Option (ListHandle A) → Run (Option (ListHandle A))
  unfolding reverse_onto
  s_list_reverse none = done none
  s_list_reverse (some l) = reverse_onto l.head null >>= λ h. done (some (record l { head = h }))

  -- The loop of sNodeSplit: `slow` is the node before the point where the list is cut.
  pub split_from : Chain A → Chain A → Run (Chain A × Chain A)
  split_from (node x s) null = done (node x null, s)
  split_from (node x s) (node y null) = done (node x null, s)
  split_from (node x s) (node y (node z fast)) = split_from s fast >>= λ r. done (node x r.0, r.1)
  split_from _ _ = fault

  -- sNodeSplit
  pub s_node_split : Chain A → Run (Chain A × Chain A)
  unfolding split_from
  s_node_split (node x rest) = split_from (node x rest) rest
  s_node_split _ = fault

  -- sortMerge, for at most `fuel` calls. For another answer of the comparator than -1, 0 and 1 the
  -- result stays NULL.
  pub sort_merge : (A → A → ℤ) → ℕ → Chain A → Chain A → Run (Chain A)
  sort_merge cmp zero first second = out_of_fuel
  sort_merge cmp (suc fuel) null second = done second
  sort_merge cmp (suc fuel) wild null = done wild
  sort_merge cmp (suc fuel) (node x xs) null = done (node x xs)
  sort_merge cmp (suc fuel) (node x xs) (node y ys) =
      let left = sort_merge cmp fuel xs (node y ys) >>= λ c. done (node x c) in
      let right = sort_merge cmp fuel (node x xs) ys >>= λ c. done (node y c) in
      elim (cmp x y) [
        | negsuc zero ↦ left
        | pos zero ↦ right
        | pos (suc zero) ↦ right
        | _ ↦ done null
      ]
  sort_merge cmp (suc fuel) _ _ = fault

  -- The recursion of sListSort on a head, for at most `fuel` levels, with `n` nodes at most to merge
  pub sort_chain : (A → A → ℤ) → ℕ → ℕ → Chain A → Run (Chain A)
  unfolding s_node_split sort_merge
  sort_chain cmp n zero c = out_of_fuel
  sort_chain cmp n (suc fuel) null = done null
  sort_chain cmp n (suc fuel) wild = fault
  sort_chain cmp n (suc fuel) (node x null) = done (node x null)
  sort_chain cmp n (suc fuel) (node x rest) = s_node_split (node x rest) >>= λ r.
      sort_chain cmp n fuel r.0 >>= λ first.
      sort_chain cmp n fuel r.1 >>= λ second. sort_merge cmp n first second

  -- The number of nodes.
  pub nodes : Chain A → ℕ
  nodes (node x rest) = suc (nodes rest)
  nodes _ = 0

  -- sListSort. The recursive calls take the address of a head for a list, whose first member it is.
  pub s_list_sort : (A → A → ℤ) → Option (ListHandle A) → Run (Option (ListHandle A))
  unfolding sort_chain nodes
  s_list_sort cmp none = done none
  s_list_sort cmp (some l) =
      sort_chain cmp (suc (nodes l.head)) (suc (nodes l.head)) l.head >>= λ h.
      done (some (record l { head = h }))
