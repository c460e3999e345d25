-- ===== src/GenericList/Laws.antt =====
-- Reversal undoes itself, and where the code reads what it may not.
use c_utilities.Common.{
  ℕ, ◌+◌, ◌-◌, ◌≡◌, refl, ap, ◌∙◌, Bool, false, Option, some, List, [], ◌∷◌, ◌++◌, append-nil, sym,
  if_false, Bool-cases, inl, inr, if◌then◌else◌,
}
use c_utilities.Common.Run.{Run, done, fault, ◌>>=◌}
use c_utilities.GenericList.{
  Chain, null, node, ListHandle, reverse_onto, s_list_reverse, find, next_of, delete_later,
  delete_from, s_list_item_del, s_list_item_get,
}
use c_utilities.GenericList.Sort.{chain_of}

module _ {A : Type 0} where
  -- A list put backwards before another.
  abbrev pub onto : List A → List A → List A
  onto [] ys = ys
  onto (x ∷ xs) ys = onto xs (x ∷ ys)

  onto_twice : (xs ys zs : List A) → onto (onto xs ys) zs ≡ onto ys (xs ++ zs)
  onto_twice [] ys zs = refl
  onto_twice (x ∷ xs) ys zs = onto_twice xs (x ∷ ys) zs

  reverse_onto_lem :
      (xs ys : List A) → reverse_onto (chain_of xs) (chain_of ys) ≡ done (chain_of (onto xs ys))
  unfolding reverse_onto
  reverse_onto_lem [] ys = refl
  reverse_onto_lem (x ∷ xs) ys = reverse_onto_lem xs (x ∷ ys)

  -- sListReverse of a list that ends with NULL, done twice, leaves the list as it was.
  pub s_list_reverse_twice :
      (l : ListHandle A) (xs : List A)
      → l.head ≡ chain_of xs
      → (s_list_reverse (some l) ≡ done (some (record l { head = chain_of (onto xs []) })))
        × (s_list_reverse (some l) >>= s_list_reverse ≡ done (some l))
  unfolding s_list_reverse
  s_list_reverse_twice l xs e =
      let put : Chain A → Run (Option (ListHandle A)) = λ h. done (some (record l { head = h })) in
      let once : s_list_reverse (some l) ≡ put (chain_of (onto xs [])) =
        ap (λ c. reverse_onto c null >>= put) e ∙ ap (λ r. r >>= put) (reverse_onto_lem xs []) in
      let back : onto (onto xs []) [] ≡ xs = onto_twice xs [] [] ∙ append-nil xs in
      (
        once,
        ap (λ r. r >>= s_list_reverse) once
            ∙ ap (λ r. r >>= put) (reverse_onto_lem (onto xs []) [])
            ∙ ap (λ ys. put (chain_of ys)) back
            ∙ ap put (sym e),
      )

  delete_later_fault :
      (key_fn : A → Bool) (xs : List A) (y : A)
      → find key_fn (chain_of xs) ≡ done (some y)
      → delete_later key_fn (chain_of xs) ≡ fault
  unfolding find delete_later next_of
  delete_later_fault key_fn [] y h = absurd cc
  delete_later_fault key_fn (x ∷ xs) y h =
      let later = delete_later key_fn (chain_of xs) in
      let then_later : Bool → Run (ℕ × Chain A) = λ b. next_of b (node x (chain_of xs)) >>= λ next.
      later >>= λ r. done (if b then (r.0 + 1, r.1) else (r.0, node x r.1)) in
      elim (Bool-cases (key_fn x)) [
        | inl hit ↦ ap then_later hit
        | inr miss ↦
            let rest : find key_fn (chain_of xs) ≡ done (some y) =
              sym (if_false (done (some x)) (find key_fn (chain_of xs)) miss) ∙ h in
            ap then_later miss
            ∙ ap (λ r. r >>= λ c. done (c.0, node x c.1)) (delete_later_fault key_fn xs y rest)
      ]

  -- sListItemDel of an element that sListItemGet finds behind the first node reads memory that it
  -- has given back.
  pub s_list_item_del_fault :
      (key_fn : A → Bool) (l : ListHandle A) (x : A) (xs : List A) (y : A)
      → l.head ≡ chain_of (x ∷ xs)
      → key_fn x ≡ false
      → s_list_item_get (some l) key_fn ≡ done (some y)
      → s_list_item_del (some l) key_fn ≡ fault
  unfolding s_list_item_del delete_from s_list_item_get find
  s_list_item_del_fault key_fn l x xs y e miss found =
      let keep : ℕ × Chain A → Run (Option (ListHandle A)) = λ r. done (
        some (record l {
          head = r.1;
          del_count = l.del_count + r.0;
          list_count = l.list_count - r.0;
        })) in
      let behind : find key_fn (chain_of xs) ≡ done (some y) =
        sym (if_false (done (some x)) (find key_fn (chain_of xs)) miss)
        ∙ sym (ap (find key_fn) e)
        ∙ found in
      ap (λ c. delete_from key_fn c >>= keep) e
      ∙ ap (λ r. r >>= keep) (if_false _ _ miss)
      ∙ ap (λ r. (r >>= λ c. done (c.0, node x c.1)) >>= keep)
          (delete_later_fault key_fn xs y behind)
