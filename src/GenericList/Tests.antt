-- ===== src/GenericList/Tests.antt =====
-- Lists of numbers.
use c_utilities.Common.{
  ℕ, ◌≤◌, ◌≡◌, refl, true, Bool, some, List, [], ◌∷◌, ltb, inl, inr, Bool-cases, if◌then◌else◌,
  if_true, if_false, arith,
}
use c_utilities.Common.Int.{ℤ, pos, negsuc}
use c_utilities.Common.Run.{done, fault}
use c_utilities.GenericList.{
  Chain, null, wild, ListHandle, s_list_item_add, s_list_iterator, s_list_sort,
}
use c_utilities.GenericList.Sort.{chain_of, count, IsSorted, IsComparator, s_list_sort_total}

abbrev holding : Chain ℕ → ListHandle ℕ
holding c = record {
  head = c;
  list_count = 3;
  high_mark = 3;
  element_size = 4;
  add_count = 3;
  del_count = 0;
}

abbrev three : List ℕ
three = 5 ∷ 3 ∷ 4 ∷ []

-- -1 for a smaller number, and 1 otherwise
abbrev compare_numbers : ℕ → ℕ → ℤ
compare_numbers x y = if ltb x y then negsuc 0 else pos 1

compare_numbers-IsComparator : IsComparator (λ x y. x ≤ y) compare_numbers
compare_numbers-IsComparator = record {
  trans = λ x y z p q. omega (arith, p, q);
  answers = λ x y. elim (Bool-cases (ltb x y)) [
    | inl e ↦ inl (if_true (negsuc 0) (pos 1) e, ground (arith, e))
    | inr e ↦ inr (inr (if_false (negsuc 0) (pos 1) e, ground (arith, e)))
  ];
}

-- The first element's `next` is never written.
iterate_first :
    s_list_iterator (s_list_item_add true true wild (some 7) (some (holding null))) (λ x. x) ≡ fault
unfolding s_list_iterator s_list_item_add
iterate_first = refl

s_list_sort_total_example :
    (zs : List ℕ) × (s_list_sort compare_numbers (some (holding (chain_of three)))
      ≡ done (some (holding (chain_of zs))))
    × IsSorted (λ x y. x ≤ y) zs
    × ((p : ℕ → Bool) → count p zs ≡ count p three)
s_list_sort_total_example =
    s_list_sort_total (λ x y. x ≤ y) compare_numbers (holding (chain_of three)) three
      compare_numbers-IsComparator refl
