-- ===== src/GenericList/Sort.antt =====
-- sListSort sorts, and keeps every element.
use c_utilities.Common.{
  ℕ, zero, suc, ◌+◌, ◌≤◌, ◌<◌, ◌≡◌, ◌⊎◌, inl, inr, refl, ap, ap₂, ◌∙◌, Bool, some, List, [], ◌∷◌,
  length, arith, if◌then◌else◌,
}
use c_utilities.Common.Int.{ℤ, pos, negsuc}
use c_utilities.Common.Run.{Run, done, ◌>>=◌}
use c_utilities.GenericList.{
  Chain, null, node, ListHandle, split_from, s_node_split, sort_merge, sort_chain, nodes,
  s_list_sort,
}

-- The comparator answers -1 where the left goes first, and 0 or 1 where the right may.
pub record IsComparator {A : Type 0} (Le : A → A → Type 0) (cmp : A → A → ℤ) : Type 0 where
  pub trans : (x y z : A) → Le x y → Le y z → Le x z
  pub answers :
      (x y : A)
      → ((cmp x y ≡ negsuc 0) × Le x y)
        ⊎ (((cmp x y ≡ pos 0) × Le y x) ⊎ ((cmp x y ≡ pos 1) × Le y x))

module _ {A : Type 0} where
  -- A chain that ends with NULL.
  abbrev pub chain_of : List A → Chain A
  chain_of [] = null
  chain_of (x ∷ xs) = node x (chain_of xs)

  -- How many elements pass a test.
  abbrev pub count : (A → Bool) → List A → ℕ
  count p [] = 0
  count p (x ∷ xs) = (if p x then 1 else 0) + count p xs

  abbrev pub AllAbove : (A → A → Type 0) → A → List A → Type 0
  AllAbove Le w [] = Unit
  AllAbove Le w (x ∷ xs) = Le w x × AllAbove Le w xs

  abbrev pub IsSorted : (A → A → Type 0) → List A → Type 0
  IsSorted Le [] = Unit
  IsSorted Le (x ∷ xs) = AllAbove Le x xs × IsSorted Le xs

  AllAbove-trans :
      (Le : A → A → Type 0) (cmp : A → A → ℤ) (w x : A) (xs : List A)
      → IsComparator Le cmp
      → Le w x
      → AllAbove Le x xs
      → AllAbove Le w xs
  AllAbove-trans Le cmp w x [] h l a = tt
  AllAbove-trans Le cmp w x (y ∷ xs) h l a =
      (h.trans w x y l a.0, AllAbove-trans Le cmp w x xs h l a.1)

  -- A list made of two: each test is passed as often, and a bound of both is one of it.
  abbrev Merged : (A → A → Type 0) → List A → List A → List A → Type 0
  Merged Le xs ys zs =
      ((p : A → Bool) → count p zs ≡ count p xs + count p ys)
      × ((w : A) → AllAbove Le w xs → AllAbove Le w ys → AllAbove Le w zs)
      × (length zs ≡ length xs + length ys)

  abbrev MergesTo : (A → A → Type 0) → List A → List A → Run (Chain A) → Type 0
  MergesTo Le xs ys r =
      (zs : List A) × (r ≡ done (chain_of zs)) × IsSorted Le zs × Merged Le xs ys zs

  merge_lem :
      (Le : A → A → Type 0) (cmp : A → A → ℤ) (fuel : ℕ) (xs ys : List A)
      → IsComparator Le cmp
      → IsSorted Le xs
      → IsSorted Le ys
      → length xs + length ys < fuel
      → MergesTo Le xs ys (sort_merge cmp fuel (chain_of xs) (chain_of ys))
  unfolding sort_merge
  merge_lem Le cmp zero xs ys h s t l = absurd (omega arith)
  merge_lem Le cmp (suc fuel) [] ys h s t l =
      (ys, refl, t, (λ p. omega arith, λ w a b. b, omega arith))
  merge_lem Le cmp (suc fuel) (x ∷ xs) [] h s t l =
      (x ∷ xs, refl, s, (λ p. omega arith, λ w a b. a, omega arith))
  merge_lem Le cmp (suc fuel) (x ∷ xs) (y ∷ ys) h s t l =
      let left = sort_merge cmp fuel (chain_of xs) (node y (chain_of ys)) in
      let right = sort_merge cmp fuel (node x (chain_of xs)) (chain_of ys) in
      let by : ℤ → Run (Chain A) = λ z. elim z [
        | negsuc zero ↦ left >>= λ c. done (node x c)
        | pos zero ↦ right >>= λ c. done (node y c)
        | pos (suc zero) ↦ right >>= λ c. done (node y c)
        | _ ↦ done null
      ] in
      let (zs, run, sorted, (counts, above, len)) =
        merge_lem Le cmp fuel xs (y ∷ ys) h s.1 t (omega arith) in
      let (us, run2, sorted2, (counts2, above2, len2)) =
        merge_lem Le cmp fuel (x ∷ xs) ys h s t.1 (omega arith) in
      let from_second : by (cmp x y) ≡ (right >>= λ c. done (node y c))
          → Le y x
          → MergesTo Le (x ∷ xs) (y ∷ ys) (by (cmp x y)) =
        λ e q. (
          y ∷ us,
          e ∙ ap (λ r. r >>= λ c. done (node y c)) run2,
          (above2 y (q, AllAbove-trans Le cmp y x xs h q s.0) t.0, sorted2),
          (λ p. omega (arith, counts2 p), λ w a b. (b.0, above2 w a b.1), omega (arith, len2)),
        ) in
      elim (h.answers x y) [
        | inl (e, q) ↦ (
          x ∷ zs,
          ap by e ∙ ap (λ r. r >>= λ c. done (node x c)) run,
          (above x s.0 (q, AllAbove-trans Le cmp x y ys h q t.0), sorted),
          (λ p. omega (arith, counts p), λ w a b. (a.0, above w a.1 b), omega (arith, len)),
        )
        | inr more ↦ elim more [
          | inl (e, q) ↦ from_second (ap by e) q
          | inr (e, q) ↦ from_second (ap by e) q
        ]
      ]

  -- The list cut behind the slow pointer.
  split_lem :
      (x : A) (xs fast : List A)
      → length fast ≤ length xs
      → 0 < length xs
      → (us vs : List A) × (split_from (node x (chain_of xs)) (chain_of fast)
          ≡ done (chain_of us, chain_of vs))
        × ((p : A → Bool) → count p (x ∷ xs) ≡ count p us + count p vs)
        × (0 < length us)
        × (length us + length vs ≡ suc (length xs))
        × (0 < length vs)
  unfolding split_from
  split_lem x xs [] l k =
      (x ∷ [], xs, refl, λ p. omega arith, omega arith, omega arith, omega arith)
  split_lem x [] (y ∷ []) l k = absurd (omega arith)
  split_lem x (x1 ∷ xs) (y ∷ []) l k =
      (x ∷ [], x1 ∷ xs, refl, λ p. omega arith, omega arith, omega arith, omega arith)
  split_lem x [] (y ∷ z ∷ fast) l k = absurd (omega arith)
  split_lem x (x1 ∷ xs) (y ∷ z ∷ fast) l k =
      let (us, vs, run, counts, some_there, len, more) =
        split_lem x1 xs fast (omega arith) (omega arith) in
      (
        x ∷ us,
        vs,
        ap (λ r. r >>= λ q. done (node x q.0, q.1)) run,
        λ p. omega (arith, counts p),
        omega arith,
        omega (arith, len),
        more,
      )

  sort_chain_lem :
      (Le : A → A → Type 0) (cmp : A → A → ℤ) (n fuel : ℕ) (xs : List A)
      → IsComparator Le cmp
      → length xs < fuel
      → length xs < n
      → (zs : List A) × (sort_chain cmp n fuel (chain_of xs) ≡ done (chain_of zs))
        × IsSorted Le zs
        × ((p : A → Bool) → count p zs ≡ count p xs)
        × (length zs ≡ length xs)
  unfolding sort_chain s_node_split
  sort_chain_lem Le cmp n zero xs h l k = absurd (omega arith)
  sort_chain_lem Le cmp n (suc fuel) [] h l k = ([], refl, tt, λ p. refl, refl)
  sort_chain_lem Le cmp n (suc fuel) (x ∷ []) h l k = (x ∷ [], refl, (tt, tt), λ p. refl, refl)
  sort_chain_lem Le cmp n (suc fuel) (x ∷ y ∷ xs) h l k =
      let (us, vs, cut, counts, some_first, len, some_second) =
        split_lem x (y ∷ xs) (y ∷ xs) (omega arith) (omega arith) in
      let (us1, run1, sorted1, counts1, len1) =
        sort_chain_lem Le cmp n fuel us h (omega (arith, len)) (omega (arith, len)) in
      let (vs1, run2, sorted2, counts2, len2) =
        sort_chain_lem Le cmp n fuel vs h (omega (arith, len)) (omega (arith, len)) in
      let (zs, run, sorted, (counts3, above, len3)) =
        merge_lem Le cmp n us1 vs1 h sorted1 sorted2 (omega (arith, len, len1, len2)) in
      (
        zs,
        ap
              (λ r. r >>= λ r. sort_chain cmp n fuel r.0 >>= λ first.
                sort_chain cmp n fuel r.1 >>= λ second. sort_merge cmp n first second)
              cut
            ∙ ap
                (λ r. r >>= λ first.
                  sort_chain cmp n fuel (chain_of vs) >>= λ second. sort_merge cmp n first second)
                run1
            ∙ ap (λ r. r >>= λ second. sort_merge cmp n (chain_of us1) second) run2
            ∙ run,
        sorted,
        λ p. omega (arith, counts p, counts1 p, counts2 p, counts3 p),
        omega (arith, len, len1, len2, len3),
      )

  nodes_lem : (xs : List A) → nodes (chain_of xs) ≡ length xs
  unfolding nodes
  nodes_lem [] = refl
  nodes_lem (x ∷ xs) = ap suc (nodes_lem xs)

  -- sListSort on a list that ends with NULL, with a comparator that answers -1, 0 or 1, ends, sorts the
  -- elements, and keeps each as often as it was there.
  pub s_list_sort_total :
      (Le : A → A → Type 0) (cmp : A → A → ℤ) (l : ListHandle A) (xs : List A)
      → IsComparator Le cmp
      → l.head ≡ chain_of xs
      → (zs : List A) × (s_list_sort cmp (some l) ≡ done (some (record l { head = chain_of zs })))
        × IsSorted Le zs
        × ((p : A → Bool) → count p zs ≡ count p xs)
  unfolding s_list_sort
  s_list_sort_total Le cmp l xs h e =
      let n = suc (length xs) in
      let (zs, run, sorted, counts, len) =
        sort_chain_lem Le cmp n n xs h (omega arith) (omega arith) in
      let size : nodes l.head ≡ length xs = ap nodes e ∙ nodes_lem xs in
      (
        zs,
        ap₂ (λ k c. sort_chain cmp (suc k) (suc k) c >>= λ h. done (some (record l { head = h })))
              size e
            ∙ ap (λ r. r >>= λ h. done (some (record l { head = h }))) run,
        sorted,
        counts,
      )
