-- ===== src/TimerFw/Slots.antt =====
-- Arrays of pointers that are NULL or point to a block: what all blocks satisfy, and how many
-- there are.
use mathlib.Core.Option
use c_utilities.Common.{
  ℕ, zero, suc, ◌≤◌, ◌<◌, ◌≡◌, refl, ap, subst, Option, none, some, List, [], ◌∷◌, map, arith,
  length, get_elem?, set, replicate,
}

module _ {A : Type 0} where
  abbrev pub AllSome : (A → Type 0) → List (Option A) → Type 0
  AllSome P [] = Unit
  AllSome P (none ∷ xs) = AllSome P xs
  AllSome P (some a ∷ xs) = P a × AllSome P xs

  abbrev pub occupied : List (Option A) → ℕ
  occupied [] = 0
  occupied (none ∷ xs) = occupied xs
  occupied (some a ∷ xs) = suc (occupied xs)

  pub AllSome-get :
      (P : A → Type 0) (xs : List (Option A)) (i : ℕ) {a : A}
      → AllSome P xs
      → get_elem? xs i ≡ some (some a)
      → P a
  AllSome-get P [] i h e = absurd (cc)
  AllSome-get P (none ∷ xs) zero h e = absurd (cc)
  AllSome-get P (none ∷ xs) (suc i) h e = AllSome-get P xs i h e
  AllSome-get P (some b ∷ xs) zero h e = subst P (cc) h.0
  AllSome-get P (some b ∷ xs) (suc i) h e = AllSome-get P xs i h.1 e

  pub AllSome-set :
      (P : A → Type 0) (xs : List (Option A)) (i : ℕ) (a : A)
      → AllSome P xs
      → P a
      → AllSome P (set xs i (some a))
  AllSome-set P [] i a h p = tt
  AllSome-set P (none ∷ xs) zero a h p = (p, h)
  AllSome-set P (none ∷ xs) (suc i) a h p = AllSome-set P xs i a h p
  AllSome-set P (some b ∷ xs) zero a h p = (p, h.1)
  AllSome-set P (some b ∷ xs) (suc i) a h p = (h.0, AllSome-set P xs i a h.1 p)

  pub AllSome-clear :
      (P : A → Type 0) (xs : List (Option A)) (i : ℕ) → AllSome P xs → AllSome P (set xs i none)
  AllSome-clear P [] i h = tt
  AllSome-clear P (none ∷ xs) zero h = h
  AllSome-clear P (none ∷ xs) (suc i) h = AllSome-clear P xs i h
  AllSome-clear P (some b ∷ xs) zero h = h.1
  AllSome-clear P (some b ∷ xs) (suc i) h = (h.0, AllSome-clear P xs i h.1)

  pub AllSome-replicate : (P : A → Type 0) (n : ℕ) → AllSome P (replicate n none)
  AllSome-replicate P zero = tt
  AllSome-replicate P (suc n) = AllSome-replicate P n

  -- Replacing a block by a block.
  pub occupied-set :
      (xs : List (Option A)) (i : ℕ) {a : A} (b : A)
      → get_elem? xs i ≡ some (some a)
      → occupied (set xs i (some b)) ≡ occupied xs
  occupied-set [] i b e = refl
  occupied-set (none ∷ xs) zero b e = absurd (cc)
  occupied-set (none ∷ xs) (suc i) b e = occupied-set xs i b e
  occupied-set (some c ∷ xs) zero b e = refl
  occupied-set (some c ∷ xs) (suc i) b e = ap suc (occupied-set xs i b e)

  -- Filling a free entry.
  pub occupied-fill :
      (xs : List (Option A)) (i : ℕ) (b : A)
      → get_elem? xs i ≡ some none
      → occupied (set xs i (some b)) ≡ suc (occupied xs)
  occupied-fill [] i b e = absurd (cc)
  occupied-fill (none ∷ xs) zero b e = refl
  occupied-fill (none ∷ xs) (suc i) b e = occupied-fill xs i b e
  occupied-fill (some c ∷ xs) zero b e = absurd (cc)
  occupied-fill (some c ∷ xs) (suc i) b e = ap suc (occupied-fill xs i b e)

  -- Freeing a block.
  pub occupied-clear :
      (xs : List (Option A)) (i : ℕ) {a : A}
      → get_elem? xs i ≡ some (some a)
      → suc (occupied (set xs i none)) ≡ occupied xs
  occupied-clear [] i e = absurd (cc)
  occupied-clear (none ∷ xs) zero e = absurd (cc)
  occupied-clear (none ∷ xs) (suc i) e = occupied-clear xs i e
  occupied-clear (some c ∷ xs) zero e = refl
  occupied-clear (some c ∷ xs) (suc i) e = ap suc (occupied-clear xs i e)

  pub occupied-le-length : (xs : List (Option A)) → occupied xs ≤ length xs
  occupied-le-length [] = omega arith
  occupied-le-length (none ∷ xs) = omega (arith, occupied-le-length xs)
  occupied-le-length (some c ∷ xs) = omega (arith, occupied-le-length xs)

module _ {A : Type 0} where
  -- Changing every block.
  pub AllSome-map :
      (P : A → Type 0) (Q : A → Type 0) (f : A → A)
      → ((a : A) → P a → Q (f a))
      → (xs : List (Option A)) → AllSome P xs
      → AllSome Q (map (Option.map f) xs)
  AllSome-map P Q f h [] p = tt
  AllSome-map P Q f h (none ∷ xs) p = AllSome-map P Q f h xs p
  AllSome-map P Q f h (some a ∷ xs) p = (h a p.0, AllSome-map P Q f h xs p.1)

  pub occupied-map :
      (f : A → A) (xs : List (Option A)) → occupied (map (Option.map f) xs) ≡ occupied xs
  occupied-map f [] = refl
  occupied-map f (none ∷ xs) = occupied-map f xs
  occupied-map f (some a ∷ xs) = ap suc (occupied-map f xs)

pub occupied-replicate : (A : Type 0) (n : ℕ) → occupied (replicate {A = Option A} n none) ≡ 0
occupied-replicate A zero = refl
occupied-replicate A (suc n) = occupied-replicate A n

module _ {A : Type 0} where
  -- The first NULL entry of an array.
  pub record IsFirstFree (xs : List (Option A)) (j : ℕ) : Type 0 where
    pub free : get_elem? xs j ≡ some none
    pub before : (k : ℕ) → k < j → (a : A) × (get_elem? xs k ≡ some (some a))

  IsFirstFree-cons :
      (a : A) (xs : List (Option A)) (j : ℕ) → IsFirstFree xs j → IsFirstFree (some a ∷ xs) (suc j)
  IsFirstFree-cons a xs j f = record { free = f.free; before = found }
    where
      found : (k : ℕ) → k < suc j → (b : A) × (get_elem? (some a ∷ xs) k ≡ some (some b))
      found zero h = (a, refl)
      found (suc k) h = f.before k (omega arith)

  -- An array that is not full has one.
  pub first_free : (xs : List (Option A)) → occupied xs < length xs → (j : ℕ) × IsFirstFree xs j
  first_free [] h = absurd (omega arith)
  first_free (none ∷ xs) h = (0, record { free = refl; before = λ k b. absurd (omega arith) })
  first_free (some a ∷ xs) h =
      let (j, f) = first_free xs (omega arith) in (suc j, IsFirstFree-cons a xs j f)
