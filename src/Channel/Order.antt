-- ===== src/Channel/Order.antt =====
-- Comparisons and stable sorting, as the allocation code uses them.
use Prim.Native.Nat.{compare, Ordering, lt, eq, gt}
use rust_tap.Common.{
  ℕ, ◌+◌, ◌≡◌, refl, arith, Bool, true, false, List, [], ◌∷◌, if◌then◌else◌, sum_of,
}

-- `Ordering::then_with`
unfoldable pub then_with : Ordering → Ordering → Ordering
then_with lt later = lt
then_with eq later = later
then_with gt later = gt

-- `cmp` on byte strings.
unfoldable pub bytes_cmp : List ℕ → List ℕ → Ordering
unfolding then_with
bytes_cmp [] [] = eq
bytes_cmp [] (y ∷ ys) = lt
bytes_cmp (x ∷ xs) [] = gt
bytes_cmp (x ∷ xs) (y ∷ ys) = then_with (compare x y) (bytes_cmp xs ys)

abbrev pub is_gt : Ordering → Bool
is_gt gt = true
is_gt _ = false

module _ {ℓ} {A : Type ℓ} where
  -- Before the first entry that is not smaller: an entry that compares equal stays behind.
  unfoldable pub insert_by : (A → A → Ordering) → A → List A → List A
  insert_by cmp x [] = x ∷ []
  insert_by cmp x (y ∷ ys) =
      let later = insert_by cmp x ys in if is_gt (cmp x y) then y ∷ later else x ∷ y ∷ ys

  -- `sort_by`, which is stable.
  unfoldable pub sort_by : (A → A → Ordering) → List A → List A
  unfolding insert_by
  sort_by cmp [] = []
  sort_by cmp (x ∷ xs) = insert_by cmp x (sort_by cmp xs)

  sum_of-insert_by :
      (cmp : A → A → Ordering) (f : A → ℕ) (x : A) (ys : List A)
      → sum_of f (insert_by cmp x ys) ≡ f x + sum_of f ys
  unfolding insert_by
  sum_of-insert_by cmp f x [] = refl
  sum_of-insert_by cmp f x (y ∷ ys) = ground (arith, sum_of-insert_by cmp f x ys)

  pub sum_of-sort_by :
      (cmp : A → A → Ordering) (f : A → ℕ) (xs : List A) → sum_of f (sort_by cmp xs) ≡ sum_of f xs
  unfolding sort_by
  sum_of-sort_by cmp f [] = refl
  sum_of-sort_by cmp f (x ∷ xs) =
      omega (arith, sum_of-insert_by cmp f x (sort_by cmp xs), sum_of-sort_by cmp f xs)
