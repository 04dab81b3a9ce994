-- ===== src/Prelude/Sorting.antt =====
-- `Array.prototype.sort` with a comparison, which is stable: an insertion sort; and `flatMap`.
use Prim.Native.Nat.{ℕ, Ordering, eq, gt, ◌+◌, ◌*◌}
use mathlib.Core.Path.{◌≡◌, refl}
use mathlib.Core.Bool.{Bool, true, false}
use mathlib.Core.List.{List, [], ◌∷◌, ◌++◌}
use native.Mathlib.Omega.{arith}
use autopw.Prelude.Tests.{if◌then◌else◌}
use autopw.Prelude.Lists.{length, length-append, keep}

-- `a || b` for the results of two comparisons.
abbrev pub then_by : Ordering → Ordering → Ordering
then_by eq second = second
then_by first second = first

abbrev pub is_after : Ordering → Bool
is_after gt = true
is_after _ = false

module _ {A : Type 0} (order : A → A → Ordering) where
  -- Before the first element that comes after it.
  unfoldable pub insert_by : A → List A → List A
  insert_by x [] = x ∷ []
  insert_by x (y ∷ ys) = if is_after (order x y) then y ∷ insert_by x ys else x ∷ y ∷ ys

  unfoldable pub sort_by : List A → List A
  unfolding insert_by
  sort_by [] = []
  sort_by (x ∷ xs) = insert_by x (sort_by xs)

  length-insert_by : (x : A) (ys : List A) → length (insert_by x ys) ≡ length ys + 1
  unfolding insert_by
  length-insert_by x [] = refl
  length-insert_by x (y ∷ ys) = ground (arith, length-insert_by x ys)

  pub length-sort_by : (xs : List A) → length (sort_by xs) ≡ length xs
  unfolding sort_by
  length-sort_by [] = refl
  length-sort_by (x ∷ xs) = ground (arith, length-insert_by x (sort_by xs), length-sort_by xs)

  length-keep-insert_by :
      (p : A → Bool) (x : A) (ys : List A)
      → length (keep p (insert_by x ys)) ≡ length (keep p (x ∷ ys))
  unfolding insert_by
  length-keep-insert_by p x [] = refl
  length-keep-insert_by p x (y ∷ ys) = ground (arith, length-keep-insert_by p x ys)

  -- Sorting changes no count.
  pub length-keep-sort_by :
      (p : A → Bool) (xs : List A) → length (keep p (sort_by xs)) ≡ length (keep p xs)
  unfolding sort_by
  length-keep-sort_by p [] = refl
  length-keep-sort_by p (x ∷ xs) =
      ground (arith, length-keep-insert_by p x (sort_by xs), length-keep-sort_by p xs)

module _ {A B : Type 0} where
  abbrev pub flat_map : (A → List B) → List A → List B
  flat_map f [] = []
  flat_map f (x ∷ xs) = f x ++ flat_map f xs

  pub length-flat_map :
      (f : A → List B) (n : ℕ) (xs : List A)
      → ((x : A) → length (f x) ≡ n)
      → length (flat_map f xs) ≡ length xs * n
  length-flat_map f n [] h = omega arith
  length-flat_map f n (x ∷ xs) h =
      grind (arith, length-append (f x) (flat_map f xs), h x, length-flat_map f n xs h)

  abbrev pub map_list : (A → B) → List A → List B
  map_list f [] = []
  map_list f (x ∷ xs) = f x ∷ map_list f xs

  pub length-map_list : (f : A → B) (xs : List A) → length (map_list f xs) ≡ length xs
  length-map_list f [] = refl
  length-map_list f (x ∷ xs) = ground (arith, length-map_list f xs)
