-- ===== src/Prelude/Sets.antt =====
-- A `Set` of texts as a list without repetition, in the order of insertion.
use Prim.Native.Nat.{◌+◌, ◌≤◌}
use Prim.Native.String.{String}
use mathlib.Core.Path.{◌≡◌, refl}
use mathlib.Core.Logic.{inl, inr}
use mathlib.Core.Bool.{true, false, not, ◌&&◌}
use mathlib.Core.List.{List, [], ◌∷◌}
use native.Mathlib.Omega.{arith}
use autopw.Prelude.Tests.{if◌then◌else◌, str_eq, str_eq_iff, Bool-cases}
use autopw.Prelude.Lists.{All, length, includes}

-- `[...new Set(xs)]`, given what is already in the set.
unfoldable pub distinct_from : List String → List String → List String
distinct_from seen [] = []
distinct_from seen (x ∷ xs) =
    if includes seen x then distinct_from seen xs else x ∷ distinct_from (x ∷ seen) xs

-- `[...new Set(xs)]`
abbrev pub distinct : List String → List String
distinct xs = distinct_from [] xs

-- No text stands twice.
abbrev pub Distinct : List String → Type 0
Distinct [] = Unit
Distinct (x ∷ xs) = (includes xs x ≡ false) × Distinct xs

-- Every text of the first list is in the second.
abbrev pub IsWithin : List String → List String → Type 0
IsWithin xs ys = All (λ x. includes ys x ≡ true) xs

-- The list without the first occurrence of a text.
unfoldable pub drop_first : String → List String → List String
drop_first x [] = []
drop_first x (y ∷ ys) = if str_eq y x then ys else y ∷ drop_first x ys

pub includes-distinct_from :
    (seen xs : List String) (x : String)
    → includes (distinct_from seen xs) x ≡ (includes xs x && not (includes seen x))
unfolding distinct_from
includes-distinct_from seen [] x = refl
includes-distinct_from seen (y ∷ ys) x = ground (
  arith,
  str_eq_iff x y,
  includes-distinct_from seen ys x,
  includes-distinct_from (y ∷ seen) ys x,
)

pub distinct_from-Distinct : (seen xs : List String) → Distinct (distinct_from seen xs)
unfolding distinct_from
distinct_from-Distinct seen [] = tt
distinct_from-Distinct seen (x ∷ xs) = elim (Bool-cases (includes seen x)) [
  | inl known ↦ rw known (distinct_from-Distinct seen xs)
  | inr new ↦ rw new (
    ground (arith, includes-distinct_from (x ∷ seen) xs x, str_eq_iff x x),
    distinct_from-Distinct (x ∷ seen) xs,
  )
]

length-drop_first :
    (x : String) (ys : List String)
    → includes ys x ≡ true
    → length ys ≡ length (drop_first x ys) + 1
unfolding drop_first
length-drop_first x [] h = ground (arith, h)
length-drop_first x (y ∷ ys) h =
    ground (arith, h, length-drop_first x ys, str_eq_iff x y, str_eq_iff y x)

includes-drop_first :
    (x z : String) (ys : List String)
    → str_eq z x ≡ false
    → includes (drop_first x ys) z ≡ includes ys z
unfolding drop_first
includes-drop_first x z [] h = refl
includes-drop_first x z (y ∷ ys) h =
    ground (arith, h, includes-drop_first x z ys h, str_eq_iff y x, str_eq_iff z y, str_eq_iff z x)

IsWithin-drop_first :
    (x : String) (xs ys : List String)
    → includes xs x ≡ false
    → IsWithin xs ys
    → IsWithin xs (drop_first x ys)
IsWithin-drop_first x [] ys fresh h = tt
IsWithin-drop_first x (z ∷ xs) ys fresh h = (
  ground (arith, h.0, fresh, str_eq_iff x z, str_eq_iff z x, includes-drop_first x z ys),
  IsWithin-drop_first x xs ys (ground (arith, fresh)) h.1,
)

-- A set within another that is no larger is all of it.
pub no_room :
    (xs ys : List String) (z : String)
    → Distinct xs
    → IsWithin xs ys
    → length ys ≤ length xs
    → includes ys z ≡ true
    → includes xs z ≡ true
no_room [] [] z d h le i = i
no_room [] (y ∷ ys) z d h le i = absurd (omega (arith, le))
no_room (x ∷ xs) ys z d h le i = ground (
  arith,
  i,
  no_room xs (drop_first x ys) z d.1 (IsWithin-drop_first x xs ys d.0 h.1),
  length-drop_first x ys h.0,
  includes-drop_first x z ys,
  le,
)
