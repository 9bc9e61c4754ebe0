-- ===== src/Prelude/TextSet.antt =====
-- Go maps used as sets of texts, `map[string]struct{}`, as lists with no order that matters.
use Prim.Native.String.{String}
use mathlib.Core.Path.{◌≡◌, refl}
use mathlib.Core.Bool.{Bool, true, false, ◌||◌, ◌&&◌, not}
use mathlib.Core.List.{List, [], ◌∷◌, ◌++◌}
use native.Mathlib.Omega.{arith}
use text.Mathlib.Text.{◌==◌ as str_eq}
use text.Mathlib.TextEquality.{eq_iff}
use osm_device_adapter.Prelude.Tests.{if◌then◌else◌}

unfoldable pub member : String → List String → Bool
member k [] = false
member k (x ∷ xs) = str_eq x k || member k xs

-- `set[k] = struct{}{}`
unfoldable pub add : String → List String → List String
add k xs = if member k xs then xs else k ∷ xs

-- `delete(set, k)`
unfoldable pub remove : String → List String → List String
remove k [] = []
remove k (x ∷ xs) = let rest = remove k xs in if str_eq x k then rest else x ∷ rest

-- `len(set) == 0`
abbrev pub is_empty : List String → Bool
is_empty [] = true
is_empty (x ∷ xs) = false

pub member-add :
    (k j : String) (xs : List String) → member j (add k xs) ≡ (str_eq k j || member j xs)
unfolding add member
member-add k j xs = ground (arith, member-of_eq k j xs)
  where
    member-of_eq : (a b : String) (ys : List String) → str_eq a b ≡ true → member a ys ≡ member b ys
    member-of_eq a b ys e = ground (arith, eq_iff a b)

pub member-remove :
    (k j : String) (xs : List String) → member j (remove k xs) ≡ (not (str_eq k j) && member j xs)
unfolding remove member
member-remove k j [] = ground arith
member-remove k j (x ∷ xs) =
    ground (arith, eq_iff x k, eq_iff x j, eq_iff k j, member-remove k j xs)

pub is_empty-add : (k : String) (xs : List String) → is_empty (add k xs) ≡ false
unfolding add member
is_empty-add k [] = refl
is_empty-add k (x ∷ xs) = ground arith

pub member-append :
    (k : String) (xs ys : List String) → member k (xs ++ ys) ≡ (member k xs || member k ys)
unfolding member
member-append k [] ys = refl
member-append k (x ∷ xs) ys = ground (arith, member-append k xs ys)

-- An empty set has no members.
pub member-of_empty : (k : String) (xs : List String) → is_empty xs ≡ true → member k xs ≡ false
unfolding member
member-of_empty k [] e = refl
member-of_empty k (x ∷ xs) e = cc
