-- ===== src/Common/Names.antt =====
-- Python's sets of strings, as lists without order, and `sorted` on strings.
use Prim.Native.Nat.{Ordering}
use Prim.Native.String.{String, compare}
use mathlib.Core.Path.{◌≡◌, refl}
use mathlib.Core.Bool.{Bool, true, false, ◌||◌}
use mathlib.Core.List.{List, [], ◌∷◌, map}
use native.Mathlib.Omega.{arith}
use open_collate.Common.Tests.{if◌then◌else◌}
use open_collate.Common.Dicts.{name_eq, name_eq_iff, is_in}

-- `s <= t`
abbrev pub name_le : String → String → Bool
name_le s t = elim (compare s t) [ Ordering.gt ↦ false | _ ↦ true ]

-- `names | {name}`
abbrev pub with_name : String → List String → List String
with_name name names = if is_in name names then names else name ∷ names

-- `names | more`
abbrev pub union : List String → List String → List String
union names [] = names
union names (x ∷ more) = with_name x (union names more)

-- `set(names)`
abbrev pub to_set : List String → List String
to_set names = union [] names

abbrev pub insert : String → List String → List String
insert x [] = x ∷ []
insert x (y ∷ ys) = let rest = insert x ys in if name_le x y then x ∷ y ∷ ys else y ∷ rest

-- `sorted(names)`
abbrev pub sorted : List String → List String
sorted [] = []
sorted (x ∷ xs) = insert x (sorted xs)

pub is_in-with_name :
    (n name : String) (names : List String)
    → is_in n (with_name name names) ≡ (name_eq name n || is_in n names)
is_in-with_name n name names = ground (arith, name_eq_iff name n)

pub is_in-union :
    (n : String) (names more : List String)
    → is_in n (union names more) ≡ (is_in n more || is_in n names)
is_in-union n names [] = refl
is_in-union n names (x ∷ more) =
    ground (arith, is_in-with_name n x (union names more), is_in-union n names more)

is_in-insert :
    (n x : String) (ys : List String) → is_in n (insert x ys) ≡ (name_eq x n || is_in n ys)
is_in-insert n x [] = refl
is_in-insert n x (y ∷ ys) = ground (arith, is_in-insert n x ys)

pub is_in-sorted : (n : String) (xs : List String) → is_in n (sorted xs) ≡ is_in n xs
is_in-sorted n [] = refl
is_in-sorted n (x ∷ xs) = ground (arith, is_in-insert n x (sorted xs), is_in-sorted n xs)

-- What is in a list is in its image.
pub is_in-map :
    (f : String → String) (n : String) (names : List String)
    → is_in n names ≡ true
    → is_in (f n) (map f names) ≡ true
is_in-map f n [] h = cc
is_in-map f n (x ∷ names) h =
    ground (arith, name_eq_iff x n, name_eq_iff (f x) (f n), is_in-map f n names)
