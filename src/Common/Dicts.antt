-- ===== src/Common/Dicts.antt =====
-- Python's dicts with string keys, in the order of insertion.
use Prim.Native.String.{String}
use mathlib.Core.Path.{◌≡◌, refl}
use mathlib.Core.Logic.{◌↔◌}
use mathlib.Core.Bool.{Bool, true, false, ◌||◌}
use mathlib.Core.Option.{Option, none, some}
use mathlib.Core.List.{List, [], ◌∷◌}
use native.Mathlib.Omega.{arith}
use text.Mathlib.Text.{◌==◌ as same_text}
use text.Mathlib.TextEquality.{eq_iff}
use open_collate.Common.Tests.{if◌then◌else◌}

-- `s == t`
abbrev pub name_eq : String → String → Bool
name_eq = same_text

pub name_eq_iff : (s t : String) → (name_eq s t ≡ true) ↔ (s ≡ t)
name_eq_iff = eq_iff

pub name_eq_refl : (s : String) → name_eq s s ≡ true
name_eq_refl s = (eq_iff s s).1 refl

-- `name in names`
abbrev pub is_in : String → List String → Bool
is_in name [] = false
is_in name (x ∷ xs) = name_eq x name || is_in name xs

test_dec : (s t : String) (b : Bool) → name_eq s t ≡ b → Dec (s ≡ t)
test_dec s t true e = yes ((eq_iff s t).0 e)
test_dec s t false e = no (λ same. ground (arith, eq_iff s t))

pub String-discrete : Discrete String
String-discrete s t = test_dec s t (name_eq s t) refl

abbrev pub Dict {ℓ} : Type ℓ → Type ℓ
Dict A = List (String × A)

module _ {ℓ} {A : Type ℓ} where
  abbrev pub keys : Dict A → List String
  keys [] = []
  keys ((k, a) ∷ d) = k ∷ keys d

  -- `d.get(name)`
  abbrev pub lookup : String → Dict A → Option A
  lookup name [] = none
  lookup name ((k, a) ∷ d) = if name_eq k name then some a else lookup name d

  -- `name in d`
  abbrev pub has_key : String → Dict A → Bool
  has_key name d = is_in name (keys d)

  -- `d[name] = a`: a key that is there keeps its place.
  abbrev pub put : String → A → Dict A → Dict A
  put name a [] = (name, a) ∷ []
  put name a ((k, b) ∷ d) =
      let rest = put name a d in if name_eq k name then (k, a) ∷ d else (k, b) ∷ rest

  pub lookup-put :
      (name : String) (a : A) (d : Dict A) (other : String)
      → lookup other (put name a d) ≡ (if name_eq name other then some a else lookup other d)
  lookup-put name a [] other = refl
  lookup-put name a ((k, b) ∷ d) other =
      ground (arith, eq_iff k name, eq_iff k other, eq_iff name other, lookup-put name a d other)

  -- A key is there just where the dict has a value.
  pub lookup-has_key :
      (name : String) (d : Dict A) → (has_key name d ≡ false) ↔ (lookup name d ≡ none)
  lookup-has_key name [] = (λ _. refl, λ _. refl)
  lookup-has_key name ((k, a) ∷ d) = ground (arith, lookup-has_key name d)
