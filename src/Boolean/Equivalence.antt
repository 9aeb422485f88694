-- ===== src/Boolean/Equivalence.antt =====
-- `check_equivalence` of src/opencollate/boolean.py: the bounded truth table.
use Prim.Native.String.{String}
use open_collate.Common.{
  ℕ, zero, suc, ◌+◌, ℤ, pos, negsuc, Bool, true, false, Option, none, some, List, [], ◌∷◌, ◌++◌,
  map, Result, ok, err, ◌>>=◌, or_raise, length, ltb, if◌then◌else◌, xor_bool, Dict, lookup, put,
  union, to_set, sorted,
}
use open_collate.Boolean.Expr.{
  BoolExpr, BooleanError, bad_limit, length_mismatch, missing_value, variables, evaluate,
}

-- The texts of `reason`.
pub data Reason : Type 0 where
  too_many_variables : ℕ → ℕ → Reason
  functions_differ : Reason

pub record EquivalenceResult : Type 0 where
  pub equivalent : Option Bool
  pub variables : List String
  pub checked_assignments : ℕ
  pub counterexample : Option (Dict Bool)
  pub reason : Option Reason

-- `product((False, True), repeat=n)`
unfoldable pub truth_rows : ℕ → List (List Bool)
truth_rows zero = [] ∷ []
truth_rows (suc n) =
    map (λ bits. false ∷ bits) (truth_rows n) ++ map (λ bits. true ∷ bits) (truth_rows n)

-- `dict(zip(variables, bits, strict=True))`, filled from the left
unfoldable pub zip_strict : List String → List Bool → Dict Bool → Result BooleanError (Dict Bool)
zip_strict [] [] d = ok d
zip_strict (v ∷ vs) (b ∷ bits) d = zip_strict vs bits (put v b d)
zip_strict [] (b ∷ bits) d = err length_mismatch
zip_strict (v ∷ vs) [] d = err length_mismatch

-- `alias_map.get(name, name)`
abbrev pub or_name : String → Option String → String
or_name name none = name
or_name name (some other) = other

abbrev pub canonical : Dict String → String → String
canonical aliases name = or_name name (lookup name aliases)

-- `{name: canonical_values[alias_map.get(name, name)] for name in names}`
unfoldable pub native_values :
    Dict String → Dict Bool → List String → Result BooleanError (Dict Bool)
native_values aliases values [] = ok []
native_values aliases values (name ∷ names) = do
  b ← or_raise (missing_value name) (lookup (canonical aliases name) values)
  rest ← native_values aliases values names
  ok (put name b rest)

-- `left_expr.evaluate(left_values) != right_expr.evaluate(right_values)`
unfoldable pub rows_differ :
    BoolExpr → BoolExpr → Dict String → Dict Bool → Result BooleanError Bool
unfolding native_values
rows_differ left right aliases values = do
  left_values ← native_values aliases values (variables left)
  right_values ← native_values aliases values (variables right)
  a ← evaluate left_values left
  b ← evaluate right_values right
  ok (xor_bool a b)

-- The loop over the rows of the truth table.
unfoldable pub check_rows :
    BoolExpr
    → BoolExpr
    → Dict String
    → List String
    → ℕ
    → List (List Bool)
    → Result BooleanError EquivalenceResult
unfolding zip_strict rows_differ
check_rows left right aliases names checked [] = ok (record {
  equivalent = some true;
  variables = names;
  checked_assignments = checked;
  counterexample = none;
  reason = none;
})
check_rows left right aliases names checked (bits ∷ rows) = do
  values ← zip_strict names bits []
  differ ← rows_differ left right aliases values
  if differ
      then ok (record {
        equivalent = some false;
        variables = names;
        checked_assignments = checked + 1;
        counterexample = some values;
        reason = some functions_differ;
      })
      else check_rows left right aliases names (checked + 1) rows

-- `variables`, the canonical names of both sides
abbrev pub canonical_names : BoolExpr → BoolExpr → Dict String → List String
canonical_names left right aliases =
    sorted (to_set (map (canonical aliases) (union (variables left) (variables right))))

unfoldable pub compare_names :
    BoolExpr → BoolExpr → ℕ → Dict String → List String → Result BooleanError EquivalenceResult
unfolding truth_rows check_rows
compare_names left right limit aliases names =
    if ltb limit (length names)
    then ok (record {
      equivalent = none;
      variables = names;
      checked_assignments = 0;
      counterexample = none;
      reason = some (too_many_variables (length names) limit);
    })
    else check_rows left right aliases names 0 (truth_rows (length names))

-- On expressions; a text is parsed first.
unfoldable pub check_equivalence :
    BoolExpr → BoolExpr → ℤ → Dict String → Result BooleanError EquivalenceResult
unfolding compare_names
check_equivalence left right (negsuc n) aliases = err bad_limit
check_equivalence left right (pos limit) aliases =
    compare_names left right limit aliases (canonical_names left right aliases)
