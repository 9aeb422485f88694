-- ===== src/Boolean/Expr.antt =====
-- The Boolean expressions of src/opencollate/boolean.py: `BoolExpr` and its subclasses, `evaluate` and
-- `variables`, and the errors of the file.
use Prim.Native.String.{String}
use open_collate.Common.{
  ℕ, Bool, true, false, not, ◌&&◌, ◌||◌, List, [], ◌∷◌, Result, ok, ◌>>=◌, or_raise, if◌then◌else◌,
  xor_bool, Dict, lookup, union,
}

-- The message of a `BooleanSyntaxError`.
pub data Message : Type 0 where
  too_many_characters one_bit_only empty_escape constants_only unsupported_character
        too_many_tokens :
      Message
  too_deep empty_expression unexpected_token expected_close expected_primary : Message

-- `BooleanSyntaxError` with its offset, and Python's own exceptions; `out_of_fuel` is the model's.
pub data BooleanError : Type 0 where
  syntax_error : Message → ℕ → BooleanError
  missing_value : String → BooleanError
  bad_limit index_error length_mismatch out_of_fuel : BooleanError

mutual
  pub data BoolExpr : Type 0 where
    bool_const : Bool → BoolExpr
    bool_var : String → BoolExpr
    bool_not : BoolExpr → BoolExpr
    bool_and bool_or bool_xor : Operands → BoolExpr

  -- `operands: tuple[BoolExpr, ...]`
  pub data Operands : Type 0 where
    no_more : Operands
    operand : BoolExpr → Operands → Operands

abbrev mutual
  -- `evaluate(values)`
  pub evaluate : Dict Bool → BoolExpr → Result BooleanError Bool
  evaluate values (bool_const b) = ok b
  evaluate values (bool_var name) = or_raise (missing_value name) (lookup name values)
  evaluate values (bool_not e) = do b ← evaluate values e; ok (not b)
  evaluate values (bool_and es) = evaluate_all values es
  evaluate values (bool_or es) = evaluate_any values es
  evaluate values (bool_xor es) = evaluate_xor values false es

  -- `all(...)`, which stops at the first false operand
  pub evaluate_all : Dict Bool → Operands → Result BooleanError Bool
  evaluate_all values no_more = ok true
  evaluate_all values (operand e es) = do
    b ← evaluate values e
    if b then evaluate_all values es else ok false

  -- `any(...)`
  pub evaluate_any : Dict Bool → Operands → Result BooleanError Bool
  evaluate_any values no_more = ok false
  evaluate_any values (operand e es) = do
    b ← evaluate values e
    if b then ok true else evaluate_any values es

  -- `result ^= operand.evaluate(values)`
  pub evaluate_xor : Dict Bool → Bool → Operands → Result BooleanError Bool
  evaluate_xor values result no_more = ok result
  evaluate_xor values result (operand e es) = do
    b ← evaluate values e
    evaluate_xor values (xor_bool result b) es

abbrev mutual
  -- `variables()`
  pub variables : BoolExpr → List String
  variables (bool_const b) = []
  variables (bool_var name) = name ∷ []
  variables (bool_not e) = variables e
  variables (bool_and es) = variables_all es
  variables (bool_or es) = variables_all es
  variables (bool_xor es) = variables_all es

  -- `_variables`
  pub variables_all : Operands → List String
  variables_all no_more = []
  variables_all (operand e es) = union (variables e) (variables_all es)

-- What an expression says of an assignment of all names.
abbrev mutual
  pub meaning : (String → Bool) → BoolExpr → Bool
  meaning v (bool_const b) = b
  meaning v (bool_var name) = v name
  meaning v (bool_not e) = not (meaning v e)
  meaning v (bool_and es) = conjunction v es
  meaning v (bool_or es) = disjunction v es
  meaning v (bool_xor es) = parity v es

  pub conjunction : (String → Bool) → Operands → Bool
  conjunction v no_more = true
  conjunction v (operand e es) = meaning v e && conjunction v es

  pub disjunction : (String → Bool) → Operands → Bool
  disjunction v no_more = false
  disjunction v (operand e es) = meaning v e || disjunction v es

  pub parity : (String → Bool) → Operands → Bool
  parity v no_more = false
  parity v (operand e es) = xor_bool (meaning v e) (parity v es)
