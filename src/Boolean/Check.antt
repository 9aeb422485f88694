-- ===== src/Boolean/Check.antt =====
-- `check_equivalence` of src/opencollate/boolean.py on texts and expressions.
use Prim.Native.String.{String}
use open_collate.Common.{ℤ, pos, negsuc, Result, ok, err, ◌>>=◌, Dict}
use open_collate.Boolean.Expr.{BoolExpr, BooleanError, bad_limit}
use open_collate.Boolean.Tokens.{Characters}
use open_collate.Boolean.Parser.{parse_boolean}
use open_collate.Boolean.Equivalence.{EquivalenceResult, check_equivalence}

-- `left: BoolExpr | str`
pub data Side : Type 0 where
  as_expression : BoolExpr → Side
  as_text : String → Side

abbrev pub to_expression : Characters → Side → Result BooleanError BoolExpr
to_expression ch (as_expression e) = ok e
to_expression ch (as_text s) = parse_boolean ch s

-- The limit is tested before the sides are parsed.
unfoldable pub check_sides :
    Characters → Side → Side → ℤ → Dict String → Result BooleanError EquivalenceResult
unfolding check_equivalence
check_sides ch left right (negsuc n) aliases = err bad_limit
check_sides ch left right (pos limit) aliases = do
  left_expr ← to_expression ch left
  right_expr ← to_expression ch right
  check_equivalence left_expr right_expr (pos limit) aliases
