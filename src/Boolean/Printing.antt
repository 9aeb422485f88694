-- ===== src/Boolean/Printing.antt =====
-- `__str__` of the expressions of src/opencollate/boolean.py.
use Prim.Native.String.{String, ◌++◌ as joined}
use open_collate.Common.{true, false}
use open_collate.Boolean.Expr.{
  BoolExpr, bool_const, bool_var, bool_not, bool_and, bool_or, bool_xor, Operands, no_more, operand,
}

abbrev mutual
  pub show : BoolExpr → String
  show (bool_const true) = "1"
  show (bool_const false) = "0"
  show (bool_var name) = name
  show (bool_not e) = joined "!(" (joined (show e) ")")
  show (bool_and es) = joined "(" (joined (show_all " & " es) ")")
  show (bool_or es) = joined "(" (joined (show_all " | " es) ")")
  show (bool_xor es) = joined "(" (joined (show_all " ^ " es) ")")

  -- `separator.join(map(str, operands))`
  pub show_all : String → Operands → String
  show_all separator no_more = ""
  show_all separator (operand e no_more) = show e
  show_all separator (operand e (operand f es)) =
      joined (show e) (joined separator (show_all separator (operand f es)))
