-- ===== src/Boolean/Truth.antt =====
-- `check_equivalence` (src/opencollate/boolean.py) against what the expressions mean.
use Prim.Native.String.{String}
use open_collate.Common.{
  ◌≡◌, refl, Bool, true, false, some, List, ok, xor_bool, Dict, lookup, name_eq_iff, is_in, union,
  is_in-union, arith,
}
use open_collate.Boolean.Expr.{
  BoolExpr, bool_const, bool_var, bool_not, bool_and, bool_or, bool_xor, Operands, no_more, operand,
  variables, variables_all, evaluate, evaluate_all, evaluate_any, evaluate_xor, meaning,
  conjunction, disjunction, parity,
}

-- The values that a dict gives to the names of a list.
abbrev pub Gives : Dict Bool → (String → Bool) → List String → Type 0
Gives d v names = (n : String) → is_in n names ≡ true → lookup n d ≡ some (v n)

Gives-union_left :
    (d : Dict Bool) (v : String → Bool) (xs ys : List String)
    → Gives d v (union xs ys)
    → Gives d v xs
Gives-union_left d v xs ys h n p = h n (ground (arith, is_in-union n xs ys))

Gives-union_right :
    (d : Dict Bool) (v : String → Bool) (xs ys : List String)
    → Gives d v (union xs ys)
    → Gives d v ys
Gives-union_right d v xs ys h n p = h n (ground (arith, is_in-union n xs ys))

xor_assoc : (a b c : Bool) → xor_bool (xor_bool a b) c ≡ xor_bool a (xor_bool b c)
xor_assoc a b c = ground arith

-- Where the values of all variables are given, `evaluate` returns the meaning.
mutual
  pub evaluate-meaning :
      (d : Dict Bool) (v : String → Bool) (e : BoolExpr)
      → Gives d v (variables e)
      → evaluate d e ≡ ok (meaning v e)
  evaluate-meaning d v (bool_const b) h = refl
  evaluate-meaning d v (bool_var name) h = rw (h name (ground (arith, name_eq_iff name name))) refl
  evaluate-meaning d v (bool_not e) h = rw (evaluate-meaning d v e h) refl
  evaluate-meaning d v (bool_and es) h = evaluate_all-conjunction d v es h
  evaluate-meaning d v (bool_or es) h = evaluate_any-disjunction d v es h
  evaluate-meaning d v (bool_xor es) h = evaluate_xor-parity d v false es h

  evaluate_all-conjunction :
      (d : Dict Bool) (v : String → Bool) (es : Operands)
      → Gives d v (variables_all es)
      → evaluate_all d es ≡ ok (conjunction v es)
  evaluate_all-conjunction d v no_more h = refl
  evaluate_all-conjunction d v (operand e es) h =
      rw
        (
          evaluate-meaning d v e (Gives-union_left d v (variables e) (variables_all es) h),
          evaluate_all-conjunction d v es
              (Gives-union_right d v (variables e) (variables_all es) h),
        )
        (ground arith)

  evaluate_any-disjunction :
      (d : Dict Bool) (v : String → Bool) (es : Operands)
      → Gives d v (variables_all es)
      → evaluate_any d es ≡ ok (disjunction v es)
  evaluate_any-disjunction d v no_more h = refl
  evaluate_any-disjunction d v (operand e es) h =
      rw
        (
          evaluate-meaning d v e (Gives-union_left d v (variables e) (variables_all es) h),
          evaluate_any-disjunction d v es
              (Gives-union_right d v (variables e) (variables_all es) h),
        )
        (ground arith)

  evaluate_xor-parity :
      (d : Dict Bool) (v : String → Bool) (b : Bool) (es : Operands)
      → Gives d v (variables_all es)
      → evaluate_xor d b es ≡ ok (xor_bool b (parity v es))
  evaluate_xor-parity d v b no_more h = ground arith
  evaluate_xor-parity d v b (operand e es) h =
      rw
        (
          evaluate-meaning d v e (Gives-union_left d v (variables e) (variables_all es) h),
          evaluate_xor-parity d v (xor_bool b (meaning v e)) es
              (Gives-union_right d v (variables e) (variables_all es) h),
          xor_assoc b (meaning v e) (parity v es),
        )
        refl
