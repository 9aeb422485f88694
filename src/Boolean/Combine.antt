-- ===== src/Boolean/Combine.antt =====
-- `_combine` (src/opencollate/boolean.py) keeps the meaning of its operands.
use Prim.Native.String.{String}
use open_collate.Common.{
  ◌≡◌, refl, sym, ap, ◌∙◌, Bool, true, false, ◌&&◌, ◌||◌, List, [], ◌∷◌, ◌++◌, xor_bool, arith,
}
use open_collate.Boolean.Expr.{
  BoolExpr, bool_const, bool_var, bool_not, bool_and, bool_or, bool_xor, Operands, no_more, operand,
  meaning, conjunction, disjunction, parity,
}
use open_collate.Boolean.Parser.{
  append_operands, Connective, and_kind, or_kind, xor_kind, build, operands_of, extend, flattened,
  combine,
}

-- What a connective says of two values, and of none.
abbrev pub join : Connective → Bool → Bool → Bool
join and_kind a b = a && b
join or_kind a b = a || b
join xor_kind a b = xor_bool a b

abbrev pub neutral : Connective → Bool
neutral and_kind = true
neutral or_kind = false
neutral xor_kind = false

abbrev joined : (String → Bool) → Connective → Operands → Bool
joined v and_kind es = conjunction v es
joined v or_kind es = disjunction v es
joined v xor_kind es = parity v es

-- A connective over the operands, from the first to the last.
abbrev pub join_all : (String → Bool) → Connective → List BoolExpr → Bool
join_all v kind [] = neutral kind
join_all v kind (e ∷ es) = join kind (meaning v e) (join_all v kind es)

pub join_assoc :
    (kind : Connective) (a b c : Bool) → join kind (join kind a b) c ≡ join kind a (join kind b c)
join_assoc and_kind a b c = ground arith
join_assoc or_kind a b c = ground arith
join_assoc xor_kind a b c = ground arith

pub join-neutral : (kind : Connective) (a : Bool) → join kind a (neutral kind) ≡ a
join-neutral and_kind a = ground arith
join-neutral or_kind a = ground arith
join-neutral xor_kind a = ground arith

neutral-join : (kind : Connective) (a : Bool) → join kind (neutral kind) a ≡ a
neutral-join and_kind a = ground arith
neutral-join or_kind a = ground arith
neutral-join xor_kind a = ground arith

joined-none : (v : String → Bool) (kind : Connective) → joined v kind no_more ≡ neutral kind
joined-none v and_kind = refl
joined-none v or_kind = refl
joined-none v xor_kind = refl

joined-operand :
    (v : String → Bool) (kind : Connective) (e : BoolExpr) (es : Operands)
    → joined v kind (operand e es) ≡ join kind (meaning v e) (joined v kind es)
joined-operand v and_kind e es = refl
joined-operand v or_kind e es = refl
joined-operand v xor_kind e es = refl

joined-append :
    (v : String → Bool) (kind : Connective) (es fs : Operands)
    → joined v kind (append_operands es fs) ≡ join kind (joined v kind es) (joined v kind fs)
joined-append v kind no_more fs = rw (joined-none v kind, neutral-join kind (joined v kind fs)) refl
joined-append v kind (operand e es) fs =
    rw
      (
        joined-operand v kind e (append_operands es fs),
        joined-operand v kind e es,
        joined-append v kind es fs,
        join_assoc kind (meaning v e) (joined v kind es) (joined v kind fs),
      )
      refl

joined-extend :
    (v : String → Bool) (kind : Connective) (e : BoolExpr) (rest : Operands)
    → joined v kind (extend e (operands_of kind e) rest)
      ≡ join kind (meaning v e) (joined v kind rest)
joined-extend v and_kind (bool_const b) rest = refl
joined-extend v and_kind (bool_var n) rest = refl
joined-extend v and_kind (bool_not e) rest = refl
joined-extend v and_kind (bool_and es) rest = joined-append v and_kind es rest
joined-extend v and_kind (bool_or es) rest = refl
joined-extend v and_kind (bool_xor es) rest = refl
joined-extend v or_kind (bool_const b) rest = refl
joined-extend v or_kind (bool_var n) rest = refl
joined-extend v or_kind (bool_not e) rest = refl
joined-extend v or_kind (bool_and es) rest = refl
joined-extend v or_kind (bool_or es) rest = joined-append v or_kind es rest
joined-extend v or_kind (bool_xor es) rest = refl
joined-extend v xor_kind (bool_const b) rest = refl
joined-extend v xor_kind (bool_var n) rest = refl
joined-extend v xor_kind (bool_not e) rest = refl
joined-extend v xor_kind (bool_and es) rest = refl
joined-extend v xor_kind (bool_or es) rest = refl
joined-extend v xor_kind (bool_xor es) rest = joined-append v xor_kind es rest

joined-flattened :
    (v : String → Bool) (kind : Connective) (es : List BoolExpr)
    → joined v kind (flattened kind es) ≡ join_all v kind es
joined-flattened v kind [] = joined-none v kind
joined-flattened v kind (e ∷ es) =
    joined-extend v kind e (flattened kind es)
    ∙ ap (join kind (meaning v e)) (joined-flattened v kind es)

meaning-build :
    (v : String → Bool) (kind : Connective) (es : Operands)
    → meaning v (build kind es) ≡ joined v kind es
meaning-build v and_kind es = refl
meaning-build v or_kind es = refl
meaning-build v xor_kind es = refl

-- The expression that `_combine` makes, flattened or not, means what the connective says of its operands.
pub meaning-combine :
    (v : String → Bool) (kind : Connective) (es : List BoolExpr)
    → meaning v (combine kind es) ≡ join_all v kind es
unfolding combine
meaning-combine v kind [] = meaning-build v kind no_more ∙ joined-none v kind
meaning-combine v kind (e ∷ []) = sym (join-neutral kind (meaning v e))
meaning-combine v kind (e ∷ (f ∷ es)) =
    meaning-build v kind (flattened kind (e ∷ (f ∷ es))) ∙ joined-flattened v kind (e ∷ (f ∷ es))

-- One operand more.
pub join_all-append :
    (v : String → Bool) (kind : Connective) (es : List BoolExpr) (e : BoolExpr)
    → join_all v kind (es ++ e ∷ []) ≡ join kind (join_all v kind es) (meaning v e)
join_all-append v kind [] e =
    join-neutral kind (meaning v e) ∙ sym (neutral-join kind (meaning v e))
join_all-append v kind (f ∷ es) e =
    ap (join kind (meaning v f)) (join_all-append v kind es e)
    ∙ sym (join_assoc kind (meaning v f) (join_all v kind es) (meaning v e))
