-- ===== src/Boolean/Parser.antt =====
-- `_Parser`, `_combine` and `parse_boolean` of src/opencollate/boolean.py. The parser's state is the list
-- of tokens from `self.index` on; a method returns what it returns and the tokens left.
use Prim.Native.String.{String}
use open_collate.Common.{
  ℕ, zero, suc, ◌+◌, Bool, true, false, not, Option, none, some, List, [], ◌∷◌, ◌++◌, Result, ok,
  err, ◌>>=◌, length, if◌then◌else◌,
}
use open_collate.Boolean.Expr.{
  BoolExpr, bool_const, bool_var, bool_not, bool_and, bool_or, bool_xor, Operands, no_more, operand,
  BooleanError, syntax_error, empty_expression, unexpected_token, expected_close, expected_primary,
  index_error, out_of_fuel, Message,
}
use open_collate.Boolean.Tokens.{
  Characters, Kind, const0, const1, name_token, end_token, open_paren, bang, tilde, quote,
  ampersand, star, caret, bar, plus_sign, Token, is_close,
}
use open_collate.Boolean.Scan.{tokenize}

abbrev pub to_operands : List BoolExpr → Operands
to_operands [] = no_more
to_operands (e ∷ es) = operand e (to_operands es)

abbrev pub append_operands : Operands → Operands → Operands
append_operands no_more fs = fs
append_operands (operand e es) fs = operand e (append_operands es fs)

-- The classes that `_combine` is called with.
pub data Connective : Type 0 where
  and_kind or_kind xor_kind : Connective

abbrev pub build : Connective → Operands → BoolExpr
build and_kind es = bool_and es
build or_kind es = bool_or es
build xor_kind es = bool_xor es

-- The operands of an expression of the class, where it is one.
abbrev pub operands_of : Connective → BoolExpr → Option Operands
operands_of and_kind (bool_and es) = some es
operands_of or_kind (bool_or es) = some es
operands_of xor_kind (bool_xor es) = some es
operands_of _ _ = none

abbrev pub extend : BoolExpr → Option Operands → Operands → Operands
extend e none rest = operand e rest
extend e (some es) rest = append_operands es rest

abbrev pub flattened : Connective → List BoolExpr → Operands
flattened kind [] = no_more
flattened kind (e ∷ es) = extend e (operands_of kind e) (flattened kind es)

-- `_combine`
unfoldable pub combine : Connective → List BoolExpr → BoolExpr
combine kind (e ∷ []) = e
combine kind [] = build kind no_more
combine kind (e ∷ (f ∷ es)) = build kind (flattened kind (e ∷ (f ∷ es)))

abbrev pub Tokens : Type 0
Tokens = List Token

abbrev pub Parse : Type 0
Parse = Tokens → Result BooleanError (BoolExpr × Tokens)

-- `self.error(message, token)`
abbrev pub error {ℓ} : {A : Type ℓ} → ℕ → Message → Token → Result BooleanError A
error base message token = err (syntax_error message (base + token.offset))

-- `self.token` with `self.advance()`
abbrev pub advance : Tokens → Result BooleanError (Token × Tokens)
advance [] = err index_error
advance (token ∷ tokens) = ok (token, tokens)

abbrev pub is_kind : (Kind → Bool) → Tokens → Bool
is_kind p [] = false
is_kind p (token ∷ tokens) = p token.kind

abbrev pub is_end : Kind → Bool
is_end end_token = true
is_end _ = false

abbrev pub is_or : Kind → Bool
is_or bar = true
is_or plus_sign = true
is_or _ = false

abbrev pub is_xor : Kind → Bool
is_xor caret = true
is_xor _ = false

abbrev pub is_and : Kind → Bool
is_and ampersand = true
is_and star = true
is_and _ = false

-- `{"NAME", "CONST0", "CONST1", "(", "!", "~"}`
abbrev pub starts_unary : Kind → Bool
starts_unary name_token = true
starts_unary const0 = true
starts_unary const1 = true
starts_unary open_paren = true
starts_unary bang = true
starts_unary tilde = true
starts_unary _ = false

abbrev pub is_inversion : Kind → Bool
is_inversion bang = true
is_inversion tilde = true
is_inversion _ = false

abbrev pub is_quote : Kind → Bool
is_quote quote = true
is_quote _ = false

-- `while self.token.kind in kinds: inversions += 1; self.advance()`
abbrev pub count_kind : (Kind → Bool) → Tokens → Result BooleanError (ℕ × Tokens)
count_kind p [] = err index_error
count_kind p (token ∷ tokens) =
    let rest = count_kind p tokens in
    if p token.kind then (do (n, left) ← rest; ok (suc n, left)) else ok (0, token ∷ tokens)

abbrev pub is_odd : ℕ → Bool
is_odd zero = false
is_odd (suc n) = not (is_odd n)

-- `expected ')'`
abbrev pub close_group : ℕ → BoolExpr → Tokens → Result BooleanError (BoolExpr × Tokens)
close_group base e [] = err index_error
close_group base e (token ∷ tokens) =
    if is_close token.kind then ok (e, tokens) else error base expected_close token

-- `parse_primary`, where `group` is `parse_or`
abbrev pub primary : ℕ → Parse → Token → Tokens → Result BooleanError (BoolExpr × Tokens)
primary base group token tokens = elim token.kind [
  | const0 ↦ ok (bool_const false, tokens)
  | const1 ↦ ok (bool_const true, tokens)
  | name_token ↦ ok (bool_var token.text, tokens)
  | open_paren ↦ (do (e, left) ← group tokens; close_group base e left)
  | _ ↦ error base expected_primary token
]

unfoldable pub parse_primary : ℕ → Parse → Parse
parse_primary base group tokens = do (token, left) ← advance tokens; primary base group token left

unfoldable pub parse_unary : ℕ → Parse → Parse
unfolding parse_primary
parse_unary base group tokens = do
  (before, left) ← count_kind is_inversion tokens
  (e, left') ← parse_primary base group left
  (after, left'') ← count_kind is_quote left'
  ok (if is_odd (before + after) then bool_not e else e, left'')

-- A loop `while self.token.kind in kinds: self.advance(); operands.append(...)`, on fuel.
unfoldable pub more_operands :
    ℕ
    → (Kind → Bool)
    → Parse
    → List BoolExpr
    → Tokens
    → Result BooleanError (List BoolExpr × Tokens)
more_operands fuel p next operands [] = err index_error
more_operands zero p next operands (token ∷ tokens) = err out_of_fuel
more_operands (suc fuel) p next operands (token ∷ tokens) =
    if p token.kind
    then (do (e, left) ← next tokens; more_operands fuel p next (operands ++ e ∷ []) left)
    else ok (operands, token ∷ tokens)

-- The loop of `parse_and`, where adjacency is an operator too.
unfoldable pub more_factors :
    ℕ → Parse → List BoolExpr → Tokens → Result BooleanError (List BoolExpr × Tokens)
more_factors fuel next operands [] = err index_error
more_factors zero next operands (token ∷ tokens) = err out_of_fuel
more_factors (suc fuel) next operands (token ∷ tokens) =
    if is_and token.kind
    then (do (e, left) ← next tokens; more_factors fuel next (operands ++ e ∷ []) left)
    else if starts_unary token.kind
    then (do (e, left) ← next (token ∷ tokens); more_factors fuel next (operands ++ e ∷ []) left)
    else ok (operands, token ∷ tokens)

unfoldable pub parse_and : ℕ → Parse → Parse
unfolding parse_unary more_factors combine
parse_and base group tokens = do
  (e, left) ← parse_unary base group tokens
  (operands, left') ← more_factors (length left) (parse_unary base group) (e ∷ []) left
  ok (combine and_kind operands, left')

unfoldable pub parse_xor : ℕ → Parse → Parse
unfolding parse_and more_operands combine
parse_xor base group tokens = do
  (e, left) ← parse_and base group tokens
  (operands, left') ← more_operands (length left) is_xor (parse_and base group) (e ∷ []) left
  ok (combine xor_kind operands, left')

unfoldable pub parse_or_with : ℕ → Parse → Parse
unfolding parse_xor more_operands combine
parse_or_with base group tokens = do
  (e, left) ← parse_xor base group tokens
  (operands, left') ← more_operands (length left) is_or (parse_xor base group) (e ∷ []) left
  ok (combine or_kind operands, left')

-- `parse_or`, whose groups call it again; on fuel for the nesting.
unfoldable pub parse_or : ℕ → ℕ → Parse
unfolding parse_or_with
parse_or zero base tokens = err out_of_fuel
parse_or (suc fuel) base tokens = parse_or_with base (parse_or fuel base) tokens

-- What must follow the expression: the last token.
abbrev pub at_end : ℕ → BoolExpr → Tokens → Result BooleanError BoolExpr
at_end base e [] = err index_error
at_end base e (token ∷ tokens) =
    if is_end token.kind then ok e else error base unexpected_token token

-- `parse`
unfoldable pub parse : ℕ → Tokens → Result BooleanError BoolExpr
unfolding parse_or
parse base [] = err index_error
parse base (token ∷ tokens) = if is_end token.kind then error base empty_expression token else (do
  (e, left) ← parse_or (suc (length (token ∷ tokens))) base (token ∷ tokens)
  at_end base e left)

unfoldable pub parse_boolean : Characters → String → Result BooleanError BoolExpr
unfolding tokenize parse
parse_boolean ch expression = do (tokens, base) ← tokenize ch expression; parse base tokens
