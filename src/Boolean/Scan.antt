-- ===== src/Boolean/Scan.antt =====
-- The loop of `_tokenize` (src/opencollate/boolean.py) and its limits.
use Prim.Native.Char.{Char, code}
use Prim.Native.String.{String, count}
use open_collate.Common.{
  ℕ, zero, suc, ◌+◌, ◌-◌, Bool, true, false, not, ◌&&◌, ◌||◌, Option, none, some, List, [], ◌∷◌,
  Result, ok, err, ◌>>=◌, or_raise, length, get_elem?, ltb, ◌==◌, if◌then◌else◌, name_eq,
}
use open_collate.Boolean.Expr.{
  BooleanError, syntax_error, too_many_characters, one_bit_only, empty_escape, constants_only,
  unsupported_character, too_many_tokens, too_deep, index_error,
}
use open_collate.Boolean.Tokens.{
  Characters, Kind, const0, const1, name_token, end_token, Token, operator_at, operators, is_one_of,
  strip_outer_quotes, is_open, is_close,
}

abbrev pub max_expression_characters : ℕ
max_expression_characters = 65_536

abbrev pub max_expression_tokens : ℕ
max_expression_tokens = 4_096

abbrev pub max_group_nesting : ℕ
max_group_nesting = 128

-- The longest prefix of characters that pass a test, and the rest.
unfoldable pub take_while : (Char → Bool) → String → String × String
take_while p String.[] = (String.[], String.[])
take_while p (String.◌∷◌ c s) =
    let (a, b) = take_while p s in if p c then (String.◌∷◌ c a, b) else (String.[], String.◌∷◌ c s)

-- `s[:n]`
abbrev pub take_text : ℕ → String → String
take_text zero s = String.[]
take_text (suc n) String.[] = String.[]
take_text (suc n) (String.◌∷◌ c s) = String.◌∷◌ c (take_text n s)

-- The text after a character that passes the test.
abbrev pub after_one : (ℕ → Bool) → Option String → Option String
after_one p none = none
after_one p (some String.[]) = none
after_one p (some (String.◌∷◌ c s)) = if p (code c) then some s else none

-- The text after a character that may be there.
abbrev pub after_optional : (ℕ → Bool) → Option String → Option String
after_optional p none = none
after_optional p (some String.[]) = some String.[]
after_optional p (some (String.◌∷◌ c s)) = if p (code c) then some s else some (String.◌∷◌ c s)

abbrev pub is_found : Option String → Bool
is_found none = false
is_found (some s) = true

-- `[0-9a-fA-F_xXzZ?]`
abbrev pub is_literal_digit : ℕ → Bool
is_literal_digit c = is_one_of c "0123456789abcdefABCDEF_xXzZ?"

abbrev pub bit_at_end : Option String → Option Bool
bit_at_end none = none
bit_at_end (some String.[]) = none
bit_at_end (some (String.◌∷◌ c s)) =
    if (c' == 48 || c' == 49) && not (is_found (after_one is_literal_digit (some s)))
    then some (c' == 49)
    else none
  where
    c' : ℕ
    c' = code c

-- `_SIZED_BOOLEAN.match(source, index)`, its one group as a bit
unfoldable pub sized_boolean : String → Option Bool
sized_boolean s = bit_at_end (
    after_one (λ c. is_one_of c "bBhH")
      (after_one (λ c. c == 39) (after_one (λ c. c == 49) (some s))))

abbrev after_digits : String × String → Option String
after_digits (String.[], s) = none
after_digits (String.◌∷◌ c a, s) = some s

-- `_SIZED_LITERAL.match(source, index) is not None`
unfoldable pub is_sized_literal : Characters → String → Bool
unfolding take_while
is_sized_literal ch s = is_found (
    after_one is_literal_digit (
      after_one (λ c. is_one_of c "bBoOdDhH")
        (after_optional (λ c. is_one_of c "sS")
          (after_one (λ c. c == 39) (after_digits (take_while ch.is_decimal s))))))

-- `text.lower().replace("_", "")`
unfoldable pub without_underscores : String → String
without_underscores String.[] = String.[]
without_underscores (String.◌∷◌ c s) =
    let rest = without_underscores s in if code c == 95 then rest else String.◌∷◌ c rest

abbrev pub all_decimal : Characters → String → Bool
all_decimal ch String.[] = true
all_decimal ch (String.◌∷◌ c s) = ch.is_decimal c && all_decimal ch s

-- The token of a word of name characters, which is not empty.
unfoldable pub word_token : Characters → String → ℕ → ℕ → Result BooleanError Token
unfolding without_underscores
word_token ch text base start =
    let lowered = without_underscores (ch.lower text) in
    if name_eq lowered "0" || (name_eq lowered "1'b0" || name_eq lowered "1'h0")
    then ok (record { kind = const0; text = text; offset = start })
    else if name_eq lowered "1" || (name_eq lowered "1'b1" || name_eq lowered "1'h1")
    then ok (record { kind = const1; text = text; offset = start })
    else if all_decimal ch text
    then err (syntax_error constants_only (base + start))
    else ok (record { kind = name_token; text = text; offset = start })

-- `char.isalnum() or char in "_.$:/[]<>-"`
abbrev pub is_word : Characters → Char → Bool
is_word ch c = ch.is_alnum c || is_one_of (code c) "_.$:/[]<>-"

-- The token of an escaped identifier, from what follows the backslash.
abbrev pub escaped_token : ℕ → ℕ → Char → String → Result BooleanError (Option Token × ℕ)
escaped_token base start c String.[] = err (syntax_error empty_escape (base + start))
escaped_token base start c (String.◌∷◌ d s) = ok (
  some (record { kind = name_token; text = String.◌∷◌ c (String.◌∷◌ d s); offset = start }),
  count (String.◌∷◌ d s),
)

-- The token of an operator, a word, or neither.
unfoldable pub other_token :
    Characters → ℕ → ℕ → Char → String → Option Kind → Result BooleanError (Option Token × ℕ)
unfolding take_while word_token
other_token ch base index c s (some kind) =
    ok (some (record { kind = kind; text = String.◌∷◌ c String.[]; offset = index }), 0)
other_token ch base index c s none =
    if code c == 92
    then escaped_token base index c (take_while (λ d. not (ch.is_space d)) s).0
    else if is_word ch c
    then (do
      token ← word_token ch (String.◌∷◌ c (take_while (is_word ch) s).0) base index
      ok (some token, count (take_while (is_word ch) s).0))
    else err (syntax_error unsupported_character (base + index))

abbrev pub bit_token : ℕ → String → Bool → Token
bit_token index s true = record { kind = const1; text = take_text 4 s; offset = index }
bit_token index s false = record { kind = const0; text = take_text 4 s; offset = index }

unfoldable pub sized_or_other :
    Characters → ℕ → ℕ → Char → String → Option Bool → Result BooleanError (Option Token × ℕ)
unfolding is_sized_literal other_token
sized_or_other ch base index c s (some bit) = ok (some (bit_token index (String.◌∷◌ c s) bit), 3)
sized_or_other ch base index c s none =
    if is_sized_literal ch (String.◌∷◌ c s)
    then err (syntax_error one_bit_only (base + index))
    else other_token ch base index c s (operator_at operators (code c))

-- One round of the loop: the token, if any, and how many characters more than one it takes.
unfoldable pub scan_one :
    Characters → ℕ → ℕ → Char → String → Result BooleanError (Option Token × ℕ)
unfolding sized_boolean sized_or_other
scan_one ch base index c s =
    if ch.is_space c
    then ok (none, 0)
    else sized_or_other ch base index c s (sized_boolean (String.◌∷◌ c s))

abbrev pub put_first : Option Token → List Token → List Token
put_first none tokens = tokens
put_first (some token) tokens = token ∷ tokens

-- `while index < len(source)`, where `skip` characters belong to the token before, and the last token.
unfoldable pub scan : Characters → ℕ → ℕ → ℕ → String → Result BooleanError (List Token)
unfolding scan_one
scan ch base skip index String.[] =
    ok ((record { kind = end_token; text = String.[]; offset = index }) ∷ [])
scan ch base (suc skip) index (String.◌∷◌ c s) = scan ch base skip (index + 1) s
scan ch base zero index (String.◌∷◌ c s) = do
  (token, skip) ← scan_one ch base index c s
  tokens ← scan ch base skip (index + 1) s
  ok (put_first token tokens)

-- `nesting`, after a token
abbrev pub nesting_after : ℕ → Kind → ℕ
nesting_after nesting kind =
    if is_open kind then nesting + 1 else if is_close kind then nesting - 1 else nesting

-- `nesting > _MAX_GROUP_NESTING`, which is tested after an opening token
abbrev pub is_too_deep : ℕ → Kind → Bool
is_too_deep nesting kind = is_open kind && ltb max_group_nesting (nesting + 1)

-- The nesting check, from a nesting on.
unfoldable pub check_nesting : ℕ → ℕ → List Token → Result {0, 0} BooleanError Unit
check_nesting base nesting [] = ok tt
check_nesting base nesting (token ∷ tokens) =
    let rest = check_nesting base (nesting_after nesting token.kind) tokens in
    if is_too_deep nesting token.kind
    then err (syntax_error too_deep (base + token.offset))
    else rest

unfoldable pub check_count : ℕ → List Token → Result {0, 0} BooleanError Unit
check_count base tokens =
    if ltb max_expression_tokens (length tokens - 1)
    then (do
      token ← or_raise index_error (get_elem? tokens max_expression_tokens)
      err (syntax_error too_many_tokens (base + token.offset)))
    else ok tt

unfoldable pub scan_source : Characters → String × ℕ → Result BooleanError (List Token × ℕ)
unfolding scan check_count check_nesting
scan_source ch (source, base) = do
  tokens ← scan ch base 0 0 source
  _ ← check_count base tokens
  _ ← check_nesting base 0 tokens
  ok (tokens, base)

unfoldable pub tokenize : Characters → String → Result BooleanError (List Token × ℕ)
unfolding strip_outer_quotes scan_source
tokenize ch expression =
    if ltb max_expression_characters (count expression)
    then err (syntax_error too_many_characters max_expression_characters)
    else scan_source ch (strip_outer_quotes ch expression)
