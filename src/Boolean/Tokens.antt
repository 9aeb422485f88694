-- ===== src/Boolean/Tokens.antt =====
-- `_strip_outer_quotes` and `_tokenize` of src/opencollate/boolean.py. What Python takes from the Unicode
-- tables is a parameter.
use Prim.Native.Char.{Char, code}
use Prim.Native.String.{String, count, ◌++◌ as joined}
use text.Mathlib.Text.{starts_with}
use open_collate.Common.{
  ℕ, zero, suc, ◌+◌, ◌-◌, Bool, true, false, ◌&&◌, ◌||◌, Option, none, some, List, [], ◌∷◌, leb,
  ◌==◌, if◌then◌else◌,
}

-- `str.isspace`, `str.isalnum` and `str.isdecimal` of a character, and `str.lower`.
pub record Characters : Type 0 where
  pub is_space : Char → Bool
  pub is_alnum : Char → Bool
  pub is_decimal : Char → Bool
  pub lower : String → String

-- The kinds of a token; an operator's is the character itself in the source.
pub data Kind : Type 0 where
  const0 const1 name_token end_token : Kind
  open_paren close_paren bang tilde quote ampersand star caret bar plus_sign : Kind

abbrev pub is_open : Kind → Bool
is_open open_paren = true
is_open _ = false

abbrev pub is_close : Kind → Bool
is_close close_paren = true
is_close _ = false

pub record Token : Type 0 where
  pub kind : Kind
  pub text : String
  pub offset : ℕ

-- `_OPERATORS`, by code point
abbrev pub operator_at : List (ℕ × Kind) → ℕ → Option Kind
operator_at [] c = none
operator_at ((k, kind) ∷ rest) c = if k == c then some kind else operator_at rest c

abbrev pub operators : List (ℕ × Kind)
operators =
    (40, open_paren)
    ∷ (41, close_paren)
    ∷ (33, bang)
    ∷ (126, tilde)
    ∷ (39, quote)
    ∷ (38, ampersand)
    ∷ (42, star)
    ∷ (94, caret)
    ∷ (124, bar)
    ∷ (43, plus_sign)
    ∷ []

-- `c in characters`
abbrev pub is_one_of : ℕ → String → Bool
is_one_of c String.[] = false
is_one_of c (String.◌∷◌ d s) = code d == c || is_one_of c s

-- `s.lstrip()`
abbrev pub strip_left : (Char → Bool) → String → String
strip_left is_space String.[] = String.[]
strip_left is_space (String.◌∷◌ c s) =
    let rest = strip_left is_space s in if is_space c then rest else String.◌∷◌ c s

-- `s.rstrip()`
abbrev pub keep_or_drop : (Char → Bool) → Char → String → String
keep_or_drop is_space c String.[] = if is_space c then String.[] else String.◌∷◌ c String.[]
keep_or_drop is_space c (String.◌∷◌ d s) = String.◌∷◌ c (String.◌∷◌ d s)

abbrev pub strip_right : (Char → Bool) → String → String
strip_right is_space String.[] = String.[]
strip_right is_space (String.◌∷◌ c s) = keep_or_drop is_space c (strip_right is_space s)

-- `s.replace(old, new)`, where `skip` characters are left of an `old` that was replaced
unfoldable pub replace_from : ℕ → String → String → String → String
replace_from skip old new String.[] = String.[]
replace_from (suc skip) old new (String.◌∷◌ c s) = replace_from skip old new s
replace_from zero old new (String.◌∷◌ c s) = elim (starts_with (String.◌∷◌ c s) old) [
  | true ↦ joined new (replace_from (count old - 1) old new s)
  | false ↦ String.◌∷◌ c (replace_from zero old new s)
]

abbrev pub last_is : ℕ → String → Bool
last_is k String.[] = false
last_is k (String.◌∷◌ c String.[]) = code c == k
last_is k (String.◌∷◌ c (String.◌∷◌ d s)) = last_is k (String.◌∷◌ d s)

-- `s[:-1]`
abbrev pub drop_last : String → String
drop_last String.[] = String.[]
drop_last (String.◌∷◌ c String.[]) = String.[]
drop_last (String.◌∷◌ c (String.◌∷◌ d s)) = String.◌∷◌ c (drop_last (String.◌∷◌ d s))

unfoldable pub unescape : String → String
unfolding replace_from
unescape inner =
    let a = replace_from 0 "\\\n" "" inner in
    let b = replace_from 0 "\\\r\n" "" a in
    let c = replace_from 0 "\\\"" "\"" b in replace_from 0 "\\\\" "\\" c

-- The text between quotes, with the offset at which it starts.
unfoldable pub unquote : String → ℕ → String × ℕ
unfolding unescape
unquote String.[] base = (String.[], base)
unquote (String.◌∷◌ c s) base =
    if leb 2 (count (String.◌∷◌ c s)) && code c == 34 && last_is 34 s
    then (unescape (drop_last s), base + 1)
    else (String.◌∷◌ c s, base)

unfoldable pub strip_outer_quotes : Characters → String → String × ℕ
unfolding unquote
strip_outer_quotes ch source =
    unquote (strip_right ch.is_space (strip_left ch.is_space source))
      (count source - count (strip_left ch.is_space source))
