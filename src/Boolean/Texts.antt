-- ===== src/Boolean/Texts.antt =====
-- `_tokenize` and `parse_boolean` (src/opencollate/boolean.py) on every text.
use Prim.Native.Char.{Char, code}
use Prim.Native.String.{String, count}
use mathlib.Core.Option.{some-injective}
use open_collate.Common.{
  ℕ, zero, suc, ◌+◌, ◌-◌, ◌≡◌, ◌<◌, ◌≤◌, refl, sym, ap, ◌∙◌, Bool, true, false, not, ◌||◌, Option,
  none, some, List, [], ◌∷◌, ◌++◌, Result, ok, err, ◌>>=◌, get_elem?, length, if◌then◌else◌, arith,
  All, Bool-cases, Option-cases, inl, inr, ltb, ◌==◌, name_eq,
}
use open_collate.Boolean.Expr.{
  BoolExpr, BooleanError, syntax_error, Message, constants_only, empty_escape,
  unsupported_character, one_bit_only, too_many_tokens, too_many_characters, too_deep, meaning,
}
use open_collate.Boolean.Tokens.{
  Characters, Kind, const0, const1, name_token, end_token, Token, operator_at, operators,
  strip_outer_quotes,
}
use open_collate.Boolean.Scan.{
  max_expression_characters, max_expression_tokens, take_while, word_token, is_word, escaped_token,
  other_token, bit_token, is_sized_literal, sized_boolean, sized_or_other, scan_one, scan,
  check_count, scan_source, tokenize, without_underscores,
}
use open_collate.Boolean.Parser.{Tokens, is_end, parse_boolean, or_kind}
use open_collate.Boolean.Grammar.{Joins}
use open_collate.Boolean.Nesting.{
  IsNested, IsOverNested, nested, over_nested, check_nesting-NestingChecked,
}
use open_collate.Boolean.Correct.{ends_once, parsed, refused, parse-Parsed}

-- A round of the scan that is not the end of the text.
data Scanned (r : Result BooleanError (Option Token × ℕ)) : Type 0 where
  skipped : (n : ℕ) → r ≡ ok (none, n) → Scanned r
  took : (t : Token) (n : ℕ) → r ≡ ok (some t, n) → is_end t.kind ≡ false → Scanned r
  stopped : (m : Message) (offset : ℕ) → r ≡ err (syntax_error m offset) → Scanned r

operator_at-not_end :
    (c : ℕ) (ks : List (ℕ × Kind)) (k : Kind)
    → All (λ x. is_end x.1 ≡ false) ks
    → operator_at ks c ≡ some k
    → is_end k ≡ false
operator_at-not_end c [] k h e = cc
operator_at-not_end c ((n, k') ∷ ks) k (h, hs) e = elim (Bool-cases (n == c)) [
  | inl same ↦ let which : k' ≡ k = some-injective _ _ (sym (rw same refl) ∙ e) in rw (sym which) h
  | inr other ↦ operator_at-not_end c ks k hs (sym (rw other refl) ∙ e)
]

data Worded (r : Result BooleanError Token) : Type 0 where
  worded : (t : Token) → r ≡ ok t → is_end t.kind ≡ false → Worded r
  unworded : (m : Message) (offset : ℕ) → r ≡ err (syntax_error m offset) → Worded r

Worded-if :
    (b : Bool) {x y : Result BooleanError Token} → Worded x → Worded y → Worded (if b then x else y)
Worded-if true h k = h
Worded-if false h k = k

Scanned-if :
    (b : Bool) {x y : Result BooleanError (Option Token × ℕ)}
    → Scanned x
    → Scanned y
    → Scanned (if b then x else y)
Scanned-if true h k = h
Scanned-if false h k = k

word_token-Worded :
    (ch : Characters) (text : String) (base start : ℕ) → Worded (word_token ch text base start)
unfolding word_token
word_token-Worded ch text base start =
    let lowered = without_underscores (ch.lower text) in
    Worded-if (name_eq lowered "0" || (name_eq lowered "1'b0" || name_eq lowered "1'h0"))
      (worded (record { kind = const0; text = text; offset = start }) refl refl)
      (Worded-if (name_eq lowered "1" || (name_eq lowered "1'b1" || name_eq lowered "1'h1"))
        (worded (record { kind = const1; text = text; offset = start }) refl refl)
        (Worded-if _ (unworded constants_only (base + start) refl)
          (worded (record { kind = name_token; text = text; offset = start }) refl refl)))

word-Scanned :
    (r : Result BooleanError Token) (n : ℕ) → Worded r → Scanned (r >>= λ t. ok (some t, n))
word-Scanned r n w = elim w [
  | worded t e h ↦ took t n (rw e refl) h
  | unworded m offset e ↦ stopped m offset (rw e refl)
]

escaped_token-Scanned :
    (base start : ℕ) (c : Char) (s : String) → Scanned (escaped_token base start c s)
escaped_token-Scanned base start c String.[] = stopped empty_escape (base + start) refl
escaped_token-Scanned base start c (String.◌∷◌ d s) =
    took (record { kind = name_token; text = String.◌∷◌ c (String.◌∷◌ d s); offset = start })
      (count (String.◌∷◌ d s)) refl refl

other_token-Scanned :
    (ch : Characters) (base index : ℕ) (c : Char) (s : String) (o : Option Kind)
    → ((k : Kind) → o ≡ some k → is_end k ≡ false)
    → Scanned (other_token ch base index c s o)
unfolding other_token
other_token-Scanned ch base index c s (some k) h =
    took (record { kind = k; text = String.◌∷◌ c String.[]; offset = index }) 0 refl (h k refl)
other_token-Scanned ch base index c s none h =
    Scanned-if (code c == 92)
      (escaped_token-Scanned base index c (take_while (λ d. not (ch.is_space d)) s).0)
      (Scanned-if (is_word ch c)
        (word-Scanned (word_token ch (String.◌∷◌ c (take_while (is_word ch) s).0) base index)
          (count (take_while (is_word ch) s).0)
          (word_token-Worded ch (String.◌∷◌ c (take_while (is_word ch) s).0) base index))
        (stopped unsupported_character (base + index) refl))

bit_token-not_end :
    (index : ℕ) (s : String) (bit : Bool) → is_end (bit_token index s bit).kind ≡ false
bit_token-not_end index s true = refl
bit_token-not_end index s false = refl

sized_or_other-Scanned :
    (ch : Characters) (base index : ℕ) (c : Char) (s : String) (o : Option Bool)
    → Scanned (sized_or_other ch base index c s o)
unfolding sized_or_other
sized_or_other-Scanned ch base index c s (some bit) =
    took (bit_token index (String.◌∷◌ c s) bit) 3 refl
      (bit_token-not_end index (String.◌∷◌ c s) bit)
sized_or_other-Scanned ch base index c s none =
    Scanned-if (is_sized_literal ch (String.◌∷◌ c s)) (stopped one_bit_only (base + index) refl) (
      other_token-Scanned ch base index c s (operator_at operators (code c))
        (λ k. operator_at-not_end (code c) operators k operators-not_end))
  where
    operators-not_end : All (λ (x : ℕ × Kind). is_end x.1 ≡ false) operators
    operators-not_end =
        (refl, (refl, (refl, (refl, (refl, (refl, (refl, (refl, (refl, (refl, tt))))))))))

scan_one-Scanned :
    (ch : Characters) (base index : ℕ) (c : Char) (s : String)
    → Scanned (scan_one ch base index c s)
unfolding scan_one
scan_one-Scanned ch base index c s =
    Scanned-if (ch.is_space c) (skipped 0 refl)
      (sized_or_other-Scanned ch base index c s (sized_boolean (String.◌∷◌ c s)))

-- What a step of `_tokenize` comes to: a value with a property, or a syntax error.
pub data Attempt {ℓ κ} {A : Type ℓ} (P : A → Type κ) (r : Result BooleanError A)
    : Type (ℓ ⊔ κ) where
  succeeds : (a : A) → r ≡ ok a → P a → Attempt P r
  fails : (m : Message) (offset : ℕ) → r ≡ err (syntax_error m offset) → Attempt P r

abbrev Ends : Tokens → Type 0
Ends ts = ends_once ts ≡ true

ends_once-cons :
    (t : Token) (ts : Tokens)
    → is_end t.kind ≡ false
    → ends_once ts ≡ true
    → ends_once (t ∷ ts) ≡ true
ends_once-cons t [] h k = absurd (ground arith)
ends_once-cons t (u ∷ ts) h k = ground arith

scan-Ends :
    (ch : Characters) (base skip index : ℕ) (s : String) → Attempt Ends (scan ch base skip index s)
unfolding scan
scan-Ends ch base skip index String.[] =
    succeeds ((record { kind = end_token; text = String.[]; offset = index }) ∷ []) refl refl
scan-Ends ch base (suc skip) index (String.◌∷◌ c s) = scan-Ends ch base skip (index + 1) s
scan-Ends ch base zero index (String.◌∷◌ c s) = elim (scan_one-Scanned ch base index c s) [
  | stopped m offset e ↦ fails m offset (rw e refl)
  | skipped n e ↦ elim (scan-Ends ch base n (index + 1) s) [
    | fails m offset f ↦ fails m offset (rw (e, f) refl)
    | succeeds ts f h ↦ succeeds ts (rw (e, f) refl) h
  ]
  | took t n e not_end ↦ elim (scan-Ends ch base n (index + 1) s) [
    | fails m offset f ↦ fails m offset (rw (e, f) refl)
    | succeeds ts f h ↦ succeeds (t ∷ ts) (rw (e, f) refl) (ends_once-cons t ts not_end h)
  ]
]

get_elem?-some : (ts : Tokens) (i : ℕ) → i < length ts → ¬ (get_elem? ts i ≡ none)
get_elem?-some [] i h e = omega arith
get_elem?-some (t ∷ ts) zero h e = cc
get_elem?-some (t ∷ ts) (suc i) h e = get_elem?-some ts i (omega arith) e

-- What the check of the number of tokens comes to.
data Counted (ts : Tokens) (r : Result {0, 0} BooleanError Unit) : Type 0 where
  few_enough : r ≡ ok tt → length ts ≤ max_expression_tokens + 1 → Counted ts r
  one_more :
      (offset : ℕ)
      → r ≡ err (syntax_error too_many_tokens offset)
      → max_expression_tokens + 1 < length ts
      → Counted ts r

check_count-Counted : (base : ℕ) (ts : Tokens) → Counted ts (check_count base ts)
unfolding check_count
check_count-Counted base ts = elim (Bool-cases (ltb max_expression_tokens (length ts - 1))) [
  | inr few ↦ few_enough (rw few refl) (ground arith)
  | inl many ↦ elim (Option-cases (get_elem? ts max_expression_tokens)) [
    | inr (t, there) ↦ one_more (base + t.offset) (rw (many, there) refl) (ground arith)
    | inl gone ↦ absurd (get_elem?-some ts max_expression_tokens (ground arith) gone)
  ]
]

-- What `_tokenize` promises of the tokens that it returns.
pub record IsLimited (tokens : Tokens) : Type 0 where
  pub ends : ends_once tokens ≡ true
  pub few : length tokens ≤ max_expression_tokens + 1
  pub nested : IsNested tokens

-- The tokens of the text between its quotes, before the limits are checked.
abbrev pub scanned : Characters → String → Result BooleanError Tokens
scanned ch expression =
    let (source, base) = strip_outer_quotes ch expression in scan ch base 0 0 source

-- Why `_tokenize` refuses a text.
pub data IsRefused (ch : Characters) (expression : String) : Message → ℕ → Type 0 where
  long :
      max_expression_characters < count expression
      → IsRefused ch expression too_many_characters max_expression_characters
  illegal :
      (m : Message) (offset : ℕ)
      → scanned ch expression ≡ err (syntax_error m offset)
      → IsRefused ch expression m offset
  many :
      (ts : Tokens) (offset : ℕ)
      → scanned ch expression ≡ ok ts
      → max_expression_tokens + 1 < length ts
      → IsRefused ch expression too_many_tokens offset
  deep :
      (ts : Tokens) (offset : ℕ)
      → scanned ch expression ≡ ok ts
      → IsOverNested ts
      → IsRefused ch expression too_deep offset

pub data IsWithin (ch : Characters) (expression : String) (r : Result BooleanError (Tokens × ℕ))
    : Type 0 where
  returned :
      (ts : Tokens) (base : ℕ)
      → r ≡ ok (ts, base)
      → count expression ≤ max_expression_characters
      → scanned ch expression ≡ ok ts
      → IsLimited ts
      → IsWithin ch expression r
  raised :
      (m : Message) (offset : ℕ)
      → r ≡ err (syntax_error m offset)
      → IsRefused ch expression m offset
      → IsWithin ch expression r

-- `_tokenize` returns the tokens of the text, the last one the only end, at most one more than the limit
-- on their number, and with no part, wherever it begins, that opens more groups than it closes and the
-- limit on nesting; or it raises a syntax error, and then the text is too long, has no tokens, has too
-- many, or has a part that opens too many groups.
pub tokenize-IsWithin :
    (ch : Characters) (expression : String) → IsWithin ch expression (tokenize ch expression)
unfolding tokenize scan_source
tokenize-IsWithin ch expression =
    elim (Bool-cases (ltb max_expression_characters (count expression))) [
      | inl too_long ↦
          raised too_many_characters max_expression_characters (rw too_long refl)
            (long (ground arith))
      | inr short ↦
          let (source, base) = strip_outer_quotes ch expression in
          elim (scan-Ends ch base 0 0 source) [
            | fails m offset e ↦ raised m offset (rw (short, e) refl) (illegal m offset e)
            | succeeds ts e ends ↦ elim (check_count-Counted base ts) [
              | one_more offset f more ↦
                  raised too_many_tokens offset (rw (short, e, f) refl) (many ts offset e more)
              | few_enough f few ↦ elim (check_nesting-NestingChecked base ts) [
                | over_nested offset g over ↦
                    raised too_deep offset (rw (short, e, f, g) refl) (deep ts offset e over)
                | nested g low ↦
                    returned ts base (rw (short, e, f, g) refl) (ground arith) e
                      (record { ends = ends; few = few; nested = low })
              ]
            ]
          ]
    ]

-- The tokens of the text, without the last, have the meaning of the expression.
abbrev pub IsParsed : Characters → String → BoolExpr → Type 0
IsParsed ch expression e =
    (used : Tokens) × ((last : Token) × ((base : ℕ) × ((tokenize ch expression
            ≡ ok (used ++ last ∷ [], base))
          × ((v : String → Bool) → Joins v or_kind used (meaning v e)))))

-- On every text `parse_boolean` ends: it raises a syntax error, or it returns an expression that has,
-- for every assignment of the names, the value that the grammar gives the tokens of the text.
pub parse_boolean-IsParsed :
    (ch : Characters) (expression : String)
    → Attempt (IsParsed ch expression) (parse_boolean ch expression)
unfolding parse_boolean
parse_boolean-IsParsed ch expression = elim (tokenize-IsWithin ch expression) [
  | raised m offset e _ ↦ fails m offset (rw e refl)
  | returned tokens base e _ _ h ↦ elim (parse-Parsed base tokens h.ends) [
    | refused m offset f ↦ fails m offset (rw (e, f) refl)
    | parsed used last t f split joins ↦
        succeeds t (rw (e, f) refl)
          (used, (last, (base, (e ∙ ap (λ (ts : Tokens). ok (ts, base)) split, joins))))
  ]
]
