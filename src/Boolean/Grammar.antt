-- ===== src/Boolean/Grammar.antt =====
-- The language that the parser of src/opencollate/boolean.py reads, with the value of each text under an
-- assignment of the names: OR below XOR below AND, written or by adjacency, below inversion.
use Prim.Native.String.{String}
use open_collate.Common.{◌≡◌, Bool, true, false, not, ◌&&◌, ◌||◌, [], ◌∷◌, ◌++◌, xor_bool}
use open_collate.Boolean.Tokens.{const0, const1, name_token, open_paren, close_paren, Token}
use open_collate.Boolean.Parser.{
  Connective, and_kind, or_kind, xor_kind, Tokens, is_or, is_xor, is_and, is_inversion, is_quote,
}

-- The operators of a connective.
abbrev pub is_operator : Connective → Token → Bool
is_operator and_kind t = is_and t.kind
is_operator or_kind t = is_or t.kind
is_operator xor_kind t = is_xor t.kind

mutual
  pub data Reads (v : String → Bool) : Tokens → Bool → Type 0 where
    reads_zero : (t : Token) → t.kind ≡ const0 → Reads v (t ∷ []) false
    reads_one : (t : Token) → t.kind ≡ const1 → Reads v (t ∷ []) true
    reads_name : (t : Token) → t.kind ≡ name_token → Reads v (t ∷ []) (v t.text)
    reads_group :
        (t u : Token) {ts : Tokens} {a : Bool}
        → t.kind ≡ open_paren
        → u.kind ≡ close_paren
        → Joins v or_kind ts a
        → Reads v (t ∷ (ts ++ u ∷ [])) a
    reads_prefix :
        (t : Token) {ts : Tokens} {a : Bool}
        → is_inversion t.kind ≡ true
        → Reads v ts a
        → Reads v (t ∷ ts) (not a)
    reads_postfix :
        (t : Token) {ts : Tokens} {a : Bool}
        → is_quote t.kind ≡ true
        → Reads v ts a
        → Reads v (ts ++ t ∷ []) (not a)

  -- A list of operands of a connective, which are lists of operands of the next.
  pub data Joins (v : String → Bool) : Connective → Tokens → Bool → Type 0 where
    joins_unary : {ts : Tokens} {a : Bool} → Reads v ts a → Joins v and_kind ts a
    joins_and : {ts : Tokens} {a : Bool} → Joins v and_kind ts a → Joins v xor_kind ts a
    joins_xor : {ts : Tokens} {a : Bool} → Joins v xor_kind ts a → Joins v or_kind ts a
    joins_adjacent :
        {ts us : Tokens} {a b : Bool}
        → Joins v and_kind ts a
        → Reads v us b
        → Joins v and_kind (ts ++ us) (a && b)
    joins_product :
        (t : Token) {ts us : Tokens} {a b : Bool}
        → is_and t.kind ≡ true
        → Joins v and_kind ts a
        → Reads v us b
        → Joins v and_kind (ts ++ t ∷ us) (a && b)
    joins_difference :
        (t : Token) {ts us : Tokens} {a b : Bool}
        → is_xor t.kind ≡ true
        → Joins v xor_kind ts a
        → Joins v and_kind us b
        → Joins v xor_kind (ts ++ t ∷ us) (xor_bool a b)
    joins_sum :
        (t : Token) {ts us : Tokens} {a b : Bool}
        → is_or t.kind ≡ true
        → Joins v or_kind ts a
        → Joins v xor_kind us b
        → Joins v or_kind (ts ++ t ∷ us) (a || b)
