-- ===== src/Boolean/Tests.antt =====
-- Runs of the Boolean parser and of the equivalence check, and their theorems at concrete inputs.
use Prim.Native.Char.{Char, code}
use open_collate.Common.{
  ◌≡◌, refl, pos, negsuc, Bool, false, ◌||◌, ◌&&◌, [], ◌∷◌, ok, err, leb, ◌==◌,
}
use open_collate.Boolean.Expr.{
  BoolExpr, bool_const, bool_var, bool_not, bool_and, bool_or, bool_xor, no_more, operand,
  syntax_error, bad_limit, expected_primary, one_bit_only,
}
use open_collate.Boolean.Equivalence.{EquivalenceResult, check_equivalence}
use open_collate.Boolean.Decides.{Decides, check_equivalence-Decides}
use open_collate.Boolean.Tokens.{Characters}
use open_collate.Boolean.Scan.{tokenize}
use open_collate.Boolean.Printing.{show}
use open_collate.Boolean.Parser.{parse_boolean}
use open_collate.Boolean.Texts.{
  Attempt, IsWithin, IsParsed, tokenize-IsWithin, parse_boolean-IsParsed,
}

-- The ASCII part of the Unicode tables.
abbrev ascii_space : Char → Bool
ascii_space c = code c == 32 || (leb 9 (code c) && leb (code c) 13)

abbrev ascii_digit : Char → Bool
ascii_digit c = leb 48 (code c) && leb (code c) 57

abbrev ascii_alnum : Char → Bool
ascii_alnum c =
    ascii_digit c || ((leb 65 (code c) && leb (code c) 90) || (leb 97 (code c) && leb (code c) 122))

abbrev ascii : Characters
ascii = record {
  is_space = ascii_space;
  is_alnum = ascii_alnum;
  is_decimal = ascii_digit;
  lower = λ s. s;
}

abbrev a_and_not_b : BoolExpr
a_and_not_b = bool_and (operand (bool_var "A") (operand (bool_not (bool_var "B")) no_more))

-- Adjacency is AND, and a quote after an operand inverts it.
adjacent : parse_boolean ascii "A B'" ≡ ok a_and_not_b
unfolding parse_boolean
adjacent = refl

-- OR is below XOR, and XOR below AND; a sum in a group is flattened into the sum around it.
nested :
    parse_boolean ascii "(A | B) + C^1'b0"
    ≡ ok (
        bool_or (
          operand (bool_var "A") (
            operand (bool_var "B") (
              operand
                (bool_xor (operand (bool_var "C") (operand (bool_const false) no_more)))
                no_more))))
unfolding parse_boolean
nested = refl

missing_operand : parse_boolean ascii "A &" ≡ err (syntax_error expected_primary 3)
unfolding parse_boolean
missing_operand = refl

wide_constant : parse_boolean ascii " 2'b10" ≡ err (syntax_error one_bit_only 1)
unfolding parse_boolean
wide_constant = refl

negative_limit : check_equivalence a_and_not_b a_and_not_b (negsuc 0) [] ≡ err bad_limit
unfolding check_equivalence
negative_limit = refl

tokenize-IsWithin_example : IsWithin ascii "A B'" (tokenize ascii "A B'")
tokenize-IsWithin_example = tokenize-IsWithin ascii "A B'"

parse_boolean-IsParsed_example : Attempt (IsParsed ascii "A B'") (parse_boolean ascii "A B'")
parse_boolean-IsParsed_example = parse_boolean-IsParsed ascii "A B'"

check_equivalence-Decides_example :
    (r : EquivalenceResult) × ((check_equivalence a_and_not_b
          (bool_var "A")
          (pos 12)
          (("A", "a") ∷ [])
        ≡ ok r)
      × Decides a_and_not_b (bool_var "A") (("A", "a") ∷ []) 12 r)
check_equivalence-Decides_example =
    check_equivalence-Decides a_and_not_b (bool_var "A") 12 (("A", "a") ∷ [])

-- What is printed is read back.
printed : show a_and_not_b ≡ "(A & !(B))"
printed = refl

read_back : parse_boolean ascii (show a_and_not_b) ≡ ok a_and_not_b
unfolding parse_boolean
read_back = refl
