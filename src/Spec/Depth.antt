-- ===== src/Spec/Depth.antt =====
-- The depth check of `read_json` (src/opencollate/sequential_spec.py) against the brackets of the text that
-- stand outside of strings.
use Prim.Native.Char.{code}
use Prim.Native.String.{String}
use mathlib.Core.Path.{subst}
use open_collate.Common.{
  ℕ, suc, ◌+◌, ◌-◌, ◌≡◌, ◌≤◌, ◌<◌, refl, ap, ◌∙◌, ℤ, pos, negsuc, Bool, true, false, List, [], ◌∷◌,
  ◌++◌, Result, ok, err, leb, ltb, ◌==◌, if◌then◌else◌, arith, Bool-cases, inl, inr,
}
use open_collate.Spec.Reading.{
  ReadError, too_nested, max_json_depth, Scan, scan_start, deeper, shallower, is_too_nested,
  is_opening, is_closing, check_depth,
}

pub data Bracket : Type 0 where
  opening closing : Bracket

abbrev put_bracket : ℕ → List Bracket → List Bracket
put_bracket c rest =
    if is_opening c then opening ∷ rest else if is_closing c then closing ∷ rest else rest

-- The brackets of a text outside of its strings; in a string, a backslash takes the character after it along.
abbrev pub brackets : Bool → String → List Bracket
brackets quoted String.[] = []
brackets false (String.◌∷◌ c text) =
    let inside = brackets true text in
    let outside = brackets false text in
    if code c == 34 then inside else put_bracket (code c) outside
brackets true (String.◌∷◌ c String.[]) = []
brackets true (String.◌∷◌ c (String.◌∷◌ d text)) =
    let skipped = brackets true text in
    let inside = brackets true (String.◌∷◌ d text) in
    let outside = brackets false (String.◌∷◌ d text) in
    if code c == 92 then skipped else if code c == 34 then outside else inside

abbrev pub opened : List Bracket → ℕ
opened [] = 0
opened (opening ∷ bs) = suc (opened bs)
opened (closing ∷ bs) = opened bs

abbrev pub closed : List Bracket → ℕ
closed [] = 0
closed (opening ∷ bs) = closed bs
closed (closing ∷ bs) = suc (closed bs)

-- From an excess of `a` over `b` on, no place is nested deeper than the limit.
abbrev IsShallow : ℕ → ℕ → List Bracket → Type 0
IsShallow a b bs =
    (first rest : List Bracket)
    → bs ≡ first ++ rest
    → a + opened first ≤ b + closed first + max_json_depth

-- A place that is nested deeper.
record IsDeep (a b : ℕ) (bs : List Bracket) : Type 0 where
  first : List Bracket
  rest : List Bracket
  split : bs ≡ first ++ rest
  over : b + closed first + max_json_depth < a + opened first

-- What the check comes to.
data Checks (a b : ℕ) (bs : List Bracket) (r : Result {0, 0} ReadError Unit) : Type 0 where
  accepts : r ≡ ok tt → IsShallow a b bs → Checks a b bs r
  refuses : r ≡ err too_nested → IsDeep a b bs → Checks a b bs r

-- `depth` is a difference.
abbrev excess : ℕ → ℕ → ℤ
excess a b = if leb b a then pos (a - b) else negsuc (b - a - 1)

deeper-excess : (a b : ℕ) → deeper (excess a b) ≡ excess (suc a) b
deeper-excess a b = ground arith

shallower-excess : (a b : ℕ) → shallower (excess a b) ≡ excess a (suc b)
shallower-excess a b = ground arith

is_too_nested-excess : (a b : ℕ) → is_too_nested (excess a b) ≡ ltb (b + max_json_depth) a
is_too_nested-excess a b = ground arith

IsShallow-nil : (a b : ℕ) → a ≤ b + max_json_depth → IsShallow a b []
IsShallow-nil a b low [] rest e = omega (arith, low)
IsShallow-nil a b low (x ∷ first) rest e = cc

IsShallow-cons :
    (a b a' b' : ℕ) (x : Bracket) (bs : List Bracket)
    → a ≤ b + max_json_depth
    → ((first : List Bracket)
        → a' + opened first ≤ b' + closed first + max_json_depth
        → a + opened (x ∷ first) ≤ b + closed (x ∷ first) + max_json_depth)
    → IsShallow a' b' bs
    → IsShallow a b (x ∷ bs)
IsShallow-cons a b a' b' x bs low step h [] rest e = omega (arith, low)
IsShallow-cons a b a' b' x bs low step h (y ∷ first) rest e =
    let same : x ≡ y = cc in
    let more : bs ≡ first ++ rest = cc in
    subst (λ z. a + opened (z ∷ first) ≤ b + closed (z ∷ first) + max_json_depth) same
      (step first (h first rest more))

opening-Checks :
    (a b : ℕ) (bs : List Bracket) {r : Result {0, 0} ReadError Unit}
    → a ≤ b + max_json_depth
    → Checks (suc a) b bs r
    → Checks a b (opening ∷ bs) r
opening-Checks a b bs low (accepts e h) =
    accepts e (IsShallow-cons a b (suc a) b opening bs low (λ first p. omega (arith, p)) h)
opening-Checks a b bs low (refuses e h) = refuses e (record {
  first = opening ∷ h.first;
  rest = h.rest;
  split = ap (λ (xs : List Bracket). opening ∷ xs) h.split;
  over = omega (arith, h.over);
})

closing-Checks :
    (a b : ℕ) (bs : List Bracket) {r : Result {0, 0} ReadError Unit}
    → a ≤ b + max_json_depth
    → Checks a (suc b) bs r
    → Checks a b (closing ∷ bs) r
closing-Checks a b bs low (accepts e h) =
    accepts e (IsShallow-cons a b a (suc b) closing bs low (λ first p. omega (arith, p)) h)
closing-Checks a b bs low (refuses e h) = refuses e (record {
  first = closing ∷ h.first;
  rest = h.rest;
  split = ap (λ (xs : List Bracket). closing ∷ xs) h.split;
  over = omega (arith, h.over);
})

abbrev at : ℕ → ℕ → Bool → Scan
at a b quoted = record { depth = excess a b; quoted = quoted; escaped = false }

check_depth-Checks :
    (a b : ℕ) (quoted : Bool) (text : String)
    → a ≤ b + max_json_depth
    → Checks a b (brackets quoted text) (check_depth (at a b quoted) text)
unfolding check_depth
check_depth-Checks a b true String.[] low = accepts refl (IsShallow-nil a b low)
check_depth-Checks a b false String.[] low = accepts refl (IsShallow-nil a b low)
check_depth-Checks a b true (String.◌∷◌ c String.[]) low = accepts refl (IsShallow-nil a b low)
check_depth-Checks a b true (String.◌∷◌ c (String.◌∷◌ d text)) low =
    elim (Bool-cases (code c == 92)) [
      | inl slash ↦ rw slash (check_depth-Checks a b true text low)
      | inr plain ↦ elim (Bool-cases (code c == 34)) [
        | inl quote ↦ rw (plain, quote) (check_depth-Checks a b false (String.◌∷◌ d text) low)
        | inr other ↦ rw (plain, other) (check_depth-Checks a b true (String.◌∷◌ d text) low)
      ]
    ]
check_depth-Checks a b false (String.◌∷◌ c text) low = elim (Bool-cases (code c == 34)) [
  | inl quote ↦ rw quote (check_depth-Checks a b true text low)
  | inr plain ↦ elim (Bool-cases (is_opening (code c))) [
    | inl opens ↦ elim (Bool-cases (ltb (b + max_json_depth) (suc a))) [
      | inl deep ↦
          let nested : is_too_nested (deeper (excess a b)) ≡ true =
            ap is_too_nested (deeper-excess a b) ∙ is_too_nested-excess (suc a) b ∙ deep in
          rw (plain, opens, nested)
            (refuses refl (record {
              first = opening ∷ [];
              rest = brackets false text;
              split = refl;
              over = ground arith;
            }))
      | inr shallow ↦
          let nested : is_too_nested (deeper (excess a b)) ≡ false =
            ap is_too_nested (deeper-excess a b) ∙ is_too_nested-excess (suc a) b ∙ shallow in
          rw (plain, opens, nested, deeper-excess a b)
            (opening-Checks a b (brackets false text) low
              (check_depth-Checks (suc a) b false text (ground arith)))
    ]
    | inr no_opening ↦ elim (Bool-cases (is_closing (code c))) [
      | inl closes ↦
          rw (plain, no_opening, closes, shallower-excess a b)
            (closing-Checks a b (brackets false text) low
              (check_depth-Checks a (suc b) false text (omega (arith, low))))
      | inr no_closing ↦ rw (plain, no_opening, no_closing) (check_depth-Checks a b false text low)
    ]
  ]
]

-- Outside of strings, every beginning of the text opens at most as many brackets as it closes and the limit.
abbrev pub IsReadable : String → Type 0
IsReadable text =
    (first rest : List Bracket)
    → brackets false text ≡ first ++ rest
    → opened first ≤ closed first + max_json_depth

pub record IsTooNested (text : String) : Type 0 where
  pub first : List Bracket
  pub rest : List Bracket
  pub split : brackets false text ≡ first ++ rest
  pub over : closed first + max_json_depth < opened first

pub data Decides (text : String) (r : Result {0, 0} ReadError Unit) : Type 0 where
  readable : r ≡ ok tt → IsReadable text → Decides text r
  too_deep : r ≡ err too_nested → IsTooNested text → Decides text r

-- The depth check of `read_json` ends on every text and decides its nesting: it passes, and every
-- beginning of the text opens, outside of strings, at most 64 brackets more than it closes; or it raises,
-- and some beginning opens more.
pub check_depth-Decides : (text : String) → Decides text (check_depth scan_start text)
check_depth-Decides text = elim (check_depth-Checks 0 0 false text (omega arith)) [
  | accepts e h ↦ readable e (λ first rest split. omega (arith, h first rest split))
  | refuses e h ↦
      too_deep e
        (record { first = h.first; rest = h.rest; split = h.split; over = omega (arith, h.over) })
]
