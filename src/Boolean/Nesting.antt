-- ===== src/Boolean/Nesting.antt =====
-- The nesting check of `_tokenize` (src/opencollate/boolean.py) accepts just the tokens of which no part
-- opens too many groups.
use mathlib.Core.Path.{subst}
use open_collate.Common.{
  ℕ, suc, ◌+◌, ◌≡◌, ◌≤◌, ◌<◌, refl, ap, Bool, true, false, [], ◌∷◌, ◌++◌, Result, ok, err,
  if◌then◌else◌, ◌==◌, ◌&&◌, arith, Bool-cases, inl, inr,
}
use open_collate.Boolean.Expr.{BooleanError, syntax_error, too_deep}
use open_collate.Boolean.Tokens.{Kind, open_paren, close_paren, Token, is_open, is_close}
use open_collate.Boolean.Scan.{max_group_nesting, check_nesting, nesting_after, is_too_deep}
use open_collate.Boolean.Parser.{Tokens}

-- How many tokens of a kind there are.
abbrev pub count_of : (Kind → Bool) → Tokens → ℕ
count_of p [] = 0
count_of p (t ∷ ts) = let rest = count_of p ts in if p t.kind then suc rest else rest

-- No tokens from the first on open more groups than they close and the limit leaves, `n` being open.
abbrev IsLow : ℕ → Tokens → Type 0
IsLow n tokens =
    (xs ys : Tokens)
    → tokens ≡ xs ++ ys
    → n + count_of is_open xs ≤ count_of is_close xs + max_group_nesting

-- No part of the tokens, wherever it begins, opens more groups than it closes and the limit.
abbrev pub IsNested : Tokens → Type 0
IsNested tokens =
    (before part rest : Tokens)
    → tokens ≡ before ++ part ++ rest
    → count_of is_open part ≤ count_of is_close part + max_group_nesting

-- A part of the tokens that opens more groups.
pub record IsOverNested (tokens : Tokens) : Type 0 where
  pub before : Tokens
  pub part : Tokens
  pub rest : Tokens
  pub split : tokens ≡ before ++ part ++ rest
  pub over : count_of is_close part + max_group_nesting < count_of is_open part

IsNested-nil : IsNested []
IsNested-nil [] [] rest e = ground arith
IsNested-nil [] (x ∷ xs) rest e = cc
IsNested-nil (x ∷ xs) part rest e = cc

IsNested-cons :
    (n : ℕ) (t : Token) (ts : Tokens) → IsLow n (t ∷ ts) → IsNested ts → IsNested (t ∷ ts)
IsNested-cons n t ts low h [] part rest e = omega (arith, low part rest e)
IsNested-cons n t ts low h (x ∷ xs) part rest e =
    let more : ts ≡ xs ++ part ++ rest = cc in h xs part rest more

IsLow-cons :
    (n m : ℕ) (t : Token) (ts : Tokens)
    → n ≤ max_group_nesting
    → IsLow m ts
    → ((a b : ℕ)
        → m + a ≤ b + max_group_nesting
        → n + (if is_open t.kind then suc a else a)
          ≤ (if is_close t.kind then suc b else b) + max_group_nesting)
    → IsLow n (t ∷ ts)
IsLow-cons n m t ts low h step [] ys e = omega arith
IsLow-cons n m t ts low h step (x ∷ xs) ys e =
    let same : t ≡ x = cc in
    let more : ts ≡ xs ++ ys = cc in
    subst
      (λ (y : Token).
        n + (if is_open y.kind then suc (count_of is_open xs) else count_of is_open xs)
        ≤ (if is_close y.kind then suc (count_of is_close xs) else count_of is_close xs)
          + max_group_nesting)
      same (step (count_of is_open xs) (count_of is_close xs) (h xs ys more))

IsLow-nil : (n : ℕ) → n ≤ max_group_nesting → IsLow n []
IsLow-nil n low [] ys e = omega arith
IsLow-nil n low (x ∷ xs) ys e = cc

nesting_after-low :
    (n : ℕ) (k : Kind)
    → n ≤ max_group_nesting
    → is_too_deep n k ≡ false
    → nesting_after n k ≤ max_group_nesting
nesting_after-low n k low flat = ground arith

nesting_after-step :
    (n : ℕ) (k : Kind)
    → is_too_deep n k ≡ false
    → (a b : ℕ) → nesting_after n k + a ≤ b + max_group_nesting
    → n + (if is_open k then suc a else a) ≤ (if is_close k then suc b else b) + max_group_nesting
nesting_after-step n open_paren flat a b p = ground arith
nesting_after-step n close_paren flat a b p = ground arith
nesting_after-step n k flat a b p = p

-- What the nesting check comes to, with `n` groups open.
data Checked (n : ℕ) (ts : Tokens) (r : Result {0, 0} BooleanError Unit) : Type 0 where
  kept : r ≡ ok tt → IsLow n ts → IsNested ts → Checked n ts r
  starts_over :
      (offset : ℕ) (xs ys : Tokens)
      → r ≡ err (syntax_error too_deep offset)
      → ts ≡ xs ++ ys
      → count_of is_close xs + max_group_nesting < n + count_of is_open xs
      → Checked n ts r
  goes_over :
      (offset : ℕ) → r ≡ err (syntax_error too_deep offset) → IsOverNested ts → Checked n ts r

too_deep-over :
    (n : ℕ) (k : Kind)
    → is_too_deep n k ≡ true
    → (if is_close k then 1 else 0) + max_group_nesting < n + (if is_open k then 1 else 0)
too_deep-over n open_paren deep = ground arith
too_deep-over n k deep = cc

-- What comes after a token, with the token.
IsOverNested-cons : (t : Token) (ts : Tokens) → IsOverNested ts → IsOverNested (t ∷ ts)
IsOverNested-cons t ts h = record {
  before = t ∷ h.before;
  part = h.part;
  rest = h.rest;
  split = ap (λ (us : Tokens). t ∷ us) h.split;
  over = h.over;
}

-- A closing token where nothing is open leaves the count at 0.
lost_over :
    (n : ℕ) (k : Kind) (a b : ℕ)
    → is_close k && n == 0 ≡ true
    → b + max_group_nesting < nesting_after n k + a
    → b + max_group_nesting < a
lost_over n close_paren a b h over = ground arith
lost_over n k a b h over = cc

kept_over :
    (n : ℕ) (k : Kind) (a b : ℕ)
    → is_close k && n == 0 ≡ false
    → b + max_group_nesting < nesting_after n k + a
    → (if is_close k then suc b else b) + max_group_nesting < n + (if is_open k then suc a else a)
kept_over n open_paren a b h over = ground arith
kept_over n close_paren a b h over = ground arith
kept_over n k a b h over = over

starts_over-cons :
    (n : ℕ) (t : Token) (ts xs ys : Tokens) {r : Result {0, 0} BooleanError Unit} (offset : ℕ)
    → r ≡ err (syntax_error too_deep offset)
    → ts ≡ xs ++ ys
    → count_of is_close xs + max_group_nesting < nesting_after n t.kind + count_of is_open xs
    → Checked n (t ∷ ts) r
starts_over-cons n t ts xs ys offset e split over = elim (Bool-cases (is_close t.kind && n == 0)) [
  | inl lost ↦ goes_over offset e (record {
    before = t ∷ [];
    part = xs;
    rest = ys;
    split = ap (λ (us : Tokens). t ∷ us) split;
    over = lost_over n t.kind (count_of is_open xs) (count_of is_close xs) lost over;
  })
  | inr there ↦
      starts_over offset (t ∷ xs) ys e (ap (λ (us : Tokens). t ∷ us) split)
        (kept_over n t.kind (count_of is_open xs) (count_of is_close xs) there over)
]

check_nesting-Checked :
    (base n : ℕ) (ts : Tokens) → n ≤ max_group_nesting → Checked n ts (check_nesting base n ts)
unfolding check_nesting
check_nesting-Checked base n [] low = kept refl (IsLow-nil n low) IsNested-nil
check_nesting-Checked base n (t ∷ ts) low = elim (Bool-cases (is_too_deep n t.kind)) [
  | inl deep ↦
      starts_over (base + t.offset) (t ∷ []) ts (rw deep refl) refl (too_deep-over n t.kind deep)
  | inr flat ↦
      elim (check_nesting-Checked base (nesting_after n t.kind) ts
        (nesting_after-low n t.kind low flat)) [
          | kept e h hs ↦
              let here : IsLow n (t ∷ ts) =
                IsLow-cons n (nesting_after n t.kind) t ts low h
                  (nesting_after-step n t.kind flat) in
              kept (rw (flat, e) refl) here (IsNested-cons n t ts here hs)
          | starts_over offset xs ys e split over ↦
              starts_over-cons n t ts xs ys offset (rw (flat, e) refl) split over
          | goes_over offset e h ↦ goes_over offset (rw (flat, e) refl) (IsOverNested-cons t ts h)
        ]
]

-- What the nesting check of `_tokenize` comes to: the tokens are nested within the limit, or some part of
-- them is not.
pub data NestingChecked (ts : Tokens) (r : Result {0, 0} BooleanError Unit) : Type 0 where
  nested : r ≡ ok tt → IsNested ts → NestingChecked ts r
  over_nested :
      (offset : ℕ) → r ≡ err (syntax_error too_deep offset) → IsOverNested ts → NestingChecked ts r

pub check_nesting-NestingChecked :
    (base : ℕ) (ts : Tokens) → NestingChecked ts (check_nesting base 0 ts)
check_nesting-NestingChecked base ts = elim (check_nesting-Checked base 0 ts (omega arith)) [
  | kept e h hs ↦ nested e hs
  | starts_over offset xs ys e split over ↦
      over_nested offset e
        (record { before = []; part = xs; rest = ys; split = split; over = omega (arith, over) })
  | goes_over offset e h ↦ over_nested offset e h
]
