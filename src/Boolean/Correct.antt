-- ===== src/Boolean/Correct.antt =====
-- `parse` (src/opencollate/boolean.py) ends on every list of tokens, and reads what the grammar says.
use Prim.Native.String.{String}
use mathlib.Core.List.{append_assoc, append-nil}
use mathlib.Core.Path.{subst}
use open_collate.Common.{
  ℕ, zero, suc, ◌+◌, ◌≡◌, ◌<◌, ◌≤◌, refl, sym, ap, ◌∙◌, Bool, true, false, not, ◌&&◌, List, [], ◌∷◌,
  ◌++◌, Result, ok, err, ◌>>=◌, length, arith, Bool-cases, inl, inr,
}
use open_collate.Boolean.Expr.{
  BoolExpr, BooleanError, syntax_error, Message, empty_expression, unexpected_token, meaning,
}
use open_collate.Boolean.Tokens.{Kind, ampersand, star, caret, bar, plus_sign, Token}
use open_collate.Boolean.Parser.{
  Connective, and_kind, or_kind, xor_kind, Tokens, Parse, is_end, is_and, starts_unary,
  more_operands, parse_unary, more_factors, parse_and, combine, is_xor, is_or, parse_xor,
  parse_or_with, parse_or, at_end, parse,
}
use open_collate.Boolean.Combine.{join_all, join_all-append, meaning-combine, join-neutral}
use open_collate.Boolean.Grammar.{
  Joins, joins_unary, joins_and, joins_xor, joins_adjacent, joins_product, joins_difference,
  joins_sum,
}
use open_collate.Boolean.Outcome.{
  has_end, Outcome, returned, raised, Parses, resplit, more_operands-Outcome,
}
use open_collate.Boolean.Factors.{IsRead, IsJoined, parse_unary-Outcome}

no_and : (k : Kind) → is_end k ≡ true → is_and k ≡ false
no_and k h =
    elim k as (λ k. is_end k ≡ true → is_and k ≡ false) [
      | ampersand ↦ λ p. absurd (ground arith)
      | star ↦ λ p. absurd (ground arith)
      | _ ↦ λ p. refl
    ]
      h

no_xor : (k : Kind) → is_end k ≡ true → is_xor k ≡ false
no_xor k h =
    elim k as (λ k. is_end k ≡ true → is_xor k ≡ false) [
      | caret ↦ λ p. absurd (ground arith)
      | _ ↦ λ p. refl
    ]
      h

no_or : (k : Kind) → is_end k ≡ true → is_or k ≡ false
no_or k h =
    elim k as (λ k. is_end k ≡ true → is_or k ≡ false) [
      | bar ↦ λ p. absurd (ground arith)
      | plus_sign ↦ λ p. absurd (ground arith)
      | _ ↦ λ p. refl
    ]
      h

AreFactors : Tokens → Tokens → List BoolExpr → Type 0
AreFactors before used es =
    (v : String → Bool) → Joins v and_kind (before ++ used) (join_all v and_kind es)

module _ (n : ℕ) (next : Parse) (good : Parses (suc n) IsRead next) where
  -- A factor more, and then the others.
  factors_on :
      (fuel : ℕ) (before taken used left tokens : Tokens) (es : List BoolExpr) (e : BoolExpr)
      (r : Result BooleanError (List BoolExpr × Tokens))
      → r ≡ more_factors fuel next (es ++ e ∷ []) left
      → tokens ≡ taken ++ left
      → length left < length tokens
      → Outcome
          (AreFactors (before ++ taken))
          left
          (suc (length left))
          (more_factors fuel next (es ++ e ∷ []) left)
      → Outcome (AreFactors before) tokens (suc (length tokens)) r
  unfolding AreFactors
  factors_on fuel before taken used left tokens es e r same split low out = elim out [
    | raised m offset e2 ↦ raised m offset (same ∙ e2)
    | returned used2 left2 es2 eq2 split2 end2 low2 all ↦
        returned (taken ++ used2) left2 es2 (same ∙ eq2)
          (resplit tokens taken left used2 left2 split split2) end2 (omega arith)
          (λ v.
            subst (λ (x : Tokens). Joins v and_kind x (join_all v and_kind es2))
              (append_assoc before taken used2) (all v))
  ]

  more_factors-Outcome :
      (fuel : ℕ) (before : Tokens) (es : List BoolExpr) (tokens : Tokens)
      → length tokens ≤ fuel
      → length tokens ≤ n
      → has_end tokens ≡ true
      → ((v : String → Bool) → Joins v and_kind before (join_all v and_kind es))
      → Outcome (AreFactors before) tokens (suc (length tokens)) (more_factors fuel next es tokens)
  unfolding more_factors AreFactors
  more_factors-Outcome fuel before es [] enough low end h = absurd (ground arith)
  more_factors-Outcome zero before es (t ∷ ts) enough low end h = absurd (omega arith)
  more_factors-Outcome (suc fuel) before es (t ∷ ts) enough low end h =
      elim (Bool-cases (is_and t.kind)) [
        | inl same ↦
            let more : has_end ts ≡ true = ground (arith, no_and t.kind) in
            elim (good ts (omega arith) more) [
              | raised m offset e ↦ raised m offset (rw (same, e) refl)
              | returned used left e eq split end1 low1 is_read ↦
                  factors_on fuel before (t ∷ used) used left (t ∷ ts) es e _ (rw (same, eq) refl)
                    (ap (λ (x : Tokens). t ∷ x) split) (omega arith)
                    (more_factors-Outcome fuel (before ++ t ∷ used) (es ++ e ∷ []) left
                      (omega arith) (omega arith) end1
                      (λ v.
                        subst (Joins v and_kind (before ++ t ∷ used))
                          (sym (join_all-append v and_kind es e))
                          (joins_product t same (h v) (is_read v))))
            ]
        | inr other ↦ elim (Bool-cases (starts_unary t.kind)) [
          | inr last ↦ returned [] (t ∷ ts) es (rw (other, last) refl) refl end (omega arith) (λ v.
              subst (λ (x : Tokens). Joins v and_kind x (join_all v and_kind es))
                (sym (append-nil before)) (h v))
          | inl adjacent ↦ elim (good (t ∷ ts) (omega arith) end) [
            | raised m offset e ↦ raised m offset (rw (other, adjacent, e) refl)
            | returned used left e eq split end1 low1 is_read ↦
                factors_on fuel before used used left (t ∷ ts) es e _
                  (rw (other, adjacent, eq) refl) split low1
                  (more_factors-Outcome fuel (before ++ used) (es ++ e ∷ []) left (omega arith)
                    (omega arith) end1
                    (λ v.
                      subst (Joins v and_kind (before ++ used))
                        (sym (join_all-append v and_kind es e)) (joins_adjacent (h v) (is_read v))))
          ]
        ]
      ]

-- What a level returns, from its first operand and the loop.
level :
    (kind : Connective) (tokens used left : Tokens) (bound : ℕ)
    (r : Result BooleanError (List BoolExpr × Tokens)) (s : Result BooleanError (BoolExpr × Tokens))
    → s ≡ (r >>= λ x. ok (combine kind x.0, x.1))
    → tokens ≡ used ++ left
    → length left < bound
    → Outcome
        (λ more es. (v : String → Bool) → Joins v kind (used ++ more) (join_all v kind es))
        left
        (suc (length left))
        r
    → Outcome (IsJoined kind) tokens bound s
level kind tokens used left bound r s same split low out = elim out [
  | raised m offset e ↦ raised m offset (same ∙ rw e refl)
  | returned used2 left2 es e split2 end low2 all ↦
      returned (used ++ used2) left2 (combine kind es) (same ∙ rw e refl)
        (resplit tokens used left used2 left2 split split2) end (omega arith)
        (λ v. subst (Joins v kind (used ++ used2)) (sym (meaning-combine v kind es)) (all v))
]

first_operand :
    (kind : Connective) (v : String → Bool) (ts : Tokens) (e : BoolExpr)
    → Joins v kind ts (meaning v e)
    → Joins v kind ts (join_all v kind (e ∷ []))
first_operand kind v ts e h = subst (Joins v kind ts) (sym (join-neutral kind (meaning v e))) h

module _ (base : ℕ) (group : Parse) (n : ℕ) (good : Parses n (IsJoined or_kind) group) where
  parse_unary-Parses : Parses (suc n) IsRead (parse_unary base group)
  parse_unary-Parses ts low h = parse_unary-Outcome base group n good ts (omega arith) h

  parse_and-Parses : Parses (suc n) (IsJoined and_kind) (parse_and base group)
  unfolding parse_and AreFactors
  parse_and-Parses ts low h = elim (parse_unary-Parses ts low h) [
    | raised m offset e ↦ raised m offset (rw e refl)
    | returned used left e eq split end low1 is_read ↦
        level and_kind ts used left (length ts)
          (more_factors (length left) (parse_unary base group) (e ∷ []) left) _ (rw eq refl) split
          low1
          (more_factors-Outcome n (parse_unary base group) parse_unary-Parses (length left) used
            (e ∷ []) left (omega arith) (omega arith) end
            (λ v. first_operand and_kind v used e (joins_unary (is_read v))))
  ]

  parse_xor-Parses : Parses (suc n) (IsJoined xor_kind) (parse_xor base group)
  unfolding parse_xor
  parse_xor-Parses ts low h = elim (parse_and-Parses ts low h) [
    | raised m offset e ↦ raised m offset (rw e refl)
    | returned used left e eq split end low1 is_joined ↦
        level xor_kind ts used left (length ts)
          (more_operands (length left) is_xor (parse_and base group) (e ∷ []) left) _ (rw eq refl)
          split low1
          (more_operands-Outcome xor_kind is_xor (λ v. Joins v and_kind)
            (λ v t ts us a b. joins_difference t) no_xor (suc n) (parse_and base group)
            parse_and-Parses (length left) used (e ∷ []) left (omega arith) (omega arith) end
            (λ v. first_operand xor_kind v used e (joins_and (is_joined v))))
  ]

  parse_or_with-Parses : Parses (suc n) (IsJoined or_kind) (parse_or_with base group)
  unfolding parse_or_with
  parse_or_with-Parses ts low h = elim (parse_xor-Parses ts low h) [
    | raised m offset e ↦ raised m offset (rw e refl)
    | returned used left e eq split end low1 is_joined ↦
        level or_kind ts used left (length ts)
          (more_operands (length left) is_or (parse_xor base group) (e ∷ []) left) _ (rw eq refl)
          split low1
          (more_operands-Outcome or_kind is_or (λ v. Joins v xor_kind)
            (λ v t ts us a b. joins_sum t) no_or (suc n) (parse_xor base group) parse_xor-Parses
            (length left) used (e ∷ []) left (omega arith) (omega arith) end
            (λ v. first_operand or_kind v used e (joins_xor (is_joined v))))
  ]

-- With fuel for more tokens than there are, the groups do not run out of it.
parse_or-Parses : (fuel base : ℕ) → Parses fuel (IsJoined or_kind) (parse_or fuel base)
unfolding parse_or
parse_or-Parses zero base ts low h = absurd (omega arith)
parse_or-Parses (suc fuel) base ts low h =
    parse_or_with-Parses base (parse_or fuel base) fuel (parse_or-Parses fuel base) ts low h

-- The last token comes once, at the end.
abbrev pub ends_once : Tokens → Bool
ends_once [] = false
ends_once (t ∷ []) = is_end t.kind
ends_once (t ∷ (u ∷ ts)) = not (is_end t.kind) && ends_once (u ∷ ts)

ends_once-has_end : (ts : Tokens) → ends_once ts ≡ true → has_end ts ≡ true
ends_once-has_end [] h = h
ends_once-has_end (t ∷ []) h = ground arith
ends_once-has_end (t ∷ (u ∷ ts)) h = ground (arith, ends_once-has_end (u ∷ ts))

nothing_after :
    (used : Tokens) (t : Token) (rest : Tokens)
    → is_end t.kind ≡ true
    → ends_once (used ++ t ∷ rest) ≡ true
    → rest ≡ []
nothing_after [] t [] e h = refl
nothing_after [] t (u ∷ rest) e h = absurd (ground arith)
nothing_after (x ∷ []) t rest e h = nothing_after [] t rest e (ground arith)
nothing_after (x ∷ (y ∷ used)) t rest e h = nothing_after (y ∷ used) t rest e (ground arith)

-- `parse` returns an expression for all tokens but the last, or raises a syntax error.
pub data Parsed (tokens : Tokens) (r : Result BooleanError BoolExpr) : Type 0 where
  parsed :
      (used : Tokens) (last : Token) (e : BoolExpr)
      → r ≡ ok e
      → tokens ≡ used ++ last ∷ []
      → ((v : String → Bool) → Joins v or_kind used (meaning v e))
      → Parsed tokens r
  refused : (m : Message) (offset : ℕ) → r ≡ err (syntax_error m offset) → Parsed tokens r

at_end-Parsed :
    (base : ℕ) (tokens used left : Tokens) (e : BoolExpr)
    → ends_once tokens ≡ true
    → tokens ≡ used ++ left
    → has_end left ≡ true
    → ((v : String → Bool) → Joins v or_kind used (meaning v e))
    → Parsed tokens (at_end base e left)
at_end-Parsed base tokens used [] e once split end h = absurd (ground arith)
at_end-Parsed base tokens used (t ∷ left) e once split end h = elim (Bool-cases (is_end t.kind)) [
  | inl last ↦
      let empty =
        nothing_after used t left last (subst (λ (x : Tokens). ends_once x ≡ true) split once) in
      parsed used t e (rw last refl) (split ∙ ap (λ (x : Tokens). used ++ t ∷ x) empty) h
  | inr other ↦ refused unexpected_token (base + t.offset) (rw other refl)
]

-- On tokens with one end, at the end, `parse` ends: it raises a syntax error, or it returns an expression
-- that has, for every assignment of the names, the value that the grammar gives the tokens.
pub parse-Parsed :
    (base : ℕ) (tokens : Tokens) → ends_once tokens ≡ true → Parsed tokens (parse base tokens)
unfolding parse
parse-Parsed base [] once = absurd (ground arith)
parse-Parsed base (t ∷ ts) once = elim (Bool-cases (is_end t.kind)) [
  | inl last ↦ refused empty_expression (base + t.offset) (rw last refl)
  | inr other ↦
      elim (parse_or-Parses (suc (length (t ∷ ts))) base (t ∷ ts) (omega arith)
        (ends_once-has_end (t ∷ ts) once)) [
          | raised m offset e ↦ refused m offset (rw (other, e) refl)
          | returned used left e eq split end low is_joined ↦
              rw (other, eq) (at_end-Parsed base (t ∷ ts) used left e once split end is_joined)
        ]
]
