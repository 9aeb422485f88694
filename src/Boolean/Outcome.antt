-- ===== src/Boolean/Outcome.antt =====
-- What a method of the parser (src/opencollate/boolean.py) comes to: what it returns is said of the
-- tokens it took, or it raises a syntax error.
use Prim.Native.String.{String}
use mathlib.Core.List.{append_assoc, append-nil}
use mathlib.Core.Path.{subst}
use open_collate.Common.{
  ℕ, zero, suc, ◌≡◌, ◌<◌, ◌≤◌, refl, sym, ap, ◌∙◌, Bool, true, false, ◌||◌, List, [], ◌∷◌, ◌++◌,
  Result, ok, err, length, arith, All, Bool-cases, inl, inr,
}
use open_collate.Boolean.Expr.{BoolExpr, BooleanError, syntax_error, Message, meaning}
use open_collate.Boolean.Tokens.{Kind, Token}
use open_collate.Boolean.Parser.{Connective, Tokens, Parse, is_end, count_kind, more_operands}
use open_collate.Boolean.Combine.{join, join_all, join_all-append}
use open_collate.Boolean.Grammar.{Joins}

-- The last token is still to come.
abbrev pub has_end : Tokens → Bool
has_end [] = false
has_end (t ∷ ts) = is_end t.kind || has_end ts

-- Of at most so many tokens left.
pub data Outcome {A : Type 0} (P : Tokens → A → Type 0) (tokens : Tokens) (bound : ℕ)
    (r : Result BooleanError (A × Tokens)) : Type 0 where
  returned :
      (used left : Tokens) (a : A)
      → r ≡ ok (a, left)
      → tokens ≡ used ++ left
      → has_end left ≡ true
      → length left < bound
      → P used a
      → Outcome P tokens bound r
  raised : (m : Message) (offset : ℕ) → r ≡ err (syntax_error m offset) → Outcome P tokens bound r

-- A method that reads an expression from any list of fewer than `n` tokens.
abbrev pub Parses : ℕ → (Tokens → BoolExpr → Type 0) → Parse → Type 0
Parses n P parse =
    (ts : Tokens) → length ts < n → has_end ts ≡ true → Outcome P ts (length ts) (parse ts)

abbrev pub Counted : (Kind → Bool) → Tokens → Type 0
Counted p tokens =
    (used : Tokens) × ((left : Tokens) × ((count_kind p tokens ≡ ok (length used, left))
        × ((tokens ≡ used ++ left)
            × ((has_end left ≡ true)
                × ((length left ≤ length tokens) × All (λ t. p t.kind ≡ true) used)))))

-- A loop over tokens of some kinds ends before the last token.
pub count_kind-Counted :
    (p : Kind → Bool)
    → ((k : Kind) → is_end k ≡ true → p k ≡ false)
    → (tokens : Tokens) → has_end tokens ≡ true
    → Counted p tokens
count_kind-Counted p stops [] h = absurd (ground arith)
count_kind-Counted p stops (t ∷ ts) h = elim (Bool-cases (p t.kind)) [
  | inr other ↦ ([], (t ∷ ts, (rw other refl, (refl, (h, (omega arith, tt))))))
  | inl same ↦
      let more : has_end ts ≡ true = ground (arith, stops t.kind) in
      let (used, (left, (e, (split, (end, (low, all)))))) = count_kind-Counted p stops ts more in
      (
        t ∷ used,
        (
          left,
          (
            rw (same, e) refl,
            (ap (λ (x : Tokens). t ∷ x) split, (end, (omega (arith, low), (same, all)))),
          ),
        ),
      )
]

-- Tokens that are taken in two steps.
pub resplit :
    (ts used left used2 left2 : Tokens)
    → ts ≡ used ++ left
    → left ≡ used2 ++ left2
    → ts ≡ (used ++ used2) ++ left2
resplit ts used left used2 left2 e e2 =
    e ∙ ap (λ (x : Tokens). used ++ x) e2 ∙ sym (append_assoc used used2 left2)

-- The loop over operands of a connective `kind`, with operands that have `N`.
module _ (kind : Connective) (p : Kind → Bool) (N : (String → Bool) → Tokens → Bool → Type 0)
    (step : (v : String → Bool) (t : Token) (ts us : Tokens) (a b : Bool)
      → p t.kind ≡ true
      → Joins v kind ts a
      → N v us b
      → Joins v kind (ts ++ t ∷ us) (join kind a b)) where
  abbrev pub IsOperand : Tokens → BoolExpr → Type 0
  IsOperand used e = (v : String → Bool) → N v used (meaning v e)

  abbrev pub AreOperands : Tokens → Tokens → List BoolExpr → Type 0
  AreOperands before used es =
      (v : String → Bool) → Joins v kind (before ++ used) (join_all v kind es)

  -- What was read before, and one operand more.
  one_more_operand :
      (t : Token) (before used : Tokens) (es : List BoolExpr) (e : BoolExpr)
      → p t.kind ≡ true
      → ((v : String → Bool) → Joins v kind before (join_all v kind es))
      → IsOperand used e
      → (v : String → Bool) → Joins v kind (before ++ t ∷ used) (join_all v kind (es ++ e ∷ []))
  one_more_operand t before used es e same h is_operand v =
      subst (Joins v kind (before ++ t ∷ used)) (sym (join_all-append v kind es e))
        (step v t before used (join_all v kind es) (meaning v e) same (h v) (is_operand v))

  pub more_operands-Outcome :
      (stops : (k : Kind) → is_end k ≡ true → p k ≡ false) (n : ℕ) (next : Parse)
      → Parses n IsOperand next
      → (fuel : ℕ) (before : Tokens) (es : List BoolExpr) (tokens : Tokens) → length tokens ≤ fuel
      → length tokens < n
      → has_end tokens ≡ true
      → ((v : String → Bool) → Joins v kind before (join_all v kind es))
      → Outcome
          (AreOperands before)
          tokens
          (suc (length tokens))
          (more_operands fuel p next es tokens)
  unfolding more_operands
  more_operands-Outcome stops n next good fuel before es [] enough low end h = absurd (ground arith)
  more_operands-Outcome stops n next good zero before es (t ∷ ts) enough low end h =
      absurd (omega arith)
  more_operands-Outcome stops n next good (suc fuel) before es (t ∷ ts) enough low end h =
      elim (Bool-cases (p t.kind)) [
        | inr other ↦ returned [] (t ∷ ts) es (rw other refl) refl end (omega arith) (λ v.
            subst (λ (x : Tokens). Joins v kind x (join_all v kind es)) (sym (append-nil before))
              (h v))
        | inl same ↦
            let more : has_end ts ≡ true = ground (arith, stops t.kind) in
            elim (good ts (omega arith) more) [
              | raised m offset e ↦ raised m offset (rw (same, e) refl)
              | returned used left e eq split end1 low1 is_operand ↦
                  elim (more_operands-Outcome stops n next good fuel (before ++ t ∷ used)
                    (es ++ e ∷ []) left (omega arith) (omega arith) end1
                    (one_more_operand t before used es e same h is_operand)) [
                      | raised m offset e2 ↦ raised m offset (rw (same, eq, e2) refl)
                      | returned used2 left2 es2 eq2 split2 end2 low2 all ↦
                          returned (t ∷ used ++ used2) left2 es2 (rw (same, eq, eq2) refl)
                            (ap (λ (x : Tokens). t ∷ x)
                              (resplit ts used left used2 left2 split split2))
                            end2 (omega arith)
                            (λ v.
                              subst (λ (x : Tokens). Joins v kind x (join_all v kind es2))
                                (append_assoc before (t ∷ used) used2) (all v))
                    ]
            ]
      ]
