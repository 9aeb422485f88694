-- ===== src/Boolean/Factors.antt =====
-- The methods of the parser (src/opencollate/boolean.py) up to `parse_and` read what the grammar says.
use Prim.Native.String.{String}
use mathlib.Core.List.{append_assoc, append-nil}
use mathlib.Core.Path.{subst}
use open_collate.Common.{
  ℕ, zero, suc, ◌+◌, ◌≡◌, ◌<◌, ◌≤◌, refl, sym, ap, ◌∙◌, Bool, true, false, not, [], ◌∷◌, ◌++◌,
  length, if◌then◌else◌, arith, All, Bool-cases, inl, inr,
}
use open_collate.Boolean.Expr.{
  BoolExpr, bool_const, bool_var, bool_not, expected_primary, expected_close, meaning,
}
use open_collate.Boolean.Tokens.{
  Kind, const0, const1, name_token, end_token, open_paren, close_paren, bang, tilde, quote,
  ampersand, star, caret, bar, plus_sign, Token, is_close,
}
use open_collate.Boolean.Parser.{
  Connective, or_kind, Tokens, Parse, is_end, is_inversion, is_quote, is_odd, close_group, primary,
  parse_primary, parse_unary,
}
use open_collate.Boolean.Grammar.{
  Reads, reads_zero, reads_one, reads_name, reads_group, reads_prefix, reads_postfix, Joins,
}
use open_collate.Boolean.Outcome.{
  has_end, Outcome, returned, raised, Parses, count_kind-Counted, resplit,
}

-- An expression has the value that the grammar gives the tokens.
abbrev pub IsRead : Tokens → BoolExpr → Type 0
IsRead used e = (v : String → Bool) → Reads v used (meaning v e)

abbrev pub IsJoined : Connective → Tokens → BoolExpr → Type 0
IsJoined kind used e = (v : String → Bool) → Joins v kind used (meaning v e)

is_close-eq : (k : Kind) → is_close k ≡ true → k ≡ close_paren
is_close-eq close_paren h = refl
is_close-eq const0 h = absurd (ground arith)
is_close-eq const1 h = absurd (ground arith)
is_close-eq name_token h = absurd (ground arith)
is_close-eq end_token h = absurd (ground arith)
is_close-eq open_paren h = absurd (ground arith)
is_close-eq bang h = absurd (ground arith)
is_close-eq tilde h = absurd (ground arith)
is_close-eq quote h = absurd (ground arith)
is_close-eq ampersand h = absurd (ground arith)
is_close-eq star h = absurd (ground arith)
is_close-eq caret h = absurd (ground arith)
is_close-eq bar h = absurd (ground arith)
is_close-eq plus_sign h = absurd (ground arith)

-- A group, once its expression is read.
close_group-Outcome :
    (base : ℕ) (t : Token) (used left : Tokens) (e : BoolExpr) (n : ℕ)
    → t.kind ≡ open_paren
    → has_end left ≡ true
    → length left < n
    → IsJoined or_kind used e
    → Outcome IsRead (t ∷ (used ++ left)) n (close_group base e left)
close_group-Outcome base t used [] e n o end low h = absurd (ground arith)
close_group-Outcome base t used (u ∷ left) e n o end low h = elim (Bool-cases (is_close u.kind)) [
  | inr other ↦ raised expected_close (base + u.offset) (rw other refl)
  | inl same ↦
      let closing = is_close-eq u.kind same in
      let not_end : is_end u.kind ≡ false = rw closing refl in
      returned (t ∷ (used ++ u ∷ [])) left e (rw same refl)
        (ap (λ (x : Tokens). t ∷ x) (sym (append_assoc used (u ∷ []) left))) (ground arith)
        (omega arith) (λ v. reads_group t u o closing (h v))
]

module _ (base : ℕ) (group : Parse) (n : ℕ) (good : Parses n (IsJoined or_kind) group) where
  primary-Outcome :
      (k : Kind) (t : Token) (ts : Tokens)
      → t.kind ≡ k
      → length ts < n
      → has_end (t ∷ ts) ≡ true
      → Outcome IsRead (t ∷ ts) (suc (length ts)) (primary base group t ts)
  primary-Outcome const0 t ts e low h =
      returned (t ∷ []) ts (bool_const false) (rw e refl) refl (rw e at h) (omega arith)
        (λ v. reads_zero t e)
  primary-Outcome const1 t ts e low h =
      returned (t ∷ []) ts (bool_const true) (rw e refl) refl (rw e at h) (omega arith)
        (λ v. reads_one t e)
  primary-Outcome name_token t ts e low h =
      returned (t ∷ []) ts (bool_var t.text) (rw e refl) refl (rw e at h) (omega arith)
        (λ v. reads_name t e)
  primary-Outcome open_paren t ts e low h = elim (good ts low (rw e at h)) [
    | raised m offset f ↦ raised m offset (rw (e, f) refl)
    | returned used left x eq split end low1 is_joined ↦
        elim (close_group-Outcome base t used left x (suc (length ts)) e end (omega arith)
          is_joined) [
            | raised m offset f ↦ raised m offset (rw (e, eq, f) refl)
            | returned used2 left2 y eq2 split2 end2 low2 is_read ↦
                returned used2 left2 y (rw (e, eq, eq2) refl)
                  (ap (λ (x : Tokens). t ∷ x) split ∙ split2) end2 (omega arith) is_read
          ]
  ]
  primary-Outcome end_token t ts e low h = raised expected_primary (base + t.offset) (rw e refl)
  primary-Outcome close_paren t ts e low h = raised expected_primary (base + t.offset) (rw e refl)
  primary-Outcome bang t ts e low h = raised expected_primary (base + t.offset) (rw e refl)
  primary-Outcome tilde t ts e low h = raised expected_primary (base + t.offset) (rw e refl)
  primary-Outcome quote t ts e low h = raised expected_primary (base + t.offset) (rw e refl)
  primary-Outcome ampersand t ts e low h = raised expected_primary (base + t.offset) (rw e refl)
  primary-Outcome star t ts e low h = raised expected_primary (base + t.offset) (rw e refl)
  primary-Outcome caret t ts e low h = raised expected_primary (base + t.offset) (rw e refl)
  primary-Outcome bar t ts e low h = raised expected_primary (base + t.offset) (rw e refl)
  primary-Outcome plus_sign t ts e low h = raised expected_primary (base + t.offset) (rw e refl)

  parse_primary-Outcome :
      (ts : Tokens)
      → length ts ≤ n
      → has_end ts ≡ true
      → Outcome IsRead ts (length ts) (parse_primary base group ts)
  unfolding parse_primary
  parse_primary-Outcome [] low h = absurd (ground arith)
  parse_primary-Outcome (t ∷ ts) low h = primary-Outcome t.kind t ts refl (omega arith) h

-- A value after so many inversions.
abbrev flip : ℕ → Bool → Bool
flip n a = if is_odd n then not a else a

flip-suc : (n : ℕ) (a : Bool) → not (flip n a) ≡ flip (suc n) a
flip-suc n a = ground arith

flip-not : (n : ℕ) (a : Bool) → flip n (not a) ≡ flip (suc n) a
flip-not n a = ground arith

suc_plus : (k n : ℕ) → suc k + n ≡ suc (k + n)
suc_plus k n = omega arith

zero_plus : (n : ℕ) → 0 + n ≡ n
zero_plus n = omega arith

flip-add : (k n : ℕ) (a : Bool) → flip k (flip n a) ≡ flip (k + n) a
flip-add zero n a = ap (λ (m : ℕ). flip m a) (sym (zero_plus n))
flip-add (suc k) n a =
    sym (flip-suc k (flip n a))
    ∙ ap not (flip-add k n a)
    ∙ flip-suc (k + n) a
    ∙ ap (λ (m : ℕ). flip m a) (sym (suc_plus k n))

meaning-flip :
    (v : String → Bool) (n : ℕ) (e : BoolExpr)
    → meaning v (if is_odd n then bool_not e else e) ≡ flip n (meaning v e)
meaning-flip v n e = elim (Bool-cases (is_odd n)) [ inl h ↦ rw h refl | inr h ↦ rw h refl ]

Reads-prefixes :
    (v : String → Bool) (us : Tokens) (ts : Tokens) (a : Bool)
    → All (λ t. is_inversion t.kind ≡ true) us
    → Reads v ts a
    → Reads v (us ++ ts) (flip (length us) a)
Reads-prefixes v [] ts a h r = r
Reads-prefixes v (u ∷ us) ts a (h, hs) r =
    subst (Reads v (u ∷ (us ++ ts))) (flip-suc (length us) a)
      (reads_prefix u h (Reads-prefixes v us ts a hs r))

Reads-postfixes :
    (v : String → Bool) (us : Tokens) (ts : Tokens) (a : Bool)
    → All (λ t. is_quote t.kind ≡ true) us
    → Reads v ts a
    → Reads v (ts ++ us) (flip (length us) a)
Reads-postfixes v [] ts a h r = subst (λ (x : Tokens). Reads v x a) (sym (append-nil ts)) r
Reads-postfixes v (u ∷ us) ts a (h, hs) r =
    let more = Reads-postfixes v us (ts ++ u ∷ []) (not a) hs (reads_postfix u h r) in
    subst (Reads v (ts ++ u ∷ us)) (flip-not (length us) a) (
      subst (λ (x : Tokens). Reads v x (flip (length us) (not a))) (append_assoc ts (u ∷ []) us)
        more)

no_inversion : (k : Kind) → is_end k ≡ true → is_inversion k ≡ false
no_inversion k h =
    elim k as (λ k. is_end k ≡ true → is_inversion k ≡ false) [
      | bang ↦ λ p. absurd (ground arith)
      | tilde ↦ λ p. absurd (ground arith)
      | _ ↦ λ p. refl
    ]
      h

no_quote : (k : Kind) → is_end k ≡ true → is_quote k ≡ false
no_quote k h =
    elim k as (λ k. is_end k ≡ true → is_quote k ≡ false) [
      | quote ↦ λ p. absurd (ground arith)
      | _ ↦ λ p. refl
    ]
      h

-- A factor with its inversions before and after.
reads_unary :
    (before used after : Tokens) (e : BoolExpr)
    → All (λ t. is_inversion t.kind ≡ true) before
    → All (λ t. is_quote t.kind ≡ true) after
    → IsRead used e
    → IsRead
        (before ++ (used ++ after))
        (if is_odd (length before + length after) then bool_not e else e)
reads_unary before used after e hb ha h v =
    let inner = Reads-postfixes v after used (meaning v e) ha (h v) in
    let outer =
      Reads-prefixes v before (used ++ after) (flip (length after) (meaning v e)) hb inner in
    subst (Reads v (before ++ (used ++ after)))
      (flip-add (length before) (length after) (meaning v e)
        ∙ sym (meaning-flip v (length before + length after) e))
      outer

module _ (base : ℕ) (group : Parse) (n : ℕ) (good : Parses n (IsJoined or_kind) group) where
  pub parse_unary-Outcome :
      (ts : Tokens)
      → length ts ≤ n
      → has_end ts ≡ true
      → Outcome IsRead ts (length ts) (parse_unary base group ts)
  unfolding parse_unary
  parse_unary-Outcome ts low h =
      let (before, (left, (e1, (split1, (end1, (low1, all1)))))) =
        count_kind-Counted is_inversion no_inversion ts h in
      elim (parse_primary-Outcome base group n good left (omega (arith, low1)) end1) [
        | raised m offset f ↦ raised m offset (rw (e1, f) refl)
        | returned used left2 e e2 split2 end2 low2 is_read ↦
            let (after, (left3, (e3, (split3, (end3, (low3, all3)))))) =
              count_kind-Counted is_quote no_quote left2 end2 in
            returned (before ++ (used ++ after)) left3
              (if is_odd (length before + length after) then bool_not e else e)
              (rw (e1, e2, e3) refl)
              (resplit ts before left (used ++ after) left3 split1
                (resplit left used left2 after left3 split2 split3))
              end3 (omega (arith, low1, low3)) (reads_unary before used after e all1 all3 is_read)
      ]
