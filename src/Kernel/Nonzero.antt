-- ===== src/Kernel/Nonzero.antt =====
-- `_clause` of src/opencollate/proof_kernel.py lets no literal 0 through.
use mathlib.Core.Path.{subst}
use open_collate.Common.{
  ℕ, ℤ, ◌≡◌, Bool, true, false, ◌||◌, Option, none, some, List, [], ◌∷◌, length, ok, after-ok,
  after-if, ok-injective, abs, arith, ltb, ◌==◌, inl, inr, Bool-cases, if◌then◌else◌, All,
  All-append,
}
use open_collate.Kernel.Meter.{Meter, spend}
use open_collate.Kernel.Clause.{
  Atom, int, other_atom, RawClause, array, other_value, Clause, Normal, add_literal, clause_loop,
  no_literals, as_clause, normalize, contains,
}

-- No literal is 0.
abbrev pub IsNonzero : ℤ → Type 0
IsNonzero l = (abs l == 0) ≡ false

add_literal-IsNonzero :
    (l : ℤ) (n : Normal)
    → IsNonzero l
    → All IsNonzero n.result
    → All IsNonzero (add_literal l n).result
unfolding add_literal
add_literal-IsNonzero l n h a = elim (Bool-cases (contains l n.result)) [
  | inl old ↦ rw old a
  | inr new ↦ rw new (All-append IsNonzero n.result (l ∷ []) a (h, tt))
]

clause_loop-IsNonzero :
    (variables : ℕ) (atoms : List Atom) (n : Normal) (m : Meter) {r : Normal × Meter}
    → All IsNonzero n.result
    → clause_loop variables atoms n m ≡ ok r
    → All IsNonzero r.0.result
unfolding clause_loop
clause_loop-IsNonzero variables [] n m a e =
    subst (λ (x : Normal × Meter). All IsNonzero x.0.result) (ok-injective e) a
clause_loop-IsNonzero variables (other_atom ∷ rest) n m a e = after-ok (spend 1 m) e λ m' _ q. cc
clause_loop-IsNonzero variables (int l ∷ rest) n m a e = after-ok (spend 1 m) e λ m' _ q.
    after-if (abs l == 0 || ltb variables (abs l)) q (λ _ r. cc)
      λ inside r.
        clause_loop-IsNonzero variables rest (add_literal l n) m'
          (add_literal-IsNonzero l n (ground arith) a) r

abbrev pub AllNonzero : Option Clause → Type 0
AllNonzero none = Unit
AllNonzero (some c) = All IsNonzero c

as_clause-AllNonzero : (n : Normal) → All IsNonzero n.result → AllNonzero (as_clause n)
as_clause-AllNonzero n a = kept n.tautology n.result a
  where
    kept : (b : Bool) (c : Clause) → All IsNonzero c → AllNonzero (if b then none else some c)
    kept true c h = tt
    kept false c h = h

pub normalize-AllNonzero :
    (raw : RawClause) (variables : ℕ) (m : Meter) {r : Option Clause × Meter}
    → normalize raw variables m ≡ ok r
    → AllNonzero r.0
unfolding normalize
normalize-AllNonzero other_value variables m e = cc
normalize-AllNonzero (array value) variables m e =
    after-if (ltb m.limits.literals (length value)) e (λ _ q. cc)
      λ _ q. after-ok (clause_loop variables value no_literals m) q λ (n, m') p q'.
        subst (λ (x : Option Clause × Meter). AllNonzero x.0) (ok-injective q')
          (as_clause-AllNonzero n (clause_loop-IsNonzero variables value no_literals m tt p))
