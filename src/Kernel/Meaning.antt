-- ===== src/Kernel/Meaning.antt =====
-- What literals and clauses mean under an assignment of the variables, and that the normal form of
-- a clause (`_clause` of src/opencollate/proof_kernel.py) keeps it.
use open_collate.Common.{
  ℕ, ℤ, zero, suc, pos, negsuc, ◌≡◌, refl, ap, Bool, true, false, not, ◌||◌, Option, none, some,
  List, [], ◌∷◌, ◌++◌, ok, >>=-eq-ok, guard-eq-ok, neg, abs, eqz, eqz_iff, arith, ltb, ◌==◌, inl,
  inr, Bool-cases, length,
}
use open_collate.Kernel.Meter.{Meter, spend}
use open_collate.Kernel.Clause.{
  Atom, int, other_atom, RawClause, array, other_value, Clause, contains, Normal, add_literal,
  clause_loop, no_literals, as_clause, normalize,
}

abbrev pub Assignment : Type 0
Assignment = ℕ → Bool

-- No assignment makes the literal 0 true.
abbrev pub lit_true : Assignment → ℤ → Bool
lit_true σ (pos zero) = false
lit_true σ (pos (suc n)) = σ (suc n)
lit_true σ (negsuc n) = not (σ (suc n))

abbrev pub clause_true : Assignment → Clause → Bool
clause_true σ [] = false
clause_true σ (l ∷ ls) = lit_true σ l || clause_true σ ls

abbrev pub atoms_true : Assignment → List Atom → Bool
atoms_true σ [] = false
atoms_true σ (int l ∷ ls) = lit_true σ l || atoms_true σ ls
atoms_true σ (other_atom ∷ ls) = atoms_true σ ls

abbrev pub raw_true : Assignment → RawClause → Bool
raw_true σ (array atoms) = atoms_true σ atoms
raw_true σ other_value = false

abbrev pub normal_true : Assignment → Option Clause → Bool
normal_true σ none = true
normal_true σ (some clause) = clause_true σ clause

module _ (σ : Assignment) where
  pub lit_true-neg : (l : ℤ) → (abs l == 0) ≡ false → lit_true σ (neg l) ≡ not (lit_true σ l)
  lit_true-neg (pos zero) h = ground arith
  lit_true-neg (pos (suc n)) h = refl
  lit_true-neg (negsuc n) h = ground arith

  pub lit_true-neg-false : (l : ℤ) → lit_true σ l ≡ true → lit_true σ (neg l) ≡ false
  lit_true-neg-false (pos zero) h = cc
  lit_true-neg-false (pos (suc n)) h = ground arith
  lit_true-neg-false (negsuc n) h = ground arith

  pub clause_true-append :
      (xs ys : Clause) → clause_true σ (xs ++ ys) ≡ (clause_true σ xs || clause_true σ ys)
  clause_true-append [] ys = refl
  clause_true-append (x ∷ xs) ys = ground (arith, clause_true-append xs ys)

  -- A clause is true if a literal that it contains is.
  pub clause_true-contains :
      (l : ℤ) (xs : Clause) → contains l xs ≡ true → lit_true σ l ≡ true → clause_true σ xs ≡ true
  unfolding contains
  clause_true-contains l [] h t = cc
  clause_true-contains l (x ∷ xs) h t = elim (Bool-cases (eqz x l)) [
    | inl e ↦ rw (ap (lit_true σ) ((eqz_iff x l).0 e)) (rw t refl)
    | inr e ↦ ground (arith, clause_true-contains l xs (rw e at h) t)
  ]

  abbrev meaning : Normal → Bool
  meaning n = n.tautology || clause_true σ n.result

  meaning-add_literal :
      (l : ℤ) (n : Normal)
      → (abs l == 0) ≡ false
      → meaning (add_literal l n) ≡ (meaning n || lit_true σ l)
  unfolding add_literal
  meaning-add_literal l n h = ground (
    arith,
    clause_true-append n.result (l ∷ []),
    clause_true-contains l n.result,
    clause_true-contains (neg l) n.result,
    lit_true-neg l h,
  )

  meaning-clause_loop :
      (variables : ℕ) (atoms : List Atom) (n : Normal) (m : Meter) {n' : Normal} {m' : Meter}
      → clause_loop variables atoms n m ≡ ok (n', m')
      → meaning n' ≡ (meaning n || atoms_true σ atoms)
  unfolding clause_loop
  meaning-clause_loop variables [] n m e = ground arith
  meaning-clause_loop variables (other_atom ∷ rest) n m e =
      let (m1, p, q) = >>=-eq-ok (spend 1 m) _ e in cc
  meaning-clause_loop variables (int l ∷ rest) n m {n'} {m'} e =
      let (m1, p, q) = >>=-eq-ok (spend 1 m) _ e in
      let (nonzero, more) = guard-eq-ok (abs l == 0 || ltb variables (abs l)) _ _ q in
      let step = meaning-add_literal l n (ground arith) in
      let ih = meaning-clause_loop variables rest (add_literal l n) m1 more in
      ground (arith, ih, step)

  normal_true-as_clause : (n : Normal) → normal_true σ (as_clause n) ≡ meaning n
  normal_true-as_clause n = ground arith

  -- Where `_clause` returns, its result is true under an assignment just where the clause read is;
  -- `None` counts as true.
  pub normal_true-normalize :
      (raw : RawClause) (variables : ℕ) (m : Meter) {clause : Option Clause} {m' : Meter}
      → normalize raw variables m ≡ ok (clause, m')
      → normal_true σ clause ≡ raw_true σ raw
  unfolding normalize
  normal_true-normalize other_value variables m e = cc
  normal_true-normalize (array value) variables m e =
      let (_, q) = guard-eq-ok (ltb m.limits.literals (length value)) _ _ e in
      let ((n, m1), p, r) = >>=-eq-ok (clause_loop variables value no_literals m) _ q in
      ground (arith, normal_true-as_clause n, meaning-clause_loop variables value no_literals m p)
