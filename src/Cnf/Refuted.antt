-- ===== src/Cnf/Refuted.antt =====
-- What a refutation of `CNF.problem` (src/opencollate/sequential_cnf.py) that `verify_rup`
-- (src/opencollate/proof_kernel.py) accepts says of the assertion.
use open_collate.Common.{
  ℤ, pos, ◌≡◌, refl, ap, ◌∙◌, Bool, true, false, ◌||◌, List, [], ◌∷◌, ◌++◌, ok, All, All-append,
  Bool-cases, inl, inr,
}
use open_collate.Kernel.Meter.{Meter}
use open_collate.Kernel.Clause.{Atom, int, RawClause, array, Clause}
use open_collate.Kernel.Verify.{RawRows, rows, Stats, verify_rup}
use open_collate.Kernel.Meaning.{Assignment, lit_true, clause_true, atoms_true, raw_true}
use open_collate.Kernel.Soundness.{verify_rup_sound}
use open_collate.Cnf.State.{Cnf}
use open_collate.Cnf.Words.{problem}
use open_collate.Cnf.Rules.{Models}

-- Clauses as the arrays of integers that the checker reads.
abbrev pub raw_atoms : Clause → List Atom
raw_atoms [] = []
raw_atoms (l ∷ ls) = int l ∷ raw_atoms ls

abbrev pub raw_clauses : List Clause → List RawClause
raw_clauses [] = []
raw_clauses (c ∷ cs) = array (raw_atoms c) ∷ raw_clauses cs

atoms_true-raw_atoms : (σ : Assignment) (c : Clause) → atoms_true σ (raw_atoms c) ≡ clause_true σ c
atoms_true-raw_atoms σ [] = refl
atoms_true-raw_atoms σ (l ∷ ls) = ap (λ (b : Bool). lit_true σ l || b) (atoms_true-raw_atoms σ ls)

pub All-raw_clauses :
    (σ : Assignment) (cs : List Clause)
    → All (λ c. clause_true σ c ≡ true) cs
    → All (λ raw. raw_true σ raw ≡ true) (raw_clauses cs)
All-raw_clauses σ [] h = tt
All-raw_clauses σ (c ∷ cs) (h, hs) = (atoms_true-raw_atoms σ c ∙ h, All-raw_clauses σ cs hs)

-- Where `verify_rup` accepts a refutation of the problem of an assertion, the asserted literal is
-- false under every assignment that makes the builder's clauses true.
pub refuted-problem :
    (q : Cnf) (assertion : ℤ) (proof : RawRows) (m : Meter) {r : Stats × Meter}
    → verify_rup
        (rows (raw_clauses (problem assertion q).1))
        (int (pos (problem assertion q).0))
        proof
        m
      ≡ ok r
    → (σ : Assignment) → Models σ q
    → lit_true σ assertion ≡ false
unfolding problem
refuted-problem q assertion proof m e σ h = elim (Bool-cases (lit_true σ assertion)) [
  | inl t ↦ absurd (
      verify_rup_sound (rows (raw_clauses (q.clauses ++ (assertion ∷ []) ∷ [])))
        (int (pos q.variables)) proof m e σ
        (All-raw_clauses σ _ (All-append _ q.clauses ((assertion ∷ []) ∷ []) h (rw t refl, tt))))
  | inr f ↦ f
]
