-- ===== src/Kernel/Verify.antt =====
-- `verify_rup` of src/opencollate/proof_kernel.py.
use open_collate.Common.{
  ℕ, ◌+◌, Bool, true, false, not, ◌&&◌, ◌||◌, Option, none, some, List, [], ◌∷◌, length, Result, ok,
  err, ◌>>=◌, or_raise, ltb, ◌==◌, pos, if◌then◌else◌,
}
use open_collate.Kernel.Meter.{
  ProofError, bad_variables, bad_input_count, bad_proof, literals_exhausted, trailing_data,
  no_empty_clause, invalid_addition, Meter, remaining,
}
use open_collate.Kernel.Clause.{Atom, int, RawClause, array, other_value, Clause, normalize}
use open_collate.Kernel.Database.{Database, new_database, add}
use open_collate.Kernel.Propagation.{conflicts}

-- What `verify_rup` sees of its argument `clauses` or `proof`: an array of values, or another value.
pub data RawRows : Type 0 where
  rows : List RawClause → RawRows
  other_rows : RawRows

pub record Stats : Type 0 where
  pub steps : ℕ
  pub clauses : ℕ
  pub literals : ℕ

-- The variables that both loops share: `database` with its meter, and `literals`.
pub record Progress : Type 0 where
  pub database : Database
  pub literals : ℕ
  pub meter : Meter

-- `len(raw)`, read only after `_clause` found an array.
abbrev pub raw_length : RawClause → ℕ
raw_length (array value) = length value
raw_length other_value = 0

-- The lines that the two loops share: normalise a clause and count its literals.
unfoldable pub read_clause : ℕ → RawClause → Progress → Result ProofError (Option Clause × Progress)
unfolding normalize
read_clause variables raw p = do
  (clause, m) ← normalize raw variables p.meter
  let literals = p.literals + raw_length raw
  if ltb m.limits.literals literals
      then err literals_exhausted
      else ok (clause, record p { literals = literals; meter = m })

unfoldable pub store_clause : Option Clause → Progress → Result ProofError Progress
unfolding add
store_clause clause p = do d ← add clause p.database p.meter; ok (record p { database = d })

-- `for raw in clauses`
unfoldable pub load : ℕ → List RawClause → Progress → Result ProofError Progress
unfolding read_clause store_clause
load variables [] p = ok p
load variables (raw ∷ rest) p = do
  (clause, p') ← read_clause variables raw p
  p'' ← store_clause clause p'
  load variables rest p''

-- `clause is not None and not database.conflicts(clause)`, to be answered with false.
unfoldable pub is_implied : Option Clause → Progress → Result ProofError (Bool × Progress)
unfolding conflicts
is_implied none p = ok (true, p)
is_implied (some clause) p = do
  (found, d, m) ← conflicts clause p.database p.meter
  ok (found, record p { database = d; meter = m })

abbrev pub is_empty_clause : Option Clause → Bool
is_empty_clause (some []) = true
is_empty_clause _ = false

abbrev pub is_nil {ℓ} : {A : Type ℓ} → List A → Bool
is_nil [] = true
is_nil (_ ∷ _) = false

-- The body of `for index, raw in enumerate(proof)`; `last` is `index == len(proof) - 1`.
unfoldable pub check_addition : ℕ → ℕ → Bool → RawClause → Progress → Result ProofError Progress
unfolding read_clause is_implied store_clause
check_addition variables index last raw p = do
  (clause, p') ← read_clause variables raw p
  (implied, p'') ← is_implied clause p'
  if not implied
      then err (invalid_addition (index + 1))
      else if is_empty_clause clause && not last
      then err trailing_data
      else store_clause clause p''

unfoldable pub check_proof : ℕ → ℕ → List RawClause → Progress → Result ProofError Progress
unfolding check_addition
check_proof variables index [] p = ok p
check_proof variables index (raw ∷ rest) p = do
  p' ← check_addition variables index (is_nil rest) raw p
  check_proof variables (index + 1) rest p'

-- `proof[-1] != []`, to be answered with false.
abbrev pub ends_empty : List RawClause → Bool
ends_empty [] = false
ends_empty (array [] ∷ []) = true
ends_empty (_ ∷ []) = false
ends_empty (_ ∷ raw ∷ rest) = ends_empty (raw ∷ rest)

unfoldable pub check_rows :
    ℕ → List RawClause → List RawClause → Meter → Result ProofError (Stats × Meter)
unfolding load check_proof remaining
check_rows variables clauses proof m = do
  loaded ← load variables clauses (record { database = new_database; literals = 0; meter = m })
  checked ← check_proof variables 0 proof loaded
  if not (ends_empty proof) then err no_empty_clause else do
    m' ← remaining checked.meter
    ok (
      record {
        steps = length proof;
        clauses = length checked.database.clauses;
        literals = checked.literals;
      },
      m',
    )

-- `1 <= variables <= m.limits.variables`, for an integer.
abbrev pub variables_ok : Atom → Meter → Option ℕ
variables_ok (int (pos n)) m = if n == 0 || ltb m.limits.variables n then none else some n
variables_ok _ m = none

abbrev pub input_ok : RawRows → Meter → Option (List RawClause)
input_ok other_rows m = none
input_ok (rows l) m = if ltb m.limits.clauses (length l) then none else some l

abbrev pub proof_ok : RawRows → Meter → Option (List RawClause)
proof_ok other_rows m = none
proof_ok (rows l) m = if length l == 0 || ltb m.limits.steps (length l) then none else some l

unfoldable pub verify_rup : RawRows → Atom → RawRows → Meter → Result ProofError (Stats × Meter)
unfolding check_rows
verify_rup clauses variables proof m = do
  n ← or_raise bad_variables (variables_ok variables m)
  input ← or_raise bad_input_count (input_ok clauses m)
  additions ← or_raise bad_proof (proof_ok proof m)
  check_rows n input additions m
