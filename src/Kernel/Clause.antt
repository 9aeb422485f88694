-- ===== src/Kernel/Clause.antt =====
-- `_clause` of src/opencollate/proof_kernel.py: the normal form of a raw clause.

use open_collate.Common.{
  ℕ, ℤ, Bool, false, ◌||◌, Option, none, some, List, [], ◌∷◌, ◌++◌, length, Result, ok, err, ◌>>=◌,
  neg, abs, eqz, ltb, ◌==◌, if◌then◌else◌,
}
use open_collate.Kernel.Meter.{
  ProofError, not_a_clause, clause_literals_exhausted, bad_literal, Meter, spend,
}

-- What `_clause` sees of an element of a decoded JSON array: an integer, or something else.
pub data Atom : Type 0 where
  int : ℤ → Atom
  other_atom : Atom

-- And of a whole value: an array, or something else.
pub data RawClause : Type 0 where
  array : List Atom → RawClause
  other_value : RawClause

abbrev pub Clause : Type 0
Clause = List ℤ

-- `lit in seen`
unfoldable pub contains : ℤ → Clause → Bool
contains l [] = false
contains l (x ∷ xs) = eqz x l || contains l xs

-- The loop's variables. `seen` has the elements of `result`, so it is not kept apart.
pub record Normal : Type 0 where
  pub result : Clause
  pub tautology : Bool

-- The loop's body after `spend`, for one integer.
unfoldable pub add_literal : ℤ → Normal → Normal
unfolding contains
add_literal lit n = record {
  result = if contains lit n.result then n.result else n.result ++ lit ∷ [];
  tautology = n.tautology || contains (neg lit) n.result;
}

unfoldable pub clause_loop : ℕ → List Atom → Normal → Meter → Result ProofError (Normal × Meter)
unfolding spend add_literal
clause_loop variables [] n m = ok (n, m)
clause_loop variables (other_atom ∷ rest) n m = do m' ← spend 1 m; err bad_literal
clause_loop variables (int lit ∷ rest) n m = do
  m' ← spend 1 m
  let more = clause_loop variables rest (add_literal lit n) m'
  if abs lit == 0 || ltb variables (abs lit) then err bad_literal else more

abbrev pub no_literals : Normal
no_literals = record { result = []; tautology = false }

-- `None if tautology else tuple(result)`
abbrev pub as_clause : Normal → Option Clause
as_clause n = if n.tautology then none else some n.result

unfoldable pub normalize : RawClause → ℕ → Meter → Result ProofError (Option Clause × Meter)
unfolding clause_loop
normalize other_value variables m = err not_a_clause
normalize (array value) variables m =
    if ltb m.limits.literals (length value)
    then err clause_literals_exhausted
    else do (n, m') ← clause_loop variables value no_literals m; ok (as_clause n, m')
