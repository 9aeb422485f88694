-- ===== src/Unroll/Problems.antt =====
-- `base_problem` and `step_problem` of src/opencollate/sequential_cnf.py.
use open_collate.Common.{
  ℕ, zero, suc, ◌+◌, ◌-◌, ℤ, true, false, List, [], ◌∷◌, Result, ok, err, neg,
}
use open_collate.Kernel.Meter.{ProofError, Meter}
use open_collate.Kernel.Clause.{Clause}
use open_collate.Cnf.State.{Cnf, new_cnf, M, pure, ◌>>=◌, ◌>>◌}
use open_collate.Cnf.Gates.{clause}
use open_collate.Cnf.Words.{any_, problem}
use open_collate.Ir.Builder.{Circuit}
use open_collate.Spec.Request.{Property, Spec}
use open_collate.Spec.Normalize.{history_of}
use open_collate.Unroll.Frames.{Frames, append_all, property}

-- A problem: its number of variables, and its clauses.
abbrev pub Problem : Type 0
Problem = ℕ × List Clause

-- The guards and the failures of the cycles from `t` on, `count` of them.
unfoldable pub collect_checks : Circuit → Property → Frames → ℕ → ℕ → M (List ℤ × List ℤ)
unfolding property
collect_checks c p frames t zero = pure ([], [])
collect_checks c p frames t (suc count) = do
  (guard, predicate) ← property c p frames t
  (guards, failures) ← collect_checks c p frames (t + 1) count
  pure (guard ∷ guards, neg predicate ∷ failures)

-- `for t in range(...): unroll.cnf.clause(hypothesis)`
unfoldable pub assume_property : Circuit → Property → Frames → ℕ → ℕ → M (Unit {0})
unfolding property clause
assume_property c p frames t zero = pure tt
assume_property c p frames t (suc count) = do
  (_, hypothesis) ← property c p frames t
  clause (hypothesis ∷ [])
  assume_property c p frames (t + 1) count

module _ {ℓ} {P : Type ℓ} (c : Circuit) (spec : Spec P) (p : Property) where
  -- The frames, and the literals `bad` and `cover`.
  unfoldable pub base_literals : M (Frames × (ℤ × ℤ))
  unfolding append_all collect_checks any_
  base_literals = do
    frames ← append_all c spec (spec.depth + 1) false []
    (guards, failures) ← collect_checks c p frames p.start_cycle (spec.depth + 1 - p.start_cycle)
    bad ← any_ failures
    cover ← any_ guards
    pure (frames, (bad, cover))

  abbrev both_problems :
      Result ProofError ((Frames × (ℤ × ℤ)) × Cnf)
      → Result ProofError ((Frames × (Problem × Problem)) × Meter)
  both_problems (ok ((frames, (bad, cover)), q)) =
      ok ((frames, (problem bad q, problem cover q)), q.meter)
  both_problems (err e) = err e

  unfoldable pub base_problem : Meter → Result ProofError ((Frames × (Problem × Problem)) × Meter)
  unfolding base_literals
  base_problem m = both_problems (base_literals (new_cnf m))

  unfoldable pub step_literal : ℕ → M ℤ
  unfolding append_all assume_property property
  step_literal k = do
    frames ← append_all c spec (history_of p.latency p.when + k + 1) true []
    assume_property c p frames (history_of p.latency p.when) k
    (_, conclusion) ← property c p frames (history_of p.latency p.when + k)
    pure (neg conclusion)

  abbrev one_problem : Result ProofError (ℤ × Cnf) → Result ProofError (Problem × Meter)
  one_problem (ok (l, q)) = ok (problem l q, q.meter)
  one_problem (err e) = err e

  unfoldable pub step_problem : ℕ → Meter → Result ProofError (Problem × Meter)
  unfolding step_literal
  step_problem k m = one_problem (step_literal k (new_cnf m))
