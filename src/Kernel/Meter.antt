-- ===== src/Kernel/Meter.antt =====
-- `Limits` and `Meter` of src/opencollate/proof_kernel.py: the checking budget. The clock is a
-- parameter of a meter: reading number `n` of it, in milliseconds.
use open_collate.Common.{ℕ, ◌+◌, ◌||◌, Result, ok, err, ◌>>=◌, ltb, leb, ◌==◌, if◌then◌else◌}

-- `ProofError`, one constructor for each message of the module and of sequential_cnf.py, which
-- raises it too. `lookup_failed` is the IndexError or KeyError of a read that finds nothing,
-- `strict_zip` the ValueError of `zip(…, strict=True)`; `out_of_fuel` is no outcome of the source.
pub data ProofError : Type 0 where
  limit_not_positive deadline_exhausted work_exhausted : ProofError
  not_a_clause clause_literals_exhausted bad_literal : ProofError
  clauses_exhausted inconsistent_watch bad_variables bad_input_count bad_proof : ProofError
  literals_exhausted trailing_data no_empty_clause : ProofError
  invalid_addition : ℕ → ProofError
  cnf_variables_exhausted cnf_clauses_exhausted cnf_literals_exhausted : ProofError
  unsupported_operator width_disagrees : ProofError
  lookup_failed strict_zip out_of_fuel : ProofError

pub record Limits : Type 0 where
  pub variables : ℕ
  pub clauses : ℕ
  pub literals : ℕ
  pub steps : ℕ
  pub work : ℕ
  pub timeout_ms : ℕ

abbrev pub default_limits : Limits
default_limits = record {
  variables = 100_000;
  clauses = 200_000;
  literals = 2_000_000;
  steps = 100_000;
  work = 50_000_000;
  timeout_ms = 30_000;
}

pub record Meter : Type 0 where
  pub limits : Limits
  -- `time.monotonic`, by the number of the reading
  pub clock : ℕ → ℕ
  pub readings : ℕ
  pub deadline : ℕ
  pub work : ℕ
  pub next_clock_check : ℕ

-- `Meter.__init__`; the first reading of the clock sets the deadline.
unfoldable pub new_meter : (ℕ → ℕ) → Limits → Result ProofError Meter
new_meter clock l =
    if l.variables == 0
      || (l.clauses == 0
          || (l.literals == 0 || (l.steps == 0 || (l.work == 0 || l.timeout_ms == 0))))
    then err limit_not_positive
    else ok (record {
      limits = l;
      clock = clock;
      readings = 1;
      deadline = clock 0 + l.timeout_ms;
      work = 0;
      next_clock_check = 0;
    })

-- `Meter.remaining`, for the check that it makes.
unfoldable pub remaining : Meter → Result ProofError Meter
remaining m =
    if leb m.deadline (m.clock m.readings)
    then err deadline_exhausted
    else ok (record m { readings = m.readings + 1 })

unfoldable pub spend : ℕ → Meter → Result ProofError Meter
unfolding remaining
spend amount m =
    let spent : Meter = record m { work = m.work + amount } in
    if ltb m.limits.work spent.work
    then err work_exhausted
    else if leb m.next_clock_check spent.work
    then (do
      checked ← remaining spent
      ok (record checked { next_clock_check = spent.work + 1024 }))
    else ok spent
