-- ===== src/Execution.antt =====
-- src/opencollate/execution.py: the map over parser views with bounded workers. A worker is a call of
-- the function, whose outcome does not depend on the others; `int(value)` on a text is an argument.
pub mod Ordered
mod Tests
use Prim.Native.String.{String}
use open_collate.Common.{
  ℕ, zero, suc, ℤ, pos, negsuc, Bool, true, false, ◌&&◌, ◌||◌, Option, none, some, List, [], ◌∷◌,
  ◌++◌, Result, ok, err, ◌>>=◌, length, leb, ltb, ◌==◌, if◌then◌else◌,
}

-- The two texts of the `ValueError` of `parse_job_count`, and an error of the function mapped.
pub data ExecutionError {ℓ} (E : Type ℓ) : Type ℓ where
  not_an_integer out_of_range : ExecutionError E
  in_call : E → ExecutionError E

-- `value: str | int`, where a `bool` is an `int`; `other_value` is a value at which `int` raises
-- TypeError, such as None.
pub data JobValue : Type 0 where
  number : ℤ → JobValue
  flag : Bool → JobValue
  text : String → JobValue
  other_value : JobValue

abbrev pub max_parse_jobs : ℕ
max_parse_jobs = 64

-- What was called: items together by workers, or one item in the caller's thread.
pub data Event {ℓ} (I : Type ℓ) : Type ℓ where
  together : List I → Event I
  alone : I → Event I

module _ {ℓ} {E : Type ℓ} where
  abbrev pub in_range : ℤ → Result (ExecutionError E) ℕ
  in_range (pos n) = if leb 1 n && leb n max_parse_jobs then ok n else err out_of_range
  in_range (negsuc n) = err out_of_range

  abbrev pub parsed_range : Option ℤ → Result (ExecutionError E) ℕ
  parsed_range none = err not_an_integer
  parsed_range (some n) = in_range n

  unfoldable pub parse_job_count : (String → Option ℤ) → JobValue → Result (ExecutionError E) ℕ
  parse_job_count int_of (number n) = in_range n
  parse_job_count int_of (flag b) = err out_of_range
  parse_job_count int_of (text s) = parsed_range (int_of s)
  parse_job_count int_of other_value = err not_an_integer

module _ {ℓ κ μ} {I : Type ℓ} {O : Type κ} {E : Type μ} (function : I → Result E O) where
  abbrev pub called : Result E O → Result (ExecutionError E) O
  called (ok y) = ok y
  called (err e) = err (in_call e)

  -- One call after the other: the first error ends them.
  abbrev pub each_call : List I → Result (ExecutionError E) (List O)
  each_call [] = ok []
  each_call (x ∷ xs) = do y ← called (function x); ys ← each_call xs; ok (y ∷ ys)

  -- `[executor.submit(function, item) for item in items]`: every item is called, and a future holds
  -- what its call came to.
  abbrev pub submit_all : List I → List (Result (ExecutionError E) O)
  submit_all [] = []
  submit_all (x ∷ xs) = called (function x) ∷ submit_all xs

  -- `[future.result() for future in futures]`: read in order, so the first error among them is raised.
  abbrev pub results_of : List (Result (ExecutionError E) O) → Result (ExecutionError E) (List O)
  results_of [] = ok []
  results_of (future ∷ futures) = do y ← future; ys ← results_of futures; ok (y ∷ ys)

  unfoldable pub run_parallel_block : List I → Result (ExecutionError E) (List O)
  run_parallel_block items = results_of (submit_all items)

  abbrev pub Run : Type (ℓ ⊔ (κ ⊔ μ))
  Run = List (Event I) × Result (ExecutionError E) (List O)

  -- `flush`: what it calls, and the results after it
  unfoldable pub flush : List I → List O → Run
  unfolding run_parallel_block
  flush [] results = ([], ok results)
  flush (x ∷ block) results =
      (together (x ∷ block) ∷ [], (do ys ← run_parallel_block (x ∷ block); ok (results ++ ys)))

  abbrev pub call_alone : I → List O → Run
  call_alone item results =
      (alone item ∷ [], (do y ← called (function item); ok (results ++ y ∷ [])))

  -- A step, and the next one where it did not raise.
  abbrev pub then_do : Run → (List O → Run) → Run
  then_do (events, err e) next = (events, err e)
  then_do (events, ok results) next = (events ++ (next results).0, (next results).1)

  -- `for item in selected`, and the last flush
  unfoldable pub map_blocks : (I → Bool) → List I → List I → List O → Run
  unfolding flush
  map_blocks is_safe [] block results = flush block results
  map_blocks is_safe (item ∷ items) block results = elim (is_safe item) [
    | true ↦ map_blocks is_safe items (block ++ item ∷ []) results
    | false ↦
        then_do (flush block results)
          (λ flushed. then_do (call_alone item flushed) (λ more. map_blocks is_safe items [] more))
  ]

  -- What is called before the first error.
  abbrev pub all_alone : List I → List (Event I)
  all_alone [] = []
  all_alone (x ∷ xs) =
      let rest = all_alone xs in alone x ∷ elim (called (function x)) [ err e ↦ [] | ok y ↦ rest ]

  unfoldable pub map_with : (I → Bool) → List I → Result (ExecutionError E) ℕ → Run
  unfolding map_blocks
  map_with is_safe items (err e) = ([], err e)
  map_with is_safe items (ok workers) =
      if workers == 1 || ltb (length items) 2
      then (all_alone items, each_call items)
      else map_blocks is_safe items [] []

  unfoldable pub ordered_parallel_map : (String → Option ℤ) → JobValue → (I → Bool) → List I → Run
  unfolding parse_job_count map_with
  ordered_parallel_map int_of jobs is_safe items =
      map_with is_safe items (parse_job_count int_of jobs)
