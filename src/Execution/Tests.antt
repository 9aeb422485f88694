-- ===== src/Execution/Tests.antt =====
-- Runs of the ordered map, and its theorem at three items.
use Prim.Native.String.{String}
use open_collate.Common.{
  ℕ, ◌+◌, ◌≡◌, refl, ℤ, pos, Bool, true, false, Option, none, [], ◌∷◌, Result, ok, err, ◌==◌,
  if◌then◌else◌, All,
}
use open_collate.Execution.{
  in_call, out_of_range, number, flag, together, alone, parse_job_count, each_call,
  ordered_parallel_map,
}
use open_collate.Execution.Ordered.{IsGuarded, ordered_parallel_map-each_call}

abbrev no_text : String → Option ℤ
no_text s = none

-- Three fails.
abbrev next_even : ℕ → Result ℕ ℕ
next_even n = if n == 3 then err n else ok (n + 2)

abbrev not_four : ℕ → Bool
not_four n = if n == 4 then false else true

barrier :
    ordered_parallel_map next_even no_text (number (pos 2)) not_four (0 ∷ 2 ∷ 4 ∷ 6 ∷ [])
    ≡ (together (0 ∷ 2 ∷ []) ∷ alone 4 ∷ together (6 ∷ []) ∷ [], ok (2 ∷ 4 ∷ 6 ∷ 8 ∷ []))
unfolding ordered_parallel_map
barrier = refl

first_failure :
    (ordered_parallel_map next_even no_text (number (pos 2)) not_four (0 ∷ 3 ∷ 4 ∷ [])).1
    ≡ err (in_call 3)
unfolding ordered_parallel_map
first_failure = refl

flag_refused : parse_job_count {E = ℕ} no_text (flag true) ≡ err out_of_range
unfolding parse_job_count
flag_refused = refl

two_workers : parse_job_count {E = ℕ} no_text (number (pos 2)) ≡ ok 2
unfolding parse_job_count
two_workers = refl

ordered_parallel_map-each_call_example :
    ((ordered_parallel_map next_even no_text (number (pos 2)) not_four (0 ∷ 2 ∷ 4 ∷ [])).1
      ≡ each_call next_even (0 ∷ 2 ∷ 4 ∷ []))
    × All
        (IsGuarded next_even not_four)
        (ordered_parallel_map next_even no_text (number (pos 2)) not_four (0 ∷ 2 ∷ 4 ∷ [])).0
ordered_parallel_map-each_call_example =
    ordered_parallel_map-each_call next_even not_four no_text (number (pos 2)) (0 ∷ 2 ∷ 4 ∷ [])
      two_workers
