-- ===== src/Kernel/Tests.antt =====
-- Runs of the proof kernel, and its theorems at a concrete refutation.
use open_collate.Common.{
  ℕ, pos, negsuc, ◌≡◌, refl, true, [], some, ◌∷◌, Result, ok, err, returned_value,
}
use open_collate.Kernel.Meter.{
  ProofError, invalid_addition, no_empty_clause, trailing_data, bad_literal, Meter, default_limits,
  new_meter,
}
use open_collate.Kernel.Clause.{Atom, int, other_atom, array, normalize}
use open_collate.Kernel.Meaning.{clause_true, normal_true, raw_true, normal_true-normalize}
use open_collate.Kernel.Database.{Database, new_database, watch_literal}
use open_collate.Kernel.Propagation.{conflicts}
use open_collate.Kernel.Propagation.Agreement.{Follows}
use open_collate.Kernel.Verify.{RawRows, rows, Stats, verify_rup}
use open_collate.Kernel.Soundness.{Satisfies, conflicts_sound, verify_rup_sound}

abbrev meter : Meter
meter = record {
  limits = default_limits;
  clock = λ n. n;
  readings = 1;
  deadline = 30_000;
  work = 0;
  next_clock_check = 0;
}

abbrev lit : ℕ → Atom
lit n = int (pos n)

-- The literal -(n + 1).
abbrev not_lit : ℕ → Atom
not_lit n = int (negsuc n)

-- The four clauses on two variables have no model; the proof derives one unit first.
abbrev square : RawRows
square = rows (
    array (lit 1 ∷ lit 2 ∷ [])
    ∷ array (lit 1 ∷ not_lit 1 ∷ [])
    ∷ array (not_lit 0 ∷ lit 2 ∷ [])
    ∷ array (not_lit 0 ∷ not_lit 1 ∷ [])
    ∷ [])

abbrev refutation : RawRows
refutation = rows (array (lit 1 ∷ []) ∷ array [] ∷ [])

abbrev stats_of : Result ProofError (Stats × Meter) → Result ProofError Stats
stats_of (ok (s, m)) = ok s
stats_of (err e) = err e

starts : new_meter (λ n. n) default_limits ≡ ok meter
unfolding new_meter
starts = refl

accepts :
    stats_of (verify_rup square (lit 2) refutation meter)
    ≡ ok (record { steps = 2; clauses = 6; literals = 9 })
unfolding verify_rup
accepts = refl

-- The empty clause alone does not follow by propagation.
rejects :
    stats_of (verify_rup square (lit 2) (rows (array [] ∷ [])) meter) ≡ err (invalid_addition 1)
unfolding verify_rup
rejects = refl

needs_empty :
    stats_of (verify_rup square (lit 2) (rows (array (lit 1 ∷ []) ∷ [])) meter)
    ≡ err no_empty_clause
unfolding verify_rup
needs_empty = refl

stops_at_empty :
    stats_of
      (verify_rup square (lit 2) (rows (array (lit 1 ∷ []) ∷ array [] ∷ array [] ∷ [])) meter)
    ≡ err trailing_data
unfolding verify_rup
stops_at_empty = refl

refuses_text :
    stats_of (verify_rup (rows (array (other_atom ∷ []) ∷ [])) (lit 2) refutation meter)
    ≡ err bad_literal
unfolding verify_rup
refuses_text = refl

verify_rup_sound_example : ¬ Satisfies (λ n. true) square
unfolding verify_rup
verify_rup_sound_example =
    verify_rup_sound square (lit 2) refutation meter
      (returned_value (verify_rup square (lit 2) refutation meter) refl).1 (λ n. true)

-- Both literals of a clause, and one of them again.
normal_true-normalize_example :
    normal_true (λ n. true) (some (pos 1 ∷ negsuc 1 ∷ []))
    ≡ raw_true (λ n. true) (array (lit 1 ∷ not_lit 1 ∷ lit 1 ∷ []))
unfolding normalize
normal_true-normalize_example =
    normal_true-normalize (λ n. true) (array (lit 1 ∷ not_lit 1 ∷ lit 1 ∷ [])) 2 meter refl

-- A database with a clause to propagate in and one unit.
abbrev implication : Database
implication = record new_database {
  clauses = (negsuc 0 ∷ pos 2 ∷ []) ∷ [];
  positions = record { first = 0; second = 1 } ∷ [];
  watches = watch_literal (pos 2) 0 (watch_literal (negsuc 0) 0 (λ _. []));
  units = pos 1 ∷ [];
}

implication-Follows : Follows (λ n. true) implication
implication-Follows = record { clauses = (refl, tt); units = (refl, tt); nonempty = refl }

conflicts_sound_example : clause_true (λ n. true) (pos 2 ∷ []) ≡ true
unfolding conflicts
conflicts_sound_example =
    conflicts_sound (λ n. true) (pos 2 ∷ []) implication meter implication-Follows (refl, tt) refl
      refl
