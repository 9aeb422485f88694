-- ===== src/Cnf/Tests.antt =====
-- The theorems of the clause builder at concrete literals.
use open_collate.Common.{ℕ, suc, pos, negsuc, ◌≡◌, refl, true, false, [], ◌∷◌, arith, ◌==◌}
use open_collate.Kernel.Meter.{Meter, default_limits}
use open_collate.Kernel.Clause.{array}
use open_collate.Kernel.Verify.{rows, verify_rup}
use open_collate.Kernel.Meaning.{Assignment, lit_true}
use open_collate.Cnf.Refuted.{refuted-problem}
use open_collate.Cnf.State.{Cnf, new_cnf, minus_one}
use open_collate.Cnf.Gates.{and_, xor}
use open_collate.Cnf.Words.{problem, mux}
use open_collate.Cnf.Rules.{Means, Meets}
use open_collate.Cnf.SharedGates.{HasValue, Means-minus_one}
use open_collate.Cnf.GateLaws.{and_-Meets, xor-Meets}
use open_collate.Cnf.WordLaws.{MeansWord, nil, cons, mux-Meets}

abbrev all_true : Assignment
all_true n = true

true_literal : (n : ℕ) → Means all_true (pos (suc n)) true
true_literal n = record { nonzero = ground arith; meaning = refl }

true_word : MeansWord all_true (true ∷ true ∷ []) (pos 2 ∷ pos 3 ∷ [])
true_word = cons (true_literal 1) (cons (true_literal 2) nil)

and_-Meets_example : Meets all_true (and_ (pos 2) (pos 3)) (HasValue all_true true)
and_-Meets_example = and_-Meets all_true refl (pos 2) (pos 3) (true_literal 1) (true_literal 2)

xor-Meets_example : Meets all_true (xor (pos 2) (pos 3)) (HasValue all_true false)
xor-Meets_example = xor-Meets all_true refl (pos 2) (pos 3) (true_literal 1) (true_literal 2)

mux-Meets_example : Meets all_true (mux (pos 2) (pos 3) minus_one) (HasValue all_true true)
mux-Meets_example =
    mux-Meets all_true refl (pos 2) (pos 3) minus_one (true_literal 1) (true_literal 2)
      (Means-minus_one all_true refl)

abbrev meter : Meter
meter = record {
  limits = default_limits;
  clock = λ n. n;
  readings = 1;
  deadline = 30_000;
  work = 0;
  next_clock_check = 0;
}

-- Variable 4 is the conjunction of 2 and 3, and 2 is false.
abbrev gated : Cnf
gated = record (new_cnf meter) {
  variables = 4;
  clauses =
      (pos 1 ∷ [])
      ∷ (negsuc 3 ∷ pos 2 ∷ [])
      ∷ (negsuc 3 ∷ pos 3 ∷ [])
      ∷ (pos 4 ∷ negsuc 1 ∷ negsuc 2 ∷ [])
      ∷ (negsuc 1 ∷ [])
      ∷ [];
}

abbrev only_first : Assignment
only_first n = n == 1

refuted-problem_example : lit_true only_first (pos 4) ≡ false
unfolding verify_rup problem
refuted-problem_example =
    refuted-problem gated (pos 4) (rows (array [] ∷ [])) meter refl only_first
      (refl, (refl, (refl, (refl, (refl, tt)))))
