-- ===== src/Lower/Tests.antt =====
-- Runs of the lowering of nodes, and its theorems at concrete operands.
use open_collate.Common.{ℕ, suc, arith, pos, refl, true, false, not, lez, none, [], ◌∷◌, ok}
use open_collate.Kernel.Meter.{Meter, default_limits}
use open_collate.Kernel.Meaning.{Assignment}
use open_collate.Cnf.State.{Cnf, new_cnf, one, minus_one, pure, ◌>>=◌}
use open_collate.Cnf.Words.{Bits, const, less, equal, negate}
use open_collate.Cnf.Words as Words
use open_collate.Cnf.Rules.{Means, Meets}
use open_collate.Cnf.SharedGates.{HasValue}
use open_collate.Cnf.WordLaws.{nil, cons}
use open_collate.Ir.Circuit.{Node, binary_and, numeral}
use open_collate.Ir.Values.{Operand, Env, node_value, value_if, shift_value, concat_values, parity}
use open_collate.Lower.Nodes.{
  Lowered, Frame, lower_node, multiply_rows, shift_bits, fill_of, resize, concat_bits, xor_from,
}
use open_collate.Lower.Correct.{
  Agree, none_left, one_more, Computes, ComputesWord, HasNumber, ComputesNumber,
}
use open_collate.Lower.Operators.{lower_node_sound}
use open_collate.Lower.Multiply.{multiply-Computes}
use open_collate.Lower.ShiftOperators.{shift_left-Computes, shift_right-Computes}
use open_collate.Lower.Extension.{cast-ComputesWord}
use open_collate.Lower.Words.{subtract-Computes}
use open_collate.Lower.Concatenation.{concat_bits-HasNumber}
use open_collate.Lower.Parity.{parity-HasValue}
use open_collate.Lower.Booleans.{less-HasValue}

abbrev meter : Meter
meter = record {
  limits = default_limits;
  clock = λ n. n;
  readings = 1;
  deadline = 30_000;
  work = 0;
  next_clock_check = 0;
}

abbrev all_true : Assignment
all_true n = true

abbrev empty_env : Env
empty_env s = none

abbrev empty_frame : Frame
empty_frame s = none

-- A builder with variables 2 to 4.
abbrev builder : Cnf
builder = record (new_cnf meter) { variables = 4 }

abbrev three : Operand
three = record { width = 2; signed = true; value = 3 }

abbrev variables_2_3 : Lowered
variables_2_3 = record { signed = true; bits = pos 2 ∷ pos 3 ∷ [] }

abbrev variables_4_1 : Lowered
variables_4_1 = record { signed = true; bits = pos 4 ∷ pos 1 ∷ [] }

true_literal : (n : ℕ) → Means all_true (pos (suc n)) true
true_literal n = record { nonzero = ground arith; meaning = refl }

Agree-2_3 : Agree all_true three variables_2_3
Agree-2_3 = record {
  bools = true ∷ true ∷ [];
  word = cons (true_literal 1) (cons (true_literal 2) nil);
  width = refl;
  value = refl;
  signed = refl;
}

Agree-4_1 : Agree all_true three variables_4_1
Agree-4_1 = record {
  bools = true ∷ true ∷ [];
  word = cons (true_literal 3) (cons (true_literal 0) nil);
  width = refl;
  value = refl;
  signed = refl;
}

abbrev conjunction : Node
conjunction = record { op = binary_and; width = 2; signed = true; args = []; value = numeral 0 }

lower_node_sound_example :
    ComputesNumber all_true 2
      (node_value conjunction (three ∷ three ∷ []) empty_env)
      (pos 5 ∷ pos 3 ∷ [])
unfolding lower_node ◌>>=◌ node_value
lower_node_sound_example =
    lower_node_sound all_true empty_env empty_frame conjunction builder refl (λ s v e. cc)
      (one_more Agree-2_3 (one_more Agree-4_1 none_left)) tt refl (refl, (refl, (refl, (refl, tt))))

-- 3 times 3, on variables.
multiply-Computes_example :
    Meets all_true
      (multiply_rows 2 0 (pos 2 ∷ pos 3 ∷ []) (pos 4 ∷ pos 1 ∷ []) (const 0 2))
      (Computes all_true (ok (pos 9)))
multiply-Computes_example = multiply-Computes all_true refl 2 Agree-2_3 Agree-4_1

shift_left-Computes_example :
    Meets all_true
      (shift_bits true false variables_2_3 variables_4_1)
      (Computes all_true (ok (shift_value true false three three)))
shift_left-Computes_example = shift_left-Computes all_true refl Agree-2_3 Agree-4_1

shift_right-Computes_example :
    Meets all_true
      (shift_bits false true variables_2_3 variables_4_1)
      (Computes all_true (ok (shift_value false true three three)))
shift_right-Computes_example = shift_right-Computes all_true refl true Agree-2_3 Agree-4_1

-- -1 cast to four bits.
cast-ComputesWord_example :
    Meets all_true
      (fill_of true (pos 2 ∷ pos 3 ∷ []) >>= λ fill. pure (resize 4 fill (pos 2 ∷ pos 3 ∷ [])))
      (ComputesWord all_true 4 (ok (value_if true three)))
cast-ComputesWord_example = cast-ComputesWord all_true refl 4 Agree-2_3

less-HasValue_example :
    Meets all_true
      (less (pos 2 ∷ pos 3 ∷ []) (pos 4 ∷ pos 1 ∷ []) true)
      (HasValue all_true (not (lez (value_if true three) (value_if true three))))
less-HasValue_example = less-HasValue all_true refl true Agree-2_3 Agree-4_1

subtract-Computes_example :
    Meets all_true
      (Words.add (pos 2 ∷ pos 3 ∷ []) (negate (pos 4 ∷ pos 1 ∷ [])) one)
      (Computes all_true (ok (pos 0)))
subtract-Computes_example = subtract-Computes all_true refl Agree-2_3 Agree-4_1

concat_bits-HasNumber_example :
    HasNumber all_true 4 15 (concat_bits (variables_2_3 ∷ variables_4_1 ∷ []))
unfolding concat_values
concat_bits-HasNumber_example =
    concat_bits-HasNumber all_true (one_more Agree-2_3 (one_more Agree-4_1 none_left))

parity-HasValue_example :
    Meets all_true (xor_from minus_one (pos 2 ∷ pos 3 ∷ [])) (HasValue all_true (parity 3))
parity-HasValue_example = parity-HasValue all_true refl Agree-2_3
