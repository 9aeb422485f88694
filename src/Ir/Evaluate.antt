-- ===== src/Ir/Evaluate.antt =====
-- `evaluate` of src/opencollate/sequential_ir.py: the loop with its explicit stack.
pub mod Reference
pub mod Settle
pub mod Correct
pub mod Total
use open_collate.Common.{
  ℕ, zero, suc, ◌+◌, Bool, true, false, Option, none, some, List, [], ◌∷◌, Result, ok, err, ◌>>=◌,
  or_raise, length, get_elem?, ◌==◌, if◌then◌else◌,
}
use open_collate.Ir.Circuit.{Node, SequentialError, lookup_error, out_of_fuel}
use open_collate.Ir.Values.{Operand, Env, node_value}
use open_collate.Ir.Builder.{Circuit}

-- `values`: a dict from node indices to values.
abbrev pub Values : Type 0
Values = ℕ → Option ℕ

abbrev pub no_values : Values
no_values i = none

-- `values[i] = v`
abbrev pub assign : ℕ → ℕ → Values → Values
assign i v values j = if j == i then some v else values j

-- The stack, its top first: `(i, visited)`.
abbrev pub Stack : Type 0
Stack = List (ℕ × Bool)

-- What the operands of a node are, by a way to get their values.
unfoldable pub collect :
    (ℕ → Result SequentialError ℕ) → List Node → List ℕ → Result SequentialError (List Operand)
collect get nodes [] = ok []
collect get nodes (j ∷ js) = do
  v ← get j
  m ← or_raise lookup_error (get_elem? nodes j)
  rest ← collect get nodes js
  ok ((record { width = m.width; signed = m.signed; value = v }) ∷ rest)

-- `values[j]`
abbrev pub read : Values → ℕ → Result SequentialError ℕ
read values j = or_raise lookup_error (values j)

abbrev pub push_unless : Option ℕ → ℕ → Stack → Stack
push_unless none a stack = (a, false) ∷ stack
push_unless (some v) a stack = stack

-- `stack.extend((a, False) for a in reversed(n.args) if a not in values)`
unfoldable pub push_args : Values → List ℕ → Stack → Stack
push_args values [] stack = stack
push_args values (a ∷ args) stack = push_unless (values a) a (push_args values args stack)

-- One round of the loop for the node `i`, once `i` is known not to be in `values`.
unfoldable pub visit_node :
    List Node → Env → ℕ → Bool → Node → Stack → Values → Result SequentialError (Stack × Values)
unfolding collect push_args
visit_node nodes env i false n stack values =
    ok (push_args values n.args ((i, true) ∷ stack), values)
visit_node nodes env i true n stack values = do
  a ← collect (read values) nodes n.args
  v ← node_value n a env
  ok (stack, assign i v values)

abbrev pub skip_or_visit :
    List Node → Env → ℕ → Bool → Stack → Values → Option ℕ → Result SequentialError (Stack × Values)
skip_or_visit nodes env i visited stack values (some v) = ok (stack, values)
skip_or_visit nodes env i visited stack values none = do
  n ← or_raise lookup_error (get_elem? nodes i)
  visit_node nodes env i visited n stack values

unfoldable pub step :
    List Node → Env → ℕ × Bool → Stack → Values → Result SequentialError (Stack × Values)
unfolding visit_node
step nodes env (i, visited) stack values = skip_or_visit nodes env i visited stack values (values i)

-- `while stack`, on fuel.
unfoldable pub run : ℕ → List Node → Env → Stack → Values → Result SequentialError Values
unfolding step
run zero nodes env stack values = err out_of_fuel
run (suc fuel) nodes env [] values = ok values
run (suc fuel) nodes env (top ∷ stack) values = do
  (stack', values') ← step nodes env top stack values
  run fuel nodes env stack' values'

-- Rounds enough for every node: two for the node itself, and one for each operand.
unfoldable pub rounds_for : List Node → ℕ
rounds_for [] = 0
rounds_for (n ∷ ns) = 2 + length n.args + rounds_for ns

unfoldable pub evaluate : Circuit → ℕ → Env → Result SequentialError ℕ
unfolding run rounds_for
evaluate c root env = do
  values ← run (rounds_for c.nodes + 2) c.nodes env ((root, false) ∷ []) no_values
  read values root
