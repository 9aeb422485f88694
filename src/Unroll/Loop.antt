-- ===== src/Unroll/Loop.antt =====
-- The loop of `Unroller.lower` (src/opencollate/sequential_cnf.py), with its explicit stack.
use open_collate.Common.{
  ℕ, zero, suc, ◌+◌, Bool, true, false, Option, none, some, List, [], ◌∷◌, get_elem?, ◌==◌,
  if◌then◌else◌,
}
use open_collate.Kernel.Meter.{lookup_failed, out_of_fuel}
use open_collate.Cnf.State.{M, pure, raise, ◌>>=◌}
use open_collate.Cnf.Gates.{pay}
use open_collate.Cnf.Words.{Bits}
use open_collate.Ir.Circuit.{Node}
use open_collate.Ir.Evaluate.{Stack, rounds_for}
use open_collate.Lower.Nodes.{Lowered, Frame, read, lower_node}

-- `self.nodes[frame]`: a dict from node indices to bits.
abbrev pub Cache : Type 0
Cache = ℕ → Option Bits

abbrev pub no_bits : Cache
no_bits i = none

-- `cache[i] = v`
abbrev pub remember : ℕ → Bits → Cache → Cache
remember i v cache j = if j == i then some v else cache j

abbrev push_missing : Option Bits → ℕ → Stack → Stack
push_missing none a stack = (a, false) ∷ stack
push_missing (some v) a stack = stack

-- `todo.extend((a, False) for a in reversed(n.args) if a not in cache)`
abbrev pub push_operands : Cache → List ℕ → Stack → Stack
push_operands cache [] stack = stack
push_operands cache (a ∷ args) stack = push_missing (cache a) a (push_operands cache args stack)

abbrev pub node_at : Option Node → M Node
node_at none = raise lookup_failed
node_at (some n) = pure n

-- `[cache[j] for j in n.args]`, with the signs of the operands' nodes
unfoldable pub operands : List Node → Cache → List ℕ → M (List Lowered)
operands nodes cache [] = pure []
operands nodes cache (j ∷ js) = do
  v ← read (cache j)
  n ← node_at (get_elem? nodes j)
  rest ← operands nodes cache js
  pure ((record { signed = n.signed; bits = v }) ∷ rest)

unfoldable pub visit : List Node → Frame → ℕ → Bool → Node → Stack → Cache → M (Stack × Cache)
unfolding operands lower_node
visit nodes frame i false n stack cache =
    pure (push_operands cache n.args ((i, true) ∷ stack), cache)
visit nodes frame i true n stack cache = do
  a ← operands nodes cache n.args
  v ← lower_node n a frame
  pure (stack, remember i v cache)

unfoldable pub visit_unless :
    List Node → Frame → ℕ → Bool → Stack → Cache → Option Bits → M (Stack × Cache)
unfolding visit
visit_unless nodes frame i visited stack cache (some v) = pure (stack, cache)
visit_unless nodes frame i visited stack cache none = do
  n ← node_at (get_elem? nodes i)
  visit nodes frame i visited n stack cache

-- `while todo`, on fuel.
unfoldable pub lower_loop : ℕ → List Node → Frame → Stack → Cache → M Cache
unfolding visit_unless pay
lower_loop zero nodes frame stack cache = raise out_of_fuel
lower_loop (suc fuel) nodes frame [] cache = pure cache
lower_loop (suc fuel) nodes frame ((i, visited) ∷ stack) cache = do
  _ ← pay 1
  (stack', cache') ← visit_unless nodes frame i visited stack cache (cache i)
  lower_loop fuel nodes frame stack' cache'

-- `lower`: the bits of a node, and the cache after it.
unfoldable pub lower : List Node → Frame → ℕ → Cache → M (Bits × Cache)
unfolding lower_loop rounds_for
lower nodes frame root cache = do
  cache' ← lower_loop (rounds_for nodes + 2) nodes frame ((root, false) ∷ []) cache
  v ← read (cache' root)
  pure (v, cache')
