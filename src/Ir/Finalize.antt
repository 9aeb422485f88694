-- ===== src/Ir/Finalize.antt =====
-- `finalize` of src/opencollate/sequential_ir.py: driven signals, the bound on state bits, and the order
-- of the combinational signals. The heap is a list in order; a `ref` node holds a name.
use Prim.Native.String.{String}
use open_collate.Common.{
  ℕ, zero, suc, ◌+◌, ◌-◌, Bool, true, false, not, ◌&&◌, ◌||◌, Option, none, some, List, [], ◌∷◌,
  ◌++◌, Result, ok, err, ◌>>=◌, or_raise, length, get_elem?, ltb, ◌==◌, if◌then◌else◌, Dict, keys,
  lookup, put, is_in, with_name, insert,
}
use open_collate.Ir.Circuit.{
  Op, ref, Payload, name, Node, SequentialError, lookup_error, out_of_fuel, undriven,
  too_many_state_bits, combinational_cycle,
}
use open_collate.Ir.Builder.{Circuit}
use open_collate.Ir.Evaluate.{rounds_for}

-- The name that a node refers to.
abbrev pub referred : Op → Payload → Option String
referred ref (name s) = some s
referred _ _ = none

abbrev with_referred : Option String → List String → List String
with_referred none names = names
with_referred (some s) names = with_name s names

-- `{str(n.value) for n in self.nodes if n.op == "ref"}`
abbrev pub referenced : List Node → List String
referenced [] = []
referenced (n ∷ ns) = with_referred (referred n.op n.value) (referenced ns)

-- `drivers`
abbrev pub drivers : Circuit → List String
drivers c = c.inputs ++ (keys c.next_state ++ keys c.combinational)

abbrev pub all_in : List String → List String → Bool
all_in [] others = true
all_in (x ∷ names) others = is_in x others && all_in names others

-- `sum(self.signals[s][0] for s in self.next_state)`
unfoldable pub state_bits : Circuit → List String → Result SequentialError ℕ
state_bits c [] = ok 0
state_bits c (s ∷ names) = do
  (width, _) ← or_raise lookup_error (lookup s c.signals)
  rest ← state_bits c names
  ok (width + rest)

abbrev pub has_index : ℕ → List ℕ → Bool
has_index i [] = false
has_index i (j ∷ js) = i == j || has_index i js

-- `todo.extend(node.args)`, the last on top
abbrev pub push_all : List ℕ → List ℕ → List ℕ
push_all [] todo = todo
push_all (a ∷ args) todo = push_all args (a ∷ todo)

-- `while todo`, on fuel: the names that the nodes below refer to.
unfoldable pub find_refs :
    ℕ → List Node → List ℕ → List ℕ → List String → Result SequentialError (List String)
find_refs zero nodes todo seen refs = err out_of_fuel
find_refs (suc fuel) nodes [] seen refs = ok refs
find_refs (suc fuel) nodes (i ∷ todo) seen refs = elim (has_index i seen) [
  | true ↦ find_refs fuel nodes todo seen refs
  | false ↦ or_raise lookup_error (get_elem? nodes i) >>= λ n.
      find_refs fuel nodes (push_all n.args todo) (i ∷ seen)
        (with_referred (referred n.op n.value) refs)
]

-- `refs & comb_names`
abbrev pub only_in : List String → List String → List String
only_in others [] = []
only_in others (x ∷ names) =
    let rest = only_in others names in if is_in x others then x ∷ rest else rest

-- `dependencies`
unfoldable pub dependencies : Circuit → Dict ℕ → Result SequentialError (Dict (List String))
unfolding find_refs rounds_for
dependencies c [] = ok []
dependencies c ((n, root) ∷ rest) = do
  refs ← find_refs (rounds_for c.nodes + 2) c.nodes (root ∷ []) [] []
  others ← dependencies c rest
  ok ((n, only_in (keys c.combinational) refs) ∷ others)

-- `degree`
abbrev pub degrees : Dict (List String) → Dict ℕ
degrees [] = []
degrees ((n, deps) ∷ rest) = (n, length deps) ∷ degrees rest

-- `dependents[dep]`
abbrev pub dependents : String → Dict (List String) → List String
dependents dep [] = []
dependents dep ((n, deps) ∷ rest) =
    let more = dependents dep rest in if is_in dep deps then n ∷ more else more

-- `[name for name, n in degree.items() if n == 0]`, as a heap
abbrev pub no_degree : Dict ℕ → List String
no_degree [] = []
no_degree ((n, k) ∷ rest) = let more = no_degree rest in if k == 0 then insert n more else more

-- `for follower in dependents[name]`: the degrees and the heap after it
unfoldable pub release :
    List String → Dict ℕ → List String → Result SequentialError (Dict ℕ × List String)
release [] degree ready = ok (degree, ready)
release (follower ∷ followers) degree ready = do
  k ← or_raise lookup_error (lookup follower degree)
  release followers (put follower (k - 1) degree)
      (if k - 1 == 0 then insert follower ready else ready)

-- `while ready`, on fuel: the order.
unfoldable pub kahn :
    ℕ
    → Dict (List String)
    → Dict ℕ
    → List String
    → List String
    → Result SequentialError (List String)
unfolding release
kahn zero deps degree ready order = err out_of_fuel
kahn (suc fuel) deps degree [] order = ok order
kahn (suc fuel) deps degree (n ∷ ready) order = do
  (degree', ready') ← release (dependents n deps) degree ready
  kahn fuel deps degree' ready' (order ++ n ∷ [])

unfoldable pub finalize : Circuit → Result SequentialError Circuit
unfolding state_bits dependencies kahn
finalize c =
    if not (all_in (referenced c.nodes) (drivers c) && all_in c.outputs (drivers c))
    then err undriven
    else do
      bits ← state_bits c (keys c.next_state)
      _ ← if ltb 16_384 bits then err too_many_state_bits else ok bits
      deps ← dependencies c c.combinational
      order ← kahn (length deps + 1) deps (degrees deps) (no_degree (degrees deps)) []
      if not (length order == length deps)
          then err combinational_cycle
          else ok (record c { comb_order = order })
