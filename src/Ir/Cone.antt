-- ===== src/Ir/Cone.antt =====
-- `property_cone` and `cone_summary` of src/opencollate/sequential_cone.py: the part of a circuit that a property depends
-- on. A set is a list without order.
use Prim.Native.String.{String}
use open_collate.Common.{
  ℕ, zero, suc, ◌+◌, true, false, Option, none, some, List, [], ◌∷◌, Result, ok, err, ◌>>=◌,
  or_raise, length, get_elem?, leb, ◌==◌, if◌then◌else◌, Dict, keys, lookup, is_in, with_name,
  union, to_set, sorted,
}
use open_collate.Ir.Circuit.{Node, SequentialError, lookup_error, out_of_fuel, unresolved_in_cone}
use open_collate.Ir.Builder.{Circuit, new_circuit, add}
use open_collate.Ir.Evaluate.{rounds_for}
use open_collate.Ir.Finalize.{state_bits, referred, has_index, push_all, only_in, finalize}
use open_collate.Spec.Request.{Guard, Expected, from_source, constant, Property}

abbrev guard_signals : List Guard → List String
guard_signals [] = []
guard_signals (g ∷ guards) = with_name g.signal (guard_signals guards)

abbrev with_source : Expected → List String → List String
with_source (from_source s) names = with_name s names
with_source (constant v) names = names

-- `required`
abbrev pub required : Property → List String
required p = with_source p.expected (with_name p.sink (guard_signals p.when))

-- `pending.append(str(node.value))`, for a reference
abbrev push_name : Option String → List String → List String
push_name none pending = pending
push_name (some s) pending = s ∷ pending

-- The inner loop, on fuel: the nodes below a root, and the names that they refer to.
unfoldable pub cone_nodes :
    ℕ → List Node → List ℕ → List ℕ → List String → Result SequentialError (List ℕ × List String)
cone_nodes zero all todo nodes pending = err out_of_fuel
cone_nodes (suc fuel) all [] nodes pending = ok (nodes, pending)
cone_nodes (suc fuel) all (i ∷ todo) nodes pending = elim (has_index i nodes) [
  | true ↦ cone_nodes fuel all todo nodes pending
  | false ↦ or_raise lookup_error (get_elem? all i) >>= λ n.
      cone_nodes fuel all (push_all n.args todo) (i ∷ nodes)
        (push_name (referred n.op n.value) pending)
]

-- `c.next_state.get(name, c.combinational.get(name))`
abbrev first_of : Option ℕ → Option ℕ → Option ℕ
first_of none other = other
first_of (some i) other = some i

-- The nodes and names after a name, by its root.
unfoldable pub cone_of :
    Circuit
    → String
    → Option ℕ
    → List ℕ
    → List String
    → Result SequentialError (List ℕ × List String)
unfolding cone_nodes rounds_for
cone_of c n none nodes pending =
    if is_in n c.inputs then ok (nodes, pending) else err unresolved_in_cone
cone_of c n (some root) nodes pending =
    cone_nodes (rounds_for c.nodes + 2) c.nodes (root ∷ []) nodes pending

-- `while pending`, on fuel: the signals and the nodes of the cone.
unfoldable pub cone_signals :
    ℕ → Circuit → List String → List String → List ℕ → Result SequentialError (List String × List ℕ)
unfolding cone_of
cone_signals zero c pending signals nodes = err out_of_fuel
cone_signals (suc fuel) c [] signals nodes = ok (signals, nodes)
cone_signals (suc fuel) c (n ∷ pending) signals nodes = elim (is_in n signals) [
  | true ↦ cone_signals fuel c pending signals nodes
  | false ↦
      cone_of c n (first_of (lookup n c.next_state) (lookup n c.combinational)) nodes pending
      >>= λ (nodes', pending'). cone_signals fuel c pending' (n ∷ signals) nodes'
]

abbrev insert_index : ℕ → List ℕ → List ℕ
insert_index i [] = i ∷ []
insert_index i (j ∷ js) = let rest = insert_index i js in if leb i j then i ∷ j ∷ js else j ∷ rest

-- `sorted(nodes)`
abbrev pub sorted_indices : List ℕ → List ℕ
sorted_indices [] = []
sorted_indices (i ∷ is) = insert_index i (sorted_indices is)

-- `remap[j]`
abbrev pub remapped : ℕ → List (ℕ × ℕ) → Result SequentialError ℕ
remapped j [] = err lookup_error
remapped j ((i, k) ∷ remap) = if i == j then ok k else remapped j remap

abbrev remapped_all : List ℕ → List (ℕ × ℕ) → Result SequentialError (List ℕ)
remapped_all [] remap = ok []
remapped_all (j ∷ js) remap = do k ← remapped j remap; rest ← remapped_all js remap; ok (k ∷ rest)

-- `for i in sorted(nodes)`
unfoldable pub copy_nodes :
    Circuit → List ℕ → List (ℕ × ℕ) → Circuit → Result SequentialError (List (ℕ × ℕ) × Circuit)
unfolding add
copy_nodes c [] remap selected = ok (remap, selected)
copy_nodes c (i ∷ is) remap selected = do
  n ← or_raise lookup_error (get_elem? c.nodes i)
  args ← remapped_all n.args remap
  (k, selected') ← add n.op n.width n.signed args n.value selected
  copy_nodes c is ((i, k) ∷ remap) selected'

-- `{n: d[n] for n in names}`
abbrev pub select {ℓ} : {A : Type ℓ} → Dict A → List String → Result SequentialError (Dict A)
select d [] = ok []
select d (n ∷ names) = do
  a ← or_raise lookup_error (lookup n d)
  rest ← select d names
  ok ((n, a) ∷ rest)

-- `{n: remap[d[n]] for n in names}`
abbrev pub select_roots : List (ℕ × ℕ) → Dict ℕ → List String → Result SequentialError (Dict ℕ)
select_roots remap d [] = ok []
select_roots remap d (n ∷ names) = do
  i ← or_raise lookup_error (lookup n d)
  k ← remapped i remap
  rest ← select_roots remap d names
  ok ((n, k) ∷ rest)

unfoldable pub property_cone : Circuit → Property → Result SequentialError Circuit
unfolding cone_signals copy_nodes finalize
property_cone c p = do
  (found, nodes) ← cone_signals (length (required p) + length c.nodes + 1) c (required p) [] []
  let signals = with_name c.clock (union found c.inputs)
  kept ← select c.signals (sorted signals)
  (remap, copied) ← copy_nodes c (sorted_indices nodes) [] (record (new_circuit c.top c.clock) {
    signals = kept;
    inputs = c.inputs;
    outputs = sorted (only_in signals (to_set c.outputs));
  })
  next ← select_roots remap c.next_state (sorted (only_in (keys c.next_state) signals))
  wires ← select_roots remap c.combinational (sorted (only_in (keys c.combinational) signals))
  finalize (record copied { next_state = next; combinational = wires })

pub record Summary : Type 0 where
  pub bits : ℕ
  pub states : List String
  pub combinational_signals : ℕ
  pub ir_nodes : ℕ

unfoldable pub cone_summary : Circuit → Result SequentialError Summary
unfolding state_bits
cone_summary c = do
  bits ← state_bits c (keys c.next_state)
  ok (record {
    bits = bits;
    states = sorted (keys c.next_state);
    combinational_signals = length c.combinational;
    ir_nodes = length c.nodes;
  })
