-- ===== src/Ir/Builder.antt =====
-- `Circuit` of src/opencollate/sequential_ir.py: interning of nodes and references to signals. The
-- fields locations, sources, frontend, hierarchy and clock_aliases, which the code only carries along,
-- are left out.
pub mod Interning
use Prim.Native.String.{String}
use native.Mathlib.Decide.{ℕ_discrete}
use open_collate.Common.{
  ℕ, ◌+◌, Bool, true, false, not, ◌&&◌, ◌||◌, Option, none, some, List, [], ◌∷◌, ◌++◌, Result, ok,
  err, ◌>>=◌, length, leb, ltb, if◌then◌else◌, Dict, lookup, name_eq, String-discrete, or_raise,
}
use open_collate.Ir.Circuit.{
  Op, ref, Payload, name, numeral, Node, SequentialError, bad_width, not_topological,
  too_many_nodes, bad_reference,
}

unfoldable pub Node-discrete : Discrete Node
Node-discrete = hlevel (String-discrete, ℕ_discrete)

pub record Circuit : Type 0 where
  pub top : String
  pub clock : String
  pub nodes : List Node
  pub signals : Dict (ℕ × Bool)
  pub inputs : List String
  pub outputs : List String
  pub next_state : Dict ℕ
  pub combinational : Dict ℕ
  pub comb_order : List String
  pub intern : List (Node × ℕ)

-- `Circuit(top, clock)`
abbrev pub new_circuit : String → String → Circuit
new_circuit top clock = record {
  top = top;
  clock = clock;
  nodes = [];
  signals = [];
  inputs = [];
  outputs = [];
  next_state = [];
  combinational = [];
  comb_order = [];
  intern = [];
}

-- `self._intern.get(n)`
unfoldable pub interned : Node → List (Node × ℕ) → Option ℕ
unfolding Node-discrete
interned n [] = none
interned n ((m, i) ∷ d) =
    let rest = interned n d in elim (Node-discrete m n) [ yes _ ↦ some i | no _ ↦ rest ]

-- `all(0 <= a < count for a in args)`
unfoldable pub all_below : ℕ → List ℕ → Bool
all_below count [] = true
all_below count (a ∷ args) = ltb a count && all_below count args

-- The end of `add`, for a node that is not interned.
unfoldable pub append_node : Node → Circuit → Result SequentialError (ℕ × Circuit)
append_node n c =
    if leb 32_768 (length c.nodes)
    then err too_many_nodes
    else ok (
      length c.nodes,
      record c { intern = c.intern ++ (n, length c.nodes) ∷ []; nodes = c.nodes ++ n ∷ [] },
    )

-- `self._intern[n]`, once it is there
abbrev pub intern_node : Node → Option ℕ → Circuit → Result SequentialError (ℕ × Circuit)
intern_node n (some i) c = ok (i, c)
intern_node n none c = append_node n c

abbrev pub node_of : Op → ℕ → Bool → List ℕ → Payload → Node
node_of op width signed args value = record {
  op = op;
  width = width;
  signed = signed;
  args = args;
  value = value;
}

unfoldable pub add :
    Op → ℕ → Bool → List ℕ → Payload → Circuit → Result SequentialError (ℕ × Circuit)
unfolding interned all_below append_node
add op width signed args value c =
    if not (leb 1 width && leb width 256)
    then err bad_width
    else if not (all_below (length c.nodes) args)
    then err not_topological
    else intern_node (node_of op width signed args value)
        (interned (node_of op width signed args value) c.intern) c

unfoldable pub ref_signal : String → Circuit → Result SequentialError (ℕ × Circuit)
unfolding add
ref_signal s c = if name_eq s c.clock then err bad_reference else do
  (width, signed) ← or_raise bad_reference (lookup s c.signals)
  add ref width signed [] (name s) c
