-- ===== src/Ir/Simulate.antt =====
-- `simulate_frame` of src/opencollate/sequential_ir.py: one clock cycle of a circuit.
use Prim.Native.String.{String}
use open_collate.Common.{ℕ, List, [], ◌∷◌, Result, ok, ◌>>=◌, or_raise, Dict, lookup, put}
use open_collate.Ir.Circuit.{SequentialError, lookup_error}
use open_collate.Ir.Builder.{Circuit}
use open_collate.Ir.Evaluate.{evaluate}

-- `{**first, **second}`
abbrev pub merge : Dict ℕ → Dict ℕ → Dict ℕ
merge first [] = first
merge first ((k, v) ∷ second) = merge (put k v first) second

-- `env[name] = evaluate(circuit, circuit.combinational[name], env)`, in the order
unfoldable pub settle_names : Circuit → List String → Dict ℕ → Result SequentialError (Dict ℕ)
unfolding evaluate
settle_names c [] env = ok env
settle_names c (name ∷ names) env = do
  root ← or_raise lookup_error (lookup name c.combinational)
  v ← evaluate c root (λ n. lookup n env)
  settle_names c names (put name v env)

-- `{name: evaluate(circuit, expr, env) for name, expr in circuit.next_state.items()}`
unfoldable pub next_values : Circuit → Dict ℕ → Dict ℕ → Result SequentialError (Dict ℕ)
unfolding evaluate
next_values c [] env = ok []
next_values c ((name, root) ∷ rest) env = do
  v ← evaluate c root (λ n. lookup n env)
  values ← next_values c rest env
  ok ((name, v) ∷ values)

unfoldable pub simulate_frame : Circuit → Dict ℕ → Dict ℕ → Result SequentialError (Dict ℕ × Dict ℕ)
unfolding settle_names next_values
simulate_frame c states inputs = do
  env ← settle_names c c.comb_order (merge states inputs)
  updated ← next_values c c.next_state env
  ok (env, updated)
