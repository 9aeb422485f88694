-- ===== src/Ir/Tests.antt =====
-- Runs of the transition IR, and its theorems at a small circuit.
use open_collate.Common.{arith, ◌≡◌, refl, false, List, [], ◌∷◌, ok, err, lookup}
use open_collate.Ir.Circuit.{
  Node, ref, const, add as add_op, name, numeral, not_topological, combinational_cycle, undriven,
  unresolved_in_cone,
}
use open_collate.Ir.Values.{Env, node_value}
use open_collate.Ir.Builder.{Circuit, new_circuit, add, node_of}
use open_collate.Ir.Builder.Interning.{IsWellFormed, Interns, add-Interns}
use open_collate.Ir.Evaluate.{evaluate}
use open_collate.Ir.Evaluate.Reference.{reference}
use open_collate.Ir.Evaluate.Total.{evaluate-reference}
use open_collate.Ir.Finalize.{finalize}
use open_collate.Ir.Simulate.{simulate_frame}
use open_collate.Ir.Cone.{property_cone, cone_summary}
use open_collate.Spec.Request.{constant, Property}

-- A counter of two bits that adds its input.
abbrev counter_nodes : List Node
counter_nodes =
    node_of ref 2 false [] (name "count")
    ∷ node_of ref 2 false [] (name "step")
    ∷ node_of add_op 2 false (0 ∷ 1 ∷ []) (numeral 0)
    ∷ []

abbrev counter : Circuit
counter = record (new_circuit "top" "clk") {
  nodes = counter_nodes;
  signals = ("clk", (1, false)) ∷ ("count", (2, false)) ∷ ("step", (2, false)) ∷ [];
  inputs = "step" ∷ [];
  next_state = ("count", 2) ∷ [];
}

-- The sum wraps around.
wraps :
    simulate_frame counter (("count", 3) ∷ []) (("step", 2) ∷ [])
    ≡ ok (("count", 3) ∷ ("step", 2) ∷ [], ("count", 1) ∷ [])
unfolding simulate_frame node_value
wraps = refl

no_forward_reference : add add_op 2 false (0 ∷ 7 ∷ []) (numeral 0) counter ≡ err not_topological
unfolding add
no_forward_reference = refl

abbrev fixed : Env
fixed n = lookup n (("count", 3) ∷ ("step", 2) ∷ [])

evaluate-reference_example : evaluate counter 2 fixed ≡ reference 3 counter_nodes fixed 2
evaluate-reference_example =
    evaluate-reference counter 2 fixed
      (
        (tt, (ground arith, ground arith)),
        (
          (tt, (ground arith, ground arith)),
          (((ground arith, (ground arith, tt)), (ground arith, ground arith)), tt),
        ),
      )
      (ground arith)

empty-IsWellFormed : IsWellFormed (new_circuit "top" "clk")
empty-IsWellFormed = record {
  ordered = tt;
  tabled = refl;
  bounded = ground arith;
  distinct = λ i n e. cc;
}

abbrev after_add : Circuit
after_add = record (new_circuit "top" "clk") {
  nodes = node_of const 4 false [] (numeral 9) ∷ [];
  intern = (node_of const 4 false [] (numeral 9), 0) ∷ [];
}

adds : add const 4 false [] (numeral 9) (new_circuit "top" "clk") ≡ ok (0, after_add)
unfolding add
adds = refl

add-Interns_example :
    Interns (node_of const 4 false [] (numeral 9)) (new_circuit "top" "clk") (0, after_add)
add-Interns_example =
    add-Interns const 4 false [] (numeral 9) (new_circuit "top" "clk") empty-IsWellFormed adds

-- Two combinational signals: `b` reads `a`.
abbrev chain : Circuit
chain = record (new_circuit "top" "clk") {
  nodes = node_of ref 1 false [] (name "a") ∷ node_of const 1 false [] (numeral 1) ∷ [];
  signals = ("a", (1, false)) ∷ ("b", (1, false)) ∷ [];
  outputs = "b" ∷ [];
  combinational = ("b", 0) ∷ ("a", 1) ∷ [];
}

ordered : finalize chain ≡ ok (record chain { comb_order = "a" ∷ "b" ∷ [] })
unfolding finalize
ordered = refl

cyclic :
    finalize (record chain { combinational = ("b", 0) ∷ ("a", 0) ∷ [] }) ≡ err combinational_cycle
unfolding finalize
cyclic = refl

dangling : finalize (record chain { outputs = "c" ∷ [] }) ≡ err undriven
unfolding finalize
dangling = refl

-- The counter beside a state that it does not depend on.
abbrev two_states : Circuit
two_states = record counter {
  nodes = node_of const 4 false [] (numeral 9) ∷ node_of ref 2 false [] (name "step") ∷ [];
  signals = ("other", (4, false)) ∷ counter.signals;
  next_state = ("other", 0) ∷ ("count", 1) ∷ [];
}

abbrev counted : Property
counted = record {
  id = "p";
  sink = "count";
  latency = 0;
  expected = constant 1;
  when = [];
  start_cycle = 0;
}

cone :
    property_cone two_states counted
    ≡ ok (record (new_circuit "top" "clk") {
      nodes = node_of ref 2 false [] (name "step") ∷ [];
      signals = counter.signals;
      inputs = "step" ∷ [];
      next_state = ("count", 0) ∷ [];
      intern = (node_of ref 2 false [] (name "step"), 0) ∷ [];
    })
unfolding property_cone
cone = refl

unresolved_cone :
    property_cone two_states (record counted { sink = "missing" }) ≡ err unresolved_in_cone
unfolding property_cone
unresolved_cone = refl

summarised :
    cone_summary two_states
    ≡ ok (record {
      bits = 6;
      states = "count" ∷ "other" ∷ [];
      combinational_signals = 0;
      ir_nodes = 2;
    })
unfolding cone_summary
summarised = refl
