-- ===== src/Lower/Operators.antt =====
-- Every operator: the bits of a node that `Unroller.lower` makes (src/opencollate/sequential_cnf.py)
-- stand for the value that `evaluate` computes (src/opencollate/sequential_ir.py).
use Prim.Native.String.{String}
use open_collate.Common.{
  ℕ, ◌≡◌, refl, sym, ap, ◌∙◌, true, false, ◌&&◌, ◌||◌, some, List, [], ok, Option-cases, inl, inr,
  length, arith,
}
use open_collate.Kernel.Meter.{lookup_failed, unsupported_operator, width_disagrees}
use open_collate.Kernel.Meaning.{Assignment}
use open_collate.Cnf.State.{Cnf, ◌>>=◌}
use open_collate.Cnf.Words.{Bits, any_}
use open_collate.Cnf.Gates.{and_, or_}
use open_collate.Cnf.Rules.{
  CacheHolds, Models, Meets, Grows-pure, Grows-raise, Grows-bind, Grows-if, Meets-pure, Meets-raise,
  Meets-bind, Meets-if, Meets-weaken,
}
use open_collate.Cnf.Growth.{any_-Grows, and_-Grows, or_-Grows}
use open_collate.Cnf.GateLaws.{and_-Meets, or_-Meets}
use open_collate.Cnf.BitLists.{Bools, number}
use open_collate.Cnf.WordLaws.{MeansWord, MeansWord-length}
use open_collate.Ir.Circuit.{
  Op, ref, const, cast, mux, slice, concat, add, subtract, multiply, binary_and, binary_or,
  binary_xor, binary_xnor, equality, inequality, less_than, less_than_equal, greater_than,
  greater_than_equal, logical_and, logical_or, logical_shift_left, arithmetic_shift_left,
  logical_shift_right, arithmetic_shift_right, plus, minus, bitwise_not, logical_not, reduce_and,
  reduce_nand, reduce_or, reduce_nor, reduce_xor, reduce_xnor, unknown_op, Payload, name, numeral,
  Node,
}
use open_collate.Ir.Values.{Operand, Env, raw_value, node_value, is_set, int_of}
use open_collate.Lower.Nodes.{Lowered, Frame, read, boolean, boolean_of, lower_op, lower_node}
use open_collate.Lower.Correct.{
  Agree, AgreeAll, none_left, one_more, Computes, ComputesNumber, Computes-number,
  ComputesWord-Computes,
}
use open_collate.Lower.Words.{
  add-Computes, subtract-Computes, minus-Computes, and-Computes, or-Computes, xor-Computes,
  xnor-Computes, plus-Computes, not-Computes,
}
use open_collate.Lower.Booleans.{
  boolean_of-Computes, boolean_not-Computes, any_-HasValue, all_-HasValue, equality-Computes,
  inequality-Computes, less_than-Computes, less_than_equal-Computes, greater_than-Computes,
  greater_than_equal-Computes,
}
use open_collate.Lower.Selection.{slice-Computes, const-Computes, mux-Computes}
use open_collate.Lower.Concatenation.{concat-Computes}
use open_collate.Lower.Extension.{cast-ComputesWord}
use open_collate.Lower.Parity.{parity-HasValue}
use open_collate.Lower.Multiply.{multiply-Computes}
use open_collate.Lower.ShiftOperators.{shift_left-Computes, shift_right-Computes}

-- What a frame holds under a name stands for what the environment holds there.
pub record Stored (σ : Assignment) (env : Env) (s : String) (v : Bits) : Type 0 where
  pub bools : Bools
  pub word : MeansWord σ bools v
  pub value : env s ≡ some (number bools)

abbrev pub FrameAgrees : Assignment → Env → Frame → Type 0
FrameAgrees σ env frame = (s : String) (v : Bits) → frame s ≡ some v → Stored σ env s v

module _ (σ : Assignment) (t : σ 1 ≡ true) (env : Env) (frame : Frame)
    (agrees : FrameAgrees σ env frame) where
  ref-Computes :
      (s : String) → Meets σ (read (frame s)) (Computes σ (raw_value ref (name s) [] env))
  unfolding raw_value
  ref-Computes s = elim (Option-cases (frame s)) [
    | inl e ↦ rw e (Meets-raise σ lookup_failed)
    | inr (v, e) ↦
        let h = agrees s v e in
        rw e (Meets-pure σ v (Computes-number h.bools h.word (rw h.value refl) refl))
  ]

  logical_and-Computes :
      {x y : Operand} {l k : Lowered} (w : ℕ)
      → Agree σ x l
      → Agree σ y k
      → Meets σ
          (any_ l.bits >>= λ u. any_ k.bits >>= λ v. boolean_of w (and_ u v))
          (Computes σ (ok (int_of (is_set x && is_set y))))
  logical_and-Computes {x} {y} {l} {k} w ha hb =
      Meets-bind σ _ _ (any_-HasValue σ t ha)
        (λ u.
          Grows-bind σ _ _ (any_-Grows σ k.bits)
            λ v. Grows-bind σ _ _ (and_-Grows σ u v) λ r. Grows-pure σ (boolean w r))
        λ u hu.
          Meets-bind σ _ _ (any_-HasValue σ t hb)
            (λ v. Grows-bind σ _ _ (and_-Grows σ u v) λ r. Grows-pure σ (boolean w r))
            λ v hv. boolean_of-Computes σ t w (and_-Meets σ t u v hu hv)

  logical_or-Computes :
      {x y : Operand} {l k : Lowered} (w : ℕ)
      → Agree σ x l
      → Agree σ y k
      → Meets σ
          (any_ l.bits >>= λ u. any_ k.bits >>= λ v. boolean_of w (or_ u v))
          (Computes σ (ok (int_of (is_set x || is_set y))))
  logical_or-Computes {x} {y} {l} {k} w ha hb =
      Meets-bind σ _ _ (any_-HasValue σ t ha)
        (λ u.
          Grows-bind σ _ _ (any_-Grows σ k.bits)
            λ v. Grows-bind σ _ _ (or_-Grows σ u v) λ r. Grows-pure σ (boolean w r))
        λ u hu.
          Meets-bind σ _ _ (any_-HasValue σ t hb)
            (λ v. Grows-bind σ _ _ (or_-Grows σ u v) λ r. Grows-pure σ (boolean w r))
            λ v hv. boolean_of-Computes σ t w (or_-Meets σ t u v hu hv)

  -- For agreeing operands, each operator makes bits that stand for the integer that the interpreter
  -- computes, masked to their number.
  lower_op-Computes :
      (o : Op) (w : ℕ) (p : Payload) {xs : List Operand} {ls : List Lowered}
      → AgreeAll σ xs ls
      → Meets σ (lower_op o w p ls frame) (Computes σ (raw_value o p xs env))
  unfolding lower_op raw_value
  lower_op-Computes ref w (name s) hs = ref-Computes s
  lower_op-Computes ref w (numeral k) hs = Meets-raise σ lookup_failed
  lower_op-Computes const w (numeral k) hs = const-Computes σ t k w
  lower_op-Computes const w (name s) hs = Meets-raise σ lookup_failed
  lower_op-Computes cast w p none_left = Meets-raise σ lookup_failed
  lower_op-Computes cast w p (one_more ha _) =
      Meets-weaken σ _ (cast-ComputesWord σ t w ha) λ v h. ComputesWord-Computes h
  lower_op-Computes mux w p none_left = Meets-raise σ lookup_failed
  lower_op-Computes mux w p (one_more hc none_left) = Meets-raise σ lookup_failed
  lower_op-Computes mux w p (one_more hc (one_more ha none_left)) = Meets-raise σ lookup_failed
  lower_op-Computes mux w p (one_more hc (one_more ha (one_more hb _))) = mux-Computes σ t hc ha hb
  lower_op-Computes slice w (name s) hs = Meets-raise σ lookup_failed
  lower_op-Computes slice w (numeral k) none_left = Meets-raise σ lookup_failed
  lower_op-Computes slice w (numeral k) (one_more ha _) = slice-Computes σ t w k ha
  lower_op-Computes concat w p hs = concat-Computes σ hs
  lower_op-Computes add w p none_left = Meets-raise σ lookup_failed
  lower_op-Computes add w p (one_more ha none_left) = Meets-raise σ lookup_failed
  lower_op-Computes add w p (one_more ha (one_more hb _)) = add-Computes σ t ha hb
  lower_op-Computes subtract w p none_left = Meets-raise σ lookup_failed
  lower_op-Computes subtract w p (one_more ha none_left) = Meets-raise σ lookup_failed
  lower_op-Computes subtract w p (one_more ha (one_more hb _)) = subtract-Computes σ t ha hb
  lower_op-Computes multiply w p none_left = Meets-raise σ lookup_failed
  lower_op-Computes multiply w p (one_more ha none_left) = Meets-raise σ lookup_failed
  lower_op-Computes multiply w p (one_more ha (one_more hb _)) = multiply-Computes σ t w ha hb
  lower_op-Computes binary_and w p none_left = Meets-raise σ lookup_failed
  lower_op-Computes binary_and w p (one_more ha none_left) = Meets-raise σ lookup_failed
  lower_op-Computes binary_and w p (one_more ha (one_more hb _)) = and-Computes σ t ha hb
  lower_op-Computes binary_or w p none_left = Meets-raise σ lookup_failed
  lower_op-Computes binary_or w p (one_more ha none_left) = Meets-raise σ lookup_failed
  lower_op-Computes binary_or w p (one_more ha (one_more hb _)) = or-Computes σ t ha hb
  lower_op-Computes binary_xor w p none_left = Meets-raise σ lookup_failed
  lower_op-Computes binary_xor w p (one_more ha none_left) = Meets-raise σ lookup_failed
  lower_op-Computes binary_xor w p (one_more ha (one_more hb _)) = xor-Computes σ t ha hb
  lower_op-Computes binary_xnor w p none_left = Meets-raise σ lookup_failed
  lower_op-Computes binary_xnor w p (one_more ha none_left) = Meets-raise σ lookup_failed
  lower_op-Computes binary_xnor w p (one_more ha (one_more hb _)) = xnor-Computes σ t ha hb
  lower_op-Computes equality w p none_left = Meets-raise σ lookup_failed
  lower_op-Computes equality w p (one_more ha none_left) = Meets-raise σ lookup_failed
  lower_op-Computes equality w p (one_more ha (one_more hb _)) = equality-Computes σ t w ha hb
  lower_op-Computes inequality w p none_left = Meets-raise σ lookup_failed
  lower_op-Computes inequality w p (one_more ha none_left) = Meets-raise σ lookup_failed
  lower_op-Computes inequality w p (one_more ha (one_more hb _)) = inequality-Computes σ t w ha hb
  lower_op-Computes less_than w p none_left = Meets-raise σ lookup_failed
  lower_op-Computes less_than w p (one_more ha none_left) = Meets-raise σ lookup_failed
  lower_op-Computes less_than w p (one_more ha (one_more hb _)) = less_than-Computes σ t w ha hb
  lower_op-Computes less_than_equal w p none_left = Meets-raise σ lookup_failed
  lower_op-Computes less_than_equal w p (one_more ha none_left) = Meets-raise σ lookup_failed
  lower_op-Computes less_than_equal w p (one_more ha (one_more hb _)) =
      less_than_equal-Computes σ t w ha hb
  lower_op-Computes greater_than w p none_left = Meets-raise σ lookup_failed
  lower_op-Computes greater_than w p (one_more ha none_left) = Meets-raise σ lookup_failed
  lower_op-Computes greater_than w p (one_more ha (one_more hb _)) =
      greater_than-Computes σ t w ha hb
  lower_op-Computes greater_than_equal w p none_left = Meets-raise σ lookup_failed
  lower_op-Computes greater_than_equal w p (one_more ha none_left) = Meets-raise σ lookup_failed
  lower_op-Computes greater_than_equal w p (one_more ha (one_more hb _)) =
      greater_than_equal-Computes σ t w ha hb
  lower_op-Computes logical_and w p none_left = Meets-raise σ lookup_failed
  lower_op-Computes logical_and w p (one_more ha none_left) = Meets-raise σ lookup_failed
  lower_op-Computes logical_and w p (one_more ha (one_more hb _)) = logical_and-Computes w ha hb
  lower_op-Computes logical_or w p none_left = Meets-raise σ lookup_failed
  lower_op-Computes logical_or w p (one_more ha none_left) = Meets-raise σ lookup_failed
  lower_op-Computes logical_or w p (one_more ha (one_more hb _)) = logical_or-Computes w ha hb
  lower_op-Computes logical_shift_left w p none_left = Meets-raise σ lookup_failed
  lower_op-Computes logical_shift_left w p (one_more ha none_left) = Meets-raise σ lookup_failed
  lower_op-Computes logical_shift_left w p (one_more ha (one_more hb _)) =
      shift_left-Computes σ t ha hb
  lower_op-Computes arithmetic_shift_left w p none_left = Meets-raise σ lookup_failed
  lower_op-Computes arithmetic_shift_left w p (one_more ha none_left) = Meets-raise σ lookup_failed
  lower_op-Computes arithmetic_shift_left w p (one_more ha (one_more hb _)) =
      shift_left-Computes σ t ha hb
  lower_op-Computes logical_shift_right w p none_left = Meets-raise σ lookup_failed
  lower_op-Computes logical_shift_right w p (one_more ha none_left) = Meets-raise σ lookup_failed
  lower_op-Computes logical_shift_right w p (one_more ha (one_more hb _)) =
      shift_right-Computes σ t false ha hb
  lower_op-Computes arithmetic_shift_right w p none_left = Meets-raise σ lookup_failed
  lower_op-Computes arithmetic_shift_right w p (one_more ha none_left) = Meets-raise σ lookup_failed
  lower_op-Computes arithmetic_shift_right w p (one_more ha (one_more hb _)) =
      shift_right-Computes σ t true ha hb
  lower_op-Computes plus w p none_left = Meets-raise σ lookup_failed
  lower_op-Computes plus w p (one_more ha _) = plus-Computes σ t ha
  lower_op-Computes minus w p none_left = Meets-raise σ lookup_failed
  lower_op-Computes minus w p (one_more ha _) = minus-Computes σ t w ha
  lower_op-Computes bitwise_not w p none_left = Meets-raise σ lookup_failed
  lower_op-Computes bitwise_not w p (one_more ha _) = not-Computes σ t ha
  lower_op-Computes logical_not w p none_left = Meets-raise σ lookup_failed
  lower_op-Computes logical_not w p (one_more ha _) =
      boolean_not-Computes σ t w (any_-HasValue σ t ha)
  lower_op-Computes reduce_and w p none_left = Meets-raise σ lookup_failed
  lower_op-Computes reduce_and w p (one_more ha _) =
      boolean_of-Computes σ t w (all_-HasValue σ t ha)
  lower_op-Computes reduce_nand w p none_left = Meets-raise σ lookup_failed
  lower_op-Computes reduce_nand w p (one_more ha _) =
      boolean_not-Computes σ t w (all_-HasValue σ t ha)
  lower_op-Computes reduce_or w p none_left = Meets-raise σ lookup_failed
  lower_op-Computes reduce_or w p (one_more ha _) = boolean_of-Computes σ t w (any_-HasValue σ t ha)
  lower_op-Computes reduce_nor w p none_left = Meets-raise σ lookup_failed
  lower_op-Computes reduce_nor w p (one_more ha _) =
      boolean_not-Computes σ t w (any_-HasValue σ t ha)
  lower_op-Computes reduce_xor w p none_left = Meets-raise σ lookup_failed
  lower_op-Computes reduce_xor w p (one_more ha _) =
      boolean_of-Computes σ t w (parity-HasValue σ t ha)
  lower_op-Computes reduce_xnor w p none_left = Meets-raise σ lookup_failed
  lower_op-Computes reduce_xnor w p (one_more ha _) =
      boolean_not-Computes σ t w (parity-HasValue σ t ha)
  lower_op-Computes (unknown_op o) w p hs = Meets-raise σ unsupported_operator

  -- With the width checked, a node's bits stand for its value.
  pub lower_node-ComputesNumber :
      (n : Node) {xs : List Operand} {ls : List Lowered}
      → AgreeAll σ xs ls
      → Meets σ (lower_node n ls frame) (ComputesNumber σ n.width (node_value n xs env))
  unfolding lower_node node_value
  lower_node-ComputesNumber n {xs} {ls} hs =
      Meets-bind σ _ _ (lower_op-Computes n.op n.width n.value hs)
        (λ v. Grows-if σ _ _ _ (Grows-pure σ v) (Grows-raise σ width_disagrees))
        λ v h.
          Meets-if σ _ _ _
            (λ same.
              let fits : length h.bools ≡ n.width = sym (MeansWord-length h.word) ∙ ground arith in
              Meets-pure σ v (record {
                bools = h.bools;
                word = h.word;
                fits = fits;
                returns = rw (h.returns, sym fits) (ap ok h.masked);
              }))
            λ _. Meets-raise σ width_disagrees

-- Where the lowering of a node returns, and the clauses that it leaves are true, its bits have the
-- node's width and stand for the value that the interpreter computes for the node, which returns.
-- The operands agree in width, sign and value, and literal 1, the frame and the cached gates have
-- their meanings.
pub lower_node_sound :
    (σ : Assignment) (env : Env) (frame : Frame) (n : Node) {xs : List Operand} {ls : List Lowered}
    (q : Cnf) {r : Bits × Cnf}
    → σ 1 ≡ true
    → FrameAgrees σ env frame
    → AgreeAll σ xs ls
    → CacheHolds σ q
    → lower_node n ls frame q ≡ ok r
    → Models σ r.1
    → ComputesNumber σ n.width (node_value n xs env) r.0
lower_node_sound σ env frame n q {r} t agrees hs holds e h =
    ((lower_node-ComputesNumber σ t env frame agrees n hs).at q r e holds h).1
