-- ===== src/Lower/Booleans.antt =====
-- The operators with a truth value for a result: the bits that `Unroller.lower` makes for them
-- (src/opencollate/sequential_cnf.py) stand for what `evaluate` computes
-- (src/opencollate/sequential_ir.py).
use mathlib.Core.Path.{subst}
use open_collate.Common.{
  ℕ, ℤ, ◌≡◌, refl, sym, ap, ◌∙◌, Bool, true, false, not, ◌&&◌, ok, length, arith, leb, ltb, lez,
  ◌==◌, if◌then◌else◌, neg, eqz, lez,
}
use open_collate.Kernel.Meaning.{Assignment}
use open_collate.Cnf.State.{M, pure, minus_one}
use open_collate.Cnf.Words.{Bits, any_, all_, equal, less, less_from}
use open_collate.Cnf.Rules.{Means, Grows, Meets, Grows-pure, Meets-pure, Meets-bind, Meets-weaken}
use open_collate.Cnf.SharedGates.{HasValue, Means-neg, Means-minus_one}
use open_collate.Cnf.BitLists.{
  Bools, number, and_list-number, or_list-number, same_bits-number, less_bits-number,
}
use open_collate.Cnf.WordLaws.{MeansWord, any_-Meets, all_-Meets, equal-Meets, less_from-Meets}
use open_collate.Ir.Values.{Operand, int_of, is_set, is_full, compare_values, value_if}
use open_collate.Lower.Signed.{length-flip_bools, MeansWord-flip_top, eqz-signed, lez-signed}
use open_collate.Lower.Nodes.{Lowered, boolean, boolean_of, boolean_not, less_operands}
use open_collate.Lower.Correct.{Agree, Computes, Computes-boolean}

module _ (σ : Assignment) (t : σ 1 ≡ true) where
  Grows-boolean : (width : ℕ) (l : ℤ) → Grows σ (pure (boolean width l))
  Grows-boolean width l = Grows-pure σ (boolean width l)

  pub boolean_of-Computes :
      (width : ℕ) {m : M ℤ} {b : Bool}
      → Meets σ m (HasValue σ b)
      → Meets σ (boolean_of width m) (Computes σ (ok (int_of b)))
  boolean_of-Computes width {m} {b} h =
      Meets-bind σ _ _ h (Grows-boolean width)
        λ l hl. Meets-pure σ (boolean width l) (Computes-boolean σ t width l hl refl)

  pub boolean_not-Computes :
      (width : ℕ) {m : M ℤ} {b : Bool}
      → Meets σ m (HasValue σ b)
      → Meets σ (boolean_not width m) (Computes σ (ok (int_of (not b))))
  boolean_not-Computes width {m} {b} h =
      Meets-bind σ _ _ h (λ l. Grows-boolean width (neg l))
        λ l hl.
          Meets-pure σ (boolean width (neg l))
            (Computes-boolean σ t width (neg l) (Means-neg hl) refl)

  pub any_-HasValue :
      {x : Operand} {l : Lowered} → Agree σ x l → Meets σ (any_ l.bits) (HasValue σ (is_set x))
  any_-HasValue {x} {l} ha =
      subst (λ (b : Bool). Meets σ (any_ l.bits) (HasValue σ b))
        (or_list-number ha.bools ∙ ap (λ (n : ℕ). not (n == 0)) (sym ha.value))
        (any_-Meets σ t ha.word)

  pub all_-HasValue :
      {x : Operand} {l : Lowered} → Agree σ x l → Meets σ (all_ l.bits) (HasValue σ (is_full x))
  all_-HasValue {x} {l} ha =
      subst (λ (b : Bool). Meets σ (all_ l.bits) (HasValue σ b))
        (and_list-number ha.bools ∙ rw (ha.value, ha.width) refl) (all_-Meets σ t ha.word)

  less_words-Meets :
      {bs cs : Bools} {ls ks : Bits}
      → MeansWord σ bs ls
      → MeansWord σ cs ks
      → Meets σ
          (less_from minus_one ls ks)
          (λ v. (length bs ≡ length cs) × Means σ v (not (leb (number cs) (number bs))))
  less_words-Meets {bs} {cs} hb hc =
      Meets-weaken σ _ (less_from-Meets σ t minus_one false (Means-minus_one σ t) hb hc) λ v (e, h).
        (e, subst (Means σ v) (less_bits-number false bs cs e ∙ strictly (number bs) (number cs)) h)
    where
      strictly : (m n : ℕ) → (if m == n then false else ltb m n) ≡ not (leb n m)
      strictly m n = ground arith

  -- Where it returns and `Meets` applies (the cached gates held and the clauses left are true) under
  -- an assignment with literal 1 true, `less` of operands that agree, signed or not, is true just when
  -- the first operand's integer is below the second's.
  pub less-HasValue :
      {x y : Operand} {l k : Lowered} (s : Bool)
      → Agree σ x l
      → Agree σ y k
      → Meets σ (less l.bits k.bits s) (HasValue σ (not (lez (value_if s y) (value_if s x))))
  unfolding less
  less-HasValue {x} {y} {l} {k} false ha hb =
      Meets-weaken σ _ (less_words-Meets ha.word hb.word)
        λ v (e, h). subst (Means σ v) (rw (ha.value, hb.value) refl) h
  less-HasValue {x} {y} {l} {k} true ha hb =
      Meets-weaken σ _ (less_words-Meets (MeansWord-flip_top ha.word) (MeansWord-flip_top hb.word))
        λ v (e, h).
          let same : length hb.bools ≡ length ha.bools =
            sym (sym (length-flip_bools ha.bools) ∙ e ∙ length-flip_bools hb.bools) in
          subst (λ (b : Bool). Means σ v (not b))
            (sym (lez-signed hb.bools ha.bools same)
              ∙ rw (ha.value, hb.value, ha.width, hb.width) refl)
            h

  pub equal-HasValue :
      {x y : Operand} {l k : Lowered} (s : Bool)
      → Agree σ x l
      → Agree σ y k
      → Meets σ (equal l.bits k.bits) (HasValue σ (eqz (value_if s x) (value_if s y)))
  equal-HasValue {x} {y} {l} {k} s ha hb =
      Meets-weaken σ _ (equal-Meets σ t ha.word hb.word)
        λ v (e, h). subst (Means σ v) (same_bits-number ha.bools hb.bools e ∙ compared s e) h
    where
      compared :
          (r : Bool)
          → length ha.bools ≡ length hb.bools
          → (number ha.bools == number hb.bools) ≡ eqz (value_if r x) (value_if r y)
      compared false e = rw (ha.value, hb.value) refl
      compared true e =
          sym (eqz-signed ha.bools hb.bools e) ∙ rw (ha.value, hb.value, ha.width, hb.width) refl

  pub equality-Computes :
      {x y : Operand} {l k : Lowered} (w : ℕ)
      → Agree σ x l
      → Agree σ y k
      → Meets σ (boolean_of w (equal l.bits k.bits)) (Computes σ (ok (compare_values eqz x y)))
  equality-Computes {x} {y} w ha hb =
      boolean_of-Computes w (equal-HasValue (x.signed && y.signed) ha hb)

  pub inequality-Computes :
      {x y : Operand} {l k : Lowered} (w : ℕ)
      → Agree σ x l
      → Agree σ y k
      → Meets σ
          (boolean_not w (equal l.bits k.bits))
          (Computes σ (ok (compare_values (λ v u. not (eqz v u)) x y)))
  inequality-Computes {x} {y} w ha hb =
      boolean_not-Computes w (equal-HasValue (x.signed && y.signed) ha hb)

  -- `less` of the operands in their order, with the sign that they share.
  less_operands-HasValue :
      {x y : Operand} {l k : Lowered}
      → Agree σ x l
      → Agree σ y k
      → Meets σ (less_operands l k) (
          HasValue σ
            (not (lez (value_if (x.signed && y.signed) y) (value_if (x.signed && y.signed) x))))
  less_operands-HasValue {x} {y} {l} {k} ha hb =
      rw (ha.signed, hb.signed) (less-HasValue (l.signed && k.signed) ha hb)

  -- ... and of the operands exchanged.
  less_exchanged-HasValue :
      {x y : Operand} {l k : Lowered}
      → Agree σ x l
      → Agree σ y k
      → Meets σ (less_operands k l) (
          HasValue σ
            (not (lez (value_if (x.signed && y.signed) x) (value_if (x.signed && y.signed) y))))
  less_exchanged-HasValue {x} {y} {l} {k} ha hb =
      subst
        (λ (s : Bool).
          Meets σ (less_operands k l) (HasValue σ (not (lez (value_if s x) (value_if s y)))))
        (and_comm y.signed x.signed) (less_operands-HasValue hb ha)
    where
      and_comm : (a b : Bool) → (a && b) ≡ (b && a)
      and_comm a b = ground arith

  not-not : (b : Bool) → not (not b) ≡ b
  not-not b = ground arith

  pub less_than-Computes :
      {x y : Operand} {l k : Lowered} (w : ℕ)
      → Agree σ x l
      → Agree σ y k
      → Meets σ
          (boolean_of w (less_operands l k))
          (Computes σ (ok (compare_values (λ v u. not (lez u v)) x y)))
  less_than-Computes w ha hb = boolean_of-Computes w (less_operands-HasValue ha hb)

  pub greater_than-Computes :
      {x y : Operand} {l k : Lowered} (w : ℕ)
      → Agree σ x l
      → Agree σ y k
      → Meets σ
          (boolean_of w (less_operands k l))
          (Computes σ (ok (compare_values (λ v u. not (lez v u)) x y)))
  greater_than-Computes w ha hb = boolean_of-Computes w (less_exchanged-HasValue ha hb)

  pub less_than_equal-Computes :
      {x y : Operand} {l k : Lowered} (w : ℕ)
      → Agree σ x l
      → Agree σ y k
      → Meets σ (boolean_not w (less_operands k l)) (Computes σ (ok (compare_values (lez) x y)))
  less_than_equal-Computes {x} {y} {l} {k} w ha hb =
      subst (λ (b : Bool). Meets σ (boolean_not w (less_operands k l)) (Computes σ (ok (int_of b))))
        (not-not _) (boolean_not-Computes w (less_exchanged-HasValue ha hb))

  pub greater_than_equal-Computes :
      {x y : Operand} {l k : Lowered} (w : ℕ)
      → Agree σ x l
      → Agree σ y k
      → Meets σ
          (boolean_not w (less_operands l k))
          (Computes σ (ok (compare_values (λ v u. lez u v) x y)))
  greater_than_equal-Computes {x} {y} {l} {k} w ha hb =
      subst (λ (b : Bool). Meets σ (boolean_not w (less_operands l k)) (Computes σ (ok (int_of b))))
        (not-not _) (boolean_not-Computes w (less_operands-HasValue ha hb))
