-- ===== src/Cnf/GateLaws.antt =====
-- The gates of `CNF` (src/opencollate/sequential_cnf.py) compute AND, OR and XOR, under every
-- assignment that makes the clauses and literal 1 true.
use mathlib.Core.Path.{subst}
use open_collate.Common.{
  ℤ, ◌≡◌, refl, sym, ◌∙◌, Bool, true, false, ◌&&◌, ◌||◌, neg, abs, eqz, ◌==◌, if◌then◌else◌,
  xor_bool, arith,
}
use open_collate.Kernel.Meaning.{Assignment, lit_true-neg}
use open_collate.Cnf.State.{and_gate, xor_gate, one, minus_one}
use open_collate.Cnf.Gates.{and_, or_, xor}
use open_collate.Cnf.Basic.{pay-Meets}
use open_collate.Cnf.Growth.{gate-Grows}
use open_collate.Cnf.Rules.{Means, Meets, Grows-pure, Meets-bind, Meets-pure, Meets-if, grow_rules}
use open_collate.Cnf.SharedGates.{
  HasValue, Means-neg, Means-one, Means-minus_one, eqz-lit_true, abs-one-cases, gate-HasValue,
}

module _ (σ : Assignment) (t : σ 1 ≡ true) where
  module _ (a b : ℤ) {x y : Bool} (ha : Means σ a x) (hb : Means σ b y) where
    and_-false : (eqz a minus_one || (eqz b minus_one || eqz a (neg b))) ≡ true → false ≡ (x && y)
    and_-false z = ground (
      arith,
      z,
      t,
      ha.meaning,
      hb.meaning,
      eqz-lit_true σ t a minus_one,
      eqz-lit_true σ t b minus_one,
      eqz-lit_true σ t a (neg b),
      lit_true-neg σ b hb.nonzero,
    )

    and_-right : eqz a one ≡ true → y ≡ (x && y)
    and_-right z = ground (arith, z, t, ha.meaning, eqz-lit_true σ t a one)

    and_-left : (eqz b one || eqz a b) ≡ true → x ≡ (x && y)
    and_-left z =
        ground (arith, z, t, ha.meaning, hb.meaning, eqz-lit_true σ t b one, eqz-lit_true σ t a b)

    -- Where it returns and `Meets` applies (the cached gates held and the clauses left are true) under
    -- an assignment with literal 1 true, the literal that `and_` returns has the conjunction of the
    -- operands' values, and the cached gates still hold.
    pub and_-Meets : Meets σ (and_ a b) (HasValue σ (x && y))
    unfolding and_
    and_-Meets =
        Meets-bind σ _ _ (pay-Meets σ 1) (λ _. search (grow_rules, gate-Grows))
          λ _ _.
            Meets-if σ _ _ _
              (λ z.
                Meets-pure σ minus_one
                  (subst (Means σ minus_one) (and_-false z) (Means-minus_one σ t)))
              λ _.
                Meets-if σ _ _ _ (λ z. Meets-pure σ b (subst (Means σ b) (and_-right z) hb))
                  λ _.
                    Meets-if σ _ _ _ (λ z. Meets-pure σ a (subst (Means σ a) (and_-left z) ha))
                      λ _. gate-HasValue σ t and_gate a b ha hb refl

    xor-same : eqz a b ≡ true → false ≡ xor_bool x y
    xor-same z = ground (arith, z, ha.meaning, hb.meaning, eqz-lit_true σ t a b)

    xor-opposite : eqz a (neg b) ≡ true → true ≡ xor_bool x y
    xor-opposite z =
        ground (
          arith,
          z,
          ha.meaning,
          hb.meaning,
          eqz-lit_true σ t a (neg b),
          lit_true-neg σ b hb.nonzero,
        )

    xor-left : (abs a == 1) ≡ true → Means σ (if eqz a one then neg b else b) (xor_bool x y)
    xor-left z = by (eqz a one) (sym ha.meaning ∙ abs-one-cases σ t a z)
      where
        by : (c : Bool) → x ≡ c → Means σ (if c then neg b else b) (xor_bool x y)
        by true e = subst (Means σ (neg b)) (ground arith) (Means-neg hb)
        by false e = subst (Means σ b) (ground arith) hb

    xor-right : (abs b == 1) ≡ true → Means σ (if eqz b one then neg a else a) (xor_bool x y)
    xor-right z = by (eqz b one) (sym hb.meaning ∙ abs-one-cases σ t b z)
      where
        by : (c : Bool) → y ≡ c → Means σ (if c then neg a else a) (xor_bool x y)
        by true e = subst (Means σ (neg a)) (ground arith) (Means-neg ha)
        by false e = subst (Means σ a) (ground arith) ha

    -- Where it returns and `Meets` applies (the cached gates held and the clauses left are true) under
    -- an assignment with literal 1 true, the literal that `xor` returns has the exclusive disjunction of
    -- the operands' values, and the cached gates still hold.
    pub xor-Meets : Meets σ (xor a b) (HasValue σ (xor_bool x y))
    unfolding xor
    xor-Meets =
        Meets-bind σ _ _ (pay-Meets σ 1) (λ _. search (grow_rules, gate-Grows))
          λ _ _.
            Meets-if σ _ _ _
              (λ z.
                Meets-pure σ minus_one
                  (subst (Means σ minus_one) (xor-same z) (Means-minus_one σ t)))
              λ _.
                Meets-if σ _ _ _
                  (λ z. Meets-pure σ one (subst (Means σ one) (xor-opposite z) (Means-one σ t)))
                  λ _.
                    Meets-if σ _ _ _ (λ z. Meets-pure σ _ (xor-left z))
                      λ _.
                        Meets-if σ _ _ _ (λ z. Meets-pure σ _ (xor-right z))
                          λ _. gate-HasValue σ t xor_gate a b ha hb refl

  pub or_-Meets :
      (a b : ℤ) {x y : Bool} → Means σ a x → Means σ b y → Meets σ (or_ a b) (HasValue σ (x || y))
  unfolding or_
  or_-Meets a b {x} {y} ha hb =
      Meets-bind σ _ _ (and_-Meets (neg a) (neg b) (Means-neg ha) (Means-neg hb))
        (λ v. Grows-pure σ (neg v))
        λ v hv. Meets-pure σ (neg v) (subst (Means σ (neg v)) (ground arith) (Means-neg hv))
