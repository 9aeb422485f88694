-- ===== src/Cnf/Basic.antt =====
-- The actions of `CNF` (src/opencollate/sequential_cnf.py) that write its fields, under an
-- assignment of the variables.
use mathlib.Core.Path.{subst}
use open_collate.Common.{
  ℕ, ℤ, ◌+◌, ◌≡◌, refl, sym, ap, true, ◌||◌, [], ◌∷◌, ◌++◌, All, All-of_append, Option, none, some,
  Result, ok, err, ok-injective, after-if, neg, eqz, eqz_iff, leb, ltb, length, inl, inr,
  Bool-cases, arith,
}
use open_collate.Kernel.Meter.{ProofError, Meter, spend}
use open_collate.Kernel.Clause.{Clause, contains}
use open_collate.Kernel.Meaning.{
  Assignment, lit_true, clause_true, normal_true, lit_true-neg, clause_true-append,
  clause_true-contains,
}
use open_collate.Kernel.Nonzero.{IsNonzero}
use open_collate.Cnf.State.{Kind, Cnf, one}
use open_collate.Cnf.Gates.{
  paid, pay, new_variable, variable, simplify, append_clause, append_simplified, clause, remember,
}
use open_collate.Cnf.Rules.{
  Models, gate_value, Means, CacheHolds, Grows, Meets, Grows-bind, Meets-bind, Meets-weaken,
  Meets-pure,
}

module _ (σ : Assignment) where
  pub pay-Meets : (amount : ℕ) → Meets σ (pay amount) (λ _. Unit {0})
  unfolding pay
  pay-Meets amount = record {
    grows = record { back = λ q r e. back q r (spend amount q.meter) e };
    at = λ q r e. at q r (spend amount q.meter) e;
  }
    where
      back :
          (q : Cnf) (r : Unit {0} × Cnf) (x : Result ProofError Meter)
          → paid q x ≡ ok r
          → Models σ r.1
          → Models σ q
      back q r (ok m) e h = subst (λ (y : Unit {0} × Cnf). Models σ y.1) (sym (ok-injective e)) h
      back q r (err e') e h = cc

      at :
          (q : Cnf) (r : Unit {0} × Cnf) (x : Result ProofError Meter)
          → paid q x ≡ ok r
          → CacheHolds σ q
          → Models σ r.1
          → CacheHolds σ r.1 × Unit {0}
      at q r (ok m) e c h =
          (subst (λ (y : Unit {0} × Cnf). CacheHolds σ y.1) (ok-injective e) c, tt)
      at q r (err e') e c h = cc

  new_variable-Meets : Meets σ new_variable (λ v. IsNonzero v)
  unfolding new_variable
  new_variable-Meets = record {
    grows = record {
      back = λ q r e h.
          after-if (leb q.meter.limits.variables q.variables) e (λ _ f. cc)
            λ _ f. subst (λ (y : ℤ × Cnf). Models σ y.1) (sym (ok-injective f)) h;
    };
    at = λ q r e c h.
        after-if (leb q.meter.limits.variables q.variables) e (λ _ f. cc)
          λ _ f.
            subst (λ (y : ℤ × Cnf). CacheHolds σ y.1 × IsNonzero y.0) (ok-injective f)
              (c, ground arith);
  }

  pub variable-Meets : Meets σ variable IsNonzero
  unfolding variable
  variable-Meets =
      Meets-bind σ (pay 1) (λ _. new_variable) (pay-Meets 1) (λ _. new_variable-Meets.grows)
        (λ _ _. new_variable-Meets)

  pub append_clause-Meets :
      (values : Clause) → Meets σ (append_clause values) (λ _. clause_true σ values ≡ true)
  unfolding append_clause
  append_clause-Meets values = record {
    grows = record { back = λ q r e h. (split q r e h).0 };
    at = λ q r e c h. ((split q r e h).2 c, (split q r e h).1);
  }
    where
      split :
          (q : Cnf) (r : Unit {0} × Cnf)
          → append_clause values q ≡ ok r
          → Models σ r.1
          → Models σ q × (clause_true σ values ≡ true) × (CacheHolds σ q → CacheHolds σ r.1)
      split q r e h =
          after-if (leb q.meter.limits.clauses (length q.clauses)) e (λ _ f. cc)
            λ _ f.
              after-if (ltb q.meter.limits.literals (q.literals + length values)) f (λ _ g. cc)
                λ _ g.
                  let h' = subst (λ (y : Unit {0} × Cnf). Models σ y.1) (sym (ok-injective g)) h in
                  let (old, new) = All-of_append _ q.clauses (values ∷ []) h' in
                  (
                    old,
                    new.0,
                    λ c. subst (λ (y : Unit {0} × Cnf). CacheHolds σ y.1) (ok-injective g) c,
                  )

  append_simplified-Meets :
      (c : Option Clause) → Meets σ (append_simplified c) (λ _. normal_true σ c ≡ true)
  append_simplified-Meets none = Meets-pure σ tt refl
  append_simplified-Meets (some values) = append_clause-Meets values

  -- A clause that is left out, or shortened, is true where what is kept is.
  simplify_sound :
      (lits values : Clause)
      → σ 1 ≡ true
      → All IsNonzero lits
      → normal_true σ (simplify lits values) ≡ true
      → (clause_true σ lits || clause_true σ values) ≡ true
  unfolding simplify
  simplify_sound [] values t n h = h
  simplify_sound (lit ∷ lits) values t n h = elim (Bool-cases (eqz lit one)) [
    | inl e ↦ ground (arith, ap (lit_true σ) ((eqz_iff lit one).0 e), t)
    | inr e ↦ elim (Bool-cases (contains (neg lit) values)) [
      | inl c ↦ ground (arith, clause_true-contains σ (neg lit) values c, lit_true-neg σ lit n.0)
      | inr c ↦ ground (
        arith,
        simplify_sound lits values t n.1,
        simplify_sound lits (values ++ lit ∷ []) t n.1,
        clause_true-append σ values (lit ∷ []),
      )
    ]
  ]

  pub remember-Grows : (k : Kind) (lo hi v : ℤ) → Grows σ (remember k lo hi v)
  unfolding remember
  remember-Grows k lo hi v = record {
    back = λ q r e h. subst (λ (y : Unit {0} × Cnf). Models σ y.1) (sym (ok-injective e)) h;
  }

  pub remember-Meets :
      (k : Kind) (lo hi v : ℤ)
      → Means σ v (gate_value k (lit_true σ lo) (lit_true σ hi))
      → Meets σ (remember k lo hi v) (λ _. Unit {0})
  unfolding remember
  remember-Meets k lo hi v means = record {
    grows = remember-Grows k lo hi v;
    at = λ q r e c h.
        (subst (λ (y : Unit {0} × Cnf). CacheHolds σ y.1) (ok-injective e) (means, c), tt);
  }

  pub pay-Grows : (amount : ℕ) → Grows σ (pay amount)
  pay-Grows amount = (pay-Meets amount).grows

  pub variable-Grows : Grows σ variable
  variable-Grows = variable-Meets.grows

  append_simplified-Grows : (c : Option Clause) → Grows σ (append_simplified c)
  append_simplified-Grows c = (append_simplified-Meets c).grows

  pub clause-Grows : (lits : Clause) → Grows σ (clause lits)
  unfolding clause
  clause-Grows lits = search (Grows-bind, pay-Grows, append_simplified-Grows)

  -- A clause that was written is true.
  pub clause-Meets :
      (lits : Clause)
      → σ 1 ≡ true
      → All IsNonzero lits
      → Meets σ (clause lits) (λ _. clause_true σ lits ≡ true)
  unfolding clause
  clause-Meets lits t n =
      Meets-bind σ (pay (length lits + 1)) (λ _. append_simplified (simplify lits []))
        (pay-Meets (length lits + 1)) (λ _. append_simplified-Grows (simplify lits []))
        λ _ _.
          Meets-weaken σ (append_simplified (simplify lits []))
            (append_simplified-Meets (simplify lits []))
            (λ _ h. ground (arith, simplify_sound lits [] t n h))
