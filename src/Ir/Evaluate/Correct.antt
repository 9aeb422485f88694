-- ===== src/Ir/Evaluate/Correct.antt =====
-- The loop of `evaluate` (src/opencollate/sequential_ir.py) computes the reference value of a node.
use open_collate.Common.{
  ℕ, suc, ◌≡◌, ◌<◌, ◌≤◌, refl, sym, ◌∙◌, true, false, none, some, List, [], ◌∷◌, Result, ok, err,
  ◌>>=◌, get_elem?, arith, All, Option-cases, inl, inr, ◌⊎◌,
}
use open_collate.Ir.Circuit.{Node, SequentialError}
use open_collate.Ir.Values.{Operand, Env, node_value}
use open_collate.Ir.Builder.Interning.{IsOrdered}
use open_collate.Ir.Evaluate.{
  Values, assign, Stack, collect, read, push_args, visit_node, step, run,
}
use open_collate.Ir.Evaluate.Reference.{
  reference, reference-stable, collect-ext, IsOrdered-read, All-map,
}
use open_collate.Ir.Evaluate.Settle.{
  value_of, IsValid, Extends, Leads, Settled, settled, failed, SettledAll, settled_all, failed_one,
  Leads-refl, Leads-trans, Leads-weaken, Fails-weaken, Leads-Fails,
}

pub Result-cases {ℓ κ} :
    {E : Type ℓ} {A : Type κ} (r : Result E A) → ((a : A) × (r ≡ ok a)) ⊎ ((e : E) × (r ≡ err e))
Result-cases (ok a) = inl (a, refl)
Result-cases (err e) = inr (e, refl)

module _ (nodes : List Node) (env : Env) (ordered : IsOrdered 0 nodes) where
  -- A node that has a value is a node.
  value_of-node :
      (i v : ℕ) → value_of nodes env ordered i ≡ ok v → (n : Node) × (get_elem? nodes i ≡ some n)
  unfolding reference
  value_of-node i v e = elim (Option-cases (get_elem? nodes i)) [
    | inl none_there ↦ absurd (err≢ok (rw none_there at e))
    | inr (n, there) ↦ (n, there)
  ]
    where
      err≢ok : {x : SequentialError} {y : ℕ} → ¬ ◌≡◌ {A = Result SequentialError ℕ} (err x) (ok y)
      err≢ok p = cc

  abbrev pub Settling : ℕ → Type 0
  Settling i =
      (a : ℕ)
      → a < i
      → (rest : Stack) (values : Values) → IsValid nodes env ordered values
      → Settled nodes env ordered a rest values

  -- An operand that has its value, before operands that get theirs.
  pub after_operand :
      (i a v : ℕ) (args : List ℕ) (stack next rest : Stack) (values values1 : Values)
      → a < i
      → value_of nodes env ordered a ≡ ok v
      → Leads nodes env ordered 1 stack values next values1
      → values1 a ≡ some v
      → ((j : ℕ) → i ≤ j → values1 j ≡ values j)
      → SettledAll nodes env ordered i args next rest values1
      → SettledAll nodes env ordered i (a ∷ args) stack rest values
  unfolding collect
  after_operand i a v args stack next rest values values1 low good leads found same
        (failed_one e bad f) =
      let (n, there) = value_of-node a v good in
      failed_one e (rw (good, there, bad) refl) (
        Fails-weaken nodes env ordered (omega arith) (omega arith)
          (Leads-Fails nodes env ordered leads f same))
  after_operand i a v args stack next rest values values1 low good leads found same
        (settled_all ops all s) =
      let (n, there) = value_of-node a v good in
      settled_all ((record { width = n.width; signed = n.signed; value = v }) ∷ ops)
        (rw (good, there, all) refl)
        (record {
          values' = s.values';
          leads =
              Leads-weaken nodes env ordered (omega arith)
                (Leads-trans nodes env ordered leads s.leads);
          found = ((v, s.leads.extends a v found), s.found);
          untouched = λ j p. s.untouched j p ∙ same j p;
        })

  pub settle_args :
      (i : ℕ)
      → Settling i
      → (args : List ℕ) → All (λ a. a < i) args
      → (values0 : Values) (rest : Stack) (values : Values) → IsValid nodes env ordered values
      → Extends nodes env ordered values0 values
      → SettledAll nodes env ordered i args (push_args values0 args rest) rest values
  unfolding push_args collect
  settle_args i ih [] low values0 rest values h more = settled_all [] refl (record {
    values' = values;
    leads = Leads-refl nodes env ordered rest values h;
    found = tt;
    untouched = λ j p. refl;
  })
  settle_args i ih (a ∷ args) (low, lows) values0 rest values h more =
      elim (Option-cases (values0 a)) [
        | inr (v, old) ↦
            let found = more a v old in
            rw old (
              after_operand i a v args (push_args values0 args rest) (push_args values0 args rest)
                rest values values low (h a v found)
                (Leads-weaken nodes env ordered (omega arith)
                  (Leads-refl nodes env ordered (push_args values0 args rest) values h))
                found (λ j p. refl) (settle_args i ih args lows values0 rest values h more))
        | inl new ↦ rw new (elim (ih a low (push_args values0 args rest) values h) [
          | failed e bad f ↦
              failed_one e (rw bad refl)
                (Fails-weaken nodes env ordered (omega arith) (omega arith) f)
          | settled v good s ↦
              after_operand i a v args ((a, false) ∷ push_args values0 args rest)
                (push_args values0 args rest) rest values s.values' low good s.leads s.found
                (λ j p. s.untouched j (omega arith))
                (settle_args i ih args lows values0 rest s.values' s.leads.valid
                  (λ j w p. s.leads.extends j w (more j w p)))
        ])
      ]

  -- Operands that have their values are read back.
  pub read_back :
      (args : List ℕ) (values : Values)
      → IsValid nodes env ordered values
      → All (λ a. (v : ℕ) × (values a ≡ some v)) args
      → collect (read values) nodes args ≡ collect (value_of nodes env ordered) nodes args
  read_back args values h found =
      collect-ext (read values) (value_of nodes env ordered) nodes args
        (All-map (λ a (v, e). rw e (sym (h a v e))) args found)

  -- The value of a node, from the values of its operands.
  pub value_of-eq :
      (i : ℕ) {n : Node}
      → get_elem? nodes i ≡ some n
      → value_of nodes env ordered i
        ≡ (collect (value_of nodes env ordered) nodes n.args >>= λ a. node_value n a env)
  unfolding reference
  value_of-eq i {n} there =
      rw
        (
          there,
          collect-ext (reference i nodes env) (value_of nodes env ordered) nodes n.args (
              All-map (λ a low. reference-stable nodes env ordered i (suc a) a low (omega arith))
                n.args
                (All-map (λ a low. omega arith) n.args (IsOrdered-read 0 nodes i ordered there))),
        )
        refl

  -- The first visit of a node, and the second.
  pub first_visit :
      (i : ℕ) (n : Node) (rest : Stack) (values : Values) (fuel : ℕ)
      → get_elem? nodes i ≡ some n
      → values i ≡ none
      → run (suc fuel) nodes env ((i, false) ∷ rest) values
        ≡ run fuel nodes env (push_args values n.args ((i, true) ∷ rest)) values
  unfolding run step visit_node
  first_visit i n rest values fuel there new = rw (new, there) refl

  pub second_visit :
      (i : ℕ) (n : Node) (a : List Operand) (rest : Stack) (values : Values) (fuel : ℕ)
      (r : Result SequentialError ℕ)
      → get_elem? nodes i ≡ some n
      → values i ≡ none
      → collect (read values) nodes n.args ≡ ok a
      → node_value n a env ≡ r
      → run (suc fuel) nodes env ((i, true) ∷ rest) values
        ≡ (r >>= λ v. run fuel nodes env rest (assign i v values))
  unfolding run step visit_node
  second_visit i n a rest values fuel (ok v) there new read_args e =
      rw (new, there, read_args, e) refl
  second_visit i n a rest values fuel (err x) there new read_args e =
      rw (new, there, read_args, e) refl
