-- ===== src/Ir/Evaluate/Total.antt =====
-- The loop of `evaluate` (src/opencollate/sequential_ir.py) ends, with the value of its root.
use mathlib.Core.Path.{subst}
use mathlib.Core.Option.{some-injective}
use open_collate.Common.{
  ℕ, zero, suc, ◌-◌, ◌+◌, ◌≡◌, ◌<◌, ◌≤◌, refl, sym, ap, ◌∙◌, true, false, Option, none, some, List,
  [], ◌∷◌, ok, err, ◌>>=◌, length, get_elem?, arith, All, Option-cases, Bool-cases, inl, inr, ◌==◌,
}
use open_collate.Ir.Circuit.{Node, SequentialError}
use open_collate.Ir.Values.{Operand, Env, node_value}
use open_collate.Ir.Builder.{Circuit}
use open_collate.Ir.Builder.Interning.{IsOrdered}
use open_collate.Ir.Evaluate.{
  Values, no_values, assign, Stack, collect, read, push_args, run, rounds_for, evaluate,
}
use open_collate.Ir.Evaluate.Reference.{reference, IsOrdered-read}
use open_collate.Ir.Evaluate.Settle.{
  rounds_left-none, rounds_left-assign, value_of, IsValid, Extends, Fails, Settled, settled, failed,
  SettlesAll, settled_all, failed_one, Settled-old,
}
use open_collate.Ir.Evaluate.Correct.{
  Result-cases, settle_args, read_back, value_of-eq, first_visit, second_visit,
}

get_elem?-lt : (ns : List Node) (i : ℕ) → i < length ns → (n : Node) × (get_elem? ns i ≡ some n)
get_elem?-lt [] i h = absurd (omega arith)
get_elem?-lt (n ∷ ns) zero h = (n, refl)
get_elem?-lt (n ∷ ns) (suc i) h = get_elem?-lt ns i (omega arith)

suc_plus : (k fuel : ℕ) → suc k + fuel ≡ suc (k + fuel)
suc_plus k fuel = omega arith

zero_plus : (k : ℕ) → 0 + k ≡ k
zero_plus k = omega arith

-- What is left of the fuel after `used` rounds.
left : (used total : ℕ) → used ≤ total + 1 → (spare : ℕ) × (total + 2 ≡ used + suc spare)
left used total h = (total + 1 - used, omega arith)

two_more : (k fuel : ℕ) → 2 + k + fuel ≡ suc (k + suc fuel)
two_more k fuel = omega arith

module _ (nodes : List Node) (env : Env) (ordered : IsOrdered 0 nodes) where
  IsValid-assign :
      (i v : ℕ) (values : Values)
      → IsValid nodes env ordered values
      → value_of nodes env ordered i ≡ ok v
      → IsValid nodes env ordered (assign i v values)
  IsValid-assign i v values h good j w e = elim (Bool-cases (j == i)) [
    | inl same ↦
        let at : j ≡ i = ground arith in
        let which : v ≡ w = some-injective v w (sym (rw same refl) ∙ e) in rw (at, sym which) good
    | inr other ↦ h j w (sym (rw other refl) ∙ e)
  ]

  Extends-assign :
      (i v : ℕ) (values : Values)
      → values i ≡ none
      → Extends nodes env ordered values (assign i v values)
  Extends-assign i v values new j w e = elim (Bool-cases (j == i)) [
    | inl same ↦
        let at : j ≡ i = ground arith in absurd (none≢some (sym new ∙ ap values (sym at) ∙ e))
    | inr other ↦ rw other e
  ]
    where
      none≢some : ¬ ◌≡◌ {A = Option ℕ} none (some w)
      none≢some p = cc

  -- The operands of a node have their values: the node gets its own.
  settle_node :
      (i : ℕ) (n : Node) (a : List Operand) (rest : Stack) (values : Values)
      → get_elem? nodes i ≡ some n
      → values i ≡ none
      → IsValid nodes env ordered values
      → collect (value_of nodes env ordered) nodes n.args ≡ ok a
      → SettlesAll nodes env ordered i n.args
          (push_args values n.args ((i, true) ∷ rest))
          ((i, true) ∷ rest)
          values
      → Settled nodes env ordered i rest values
  settle_node i n a rest values there new h all s =
      let values1 = s.values' in
      let empty : values1 i ≡ none = s.untouched i (omega arith) ∙ new in
      let cost = λ (v : ℕ). rounds_left-assign 0 i i v nodes values1 (omega arith) there empty in
      let again = read_back nodes env ordered n.args values1 s.leads.valid s.found ∙ all in
      let starts = λ (fuel : ℕ). first_visit nodes env ordered i n rest values fuel there new in
      elim (Result-cases (node_value n a env)) [
        | inl (v, e) ↦
            let good : value_of nodes env ordered i ≡ ok v =
              value_of-eq nodes env ordered i there ∙ rw (all, e) refl in
            settled v good (record {
              values' = assign i v values1;
              leads = record {
                used = 2 + s.leads.used;
                runs = λ fuel.
                    ap (λ (k : ℕ). run k nodes env ((i, false) ∷ rest) values)
                      (two_more s.leads.used fuel)
                    ∙ starts (s.leads.used + suc fuel)
                    ∙ s.leads.runs (suc fuel)
                    ∙ second_visit nodes env ordered i n a rest values1 fuel (ok v) there empty
                        again e;
                within = omega (arith, s.leads.within, cost v);
                valid = IsValid-assign i v values1 s.leads.valid good;
                extends = λ j w p. Extends-assign i v values1 empty j w (s.leads.extends j w p);
              };
              found = ground arith;
              untouched = λ j p. ground (arith, s.untouched j (omega arith));
            })
        | inr (x, e) ↦ failed x (value_of-eq nodes env ordered i there ∙ rw (all, e) refl) (record {
          used = 2 + s.leads.used;
          values' = assign i 0 values1;
          fails = λ fuel.
              ap (λ (k : ℕ). run k nodes env ((i, false) ∷ rest) values)
                (two_more s.leads.used fuel)
              ∙ starts (s.leads.used + suc fuel)
              ∙ s.leads.runs (suc fuel)
              ∙ second_visit nodes env ordered i n a rest values1 fuel (err x) there empty again e;
          within = omega (arith, s.leads.within, cost 0);
          untouched = λ j p. ground (arith, s.untouched j (omega arith));
        })
      ]

  -- A node whose operands do not all get their values fails as they do.
  settle_failed :
      (i : ℕ) (n : Node) (rest : Stack) (values : Values) (e : SequentialError)
      → get_elem? nodes i ≡ some n
      → values i ≡ none
      → collect (value_of nodes env ordered) nodes n.args ≡ err e
      → Fails nodes env ordered
          (length n.args)
          i
          (push_args values n.args ((i, true) ∷ rest))
          values
          e
      → Settled nodes env ordered i rest values
  settle_failed i n rest values e there new bad f =
      let empty : f.values' i ≡ none = f.untouched i (omega arith) ∙ new in
      let cost = rounds_left-assign 0 i i 0 nodes f.values' (omega arith) there empty in
      failed e (value_of-eq nodes env ordered i there ∙ rw bad refl) (record {
        used = suc f.used;
        values' = assign i 0 f.values';
        fails = λ fuel.
            ap (λ (k : ℕ). run k nodes env ((i, false) ∷ rest) values) (suc_plus f.used fuel)
            ∙ first_visit nodes env ordered i n rest values (f.used + fuel) there new
            ∙ f.fails fuel;
        within = omega (arith, f.within, cost);
        untouched = λ j p. ground (arith, f.untouched j (omega arith));
      })

  settle :
      (bound i : ℕ)
      → i < bound
      → i < length nodes
      → (rest : Stack) (values : Values) → IsValid nodes env ordered values
      → Settled nodes env ordered i rest values
  settle zero i low here rest values h = absurd (omega arith)
  settle (suc bound) i low here rest values h = elim (Option-cases (values i)) [
    | inr (v, old) ↦ settled v (h i v old) (Settled-old nodes env ordered i v rest values h old)
    | inl new ↦
        let (n, there) = get_elem?-lt nodes i here in
        elim (settle_args nodes env ordered i
          (λ a below. settle bound a (omega arith) (omega arith)) n.args
          (subst (λ (k : ℕ). All (λ a. a < k) n.args) (zero_plus i)
            (IsOrdered-read 0 nodes i ordered there))
          values ((i, true) ∷ rest) values h (λ j v p. p)) [
            | failed_one e bad f ↦ settle_failed i n rest values e there new bad f
            | settled_all a all s ↦ settle_node i n a rest values there new h all s
          ]
  ]

  ends : (values : Values) (fuel : ℕ) → run (suc fuel) nodes env [] values ≡ ok values
  unfolding run
  ends values fuel = refl

  -- The loop, from the stack that `evaluate` starts with.
  pub run_root :
      (root : ℕ)
      → root < length nodes
      → (run (rounds_for nodes + 2) nodes env ((root, false) ∷ []) no_values >>= λ values.
          read values root)
        ≡ value_of nodes env ordered root
  run_root root here =
      elim (settle (suc root) root (omega arith) here [] no_values
        (λ j v e. absurd (none≢some e))) [
          | settled v good s ↦
              let (spare, e) =
                left s.leads.used (rounds_for nodes)
                  (omega (arith, s.leads.within, rounds_left-none 0 nodes)) in
              let found = s.found in
              rw (e, s.leads.runs (suc spare), ends s.values' spare, found, good) refl
          | failed e bad f ↦
              let (spare, t) =
                left f.used (rounds_for nodes)
                  (omega (arith, f.within, rounds_left-none 0 nodes)) in
              rw (t, f.fails (suc spare), bad) refl
        ]
    where
      none≢some : {v : ℕ} → ¬ ◌≡◌ {A = Option ℕ} none (some v)
      none≢some p = cc

-- For a root of a circuit in topological order, the loop of `evaluate` ends within its rounds; it gives
-- the value, or the error, that the recursion on the graph gives for the root.
pub evaluate-reference :
    (c : Circuit) (root : ℕ) (env : Env)
    → (ordered : IsOrdered 0 c.nodes) → root < length c.nodes
    → evaluate c root env ≡ reference (suc root) c.nodes env root
unfolding evaluate
evaluate-reference c root env ordered here = run_root c.nodes env ordered root here
