-- ===== src/Ir/Evaluate/Settle.antt =====
-- The loop of `evaluate` (src/opencollate/sequential_ir.py) settles one node after the other.
use mathlib.Core.Option.{some-injective}
use open_collate.Common.{
  ℕ, zero, suc, ◌+◌, ◌≡◌, ◌<◌, ◌≤◌, refl, ap, ◌∙◌, true, false, Option, none, some, List, [], ◌∷◌,
  Result, ok, err, length, get_elem?, arith, All, ◌==◌,
}
use open_collate.Ir.Circuit.{Node, SequentialError}
use open_collate.Ir.Values.{Operand, Env}
use open_collate.Ir.Builder.Interning.{IsOrdered}
use open_collate.Ir.Evaluate.{Values, no_values, assign, Stack, collect, step, run, rounds_for}
use open_collate.Ir.Evaluate.Reference.{reference}

-- The rounds that a node may still take: none once it has a value.
abbrev pub share : Option ℕ → ℕ → ℕ
share none cost = cost
share (some v) cost = 0

-- The rounds that the nodes without a value may still take, from index `k` on.
abbrev pub rounds_left : ℕ → List Node → Values → ℕ
rounds_left k [] values = 0
rounds_left k (n ∷ ns) values = share (values k) (2 + length n.args) + rounds_left (suc k) ns values

pub rounds_left-none : (k : ℕ) (ns : List Node) → rounds_left k ns no_values ≡ rounds_for ns
unfolding rounds_for
rounds_left-none k [] = refl
rounds_left-none k (n ∷ ns) = omega (arith, rounds_left-none (suc k) ns)

-- A value for a node before index `k` changes nothing from there on.
rounds_left-before :
    (k i v : ℕ) (ns : List Node) (values : Values)
    → i < k
    → rounds_left k ns (assign i v values) ≡ rounds_left k ns values
rounds_left-before k i v [] values h = refl
rounds_left-before k i v (n ∷ ns) values h =
    ground (arith, rounds_left-before (suc k) i v ns values)

pub rounds_left-assign :
    (k i t v : ℕ) (ns : List Node) (values : Values) {n : Node}
    → t ≡ k + i
    → get_elem? ns i ≡ some n
    → values t ≡ none
    → rounds_left k ns (assign t v values) + (2 + length n.args) ≡ rounds_left k ns values
rounds_left-assign k i t v [] values at e h = cc
rounds_left-assign k zero t v (m ∷ ns) values at e h =
    let same : k ≡ t = omega (arith, at) in
    let rest = rounds_left-before (suc k) t v ns values (omega arith) in
    let cost = ap (λ (x : Node). length x.args) (some-injective _ _ e) in
    let free : values k ≡ none = ap values same ∙ h in
    let now : (k == t) ≡ true = ground arith in rw (free, now, rest) (omega (arith, cost))
rounds_left-assign k (suc i) t v (m ∷ ns) values at e h =
    let ih = rounds_left-assign (suc k) i t v ns values (omega (arith, at)) e h in
    let other : (k == t) ≡ false = ground arith in rw other (omega (arith, ih))

pub one_more : (n : ℕ) → 1 + n ≡ suc n
one_more n = omega arith

module _ (nodes : List Node) (env : Env) (ordered : IsOrdered 0 nodes) where
  -- The value that node `i` has.
  abbrev pub value_of : ℕ → Result SequentialError ℕ
  value_of i = reference (suc i) nodes env i

  abbrev pub IsValid : Values → Type 0
  IsValid values = (j v : ℕ) → values j ≡ some v → value_of j ≡ ok v

  abbrev pub Extends : Values → Values → Type 0
  Extends values values' = (j v : ℕ) → values j ≡ some v → values' j ≡ some v

  -- Some rounds lead from `stack` and `values` to `stack'` and `values'`, within what they may take.
  pub record Leads (allowed : ℕ) (stack : Stack) (values : Values) (stack' : Stack)
      (values' : Values) : Type 0 where
    pub used : ℕ
    pub runs :
        (fuel : ℕ) → run (used + fuel) nodes env stack values ≡ run fuel nodes env stack' values'
    pub within : used + rounds_left 0 nodes values' ≤ rounds_left 0 nodes values + allowed
    pub valid : IsValid values'
    pub extends : Extends values values'

  -- Some rounds lead to the error `e`; the rounds are counted as if the nodes of `values'` had
  -- their values, and nothing from `from` on is among these.
  pub record Fails (allowed from : ℕ) (stack : Stack) (values : Values) (e : SequentialError)
      : Type 0 where
    pub used : ℕ
    pub values' : Values
    pub fails : (fuel : ℕ) → run (used + fuel) nodes env stack values ≡ err e
    pub within : used + rounds_left 0 nodes values' ≤ rounds_left 0 nodes values + allowed
    pub untouched : (j : ℕ) → from ≤ j → values' j ≡ values j

  -- Node `i`, on top of the stack, gets its value, and nothing above it gets one.
  pub record Settles (i v : ℕ) (rest : Stack) (values : Values) : Type 0 where
    pub values' : Values
    pub leads : Leads 1 ((i, false) ∷ rest) values rest values'
    pub found : values' i ≡ some v
    pub untouched : (j : ℕ) → suc i ≤ j → values' j ≡ values j

  pub data Settled (i : ℕ) (rest : Stack) (values : Values) : Type 0 where
    settled : (v : ℕ) → value_of i ≡ ok v → Settles i v rest values → Settled i rest values
    failed :
        (e : SequentialError)
        → value_of i ≡ err e
        → Fails 1 (suc i) ((i, false) ∷ rest) values e
        → Settled i rest values

  pub record SettlesAll (i : ℕ) (args : List ℕ) (stack rest : Stack) (values : Values)
      : Type 0 where
    pub values' : Values
    pub leads : Leads (length args) stack values rest values'
    pub found : All (λ a. (v : ℕ) × (values' a ≡ some v)) args
    pub untouched : (j : ℕ) → i ≤ j → values' j ≡ values j

  pub data SettledAll (i : ℕ) (args : List ℕ) (stack rest : Stack) (values : Values) : Type 0 where
    settled_all :
        (a : List Operand)
        → collect value_of nodes args ≡ ok a
        → SettlesAll i args stack rest values
        → SettledAll i args stack rest values
    failed_one :
        (e : SequentialError)
        → collect value_of nodes args ≡ err e
        → Fails (length args) i stack values e
        → SettledAll i args stack rest values

  pub Leads-refl :
      (stack : Stack) (values : Values) → IsValid values → Leads 0 stack values stack values
  Leads-refl stack values h = record {
    used = 0;
    runs = λ fuel. ap (λ (k : ℕ). run k nodes env stack values) (omega arith);
    within = omega arith;
    valid = h;
    extends = λ j v e. e;
  }

  pub Leads-weaken :
      {a b : ℕ} {s t : Stack} {x y : Values} → a ≤ b → Leads a s x t y → Leads b s x t y
  Leads-weaken p h = record {
    used = h.used;
    runs = h.runs;
    within = omega (arith, h.within);
    valid = h.valid;
    extends = h.extends;
  }

  pub Fails-weaken :
      {a b k i : ℕ} {s : Stack} {x : Values} {e : SequentialError}
      → a ≤ b
      → k ≤ i
      → Fails a k s x e
      → Fails b i s x e
  Fails-weaken p q h = record {
    used = h.used;
    values' = h.values';
    fails = h.fails;
    within = omega (arith, h.within);
    untouched = λ j r. h.untouched j (omega arith);
  }

  pub Leads-trans :
      {a b : ℕ} {s t u : Stack} {x y z : Values}
      → Leads a s x t y
      → Leads b t y u z
      → Leads (a + b) s x u z
  Leads-trans {s} {x} h k = record {
    used = h.used + k.used;
    runs = λ fuel.
        ap (λ (n : ℕ). run n nodes env s x) (omega arith) ∙ h.runs (k.used + fuel) ∙ k.runs fuel;
    within = omega (arith, h.within, k.within);
    valid = k.valid;
    extends = λ j v e. k.extends j v (h.extends j v e);
  }

  pub Leads-Fails :
      {a b k : ℕ} {s t : Stack} {x y : Values} {e : SequentialError}
      → Leads a s x t y
      → Fails b k t y e
      → ((j : ℕ) → k ≤ j → y j ≡ x j)
      → Fails (a + b) k s x e
  Leads-Fails {s} {x} h k same = record {
    used = h.used + k.used;
    values' = k.values';
    fails = λ fuel.
        ap (λ (n : ℕ). run n nodes env s x) (omega arith) ∙ h.runs (k.used + fuel) ∙ k.fails fuel;
    within = omega (arith, h.within, k.within);
    untouched = λ j p. k.untouched j p ∙ same j p;
  }

  -- A node that has its value takes one round.
  pub Settled-old :
      (i v : ℕ) (rest : Stack) (values : Values)
      → IsValid values
      → values i ≡ some v
      → Settles i v rest values
  unfolding run step
  Settled-old i v rest values h e = record {
    values' = values;
    leads = record {
      used = 1;
      runs = λ fuel.
          ap (λ (n : ℕ). run n nodes env ((i, false) ∷ rest) values) (one_more fuel) ∙ rw e refl;
      within = omega arith;
      valid = h;
      extends = λ j w p. p;
    };
    found = e;
    untouched = λ j p. refl;
  }
