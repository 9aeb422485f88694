-- ===== src/Ir/Evaluate/Reference.antt =====
-- The value of a node by recursion on the graph, which `evaluate` of
-- src/opencollate/sequential_ir.py computes with a stack.
use mathlib.Core.Path.{subst}
use mathlib.Core.Option.{some-injective}
use open_collate.Common.{
  ℕ, zero, suc, ◌+◌, ◌≡◌, ◌<◌, refl, some, List, [], ◌∷◌, Result, err, ◌>>=◌, or_raise, get_elem?,
  arith, All, Option-cases, inl, inr,
}
use open_collate.Ir.Circuit.{Node, SequentialError, lookup_error, out_of_fuel}
use open_collate.Ir.Values.{Env, node_value}
use open_collate.Ir.Evaluate.{collect}
use open_collate.Ir.Builder.Interning.{IsOrdered}

-- By recursion on a bound for the index.
unfoldable pub reference : ℕ → List Node → Env → ℕ → Result SequentialError ℕ
unfolding collect
reference zero nodes env i = err out_of_fuel
reference (suc bound) nodes env i = do
  n ← or_raise lookup_error (get_elem? nodes i)
  a ← collect (reference bound nodes env) nodes n.args
  node_value n a env

pub collect-ext :
    (f g : ℕ → Result SequentialError ℕ) (nodes : List Node) (args : List ℕ)
    → All (λ a. f a ≡ g a) args
    → collect f nodes args ≡ collect g nodes args
unfolding collect
collect-ext f g nodes [] h = refl
collect-ext f g nodes (a ∷ args) (h, hs) = rw (h, collect-ext f g nodes args hs) refl

pub All-map {ℓ κ} :
    {A : Type ℓ} {P Q : A → Type κ} → ((a : A) → P a → Q a) → (xs : List A) → All P xs → All Q xs
All-map f [] h = tt
All-map f (x ∷ xs) (h, hs) = (f x h, All-map f xs hs)

pub IsOrdered-read :
    (k : ℕ) (nodes : List Node) (i : ℕ) {n : Node}
    → IsOrdered k nodes
    → get_elem? nodes i ≡ some n
    → All (λ a. a < k + i) n.args
IsOrdered-read k [] i h e = cc
IsOrdered-read k (m ∷ nodes) zero h e =
    subst (λ (x : Node). All (λ a. a < k + 0) x.args) (some-injective _ _ e)
      (All-map (λ a low. omega arith) m.args h.0.0)
IsOrdered-read k (m ∷ nodes) (suc i) h e =
    All-map (λ a low. omega arith) _ (IsOrdered-read (suc k) nodes i h.1 e)

-- Any bound above the index gives the same value.
pub reference-stable :
    (nodes : List Node) (env : Env)
    → IsOrdered 0 nodes
    → (f g i : ℕ) → i < f
    → i < g
    → reference f nodes env i ≡ reference g nodes env i
unfolding reference
reference-stable nodes env h zero g i p q = absurd (omega arith)
reference-stable nodes env h (suc f) zero i p q = absurd (omega arith)
reference-stable nodes env h (suc f) (suc g) i p q = elim (Option-cases (get_elem? nodes i)) [
  | inl e ↦ rw e refl
  | inr (n, e) ↦
      rw
        (
          e,
          collect-ext (reference f nodes env) (reference g nodes env) nodes n.args (
              All-map (λ a below. reference-stable nodes env h f g a (omega arith) (omega arith))
                n.args (IsOrdered-read 0 nodes i h e)),
        )
        refl
]
