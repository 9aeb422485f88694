-- ===== src/Cnf/Rules.antt =====
-- What an action on a `CNF` (src/opencollate/sequential_cnf.py) means under an assignment of the
-- variables: rules for each way to build an action.
use mathlib.Core.Path.{subst}
use open_collate.Common.{
  ℤ, ◌≡◌, refl, sym, Bool, true, false, ◌&&◌, All, Result, ok, err, ok-injective, if◌then◌else◌,
  xor_bool,
}
use open_collate.Kernel.Meter.{ProofError}
use open_collate.Kernel.Meaning.{Assignment, lit_true, clause_true}
use open_collate.Kernel.Nonzero.{IsNonzero}
use open_collate.Cnf.State.{Kind, and_gate, xor_gate, Cnf, M, pure, raise, continue, ◌>>=◌}

-- Every clause is true.
abbrev pub Models : Assignment → Cnf → Type 0
Models σ q = All (λ c. clause_true σ c ≡ true) q.clauses

abbrev pub gate_value : Kind → Bool → Bool → Bool
gate_value and_gate a b = a && b
gate_value xor_gate a b = xor_bool a b

-- A literal that stands for a truth value.
pub record Means (σ : Assignment) (l : ℤ) (b : Bool) : Type 0 where
  pub nonzero : IsNonzero l
  pub meaning : lit_true σ l ≡ b

-- Every cached gate has the value of its operands' gate.
abbrev pub CacheHolds : Assignment → Cnf → Type 0
CacheHolds σ q =
    All (λ e. Means σ e.gate (gate_value e.kind (lit_true σ e.lo) (lit_true σ e.hi))) q.cache

-- `m` takes no clause back.
pub record Grows {ℓ} (σ : Assignment) {A : Type ℓ} (m : M A) : Type ℓ where
  pub back : (q : Cnf) (r : A × Cnf) → m q ≡ ok r → Models σ r.1 → Models σ q

-- Where `m` returns and the clauses that it leaves are true, its result has `P`.
pub record Meets {ℓ κ} (σ : Assignment) {A : Type ℓ} (m : M A) (P : A → Type κ) : Type (ℓ ⊔ κ) where
  pub grows : Grows σ m
  pub at :
      (q : Cnf) (r : A × Cnf)
      → m q ≡ ok r
      → CacheHolds σ q
      → Models σ r.1
      → CacheHolds σ r.1 × P r.0

module _ {ℓ} (σ : Assignment) {A : Type ℓ} where
  pub Grows-pure : (a : A) → Grows σ (pure a)
  unfolding pure
  Grows-pure a = record {
    back = λ q r e h. subst (λ (x : A × Cnf). Models σ x.1) (sym (ok-injective e)) h;
  }

  pub Grows-raise : (e : ProofError) → Grows σ (raise {A = A} e)
  unfolding raise
  Grows-raise e = record { back = λ q r e h. cc }

  pub Grows-if : (b : Bool) (m n : M A) → Grows σ m → Grows σ n → Grows σ (if b then m else n)
  Grows-if true m n gm gn = gm
  Grows-if false m n gm gn = gn

-- A block that returns had its first action return.
pub after-continue {ℓ κ ι} :
    {A : Type ℓ} {B : Type κ} {P : Type ι} (x : Result ProofError (A × Cnf)) (f : A → M B)
    {r : B × Cnf}
    → continue x f ≡ ok r
    → ((a : A) (q : Cnf) → x ≡ ok (a, q) → f a q ≡ ok r → P)
    → P
after-continue (ok (a, q)) f e k = k a q refl e
after-continue (err e') f e k = cc

module _ {ℓ κ} (σ : Assignment) {A : Type ℓ} {B : Type κ} where
  pub Grows-bind :
      (m : M A) (f : A → M B) → Grows σ m → ((a : A) → Grows σ (f a)) → Grows σ (m >>= f)
  unfolding ◌>>=◌
  Grows-bind m f gm gf = record {
    back = λ q r e h.
        after-continue (m q) f e λ a q' p e'. gm.back q (a, q') p ((gf a).back q' r e' h);
  }

  pub Meets-bind {ι μ} :
      {P : A → Type ι} {Q : B → Type μ} (m : M A) (f : A → M B)
      → Meets σ m P
      → ((a : A) → Grows σ (f a))
      → ((a : A) → P a → Meets σ (f a) Q)
      → Meets σ (m >>= f) Q
  unfolding ◌>>=◌
  Meets-bind m f mm gf mf = record {
    grows = Grows-bind m f mm.grows gf;
    at = λ q r e c h. after-continue (m q) f e λ a q' p e'.
        let (c', pa) = mm.at q (a, q') p c ((gf a).back q' r e' h) in (mf a pa).at q' r e' c' h;
  }

module _ {ℓ κ} (σ : Assignment) {A : Type ℓ} {P : A → Type κ} where
  pub Meets-pure : (a : A) → P a → Meets σ (pure a) P
  unfolding pure
  Meets-pure a pa = record {
    grows = Grows-pure σ a;
    at = λ q r e c h. subst (λ (x : A × Cnf). CacheHolds σ x.1 × P x.0) (ok-injective e) (c, pa);
  }

  pub Meets-raise : (e : ProofError) → Meets σ (raise e) P
  unfolding raise
  Meets-raise e = record { grows = Grows-raise σ e; at = λ q r e c h. cc }

  pub Meets-if :
      (b : Bool) (m n : M A)
      → (b ≡ true → Meets σ m P)
      → (b ≡ false → Meets σ n P)
      → Meets σ (if b then m else n) P
  Meets-if true m n f g = f refl
  Meets-if false m n f g = g refl

  pub Meets-weaken {ι} :
      {Q : A → Type ι} (m : M A) → Meets σ m P → ((a : A) → P a → Q a) → Meets σ m Q
  Meets-weaken m mm f = record {
    grows = mm.grows;
    at = λ q r e c h. let (c', p) = mm.at q r e c h in (c', f r.0 p);
  }

pub ruleset grow_rules = (Grows-pure, Grows-raise, Grows-if, Grows-bind)
