-- ===== src/Cnf/State.antt =====
-- The state of `CNF` (src/opencollate/sequential_cnf.py), and the actions on it that may raise.
use open_collate.Common.{ℕ, ℤ, pos, negsuc, List, [], ◌∷◌, Result, ok, err}
use open_collate.Kernel.Meter.{ProofError, Meter}
use open_collate.Kernel.Clause.{Clause}

-- The tag of a cache key.
pub data Kind : Type 0 where
  and_gate xor_gate : Kind

-- One entry of `cache`: the key `(kind, lo, hi)` and its variable.
pub record Entry : Type 0 where
  pub kind : Kind
  pub lo : ℤ
  pub hi : ℤ
  pub gate : ℤ

pub record Cnf : Type 0 where
  pub meter : Meter
  pub variables : ℕ
  pub clauses : List Clause
  pub literals : ℕ
  pub cache : List Entry

-- `CNF.__init__`
abbrev pub new_cnf : Meter → Cnf
new_cnf m = record {
  meter = m;
  variables = 1;
  clauses = (pos 1 ∷ []) ∷ [];
  literals = 1;
  cache = [];
}

-- The literal of a variable.
abbrev pub one : ℤ
one = pos 1

abbrev pub minus_one : ℤ
minus_one = negsuc 0

-- A method of `CNF`: what it returns, and the object as it leaves it.
abbrev pub M {ℓ} : Type ℓ → Type ℓ
M A = Cnf → Result ProofError (A × Cnf)

module _ {ℓ} {A : Type ℓ} where
  unfoldable pub pure : A → M A
  pure a q = ok (a, q)

  unfoldable pub raise : ProofError → M A
  raise e q = err e

module _ {ℓ κ} {A : Type ℓ} {B : Type κ} where
  abbrev pub continue : Result ProofError (A × Cnf) → (A → M B) → Result ProofError (B × Cnf)
  continue (ok (a, q)) f = f a q
  continue (err e) f = err e

  infixl 5 ◌>>=◌ ◌>>◌
  -- opening this opens `pure` and `raise` too
  unfoldable pub ◌>>=◌ : M A → (A → M B) → M B
  unfolding pure raise
  ◌>>=◌ m f q = continue (m q) f

  abbrev pub ◌>>◌ : M A → M B → M B
  m >> n = m >>= λ _. n
