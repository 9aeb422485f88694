-- ===== src/Common/Results.antt =====
-- Python's exceptions: a call returns a value or raises an error of the module's own type.
use mathlib.Core.Path.{◌≡◌, refl}
use mathlib.Core.Bool.{Bool, true, false}
use mathlib.Core.Option.{Option, none, some}
use native.Mathlib.Omega.{arith}
use open_collate.Common.Tests.{if◌then◌else◌}

pub data Result {ℓ κ} (E : Type ℓ) (A : Type κ) : Type (ℓ ⊔ κ) where
  ok : A → Result E A
  err : E → Result E A

module _ {ℓ κ μ} {E : Type ℓ} {A : Type κ} {B : Type μ} where
  infixl 5 ◌>>=◌
  abbrev pub ◌>>=◌ : Result E A → (A → Result E B) → Result E B
  ok a >>= f = f a
  err e >>= f = err e

  -- A block that returned had its first step return, and then the rest.
  pub after-ok {ι} :
      {P : Type ι} (m : Result E A) {f : A → Result E B} {b : B}
      → (m >>= f) ≡ ok b
      → ((a : A) → m ≡ ok a → f a ≡ ok b → P)
      → P
  after-ok (ok a) h k = k a refl h
  after-ok (err e) h k = cc

  -- The same as a tuple: the value in between, and the two calls.
  pub >>=-eq-ok :
      (call : Result E A) (rest : A → Result E B) {value : B}
      → (call >>= rest) ≡ ok value
      → (a : A) × (call ≡ ok a) × (rest a ≡ ok value)
  >>=-eq-ok call rest h = after-ok call h λ a p q. (a, p, q)

module _ {ℓ κ} {E : Type ℓ} {A : Type κ} where
  -- A read that raises `e` where there is nothing to read.
  abbrev pub or_raise : E → Option A → Result E A
  or_raise e none = err e
  or_raise e (some a) = ok a

  -- A guard that raises was passed, where the block returns.
  pub guard-eq-ok :
      (b : Bool) (e : E) (m : Result E A) {a : A}
      → (if b then err e else m) ≡ ok a
      → (b ≡ false) × (m ≡ ok a)
  guard-eq-ok true e m h = cc
  guard-eq-ok false e m h = (refl, h)

  -- A test that must pass was passed.
  pub passed-eq-ok :
      (b : Bool) (e : E) (m : Result E A) {a : A}
      → (if b then m else err e) ≡ ok a
      → (b ≡ true) × (m ≡ ok a)
  passed-eq-ok true e m h = (refl, h)
  passed-eq-ok false e m h = cc

  -- A read that returns found something.
  pub or_raise-eq-ok : (e : E) (o : Option A) {a : A} → or_raise e o ≡ ok a → o ≡ some a
  or_raise-eq-ok e none h = cc
  or_raise-eq-ok e (some x) h = ground arith

  pub ok-injective : {a b : A} → ◌≡◌ {A = Result E A} (ok a) (ok b) → a ≡ b
  ok-injective h = cc

  -- A block with two branches returned by one of them.
  pub after-if {ι} :
      {P : Type ι} (b : Bool) {m n : Result E A} {a : A}
      → (if b then m else n) ≡ ok a
      → (b ≡ true → m ≡ ok a → P)
      → (b ≡ false → n ≡ ok a → P)
      → P
  after-if true h k l = k refl h
  after-if false h k l = l refl h

  abbrev pub is_ok : Result E A → Bool
  is_ok (ok a) = true
  is_ok (err e) = false

  -- What a call that returns has returned.
  pub returned_value : (m : Result E A) → is_ok m ≡ true → (a : A) × (m ≡ ok a)
  returned_value (ok a) h = (a, refl)
  returned_value (err e) h = cc
