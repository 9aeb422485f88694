-- ===== src/Common/Bitwise.antt =====
-- One equation for the lowest binary digit of `bit_and`, `bit_or` and `bit_xor`, whose definitions
-- recur on fuel.
use Prim.Native.Nat.{
  ℕ, zero, suc, ◌+◌, ◌*◌, ◌/◌, ◌%◌, ◌≤◌, min, max, differ, digits, bitwise, bit_and, bit_or,
  bit_xor, bit_and-bitwise, bit_or-bitwise, bit_xor-bitwise,
}
use mathlib.Core.Path.{◌≡◌, refl}
use native.Mathlib.Omega.{arith}

module _ (last : ℕ → ℕ) (digit : ℕ → ℕ → ℕ) where
  enough : (f g a b : ℕ) → a ≤ f → a ≤ g → digits last digit f a b ≡ digits last digit g a b
  enough zero zero a b p q = refl
  enough (suc f) zero zero b p q = refl
  enough zero (suc g) zero b p q = refl
  enough (suc f) (suc g) zero b p q = refl
  enough zero g (suc a) b p q = absurd (omega arith)
  enough (suc f) zero (suc a) b p q = absurd (omega arith)
  enough (suc f) (suc g) (suc a) b p q =
      rw (enough f g (suc a / 2) (b / 2) (omega arith) (omega arith))

  lowest :
      (a b : ℕ)
      → bitwise last digit (suc a) b
        ≡ bitwise last digit (suc a / 2) (b / 2) * 2 + digit (suc a % 2) (b % 2)
  lowest a b = omega (arith, enough a (suc a / 2) (suc a / 2) (b / 2) (omega arith) (omega arith))

pub bit_and-lowest : (a b : ℕ) → bit_and a b ≡ bit_and (a / 2) (b / 2) * 2 + min (a % 2) (b % 2)
bit_and-lowest zero b = simp bit_and-bitwise (omega arith)
bit_and-lowest (suc a) b = simp bit_and-bitwise (lowest (λ y. 0) min a b)

pub bit_or-lowest : (a b : ℕ) → bit_or a b ≡ bit_or (a / 2) (b / 2) * 2 + max (a % 2) (b % 2)
bit_or-lowest zero b = simp bit_or-bitwise (omega arith)
bit_or-lowest (suc a) b = simp bit_or-bitwise (lowest (λ y. y) max a b)

pub bit_xor-lowest : (a b : ℕ) → bit_xor a b ≡ bit_xor (a / 2) (b / 2) * 2 + differ (a % 2) (b % 2)
bit_xor-lowest zero b = simp bit_xor-bitwise (omega arith)
bit_xor-lowest (suc a) b = simp bit_xor-bitwise (lowest (λ y. y) differ a b)
