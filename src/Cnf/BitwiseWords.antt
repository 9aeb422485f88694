-- ===== src/Cnf/BitwiseWords.antt =====
-- Bit by bit, words compute Python's `&`, `|` and `^` of the numbers that they stand for.
use Prim.Native.Nat.{min, max, differ, bit_and, bit_or, bit_xor}
use open_collate.Common.{
  ℕ, ◌+◌, ◌*◌, ◌/◌, ◌%◌, ◌≡◌, refl, sym, ◌∙◌, Bool, ◌&&◌, ◌||◌, [], ◌∷◌, length, xor_bool, arith,
}
use open_collate.Common.Bitwise.{bit_and-lowest, bit_or-lowest, bit_xor-lowest}
use open_collate.Cnf.BitLists.{Bools, bit, number, zip_bools}

number-half : (b : Bool) (n : ℕ) → (bit b + 2 * n) / 2 ≡ n
number-half b n = ground arith

number-lowest : (b : Bool) (n : ℕ) → (bit b + 2 * n) % 2 ≡ bit b
number-lowest b n = ground arith

module _ (f : ℕ → ℕ → ℕ) (digit : ℕ → ℕ → ℕ) (g : Bool → Bool → Bool) (empty : f 0 0 ≡ 0)
    (lowest : (a b : ℕ) → f a b ≡ f (a / 2) (b / 2) * 2 + digit (a % 2) (b % 2))
    (agree : (b c : Bool) → digit (bit b) (bit c) ≡ bit (g b c)) where
  number-zip_bools :
      (bs cs : Bools)
      → length bs ≡ length cs
      → number (zip_bools g bs cs) ≡ f (number bs) (number cs)
  number-zip_bools [] [] e = sym empty
  number-zip_bools [] (c ∷ cs) e = absurd (omega arith)
  number-zip_bools (b ∷ bs) [] e = absurd (omega arith)
  number-zip_bools (b ∷ bs) (c ∷ cs) e =
      let m = bit b + 2 * number bs in
      let n = bit c + 2 * number cs in
      let ih = number-zip_bools bs cs (omega arith) in
      sym (
        lowest m n
        ∙ rw
            (
              number-half b (number bs),
              number-half c (number cs),
              number-lowest b (number bs),
              number-lowest c (number cs),
            )
            (omega (arith, ih, agree b c)))

pub number-and :
    (bs cs : Bools)
    → length bs ≡ length cs
    → number (zip_bools ◌&&◌ bs cs) ≡ bit_and (number bs) (number cs)
number-and = number-zip_bools bit_and min ◌&&◌ refl bit_and-lowest (λ b c. ground arith)

pub number-or :
    (bs cs : Bools)
    → length bs ≡ length cs
    → number (zip_bools ◌||◌ bs cs) ≡ bit_or (number bs) (number cs)
number-or = number-zip_bools bit_or max ◌||◌ refl bit_or-lowest (λ b c. ground arith)

pub number-xor :
    (bs cs : Bools)
    → length bs ≡ length cs
    → number (zip_bools xor_bool bs cs) ≡ bit_xor (number bs) (number cs)
number-xor = number-zip_bools bit_xor differ xor_bool refl bit_xor-lowest (λ b c. ground arith)
