-- ===== src/Cnf/BitLists.antt =====
-- Words of truth values, the lowest bit first: what the circuits of src/opencollate/sequential_cnf.py
-- compute bit by bit, and the numbers that this stands for.
use native.Mathlib.Nat.{
  pow-suc, one-le-pow, mod-lt, mod-add-div, mod-eq_of_lt, add-mul-mod_self_left,
}
use open_collate.Common.{
  ℕ, zero, suc, ◌+◌, ◌*◌, ◌/◌, ◌%◌, ◌^◌, ◌<◌, ◌≡◌, refl, sym, ap, ◌∙◌, Bool, true, false, not, ◌&&◌,
  ◌||◌, List, [], ◌∷◌, ltb, ◌==◌, length, xor_bool, if◌then◌else◌, arith,
}

abbrev pub Bools : Type 0
Bools = List Bool

abbrev pub bit : Bool → ℕ
bit true = 1
bit false = 0

-- The number that a word stands for.
abbrev pub number : Bools → ℕ
number [] = 0
number (b ∷ bs) = bit b + 2 * number bs

abbrev pub bits_of : ℕ → ℕ → Bools
bits_of value zero = []
bits_of value (suc width) = (value % 2 == 1) ∷ bits_of (value / 2) width

abbrev pub map_not : Bools → Bools
map_not [] = []
map_not (b ∷ bs) = not b ∷ map_not bs

abbrev pub and_list : Bools → Bool
and_list [] = true
and_list (b ∷ bs) = b && and_list bs

abbrev pub or_list : Bools → Bool
or_list [] = false
or_list (b ∷ bs) = b || or_list bs

abbrev pub zip_bools : (Bool → Bool → Bool) → Bools → Bools → Bools
zip_bools f (b ∷ bs) (c ∷ cs) = f b c ∷ zip_bools f bs cs
zip_bools f _ _ = []

abbrev pub same_bits : Bools → Bools → Bool
same_bits (b ∷ bs) (c ∷ cs) = not (xor_bool b c) && same_bits bs cs
same_bits _ _ = true

-- The ripple-carry adder.
abbrev pub add_bits : Bools → Bools → Bool → Bools
add_bits (b ∷ bs) (c ∷ cs) carry =
    xor_bool (xor_bool b c) carry ∷ add_bits bs cs ((b && c) || (xor_bool b c && carry))
add_bits _ _ carry = []

-- The comparator, from the result for the lower bits.
abbrev pub less_bits : Bool → Bools → Bools → Bool
less_bits r (b ∷ bs) (c ∷ cs) = less_bits ((not b && c) || (not (xor_bool b c) && r)) bs cs
less_bits r _ _ = r

pub number-lt : (bs : Bools) → number bs < 2 ^ length bs
number-lt [] = omega arith
number-lt (true ∷ bs) = omega (arith, number-lt bs, pow-suc 2 (length bs))
number-lt (false ∷ bs) = omega (arith, number-lt bs, pow-suc 2 (length bs))

-- A digit before a number stands outside the remainder.
pub mod-double : (s k p : ℕ) → s < 2 → 0 < p → (s + 2 * k) % (2 * p) ≡ s + 2 * (k % p)
mod-double s k p small positive =
    ap (λ (n : ℕ). n % (2 * p)) (omega (arith, mod-add-div k p))
    ∙ add-mul-mod_self_left (s + 2 * (k % p)) (2 * p) (k / p)
    ∙ mod-eq_of_lt (omega (arith, mod-lt k positive))

pub mod-pow-suc : (s k w : ℕ) → s < 2 → (s + 2 * k) % 2 ^ suc w ≡ s + 2 * (k % 2 ^ w)
mod-pow-suc s k w small =
    ap (λ (n : ℕ). (s + 2 * k) % n) (omega (arith, pow-suc 2 w))
    ∙ mod-double s k (2 ^ w) small (one-le-pow w 2 (omega arith))

pub bit-lt : (b : Bool) → bit b < 2
bit-lt b = ground arith

full_adder :
    (b c carry : Bool)
    → bit b + bit c + bit carry
      ≡ bit (xor_bool (xor_bool b c) carry) + 2 * bit ((b && c) || (xor_bool b c && carry))
full_adder b c carry = ground arith

-- Adding words adds numbers, modulo the width.
pub number-add_bits :
    (bs cs : Bools) (carry : Bool)
    → length bs ≡ length cs
    → number (add_bits bs cs carry) ≡ (number bs + number cs + bit carry) % 2 ^ length bs
number-add_bits [] [] carry h = omega arith
number-add_bits [] (c ∷ cs) carry h = absurd (omega arith)
number-add_bits (b ∷ bs) [] carry h = absurd (omega arith)
number-add_bits (b ∷ bs) (c ∷ cs) carry h =
    let s = xor_bool (xor_bool b c) carry in
    let up = (b && c) || (xor_bool b c && carry) in
    let total = number bs + number cs + bit up in
    ap (λ (n : ℕ). bit s + 2 * n) (number-add_bits bs cs up (omega arith))
    ∙ sym (mod-pow-suc (bit s) total (length bs) (bit-lt s))
    ∙ ap (λ (n : ℕ). n % 2 ^ suc (length bs)) (omega (arith, full_adder b c carry))

-- The comparator compares numbers.
pub less_bits-number :
    (r : Bool) (bs cs : Bools)
    → length bs ≡ length cs
    → less_bits r bs cs ≡ (if number bs == number cs then r else ltb (number bs) (number cs))
less_bits-number r [] [] h = refl
less_bits-number r [] (c ∷ cs) h = absurd (omega arith)
less_bits-number r (b ∷ bs) [] h = absurd (omega arith)
less_bits-number r (b ∷ bs) (c ∷ cs) h =
    ground (arith, less_bits-number ((not b && c) || (not (xor_bool b c) && r)) bs cs (omega arith))

pub same_bits-number :
    (bs cs : Bools) → length bs ≡ length cs → same_bits bs cs ≡ (number bs == number cs)
same_bits-number [] [] h = refl
same_bits-number [] (c ∷ cs) h = absurd (omega arith)
same_bits-number (b ∷ bs) [] h = absurd (omega arith)
same_bits-number (b ∷ bs) (c ∷ cs) h = ground (arith, same_bits-number bs cs (omega arith))

pub number-bits_of : (value width : ℕ) → number (bits_of value width) ≡ value % 2 ^ width
number-bits_of value zero = omega arith
number-bits_of value (suc width) =
    ap (λ (n : ℕ). bit (value % 2 == 1) + 2 * n) (number-bits_of (value / 2) width)
    ∙ sym (mod-pow-suc (bit (value % 2 == 1)) (value / 2) width (bit-lt (value % 2 == 1)))
    ∙ ap (λ (n : ℕ). n % 2 ^ suc width) (ground arith)

pub number-map_not : (bs : Bools) → number (map_not bs) + number bs + 1 ≡ 2 ^ length bs
number-map_not [] = refl
number-map_not (true ∷ bs) = omega (arith, number-map_not bs, pow-suc 2 (length bs))
number-map_not (false ∷ bs) = omega (arith, number-map_not bs, pow-suc 2 (length bs))

pub or_list-number : (bs : Bools) → or_list bs ≡ not (number bs == 0)
or_list-number [] = refl
or_list-number (b ∷ bs) = ground (arith, or_list-number bs)

pub and_list-number : (bs : Bools) → and_list bs ≡ (number bs + 1 == 2 ^ length bs)
and_list-number [] = refl
and_list-number (b ∷ bs) = ground (arith, and_list-number bs, pow-suc 2 (length bs), number-lt bs)
