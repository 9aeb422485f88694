-- ===== src/Lower/Shifts.antt =====
-- The barrel shifters.
use Prim.Native.Nat.{min}
use native.Mathlib.Nat.{
  pow-suc, min-le_right, one-le-pow, mod-eq_of_lt, div-eq_of_lt, mod-add-div, add-mul-mod_self_left,
  mul-mod_left, mul-lt-mul_of_pos_left, mod-lt, pow-le-pow_right,
}
use open_collate.Common.{
  ℕ, zero, suc, ◌+◌, ◌-◌, ◌*◌, ◌/◌, ◌%◌, ◌^◌, ◌<◌, ◌≤◌, ◌≡◌, refl, sym, ap, ◌∙◌, Bool, true, false,
  [], ◌∷◌, ◌++◌, length, length-append, take, drop, arith, leb, if◌then◌else◌, Bool-cases, inl, inr,
}
use open_collate.Cnf.BitLists.{Bools, bit, number, number-lt, map_not}
use open_collate.Lower.Words.{length-map_not}
use open_collate.Lower.Selection.{number-take, number-drop}
use open_collate.Lower.Concatenation.{number-append, power_add}
use open_collate.Lower.Extension.{
  copies, map_not-append, map_not-copies, number-copies-false, length-copies,
}

-- The word that one round of a shift chooses, where its bit is set.
abbrev pub shifted_bools : Bool → ℕ → Bool → Bools → Bools
shifted_bools true d f vs = copies d false ++ take (length vs - d) vs
shifted_bools false d f vs = drop d vs ++ copies d f

length-take : (k : ℕ) (vs : Bools) → k ≤ length vs → length (take k vs) ≡ k
length-take zero vs h = refl
length-take (suc k) [] h = absurd (omega arith)
length-take (suc k) (v ∷ vs) h = ap suc (length-take k vs (omega arith))

length-drop : (k : ℕ) (vs : Bools) → k ≤ length vs → length (drop k vs) + k ≡ length vs
length-drop zero vs h = omega arith
length-drop (suc k) [] h = absurd (omega arith)
length-drop (suc k) (v ∷ vs) h = omega (arith, length-drop k vs (omega arith))

pub length-shifted_bools :
    (left : Bool) (d : ℕ) (f : Bool) (vs : Bools)
    → d ≤ length vs
    → length (shifted_bools left d f vs) ≡ length vs
length-shifted_bools true d f vs h =
    length-append (copies d false) (take (length vs - d) vs)
    ∙ rw (length-copies d false, length-take (length vs - d) vs (omega arith)) (omega arith)
length-shifted_bools false d f vs h =
    length-append (drop d vs) (copies d f) ∙ rw (length-copies d f) (length-drop d vs h)

zero_add : (n : ℕ) → 0 + n ≡ n
zero_add n = omega arith

scaled : (d k n : ℕ) → 2 ^ d * (n % 2 ^ k) ≡ n * 2 ^ d % 2 ^ (d + k)
scaled d k n = sym (
    ap (λ (i : ℕ). i % 2 ^ (d + k)) parts
    ∙ add-mul-mod_self_left (2 ^ d * (n % 2 ^ k)) (2 ^ (d + k)) (n / 2 ^ k)
    ∙ mod-eq_of_lt below)
  where
    regroup : (p q r e : ℕ) → (r + q * e) * p ≡ p * r + p * q * e
    regroup p q r e = grind arith

    parts : n * 2 ^ d ≡ 2 ^ d * (n % 2 ^ k) + 2 ^ (d + k) * (n / 2 ^ k)
    parts =
        ap (λ (i : ℕ). i * 2 ^ d) (sym (mod-add-div n (2 ^ k)))
        ∙ regroup (2 ^ d) (2 ^ k) (n % 2 ^ k) (n / 2 ^ k)
        ∙ ap (λ (i : ℕ). 2 ^ d * (n % 2 ^ k) + i * (n / 2 ^ k)) (sym (power_add d k))

    below : 2 ^ d * (n % 2 ^ k) < 2 ^ (d + k)
    below = rw (power_add d k) (
        mul-lt-mul_of_pos_left (mod-lt n (one-le-pow k 2 (omega arith)))
          (one-le-pow d 2 (omega arith)))

-- One round to the left multiplies by a power of 2, modulo the width.
number-shifted_left :
    (d : ℕ) (vs : Bools)
    → d ≤ length vs
    → number (shifted_bools true d false vs) ≡ number vs * 2 ^ d % 2 ^ length vs
number-shifted_left d vs h =
    let k = length vs - d in
    number-append (copies d false) (take k vs)
    ∙ rw
        (
          number-copies-false d,
          length-copies d false,
          number-take k vs,
          length-take k vs (omega arith),
        )
        (zero_add (2 ^ d * (number vs % 2 ^ k))
          ∙ scaled d k (number vs)
          ∙ ap (λ (i : ℕ). number vs * 2 ^ d % 2 ^ i) (omega arith))

-- One round to the right divides by a power of 2.
number-shifted_right :
    (d : ℕ) (vs : Bools) → number (shifted_bools false d false vs) ≡ number vs / 2 ^ d
number-shifted_right d vs =
    number-append (drop d vs) (copies d false)
    ∙ rw (number-copies-false d, number-drop d vs) (omega arith)

-- A distance of at least the width shifts everything out.
lt-pow : (n : ℕ) → n < 2 ^ n
lt-pow zero = omega arith
lt-pow (suc n) = omega (arith, pow-suc 2 n, lt-pow n)

pub multiple-mod : (w k n : ℕ) → n * 2 ^ (w + k) % 2 ^ w ≡ 0
multiple-mod w k n =
    ap (λ (i : ℕ). i % 2 ^ w) (ap (λ (i : ℕ). n * i) (power_add w k) ∙ regroup (2 ^ w) (2 ^ k))
    ∙ mul-mod_left (n * 2 ^ k) (2 ^ w)
  where
    regroup : (p q : ℕ) → n * (p * q) ≡ n * q * p
    regroup p q = grind arith

pub lt-wider : {w d : ℕ} (n : ℕ) → n < 2 ^ w → w ≤ d → n < 2 ^ d
lt-wider {w} {d} n h p = omega (arith, pow-le-pow_right {n = 2} (omega arith) p)

-- A distance cut to the width shifts as far as the distance itself.
left-min : (n d w : ℕ) → n * 2 ^ min d w % 2 ^ w ≡ n * 2 ^ d % 2 ^ w
left-min n d w = elim (Bool-cases (leb d w)) [
  | inl h ↦ let e : min d w ≡ d = ground arith in ap (λ (i : ℕ). n * 2 ^ i % 2 ^ w) e
  | inr h ↦
      let e : min d w ≡ w = ground arith in
      let over : w + (d - w) ≡ d = ground arith in
      ap (λ (i : ℕ). n * 2 ^ i % 2 ^ w) e
      ∙ mul-mod_left n (2 ^ w)
      ∙ sym (multiple-mod w (d - w) n)
      ∙ ap (λ (i : ℕ). n * 2 ^ i % 2 ^ w) over
]

right-min : (n d w : ℕ) → n < 2 ^ w → n / 2 ^ min d w ≡ n / 2 ^ d
right-min n d w small = elim (Bool-cases (leb d w)) [
  | inl h ↦ let e : min d w ≡ d = ground arith in ap (λ (i : ℕ). n / 2 ^ i) e
  | inr h ↦
      let e : min d w ≡ w = ground arith in
      let wider : w ≤ d = ground arith in
      ap (λ (i : ℕ). n / 2 ^ i) e ∙ div-eq_of_lt small ∙ sym (div-eq_of_lt (lt-wider n small wider))
]

-- A word, complemented where the fill is true.
abbrev pub flipped : Bool → Bools → Bools
flipped true vs = map_not vs
flipped false vs = vs

pub length-flipped : (f : Bool) (vs : Bools) → length (flipped f vs) ≡ length vs
length-flipped true vs = length-map_not vs
length-flipped false vs = refl

map_not-drop : (d : ℕ) (vs : Bools) → map_not (drop d vs) ≡ drop d (map_not vs)
map_not-drop zero vs = refl
map_not-drop (suc d) [] = refl
map_not-drop (suc d) (v ∷ vs) = map_not-drop d vs

flipped-shifted_bools :
    (d : ℕ) (f : Bool) (vs : Bools)
    → flipped f (shifted_bools false d f vs) ≡ shifted_bools false d false (flipped f vs)
flipped-shifted_bools d false vs = refl
flipped-shifted_bools d true vs =
    map_not-append (drop d vs) (copies d true) ∙ rw (map_not-drop d vs, map_not-copies d) refl

-- The number after a round, whether its bit is set or not.
pub round_left :
    (b : Bool) (j : ℕ) (vs : Bools)
    → number (if b then shifted_bools true (min (2 ^ j) (length vs)) false vs else vs)
      ≡ number vs * 2 ^ (bit b * 2 ^ j) % 2 ^ length vs
round_left true j vs =
    number-shifted_left (min (2 ^ j) (length vs)) vs (min-le_right (2 ^ j) (length vs))
    ∙ left-min (number vs) (2 ^ j) (length vs)
    ∙ ap (λ (i : ℕ). number vs * 2 ^ i % 2 ^ length vs) (once (2 ^ j))
  where
    once : (n : ℕ) → n ≡ 1 * n
    once n = omega arith
round_left false j vs =
    sym (mod-eq_of_lt (number-lt vs))
    ∙ ap (λ (i : ℕ). i % 2 ^ length vs) (still (2 ^ j) (number vs))
  where
    still : (n m : ℕ) → m ≡ m * 2 ^ (0 * n)
    still n m = let e : 0 * n ≡ 0 = omega arith in rw e (omega arith)

pub round_right :
    (b : Bool) (j : ℕ) (f : Bool) (vs : Bools)
    → number (flipped f (if b then shifted_bools false (min (2 ^ j) (length vs)) f vs else vs))
      ≡ number (flipped f vs) / 2 ^ (bit b * 2 ^ j)
round_right true j f vs =
    ap number (flipped-shifted_bools (min (2 ^ j) (length vs)) f vs)
    ∙ number-shifted_right (min (2 ^ j) (length vs)) (flipped f vs)
    ∙ right-min (number (flipped f vs)) (2 ^ j) (length vs)
        (rw (sym (length-flipped f vs)) (number-lt (flipped f vs)))
    ∙ ap (λ (i : ℕ). number (flipped f vs) / 2 ^ i) (once (2 ^ j))
  where
    once : (n : ℕ) → n ≡ 1 * n
    once n = omega arith
round_right false j f vs = still (2 ^ j) (number (flipped f vs))
  where
    still : (n m : ℕ) → m ≡ m / 2 ^ (0 * n)
    still n m = let e : 0 * n ≡ 0 = omega arith in rw e (omega arith)
