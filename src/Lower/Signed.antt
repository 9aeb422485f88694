-- ===== src/Lower/Signed.antt =====
-- Two's complement: `signed_value` (src/opencollate/sequential_ir.py) against the flipped top bits of
-- `CNF.less` (src/opencollate/sequential_cnf.py).
use mathlib.Core.Path.{subst}
use native.Mathlib.Nat.{div-eq_of_lt, add-div_right, pow-suc, one-le-pow}
use open_collate.Common.{
  ℕ, ℤ, suc, pos, negsuc, ◌+◌, ◌-◌, ◌*◌, ◌/◌, ◌%◌, ◌^◌, ◌<◌, ◌≤◌, ◌≡◌, refl, sym, ap, ◌∙◌, Bool,
  true, false, not, [], ◌∷◌, length, arith, leb, ◌==◌, if◌then◌else◌, eqz, lez,
}
use open_collate.Kernel.Meaning.{Assignment}
use open_collate.Cnf.Words.{Bits, flip_top}
use open_collate.Cnf.SharedGates.{Means-neg}
use open_collate.Cnf.BitLists.{Bools, bit, number}
use open_collate.Cnf.WordLaws.{MeansWord, nil, cons}
use open_collate.Ir.Values.{sub_ℕ, test_bit, signed_value}

-- A word with its top bit negated.
abbrev pub flip_bools : Bools → Bools
flip_bools [] = []
flip_bools (x ∷ []) = not x ∷ []
flip_bools (x ∷ y ∷ ys) = x ∷ flip_bools (y ∷ ys)

pub length-flip_bools : (bs : Bools) → length (flip_bools bs) ≡ length bs
length-flip_bools [] = refl
length-flip_bools (x ∷ []) = refl
length-flip_bools (x ∷ y ∷ ys) = ap suc (length-flip_bools (y ∷ ys))

pub MeansWord-flip_top :
    {σ : Assignment} {bs : Bools} {ls : Bits}
    → MeansWord σ bs ls
    → MeansWord σ (flip_bools bs) (flip_top ls)
unfolding flip_top
MeansWord-flip_top nil = nil
MeansWord-flip_top (cons h nil) = cons (Means-neg h) nil
MeansWord-flip_top (cons h (cons h' hs)) = cons h (MeansWord-flip_top (cons h' hs))

abbrev pub top_of : Bool → Bools → Bool
top_of b [] = b
top_of b (c ∷ bs) = top_of c bs

-- A word as its top bit and the number of the bits below.
pub record Split (bs : Bools) (half : ℕ) (top : Bool) : Type 0 where
  pub low : ℕ
  pub small : low < half
  pub whole : number bs ≡ low + bit top * half
  pub flipped : number (flip_bools bs) ≡ low + bit (not top) * half

bit-double : (t : Bool) (n : ℕ) → bit t * 2 ^ suc n ≡ 2 * (bit t * 2 ^ n)
bit-double true n = omega (arith, pow-suc 2 n)
bit-double false n = omega arith

pub split : (b : Bool) (bs : Bools) → Split (b ∷ bs) (2 ^ length bs) (top_of b bs)
split b [] = record { low = 0; small = omega arith; whole = ground arith; flipped = ground arith }
split b (c ∷ bs) =
    let s = split c bs in
    let half = pow-suc 2 (length bs) in
    record {
      low = bit b + 2 * s.low;
      small = omega (arith, s.small, half, bit-le b);
      whole = omega (arith, s.whole, bit-double (top_of c bs) (length bs));
      flipped = omega (arith, s.flipped, bit-double (not (top_of c bs)) (length bs));
    }
  where
    bit-le : (a : Bool) → bit a ≤ 1
    bit-le a = ground arith

test_bit-top :
    (half low : ℕ) (t : Bool) → 0 < half → low < half → ((low + bit t * half) / half % 2 == 1) ≡ t
test_bit-top half low true p h =
    ap (λ (n : ℕ). n % 2 == 1)
      (ap (λ (n : ℕ). n / half) (omega arith)
        ∙ add-div_right low p
        ∙ ap (λ (n : ℕ). n + 1) (div-eq_of_lt h))
test_bit-top half low false p h =
    ap (λ (n : ℕ). n % 2 == 1) (ap (λ (n : ℕ). n / half) (omega arith) ∙ div-eq_of_lt h)

-- The signed value of a word, by its top bit.
abbrev pub signed_number : Bool → ℕ → ℕ → ℤ
signed_number true low half = negsuc (half - low - 1)
signed_number false low half = pos low

top_place : (n : ℕ) → suc n - 1 ≡ n
top_place n = omega arith

-- `signed_value` at the place of its top bit.
abbrev signed_value_at : ℕ → ℕ → ℕ → ℤ
signed_value_at value width place =
    if test_bit value place then sub_ℕ value (2 ^ width) else pos value

signed_value-of :
    (n low : ℕ) (t : Bool)
    → low < 2 ^ n
    → signed_value (low + bit t * 2 ^ n) (suc n) ≡ signed_number t low (2 ^ n)
unfolding signed_value
signed_value-of n low t h =
    ap (λ (k : ℕ). signed_value_at (low + bit t * 2 ^ n) (suc n) k) (top_place n)
    ∙ ap
        (λ (b : Bool).
          if b then sub_ℕ (low + bit t * 2 ^ n) (2 ^ suc n) else pos (low + bit t * 2 ^ n))
        (test_bit-top (2 ^ n) low t (one-le-pow n 2 (omega arith)) h)
    ∙ by_top t
  where
    by_top :
        (u : Bool)
        → (if u then sub_ℕ (low + bit u * 2 ^ n) (2 ^ suc n) else pos (low + bit u * 2 ^ n))
          ≡ signed_number u low (2 ^ n)
    by_top true = ground (arith, pow-suc 2 n)
    by_top false = ground arith

pub signed_value-split :
    (b : Bool) (bs : Bools)
    → signed_value (number (b ∷ bs)) (suc (length bs))
      ≡ signed_number (top_of b bs) (split b bs).low (2 ^ length bs)
signed_value-split b bs =
    let s = split b bs in
    ap (λ (n : ℕ). signed_value n (suc (length bs))) s.whole
    ∙ signed_value-of (length bs) s.low (top_of b bs) s.small

eqz-split :
    (half : ℕ) (t u : Bool) (m n : ℕ)
    → m < half
    → n < half
    → eqz (signed_number t m half) (signed_number u n half) ≡ (m + bit t * half == n + bit u * half)
eqz-split half t u m n hm hn = ground arith

lez-split :
    (half : ℕ) (t u : Bool) (m n : ℕ)
    → m < half
    → n < half
    → lez (signed_number t m half) (signed_number u n half)
      ≡ leb (m + bit (not t) * half) (n + bit (not u) * half)
lez-split half t u m n hm hn = ground arith

pub signed_value-zero : signed_value 0 0 ≡ pos 0
unfolding signed_value
signed_value-zero = refl

-- The signed values of two words of one width are compared bit by bit, ...
pub eqz-signed :
    (bs cs : Bools)
    → length bs ≡ length cs
    → eqz (signed_value (number bs) (length bs)) (signed_value (number cs) (length cs))
      ≡ (number bs == number cs)
unfolding signed_value
eqz-signed [] [] e = refl
eqz-signed [] (c ∷ cs) e = absurd (omega arith)
eqz-signed (b ∷ bs) [] e = absurd (omega arith)
eqz-signed (b ∷ bs) (c ∷ cs) e =
    let s = split b bs in
    let t = split c cs in
    let same : 2 ^ length cs ≡ 2 ^ length bs = ap (λ (n : ℕ). 2 ^ n) (omega (arith, e)) in
    let second : number (c ∷ cs) ≡ t.low + bit (top_of c cs) * 2 ^ length bs =
      subst (λ (h : ℕ). number (c ∷ cs) ≡ t.low + bit (top_of c cs) * h) same t.whole in
    rw (signed_value-split b bs, signed_value-split c cs, same)
      (eqz-split (2 ^ length bs) (top_of b bs) (top_of c cs) s.low t.low s.small
          (subst (λ (h : ℕ). t.low < h) same t.small)
        ∙ ap (λ (n : ℕ). s.low + bit (top_of b bs) * 2 ^ length bs == n) (sym second)
        ∙ ap (λ (n : ℕ). n == number (c ∷ cs)) (sym s.whole))

-- ... in their order with the top bits flipped.
pub lez-signed :
    (bs cs : Bools)
    → length bs ≡ length cs
    → lez (signed_value (number bs) (length bs)) (signed_value (number cs) (length cs))
      ≡ leb (number (flip_bools bs)) (number (flip_bools cs))
unfolding signed_value
lez-signed [] [] e = refl
lez-signed [] (c ∷ cs) e = absurd (omega arith)
lez-signed (b ∷ bs) [] e = absurd (omega arith)
lez-signed (b ∷ bs) (c ∷ cs) e =
    let s = split b bs in
    let t = split c cs in
    let same : 2 ^ length cs ≡ 2 ^ length bs = ap (λ (n : ℕ). 2 ^ n) (omega (arith, e)) in
    let second : number (flip_bools (c ∷ cs)) ≡ t.low + bit (not (top_of c cs)) * 2 ^ length bs =
      subst (λ (h : ℕ). number (flip_bools (c ∷ cs)) ≡ t.low + bit (not (top_of c cs)) * h) same
        t.flipped in
    rw (signed_value-split b bs, signed_value-split c cs, same)
      (lez-split (2 ^ length bs) (top_of b bs) (top_of c cs) s.low t.low s.small
          (subst (λ (h : ℕ). t.low < h) same t.small)
        ∙ ap (λ (n : ℕ). leb (s.low + bit (not (top_of b bs)) * 2 ^ length bs) (n)) (sym second)
        ∙ ap (λ (n : ℕ). leb (n) (number (flip_bools (c ∷ cs)))) (sym s.flipped))
