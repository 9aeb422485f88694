-- ===== src/Lower/Concatenation.antt =====
-- Words put together: the concatenation of operands.
use Prim.Native.Nat.{bit_or, max}
use native.Mathlib.Nat.{pow-suc}
use open_collate.Common.{
  ℕ, zero, suc, pos, ◌+◌, ◌*◌, ◌/◌, ◌%◌, ◌^◌, ◌≤◌, ◌≡◌, refl, sym, ap, ◌∙◌, Bool, List, [], ◌∷◌,
  ◌++◌, ok, length, length-append, arith,
}
use open_collate.Common.Bitwise.{bit_or-lowest}
use open_collate.Kernel.Meaning.{Assignment}
use open_collate.Cnf.State.{pure}
use open_collate.Cnf.Words.{Bits}
use open_collate.Cnf.Rules.{Meets, Meets-pure}
use open_collate.Cnf.BitLists.{Bools, bit, number}
use open_collate.Cnf.WordLaws.{MeansWord, nil, cons}
use open_collate.Ir.Values.{Operand, concat_values}
use open_collate.Lower.Nodes.{Lowered, concat_bits}
use open_collate.Lower.Correct.{AgreeAll, none_left, one_more, HasNumber, Computes, Computes-number}

pub number-append : (bs cs : Bools) → number (bs ++ cs) ≡ number bs + 2 ^ length bs * number cs
number-append [] cs = omega arith
number-append (b ∷ bs) cs = omega (arith, number-append bs cs, double (length bs) (number cs))
  where
    double : (n m : ℕ) → 2 ^ suc n * m ≡ 2 * (2 ^ n * m)
    double n m = rw (pow-suc 2 n) (omega arith)

pub MeansWord-append :
    {σ : Assignment} {bs cs : Bools} {ls ks : Bits}
    → MeansWord σ bs ls
    → MeansWord σ cs ks
    → MeansWord σ (bs ++ cs) (ls ++ ks)
MeansWord-append nil h = h
MeansWord-append (cons h hs) h' = cons h (MeansWord-append hs h')

bit_or-zero : (fuel v : ℕ) → v ≤ fuel → bit_or v 0 ≡ v
bit_or-zero fuel zero h = refl
bit_or-zero zero (suc v) h = absurd (omega arith)
bit_or-zero (suc fuel) (suc v) h =
    bit_or-lowest (suc v) 0
    ∙ ap (λ (i : ℕ). i * 2 + max (suc v % 2) 0) (bit_or-zero fuel (suc v / 2) (omega arith))
    ∙ omega arith

pub power_add : (m n : ℕ) → 2 ^ (m + n) ≡ 2 ^ m * 2 ^ n
power_add zero n = let e : 0 + n ≡ n = omega arith in rw e (omega arith)
power_add (suc m) n =
    let e : suc m + n ≡ suc (m + n) = omega arith in
    rw (e, pow-suc 2 (m + n), power_add m n, pow-suc 2 m) (grind arith)

-- The number of a word fills the places that a shift has cleared.
bit_or-number :
    (v : ℕ) (bs : Bools) → bit_or (v * 2 ^ length bs) (number bs) ≡ v * 2 ^ length bs + number bs
bit_or-number v [] =
    ap (λ (i : ℕ). bit_or i 0) (omega arith) ∙ bit_or-zero v v (omega arith) ∙ omega arith
bit_or-number v (b ∷ bs) =
    let n = v * 2 ^ length bs in
    let m = bit b + 2 * number bs in
    ap (λ (i : ℕ). bit_or i m) (doubled (length bs))
    ∙ bit_or-lowest (2 * n) m
    ∙ ap (λ (i : ℕ). bit_or i (m / 2) * 2 + max (2 * n % 2) (m % 2)) (omega arith)
    ∙ ap (λ (i : ℕ). bit_or n i * 2 + max (2 * n % 2) (m % 2)) (half b (number bs))
    ∙ ap (λ (i : ℕ). i * 2 + max (2 * n % 2) (m % 2)) (bit_or-number v bs)
    ∙ lowest b n (number bs)
    ∙ ap (λ (i : ℕ). i + m) (sym (doubled (length bs)))
  where
    doubled : (k : ℕ) → v * 2 ^ suc k ≡ 2 * (v * 2 ^ k)
    doubled k = rw (pow-suc 2 k) (omega arith)

    half : (c : Bool) (i : ℕ) → (bit c + 2 * i) / 2 ≡ i
    half c i = ground arith

    lowest :
        (c : Bool) (i j : ℕ)
        → (i + j) * 2 + max (2 * i % 2) ((bit c + 2 * j) % 2) ≡ 2 * i + (bit c + 2 * j)
    lowest c i j = ground arith

abbrev concat_bools :
    {σ : Assignment} {xs : List Operand} {ls : List Lowered} → AgreeAll σ xs ls → Bools
concat_bools none_left = []
concat_bools (one_more h hs) = concat_bools hs ++ h.bools

concat_values-number :
    {σ : Assignment} {xs : List Operand} {ls : List Lowered} (v : ℕ) (h : AgreeAll σ xs ls)
    → concat_values v xs ≡ number (concat_bools h) + 2 ^ length (concat_bools h) * v
unfolding concat_values
concat_values-number v none_left = omega arith
concat_values-number v (one_more {x} {xs} h hs) =
    let cs = concat_bools hs in
    let bs = h.bools in
    let step : bit_or (v * 2 ^ x.width) x.value ≡ v * 2 ^ length bs + number bs =
      rw (h.width, h.value) (bit_or-number v bs) in
    ap (λ (i : ℕ). concat_values i xs) step
    ∙ concat_values-number (v * 2 ^ length bs + number bs) hs
    ∙ regroup (number cs) (2 ^ length cs) v (2 ^ length bs) (number bs)
    ∙ ap (λ (i : ℕ). number cs + 2 ^ length cs * number bs + i * v)
        (sym (power_add (length cs) (length bs)))
    ∙ ap (λ (i : ℕ). number cs + 2 ^ length cs * number bs + 2 ^ i * v) (sym (length-append cs bs))
    ∙ ap (λ (i : ℕ). i + 2 ^ length (cs ++ bs) * v) (sym (number-append cs bs))
  where
    regroup : (a p u q b : ℕ) → a + p * (u * q + b) ≡ a + p * b + p * q * u
    regroup a p u q b = grind arith

-- The width of operands side by side.
abbrev pub total_width : List Operand → ℕ
total_width [] = 0
total_width (x ∷ xs) = x.width + total_width xs

length-concat_bools :
    {σ : Assignment} {xs : List Operand} {ls : List Lowered} (h : AgreeAll σ xs ls)
    → length (concat_bools h) ≡ total_width xs
length-concat_bools none_left = refl
length-concat_bools (one_more h hs) =
    length-append (concat_bools hs) h.bools ∙ omega (arith, length-concat_bools hs, h.width)

module _ (σ : Assignment) where
  concat_bits-MeansWord :
      {xs : List Operand} {ls : List Lowered} (h : AgreeAll σ xs ls)
      → MeansWord σ (concat_bools h) (concat_bits ls)
  unfolding concat_bits
  concat_bits-MeansWord none_left = nil
  concat_bits-MeansWord (one_more h hs) = MeansWord-append (concat_bits-MeansWord hs) h.word

  -- For operands that agree, their bits put together, the last operand lowest, are as many as the
  -- operands' widths together, and they stand for just the number that `evaluate` puts together by
  -- shifts and `|`.
  pub concat_bits-HasNumber :
      {xs : List Operand} {ls : List Lowered}
      → AgreeAll σ xs ls
      → HasNumber σ (total_width xs) (concat_values 0 xs) (concat_bits ls)
  concat_bits-HasNumber {xs} {ls} h = record {
    bools = concat_bools h;
    word = concat_bits-MeansWord h;
    fits = length-concat_bools h;
    value = sym (concat_values-number 0 h ∙ omega arith);
  }

  pub concat-Computes :
      {xs : List Operand} {ls : List Lowered}
      → AgreeAll σ xs ls
      → Meets σ (pure (concat_bits ls)) (Computes σ (ok (pos (concat_values 0 xs))))
  concat-Computes {xs} {ls} h =
      let n = concat_bits-HasNumber h in
      Meets-pure σ (concat_bits ls) (Computes-number n.bools n.word refl (sym n.value))
