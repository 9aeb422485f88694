-- ===== src/Lower/Correct.antt =====
-- What it means that the bits of a node (`Unroller.lower`, src/opencollate/sequential_cnf.py) stand
-- for its value (`evaluate`, src/opencollate/sequential_ir.py).
use native.Mathlib.Nat.{mod-eq_of_lt}
use open_collate.Common.{
  ℕ, ℤ, zero, suc, pos, ◌-◌, ◌^◌, ◌<◌, ◌≡◌, refl, ap, ◌∙◌, Bool, true, false, List, [], ◌∷◌, Result,
  ok, length, replicate, arith,
}
use open_collate.Kernel.Meaning.{Assignment}
use open_collate.Cnf.State.{minus_one}
use open_collate.Cnf.Words.{Bits}
use open_collate.Cnf.Rules.{Means}
use open_collate.Cnf.SharedGates.{Means-minus_one}
use open_collate.Cnf.BitLists.{Bools, number, number-lt}
use open_collate.Cnf.WordLaws.{MeansWord, nil, cons}
use open_collate.Ir.Circuit.{SequentialError}
use open_collate.Ir.Values.{Operand, mask, int_of}
use open_collate.Lower.Nodes.{Lowered, boolean}

-- An operand of the interpreter and one of the bit blaster that agree.
pub record Agree (σ : Assignment) (x : Operand) (l : Lowered) : Type 0 where
  pub bools : Bools
  pub word : MeansWord σ bools l.bits
  pub width : x.width ≡ length bools
  pub value : x.value ≡ number bools
  pub signed : x.signed ≡ l.signed

pub data AgreeAll (σ : Assignment) : List Operand → List Lowered → Type 0 where
  none_left : AgreeAll σ [] []
  one_more :
      {x : Operand} {xs : List Operand} {l : Lowered} {ls : List Lowered}
      → Agree σ x l
      → AgreeAll σ xs ls
      → AgreeAll σ (x ∷ xs) (l ∷ ls)

-- Bits that stand for a computed integer, masked to the width of the bits.
pub record Computes (σ : Assignment) (r : Result SequentialError ℤ) (v : Bits) : Type 0 where
  pub bools : Bools
  pub word : MeansWord σ bools v
  pub integer : ℤ
  pub returns : r ≡ ok integer
  pub masked : mask (length bools) integer ≡ number bools

-- Bits of a given width that stand for a computed number.
pub record ComputesNumber (σ : Assignment) (width : ℕ) (r : Result SequentialError ℕ) (v : Bits)
    : Type 0 where
  pub bools : Bools
  pub word : MeansWord σ bools v
  pub fits : length bools ≡ width
  pub returns : r ≡ ok (number bools)

-- Bits of a given width that stand for a computed integer, masked to that width.
pub record ComputesWord (σ : Assignment) (width : ℕ) (r : Result SequentialError ℤ) (v : Bits)
    : Type 0 where
  pub bools : Bools
  pub word : MeansWord σ bools v
  pub fits : length bools ≡ width
  pub integer : ℤ
  pub returns : r ≡ ok integer
  pub masked : mask width integer ≡ number bools

pub ComputesWord-Computes :
    {σ : Assignment} {width : ℕ} {r : Result SequentialError ℤ} {v : Bits}
    → ComputesWord σ width r v
    → Computes σ r v
ComputesWord-Computes h = record {
  bools = h.bools;
  word = h.word;
  integer = h.integer;
  returns = h.returns;
  masked = rw h.fits h.masked;
}

-- Bits of a given width that stand for a number.
pub record HasNumber (σ : Assignment) (width n : ℕ) (v : Bits) : Type 0 where
  pub bools : Bools
  pub word : MeansWord σ bools v
  pub fits : length bools ≡ width
  pub value : number bools ≡ n

-- A number that a word stands for is not changed by the mask.
pub mask-number : (bs : Bools) → mask (length bs) (pos (number bs)) ≡ number bs
unfolding mask
mask-number bs = mod-eq_of_lt (number-lt bs)

pub mask-number_lt : (w n : ℕ) → n < 2 ^ w → mask w (pos n) ≡ n
unfolding mask
mask-number_lt w n h = mod-eq_of_lt h

pub Computes-number :
    {σ : Assignment} {n : ℕ} {r : Result SequentialError ℤ} (bs : Bools) {v : Bits}
    → MeansWord σ bs v
    → r ≡ ok (pos n)
    → n ≡ number bs
    → Computes σ r v
Computes-number {n = n} bs h e same = record {
  bools = bs;
  word = h;
  integer = pos n;
  returns = e;
  masked = rw same (mask-number bs);
}

replicate-false : ℕ → Bools
replicate-false zero = []
replicate-false (suc n) = false ∷ replicate-false n

number-replicate : (n : ℕ) → number (replicate-false n) ≡ 0
unfolding replicate-false
number-replicate zero = refl
number-replicate (suc n) = omega (arith, number-replicate n)

module _ (σ : Assignment) (t : σ 1 ≡ true) where
  MeansWord-replicate : (n : ℕ) → MeansWord σ (replicate-false n) (replicate n minus_one)
  unfolding replicate-false
  MeansWord-replicate zero = nil
  MeansWord-replicate (suc n) = cons (Means-minus_one σ t) (MeansWord-replicate n)

  -- `boolean(literal)` stands for `int(b)`.
  pub Computes-boolean :
      {r : Result SequentialError ℤ} (width : ℕ) (l : ℤ) {b : Bool}
      → Means σ l b
      → r ≡ ok (int_of b)
      → Computes σ r (boolean width l)
  unfolding boolean
  Computes-boolean width l {b} h e =
      let bs : Bools = b ∷ replicate-false (width - 1) in
      Computes-number bs (cons h (MeansWord-replicate (width - 1)))
        (e ∙ ap ok (int_of-number b (width - 1))) refl
    where
      int_of-number : (c : Bool) (n : ℕ) → int_of c ≡ pos (number (c ∷ replicate-false n))
      int_of-number true n = ap pos (omega (arith, number-replicate n))
      int_of-number false n = ap pos (omega (arith, number-replicate n))
