-- ===== src/Lower/Words.antt =====
-- The arithmetic and bitwise operators: the bits that `Unroller.lower` makes for them
-- (src/opencollate/sequential_cnf.py) stand for what `evaluate` computes
-- (src/opencollate/sequential_ir.py).
use Prim.Native.Nat.{bit_and, bit_or, bit_xor}
use mathlib.Core.Path.{subst}
use native.Mathlib.Nat.{one-le-pow, mod-eq_of_lt, add-mul-mod_self_left}
use open_collate.Common.{
  ℕ, ℤ, zero, suc, pos, negsuc, ◌+◌, ◌-◌, ◌/◌, ◌%◌, ◌^◌, ◌<◌, ◌≤◌, ◌≡◌, refl, sym, ap, ◌∙◌, Bool,
  true, false, ◌&&◌, ◌||◌, [], ◌∷◌, ok, length, arith, leb, if◌then◌else◌, Bool-cases, inl, inr,
  neg, xor_bool,
}
use open_collate.Kernel.Meaning.{Assignment}
use open_collate.Cnf.State.{pure, ◌>>=◌, minus_one, one}
use open_collate.Cnf.Gates.{and_, or_, xor}
use open_collate.Cnf.Words.{Bits, const, negate, add, zip_with}
use open_collate.Cnf.Rules.{Meets, Grows-pure, Meets-pure, Meets-bind, Meets-weaken}
use open_collate.Cnf.SharedGates.{Means-one, Means-minus_one}
use open_collate.Cnf.GateLaws.{and_-Meets, or_-Meets, xor-Meets}
use open_collate.Cnf.Growth.{and_-Grows, or_-Grows, xor-Grows}
use open_collate.Cnf.BitLists.{
  Bools, number, number-lt, bits_of, map_not, add_bits, zip_bools, number-add_bits, number-bits_of,
  number-map_not,
}
use open_collate.Cnf.BitwiseWords.{number-and, number-or, number-xor}
use open_collate.Cnf.WordLaws.{
  MeansWord, MeansWord-negate, add-Meets, zip_with-Meets, const-MeansWord,
}
use open_collate.Ir.Values.{Operand, mask, sub_ℕ, invert}
use open_collate.Lower.Nodes.{Lowered}
use open_collate.Lower.Correct.{Agree, Computes, Computes-number}

pub length-add_bits :
    (bs cs : Bools) (c : Bool) → length bs ≡ length cs → length (add_bits bs cs c) ≡ length bs
length-add_bits [] [] c e = refl
length-add_bits [] (y ∷ cs) c e = absurd (omega arith)
length-add_bits (x ∷ bs) [] c e = absurd (omega arith)
length-add_bits (x ∷ bs) (y ∷ cs) c e = ap suc (length-add_bits bs cs _ (omega arith))

pub length-map_not : (bs : Bools) → length (map_not bs) ≡ length bs
length-map_not [] = refl
length-map_not (b ∷ bs) = ap suc (length-map_not bs)

pub length-bits_of : (value width : ℕ) → length (bits_of value width) ≡ width
length-bits_of value zero = refl
length-bits_of value (suc width) = ap suc (length-bits_of (value / 2) width)

-- A sum, masked.
mask-sum :
    (bs cs : Bools)
    → length bs ≡ length cs
    → mask (length (add_bits bs cs false)) (pos (number bs + number cs))
      ≡ number (add_bits bs cs false)
unfolding mask
mask-sum bs cs e =
    ap (λ (k : ℕ). (number bs + number cs) % 2 ^ k) (length-add_bits bs cs false e)
    ∙ ap (λ (n : ℕ). n % 2 ^ length bs) (omega arith)
    ∙ sym (number-add_bits bs cs false e)

-- A difference of two numbers below a power of 2, masked, by the complement of the second.
mask-sub_ℕ :
    (w a b c : ℕ)
    → a < 2 ^ w
    → b < 2 ^ w
    → c + b + 1 ≡ 2 ^ w
    → mask w (sub_ℕ a b) ≡ (a + c + 1) % 2 ^ w
unfolding mask
mask-sub_ℕ w a b c ha hb hc = elim (Bool-cases (leb b a)) [
  | inl t ↦
      let enough : b ≤ a = ground arith in
      ap (λ (z : Bool). mask w (if z then pos (a - b) else negsuc (b - a - 1))) t
      ∙ sym (add-mul-mod_self_left (a - b) (2 ^ w) 1)
      ∙ ap (λ (n : ℕ). n % 2 ^ w) (omega arith)
  | inr f ↦
      let less : a < b = ground arith in
      ap (λ (z : Bool). mask w (if z then pos (a - b) else negsuc (b - a - 1))) f
      ∙ ap (λ (n : ℕ). 2 ^ w - 1 - n) (mod-eq_of_lt (omega arith))
      ∙ omega arith
      ∙ sym (mod-eq_of_lt (omega arith))
]

-- Adding the complement and one subtracts.
mask-difference :
    (bs cs : Bools)
    → length bs ≡ length cs
    → mask (length bs) (sub_ℕ (number bs) (number cs)) ≡ number (add_bits bs (map_not cs) true)
mask-difference bs cs e =
    mask-sub_ℕ (length bs) (number bs) (number cs) (number (map_not cs)) (number-lt bs)
      (subst (λ (k : ℕ). number cs < 2 ^ k) (sym e) (number-lt cs)) (rw e (number-map_not cs))
    ∙ sym (number-add_bits bs (map_not cs) true (e ∙ sym (length-map_not cs)))

module _ (σ : Assignment) (t : σ 1 ≡ true) where
  pub add-Computes :
      {x y : Operand} {l k : Lowered}
      → Agree σ x l
      → Agree σ y k
      → Meets σ (add l.bits k.bits minus_one) (Computes σ (ok (pos (x.value + y.value))))
  add-Computes {x} {y} {l} {k} ha hb =
      Meets-weaken σ _ (add-Meets σ t minus_one false (Means-minus_one σ t) ha.word hb.word)
        λ v (e, h). record {
          bools = add_bits ha.bools hb.bools false;
          word = h;
          integer = pos (x.value + y.value);
          returns = refl;
          masked = rw (ha.value, hb.value) (mask-sum ha.bools hb.bools e);
        }

  -- The bits of a difference, from words for its two sides.
  difference-Computes :
      {bs cs : Bools} {ls ks : Bits}
      → MeansWord σ bs ls
      → MeansWord σ cs ks
      → (n m : ℕ) → n ≡ number bs
      → m ≡ number cs
      → Meets σ (add ls (negate ks) one) (Computes σ (ok (sub_ℕ n m)))
  difference-Computes {bs} {cs} ha hb n m en em =
      Meets-weaken σ _ (add-Meets σ t one true (Means-one σ t) ha (MeansWord-negate hb)) λ v (e, h).
        let same = e ∙ length-map_not cs in
        record {
          bools = add_bits bs (map_not cs) true;
          word = h;
          integer = sub_ℕ n m;
          returns = refl;
          masked = rw (en, em, length-add_bits bs (map_not cs) true e) (mask-difference bs cs same);
        }

  -- Where it returns and `Meets` applies (the cached gates held and the clauses left are true) under
  -- an assignment with literal 1 true, adding the complement and a carry stands for the difference of
  -- operands that agree, an integer, masked to the bits returned.
  pub subtract-Computes :
      {x y : Operand} {l k : Lowered}
      → Agree σ x l
      → Agree σ y k
      → Meets σ (add l.bits (negate k.bits) one) (Computes σ (ok (sub_ℕ x.value y.value)))
  subtract-Computes {x} {y} {l} {k} ha hb =
      difference-Computes ha.word hb.word x.value y.value ha.value hb.value

  minus-integer : (n : ℕ) → sub_ℕ 0 n ≡ neg (pos n)
  minus-integer zero = refl
  minus-integer (suc n) = ground arith

  pub minus-Computes :
      {x : Operand} {l : Lowered} (width : ℕ)
      → Agree σ x l
      → Meets σ (add (const 0 width) (negate l.bits) one) (Computes σ (ok (neg (pos x.value))))
  minus-Computes {x} {l} width ha =
      subst (λ (i : ℤ). Meets σ (add (const 0 width) (negate l.bits) one) (Computes σ (ok i)))
        (minus-integer x.value)
        (difference-Computes (const-MeansWord σ t 0 width) ha.word 0 x.value
          (sym (number-zeros width)) ha.value)
    where
      number-zeros : (w : ℕ) → number (bits_of 0 w) ≡ 0
      number-zeros w = number-bits_of 0 w ∙ mod-eq_of_lt (one-le-pow w 2 (omega arith))

  pub and-Computes :
      {x y : Operand} {l k : Lowered}
      → Agree σ x l
      → Agree σ y k
      → Meets σ (zip_with and_ l.bits k.bits) (Computes σ (ok (pos (bit_and x.value y.value))))
  and-Computes {x} {y} {l} {k} ha hb =
      Meets-weaken σ _
        (zip_with-Meets σ t and_ ◌&&◌ (λ u v b c. and_-Meets σ t u v) (and_-Grows σ) ha.word
          hb.word)
        λ v (e, h).
          Computes-number (zip_bools ◌&&◌ ha.bools hb.bools) h refl
            (rw (ha.value, hb.value) (sym (number-and ha.bools hb.bools e)))

  pub or-Computes :
      {x y : Operand} {l k : Lowered}
      → Agree σ x l
      → Agree σ y k
      → Meets σ (zip_with or_ l.bits k.bits) (Computes σ (ok (pos (bit_or x.value y.value))))
  or-Computes {x} {y} {l} {k} ha hb =
      Meets-weaken σ _
        (zip_with-Meets σ t or_ ◌||◌ (λ u v b c. or_-Meets σ t u v) (or_-Grows σ) ha.word hb.word)
        λ v (e, h).
          Computes-number (zip_bools ◌||◌ ha.bools hb.bools) h refl
            (rw (ha.value, hb.value) (sym (number-or ha.bools hb.bools e)))

  pub xor-Computes :
      {x y : Operand} {l k : Lowered}
      → Agree σ x l
      → Agree σ y k
      → Meets σ (zip_with xor l.bits k.bits) (Computes σ (ok (pos (bit_xor x.value y.value))))
  xor-Computes {x} {y} {l} {k} ha hb =
      Meets-weaken σ _
        (zip_with-Meets σ t xor xor_bool (λ u v b c. xor-Meets σ t u v) (xor-Grows σ) ha.word
          hb.word)
        λ v (e, h).
          Computes-number (zip_bools xor_bool ha.bools hb.bools) h refl
            (rw (ha.value, hb.value) (sym (number-xor ha.bools hb.bools e)))

  pub plus-Computes :
      {x : Operand} {l : Lowered}
      → Agree σ x l
      → Meets σ (pure l.bits) (Computes σ (ok (pos x.value)))
  plus-Computes {x} {l} ha = Meets-pure σ l.bits (Computes-number ha.bools ha.word refl ha.value)

  -- The complement of a word is Python's `~`, masked.
  invert-Computes :
      {n : ℕ} {bs : Bools} {v : Bits}
      → MeansWord σ bs v
      → n ≡ number bs
      → Computes σ (ok (invert n)) (negate v)
  unfolding mask
  invert-Computes {n} {bs} h e = record {
    bools = map_not bs;
    word = MeansWord-negate h;
    integer = invert n;
    returns = refl;
    masked = rw (e, length-map_not bs) (complement bs);
  }
    where
      complement : (cs : Bools) → mask (length cs) (negsuc (number cs)) ≡ number (map_not cs)
      complement cs = omega (arith, number-map_not cs, mod-eq_of_lt (number-lt cs))

  pub not-Computes :
      {x : Operand} {l : Lowered}
      → Agree σ x l
      → Meets σ (pure (negate l.bits)) (Computes σ (ok (invert x.value)))
  not-Computes {x} {l} ha = Meets-pure σ (negate l.bits) (invert-Computes ha.word ha.value)

  pub xnor-Computes :
      {x y : Operand} {l k : Lowered}
      → Agree σ x l
      → Agree σ y k
      → Meets σ
          (zip_with xor l.bits k.bits >>= λ v. pure (negate v))
          (Computes σ (ok (invert (bit_xor x.value y.value))))
  xnor-Computes {x} {y} {l} {k} ha hb =
      Meets-bind σ _ _
        (zip_with-Meets σ t xor xor_bool (λ u v b c. xor-Meets σ t u v) (xor-Grows σ) ha.word
          hb.word)
        (λ v. Grows-pure σ (negate v))
        λ v (e, h).
          Meets-pure σ (negate v)
            (invert-Computes h (rw (ha.value, hb.value) (sym (number-xor ha.bools hb.bools e))))
