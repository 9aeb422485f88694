-- ===== src/Lower/Parity.antt =====
-- The reduction by XOR, against Python's `bit_count() % 2`.
use mathlib.Core.Path.{subst}
use open_collate.Common.{
  ℕ, ℤ, zero, suc, ◌+◌, ◌*◌, ◌/◌, ◌%◌, ◌≤◌, ◌≡◌, refl, sym, ap, ◌∙◌, Bool, true, false, not, [],
  ◌∷◌, arith, ◌==◌, if◌then◌else◌, xor_bool,
}
use open_collate.Kernel.Meaning.{Assignment}
use open_collate.Cnf.State.{minus_one}
use open_collate.Cnf.Words.{Bits}
use open_collate.Cnf.Rules.{Means, Grows, Meets, Meets-pure, Meets-bind, Grows-pure, Grows-bind}
use open_collate.Cnf.SharedGates.{HasValue, Means-minus_one}
use open_collate.Cnf.GateLaws.{xor-Meets}
use open_collate.Cnf.Growth.{xor-Grows}
use open_collate.Cnf.BitLists.{Bools, bit, number}
use open_collate.Cnf.WordLaws.{MeansWord, nil, cons}
use open_collate.Ir.Values.{Operand, parity_from, parity}
use open_collate.Lower.Nodes.{Lowered, xor_from}
use open_collate.Lower.Correct.{Agree}

abbrev pub xor_list : Bools → Bool
xor_list [] = false
xor_list (b ∷ bs) = xor_bool b (xor_list bs)

parity_from-zero : (fuel : ℕ) → parity_from fuel 0 ≡ false
unfolding parity_from
parity_from-zero zero = refl
parity_from-zero (suc fuel) = refl

xor_if : (b c : Bool) → (if b then not c else c) ≡ xor_bool b c
xor_if b c = ground arith

parity_from-suc :
    (fuel n : ℕ) → parity_from (suc fuel) n ≡ xor_bool (n % 2 == 1) (parity_from fuel (n / 2))
unfolding parity_from
parity_from-suc fuel zero = sym (parity_from-zero fuel)
parity_from-suc fuel (suc n) = xor_if (suc n % 2 == 1) (parity_from fuel (suc n / 2))

half : (b : Bool) (n : ℕ) → (bit b + 2 * n) / 2 ≡ n
half b n = ground arith

lowest : (b : Bool) (n : ℕ) → ((bit b + 2 * n) % 2 == 1) ≡ b
lowest b n = ground arith

-- With a fuel that is not below the number, the parity of the digits is computed.
parity_from-number :
    (fuel : ℕ) (bs : Bools) → number bs ≤ fuel → parity_from fuel (number bs) ≡ xor_list bs
unfolding parity_from
parity_from-number fuel [] h = parity_from-zero fuel
parity_from-number zero (true ∷ bs) h = absurd (omega arith)
parity_from-number zero (false ∷ bs) h = parity_from-number zero bs (omega arith)
parity_from-number (suc fuel) (b ∷ bs) h =
    parity_from-suc fuel (number (b ∷ bs))
    ∙ rw (half b (number bs), lowest b (number bs))
        (ap (xor_bool b) (parity_from-number fuel bs (smaller b h)))
  where
    smaller : (c : Bool) → bit c + 2 * number bs ≤ suc fuel → number bs ≤ fuel
    smaller c p = omega arith

pub parity-number : (bs : Bools) → parity (number bs) ≡ xor_list bs
unfolding parity
parity-number bs = parity_from-number (number bs) bs (omega arith)

module _ (σ : Assignment) (t : σ 1 ≡ true) where
  pub xor_from-Grows : (r : ℤ) (ls : Bits) → Grows σ (xor_from r ls)
  unfolding xor_from
  xor_from-Grows r [] = Grows-pure σ r
  xor_from-Grows r (l ∷ ls) = Grows-bind σ _ _ (xor-Grows σ r l) λ v. xor_from-Grows v ls

  xor_assoc : (x y z : Bool) → xor_bool (xor_bool x y) z ≡ xor_bool x (xor_bool y z)
  xor_assoc x y z = ground arith

  xor_false : (x : Bool) → x ≡ xor_bool x false
  xor_false x = ground arith

  xor_from-Meets :
      (r : ℤ) (b : Bool) {bs : Bools} {ls : Bits}
      → Means σ r b
      → MeansWord σ bs ls
      → Meets σ (xor_from r ls) (HasValue σ (xor_bool b (xor_list bs)))
  unfolding xor_from
  xor_from-Meets r b hr nil = Meets-pure σ r (subst (Means σ r) (xor_false b) hr)
  xor_from-Meets r b hr (cons {b = c} {bs} {l} {ls} h hs) =
      Meets-bind σ _ _ (xor-Meets σ t r l hr h) (λ v. xor_from-Grows v ls)
        λ v hv.
          subst (λ (x : Bool). Meets σ (xor_from v ls) (HasValue σ x)) (xor_assoc b c (xor_list bs))
            (xor_from-Meets v (xor_bool b c) hv hs)

  -- Where it returns and `Meets` applies (the cached gates held and the clauses left are true) under
  -- an assignment with literal 1 true, the reduction by `xor` of an operand that agrees is the parity
  -- that `evaluate` computes of its value.
  pub parity-HasValue :
      {x : Operand} {l : Lowered}
      → Agree σ x l
      → Meets σ (xor_from minus_one l.bits) (HasValue σ (parity x.value))
  parity-HasValue {x} {l} ha =
      subst (λ (b : Bool). Meets σ (xor_from minus_one l.bits) (HasValue σ b))
        (no_carry (xor_list ha.bools) ∙ sym (parity-number ha.bools) ∙ ap parity (sym ha.value))
        (xor_from-Meets minus_one false (Means-minus_one σ t) ha.word)
    where
      no_carry : (b : Bool) → xor_bool false b ≡ b
      no_carry b = refl
