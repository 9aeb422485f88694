-- ===== src/Lower/Multiply.antt =====
-- The multiplier: shifted rows, added up.
use native.Mathlib.Nat.{zero-mod, mod-eq_of_lt, mod-add-mod, mod-add-div, add-mul-mod_self_left}
use open_collate.Common.{
  ℕ, ℤ, suc, pos, ◌+◌, ◌*◌, ◌/◌, ◌%◌, ◌^◌, ◌≡◌, refl, sym, ap, ◌∙◌, Bool, true, false, ◌&&◌, [],
  ◌∷◌, ◌++◌, ok, length, length-append, take, replicate, arith,
}
use open_collate.Kernel.Meaning.{Assignment}
use open_collate.Cnf.State.{minus_one}
use open_collate.Cnf.Words.{Bits, const}
use open_collate.Cnf.Rules.{
  Means, Grows, Meets, Grows-pure, Grows-bind, Meets-pure, Meets-bind, Meets-weaken,
}
use open_collate.Cnf.SharedGates.{Means-minus_one}
use open_collate.Cnf.GateLaws.{and_-Meets}
use open_collate.Cnf.Growth.{and_-Grows, add-Grows}
use open_collate.Cnf.BitLists.{
  Bools, bit, number, number-lt, add_bits, number-add_bits, bits_of, number-bits_of,
}
use open_collate.Cnf.WordLaws.{MeansWord, nil, cons, add-Meets, const-MeansWord}
use open_collate.Ir.Values.{Operand, mask}
use open_collate.Lower.Nodes.{Lowered, slice_end, and_each, multiply_rows}
use open_collate.Lower.Correct.{Agree, Computes, HasNumber}
use open_collate.Lower.Words.{length-add_bits}
use open_collate.Lower.Selection.{number-take, MeansWord-take}
use open_collate.Lower.Concatenation.{number-append, MeansWord-append, power_add}
use open_collate.Lower.Extension.{copies, MeansWord-copies, number-copies-false, length-copies}

abbrev and_bools : Bool → Bools → Bools
and_bools b [] = []
and_bools b (x ∷ xs) = (x && b) ∷ and_bools b xs

length-and_bools : (b : Bool) (xs : Bools) → length (and_bools b xs) ≡ length xs
length-and_bools b [] = refl
length-and_bools b (x ∷ xs) = ap suc (length-and_bools b xs)

number-and_bools : (b : Bool) (xs : Bools) → number (and_bools b xs) ≡ bit b * number xs
number-and_bools b [] = omega arith
number-and_bools true (x ∷ xs) = ground (arith, number-and_bools true xs)
number-and_bools false (x ∷ xs) = ground (arith, number-and_bools false xs)

-- A row of the multiplication, modulo the width: the places that were cut do not count.
cut_row :
    (s j k b n : ℕ)
    → (s + 2 ^ j * (b * (n % 2 ^ k))) % 2 ^ (j + k) ≡ (s + 2 ^ j * (b * n)) % 2 ^ (j + k)
cut_row s j k b n =
    sym (add-mul-mod_self_left (s + 2 ^ j * (b * (n % 2 ^ k))) (2 ^ (j + k)) (b * (n / 2 ^ k)))
    ∙ ap (λ (i : ℕ). i % 2 ^ (j + k))
        (rw (power_add j k) (
          regroup (2 ^ j) (2 ^ k) (n % 2 ^ k) (n / 2 ^ k)
          ∙ ap (λ (i : ℕ). s + 2 ^ j * (b * i)) (mod-add-div n (2 ^ k))))
  where
    regroup : (p q r d : ℕ) → s + p * (b * r) + p * q * (b * d) ≡ s + p * (b * (r + q * d))
    regroup p q r d = grind arith

add_zero : (n : ℕ) → n + 0 ≡ n
add_zero n = omega arith

-- A row from the lowest `size` places of the first operand.
abbrev row : ℕ → ℕ → Bool → Bools → Bools
row size j b xs = copies j false ++ and_bools b (take size xs)

-- Adding a row adds a multiple of the first operand.
number-add_row :
    (vs xs : Bools) (size j : ℕ) (b : Bool)
    → length vs ≡ length (row size j b xs)
    → number (add_bits vs (row size j b xs) false)
      ≡ (number vs + 2 ^ j * (bit b * number xs)) % 2 ^ length vs
number-add_row vs xs size j b e =
    let ys = take (size) xs in
    let whole : length vs ≡ j + length ys =
      e
      ∙ length-append (copies j false) (and_bools b ys)
      ∙ rw (length-copies j false, length-and_bools b ys) refl in
    let total : number (row size j b xs) ≡ 2 ^ j * (bit b * (number xs % 2 ^ length ys)) =
      number-append (copies j false) (and_bools b ys)
      ∙ rw
          (
            number-copies-false j,
            length-copies j false,
            number-and_bools b ys,
            number-take (size) xs,
          )
          (omega arith) in
    number-add_bits vs (row size j b xs) false e
    ∙ rw (total, whole)
        (ap (λ (i : ℕ). i % 2 ^ (j + length ys)) (add_zero _)
          ∙ cut_row (number vs) j (length ys) (bit b) (number xs))

module _ (σ : Assignment) (t : σ 1 ≡ true) where
  and_each-Grows : (b : ℤ) (ls : Bits) → Grows σ (and_each b ls)
  unfolding and_each
  and_each-Grows b [] = Grows-pure σ []
  and_each-Grows b (l ∷ ls) =
      Grows-bind σ _ _ (and_-Grows σ l b)
        λ v. Grows-bind σ _ _ (and_each-Grows b ls) λ vs. Grows-pure σ (v ∷ vs)

  and_each-Meets :
      (k : ℤ) (b : Bool) {xs : Bools} {ls : Bits}
      → Means σ k b
      → MeansWord σ xs ls
      → Meets σ (and_each k ls) (λ vs. MeansWord σ (and_bools b xs) vs)
  unfolding and_each
  and_each-Meets k b hk nil = Meets-pure σ [] nil
  and_each-Meets k b hk (cons {l} {ls} h hs) =
      Meets-bind σ _ _ (and_-Meets σ t l k h hk)
        (λ v. Grows-bind σ _ _ (and_each-Grows k ls) λ vs. Grows-pure σ (v ∷ vs))
        λ v hv.
          Meets-bind σ _ _ (and_each-Meets k b hk hs) (λ vs. Grows-pure σ (v ∷ vs))
            λ vs hvs. Meets-pure σ (v ∷ vs) (cons hv hvs)

  multiply_rows-Grows : (width j : ℕ) (a bs v : Bits) → Grows σ (multiply_rows width j a bs v)
  unfolding multiply_rows
  multiply_rows-Grows width j a [] v = Grows-pure σ v
  multiply_rows-Grows width j a (b ∷ bs) v =
      Grows-bind σ _ _ (and_each-Grows b (take (slice_end width j (length a)) a)) λ row.
        Grows-bind σ _ _ (add-Grows σ v (replicate j minus_one ++ row) minus_one)
          λ v'. multiply_rows-Grows width (j + 1) a bs v'

  multiply_rows-HasNumber :
      (width j : ℕ) {xs ys vs : Bools} {a bs v : Bits}
      → MeansWord σ xs a
      → MeansWord σ ys bs
      → MeansWord σ vs v
      → Meets σ
          (multiply_rows width j a bs v)
          (HasNumber σ (length vs) ((number vs + 2 ^ j * (number ys * number xs)) % 2 ^ length vs))
  unfolding multiply_rows
  multiply_rows-HasNumber width j {xs} {vs} {v} ha nil hv = Meets-pure σ v (record {
    bools = vs;
    word = hv;
    fits = refl;
    value = sym (ap (λ (i : ℕ). i % 2 ^ length vs) (omega arith) ∙ mod-eq_of_lt (number-lt vs));
  })
  multiply_rows-HasNumber width j {xs} {vs} {a} {v} ha (cons {b} {bs = ys} {l = k} {ls = bs} h hs)
        hv =
      Meets-bind σ _ _ (and_each-Meets k b h (MeansWord-take (slice_end width j (length a)) ha))
        (λ r.
          Grows-bind σ _ _ (add-Grows σ v (replicate j minus_one ++ r) minus_one)
            λ v'. multiply_rows-Grows width (j + 1) a bs v')
        λ r hr.
          Meets-bind σ _ _
            (add-Meets σ t minus_one false (Means-minus_one σ t) hv
              (MeansWord-append (MeansWord-copies j (Means-minus_one σ t)) hr))
            (λ v'. multiply_rows-Grows width (j + 1) a bs v')
            λ v' (e, hv').
              Meets-weaken σ _ (multiply_rows-HasNumber width (j + 1) ha hs hv') λ w hw.
                let places = slice_end width j (length a) in
                let size = length-add_bits vs (row places j b xs) false e in
                record {
                  bools = hw.bools;
                  word = hw.word;
                  fits = hw.fits ∙ size;
                  value =
                      hw.value
                      ∙ rw (size, number-add_row vs xs places j b e)
                          (mod-add-mod _ (2 ^ length vs) _
                            ∙ ap (λ (i : ℕ). i % 2 ^ length vs)
                                (next_row j (bit b) (number ys) (number vs) (number xs)));
                }
    where
      next_row :
          (j b m s n : ℕ)
          → s + 2 ^ j * (b * n) + 2 ^ (j + 1) * (m * n) ≡ s + 2 ^ j * ((b + 2 * m) * n)
      next_row j b m s n = rw (power_add j 1) (grind arith)

  -- Where they return and `Meets` applies (the cached gates held and the clauses left are true) under
  -- an assignment with literal 1 true, the rows of `Multiply` stand for the product of operands that
  -- agree, masked to the bits returned.
  pub multiply-Computes :
      {x y : Operand} {l k : Lowered} (width : ℕ)
      → Agree σ x l
      → Agree σ y k
      → Meets σ
          (multiply_rows width 0 l.bits k.bits (const 0 width))
          (Computes σ (ok (pos (x.value * y.value))))
  unfolding mask
  multiply-Computes {x} {y} {l} {k} width ha hb =
      Meets-weaken σ _
        (multiply_rows-HasNumber width 0 ha.word hb.word (const-MeansWord σ t 0 width))
        λ v h. record {
          bools = h.bools;
          word = h.word;
          integer = pos (x.value * y.value);
          returns = refl;
          masked =
              rw (h.fits, h.value, number-bits_of 0 width, zero-mod (2 ^ width), ha.value, hb.value)
                (ap (λ (i : ℕ). i % 2 ^ length (bits_of 0 width))
                  (swapped (number ha.bools) (number hb.bools)));
        }
    where
      swapped : (m n : ℕ) → m * n ≡ 0 + 1 * (n * m)
      swapped m n = grind arith
