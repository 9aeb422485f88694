-- ===== src/Lower/Shifters.antt =====
-- The barrel shifters, against `<<` and `>>` of integers.
use Prim.Native.Nat.{min}
use mathlib.Core.Path.{subst}
use native.Mathlib.Nat.{
  min-le_right, mod-eq_of_lt, mod-add-div, add-mul-mod_self_left, div-div-eq-div-mul,
}
use open_collate.Common.{
  ℕ, ℤ, ◌+◌, ◌-◌, ◌*◌, ◌/◌, ◌%◌, ◌^◌, ◌≡◌, refl, sym, ap, ◌∙◌, Bool, true, false, [], ◌∷◌, length,
  arith, if◌then◌else◌,
}
use open_collate.Kernel.Meaning.{Assignment}
use open_collate.Cnf.Words.{Bits, zip_with}
use open_collate.Cnf.Words as Words
use open_collate.Cnf.Rules.{
  Means, Grows, Meets, Grows-pure, Grows-bind, Meets-pure, Meets-bind, Meets-weaken,
}
use open_collate.Cnf.SharedGates.{Means-minus_one}
use open_collate.Cnf.Growth.{mux-Grows, zip_with-Grows}
use open_collate.Cnf.BitLists.{Bools, bit, number, number-lt}
use open_collate.Cnf.WordLaws.{MeansWord, nil, cons, MeansWord-length, mux-Meets, zip_with-Meets}
use open_collate.Lower.Nodes.{mux_bits, shift_rounds, shifted}
use open_collate.Lower.Correct.{HasNumber}
use open_collate.Lower.Shifts.{
  shifted_bools, flipped, length-shifted_bools, round_left, round_right,
}
use open_collate.Lower.Selection.{select, MeansWord-take, MeansWord-drop}
use open_collate.Lower.Concatenation.{MeansWord-append, power_add}
use open_collate.Lower.Extension.{MeansWord-copies}

mod-mul : (a b m : ℕ) → a % m * b % m ≡ a * b % m
mod-mul a b m =
    sym (add-mul-mod_self_left (a % m * b) m (a / m * b))
    ∙ ap (λ (i : ℕ). i % m) (regroup (a % m) (a / m) ∙ ap (λ (i : ℕ). i * b) (mod-add-div a m))
  where
    regroup : (r d : ℕ) → r * b + m * (d * b) ≡ (r + m * d) * b
    regroup r d = grind arith

next_place : (b m p : ℕ) → b * p + m * (p * 2) ≡ (b + 2 * m) * p
next_place b m p = grind arith

-- The distance that a bit and the bits above it stand for.
distance-power : (b j m : ℕ) → 2 ^ (b * 2 ^ j) * 2 ^ (m * 2 ^ (j + 1)) ≡ 2 ^ ((b + 2 * m) * 2 ^ j)
distance-power b j m =
    sym (power_add (b * 2 ^ j) (m * 2 ^ (j + 1)))
    ∙ ap (λ (i : ℕ). 2 ^ i) (rw (power_add j 1) (next_place b m (2 ^ j)))

module _ (σ : Assignment) (t : σ 1 ≡ true) where
  pub shift_rounds-Grows :
      (left : Bool) (j : ℕ) (fill : ℤ) (bs v : Bits) → Grows σ (shift_rounds left j fill bs v)
  unfolding shift_rounds mux_bits
  shift_rounds-Grows left j fill [] v = Grows-pure σ v
  shift_rounds-Grows left j fill (b ∷ bs) v =
      Grows-bind σ _ _
        (zip_with-Grows σ (Words.mux b) (shifted left (min (2 ^ j) (length v)) fill v) v
          (mux-Grows σ b))
        λ v'. shift_rounds-Grows left (j + 1) fill bs v'

  MeansWord-shifted :
      (left : Bool) (d : ℕ) {f : Bool} {fill : ℤ} {vs : Bools} {v : Bits}
      → Means σ fill f
      → MeansWord σ vs v
      → MeansWord σ (shifted_bools left d f vs) (shifted left d fill v)
  MeansWord-shifted true d {vs} {v} hf hv =
      MeansWord-append (MeansWord-copies d (Means-minus_one σ t))
        (rw (MeansWord-length hv) (MeansWord-take (length vs - d) hv))
  MeansWord-shifted false d hf hv = MeansWord-append (MeansWord-drop d hv) (MeansWord-copies d hf)

  -- One round of a shift chooses between the shifted word and the word.
  round-Meets :
      (left : Bool) (j : ℕ) {f b : Bool} {fill k : ℤ} {vs : Bools} {v : Bits}
      → Means σ fill f
      → Means σ k b
      → MeansWord σ vs v
      → Meets σ
          (mux_bits k (shifted left (min (2 ^ j) (length v)) fill v) v)
          (λ w. MeansWord σ (if b then shifted_bools left (min (2 ^ j) (length vs)) f vs else vs) w)
  unfolding mux_bits
  round-Meets left j {f} {b} {fill} {k} {vs} {v} hf hk hv =
      let d = min (2 ^ j) (length v) in
      let e : d ≡ min (2 ^ j) (length vs) = ap (min (2 ^ j)) (MeansWord-length hv) in
      Meets-weaken σ _
        (zip_with-Meets σ t (Words.mux k) (λ x y. if b then x else y)
          (λ i l x y. mux-Meets σ t k i l hk) (mux-Grows σ k) (MeansWord-shifted left d hf hv) hv)
        λ w (same, h).
          subst (λ (n : ℕ). MeansWord σ (if b then shifted_bools left n f vs else vs) w) e
            (subst (λ (bs : Bools). MeansWord σ bs w) (select b (shifted_bools left d f vs) vs same)
              h)

length-round :
    (left : Bool) (b : Bool) (j : ℕ) (f : Bool) (vs : Bools)
    → length (if b then shifted_bools left (min (2 ^ j) (length vs)) f vs else vs) ≡ length vs
length-round left true j f vs =
    length-shifted_bools left (min (2 ^ j) (length vs)) f vs (min-le_right (2 ^ j) (length vs))
length-round left false j f vs = refl

module _ (σ : Assignment) (t : σ 1 ≡ true) where
  pub shift_left-HasNumber :
      (j : ℕ) {fill : ℤ} {bs vs : Bools} {ks v : Bits}
      → Means σ fill false
      → MeansWord σ bs ks
      → MeansWord σ vs v
      → Meets σ
          (shift_rounds true j fill ks v)
          (HasNumber σ (length vs) (number vs * 2 ^ (number bs * 2 ^ j) % 2 ^ length vs))
  unfolding shift_rounds
  shift_left-HasNumber j {vs} {v} hf nil hv = Meets-pure σ v (record {
    bools = vs;
    word = hv;
    fits = refl;
    value = sym (
        ap (λ (i : ℕ). i % 2 ^ length vs) (still (2 ^ j) (number vs))
        ∙ mod-eq_of_lt (number-lt vs));
  })
    where
      still : (n m : ℕ) → m * 2 ^ (0 * n) ≡ m
      still n m = let e : 0 * n ≡ 0 = omega arith in rw e (omega arith)
  shift_left-HasNumber j {fill} {vs} {v} hf (cons {b} {bs} {l = k} {ls = ks} h hs) hv =
      Meets-bind σ _ _ (round-Meets σ t true j hf h hv)
        (λ v'. shift_rounds-Grows σ t true (j + 1) fill ks v')
        λ v' hv'. Meets-weaken σ _ (shift_left-HasNumber (j + 1) hf hs hv') λ w hw.
          let size = length-round true b j false vs in
          record {
            bools = hw.bools;
            word = hw.word;
            fits = hw.fits ∙ size;
            value =
                hw.value
                ∙ rw (size, round_left b j vs)
                    (mod-mul (number vs * 2 ^ (bit b * 2 ^ j)) (2 ^ (number bs * 2 ^ (j + 1)))
                        (2 ^ length vs)
                      ∙ ap (λ (i : ℕ). i % 2 ^ length vs)
                          (mul_assoc (number vs) (2 ^ (bit b * 2 ^ j))
                              (2 ^ (number bs * 2 ^ (j + 1)))
                            ∙ ap (λ (i : ℕ). number vs * i)
                                (distance-power (bit b) j (number bs))));
          }
    where
      mul_assoc : (x y z : ℕ) → x * y * z ≡ x * (y * z)
      mul_assoc x y z = grind arith

  -- What a right shift leaves, complemented where the fill is true.
  pub record ShiftedRight (f : Bool) (vs : Bools) (distance : ℕ) (w : Bits) : Type 0 where
    pub bools : Bools
    pub word : MeansWord σ bools w
    pub fits : length bools ≡ length vs
    pub value : number (flipped f bools) ≡ number (flipped f vs) / 2 ^ distance

  pub shift_right-ShiftedRight :
      (j : ℕ) {f : Bool} {fill : ℤ} {bs vs : Bools} {ks v : Bits}
      → Means σ fill f
      → MeansWord σ bs ks
      → MeansWord σ vs v
      → Meets σ (shift_rounds false j fill ks v) (ShiftedRight f vs (number bs * 2 ^ j))
  unfolding shift_rounds
  shift_right-ShiftedRight j {f} {vs} {v} hf nil hv =
      Meets-pure σ v (record {
        bools = vs;
        word = hv;
        fits = refl;
        value = still (2 ^ j) (number (flipped f vs));
      })
    where
      still : (n m : ℕ) → m ≡ m / 2 ^ (0 * n)
      still n m = let e : 0 * n ≡ 0 = omega arith in rw e (omega arith)
  shift_right-ShiftedRight j {f} {fill} {vs} {v} hf (cons {b} {bs} {l = k} {ls = ks} h hs) hv =
      Meets-bind σ _ _ (round-Meets σ t false j hf h hv)
        (λ v'. shift_rounds-Grows σ t false (j + 1) fill ks v')
        λ v' hv'. Meets-weaken σ _ (shift_right-ShiftedRight (j + 1) hf hs hv') λ w hw. record {
          bools = hw.bools;
          word = hw.word;
          fits = hw.fits ∙ length-round false b j f vs;
          value =
              hw.value
              ∙ ap (λ (i : ℕ). i / 2 ^ (number bs * 2 ^ (j + 1))) (round_right b j f vs)
              ∙ div-div-eq-div-mul (number (flipped f vs)) (2 ^ (bit b * 2 ^ j))
                  (2 ^ (number bs * 2 ^ (j + 1)))
              ∙ ap (λ (i : ℕ). number (flipped f vs) / i) (distance-power (bit b) j (number bs));
        }
