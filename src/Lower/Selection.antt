-- ===== src/Lower/Selection.antt =====
-- The operators that select bits: constants, multiplexers, slices, concatenations and casts.
use mathlib.Core.Path.{subst}
use native.Mathlib.Nat.{zero-div, div-div-eq-div-mul, pow-suc}
use open_collate.Common.{
  ℕ, zero, suc, pos, ◌+◌, ◌*◌, ◌/◌, ◌%◌, ◌^◌, ◌≡◌, refl, sym, ap, ◌∙◌, Bool, true, false, [], ◌∷◌,
  ok, length, take, drop, arith, if◌then◌else◌,
}
use open_collate.Kernel.Meaning.{Assignment}
use open_collate.Cnf.State.{pure, ◌>>=◌}
use open_collate.Cnf.Words.{Bits, const, any_, zip_with}
use open_collate.Cnf.Words as Words
use open_collate.Cnf.Rules.{Meets, Meets-pure, Meets-bind, Meets-weaken}
use open_collate.Cnf.Growth.{mux-Grows, zip_with-Grows}
use open_collate.Cnf.BitLists.{
  Bools, bit, bit-lt, number, bits_of, zip_bools, number-bits_of, mod-pow-suc,
}
use open_collate.Cnf.WordLaws.{MeansWord, nil, cons, const-MeansWord, mux-Meets, zip_with-Meets}
use open_collate.Ir.Values.{Operand, mask, is_set}
use open_collate.Lower.Nodes.{Lowered, mux_bits}
use open_collate.Lower.Correct.{Agree, Computes, Computes-number}
use open_collate.Lower.Booleans.{any_-HasValue}

-- Words are sliced as their numbers are divided.
pub number-drop : (k : ℕ) (bs : Bools) → number (drop k bs) ≡ number bs / 2 ^ k
number-drop zero bs = omega arith
number-drop (suc k) [] = sym (zero-div (2 ^ suc k))
number-drop (suc k) (b ∷ bs) =
    number-drop k bs
    ∙ ap (λ (n : ℕ). n / 2 ^ k) (sym (half b (number bs)))
    ∙ div-div-eq-div-mul (bit b + 2 * number bs) 2 (2 ^ k)
    ∙ ap (λ (n : ℕ). (bit b + 2 * number bs) / n) (omega (arith, pow-suc 2 k))
  where
    half : (c : Bool) (n : ℕ) → (bit c + 2 * n) / 2 ≡ n
    half c n = ground arith

pub number-take : (k : ℕ) (bs : Bools) → number (take k bs) ≡ number bs % 2 ^ length (take k bs)
number-take zero bs = omega arith
number-take (suc k) [] = omega arith
number-take (suc k) (b ∷ bs) =
    ap (λ (n : ℕ). bit b + 2 * n) (number-take k bs)
    ∙ sym (mod-pow-suc (bit b) (number bs) (length (take k bs)) (bit-lt b))

pub MeansWord-take :
    {σ : Assignment} {bs : Bools} {ls : Bits} (k : ℕ)
    → MeansWord σ bs ls
    → MeansWord σ (take k bs) (take k ls)
MeansWord-take zero h = nil
MeansWord-take (suc k) nil = nil
MeansWord-take (suc k) (cons h hs) = cons h (MeansWord-take k hs)

pub MeansWord-drop :
    {σ : Assignment} {bs : Bools} {ls : Bits} (k : ℕ)
    → MeansWord σ bs ls
    → MeansWord σ (drop k bs) (drop k ls)
MeansWord-drop zero h = h
MeansWord-drop (suc k) nil = nil
MeansWord-drop (suc k) (cons h hs) = MeansWord-drop k hs

pub select :
    (w : Bool) (bs cs : Bools)
    → length bs ≡ length cs
    → zip_bools (λ x y. if w then x else y) bs cs ≡ (if w then bs else cs)
select true [] [] e = refl
select true [] (c ∷ cs) e = absurd (omega arith)
select true (b ∷ bs) [] e = absurd (omega arith)
select true (b ∷ bs) (c ∷ cs) e = ap (λ (vs : Bools). b ∷ vs) (select true bs cs (omega arith))
select false [] [] e = refl
select false [] (c ∷ cs) e = absurd (omega arith)
select false (b ∷ bs) [] e = absurd (omega arith)
select false (b ∷ bs) (c ∷ cs) e = ap (λ (vs : Bools). c ∷ vs) (select false bs cs (omega arith))

module _ (σ : Assignment) (t : σ 1 ≡ true) where
  pub slice-Computes :
      {x : Operand} {l : Lowered} (width k : ℕ)
      → Agree σ x l
      → Meets σ (pure (take width (drop k l.bits))) (Computes σ (ok (pos (x.value / 2 ^ k))))
  unfolding mask
  slice-Computes {x} {l} width k ha =
      let bs = take width (drop k ha.bools) in
      Meets-pure σ (take width (drop k l.bits)) (record {
        bools = bs;
        word = MeansWord-take width (MeansWord-drop k ha.word);
        integer = pos (x.value / 2 ^ k);
        returns = refl;
        masked = rw ha.value (
            sym (
              number-take width (drop k ha.bools)
              ∙ ap (λ (n : ℕ). n % 2 ^ length bs) (number-drop k ha.bools)));
      })

  pub const-Computes : (k width : ℕ) → Meets σ (pure (const k width)) (Computes σ (ok (pos k)))
  unfolding mask
  const-Computes k width = Meets-pure σ (const k width) (record {
    bools = bits_of k width;
    word = const-MeansWord σ t k width;
    integer = pos k;
    returns = refl;
    masked = ap (λ (n : ℕ). k % 2 ^ n) (length-bits_of k width) ∙ sym (number-bits_of k width);
  })
    where
      length-bits_of : (value w : ℕ) → length (bits_of value w) ≡ w
      length-bits_of value zero = refl
      length-bits_of value (suc w) = ap suc (length-bits_of (value / 2) w)

  pub mux-Computes :
      {c x y : Operand} {s l k : Lowered}
      → Agree σ c s
      → Agree σ x l
      → Agree σ y k
      → Meets σ
          (any_ s.bits >>= λ v. mux_bits v l.bits k.bits)
          (Computes σ (ok (pos (if is_set c then x.value else y.value))))
  unfolding mux_bits
  mux-Computes {c} {x} {y} {s} {l} {k} hc ha hb =
      Meets-bind σ _ _ (any_-HasValue σ t hc)
        (λ v. zip_with-Grows σ (Words.mux v) l.bits k.bits (mux-Grows σ v))
        λ v hv.
          Meets-weaken σ _
            (zip_with-Meets σ t (Words.mux v) (λ x y. if is_set c then x else y)
              (λ i j a b. mux-Meets σ t v i j hv) (mux-Grows σ v) ha.word hb.word)
            λ vs (e, h).
              Computes-number (if is_set c then ha.bools else hb.bools)
                (subst (λ (bs : Bools). MeansWord σ bs vs) (select (is_set c) ha.bools hb.bools e)
                  h)
                refl (chosen (is_set c))
    where
      chosen :
          (w : Bool) → (if w then x.value else y.value) ≡ number (if w then ha.bools else hb.bools)
      chosen true = ha.value
      chosen false = hb.value
