-- ===== src/Lower/ShiftOperators.antt =====
-- The shift operators, against `<<` and `>>` of integers.
use mathlib.Core.Path.{subst}
use native.Mathlib.Nat.{pow-suc, zero-mod, mod-eq_of_lt, div-eq_of_lt}
use open_collate.Common.{
  ℕ, ℤ, pos, negsuc, ◌+◌, ◌-◌, ◌*◌, ◌/◌, ◌%◌, ◌^◌, ◌<◌, ◌≤◌, ◌≡◌, refl, sym, ap, ◌∙◌, Bool, true,
  false, ◌&&◌, [], ◌∷◌, ok, length, arith, leb, if◌then◌else◌, Bool-cases, inl, inr,
}
use open_collate.Kernel.Meaning.{Assignment}
use open_collate.Cnf.Rules.{Means, Meets, Meets-bind, Meets-weaken}
use open_collate.Cnf.BitLists.{Bools, number, number-lt, map_not, number-map_not}
use open_collate.Ir.Values.{Operand, mask, shift_value, shift_down, is_negative, value_if}
use open_collate.Lower.Nodes.{Lowered, shift_bits}
use open_collate.Lower.Correct.{Agree, Computes}
use open_collate.Lower.Shifters.{shift_left-HasNumber, shift_right-ShiftedRight, shift_rounds-Grows}
use open_collate.Lower.Shifts.{length-flipped, flipped, multiple-mod, lt-wider}
use open_collate.Lower.Signed.{
  Split, split, top_of, signed_number, signed_value-split, signed_value-zero,
}
use open_collate.Lower.Extension.{fill_of-Meets, sign_of}

sign_of-unsigned : (bs : Bools) → sign_of false bs ≡ false
sign_of-unsigned [] = refl
sign_of-unsigned (b ∷ bs) = refl

-- The integer that a shift to the left computes, masked.
mask-shift_left :
    (x y : Operand) (w : ℕ)
    → x.width ≡ w
    → mask w (shift_value true false x y) ≡ x.value * 2 ^ y.value % 2 ^ w
unfolding shift_value mask
mask-shift_left x y w e = elim (Bool-cases (leb x.width y.value)) [
  | inl h ↦
      let over : w + (y.value - w) ≡ y.value = ground arith in
      rw h (
        zero-mod (2 ^ w)
        ∙ sym (multiple-mod w (y.value - w) x.value)
        ∙ ap (λ (i : ℕ). x.value * 2 ^ i % 2 ^ w) over)
  | inr h ↦ rw h refl
]

module _ (σ : Assignment) (t : σ 1 ≡ true) where
  -- Where it returns and `Meets` applies (the cached gates held and the clauses left are true) under
  -- an assignment with literal 1 true, a left shift of operands that agree stands for the integer that
  -- `evaluate` computes for it, masked to the bits returned.
  pub shift_left-Computes :
      {x y : Operand} {l k : Lowered}
      → Agree σ x l
      → Agree σ y k
      → Meets σ (shift_bits true false l k) (Computes σ (ok (shift_value true false x y)))
  shift_left-Computes {x} {y} {l} {k} ha hb =
      Meets-bind σ _ _ (fill_of-Meets σ t false ha.word)
        (λ fill. shift_rounds-Grows σ t true 0 fill k.bits l.bits)
        λ fill hf.
          let unsigned = subst (Means σ fill) (sign_of-unsigned ha.bools) hf in
          Meets-weaken σ _ (shift_left-HasNumber σ t 0 unsigned hb.word ha.word) λ v h.
            let value : number h.bools ≡ x.value * 2 ^ y.value % 2 ^ length ha.bools =
              h.value ∙ rw (ha.value, hb.value) (unit_place (number hb.bools)) in
            record {
              bools = h.bools;
              word = h.word;
              integer = shift_value true false x y;
              returns = refl;
              masked =
                  ap (λ (w : ℕ). mask w (shift_value true false x y)) h.fits
                  ∙ mask-shift_left x y (length ha.bools) ha.width
                  ∙ sym value;
            }
    where
      unit_place :
          (n : ℕ)
          → number ha.bools * 2 ^ (n * 1) % 2 ^ length ha.bools
            ≡ number ha.bools * 2 ^ n % 2 ^ length ha.bools
      unit_place n = let e : n * 1 ≡ n = omega arith in rw e refl

-- An operand by its sign: a number, or the complement of one.
signed_integer : Bool → Bools → ℤ
signed_integer true bs = negsuc (number (map_not bs))
signed_integer false bs = pos (number bs)

value_if-signed_integer :
    (s : Bool) (bs : Bools) (x : Operand)
    → x.value ≡ number bs
    → x.width ≡ length bs
    → value_if s x ≡ signed_integer (sign_of s bs) bs
unfolding signed_integer
value_if-signed_integer false [] x e f = ap pos e
value_if-signed_integer false (b ∷ bs) x e f = ap pos e
value_if-signed_integer true [] x e f = rw (e, f) signed_value-zero
value_if-signed_integer true (b ∷ bs) x e f =
    rw (e, f, signed_value-split b bs) (by_top (top_of b bs) (split b bs))
  where
    by_top :
        (u : Bool) (s : Split (b ∷ bs) (2 ^ length bs) u)
        → signed_number u s.low (2 ^ length bs) ≡ signed_integer u (b ∷ bs)
    by_top false s = ap pos (omega (arith, s.whole))
    by_top true s =
        ap negsuc (omega (arith, s.whole, number-map_not (b ∷ bs), pow-suc 2 (length bs)))

-- Shifting down to the sign, or down.
shift_down-signed_integer :
    (f : Bool) (d : ℕ) (vs : Bools) (w : ℕ)
    → w ≡ length vs
    → (if leb w d then (if f then negsuc 0 else pos 0) else shift_down (signed_integer f vs) d)
      ≡ (if f then negsuc (number (flipped f vs) / 2 ^ d) else pos (number (flipped f vs) / 2 ^ d))
unfolding signed_integer
shift_down-signed_integer f d vs w g = elim (Bool-cases (leb w d)) [
  | inl h ↦
      let wide : length vs ≤ d = ground arith in
      let small : number (flipped f vs) < 2 ^ length vs =
        rw (sym (length-flipped f vs)) (number-lt (flipped f vs)) in
      rw (h, div-eq_of_lt (lt-wider (number (flipped f vs)) small wide)) refl
  | inr h ↦ rw h (down f)
]
  where
    down :
        (s : Bool)
        → shift_down (signed_integer s vs) d ≡ (
            if s
            then negsuc (number (flipped s vs) / 2 ^ d)
            else pos (number (flipped s vs) / 2 ^ d))
    down true = refl
    down false = refl

-- A word is the masked integer that it stands for.
mask-flipped :
    (f : Bool) (rs : Bools)
    → mask (length rs) (if f then negsuc (number (flipped f rs)) else pos (number (flipped f rs)))
      ≡ number rs
unfolding mask
mask-flipped true rs =
    let small : number (map_not rs) < 2 ^ length rs = omega (arith, number-map_not rs) in
    omega (arith, number-map_not rs, mod-eq_of_lt small)
mask-flipped false rs = mod-eq_of_lt (number-lt rs)

is_negative-signed_integer : (f : Bool) (bs : Bools) → is_negative (signed_integer f bs) ≡ f
unfolding signed_integer
is_negative-signed_integer true bs = refl
is_negative-signed_integer false bs = refl

sign_of-arithmetic : (a s : Bool) (bs : Bools) → (a && sign_of (a && s) bs) ≡ sign_of (a && s) bs
sign_of-arithmetic a s [] = ground arith
sign_of-arithmetic a s (b ∷ bs) = ground arith

shift_value-right :
    (a : Bool) (x y : Operand) (bs : Bools)
    → x.value ≡ number bs
    → x.width ≡ length bs
    → shift_value false a x y ≡ (
        if sign_of (a && x.signed) bs
        then negsuc (number (flipped (sign_of (a && x.signed) bs) bs) / 2 ^ y.value)
        else pos (number (flipped (sign_of (a && x.signed) bs) bs) / 2 ^ y.value))
unfolding shift_value
shift_value-right a x y bs e f =
    let s = sign_of (a && x.signed) bs in
    rw
      (
        value_if-signed_integer (a && x.signed) bs x e f,
        is_negative-signed_integer s bs,
        sign_of-arithmetic a x.signed bs,
      )
      (shift_down-signed_integer s y.value bs x.width f)

module _ (σ : Assignment) (t : σ 1 ≡ true) where
  -- Where it returns and `Meets` applies (the cached gates held and the clauses left are true) under
  -- an assignment with literal 1 true, a right shift, logical or arithmetic, of operands that agree
  -- stands for the integer that `evaluate` computes for it, masked to the bits returned.
  pub shift_right-Computes :
      (arithmetic : Bool) {x y : Operand} {l k : Lowered}
      → Agree σ x l
      → Agree σ y k
      → Meets σ
          (shift_bits false arithmetic l k)
          (Computes σ (ok (shift_value false arithmetic x y)))
  shift_right-Computes arithmetic {x} {y} {l} {k} ha hb =
      Meets-bind σ _ _ (fill_of-Meets σ t (arithmetic && l.signed) ha.word)
        (λ fill. shift_rounds-Grows σ t false 0 fill k.bits l.bits)
        λ fill hf. Meets-weaken σ _ (shift_right-ShiftedRight σ t 0 hf hb.word ha.word) λ v h.
          let f = sign_of (arithmetic && l.signed) ha.bools in
          let value : number (flipped f ha.bools) / 2 ^ y.value ≡ number (flipped f h.bools) =
            sym (h.value ∙ rw hb.value (unit_place f (number hb.bools))) in
          record {
            bools = h.bools;
            word = h.word;
            integer = shift_value false arithmetic x y;
            returns = refl;
            masked =
                ap (mask (length h.bools)) (
                  shift_value-right arithmetic x y ha.bools ha.value ha.width
                  ∙ ap
                      (λ (s : Bool).
                        let g = sign_of (arithmetic && s) ha.bools in
                        if g
                        then negsuc (number (flipped g ha.bools) / 2 ^ y.value)
                        else pos (number (flipped g ha.bools) / 2 ^ y.value))
                      ha.signed
                  ∙ ap (λ (i : ℕ). if f then negsuc i else pos i) value)
                ∙ mask-flipped f h.bools;
          }
    where
      unit_place :
          (g : Bool) (n : ℕ)
          → number (flipped g ha.bools) / 2 ^ (n * 1) ≡ number (flipped g ha.bools) / 2 ^ n
      unit_place g n = let e : n * 1 ≡ n = omega arith in rw e refl
