-- ===== src/Lower/Extension.antt =====
-- Casts: a word extended by a fill bit, or cut, against `signed_value` masked.
use native.Mathlib.Nat.{pow-suc}
use open_collate.Common.{
  ℕ, ℤ, zero, suc, pos, negsuc, ◌+◌, ◌-◌, ◌%◌, ◌^◌, ◌≤◌, ◌≡◌, refl, sym, ap, ◌∙◌, Bool, true, false,
  not, ◌&&◌, [], ◌∷◌, ◌++◌, ok, length, take, replicate, arith,
}
use open_collate.Kernel.Meter.{lookup_failed}
use open_collate.Kernel.Meaning.{Assignment}
use open_collate.Cnf.State.{pure, ◌>>=◌, minus_one}
use open_collate.Cnf.Words.{Bits}
use open_collate.Cnf.Rules.{Means, Meets, Grows-pure, Meets-pure, Meets-bind, Meets-raise}
use open_collate.Cnf.SharedGates.{HasValue, Means-minus_one}
use open_collate.Cnf.BitLists.{Bools, number, map_not, number-map_not}
use open_collate.Cnf.WordLaws.{MeansWord, nil, cons, MeansWord-length}
use open_collate.Ir.Values.{Operand, mask, value_if}
use open_collate.Lower.Nodes.{Lowered, fill_of, resize}
use open_collate.Lower.Correct.{Agree, ComputesWord}
use open_collate.Lower.Signed.{
  Split, top_of, split, signed_number, signed_value-split, signed_value-zero,
}
use open_collate.Lower.Words.{length-map_not}
use open_collate.Lower.Selection.{number-take, MeansWord-take}
use open_collate.Lower.Concatenation.{number-append, MeansWord-append}

-- Copies of a bit.
abbrev pub copies : ℕ → Bool → Bools
copies zero b = []
copies (suc n) b = b ∷ copies n b

pub MeansWord-copies :
    {σ : Assignment} {l : ℤ} {b : Bool} (n : ℕ)
    → Means σ l b
    → MeansWord σ (copies n b) (replicate n l)
MeansWord-copies zero h = nil
MeansWord-copies (suc n) h = cons h (MeansWord-copies n h)

pub number-copies-false : (n : ℕ) → number (copies n false) ≡ 0
number-copies-false zero = refl
number-copies-false (suc n) = omega (arith, number-copies-false n)

pub length-copies : (n : ℕ) (b : Bool) → length (copies n b) ≡ n
length-copies zero b = refl
length-copies (suc n) b = ap suc (length-copies n b)

pub map_not-copies : (n : ℕ) → map_not (copies n true) ≡ copies n false
map_not-copies zero = refl
map_not-copies (suc n) = ap (λ (vs : Bools). false ∷ vs) (map_not-copies n)

pub map_not-append : (bs cs : Bools) → map_not (bs ++ cs) ≡ map_not bs ++ map_not cs
map_not-append [] cs = refl
map_not-append (b ∷ bs) cs = ap (λ (vs : Bools). not b ∷ vs) (map_not-append bs cs)

map_not-take : (k : ℕ) (bs : Bools) → map_not (take k bs) ≡ take k (map_not bs)
map_not-take zero bs = refl
map_not-take (suc k) [] = refl
map_not-take (suc k) (b ∷ bs) = ap (λ (vs : Bools). not b ∷ vs) (map_not-take k bs)

-- Zeros above a word do not change its number.
number-padded : (bs : Bools) (n : ℕ) → number (bs ++ copies n false) ≡ number bs
number-padded bs n = number-append bs (copies n false) ∙ rw (number-copies-false n) (omega arith)

mask-pos_take :
    (k n : ℕ) (bs : Bools)
    → mask (length (take k (bs ++ copies n false))) (pos (number bs))
      ≡ number (take k (bs ++ copies n false))
unfolding mask
mask-pos_take k n bs = sym (
    number-take k (bs ++ copies n false)
    ∙ ap (λ (i : ℕ). i % 2 ^ length (take k (bs ++ copies n false))) (number-padded bs n))

-- Ones above a word stand for a negative number.
mask-negsuc_take :
    (k n : ℕ) (bs : Bools)
    → mask (length (take k (bs ++ copies n true))) (negsuc (number (map_not bs)))
      ≡ number (take k (bs ++ copies n true))
unfolding mask
mask-negsuc_take k n bs =
    let q = take k (bs ++ copies n true) in
    let flipped : map_not q ≡ take k (map_not bs ++ copies n false) =
      map_not-take k (bs ++ copies n true)
      ∙ ap (take k) (
          map_not-append bs (copies n true)
          ∙ ap (λ (vs : Bools). map_not bs ++ vs) (map_not-copies n)) in
    let below : number (map_not q) ≡ number (map_not bs) % 2 ^ length q =
      ap number flipped
      ∙ number-take k (map_not bs ++ copies n false)
      ∙ rw (number-padded (map_not bs) n, sym flipped, length-map_not q) refl in
    omega (arith, below, number-map_not q)

-- The top bit of a word, when it is signed.
abbrev pub sign_of : Bool → Bools → Bool
sign_of signed [] = false
sign_of signed (b ∷ bs) = signed && top_of b bs

mask-value_if :
    (signed : Bool) (k n : ℕ) (bs : Bools) (x : Operand)
    → x.value ≡ number bs
    → x.width ≡ length bs
    → mask (length (take k (bs ++ copies n (sign_of signed bs)))) (value_if signed x)
      ≡ number (take k (bs ++ copies n (sign_of signed bs)))
mask-value_if false k n [] x e f = rw e (mask-pos_take k n [])
mask-value_if false k n (b ∷ bs) x e f = rw e (mask-pos_take k n (b ∷ bs))
mask-value_if true k n [] x e f = rw (e, f, signed_value-zero) (mask-pos_take k n [])
mask-value_if true k n (b ∷ bs) x e f =
    rw (e, f, signed_value-split b bs) (by_top (top_of b bs) (split b bs))
  where
    by_top :
        (t : Bool) (s : Split (b ∷ bs) (2 ^ length bs) t)
        → mask (length (take k ((b ∷ bs) ++ copies n t))) (signed_number t s.low (2 ^ length bs))
          ≡ number (take k ((b ∷ bs) ++ copies n t))
    by_top false s =
        ap (λ (i : ℕ). mask (length (take k ((b ∷ bs) ++ copies n false))) (pos i))
          (omega (arith, s.whole))
        ∙ mask-pos_take k n (b ∷ bs)
    by_top true s =
        ap (λ (i : ℕ). mask (length (take k ((b ∷ bs) ++ copies n true))) (negsuc i))
          (omega (arith, s.whole, number-map_not (b ∷ bs), pow-suc 2 (length bs)))
        ∙ mask-negsuc_take k n (b ∷ bs)

length-take-copies : (k n : ℕ) (s : Bool) → k ≤ n → length (take k (copies n s)) ≡ k
length-take-copies zero n s h = refl
length-take-copies (suc k) zero s h = absurd (omega arith)
length-take-copies (suc k) (suc n) s h = ap suc (length-take-copies k n s (omega arith))

-- A word with enough copies above it has the width at which it is cut.
length-padded :
    (width n : ℕ) (bs : Bools) (s : Bool)
    → width ≤ length bs + n
    → length (take width (bs ++ copies n s)) ≡ width
length-padded zero n bs s h = refl
length-padded (suc width) n [] s h = length-take-copies (suc width) n s (omega arith)
length-padded (suc width) n (b ∷ bs) s h = ap suc (length-padded width n bs s (omega arith))

module _ (σ : Assignment) (t : σ 1 ≡ true) where
  -- The literal that fills a word stands for its sign.
  pub fill_of-Meets :
      (signed : Bool) {bs : Bools} {ls : Bits}
      → MeansWord σ bs ls
      → Meets σ (fill_of signed ls) (HasValue σ (sign_of signed bs))
  unfolding fill_of
  fill_of-Meets false nil = Meets-pure σ minus_one (Means-minus_one σ t)
  fill_of-Meets false (cons h hs) = Meets-pure σ minus_one (Means-minus_one σ t)
  fill_of-Meets true nil = Meets-raise σ lookup_failed
  fill_of-Meets true (cons h hs) = top-Means h hs
    where
      top-Means :
          {b : Bool} {bs : Bools} {l : ℤ} {ls : Bits}
          → Means σ l b
          → MeansWord σ bs ls
          → Meets σ (fill_of true (l ∷ ls)) (HasValue σ (top_of b bs))
      top-Means {l = l} h nil = Meets-pure σ l h
      top-Means h (cons h' hs) = top-Means h' hs

  -- Where it returns and `Meets` applies (the cached gates held and the clauses left are true) under
  -- an assignment with literal 1 true, a cast of an operand that agrees has just the bits of the width
  -- asked for, and they stand for the operand's integer, signed if its node is, masked to that width.
  pub cast-ComputesWord :
      {x : Operand} {l : Lowered} (width : ℕ)
      → Agree σ x l
      → Meets σ
          (fill_of l.signed l.bits >>= λ fill. pure (resize width fill l.bits))
          (ComputesWord σ width (ok (value_if x.signed x)))
  unfolding resize
  cast-ComputesWord {x} {l} width ha =
      Meets-bind σ _ _ (fill_of-Meets l.signed ha.word)
        (λ fill. Grows-pure σ (resize width fill l.bits))
        λ fill hf.
          let n = width - length l.bits in
          let s = sign_of l.signed ha.bools in
          let full : length (take width (ha.bools ++ copies n s)) ≡ width =
            length-padded width n ha.bools s (omega (arith, MeansWord-length ha.word)) in
          Meets-pure σ (resize width fill l.bits) (record {
            bools = take width (ha.bools ++ copies n s);
            word = MeansWord-take width (MeansWord-append ha.word (MeansWord-copies n hf));
            fits = full;
            integer = value_if x.signed x;
            returns = refl;
            masked =
                ap (λ (w : ℕ). mask w (value_if x.signed x)) (sym full)
                ∙ rw ha.signed (mask-value_if l.signed width n ha.bools x ha.value ha.width);
          })
