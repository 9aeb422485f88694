-- ===== src/Cnf/WordLaws.antt =====
-- The word methods of `CNF` (src/opencollate/sequential_cnf.py) compute the word functions of
-- BitLists, under every assignment that makes the clauses and literal 1 true.
use mathlib.Core.Path.{subst}
use open_collate.Common.{
  ℕ, ℤ, zero, suc, ◌/◌, ◌%◌, ◌≡◌, refl, sym, ap, ◌∙◌, Bool, true, false, not, ◌&&◌, [], ◌∷◌, neg,
  eqz_iff, length, ◌==◌, xor_bool, if◌then◌else◌, arith,
}
use open_collate.Kernel.Meter.{strict_zip}
use open_collate.Kernel.Meaning.{Assignment, lit_true}
use open_collate.Cnf.State.{M, one, minus_one}
use open_collate.Cnf.Gates.{or_}
use open_collate.Cnf.Words.{
  Bits, const, negate, all_from, all_, any_, mux, zip_with, equal_from, equal, add, less_from,
}
use open_collate.Cnf.Rules.{
  Means, Grows, Meets, Grows-pure, Grows-bind, Meets-bind, Meets-pure, Meets-raise, Meets-if,
  Meets-weaken, grow_rules,
}
use open_collate.Cnf.SharedGates.{HasValue, Means-neg, Means-one, Means-minus_one}
use open_collate.Cnf.GateLaws.{and_-Meets, or_-Meets, xor-Meets}
use open_collate.Cnf.Growth.{
  and_-Grows, or_-Grows, xor-Grows, all_from-Grows, zip_with-Grows, equal_from-Grows, add-Grows,
  less_from-Grows,
}
use open_collate.Cnf.BitLists.{
  Bools, bits_of, map_not, and_list, or_list, zip_bools, same_bits, add_bits, less_bits,
}

-- A word of literals stands for a word of truth values, bit by bit.
pub data MeansWord (σ : Assignment) : Bools → Bits → Type 0 where
  nil : MeansWord σ [] []
  cons :
      {b : Bool} {bs : Bools} {l : ℤ} {ls : Bits}
      → Means σ l b
      → MeansWord σ bs ls
      → MeansWord σ (b ∷ bs) (l ∷ ls)

pub MeansWord-negate :
    {σ : Assignment} {bs : Bools} {ls : Bits}
    → MeansWord σ bs ls
    → MeansWord σ (map_not bs) (negate ls)
MeansWord-negate nil = nil
MeansWord-negate (cons h hs) = cons (Means-neg h) (MeansWord-negate hs)

pub MeansWord-length :
    {σ : Assignment} {bs : Bools} {ls : Bits} → MeansWord σ bs ls → length ls ≡ length bs
MeansWord-length nil = refl
MeansWord-length (cons h hs) = ap suc (MeansWord-length hs)

module _ (σ : Assignment) (t : σ 1 ≡ true) where
  Means-constant : (b : Bool) → Means σ (if b then one else minus_one) b
  Means-constant true = Means-one σ t
  Means-constant false = Means-minus_one σ t

  pub const-MeansWord : (value width : ℕ) → MeansWord σ (bits_of value width) (const value width)
  unfolding const
  const-MeansWord value zero = nil
  const-MeansWord value (suc width) =
      cons (Means-constant (value % 2 == 1)) (const-MeansWord (value / 2) width)

  and_assoc : (x y z : Bool) → ((x && y) && z) ≡ (x && (y && z))
  and_assoc x y z = ground arith

  and_true : (x : Bool) → x ≡ (x && true)
  and_true x = ground arith

  all_from-Meets :
      (r : ℤ) (b : Bool) {bs : Bools} {ls : Bits}
      → Means σ r b
      → MeansWord σ bs ls
      → Meets σ (all_from r ls) (HasValue σ (b && and_list bs))
  unfolding all_from
  all_from-Meets r b hr nil = Meets-pure σ r (subst (Means σ r) (and_true b) hr)
  all_from-Meets r b hr (cons {b = c} {bs} {l} {ls} h hs) =
      Meets-bind σ _ _ (and_-Meets σ t r l hr h) (λ v. all_from-Grows σ v ls)
        λ v hv.
          subst (λ (x : Bool). Meets σ (all_from v ls) (HasValue σ x)) (and_assoc b c (and_list bs))
            (all_from-Meets v (b && c) hv hs)

  pub all_-Meets :
      {bs : Bools} {ls : Bits} → MeansWord σ bs ls → Meets σ (all_ ls) (HasValue σ (and_list bs))
  unfolding all_
  all_-Meets h = all_from-Meets one true (Means-one σ t) h

  not-and_list : (bs : Bools) → not (and_list (map_not bs)) ≡ or_list bs
  not-and_list [] = refl
  not-and_list (b ∷ bs) = ground (arith, not-and_list bs)

  -- `any_` computes the disjunction of the bits.
  pub any_-Meets :
      {bs : Bools} {ls : Bits} → MeansWord σ bs ls → Meets σ (any_ ls) (HasValue σ (or_list bs))
  unfolding any_
  any_-Meets {bs} h =
      Meets-bind σ _ _ (all_-Meets (MeansWord-negate h)) (λ r. Grows-pure σ (neg r))
        λ r hr. Meets-pure σ (neg r) (subst (Means σ (neg r)) (not-and_list bs) (Means-neg hr))

  -- Where it returns and `Meets` applies (the cached gates held and the clauses left are true) under
  -- an assignment with literal 1 true, the literal that `mux` returns has the value of the operand
  -- that the selector chooses, and the cached gates still hold.
  pub mux-Meets :
      (s a b : ℤ) {w x y : Bool}
      → Means σ s w
      → Means σ a x
      → Means σ b y
      → Meets σ (mux s a b) (HasValue σ (if w then x else y))
  unfolding mux
  mux-Meets s a b {w} {x} {y} hs ha hb =
      Meets-if σ _ _ _
        (λ same. Meets-pure σ a (
          subst (Means σ a)
            (equal_branches (sym ha.meaning ∙ ap (lit_true σ) ((eqz_iff a b).0 same) ∙ hb.meaning))
            ha))
        λ _.
          Meets-bind σ _ _ (and_-Meets σ t s a hs ha)
            (λ _. search (grow_rules, and_-Grows, or_-Grows))
            λ l hl.
              Meets-bind σ _ _ (and_-Meets σ t (neg s) b (Means-neg hs) hb) (λ r. or_-Grows σ l r)
                λ r hr.
                  subst (λ (v : Bool). Meets σ (or_ l r) (HasValue σ v)) (ground arith)
                    (or_-Meets σ t l r hl hr)
    where
      equal_branches : x ≡ y → x ≡ (if w then x else y)
      equal_branches e = ground arith

  pub zip_with-Meets :
      (f : ℤ → ℤ → M ℤ) (g : Bool → Bool → Bool) {bs cs : Bools} {ls ms : Bits}
      → ((x y : ℤ) (a b : Bool) → Means σ x a → Means σ y b → Meets σ (f x y) (HasValue σ (g a b)))
      → ((x y : ℤ) → Grows σ (f x y))
      → MeansWord σ bs ls
      → MeansWord σ cs ms
      → Meets σ
          (zip_with f ls ms)
          (λ vs. (length bs ≡ length cs) × MeansWord σ (zip_bools g bs cs) vs)
  unfolding zip_with
  zip_with-Meets f g hf gf nil nil = Meets-pure σ [] (refl, nil)
  zip_with-Meets f g hf gf nil (cons h hs) = Meets-raise σ strict_zip
  zip_with-Meets f g hf gf (cons h hs) nil = Meets-raise σ strict_zip
  zip_with-Meets f g hf gf (cons {b} {bs} {l} {ls} h hs)
        (cons {b = c} {bs = cs} {l = k} {ls = ms} h' hs') =
      Meets-bind σ _ _ (hf l k b c h h')
        (λ v. Grows-bind σ _ _ (zip_with-Grows σ f ls ms gf) λ vs. Grows-pure σ (v ∷ vs))
        λ v hv.
          Meets-bind σ _ _ (zip_with-Meets f g hf gf hs hs') (λ vs. Grows-pure σ (v ∷ vs))
            λ vs (e, hvs). Meets-pure σ (v ∷ vs) (ap suc e, cons hv hvs)

  pub equal_from-Meets :
      (r : ℤ) (b : Bool) {bs cs : Bools} {ls ms : Bits}
      → Means σ r b
      → MeansWord σ bs ls
      → MeansWord σ cs ms
      → Meets σ
          (equal_from r ls ms)
          (λ v. (length bs ≡ length cs) × Means σ v (b && same_bits bs cs))
  unfolding equal_from
  equal_from-Meets r b hr nil nil = Meets-pure σ r (refl, subst (Means σ r) (and_true b) hr)
  equal_from-Meets r b hr nil (cons h hs) = Meets-raise σ strict_zip
  equal_from-Meets r b hr (cons h hs) nil = Meets-raise σ strict_zip
  equal_from-Meets r b hr (cons {b = x} {bs} {l} {ls} h hs)
        (cons {b = y} {bs = cs} {l = k} {ls = ms} h' hs') =
      Meets-bind σ _ _ (xor-Meets σ t l k h h')
        (λ d. Grows-bind σ _ _ (and_-Grows σ r (neg d)) λ v. equal_from-Grows σ v ls ms)
        λ d hd.
          Meets-bind σ _ _ (and_-Meets σ t r (neg d) hr (Means-neg hd))
            (λ v. equal_from-Grows σ v ls ms)
            λ v hv.
              Meets-weaken σ _ (equal_from-Meets v (b && not (xor_bool x y)) hv hs hs') λ w (e, hw).
                (
                  ap suc e,
                  subst (Means σ w) (and_assoc b (not (xor_bool x y)) (same_bits bs cs)) hw,
                )

  -- The adder computes the ripple-carry sum.
  pub add-Meets :
      (carry : ℤ) (c : Bool) {bs cs : Bools} {ls ms : Bits}
      → Means σ carry c
      → MeansWord σ bs ls
      → MeansWord σ cs ms
      → Meets σ
          (add ls ms carry)
          (λ vs. (length bs ≡ length cs) × MeansWord σ (add_bits bs cs c) vs)
  unfolding add
  add-Meets carry c hc nil nil = Meets-pure σ [] (refl, nil)
  add-Meets carry c hc nil (cons h hs) = Meets-raise σ strict_zip
  add-Meets carry c hc (cons h hs) nil = Meets-raise σ strict_zip
  add-Meets carry c hc (cons {b = x} {bs} {l} {ls} h hs)
        (cons {b = y} {bs = cs} {l = k} {ls = ms} h' hs') =
      Meets-bind σ _ _ (xor-Meets σ t l k h h')
        (λ xy.
          search (Grows-bind, Grows-pure, and_-Grows, or_-Grows, xor-Grows, add-Grows σ ls ms) depth
            9)
        λ xy hxy.
          Meets-bind σ _ _ (xor-Meets σ t xy carry hxy hc)
            (λ v. search (Grows-bind, Grows-pure, and_-Grows, or_-Grows, add-Grows σ ls ms) depth 8)
            λ v hv.
              Meets-bind σ _ _ (and_-Meets σ t l k h h')
                (λ p.
                  search (Grows-bind, Grows-pure, and_-Grows, or_-Grows, add-Grows σ ls ms) depth 7)
                λ p hp.
                  Meets-bind σ _ _ (and_-Meets σ t xy carry hxy hc)
                    (λ q. search (Grows-bind, Grows-pure, or_-Grows, add-Grows σ ls ms) depth 6)
                    λ q hq.
                      Meets-bind σ _ _ (or_-Meets σ t p q hp hq)
                        (λ n. search (Grows-bind, Grows-pure, add-Grows σ ls ms))
                        λ n hn.
                          Meets-bind σ _ _ (add-Meets n _ hn hs hs') (λ vs. Grows-pure σ (v ∷ vs))
                            λ vs (e, hvs). Meets-pure σ (v ∷ vs) (ap suc e, cons hv hvs)

  -- The comparator, from the result for the lower bits.
  pub less_from-Meets :
      (r : ℤ) (b : Bool) {bs cs : Bools} {ls ms : Bits}
      → Means σ r b
      → MeansWord σ bs ls
      → MeansWord σ cs ms
      → Meets σ (less_from r ls ms) (λ v. (length bs ≡ length cs) × Means σ v (less_bits b bs cs))
  unfolding less_from
  less_from-Meets r b hr nil nil = Meets-pure σ r (refl, hr)
  less_from-Meets r b hr nil (cons h hs) = Meets-raise σ strict_zip
  less_from-Meets r b hr (cons h hs) nil = Meets-raise σ strict_zip
  less_from-Meets r b hr (cons {b = x} {bs} {l} {ls} h hs)
        (cons {b = y} {bs = cs} {l = k} {ls = ms} h' hs') =
      Meets-bind σ _ _ (and_-Meets σ t (neg l) k (Means-neg h) h')
        (λ p. Grows-bind σ _ _ (xor-Grows σ l k) λ d.
          Grows-bind σ _ _ (and_-Grows σ (neg d) r)
            λ q. Grows-bind σ _ _ (or_-Grows σ p q) λ v. less_from-Grows σ v ls ms)
        λ p hp.
          Meets-bind σ _ _ (xor-Meets σ t l k h h')
            (λ d.
              Grows-bind σ _ _ (and_-Grows σ (neg d) r)
                λ q. Grows-bind σ _ _ (or_-Grows σ p q) λ v. less_from-Grows σ v ls ms)
            λ d hd.
              Meets-bind σ _ _ (and_-Meets σ t (neg d) r (Means-neg hd) hr)
                (λ q. Grows-bind σ _ _ (or_-Grows σ p q) λ v. less_from-Grows σ v ls ms)
                λ q hq.
                  Meets-bind σ _ _ (or_-Meets σ t p q hp hq) (λ v. less_from-Grows σ v ls ms)
                    λ v hv.
                      Meets-weaken σ _ (less_from-Meets v _ hv hs hs') λ w (e, hw). (ap suc e, hw)

  pub equal-Meets :
      {bs cs : Bools} {ls ms : Bits}
      → MeansWord σ bs ls
      → MeansWord σ cs ms
      → Meets σ (equal ls ms) (λ v. (length bs ≡ length cs) × Means σ v (same_bits bs cs))
  unfolding equal
  equal-Meets hb hc = equal_from-Meets one true (Means-one σ t) hb hc
