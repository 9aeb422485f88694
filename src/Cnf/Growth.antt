-- ===== src/Cnf/Growth.antt =====
-- No method of `CNF` (src/opencollate/sequential_cnf.py) takes a clause back.
use open_collate.Common.{ℕ, ℤ, zero, suc, Bool, [], ◌∷◌, Option, none, some, neg}
use open_collate.Kernel.Meaning.{Assignment}
use open_collate.Cnf.State.{Kind, and_gate, xor_gate, M}
use open_collate.Cnf.Gates.{
  cached, lower_of, upper_of, define, make_gate, found_gate, gate, and_, or_, xor,
}
use open_collate.Cnf.Words.{
  Bits, bits, all_from, all_, any_, mux, zip_with, equal_from, equate, add, less_from, less,
}
use open_collate.Cnf.Rules.{Grows, Grows-pure, Grows-bind, grow_rules}
use open_collate.Cnf.Basic.{pay-Grows, variable-Grows, clause-Grows, remember-Grows}

module _ (σ : Assignment) where
  pub define-Grows : (k : Kind) (v a b : ℤ) → Grows σ (define k v a b)
  unfolding define
  define-Grows and_gate v a b = search (Grows-bind, clause-Grows)
  define-Grows xor_gate v a b = search (Grows-bind, clause-Grows)

  pub make_gate-Grows : (k : Kind) (a b : ℤ) → Grows σ (make_gate k a b)
  unfolding make_gate
  make_gate-Grows k a b =
      search (Grows-bind, Grows-pure, variable-Grows, define-Grows, remember-Grows)

  found_gate-Grows : (k : Kind) (a b : ℤ) (o : Option ℤ) → Grows σ (found_gate k a b o)
  found_gate-Grows k a b none = make_gate-Grows k a b
  found_gate-Grows k a b (some v) = Grows-pure σ v

  pub gate-Grows : (k : Kind) (a b : ℤ) → Grows σ (gate k a b)
  unfolding gate
  gate-Grows k a b = record {
    back = λ q. (found_gate-Grows k a b (cached k (lower_of a b) (upper_of a b) q.cache)).back q;
  }

  pub and_-Grows : (a b : ℤ) → Grows σ (and_ a b)
  unfolding and_
  and_-Grows a b = search (grow_rules, pay-Grows, gate-Grows)

  pub or_-Grows : (a b : ℤ) → Grows σ (or_ a b)
  unfolding or_
  or_-Grows a b = search (grow_rules, and_-Grows)

  pub xor-Grows : (a b : ℤ) → Grows σ (xor a b)
  unfolding xor
  xor-Grows a b = search (grow_rules, pay-Grows, gate-Grows) depth 8

  pub bits-Grows : (width : ℕ) → Grows σ (bits width)
  unfolding bits
  bits-Grows zero = search grow_rules
  bits-Grows (suc width) =
      Grows-bind σ _ _ (variable-Grows σ)
        λ v. Grows-bind σ _ _ (bits-Grows width) λ vs. Grows-pure σ _

  pub all_from-Grows : (r : ℤ) (xs : Bits) → Grows σ (all_from r xs)
  unfolding all_from
  all_from-Grows r [] = search grow_rules
  all_from-Grows r (x ∷ xs) = Grows-bind σ _ _ (and_-Grows r x) (λ v. all_from-Grows v xs)

  pub any_-Grows : (xs : Bits) → Grows σ (any_ xs)
  unfolding any_ all_
  any_-Grows xs = search (grow_rules, all_from-Grows)

  pub mux-Grows : (select a b : ℤ) → Grows σ (mux select a b)
  unfolding mux
  mux-Grows select a b = search (grow_rules, and_-Grows, or_-Grows)

  pub zip_with-Grows :
      (f : ℤ → ℤ → M ℤ) (xs ys : Bits) → ((x y : ℤ) → Grows σ (f x y)) → Grows σ (zip_with f xs ys)
  unfolding zip_with
  zip_with-Grows f [] [] g = search grow_rules
  zip_with-Grows f (x ∷ xs) (y ∷ ys) g =
      Grows-bind σ _ _ (g x y) λ v. Grows-bind σ _ _ (zip_with-Grows f xs ys g) λ vs. Grows-pure σ _
  zip_with-Grows f _ _ g = search grow_rules

  pub equal_from-Grows : (r : ℤ) (xs ys : Bits) → Grows σ (equal_from r xs ys)
  unfolding equal_from
  equal_from-Grows r [] [] = search grow_rules
  equal_from-Grows r (x ∷ xs) (y ∷ ys) =
      Grows-bind σ _ _ (xor-Grows x y)
        λ d. Grows-bind σ _ _ (and_-Grows r (neg d)) λ v. equal_from-Grows v xs ys
  equal_from-Grows r _ _ = search grow_rules

  pub equate-Grows : (xs ys : Bits) → Grows σ (equate xs ys)
  unfolding equate
  equate-Grows [] [] = search grow_rules
  equate-Grows (x ∷ xs) (y ∷ ys) =
      Grows-bind σ _ _ (clause-Grows σ (neg x ∷ y ∷ []))
        λ _. Grows-bind σ _ _ (clause-Grows σ (x ∷ neg y ∷ [])) λ _. equate-Grows xs ys
  equate-Grows _ _ = search grow_rules

  pub add-Grows : (xs ys : Bits) (carry : ℤ) → Grows σ (add xs ys carry)
  unfolding add
  add-Grows [] [] carry = search grow_rules
  add-Grows (x ∷ xs) (y ∷ ys) carry =
      search (grow_rules, and_-Grows, or_-Grows, xor-Grows, add-Grows xs ys) depth 9
  add-Grows _ _ carry = search grow_rules

  pub less_from-Grows : (r : ℤ) (xs ys : Bits) → Grows σ (less_from r xs ys)
  unfolding less_from
  less_from-Grows r [] [] = search grow_rules
  less_from-Grows r (x ∷ xs) (y ∷ ys) = Grows-bind σ _ _ (and_-Grows (neg x) y) λ l.
      Grows-bind σ _ _ (xor-Grows x y) λ d.
        Grows-bind σ _ _ (and_-Grows (neg d) r)
          λ s. Grows-bind σ _ _ (or_-Grows l s) λ v. less_from-Grows v xs ys
  less_from-Grows r _ _ = search grow_rules

  pub less-Grows : (xs ys : Bits) (signed : Bool) → Grows σ (less xs ys signed)
  unfolding less
  less-Grows xs ys signed = search (grow_rules, less_from-Grows)
