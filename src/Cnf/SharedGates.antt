-- ===== src/Cnf/SharedGates.antt =====
-- A gate of `CNF` (src/opencollate/sequential_cnf.py), new or from the cache, has the value of its kind.
use mathlib.Core.Path.{subst, subst₂}
use mathlib.Core.Option.{some-injective}
use open_collate.Common.{
  ℕ, ℤ, zero, suc, pos, negsuc, ◌≡◌, refl, sym, ap, ◌∙◌, Bool, true, false, not, List, [], ◌∷◌, All,
  Option, none, some, neg, abs, abs-neg, eqz, eqz_iff, lez, ◌==◌, inl, inr, Bool-cases,
  if◌then◌else◌, arith,
}
use open_collate.Kernel.Meaning.{Assignment, lit_true, lit_true-neg}
use open_collate.Kernel.Nonzero.{IsNonzero}
use open_collate.Cnf.State.{Kind, and_gate, xor_gate, Entry, one, minus_one}
use open_collate.Cnf.Gates.{
  kind_eq, is_key, cached, lower_of, upper_of, define, make_gate, found_gate, gate,
}
use open_collate.Cnf.Basic.{
  variable-Meets, clause-Grows, clause-Meets, remember-Grows, remember-Meets,
}
use open_collate.Cnf.Growth.{define-Grows, gate-Grows}
use open_collate.Cnf.Rules.{
  gate_value, Means, Meets, Grows-pure, Grows-bind, Meets-bind, Meets-pure, Meets-weaken,
}

-- Literals that cannot be 0, and what they stand for.
abbrev pub HasValue : Assignment → Bool → ℤ → Type 0
HasValue σ b l = Means σ l b

pub Means-neg : {σ : Assignment} {l : ℤ} {b : Bool} → Means σ l b → Means σ (neg l) (not b)
Means-neg {σ} {l} h = record {
  nonzero = subst (λ (n : ℕ). (n == 0) ≡ false) (sym (abs-neg l)) h.nonzero;
  meaning = lit_true-neg σ l h.nonzero ∙ ap not h.meaning;
}

module _ (σ : Assignment) (t : σ 1 ≡ true) where
  pub Means-one : Means σ one true
  Means-one = record { nonzero = refl; meaning = t }

  pub Means-minus_one : Means σ minus_one false
  Means-minus_one = record { nonzero = refl; meaning = ap not t }

  IsNonzero-neg : (l : ℤ) → IsNonzero l → IsNonzero (neg l)
  IsNonzero-neg l n = subst (λ (k : ℕ). (k == 0) ≡ false) (sym (abs-neg l)) n

  -- The clauses of a gate tie its variable to its operands.
  define-Meets :
      (k : Kind) (v a b : ℤ)
      → IsNonzero v
      → IsNonzero a
      → IsNonzero b
      → Meets σ (define k v a b) (λ _. lit_true σ v ≡ gate_value k (lit_true σ a) (lit_true σ b))
  unfolding define
  define-Meets and_gate v a b nv na nb =
      let nv' = IsNonzero-neg v nv in
      let na' = IsNonzero-neg a na in
      let nb' = IsNonzero-neg b nb in
      Meets-bind σ _ _ (clause-Meets σ (neg v ∷ a ∷ []) t (nv', (na, tt)))
        (λ _. search (Grows-bind, clause-Grows))
        λ _ c1.
          Meets-bind σ _ _ (clause-Meets σ (neg v ∷ b ∷ []) t (nv', (nb, tt)))
            (λ _. search clause-Grows)
            λ _ c2.
              Meets-weaken σ _ (clause-Meets σ (v ∷ neg a ∷ neg b ∷ []) t (nv, (na', (nb', tt))))
                λ _ c3.
                  ground (
                    arith,
                    c1,
                    c2,
                    c3,
                    lit_true-neg σ v nv,
                    lit_true-neg σ a na,
                    lit_true-neg σ b nb,
                  )
  define-Meets xor_gate v a b nv na nb =
      let nv' = IsNonzero-neg v nv in
      let na' = IsNonzero-neg a na in
      let nb' = IsNonzero-neg b nb in
      Meets-bind σ _ _ (clause-Meets σ (a ∷ b ∷ neg v ∷ []) t (na, (nb, (nv', tt))))
        (λ _. search (Grows-bind, clause-Grows))
        λ _ c1.
          Meets-bind σ _ _ (clause-Meets σ (neg a ∷ neg b ∷ neg v ∷ []) t (na', (nb', (nv', tt))))
            (λ _. search (Grows-bind, clause-Grows))
            λ _ c2.
              Meets-bind σ _ _ (clause-Meets σ (a ∷ neg b ∷ v ∷ []) t (na, (nb', (nv, tt))))
                (λ _. search clause-Grows)
                λ _ c3.
                  Meets-weaken σ _ (clause-Meets σ (neg a ∷ b ∷ v ∷ []) t (na', (nb, (nv, tt))))
                    λ _ c4. ground (
                      arith,
                      c1,
                      c2,
                      c3,
                      c4,
                      lit_true-neg σ v nv,
                      lit_true-neg σ a na,
                      lit_true-neg σ b nb,
                    )

  gate_value-sorted :
      (k : Kind) (a b : ℤ)
      → gate_value k (lit_true σ (lower_of a b)) (lit_true σ (upper_of a b))
        ≡ gate_value k (lit_true σ a) (lit_true σ b)
  gate_value-sorted k a b = either (lez a b) k
    where
      either :
          (c : Bool) (k' : Kind)
          → gate_value k' (lit_true σ (if c then a else b)) (lit_true σ (if c then b else a))
            ≡ gate_value k' (lit_true σ a) (lit_true σ b)
      either true k' = refl
      either false and_gate = ground arith
      either false xor_gate = ground arith

  make_gate-Meets :
      (k : Kind) (a b : ℤ)
      → IsNonzero a
      → IsNonzero b
      → Meets σ (make_gate k a b) (HasValue σ (gate_value k (lit_true σ a) (lit_true σ b)))
  unfolding make_gate
  make_gate-Meets k a b na nb =
      Meets-bind σ _ _ (variable-Meets σ)
        (λ v. search (Grows-bind, Grows-pure, define-Grows, remember-Grows))
        λ v nv.
          Meets-bind σ _ _ (define-Meets k v a b nv na nb)
            (λ _. search (Grows-bind, Grows-pure, remember-Grows))
            λ _ e.
              let means : Means σ v (gate_value k (lit_true σ a) (lit_true σ b)) = record {
                nonzero = nv;
                meaning = e;
              } in
              Meets-bind σ _ _
                (remember-Meets σ k (lower_of a b) (upper_of a b) v
                  (subst (Means σ v) (sym (gate_value-sorted k a b)) means))
                (λ _. Grows-pure σ v) λ _ _. Meets-pure σ v means

  kind_eq_sound : (k k' : Kind) → kind_eq k k' ≡ true → k' ≡ k
  kind_eq_sound and_gate and_gate h = refl
  kind_eq_sound xor_gate xor_gate h = refl
  kind_eq_sound and_gate xor_gate h = cc
  kind_eq_sound xor_gate and_gate h = cc

  is_key-value :
      (k : Kind) (lo hi : ℤ) (x : Entry)
      → is_key k lo hi x ≡ true
      → gate_value x.kind (lit_true σ x.lo) (lit_true σ x.hi)
        ≡ gate_value k (lit_true σ lo) (lit_true σ hi)
  is_key-value k lo hi x h =
      let same_kind = kind_eq_sound k x.kind (ground arith) in
      let same_lo = (eqz_iff lo x.lo).0 (ground arith) in
      let same_hi = (eqz_iff hi x.hi).0 (ground arith) in cc (same_kind, same_lo, same_hi)

  cached-Means :
      (k : Kind) (lo hi : ℤ) (es : List Entry) {v : ℤ}
      → All (λ e. Means σ e.gate (gate_value e.kind (lit_true σ e.lo) (lit_true σ e.hi))) es
      → cached k lo hi es ≡ some v
      → Means σ v (gate_value k (lit_true σ lo) (lit_true σ hi))
  unfolding cached
  cached-Means k lo hi [] c e = cc
  cached-Means k lo hi (x ∷ es) {v} c e = elim (Bool-cases (is_key k lo hi x)) [
    | inl same ↦
        subst₂ (Means σ) (some-injective _ _ (rw (same, cached) at e)) (is_key-value k lo hi x same)
          c.0
    | inr other ↦ cached-Means k lo hi es c.1 (rw (other, cached) at e)
  ]

  found_gate-Meets :
      (k : Kind) (a b : ℤ) (o : Option ℤ)
      → IsNonzero a
      → IsNonzero b
      → ((v : ℤ) → o ≡ some v → Means σ v (gate_value k (lit_true σ a) (lit_true σ b)))
      → Meets σ (found_gate k a b o) (HasValue σ (gate_value k (lit_true σ a) (lit_true σ b)))
  found_gate-Meets k a b none na nb h = make_gate-Meets k a b na nb
  found_gate-Meets k a b (some v) na nb h = Meets-pure σ v (h v refl)

  gate-Meets :
      (k : Kind) (a b : ℤ)
      → IsNonzero a
      → IsNonzero b
      → Meets σ (gate k a b) (HasValue σ (gate_value k (lit_true σ a) (lit_true σ b)))
  unfolding gate
  gate-Meets k a b na nb = record {
    grows = gate-Grows σ k a b;
    at = λ q r e c h.
        (found_gate-Meets k a b (cached k (lower_of a b) (upper_of a b) q.cache) na nb (λ v found.
            subst (Means σ v) (gate_value-sorted k a b)
              (cached-Means k (lower_of a b) (upper_of a b) q.cache c found))).at
          q r e c h;
  }

  pub eqz-lit_true : (a b : ℤ) → eqz a b ≡ true → lit_true σ a ≡ lit_true σ b
  eqz-lit_true a b h = ap (lit_true σ) ((eqz_iff a b).0 h)

  -- The two literals of variable 1.
  pub abs-one-cases : (a : ℤ) → (abs a == 1) ≡ true → (lit_true σ a) ≡ eqz a one
  abs-one-cases (pos zero) h = cc
  abs-one-cases (pos (suc zero)) h = t
  abs-one-cases (pos (suc (suc n))) h = ground arith
  abs-one-cases (negsuc zero) h = ap not t
  abs-one-cases (negsuc (suc n)) h = ground arith

  pub gate-HasValue :
      (k : Kind) (a b : ℤ) {x y z : Bool}
      → Means σ a x
      → Means σ b y
      → gate_value k x y ≡ z
      → Meets σ (gate k a b) (HasValue σ z)
  gate-HasValue k a b ha hb e =
      subst (λ (v : Bool). Meets σ (gate k a b) (HasValue σ v)) (cc (ha.meaning, hb.meaning, e))
        (gate-Meets k a b ha.nonzero hb.nonzero)
