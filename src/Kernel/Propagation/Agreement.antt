-- ===== src/Kernel/Propagation/Agreement.antt =====
-- What the helpers of `_Propagation.conflicts` (src/opencollate/proof_kernel.py) keep and find out,
-- under an assignment of the variables that makes every clause of the object true.
use mathlib.Core.Path.{subst}
use mathlib.Core.Option.{some-injective}
use open_collate.Common.{
  ℕ, ℤ, zero, suc, pos, negsuc, ◌+◌, ◌<◌, ◌≡◌, ◌≢◌, refl, ◌∙◌, sym, ap, Bool, true, false, not,
  ◌&&◌, ◌||◌, Option, none, some, [], ◌∷◌, get_elem?, Result, ok, >>=-eq-ok, ok-injective, abs,
  is_pos, All, All-append, arith, ◌==◌, inl, inr, Bool-cases, if◌then◌else◌,
}
use open_collate.Kernel.Meter.{Meter, spend, ProofError}
use open_collate.Kernel.Clause.{Clause}
use open_collate.Kernel.Meaning.{Assignment, lit_true, clause_true}
use open_collate.Kernel.Database.{Watch, Database}
use open_collate.Kernel.Propagation.{
  Search, put_known, put, value, value_known, find_replacement, is_false, assign,
}

-- Under `σ` every stored clause and unit is true, and the empty clause was not stored.
pub record Follows (σ : Assignment) (d : Database) : Type 0 where
  pub clauses : All (λ c. clause_true σ c ≡ true) d.clauses
  pub units : All (λ u. lit_true σ u ≡ true) d.units
  pub nonempty : d.empty ≡ false

-- What is assigned is what `σ` assigns.
pub record Agrees (σ : Assignment) (s : Search) : Type 0 where
  pub follows : Follows σ s.db
  pub assigned : (v : ℕ) (b : Bool) → s.assigned v ≡ some b → (0 < v) × (σ v ≡ b)
  pub trail : All (λ l. lit_true σ l ≡ true) s.trail

module _ (σ : Assignment) where
  lit_true-value_known :
      (l : ℤ) (o : Option Bool) {b : Bool}
      → ((c : Bool) → o ≡ some c → (0 < abs l) × (σ (abs l) ≡ c))
      → value_known l o ≡ some b
      → lit_true σ l ≡ b
  lit_true-value_known l none h e = cc
  lit_true-value_known (pos zero) (some c) h e = absurd (omega (arith, (h c refl).0))
  lit_true-value_known (pos (suc n)) (some c) h e = ground (arith, (h c refl).1)
  lit_true-value_known (negsuc n) (some c) h e = ground (arith, (h c refl).1)

  pub lit_true-value :
      (l : ℤ) (s : Search) {b : Bool} → Agrees σ s → value l s ≡ some b → lit_true σ l ≡ b
  unfolding value
  lit_true-value l s a e = lit_true-value_known l (s.assigned (abs l)) (a.assigned (abs l)) e

  lit_true-sign : (l : ℤ) → lit_true σ l ≡ true → (0 < abs l) × (σ (abs l) ≡ is_pos l)
  lit_true-sign (pos zero) t = cc
  lit_true-sign (pos (suc n)) t = (omega arith, t)
  lit_true-sign (negsuc n) t = (omega arith, ground arith)

  assign-agrees :
      (l : ℤ) (a : ℕ → Option Bool) (v : ℕ) (b : Bool)
      → lit_true σ l ≡ true
      → (a v ≡ some b → (0 < v) × (σ v ≡ b))
      → assign (abs l) (is_pos l) a v ≡ some b
      → (0 < v) × (σ v ≡ b)
  assign-agrees l a v b t h q = elim (Bool-cases (v == abs l)) [
    | inl same ↦
        let e : v ≡ abs l = ground arith in
        let (positive, sign) = lit_true-sign l t in
        (omega arith, ap σ e ∙ sign ∙ some-injective _ _ (rw same at q))
    | inr other ↦ h (rw other at q)
  ]

  put_known-Agrees :
      (l : ℤ) (s : Search) (o : Option Bool)
      → s.assigned (abs l) ≡ o
      → Agrees σ s
      → lit_true σ l ≡ true
      → ((put_known l o s).0 ≡ true) × Agrees σ (put_known l o s).1
  unfolding put_known
  put_known-Agrees l s (some b) e a t =
      (sym (lit_true-value_known l (some b) (λ c q. a.assigned (abs l) c (e ∙ q)) refl) ∙ t, a)
  put_known-Agrees l s none e a t = (
    refl,
    record {
      follows = a.follows;
      assigned = λ v b q. assign-agrees l s.assigned v b t (a.assigned v b) q;
      trail = All-append _ s.trail (l ∷ []) a.trail (t, tt);
    },
  )

  pub put-Agrees :
      (l : ℤ) (s : Search) {b : Bool} {s' : Search}
      → Agrees σ s
      → lit_true σ l ≡ true
      → put l s ≡ ok (b, s')
      → (b ≡ true) × Agrees σ s'
  unfolding put
  put-Agrees l s {b} {s'} a t e =
      let (m, _, q) = >>=-eq-ok (spend 1 s.meter) _ e in
      let spent : Search = record s { meter = m } in
      let a' : Agrees σ spent = record {
        follows = a.follows;
        assigned = a.assigned;
        trail = a.trail;
      } in
      let r : put_known l (s.assigned (abs l)) spent ≡ (b, s') = ok-injective q in
      subst (λ (x : Bool × Search). (x.0 ≡ true) × Agrees σ x.1) r
        (put_known-Agrees l spent (s.assigned (abs l)) refl a' t)

  not_replaced :
      (b : Bool) (k : ℕ) (m : Meter) (later : Result ProofError (Option ℕ × Meter)) {m' : Meter}
      → (if b then ok (some k, m) else later) ≡ ok (none, m')
      → (b ≡ false) × (later ≡ ok (none, m'))
  not_replaced true k m later e = cc
  not_replaced false k m later e = (refl, e)

  is_false-value :
      (l : ℤ) (s : Search) → Agrees σ s → is_false (value l s) ≡ true → lit_true σ l ≡ false
  is_false-value l s a h = lit_true-value l s a (ground arith)

  find_replacement-index :
      (p : Watch) (s : Search) (k : ℕ) (x : ℤ) (rest : Clause) (i : ℕ) {l : ℤ}
      → Agrees σ s
      → ((not (k == p.first || k == p.second)) && not (is_false (value x s))) ≡ false
      → ((j : ℕ) (y : ℤ)
          → get_elem? rest j ≡ some y
          → k + 1 + j ≢ p.first
          → k + 1 + j ≢ p.second
          → lit_true σ y ≡ false)
      → get_elem? (x ∷ rest) i ≡ some l
      → k + i ≢ p.first
      → k + i ≢ p.second
      → lit_true σ l ≡ false
  find_replacement-index p s k x rest zero {l} a skipped later g n1 n2 =
      let same : x ≡ l = some-injective _ _ g in
      ap (lit_true σ) (sym same) ∙ is_false-value x s a (ground arith)
  find_replacement-index p s k x rest (suc i) {l} a skipped later g n1 n2 =
      later i l g (λ h. n1 (omega (arith, h))) (λ h. n2 (omega (arith, h)))

  -- A search for a replacement that finds none has seen that every literal elsewhere is false.
  pub find_replacement-none :
      (p : Watch) (s : Search) (k : ℕ) (c : Clause) (m : Meter) {m' : Meter}
      → Agrees σ s
      → find_replacement p s k c m ≡ ok (none, m')
      → (i : ℕ) (l : ℤ) → get_elem? c i ≡ some l
      → k + i ≢ p.first
      → k + i ≢ p.second
      → lit_true σ l ≡ false
  unfolding find_replacement
  find_replacement-none p s k [] m a e i l g n1 n2 = cc
  find_replacement-none p s k (x ∷ rest) m a e i l g n1 n2 =
      let (m1, _, q) = >>=-eq-ok (spend 1 m) _ e in
      let (skipped, more) =
        not_replaced ((not (k == p.first || k == p.second)) && not (is_false (value x s))) k m1
          (find_replacement p s (k + 1) rest m1) q in
      find_replacement-index p s k x rest i a skipped
        (find_replacement-none p s (k + 1) rest m1 a more) g n1 n2

  pub clause_true-none :
      (c : Clause)
      → ((i : ℕ) (l : ℤ) → get_elem? c i ≡ some l → lit_true σ l ≡ false)
      → clause_true σ c ≡ false
  clause_true-none [] h = refl
  clause_true-none (x ∷ xs) h =
      ground (arith, h 0 x refl, clause_true-none xs (λ i l q. h (suc i) l q))

  -- A true clause whose literals are false but at `j` has a true literal there.
  pub clause_true-only :
      (c : Clause) (j : ℕ) {o : ℤ}
      → clause_true σ c ≡ true
      → ((i : ℕ) (l : ℤ) → get_elem? c i ≡ some l → i ≢ j → lit_true σ l ≡ false)
      → get_elem? c j ≡ some o
      → lit_true σ o ≡ true
  clause_true-only [] j t h g = cc
  clause_true-only (x ∷ xs) zero {o} t h g =
      let rest : clause_true σ xs ≡ false =
        clause_true-none xs (λ i l q. h (suc i) l q (λ e. absurd (omega arith))) in
      subst (λ (l : ℤ). lit_true σ l ≡ true) (some-injective _ _ g) (ground arith)
  clause_true-only (x ∷ xs) (suc j) t h g =
      clause_true-only xs j (ground (arith, h 0 x refl))
        (λ i l q n. h (suc i) l q (λ e. n (omega arith))) g
