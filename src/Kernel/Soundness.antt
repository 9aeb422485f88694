-- ===== src/Kernel/Soundness.antt =====
-- What `verify_rup` of src/opencollate/proof_kernel.py accepts is a refutation: no assignment makes
-- every input clause true.
use mathlib.Core.Path.{subst}
use mathlib.Core.Option.{some-injective}
use open_collate.Common.{
  ℕ, ◌+◌, ◌≡◌, refl, ◌∙◌, sym, ap, Bool, true, false, not, ◌&&◌, Option, none, some, List, [], ◌∷◌,
  length, ok, after-ok, after-if, or_raise, or_raise-eq-ok, ok-injective, arith, ltb, leb, inl, inr,
  Bool-cases, All, All-append,
}
use open_collate.Kernel.Meter.{bad_variables, bad_input_count, bad_proof, Meter}
use open_collate.Kernel.Clause.{Atom, RawClause, array, other_value, Clause, normalize}
use open_collate.Kernel.Database.{Database, register, add, new_database}
use open_collate.Kernel.Propagation.{propagate, put_all, negate_all, start_search, conflicts}
use open_collate.Kernel.Propagation.Agreement.{Follows, Agrees}
use open_collate.Kernel.Propagation.Sound.{move_watch-Follows, put_all-Agrees, propagate-Agrees}
use open_collate.Kernel.Propagation.Keeps.{conflicts-keeps}
use open_collate.Kernel.Meaning.{
  Assignment, lit_true, clause_true, raw_true, normal_true, lit_true-neg, normal_true-normalize,
}
use open_collate.Kernel.Nonzero.{IsNonzero, AllNonzero, normalize-AllNonzero}
use open_collate.Kernel.Verify.{
  RawRows, rows, other_rows, Stats, Progress, read_clause, store_clause, load, is_implied,
  is_empty_clause, is_nil, check_addition, check_proof, ends_empty, check_rows, variables_ok,
  input_ok, proof_ok, verify_rup, raw_length,
}

module _ (σ : Assignment) where
  negate_all-true :
      (c : Clause)
      → All IsNonzero c
      → clause_true σ c ≡ false
      → All (λ l. lit_true σ l ≡ true) (negate_all c)
  negate_all-true [] n h = tt
  negate_all-true (l ∷ c) n h =
      (ground (arith, lit_true-neg σ l n.0), negate_all-true c n.1 (ground arith))

  -- Where `conflicts` returns true for a clause without the literal 0, the clause is true under every
  -- assignment under which the database's clauses and units are true and no empty clause was stored.
  pub conflicts_sound :
      (c : Clause) (d : Database) (m : Meter) {r : Bool × Database × Meter}
      → Follows σ d
      → All IsNonzero c
      → conflicts c d m ≡ ok r
      → r.0 ≡ true
      → clause_true σ c ≡ true
  unfolding conflicts
  conflicts_sound c d m {r} f n e t = elim (Bool-cases (clause_true σ c)) [
    | inl holds ↦ holds
    | inr fails ↦
        let start : Agrees σ (start_search d m) = record {
          follows = f;
          assigned = λ v b q. cc;
          trail = tt;
        } in
        after-if d.empty e (λ has_empty _. cc f.nonempty)
          λ _ e0. after-ok (put_all d.units (start_search d m)) e0 λ (b1, s1) p1 e1.
            let (held1, a1) = put_all-Agrees σ d.units (start_search d m) f.units start p1 in
            after-if (not b1) e1 (λ q _. ground (arith, held1, q))
              λ _ q1. after-ok (put_all (negate_all c) s1) q1 λ (b2, s2) p2 e2.
                let (held2, a2) =
                  put_all-Agrees σ (negate_all c) s1 (negate_all-true c n fails) a1 p2 in
                after-if (not b2) e2 (λ q _. ground (arith, held2, q))
                  λ _ q2.
                    after-ok (propagate (m.limits.work + 2) (m.limits.work + 2) 0 s2) q2
                      λ (b3, s3) p3 e3.
                        let (quiet, _) = propagate-Agrees σ _ _ 0 s2 a2 p3 in
                        ground (
                          arith,
                          ap (λ (x : Bool × Database × Meter). x.0) (ok-injective e3),
                          quiet,
                          t,
                        )
  ]

  conflicts-Follows :
      (c : Clause) (d : Database) (m : Meter) {r : Bool × Database × Meter}
      → Follows σ d
      → conflicts c d m ≡ ok r
      → Follows σ r.1
  conflicts-Follows =
      conflicts-keeps (Follows σ)
        (λ false_lit index w k d d' seen f e. move_watch-Follows σ false_lit index w k d f e)

  register-Follows :
      (c : Clause) (identity : ℕ) (d : Database)
      → Follows σ d
      → clause_true σ c ≡ true
      → Follows σ (register c identity d)
  unfolding register
  register-Follows [] identity d f t = cc
  register-Follows (u ∷ []) identity d f t = record {
    clauses = f.clauses;
    units = All-append _ d.units (u ∷ []) f.units (ground arith, tt);
    nonempty = f.nonempty;
  }
  register-Follows (a ∷ b ∷ c) identity d f t = record {
    clauses = f.clauses;
    units = f.units;
    nonempty = f.nonempty;
  }

  add-Follows :
      (c : Option Clause) (d : Database) (m : Meter) {d' : Database}
      → Follows σ d
      → normal_true σ c ≡ true
      → add c d m ≡ ok d'
      → Follows σ d'
  unfolding add
  add-Follows none d m f t e = subst (Follows σ) (ok-injective e) f
  add-Follows (some c) d m f t e =
      after-if (leb m.limits.clauses (length d.clauses)) e (λ _ q. cc)
        λ _ q. subst (Follows σ) (ok-injective q) (
          register-Follows c (length d.clauses) _
            (record {
              clauses = All-append _ d.clauses (c ∷ []) f.clauses (t, tt);
              units = f.units;
              nonempty = f.nonempty;
            })
            t)

-- Every clause of an argument is true; what is no array has none.
abbrev pub AllTrue : Assignment → List RawClause → Type 0
AllTrue σ = All (λ raw. raw_true σ raw ≡ true)

abbrev pub Satisfies : Assignment → RawRows → Type 0
Satisfies σ (rows l) = AllTrue σ l
Satisfies σ other_rows = Unit

module _ (σ : Assignment) where
  read_clause-facts :
      (variables : ℕ) (raw : RawClause) (p : Progress) {r : Option Clause × Progress}
      → read_clause variables raw p ≡ ok r
      → (normal_true σ r.0 ≡ raw_true σ raw) × AllNonzero r.0 × (r.1.database ≡ p.database)
  unfolding read_clause
  read_clause-facts variables raw p e = after-ok (normalize raw variables p.meter) e λ (c, m) p1 e1.
      after-if (ltb m.limits.literals (p.literals + raw_length raw)) e1 (λ _ q. cc)
        λ _ q.
          subst
            (λ (x : Option Clause × Progress).
              (normal_true σ x.0 ≡ raw_true σ raw) × AllNonzero x.0 × (x.1.database ≡ p.database))
            (ok-injective q)
            (
              normal_true-normalize σ raw variables p.meter p1,
              normalize-AllNonzero raw variables p.meter p1,
              refl,
            )

  store_clause-Follows :
      (c : Option Clause) (p : Progress) {p' : Progress}
      → Follows σ p.database
      → normal_true σ c ≡ true
      → store_clause c p ≡ ok p'
      → Follows σ p'.database
  unfolding store_clause
  store_clause-Follows c p f t e = after-ok (add c p.database p.meter) e λ d p1 e1.
      subst (λ (x : Progress). Follows σ x.database) (ok-injective e1)
        (add-Follows σ c p.database p.meter f t p1)

  load-Follows :
      (variables : ℕ) (l : List RawClause) (p : Progress) {p' : Progress}
      → AllTrue σ l
      → Follows σ p.database
      → load variables l p ≡ ok p'
      → Follows σ p'.database
  unfolding load
  load-Follows variables [] p h f e =
      subst (λ (x : Progress). Follows σ x.database) (ok-injective e) f
  load-Follows variables (raw ∷ rest) p h f e =
      after-ok (read_clause variables raw p) e λ (c, p1) q1 e1.
        let (same, _, kept) = read_clause-facts variables raw p q1 in
        after-ok (store_clause c p1) e1 λ p2 q2 e2.
          load-Follows variables rest p2 h.1
            (store_clause-Follows c p1 (subst (Follows σ) (sym kept) f) (same ∙ h.0) q2) e2

  -- An addition is answered with true only where it follows.
  is_implied-Follows :
      (c : Option Clause) (p : Progress) {r : Bool × Progress}
      → Follows σ p.database
      → AllNonzero c
      → is_implied c p ≡ ok r
      → Follows σ r.1.database × (r.0 ≡ true → normal_true σ c ≡ true)
  unfolding is_implied
  is_implied-Follows none p f n e =
      (subst (λ (x : Bool × Progress). Follows σ x.1.database) (ok-injective e) f, λ _. refl)
  is_implied-Follows (some c) p f n e =
      after-ok (conflicts c p.database p.meter) e λ (b, d, m) q e1. (
        subst (λ (x : Bool × Progress). Follows σ x.1.database) (ok-injective e1)
            (conflicts-Follows σ c p.database p.meter f q),
        λ t.
            conflicts_sound σ c p.database p.meter f n q
              (ap (λ (x : Bool × Progress). x.0) (ok-injective e1) ∙ t),
      )

  check_addition-Follows :
      (variables index : ℕ) (last : Bool) (raw : RawClause) (p : Progress) {p' : Progress}
      → Follows σ p.database
      → check_addition variables index last raw p ≡ ok p'
      → Follows σ p'.database × (raw_true σ raw ≡ true)
  unfolding check_addition
  check_addition-Follows variables index last raw p f e =
      after-ok (read_clause variables raw p) e λ (c, p1) q1 e1.
        let (same, nonzero, kept) = read_clause-facts variables raw p q1 in
        after-ok (is_implied c p1) e1 λ (b, p2) q2 e2.
          let (f2, holds) = is_implied-Follows c p1 (subst (Follows σ) (sym kept) f) nonzero q2 in
          after-if (not b) e2 (λ _ q. cc)
            λ implied e3.
              after-if (is_empty_clause c && not last) e3 (λ _ q. cc)
                λ _ e4.
                  let t : normal_true σ c ≡ true = holds (ground arith) in
                  (store_clause-Follows c p2 f2 t e4, sym same ∙ t)

  check_proof-AllTrue :
      (variables index : ℕ) (l : List RawClause) (p : Progress) {p' : Progress}
      → Follows σ p.database
      → check_proof variables index l p ≡ ok p'
      → AllTrue σ l
  unfolding check_proof
  check_proof-AllTrue variables index [] p f e = tt
  check_proof-AllTrue variables index (raw ∷ rest) p f e =
      after-ok (check_addition variables index (is_nil rest) raw p) e λ p1 q1 e1.
        let (f1, t) = check_addition-Follows variables index (is_nil rest) raw p f q1 in
        (t, check_proof-AllTrue variables (index + 1) rest p1 f1 e1)

  -- The empty clause at the end of a proof is not true.
  ends_empty-false : (l : List RawClause) → ends_empty l ≡ true → AllTrue σ l → ⊥
  ends_empty-false [] e h = cc
  ends_empty-false (array [] ∷ []) e h = cc h.0
  ends_empty-false (array (_ ∷ _) ∷ []) e h = cc
  ends_empty-false (other_value ∷ []) e h = cc
  ends_empty-false (x ∷ raw ∷ rest) e h = ends_empty-false (raw ∷ rest) e h.1

  check_rows-refutes :
      (variables : ℕ) (input proof : List RawClause) (m : Meter) {r : Stats × Meter}
      → check_rows variables input proof m ≡ ok r
      → ¬ AllTrue σ input
  unfolding check_rows
  check_rows-refutes variables input proof m e h =
      let fresh : Progress = record { database = new_database; literals = 0; meter = m } in
      let start : Follows σ new_database = record { clauses = tt; units = tt; nonempty = refl } in
      after-ok (load variables input fresh) e λ loaded p1 e1.
        after-ok (check_proof variables 0 proof loaded) e1 λ checked p2 e2.
          after-if (not (ends_empty proof)) e2 (λ _ q. cc)
            λ ends _. ends_empty-false proof (ground arith) (
              check_proof-AllTrue variables 0 proof loaded
                (load-Follows variables input fresh h start p1) p2)

input_ok-AllTrue :
    (σ : Assignment) (clauses : RawRows) (m : Meter) {input : List RawClause}
    → input_ok clauses m ≡ some input
    → Satisfies σ clauses
    → AllTrue σ input
input_ok-AllTrue σ other_rows m e h = cc
input_ok-AllTrue σ (rows l) m {input} e h = elim (Bool-cases (ltb m.limits.clauses (length l))) [
  | inl over ↦ ground arith
  | inr fits ↦ subst (AllTrue σ) (some-injective _ _ (rw fits at e)) h
]

-- Where `verify_rup` returns, no assignment of the variables satisfies the clauses that it was
-- given.
pub verify_rup_sound :
    (clauses : RawRows) (variables : Atom) (proof : RawRows) (m : Meter) {r : Stats × Meter}
    → verify_rup clauses variables proof m ≡ ok r
    → (σ : Assignment) → ¬ Satisfies σ clauses
unfolding verify_rup
verify_rup_sound clauses variables proof m e σ h =
    after-ok (or_raise bad_variables (variables_ok variables m)) e λ n _ e1.
      after-ok (or_raise bad_input_count (input_ok clauses m)) e1 λ input p e2.
        after-ok (or_raise bad_proof (proof_ok proof m)) e2 λ additions _ e3.
          check_rows-refutes σ n input additions m e3
            (input_ok-AllTrue σ clauses m (or_raise-eq-ok _ _ p) h)
