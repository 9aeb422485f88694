-- ===== src/Kernel/Propagation/Keeps.antt =====
-- What moving a watch keeps, a run of `_Propagation.conflicts` (src/opencollate/proof_kernel.py)
-- keeps: nothing else writes to the object.
use mathlib.Core.Path.{subst}
use open_collate.Common.{
  ℕ, ℤ, zero, suc, ◌+◌, ◌≡◌, sym, Bool, true, false, not, Option, none, some, [], ◌∷◌, length,
  get_elem?, Result, ok, after-ok, after-if, ok-injective, abs, neg, arith, ltb, inl, inr,
  Bool-cases, Option-cases,
}
use open_collate.Kernel.Meter.{ProofError, Meter, spend}
use open_collate.Kernel.Clause.{Clause}
use open_collate.Kernel.Database.{Database}
use open_collate.Kernel.Propagation.{
  Search, put_known, put, value, is_true, find_replacement, Round, conflict, advance, stay,
  after_round, put_round, Seen, look, move_watch, finish_round, round, visit, propagate, put_all,
  negate_all, start_search, conflicts, unless_found, while_held,
}
use open_collate.Kernel.Propagation.Sound.{IsSeen, look-IsSeen}

db-put_known : (l : ℤ) (o : Option Bool) (s : Search) → (put_known l o s).1.db ≡ s.db
unfolding put_known
db-put_known l o s = ground arith

module _ {ℓ} (P : Database → Type ℓ)
    (keep : (false_lit : ℤ) (index : ℕ) (w : Seen) (k : ℕ) (d d' : Database)
      → IsSeen false_lit d w
      → P d
      → move_watch false_lit index w k d ≡ ok d'
      → P d') where
  abbrev RoundKeeps : Round → Type ℓ
  RoundKeeps (conflict s) = P s.db
  RoundKeeps (advance s) = P s.db
  RoundKeeps (stay s) = P s.db

  put-keeps : (l : ℤ) (s : Search) {r : Bool × Search} → P s.db → put l s ≡ ok r → P r.1.db
  unfolding put
  put-keeps l s h e = after-ok (spend 1 s.meter) e λ m _ q.
      let spent : Search = record s { meter = m } in
      subst (λ (x : Bool × Search). P x.1.db) (ok-injective q)
        (subst P (sym (db-put_known l (s.assigned (abs l)) spent)) h)

  put_round-keeps : (b : Bool) (s : Search) → P s.db → RoundKeeps (put_round (b, s))
  put_round-keeps true s h = h
  put_round-keeps false s h = h

  finish_round-keeps :
      (false_lit : ℤ) (index : ℕ) (w : Seen) (found : Option ℕ) (s : Search) {r : Round}
      → IsSeen false_lit s.db w
      → P s.db
      → finish_round false_lit index w found s ≡ ok r
      → RoundKeeps r
  unfolding finish_round
  finish_round-keeps false_lit index w none s seen h e = after-ok (put w.other s) e λ (b, s') p q.
      subst RoundKeeps (ok-injective q) (put_round-keeps b s' (put-keeps w.other s h p))
  finish_round-keeps false_lit index w (some k) s seen h e =
      after-ok (move_watch false_lit index w k s.db) e
        λ d p q. subst RoundKeeps (ok-injective q) (keep false_lit index w k s.db d seen h p)

  round-keeps :
      (false_lit : ℤ) (index : ℕ) (s : Search) {r : Round}
      → P s.db
      → round false_lit index s ≡ ok r
      → RoundKeeps r
  unfolding round
  round-keeps false_lit index s h e = after-ok (spend 1 s.meter) e λ m _ e1.
      after-ok (look false_lit index s.db) e1 λ w seen e2.
        elim (Bool-cases (is_true (value w.other s))) [
          | inl t ↦ subst RoundKeeps (ok-injective (rw t at e2)) h
          | inr f ↦
              after-ok (find_replacement w.pos s 0 w.clause m) (rw f at e2) λ (found, m') _ e3.
                finish_round-keeps false_lit index w found (record s { meter = m' })
                  (look-IsSeen false_lit index s.db seen) h e3
        ]

  after_round-keeps :
      (done : Round) {forward again : Search → Result ProofError (Bool × Search)}
      {r : Bool × Search}
      → RoundKeeps done
      → ((s : Search) → P s.db → forward s ≡ ok r → P r.1.db)
      → ((s : Search) → P s.db → again s ≡ ok r → P r.1.db)
      → after_round done forward again ≡ ok r
      → P r.1.db
  after_round-keeps (conflict s) h f g e =
      subst (λ (x : Bool × Search). P x.1.db) (ok-injective e) h
  after_round-keeps (advance s) h f g e = f s h e
  after_round-keeps (stay s) h f g e = g s h e

  visit-keeps :
      (fuel : ℕ) (false_lit : ℤ) (index : ℕ) (s : Search) {r : Bool × Search}
      → P s.db
      → visit fuel false_lit index s ≡ ok r
      → P r.1.db
  unfolding visit
  visit-keeps zero false_lit index s h e = cc
  visit-keeps (suc fuel) false_lit index s h e =
      elim (Bool-cases (ltb index (length (s.db.watches false_lit)))) [
        | inr stop ↦
            subst (λ (x : Bool × Search). P x.1.db) (ok-injective (rw (stop, visit) at e)) h
        | inl go ↦ after-ok (round false_lit index s) (rw (go, visit) at e) λ done p e1.
            after_round-keeps done (round-keeps false_lit index s h p)
              (λ s'. visit-keeps fuel false_lit (index + 1) s')
              (λ s'. visit-keeps fuel false_lit index s') e1
      ]

  unless_found-keeps :
      (found : Bool) (s : Search) {go : Search → Result ProofError (Bool × Search)}
      {r : Bool × Search}
      → P s.db
      → ((s' : Search) → P s'.db → go s' ≡ ok r → P r.1.db)
      → unless_found found go s ≡ ok r
      → P r.1.db
  unless_found-keeps true s h k e = subst (λ (x : Bool × Search). P x.1.db) (ok-injective e) h
  unless_found-keeps false s h k e = k s h e

  while_held-keeps :
      (held : Bool) (s : Search) {go : Search → Result ProofError (Bool × Search)}
      {r : Bool × Search}
      → P s.db
      → ((s' : Search) → P s'.db → go s' ≡ ok r → P r.1.db)
      → while_held held go s ≡ ok r
      → P r.1.db
  while_held-keeps true s h k e = k s h e
  while_held-keeps false s h k e = subst (λ (x : Bool × Search). P x.1.db) (ok-injective e) h

  propagate-keeps :
      (inner fuel cursor : ℕ) (s : Search) {r : Bool × Search}
      → P s.db
      → propagate inner fuel cursor s ≡ ok r
      → P r.1.db
  unfolding propagate
  propagate-keeps inner zero cursor s h e = cc
  propagate-keeps inner (suc fuel) cursor s {r} h e =
      elim (Option-cases (get_elem? s.trail cursor)) [
        | inl stop ↦
            subst (λ (x : Bool × Search). P x.1.db) (ok-injective (rw (stop, propagate) at e)) h
        | inr (l, next) ↦
            after-ok (visit inner (neg l) 0 s) (rw (next, propagate) at e) λ (found, s') p e1.
              unless_found-keeps found s' (visit-keeps inner (neg l) 0 s h p)
                (λ s''. propagate-keeps inner fuel (cursor + 1) s'') e1
      ]

  put_all-keeps :
      (ls : Clause) (s : Search) {r : Bool × Search} → P s.db → put_all ls s ≡ ok r → P r.1.db
  unfolding put_all
  put_all-keeps [] s h e = subst (λ (x : Bool × Search). P x.1.db) (ok-injective e) h
  put_all-keeps (l ∷ ls) s h e = after-ok (put l s) e λ (held, s') p e1.
      while_held-keeps held s' (put-keeps l s h p) (λ s''. put_all-keeps ls s'') e1

  returned :
      (b : Bool) (d : Database) (m : Meter) {r : Bool × Database × Meter}
      → P d
      → ◌≡◌ {A = Result ProofError (Bool × Database × Meter)} (ok (b, d, m)) (ok r)
      → P r.1
  returned b d m h e = subst (λ (x : Bool × Database × Meter). P x.1) (ok-injective e) h

  -- A run of `conflicts` keeps what moving a watch keeps.
  pub conflicts-keeps :
      (clause : Clause) (d : Database) (m : Meter) {r : Bool × Database × Meter}
      → P d
      → conflicts clause d m ≡ ok r
      → P r.1
  unfolding conflicts
  conflicts-keeps clause d m h e =
      after-if d.empty e (λ _ e0. returned true d m h e0)
        λ _ e0. after-ok (put_all d.units (start_search d m)) e0 λ (b1, s1) p1 e1.
          let h1 = put_all-keeps d.units (start_search d m) h p1 in
          after-if (not b1) e1 (λ _ q. returned true s1.db s1.meter h1 q)
            λ _ q1. after-ok (put_all (negate_all clause) s1) q1 λ (b2, s2) p2 e2.
              let h2 = put_all-keeps (negate_all clause) s1 h1 p2 in
              after-if (not b2) e2 (λ _ q. returned true s2.db s2.meter h2 q)
                λ _ q2.
                  after-ok (propagate (m.limits.work + 2) (m.limits.work + 2) 0 s2) q2
                    λ (b3, s3) p3 e3. returned b3 s3.db s3.meter (propagate-keeps _ _ 0 s2 h2 p3) e3
