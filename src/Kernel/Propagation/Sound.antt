-- ===== src/Kernel/Propagation/Sound.antt =====
-- Unit propagation assigns only what follows: the loops of `_Propagation.conflicts`
-- (src/opencollate/proof_kernel.py) under an assignment that makes every clause of the object true.
use mathlib.Core.Path.{subst}
use mathlib.Core.Option.{some-injective}
use open_collate.Common.{
  ℕ, ℤ, zero, suc, ◌+◌, ◌≡◌, ◌≢◌, ◌⊎◌, refl, ◌∙◌, sym, ap, Bool, true, false, not, Option, none,
  some, [], ◌∷◌, get_elem?, length, Result, ok, >>=-eq-ok, after-ok, guard-eq-ok, or_raise,
  or_raise-eq-ok, ok-injective, neg, eqz, eqz_iff, All, All-get_elem?, arith, ltb, ◌==◌, inl, inr,
  Bool-cases, Option-cases,
}
use open_collate.Kernel.Meter.{Meter, spend, ProofError, lookup_failed}
use open_collate.Kernel.Clause.{Clause}
use open_collate.Kernel.Meaning.{Assignment, lit_true, lit_true-neg-false}
use open_collate.Kernel.Database.{Watch, Database}
use open_collate.Kernel.Propagation.{
  Search, put, value, find_replacement, is_true, Round, after_round, conflict, advance, stay, Seen,
  look, move_watch, finish_round, round, place, put_round, visit, propagate, put_all,
}
use open_collate.Kernel.Propagation.Agreement.{
  Follows, Agrees, put-Agrees, find_replacement-none, clause_true-only,
}

-- What `look` returns stands in the object as it says.
pub record IsSeen (false_lit : ℤ) (d : Database) (w : Seen) : Type 0 where
  pub clause : get_elem? d.clauses w.identity ≡ some w.clause
  pub position : get_elem? d.positions w.identity ≡ some w.pos
  pub false_place : get_elem? w.clause (place w.on_first w.pos) ≡ some false_lit
  pub other_place : get_elem? w.clause (place (not w.on_first) w.pos) ≡ some w.other

pub look-IsSeen :
    (false_lit : ℤ) (index : ℕ) (d : Database) {w : Seen}
    → look false_lit index d ≡ ok w
    → IsSeen false_lit d w
unfolding look
look-IsSeen false_lit index d {w} e =
    let (identity, _, e1) =
      >>=-eq-ok (or_raise lookup_failed (get_elem? (d.watches false_lit) index)) _ e in
    let (clause, p2, e2) = >>=-eq-ok (or_raise lookup_failed (get_elem? d.clauses identity)) _ e1 in
    let (at, p3, e3) = >>=-eq-ok (or_raise lookup_failed (get_elem? d.positions identity)) _ e2 in
    let (first, p4, e4) = >>=-eq-ok (or_raise lookup_failed (get_elem? clause at.first)) _ e3 in
    let on_first = eqz first false_lit in
    let (watched, p5, e5) =
      >>=-eq-ok (or_raise lookup_failed (get_elem? clause (place on_first at))) _ e4 in
    let (same, e6) = guard-eq-ok (not (eqz watched false_lit)) _ _ e5 in
    let (other, p7, e7) =
      >>=-eq-ok (or_raise lookup_failed (get_elem? clause (place (not on_first) at))) _ e6 in
    subst (IsSeen false_lit d) (ok-injective e7) (record {
      clause = or_raise-eq-ok _ _ p2;
      position = or_raise-eq-ok _ _ p3;
      false_place = or_raise-eq-ok _ _ p5 ∙ ap some ((eqz_iff watched false_lit).0 (ground arith));
      other_place = or_raise-eq-ok _ _ p7;
    })

-- Spending work keeps the agreement.
Agrees-meter :
    {σ : Assignment} (s : Search) (m : Meter) → Agrees σ s → Agrees σ (record s { meter = m })
Agrees-meter s m a = record { follows = a.follows; assigned = a.assigned; trail = a.trail }

-- What a round may leave under an assignment.
abbrev RoundAgrees : Assignment → Round → Type 0
RoundAgrees σ (conflict s) = ⊥
RoundAgrees σ (advance s) = Agrees σ s
RoundAgrees σ (stay s) = Agrees σ s

places_apart :
    (b : Bool) (p : Watch) (i : ℕ)
    → i ≢ place (not b) p
    → i ≢ place b p
    → (0 + i ≢ p.first) × (0 + i ≢ p.second)
places_apart true p i n m = omega arith
places_apart false p i n m = omega arith

-- An index that is not the one watched place is the other, or is not watched.
place-cases :
    (b : Bool) (p : Watch) (i : ℕ)
    → i ≢ place (not b) p
    → (i ≡ place b p) ⊎ ((0 + i ≢ p.first) × (0 + i ≢ p.second))
place-cases b p i n = elim (Bool-cases (i == place b p)) [
  | inl e ↦ inl (ground arith)
  | inr e ↦ inr (places_apart b p i n (ground arith))
]

module _ (σ : Assignment) where
  pub move_watch-Follows :
      (false_lit : ℤ) (index : ℕ) (w : Seen) (k : ℕ) (d : Database) {d' : Database}
      → Follows σ d
      → move_watch false_lit index w k d ≡ ok d'
      → Follows σ d'
  unfolding move_watch
  move_watch-Follows false_lit index w k d f e =
      let (fresh, _, q) = >>=-eq-ok (or_raise lookup_failed (get_elem? w.clause k)) _ e in
      subst (Follows σ) (ok-injective q)
        (record { clauses = f.clauses; units = f.units; nonempty = f.nonempty })

module _ (σ : Assignment) (false_lit : ℤ) (falsified : lit_true σ false_lit ≡ false) where
  -- Where no replacement is found, the other watched literal is true.
  other-true :
      (s : Search) (w : Seen) (m : Meter) {m' : Meter}
      → Agrees σ s
      → IsSeen false_lit s.db w
      → find_replacement w.pos s 0 w.clause m ≡ ok (none, m')
      → lit_true σ w.other ≡ true
  other-true s w m a seen e =
      clause_true-only σ w.clause (place (not w.on_first) w.pos)
        (All-get_elem? _ s.db.clauses w.identity a.follows.clauses seen.clause)
        (λ i l g n. elim (place-cases w.on_first w.pos i n) [
          | inl at ↦
              let same : false_lit ≡ l =
                some-injective _ _ (sym seen.false_place ∙ ap (get_elem? w.clause) (sym at) ∙ g) in
              ap (lit_true σ) (sym same) ∙ falsified
          | inr (n1, n2) ↦ find_replacement-none σ w.pos s 0 w.clause m a e i l g n1 n2
        ])
        seen.other_place

  put_round-Agrees :
      (b : Bool) (s : Search) → b ≡ true → Agrees σ s → RoundAgrees σ (put_round (b, s))
  put_round-Agrees true s h a = a
  put_round-Agrees false s h a = cc

  finish_round-Agrees :
      (index : ℕ) (w : Seen) (found : Option ℕ) (s : Search) {r : Round}
      → Agrees σ s
      → (found ≡ none → lit_true σ w.other ≡ true)
      → finish_round false_lit index w found s ≡ ok r
      → RoundAgrees σ r
  unfolding finish_round
  finish_round-Agrees index w none s {r} a t e =
      let ((b, s'), p, q) = >>=-eq-ok (put w.other s) _ e in
      let (held, a') = put-Agrees σ w.other s a (t refl) p in
      subst (RoundAgrees σ) (ok-injective q) (put_round-Agrees b s' held a')
  finish_round-Agrees index w (some k) s {r} a t e =
      let (d, p, q) = >>=-eq-ok (move_watch false_lit index w k s.db) _ e in
      subst (RoundAgrees σ) (ok-injective q) (record {
        follows = move_watch-Follows σ false_lit index w k s.db a.follows p;
        assigned = a.assigned;
        trail = a.trail;
      })

  pub round-Agrees :
      (index : ℕ) (s : Search) {r : Round}
      → Agrees σ s
      → round false_lit index s ≡ ok r
      → RoundAgrees σ r
  unfolding round
  round-Agrees index s {r} a e = after-ok (spend 1 s.meter) e λ m _ e1.
      after-ok (look false_lit index s.db) e1 λ w p2 e2.
        elim (Bool-cases (is_true (value w.other s))) [
          | inl t ↦ subst (RoundAgrees σ) (ok-injective (rw t at e2)) (Agrees-meter s m a)
          | inr f ↦
              after-ok (find_replacement w.pos s 0 w.clause m) (rw f at e2) λ (found, m') p3 e3.
                finish_round-Agrees index w found (record s { meter = m' }) (Agrees-meter s m' a)
                  (λ none_found.
                    other-true s w m a (look-IsSeen false_lit index s.db p2)
                      (p3 ∙ ap (λ (o : Option ℕ). ok (o, m')) none_found))
                  e3
        ]

-- What a loop may leave: no conflict, and the agreement.
abbrev pub RunAgrees : Assignment → Bool × Search → Type 0
RunAgrees σ (found, s) = (found ≡ false) × Agrees σ s

module _ (σ : Assignment) where
  after_round-Agrees :
      (done : Round) {forward again : Search → Result ProofError (Bool × Search)}
      {r : Bool × Search}
      → RoundAgrees σ done
      → ((s : Search) → Agrees σ s → forward s ≡ ok r → RunAgrees σ r)
      → ((s : Search) → Agrees σ s → again s ≡ ok r → RunAgrees σ r)
      → after_round done forward again ≡ ok r
      → RunAgrees σ r
  after_round-Agrees (conflict s) h f g e = absurd h
  after_round-Agrees (advance s) h f g e = f s h e
  after_round-Agrees (stay s) h f g e = g s h e

  visit-Agrees :
      (fuel : ℕ) (false_lit : ℤ) (index : ℕ) (s : Search) {r : Bool × Search}
      → lit_true σ false_lit ≡ false
      → Agrees σ s
      → visit fuel false_lit index s ≡ ok r
      → RunAgrees σ r
  unfolding visit
  visit-Agrees zero false_lit index s f a e = cc
  visit-Agrees (suc fuel) false_lit index s {r} f a e =
      elim (Bool-cases (ltb index (length (s.db.watches false_lit)))) [
        | inr stop ↦ subst (RunAgrees σ) (ok-injective (rw (stop, visit) at e)) (refl, a)
        | inl go ↦ after-ok (round false_lit index s) (rw (go, visit) at e) λ done p e1.
            after_round-Agrees done (round-Agrees σ false_lit f index s a p)
              (λ s'. visit-Agrees fuel false_lit (index + 1) s' f)
              (λ s'. visit-Agrees fuel false_lit index s' f) e1
      ]

  pub propagate-Agrees :
      (inner fuel cursor : ℕ) (s : Search) {r : Bool × Search}
      → Agrees σ s
      → propagate inner fuel cursor s ≡ ok r
      → RunAgrees σ r
  unfolding propagate
  propagate-Agrees inner zero cursor s a e = cc
  propagate-Agrees inner (suc fuel) cursor s {r} a e =
      elim (Option-cases (get_elem? s.trail cursor)) [
        | inl stop ↦ subst (RunAgrees σ) (ok-injective (rw (stop, propagate) at e)) (refl, a)
        | inr (l, next) ↦
            let true_lit : lit_true σ l ≡ true = All-get_elem? _ s.trail cursor a.trail next in
            after-ok (visit inner (neg l) 0 s) (rw (next, propagate) at e) λ (found, s') p e1.
              let (quiet, a') =
                visit-Agrees inner (neg l) 0 s (lit_true-neg-false σ l true_lit) a p in
              propagate-Agrees inner fuel (cursor + 1) s' a' (rw quiet at e1)
      ]

  pub put_all-Agrees :
      (ls : Clause) (s : Search) {r : Bool × Search}
      → All (λ l. lit_true σ l ≡ true) ls
      → Agrees σ s
      → put_all ls s ≡ ok r
      → (r.0 ≡ true) × Agrees σ r.1
  unfolding put_all
  put_all-Agrees [] s {r} h a e =
      subst (λ (x : Bool × Search). (x.0 ≡ true) × Agrees σ x.1) (ok-injective e) (refl, a)
  put_all-Agrees (l ∷ ls) s {r} h a e = after-ok (put l s) e λ (held, s') p e1.
      let (b, a') = put-Agrees σ l s a h.0 p in put_all-Agrees ls s' h.1 a' (rw b at e1)
