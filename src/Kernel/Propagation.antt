-- ===== src/Kernel/Propagation.antt =====
-- `_Propagation` of src/opencollate/proof_kernel.py: watched-literal unit propagation.
pub mod Agreement
pub mod Sound
pub mod Keeps
use open_collate.Common.{
  ℕ, ℤ, zero, suc, ◌+◌, ◌-◌, Bool, true, false, not, ◌&&◌, ◌||◌, Option, none, some, List, [], ◌∷◌,
  ◌++◌, length, get_elem?, set, take, Result, ok, err, ◌>>=◌, or_raise, neg, abs, is_pos, eqz, ltb,
  leb, ◌==◌, if◌then◌else◌,
}
use open_collate.Kernel.Meter.{
  ProofError, clauses_exhausted, inconsistent_watch, lookup_failed, out_of_fuel, Meter, spend,
}
use open_collate.Kernel.Clause.{Clause}
use open_collate.Kernel.Database.{Watch, Database, put_watches, watch_literal}

-- The state of one run of `conflicts`: the object, and the local variables that its helpers share.
pub record Search : Type 0 where
  pub db : Database
  pub assigned : ℕ → Option Bool
  pub trail : Clause
  pub meter : Meter

abbrev pub bool_eq : Bool → Bool → Bool
bool_eq true b = b
bool_eq false b = not b

abbrev pub assign : ℕ → Bool → (ℕ → Option Bool) → ℕ → Option Bool
assign var val a v = if v == var then some val else a v

-- `put` after `spend`: whether the literal is consistent with what is assigned.
unfoldable pub put_known : ℤ → Option Bool → Search → Bool × Search
put_known lit (some b) s = (bool_eq b (is_pos lit), s)
put_known lit none s = (
  true,
  record s { assigned = assign (abs lit) (is_pos lit) s.assigned; trail = s.trail ++ lit ∷ [] },
)

unfoldable pub put : ℤ → Search → Result ProofError (Bool × Search)
unfolding spend put_known
put lit s = do
  m ← spend 1 s.meter
  ok (put_known lit (s.assigned (abs lit)) (record s { meter = m }))

-- `value`
abbrev pub value_known : ℤ → Option Bool → Option Bool
value_known lit none = none
value_known lit (some b) = some (bool_eq b (is_pos lit))

unfoldable pub value : ℤ → Search → Option Bool
value lit s = value_known lit (s.assigned (abs lit))

abbrev pub is_true : Option Bool → Bool
is_true (some true) = true
is_true _ = false

abbrev pub is_false : Option Bool → Bool
is_false (some false) = true
is_false _ = false

-- `for k, lit in enumerate(clause)`, from index `k` on: the first place to watch instead.
unfoldable pub find_replacement :
    Watch → Search → ℕ → Clause → Meter → Result ProofError (Option ℕ × Meter)
unfolding spend value
find_replacement pos s k [] m = ok (none, m)
find_replacement pos s k (lit ∷ rest) m = do
  m' ← spend 1 m
  let later = find_replacement pos s (k + 1) rest m'
  if (not (k == pos.first || k == pos.second)) && not (is_false (value lit s))
      then ok (some k, m')
      else later

-- `watched[index] = watched[-1]; watched.pop()`
unfoldable pub swap_pop : ℕ → List ℕ → List ℕ
swap_pop index ids =
    let last = length ids - 1 in
    elim (get_elem? ids last) [ none ↦ ids | some id ↦ take last (set ids index id) ]

-- What one round of the inner loop does: `return True`, `index += 1`, or neither.
pub data Round : Type 0 where
  conflict : Search → Round
  advance : Search → Round
  stay : Search → Round

-- The places of the false watch, side 0 or 1, and of the other.
abbrev pub place : Bool → Watch → ℕ
place true p = p.first
place false p = p.second

abbrev pub move_place : Bool → ℕ → Watch → Watch
move_place true k p = record p { first = k }
move_place false k p = record p { second = k }

abbrev pub put_round : Bool × Search → Round
put_round (true, s) = advance s
put_round (false, s) = conflict s

-- What a round reads before it looks for a replacement. `on_first` is `side == 0`.
pub record Seen : Type 0 where
  pub identity : ℕ
  pub clause : Clause
  pub pos : Watch
  pub on_first : Bool
  pub other : ℤ

unfoldable pub look : ℤ → ℕ → Database → Result ProofError Seen
look false_lit index d = do
  identity ← or_raise lookup_failed (get_elem? (d.watches false_lit) index)
  clause ← or_raise lookup_failed (get_elem? d.clauses identity)
  pos ← or_raise lookup_failed (get_elem? d.positions identity)
  first ← or_raise lookup_failed (get_elem? clause pos.first)
  let on_first = eqz first false_lit
  watched ← or_raise lookup_failed (get_elem? clause (place on_first pos))
  if not (eqz watched false_lit) then err inconsistent_watch else do
    other ← or_raise lookup_failed (get_elem? clause (place (not on_first) pos))
    ok (record {
      identity = identity;
      clause = clause;
      pos = pos;
      on_first = on_first;
      other = other;
    })

-- `pos[side] = replacement` and the three lines below it.
unfoldable pub move_watch : ℤ → ℕ → Seen → ℕ → Database → Result ProofError Database
unfolding swap_pop
move_watch false_lit index w k d = do
  fresh ← or_raise lookup_failed (get_elem? w.clause k)
  let watches = watch_literal fresh w.identity d.watches
  ok (record d {
    positions = set d.positions w.identity (move_place w.on_first k w.pos);
    watches = put_watches false_lit (swap_pop index (watches false_lit)) watches;
  })

-- The end of a round, once the search for a replacement is over.
unfoldable pub finish_round : ℤ → ℕ → Seen → Option ℕ → Search → Result ProofError Round
unfolding put move_watch
finish_round false_lit index w none s = do r ← put w.other s; ok (put_round r)
finish_round false_lit index w (some k) s = do
  d ← move_watch false_lit index w k s.db
  ok (stay (record s { db = d }))

unfoldable pub round : ℤ → ℕ → Search → Result ProofError Round
unfolding spend look find_replacement finish_round
round false_lit index s = do
  m ← spend 1 s.meter
  w ← look false_lit index s.db
  if is_true (value w.other s) then ok (advance (record s { meter = m })) else do
    (found, m') ← find_replacement w.pos s 0 w.clause m
    finish_round false_lit index w found (record s { meter = m' })

-- Go on as a round says.
abbrev pub after_round :
    Round
    → (Search → Result ProofError (Bool × Search))
    → (Search → Result ProofError (Bool × Search))
    → Result ProofError (Bool × Search)
after_round (conflict s) forward again = ok (true, s)
after_round (advance s) forward again = forward s
after_round (stay s) forward again = again s

-- `while index < len(watched)`, on fuel.
unfoldable pub visit : ℕ → ℤ → ℕ → Search → Result ProofError (Bool × Search)
unfolding round
visit zero false_lit index s = err out_of_fuel
visit (suc fuel) false_lit index s = elim (ltb index (length (s.db.watches false_lit))) [
  | false ↦ ok (false, s)
  | true ↦ do
    r ← round false_lit index s
    after_round r (visit fuel false_lit (index + 1)) (visit fuel false_lit index)
]

abbrev pub unless_found :
    Bool → (Search → Result ProofError (Bool × Search)) → Search → Result ProofError (Bool × Search)
unless_found true go s = ok (true, s)
unless_found false go s = go s

-- `while cursor < len(trail)`, on fuel; each visit has the fuel `inner`.
unfoldable pub propagate : ℕ → ℕ → ℕ → Search → Result ProofError (Bool × Search)
unfolding visit
propagate inner zero cursor s = err out_of_fuel
propagate inner (suc fuel) cursor s = elim (get_elem? s.trail cursor) [
  | none ↦ ok (false, s)
  | some lit ↦ do
    (found, s') ← visit inner (neg lit) 0 s
    unless_found found (propagate inner fuel (cursor + 1)) s'
]

abbrev pub while_held :
    Bool → (Search → Result ProofError (Bool × Search)) → Search → Result ProofError (Bool × Search)
while_held true go s = go s
while_held false go s = ok (false, s)

-- `for lit in …: if not put(lit): return True`; the flag says whether every `put` held.
unfoldable pub put_all : Clause → Search → Result ProofError (Bool × Search)
unfolding put
put_all [] s = ok (true, s)
put_all (lit ∷ rest) s = do (held, s') ← put lit s; while_held held (put_all rest) s'

abbrev pub negate_all : Clause → Clause
negate_all [] = []
negate_all (lit ∷ rest) = neg lit ∷ negate_all rest

abbrev pub start_search : Database → Meter → Search
start_search d m = record { db = d; assigned = λ _. none; trail = []; meter = m }

-- The outcome, with the object and the meter as the run leaves them. Every round of a loop spends
-- work, so the work bound is fuel enough.
unfoldable pub conflicts : Clause → Database → Meter → Result ProofError (Bool × Database × Meter)
unfolding put_all propagate
conflicts negated d m = if d.empty then ok (true, d, m) else do
  (units_hold, s) ← put_all d.units (start_search d m)
  if not units_hold then ok (true, s.db, s.meter) else do
    (negated_hold, s') ← put_all (negate_all negated) s
    if not negated_hold then ok (true, s'.db, s'.meter) else do
      let fuel = m.limits.work + 2
      (found, s'') ← propagate fuel fuel 0 s'
      ok (found, s''.db, s''.meter)
