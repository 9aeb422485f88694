-- ===== src/Cnf/Gates.antt =====
-- The methods of `CNF` (src/opencollate/sequential_cnf.py) that write clauses, up to the gates for
-- AND, OR and XOR, which share the variable of an equal gate.
use open_collate.Common.{
  ℕ, ℤ, pos, ◌+◌, Bool, true, false, not, ◌&&◌, ◌||◌, Option, none, some, List, [], ◌∷◌, ◌++◌,
  length, Result, ok, err, neg, abs, eqz, lez, ltb, leb, ◌==◌, if◌then◌else◌,
}
use open_collate.Kernel.Meter.{
  ProofError, Meter, spend, cnf_variables_exhausted, cnf_clauses_exhausted, cnf_literals_exhausted,
}
use open_collate.Kernel.Clause.{Clause, contains}
use open_collate.Cnf.State.{
  Kind, and_gate, xor_gate, Entry, Cnf, one, minus_one, M, pure, ◌>>=◌, ◌>>◌,
}

-- `self.meter.spend(amount)`
abbrev pub paid : Cnf → Result ProofError Meter → Result ProofError (Unit {0} × Cnf)
paid q (ok m) = ok (tt, record q { meter = m })
paid q (err e) = err e

unfoldable pub pay : ℕ → M (Unit {0})
unfolding spend
pay amount q = paid q (spend amount q.meter)

-- `variable` after `spend`
unfoldable pub new_variable : M ℤ
new_variable q =
    if leb q.meter.limits.variables q.variables
    then err cnf_variables_exhausted
    else ok (pos (q.variables + 1), record q { variables = q.variables + 1 })

unfoldable pub variable : M ℤ
unfolding pay new_variable
variable = do pay 1; new_variable

-- The loop of `clause`: `none` where it returns early, since the clause is always true.
unfoldable pub simplify : Clause → Clause → Option Clause
unfolding contains
simplify [] values = some values
simplify (lit ∷ lits) values =
    if eqz lit one || contains (neg lit) values
    then none
    else simplify lits (
        if not (eqz lit minus_one) && not (contains lit values) then values ++ lit ∷ [] else values)

unfoldable pub append_clause : Clause → M (Unit {0})
append_clause values q =
    if leb q.meter.limits.clauses (length q.clauses)
    then err cnf_clauses_exhausted
    else if ltb q.meter.limits.literals (q.literals + length values)
    then err cnf_literals_exhausted
    else ok
        (tt, record q { literals = q.literals + length values; clauses = q.clauses ++ values ∷ [] })

abbrev pub append_simplified : Option Clause → M (Unit {0})
append_simplified none = pure tt
append_simplified (some values) = append_clause values

unfoldable pub clause : Clause → M (Unit {0})
unfolding pay simplify append_clause
clause lits = do pay (length lits + 1); append_simplified (simplify lits [])

abbrev pub kind_eq : Kind → Kind → Bool
kind_eq and_gate and_gate = true
kind_eq xor_gate xor_gate = true
kind_eq _ _ = false

abbrev pub is_key : Kind → ℤ → ℤ → Entry → Bool
is_key k lo hi e = kind_eq k e.kind && (eqz lo e.lo && eqz hi e.hi)

-- `self.cache.get(key)`
unfoldable pub cached : Kind → ℤ → ℤ → List Entry → Option ℤ
cached k lo hi [] = none
cached k lo hi (e ∷ es) = if is_key k lo hi e then some e.gate else cached k lo hi es

-- `self.cache[key] = v`, for a key that is not there.
unfoldable pub remember : Kind → ℤ → ℤ → ℤ → M (Unit {0})
remember k lo hi v q =
    ok (tt, record q { cache = (record { kind = k; lo = lo; hi = hi; gate = v }) ∷ q.cache })

-- `lo, hi = sorted((a, b))`
abbrev pub lower_of : ℤ → ℤ → ℤ
lower_of a b = if lez a b then a else b

abbrev pub upper_of : ℤ → ℤ → ℤ
upper_of a b = if lez a b then b else a

-- The clauses that define a gate's variable.
unfoldable pub define : Kind → ℤ → ℤ → ℤ → M (Unit {0})
unfolding clause
define and_gate v a b = do
  clause (neg v ∷ a ∷ [])
  clause (neg v ∷ b ∷ [])
  clause (v ∷ neg a ∷ neg b ∷ [])
define xor_gate v a b = do
  clause (a ∷ b ∷ neg v ∷ [])
  clause (neg a ∷ neg b ∷ neg v ∷ [])
  clause (a ∷ neg b ∷ v ∷ [])
  clause (neg a ∷ b ∷ v ∷ [])

-- The end of `and_` and of `xor`: look the key up, or make a variable for it.
unfoldable pub make_gate : Kind → ℤ → ℤ → M ℤ
unfolding variable define remember
make_gate k a b = do
  v ← variable
  define k v a b
  remember k (lower_of a b) (upper_of a b) v
  pure v

abbrev pub found_gate : Kind → ℤ → ℤ → Option ℤ → M ℤ
found_gate k a b (some v) = pure v
found_gate k a b none = make_gate k a b

unfoldable pub gate : Kind → ℤ → ℤ → M ℤ
unfolding cached make_gate
gate k a b q = found_gate k a b (cached k (lower_of a b) (upper_of a b) q.cache) q

unfoldable pub and_ : ℤ → ℤ → M ℤ
unfolding pay gate
and_ a b = do
  pay 1
  if eqz a minus_one || (eqz b minus_one || eqz a (neg b))
      then pure minus_one
      else if eqz a one
      then pure b
      else if eqz b one || eqz a b
      then pure a
      else gate and_gate a b

unfoldable pub or_ : ℤ → ℤ → M ℤ
unfolding and_
or_ a b = do v ← and_ (neg a) (neg b); pure (neg v)

unfoldable pub xor : ℤ → ℤ → M ℤ
unfolding pay gate
xor a b = do
  pay 1
  if eqz a b
      then pure minus_one
      else if eqz a (neg b)
      then pure one
      else if abs a == 1
      then pure (if eqz a one then neg b else b)
      else if abs b == 1
      then pure (if eqz b one then neg a else a)
      else gate xor_gate a b
