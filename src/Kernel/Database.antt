-- ===== src/Kernel/Database.antt =====
-- The state of `_Propagation` (src/opencollate/proof_kernel.py), and `add`.
use open_collate.Common.{
  ℕ, ℤ, Bool, true, false, Option, none, some, List, [], ◌∷◌, ◌++◌, length, Result, ok, err, eqz,
  leb, if◌then◌else◌,
}
use open_collate.Kernel.Meter.{ProofError, clauses_exhausted, Meter}
use open_collate.Kernel.Clause.{Clause}

-- The two watched places of a clause, `positions[identity]`.
pub record Watch : Type 0 where
  pub first : ℕ
  pub second : ℕ

-- The object's fields but the meter. A key that `watches` lacks reads as the empty list, as in
-- `self.watches.get(false_lit, [])` and `self.watches.setdefault(lit, [])`.
pub record Database : Type 0 where
  pub clauses : List Clause
  pub positions : List Watch
  pub watches : ℤ → List ℕ
  pub units : Clause
  pub empty : Bool

-- `_Propagation.__init__`
abbrev pub new_database : Database
new_database = record { clauses = []; positions = []; watches = λ _. []; units = []; empty = false }

-- `self.watches[lit] = ids`
abbrev pub put_watches : ℤ → List ℕ → (ℤ → List ℕ) → ℤ → List ℕ
put_watches lit ids w l = if eqz l lit then ids else w l

-- `self.watches.setdefault(lit, []).append(identity)`
abbrev pub watch_literal : ℤ → ℕ → (ℤ → List ℕ) → ℤ → List ℕ
watch_literal lit identity w = put_watches lit (w lit ++ identity ∷ []) w

-- The tail of `add`, by the length of the clause.
unfoldable pub register : Clause → ℕ → Database → Database
register [] identity d = record d { empty = true }
register (u ∷ []) identity d = record d { units = d.units ++ u ∷ [] }
register (a ∷ b ∷ _) identity d = record d {
  watches = watch_literal b identity (watch_literal a identity d.watches);
}

unfoldable pub add : Option Clause → Database → Meter → Result ProofError Database
unfolding register
add none d m = ok d
add (some clause) d m =
    if leb m.limits.clauses (length d.clauses)
    then err clauses_exhausted
    else ok (
        register clause (length d.clauses) (record d {
          clauses = d.clauses ++ clause ∷ [];
          positions = d.positions ++ (record { first = 0; second = 1 }) ∷ [];
        }))
