-- ===== src/Cnf/Words.antt =====
-- The methods of `CNF` (src/opencollate/sequential_cnf.py) on words: tuples of literals, the lowest
-- bit first.
use open_collate.Common.{
  ℕ, ℤ, zero, suc, ◌/◌, ◌%◌, Bool, List, [], ◌∷◌, ◌++◌, neg, eqz, ◌==◌, if◌then◌else◌,
}
use open_collate.Kernel.Meter.{strict_zip}
use open_collate.Kernel.Clause.{Clause}
use open_collate.Cnf.State.{Cnf, M, pure, raise, ◌>>=◌, ◌>>◌, one, minus_one}
use open_collate.Cnf.Gates.{variable, clause, and_, or_, xor}

abbrev pub Bits : Type 0
Bits = List ℤ

unfoldable pub bits : ℕ → M Bits
unfolding variable
bits zero = pure []
bits (suc width) = do v ← variable; vs ← bits width; pure (v ∷ vs)

-- `value & (1 << bit)` for each bit, from the lowest.
unfoldable pub const : ℕ → ℕ → Bits
const value zero = []
const value (suc width) = (if value % 2 == 1 then one else minus_one) ∷ const (value / 2) width

abbrev pub negate : Bits → Bits
negate [] = []
negate (x ∷ xs) = neg x ∷ negate xs

-- The loop of `all_`, from `result`.
unfoldable pub all_from : ℤ → Bits → M ℤ
unfolding and_
all_from result [] = pure result
all_from result (x ∷ xs) = do r ← and_ result x; all_from r xs

unfoldable pub all_ : Bits → M ℤ
unfolding all_from
all_ xs = all_from one xs

unfoldable pub any_ : Bits → M ℤ
unfolding all_
any_ xs = do r ← all_ (negate xs); pure (neg r)

unfoldable pub mux : ℤ → ℤ → ℤ → M ℤ
unfolding and_ or_
mux select a b = if eqz a b then pure a else do l ← and_ select a; r ← and_ (neg select) b; or_ l r

-- `tuple(fn(x, y) for x, y in zip(a, b, strict=True))`
unfoldable pub zip_with : (ℤ → ℤ → M ℤ) → Bits → Bits → M Bits
zip_with f [] [] = pure []
zip_with f (x ∷ xs) (y ∷ ys) = do v ← f x y; vs ← zip_with f xs ys; pure (v ∷ vs)
zip_with f _ _ = raise strict_zip

-- The generator of `equal` under the loop of `all_`.
unfoldable pub equal_from : ℤ → Bits → Bits → M ℤ
unfolding and_ xor
equal_from result [] [] = pure result
equal_from result (x ∷ xs) (y ∷ ys) = do d ← xor x y; r ← and_ result (neg d); equal_from r xs ys
equal_from result _ _ = raise strict_zip

unfoldable pub equal : Bits → Bits → M ℤ
unfolding equal_from
equal a b = equal_from one a b

unfoldable pub equate : Bits → Bits → M (Unit {0})
unfolding clause
equate [] [] = pure tt
equate (x ∷ xs) (y ∷ ys) = do clause (neg x ∷ y ∷ []); clause (x ∷ neg y ∷ []); equate xs ys
equate _ _ = raise strict_zip

unfoldable pub add : Bits → Bits → ℤ → M Bits
unfolding and_ or_ xor
add [] [] carry = pure []
add (x ∷ xs) (y ∷ ys) carry = do
  xy ← xor x y
  v ← xor xy carry
  l ← and_ x y
  r ← and_ xy carry
  c ← or_ l r
  vs ← add xs ys c
  pure (v ∷ vs)
add _ _ carry = raise strict_zip

-- The loop of `less`, from `result`.
unfoldable pub less_from : ℤ → Bits → Bits → M ℤ
unfolding and_ or_ xor
less_from result [] [] = pure result
less_from result (x ∷ xs) (y ∷ ys) = do
  l ← and_ (neg x) y
  d ← xor x y
  r ← and_ (neg d) result
  v ← or_ l r
  less_from v xs ys
less_from result _ _ = raise strict_zip

-- `(*a[:-1], -a[-1])`, for a word with a top bit.
unfoldable pub flip_top : Bits → Bits
flip_top [] = []
flip_top (x ∷ []) = neg x ∷ []
flip_top (x ∷ y ∷ ys) = x ∷ flip_top (y ∷ ys)

unfoldable pub less : Bits → Bits → Bool → M ℤ
unfolding less_from flip_top
less a b signed =
    if signed then less_from minus_one (flip_top a) (flip_top b) else less_from minus_one a b

-- The problem of `problem`: the variables, and the clauses with the assertion last.
unfoldable pub problem : ℤ → Cnf → ℕ × List Clause
problem assertion q = (q.variables, q.clauses ++ (assertion ∷ []) ∷ [])
