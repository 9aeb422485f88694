-- ===== src/Boolean/Decides.antt =====
-- `check_equivalence` (src/opencollate/boolean.py) decides whether two expressions mean the same.
use Prim.Native.String.{String}
use mathlib.Core.Path.{subst}
use open_collate.Common.{
  ℕ, zero, suc, ◌+◌, ◌≡◌, ◌<◌, ◌≤◌, refl, sym, ap, ◌∙◌, ◌⊎◌, inl, inr, pos, Bool, true, false,
  Option, none, some, List, [], ◌∷◌, map, ok, length, if◌then◌else◌, xor_bool, Dict, lookup, put,
  lookup-put, name_eq, name_eq_iff, is_in, union, to_set, is_in-union, is_in-sorted, is_in-map, All,
  All-append, All-of_append, arith, ltb, Bool-cases, ok-injective,
}
use open_collate.Boolean.Expr.{BoolExpr, variables, meaning}
use open_collate.Boolean.Equivalence.{
  too_many_variables, functions_differ, EquivalenceResult, truth_rows, zip_strict, canonical,
  native_values, rows_differ, check_rows, canonical_names, check_equivalence,
}
use open_collate.Boolean.Truth.{Gives, evaluate-meaning}

native_values-Gives :
    (aliases : Dict String) (values : Dict Bool) (v : String → Bool) (names : List String)
    → ((n : String)
        → is_in n names ≡ true
        → lookup (canonical aliases n) values ≡ some (v (canonical aliases n)))
    → (d : Dict Bool) × ((native_values aliases values names ≡ ok d)
        × Gives d (λ n. v (canonical aliases n)) names)
unfolding native_values
native_values-Gives aliases values v [] h = ([], (refl, λ n p. absurd (ground arith)))
native_values-Gives aliases values v (name ∷ names) h =
    let (d, (e, g)) = native_values-Gives aliases values v names (λ n p. h n (ground arith)) in
    let here = h name (ground (arith, name_eq_iff name name)) in
    (
      put name (v (canonical aliases name)) d,
      (
        rw (here, e) refl,
        λ n p. elim (Bool-cases (name_eq name n)) [
          | inl same ↦
              lookup-put name (v (canonical aliases name)) d n
              ∙ rw same (
                  ap (λ (x : String). some (v (canonical aliases x))) ((name_eq_iff name n).0 same))
          | inr other ↦
              lookup-put name (v (canonical aliases name)) d n ∙ rw other (g n (ground arith))
        ],
      ),
    )

union-left : (n : String) (xs ys : List String) → is_in n xs ≡ true → is_in n (union xs ys) ≡ true
union-left n xs ys h = is_in-union n xs ys ∙ rw h (ground arith)

union-right : (n : String) (xs ys : List String) → is_in n ys ≡ true → is_in n (union xs ys) ≡ true
union-right n xs ys h = is_in-union n xs ys ∙ rw h refl

-- The names of a side have canonical names among all canonical names.
canonical-left :
    (left right : BoolExpr) (aliases : Dict String) (n : String)
    → is_in n (variables left) ≡ true
    → is_in (canonical aliases n) (canonical_names left right aliases) ≡ true
canonical-left left right aliases n h =
    let all = union (variables left) (variables right) in
    let here = union-left n (variables left) (variables right) h in
    is_in-sorted (canonical aliases n) (to_set (map (canonical aliases) all))
    ∙ is_in-union (canonical aliases n) [] (map (canonical aliases) all)
    ∙ rw (is_in-map (canonical aliases) n all here) refl

canonical-right :
    (left right : BoolExpr) (aliases : Dict String) (n : String)
    → is_in n (variables right) ≡ true
    → is_in (canonical aliases n) (canonical_names left right aliases) ≡ true
canonical-right left right aliases n h =
    let all = union (variables left) (variables right) in
    let here = union-right n (variables left) (variables right) h in
    is_in-sorted (canonical aliases n) (to_set (map (canonical aliases) all))
    ∙ is_in-union (canonical aliases n) [] (map (canonical aliases) all)
    ∙ rw (is_in-map (canonical aliases) n all here) refl

-- What an expression says, when its names have the values of their canonical names.
abbrev pub canonical_meaning : Dict String → (String → Bool) → BoolExpr → Bool
canonical_meaning aliases v e = meaning (λ n. v (canonical aliases n)) e

-- A zipped dict gives each name its bit.
zip_strict-gives :
    (v : String → Bool) (vs : List String) (d0 : Dict Bool)
    → (d : Dict Bool) × ((zip_strict vs (map v vs) d0 ≡ ok d)
        × ((n : String) → lookup n d ≡ (if is_in n vs then some (v n) else lookup n d0)))
unfolding zip_strict
zip_strict-gives v [] d0 = (d0, (refl, λ n. refl))
zip_strict-gives v (x ∷ vs) d0 =
    let (d, (e, g)) = zip_strict-gives v vs (put x (v x) d0) in
    (d, (e, λ n. ground (arith, g n, lookup-put x (v x) d0 n, name_eq_iff x n)))

-- As many bits as names can be zipped, and every name gets a bit.
zip_strict-any :
    (vs : List String) (bits : List Bool) (d0 : Dict Bool)
    → length bits ≡ length vs
    → (d : Dict Bool) × ((zip_strict vs bits d0 ≡ ok d)
        × ((n : String)
            → (is_in n vs ≡ true) ⊎ ((b : Bool) × (lookup n d0 ≡ some b))
            → (b : Bool) × (lookup n d ≡ some b)))
unfolding zip_strict
zip_strict-any [] [] d0 h =
    (d0, (refl, λ n p. elim p [ inl q ↦ absurd (ground arith) | inr q ↦ q ]))
zip_strict-any [] (b ∷ bits) d0 h = absurd (omega (arith, h))
zip_strict-any (x ∷ vs) [] d0 h = absurd (omega (arith, h))
zip_strict-any (x ∷ vs) (b ∷ bits) d0 h =
    let (d, (e, g)) = zip_strict-any vs bits (put x b d0) (omega (arith, h)) in
    (
      d,
      (
        e,
        λ n p. elim (Bool-cases (name_eq x n)) [
          | inl same ↦ g n (inr (b, lookup-put x b d0 n ∙ rw same refl))
          | inr other ↦ elim p [
            | inl q ↦ g n (inl (ground arith))
            | inr (c, q) ↦ g n (inr (c, lookup-put x b d0 n ∙ rw (other, q) refl))
          ]
        ],
      ),
    )

-- The rows of the truth table are the lists of so many bits, each of them.
truth_rows-length : (n : ℕ) → All (λ bits. length bits ≡ n) (truth_rows n)
unfolding truth_rows
truth_rows-length zero = (refl, tt)
truth_rows-length (suc n) =
    All-append (λ bits. length bits ≡ suc n) _ _
      (lengthen false (truth_rows n) (truth_rows-length n))
      (lengthen true (truth_rows n) (truth_rows-length n))
  where
    lengthen :
        (b : Bool) (rows : List (List Bool))
        → All (λ bits. length bits ≡ n) rows
        → All (λ bits. length bits ≡ suc n) (map (λ bits. b ∷ bits) rows)
    lengthen b [] h = tt
    lengthen b (row ∷ rows) (h, hs) = (ap suc h, lengthen b rows hs)

All-of_map :
    (P : List Bool → Type 0) (b : Bool) (rows : List (List Bool))
    → All P (map (λ bits. b ∷ bits) rows)
    → All (λ bits. P (b ∷ bits)) rows
All-of_map P b [] h = tt
All-of_map P b (row ∷ rows) (h, hs) = (h, All-of_map P b rows hs)

truth_rows-all :
    (P : List Bool → Type 0) (bits : List Bool) → All P (truth_rows (length bits)) → P bits
unfolding truth_rows
truth_rows-all P [] h = h.0
truth_rows-all P (b ∷ bits) h =
    pick b
      (truth_rows-all (λ row. P (false ∷ row)) bits
        (All-of_map P false (truth_rows (length bits)) halves.0))
      (truth_rows-all (λ row. P (true ∷ row)) bits
        (All-of_map P true (truth_rows (length bits)) halves.1))
  where
    halves :
        All P (map (λ row. false ∷ row) (truth_rows (length bits)))
        × All P (map (λ row. true ∷ row) (truth_rows (length bits)))
    halves =
        All-of_append P (map (λ row. false ∷ row) (truth_rows (length bits)))
          (map (λ row. true ∷ row) (truth_rows (length bits))) h

    pick : (b : Bool) → P (false ∷ bits) → P (true ∷ bits) → P (b ∷ bits)
    pick false l r = l
    pick true l r = r

length-map : (v : String → Bool) (names : List String) → length (map v names) ≡ length names
length-map v [] = refl
length-map v (x ∷ xs) = ap suc (length-map v xs)

-- The assignment that a dict stands for.
abbrev or_false : Option Bool → Bool
or_false none = false
or_false (some b) = b

module _ (left right : BoolExpr) (aliases : Dict String) where
  abbrev names : List String
  names = canonical_names left right aliases

  -- One row, by the meanings.
  row-compares :
      (values : Dict Bool) (v : String → Bool)
      → Gives values v names
      → rows_differ left right aliases values
        ≡ ok (xor_bool (canonical_meaning aliases v left) (canonical_meaning aliases v right))
  unfolding rows_differ
  row-compares values v h =
      let w : String → Bool = λ n. v (canonical aliases n) in
      let (d, (e, g)) =
        native_values-Gives aliases values v (variables left)
          (λ n p. h (canonical aliases n) (canonical-left left right aliases n p)) in
      let (d', (e', g')) =
        native_values-Gives aliases values v (variables right)
          (λ n p. h (canonical aliases n) (canonical-right left right aliases n p)) in
      rw (e, e', evaluate-meaning d w left g, evaluate-meaning d' w right g') refl

  -- Both sides mean the same under the assignment.
  abbrev pub Agree : (String → Bool) → Type 0
  Agree v = canonical_meaning aliases v left ≡ canonical_meaning aliases v right

  -- What the result says is so.
  pub data Decides (limit : ℕ) (r : EquivalenceResult) : Type 0 where
    equal :
        r.equivalent ≡ some true
        → length names ≤ limit
        → ((v : String → Bool) → Agree v)
        → Decides limit r
    different :
        (d : Dict Bool)
        → r.equivalent ≡ some false
        → r.counterexample ≡ some d
        → length names ≤ limit
        → (v : String → Bool) → Gives d v names
        → ¬ Agree v
        → Decides limit r
    undecided : r.equivalent ≡ none → limit < length names → Decides limit r

  abbrev AgreesOn : List Bool → Type 0
  AgreesOn bits =
      (d : Dict Bool) (v : String → Bool)
      → zip_strict names bits [] ≡ ok d
      → Gives d v names
      → Agree v

  AgreesOn-row :
      (bits : List Bool) (d : Dict Bool) (v : String → Bool)
      → zip_strict names bits [] ≡ ok d
      → rows_differ left right aliases d ≡ ok false
      → AgreesOn bits
  AgreesOn-row bits d v zipped same d' v' zipped' gives =
      let one : d' ≡ d = ok-injective (sym zipped' ∙ zipped) in
      let compared = row-compares d' v' gives in
      let equal_rows : rows_differ left right aliases d' ≡ ok false = rw one same in
      xor-false (canonical_meaning aliases v' left) (canonical_meaning aliases v' right)
        (ok-injective (sym compared ∙ equal_rows))
    where
      xor-false : (a b : Bool) → xor_bool a b ≡ false → a ≡ b
      xor-false a b h = ground arith

  -- The loop over rows of the right length.
  check_rows-decides :
      (limit checked : ℕ) (rows : List (List Bool))
      → length names ≤ limit
      → All (λ bits. length bits ≡ length names) rows
      → (All AgreesOn rows → (v : String → Bool) → Agree v)
      → (r : EquivalenceResult) × ((check_rows left right aliases names checked rows ≡ ok r)
          × Decides limit r)
  unfolding check_rows
  check_rows-decides limit checked [] room sized finish = (_, (refl, equal refl room (finish tt)))
  check_rows-decides limit checked (bits ∷ rows) room (size, sizes) finish =
      let (d, (zipped, found)) = zip_strict-any names bits [] size in
      let v : String → Bool = λ n. or_false (lookup n d) in
      let gives : Gives d v names = λ n p. let (b, e) = found n (inl p) in rw e refl in
      let compared = row-compares d v gives in
      elim (Bool-cases
        (xor_bool (canonical_meaning aliases v left) (canonical_meaning aliases v right))) [
          | inl differ ↦ (
            record {
              equivalent = some false;
              variables = names;
              checked_assignments = checked + 1;
              counterexample = some d;
              reason = some functions_differ;
            },
            (
              rw (zipped, compared, differ) refl,
              different d refl refl room v gives (λ same. absurd (ground (arith, same))),
            ),
          )
          | inr same ↦
              let (r, (e, good)) =
                check_rows-decides limit (checked + 1) rows room sizes
                  (λ all. finish (AgreesOn-row bits d v zipped (compared ∙ ap ok same), all)) in
              (r, (rw (zipped, compared, same) e, good))
        ]

  -- Sides that agree on all rows agree.
  every-Agree : (v : String → Bool) → All AgreesOn (truth_rows (length names)) → Agree v
  every-Agree v all =
      let (d, (zipped, found)) = zip_strict-gives v names [] in
      let rows = subst (λ (n : ℕ). All AgreesOn (truth_rows n)) (sym (length-map v names)) all in
      truth_rows-all AgreesOn (map v names) rows d v zipped (λ n p. found n ∙ rw p refl)

-- For a limit that is not negative `check_equivalence` returns, and its result is right: within the
-- limit it says equal of expressions that agree under every assignment of the canonical names, or
-- different with an assignment under which they do not agree; beyond the limit it says neither.
pub check_equivalence-Decides :
    (left right : BoolExpr) (limit : ℕ) (aliases : Dict String)
    → (r : EquivalenceResult) × ((check_equivalence left right (pos limit) aliases ≡ ok r)
        × Decides left right aliases limit r)
unfolding check_equivalence
check_equivalence-Decides left right limit aliases =
    elim (Bool-cases (ltb limit (length (canonical_names left right aliases)))) [
      | inl many ↦ (
        record {
          equivalent = none;
          variables = canonical_names left right aliases;
          checked_assignments = 0;
          counterexample = none;
          reason = some (too_many_variables (length (canonical_names left right aliases)) limit);
        },
        (rw many refl, undecided refl (ground arith)),
      )
      | inr few ↦
          let vs = canonical_names left right aliases in
          let (r, (e, good)) =
            check_rows-decides left right aliases limit 0 (truth_rows (length vs)) (ground arith)
              (truth_rows-length (length vs)) (λ all v. every-Agree left right aliases v all) in
          (r, (rw few e, good))
    ]
