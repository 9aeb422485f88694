-- ===== src/Certificate/Producer.antt =====
-- `_proof_rows` of src/opencollate/sequential_certificate.py: the reading of what a proof producer logs.
-- `str.isspace` of a character and `int` of a text are arguments.
use Prim.Native.Char.{Char}
use Prim.Native.String.{String, count}
use mathlib.Core.Path.{subst}
use open_collate.Common.{
  ℕ, suc, ◌+◌, ◌*◌, ◌≡◌, ◌≤◌, refl, ℤ, abs, Bool, true, false, ◌||◌, Option, List, [], ◌∷◌, Result,
  ok, err, ◌>>=◌, or_raise, length, ltb, ◌==◌, if◌then◌else◌, name_eq, All, after-ok, guard-eq-ok,
  ok-injective, arith,
}
use open_collate.Kernel.Meter.{Meter, spend}
use open_collate.Kernel.Clause.{Clause}
use open_collate.Certificate.Errors.{
  CertificateError, no_evidence, bad_producer_output, long_line, unterminated_clause,
  bad_producer_literal, not_a_number, of_kernel,
}

-- A logged line, and the whole log, as far as their types are tested.
pub data Line : Type 0 where
  line : String → Line
  other_line : Line

pub data Log : Type 0 where
  log : List Line → Log
  other_log : Log

abbrev add_word : String → List String → List String
add_word String.[] words = words
add_word (String.◌∷◌ c w) words = (String.◌∷◌ c w) ∷ words

-- The word that a text starts with, and the other words.
unfoldable pub first_word : (Char → Bool) → String → String × List String
first_word is_space String.[] = (String.[], [])
first_word is_space (String.◌∷◌ c s) =
    let (w, words) = first_word is_space s in
    if is_space c then (String.[], add_word w words) else (String.◌∷◌ c w, words)

-- `line.split()`
abbrev pub split_words : String × List String → List String
split_words (w, words) = add_word w words

-- `parts[0] == "d"`, where there is one, and the parts after it
abbrev pub deletion_of : List String → Bool × List String
deletion_of [] = (false, [])
deletion_of (p ∷ parts) = if name_eq p "d" then (true, parts) else (false, p ∷ parts)

-- `[int(p) for p in parts[:-1]]`, where the last part is "0"
unfoldable pub read_literals : (String → Option ℤ) → List String → Result CertificateError Clause
read_literals int_of [] = err unterminated_clause
read_literals int_of (p ∷ []) = if name_eq p "0" then ok [] else err unterminated_clause
read_literals int_of (p ∷ (q ∷ parts)) = do
  rest ← read_literals int_of (q ∷ parts)
  l ← or_raise not_a_number (int_of p)
  ok (l ∷ rest)

-- `any(lit == 0 or abs(lit) > variables for lit in clause)`
abbrev pub has_bad_literal : ℕ → Clause → Bool
has_bad_literal variables [] = false
has_bad_literal variables (l ∷ ls) =
    (abs l == 0 || ltb variables (abs l)) || has_bad_literal variables ls

module _ (is_space : Char → Bool) (int_of : String → Option ℤ) (variables : ℕ) where
  -- `for line in lines`, from the literals counted so far
  unfoldable pub read_lines : ℕ → List Line → Meter → Result CertificateError (List Clause × Meter)
  unfolding spend first_word read_literals
  read_lines counted [] m = ok ([], m)
  read_lines counted (other_line ∷ lines) m = err bad_producer_output
  read_lines counted (line s ∷ lines) m = do
    m1 ← of_kernel (spend (count s + 1) m)
    _ ← if ltb (8 * 1_048_576) (count s) then err long_line else ok m1
    let parts = deletion_of (split_words (first_word is_space s))
    clause ← read_literals int_of parts.1
    _ ←
        if ltb m1.limits.literals (counted + length clause) || has_bad_literal variables clause
        then err bad_producer_literal
        else ok clause
    (rows, m2) ← read_lines (counted + length clause) lines m1
    ok (if parts.0 then rows else clause ∷ rows, m2)

  -- `if not result or result[-1] != []: result.append([])`
  abbrev pub with_empty : List Clause → List Clause
  with_empty [] = [] ∷ []
  with_empty ([] ∷ []) = [] ∷ []
  with_empty ((l ∷ ls) ∷ []) = (l ∷ ls) ∷ [] ∷ []
  with_empty (c ∷ (d ∷ rows)) = c ∷ with_empty (d ∷ rows)

  unfoldable pub proof_rows : Log → Meter → Result CertificateError (List Clause × Meter)
  unfolding read_lines
  proof_rows other_log m = err no_evidence
  proof_rows (log lines) m =
      if ltb m.limits.steps (length lines)
      then err no_evidence
      else do (rows, m1) ← read_lines 0 lines m; ok (with_empty rows, m1)

  -- A clause of literals of the problem's variables.
  abbrev pub IsClause : Clause → Type 0
  IsClause c = All (λ l. (1 ≤ abs l) × (abs l ≤ variables)) c

  abbrev pub ends_empty : List Clause → Bool
  ends_empty [] = false
  ends_empty ([] ∷ []) = true
  ends_empty ((l ∷ ls) ∷ []) = false
  ends_empty (c ∷ (d ∷ rows)) = ends_empty (d ∷ rows)

  has_bad_literal-IsClause : (c : Clause) → has_bad_literal variables c ≡ false → IsClause c
  has_bad_literal-IsClause [] h = tt
  has_bad_literal-IsClause (l ∷ ls) h =
      ((ground arith, ground arith), has_bad_literal-IsClause ls (ground arith))

  read_lines-All :
      (counted : ℕ) (lines : List Line) (m : Meter) {r : List Clause × Meter}
      → read_lines counted lines m ≡ ok r
      → All IsClause r.0 × (length r.0 ≤ length lines)
  unfolding read_lines
  read_lines-All counted [] m h =
      subst (λ (r : List Clause × Meter). All IsClause r.0 × (length r.0 ≤ 0)) (ok-injective h)
        (tt, omega arith)
  read_lines-All counted (other_line ∷ lines) m h = cc
  read_lines-All counted (line s ∷ lines) m h =
      let parts = deletion_of (split_words (first_word is_space s)) in
      after-ok (of_kernel (spend (count s + 1) m)) h λ m1 _ h.
        after-ok (if ltb (8 * 1_048_576) (count s) then err long_line else ok m1) h λ _ _ h.
          after-ok (read_literals int_of parts.1) h λ clause _ h.
            after-ok
              (if ltb m1.limits.literals (counted + length clause)
                  || has_bad_literal variables clause
                then err bad_producer_literal
                else ok clause)
              h
              λ _ passed h.
                after-ok (read_lines (counted + length clause) lines m1) h λ (rows, m2) others h.
                  let (all, few) = read_lines-All (counted + length clause) lines m1 others in
                  let (fine, _) =
                    guard-eq-ok
                      (ltb m1.limits.literals (counted + length clause)
                        || has_bad_literal variables clause)
                      _ _ passed in
                  let good = has_bad_literal-IsClause clause (ground arith) in
                  subst
                    (λ (r : List Clause × Meter).
                      All IsClause r.0 × (length r.0 ≤ suc (length lines)))
                    (ok-injective h) (kept parts.0 clause rows good all few)
    where
      kept :
          (b : Bool) (clause : Clause) (rows : List Clause)
          → IsClause clause
          → All IsClause rows
          → length rows ≤ length lines
          → All IsClause (if b then rows else clause ∷ rows)
            × (length (if b then rows else clause ∷ rows) ≤ suc (length lines))
      kept true clause rows good all few = (all, omega arith)
      kept false clause rows good all few = ((good, all), omega arith)

  ends-cons :
      (c : Clause) (rows : List Clause) → ends_empty rows ≡ true → ends_empty (c ∷ rows) ≡ true
  ends-cons c [] h = cc
  ends-cons [] (d ∷ rows) h = h
  ends-cons (l ∷ ls) (d ∷ rows) h = h

  with_empty-good :
      (rows : List Clause)
      → All IsClause rows
      → All IsClause (with_empty rows)
        × ((ends_empty (with_empty rows) ≡ true) × (length (with_empty rows) ≤ length rows + 1))
  with_empty-good [] h = ((tt, tt), (refl, omega arith))
  with_empty-good ([] ∷ []) h = ((tt, tt), (refl, omega arith))
  with_empty-good ((l ∷ ls) ∷ []) (h, _) = ((h, (tt, tt)), (refl, omega arith))
  with_empty-good (c ∷ (d ∷ rows)) (h, hs) =
      let (all, (ends, few)) = with_empty-good (d ∷ rows) hs in
      ((h, all), (ends-cons c (with_empty (d ∷ rows)) ends, omega (arith, few)))

  -- Where `_proof_rows` returns, every literal of a row is a literal of one of the variables, the last row is
  -- the empty clause, and there is at most one row more than the log may have lines.
  pub proof_rows-bounds :
      (produced : Log) (m : Meter) {r : List Clause × Meter}
      → proof_rows produced m ≡ ok r
      → All IsClause r.0 × ((ends_empty r.0 ≡ true) × (length r.0 ≤ m.limits.steps + 1))
  unfolding proof_rows
  proof_rows-bounds other_log m h = cc
  proof_rows-bounds (log lines) m h =
      let (short, h) = guard-eq-ok (ltb m.limits.steps (length lines)) _ _ h in
      after-ok (read_lines 0 lines m) h λ (rows, m1) read h.
        let (all, few) = read_lines-All 0 lines m read in
        let (good, (ends, longer)) = with_empty-good rows all in
        subst
          (λ (r : List Clause × Meter).
            All IsClause r.0 × ((ends_empty r.0 ≡ true) × (length r.0 ≤ m.limits.steps + 1)))
          (ok-injective h) (good, (ends, ground arith))
