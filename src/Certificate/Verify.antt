-- ===== src/Certificate/Verify.antt =====
-- `_check_evidence` and `verify_certificate` of src/opencollate/sequential_certificate.py. The digest
-- (SHA-256 of canonical JSON), the loading of the circuit (`load_circuit`, over a third-party frontend)
-- and the encoding of the binding are arguments.
use Prim.Native.String.{String}
use open_collate.Common.{
  ℕ, ℤ, pos, negsuc, Bool, false, not, ◌||◌, List, [], ◌∷◌, Result, ok, err, ◌>>=◌, length, ◌==◌,
  if◌then◌else◌, Dict, name_eq,
}
use open_collate.Kernel.Meter.{Meter, remaining}
use open_collate.Kernel.Clause.{
  Atom, int, other_atom, RawClause, array as raw_array, other_value, Clause,
}
use open_collate.Kernel.Verify.{RawRows, rows, other_rows, Stats, verify_rup}
use open_collate.Cnf.Refuted.{raw_clauses}
use open_collate.Ir.Builder.{Circuit}
use open_collate.Spec.Json.{
  Json, integral, text, array, object, Items, no_items, item, Fields, no_fields, field, to_list,
  bad_integer, RequestError, obj, integer,
}
use open_collate.Spec.Request.{Property, Spec}
use open_collate.Spec.Normalize.{read}
use open_collate.Certificate.Errors.{
  CertificateError, other_obligation, bad_version, unsupported_encoding, other_digest,
  other_binding, missing_claims, other_identity, of_request, of_kernel,
}
use open_collate.Certificate.Cover.{is_number, check_cover, max_k}
use open_collate.Unroll.Problems.{Problem, base_problem, step_problem}

-- `value == s`, for a text
abbrev pub is_text : Json → String → Bool
is_text (text t) s = name_eq t s
is_text _ s = false

abbrev clause_items : Clause → Items
clause_items [] = no_items
clause_items (l ∷ ls) = item (integral l) (clause_items ls)

abbrev clauses_items : List Clause → Items
clauses_items [] = no_items
clauses_items (c ∷ cs) = item (array (clause_items c)) (clauses_items cs)

-- A problem as the dict that is digested.
abbrev pub problem_json : Problem → Json
problem_json (variables, clauses) = object (
    field "variables" (integral (pos variables))
      (field "clauses" (array (clauses_items clauses)) no_fields))

-- What `verify_rup` sees of a JSON value.
abbrev atom_of : Json → Atom
atom_of (integral n) = int n
atom_of _ = other_atom

abbrev atoms_of : Items → List Atom
atoms_of no_items = []
atoms_of (item x xs) = atom_of x ∷ atoms_of xs

abbrev raw_clause_of : Json → RawClause
raw_clause_of (array xs) = raw_array (atoms_of xs)
raw_clause_of _ = other_value

abbrev raw_clauses_of : Items → List RawClause
raw_clauses_of no_items = []
raw_clauses_of (item x xs) = raw_clause_of x ∷ raw_clauses_of xs

abbrev pub raw_rows_of : Json → RawRows
raw_rows_of (array xs) = rows (raw_clauses_of xs)
raw_rows_of _ = other_rows

-- `integer(value, 1, hi, ...)`, where `hi` may be negative
unfoldable pub induction_depth : Json → ℤ → Result RequestError ℕ
unfolding integer
induction_depth value (pos hi) = integer value 1 hi "certificate induction depth"
induction_depth value (negsuc hi) = err (bad_integer "certificate induction depth")

-- `{k: v for k, v in doc.items() if k != name}`
abbrev pub without : String → Dict Json → Fields
without name [] = no_fields
without name ((k, v) ∷ d) =
    let rest = without name d in if name_eq k name then rest else field k v rest

pub record ClaimResult : Type 0 where
  pub id : String
  pub induction_depth : ℕ
  pub cover_cycle : ℕ
  pub base : Stats
  pub step : Stats

module _ (digest : Json → String) where
  unfoldable pub check_evidence : Problem → Json → Meter → Result CertificateError (Stats × Meter)
  unfolding verify_rup
  check_evidence problem value m = do
    row ← of_request (obj value ("problem_sha256" ∷ "variables" ∷ "clauses" ∷ "proof" ∷ []) [])
    variables ← of_request (read "variables" row)
    clauses ← of_request (read "clauses" row)
    sha ← of_request (read "problem_sha256" row)
    proof ← of_request (read "proof" row)
    _ ←
        if not (is_number variables problem.0)
          || (not (is_number clauses (length problem.1))
              || not (is_text sha (digest (problem_json problem))))
        then err other_obligation
        else ok row
    of_kernel
        (verify_rup (rows (raw_clauses problem.1)) (int (pos problem.0)) (raw_rows_of proof) m)

  module _ {ℓ} {P : Type ℓ} where
    -- The body of the loop over the properties.
    unfoldable pub verify_claim :
        Circuit → Spec P → Property → Json → Meter → Result CertificateError (ClaimResult × Meter)
    unfolding check_evidence induction_depth check_cover base_problem step_problem max_k
    verify_claim c spec p raw m = do
      row ← of_request (obj raw ("id" ∷ "induction_depth" ∷ "cover" ∷ "base" ∷ "step" ∷ []) [])
      identity ← of_request (read "id" row)
      _ ← if not (is_text identity p.id) then err other_identity else ok row
      depth ← of_request (read "induction_depth" row)
      k ← of_request (induction_depth depth (max_k c spec p))
      cover ← of_request (read "cover" row)
      (cycle, m1) ← check_cover c spec p cover m
      ((_, (base, _)), m2) ← of_kernel (base_problem c spec p m1)
      base_row ← of_request (read "base" row)
      (base_stats, m3) ← check_evidence base base_row m2
      (step, m4) ← of_kernel (step_problem c spec p k m3)
      step_row ← of_request (read "step" row)
      (step_stats, m5) ← check_evidence step step_row m4
      ok (
        record {
          id = p.id;
          induction_depth = k;
          cover_cycle = cycle;
          base = base_stats;
          step = step_stats;
        },
        m5,
      )

    -- `zip(spec["properties"], claims, strict=True)`
    unfoldable pub verify_claims :
        Circuit
        → Spec P
        → List Property
        → List Json
        → Meter
        → Result CertificateError (List ClaimResult × Meter)
    unfolding verify_claim
    verify_claims c spec [] [] m = ok ([], m)
    verify_claims c spec (p ∷ ps) (raw ∷ raws) m = do
      (result, m1) ← verify_claim c spec p raw m
      (results, m2) ← verify_claims c spec ps raws m1
      ok (result ∷ results, m2)
    verify_claims c spec [] (raw ∷ raws) m = err missing_claims
    verify_claims c spec (p ∷ ps) [] m = err missing_claims

    abbrev pub claim_list : Json → Spec P → Result CertificateError (List Json)
    claim_list (array xs) spec =
        if length (to_list xs) == length spec.properties
        then ok (to_list xs)
        else err missing_claims
    claim_list _ spec = err missing_claims

    module _ (load : Json → Result CertificateError (Circuit × Spec P))
        (binding : Circuit → Spec P → Json) where
      -- What is verified: the circuit and the request, and the results in the order of the properties.
      unfoldable pub verify_certificate :
          Json → Json → Meter → Result CertificateError ((Circuit × Spec P) × List ClaimResult)
      unfolding verify_claims remaining
      verify_certificate request certificate m = do
        doc ← of_request (
            obj certificate
              ("schema_version" ∷ "semantics" ∷ "encoding" ∷ "binding" ∷ "claims"
                ∷ "certificate_sha256" ∷ [])
              [])
        version ← of_request (read "schema_version" doc)
        _ ← if not (is_number version 1) then err bad_version else ok doc
        semantics ← of_request (read "semantics" doc)
        encoding ← of_request (read "encoding" doc)
        _ ←
            if not (is_text semantics "two-valued-synchronous")
              || not (is_text encoding "opencollate-bitblast-rup-v1")
            then err unsupported_encoding
            else ok doc
        sha ← of_request (read "certificate_sha256" doc)
        _ ←
            if not (is_text sha (digest (object (without "certificate_sha256" doc))))
            then err other_digest
            else ok doc
        (c, spec) ← load request
        bound ← of_request (read "binding" doc)
        _ ←
            if not (name_eq (digest bound) (digest (binding c spec)))
            then err other_binding
            else ok doc
        claims ← of_request (read "claims" doc)
        raws ← claim_list claims spec
        (results, m1) ← verify_claims c spec spec.properties raws m
        m2 ← of_kernel (remaining m1)
        ok ((c, spec), results)
