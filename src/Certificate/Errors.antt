-- ===== src/Certificate/Errors.antt =====
-- The errors of src/opencollate/sequential_certificate.py: its own messages, and those of the parts
-- that it calls.
use open_collate.Common.{◌≡◌, ap, Result, ok, err, ok-injective}
use open_collate.Kernel.Meter.{ProofError}
use open_collate.Ir.Circuit.{SequentialError}
use open_collate.Spec.Json.{RequestError}

pub data CertificateError : Type 0 where
  in_request : RequestError → CertificateError
  in_circuit : SequentialError → CertificateError
  in_kernel : ProofError → CertificateError
  bad_witness_length short_witness bad_witness_frame other_inventory bad_witness_value :
      CertificateError
  violates_assumptions violates_reset violates_transition violates_equation inactive_guard :
      CertificateError
  other_obligation bad_version unsupported_encoding other_digest other_binding missing_claims
        other_identity :
      CertificateError
  no_evidence bad_producer_output long_line unterminated_clause bad_producer_literal not_a_number :
      CertificateError

module _ {ℓ} {A : Type ℓ} where
  abbrev pub of_request : Result RequestError A → Result CertificateError A
  of_request (ok a) = ok a
  of_request (err e) = err (in_request e)

  pub of_request-ok : (r : Result _ A) {a : A} → of_request r ≡ ok a → r ≡ ok a
  of_request-ok (ok b) h = ap ok (ok-injective h)
  of_request-ok (err e) h = cc

  abbrev pub of_circuit : Result SequentialError A → Result CertificateError A
  of_circuit (ok a) = ok a
  of_circuit (err e) = err (in_circuit e)

  pub of_circuit-ok : (r : Result _ A) {a : A} → of_circuit r ≡ ok a → r ≡ ok a
  of_circuit-ok (ok b) h = ap ok (ok-injective h)
  of_circuit-ok (err e) h = cc

  abbrev pub of_kernel : Result ProofError A → Result CertificateError A
  of_kernel (ok a) = ok a
  of_kernel (err e) = err (in_kernel e)

  pub of_kernel-ok : (r : Result _ A) {a : A} → of_kernel r ≡ ok a → r ≡ ok a
  of_kernel-ok (ok b) h = ap ok (ok-injective h)
  of_kernel-ok (err e) h = cc
