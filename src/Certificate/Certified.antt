-- ===== src/Certificate/Certified.antt =====
-- What `verify_certificate` (src/opencollate/sequential_certificate.py) has verified where it returns.
use Prim.Native.String.{String}
use mathlib.Core.Path.{subst}
use open_collate.Common.{
  ℕ, ◌≡◌, ◌≤◌, refl, ℤ, pos, negsuc, true, not, ◌||◌, List, [], ◌∷◌, Result, ok, err, length,
  if◌then◌else◌, name_eq, All, after-ok, ok-injective,
}
use open_collate.Kernel.Meter.{Meter, remaining}
use open_collate.Kernel.Clause.{int}
use open_collate.Kernel.Verify.{rows, Stats, verify_rup}
use open_collate.Kernel.Meaning.{Assignment, clause_true}
use open_collate.Kernel.Soundness.{verify_rup_sound}
use open_collate.Cnf.Refuted.{raw_clauses, All-raw_clauses}
use open_collate.Ir.Builder.{Circuit}
use open_collate.Spec.Json.{Json, object, obj}
use open_collate.Spec.Request.{Property, Spec}
use open_collate.Spec.Normalize.{read}
use open_collate.Spec.Bounds.{integer-bounds}
use open_collate.Certificate.Errors.{
  CertificateError, other_obligation, other_identity, bad_version, unsupported_encoding,
  other_digest, other_binding, of_request, of_kernel, of_request-ok, of_kernel-ok,
}
use open_collate.Certificate.Cover.{is_number, check_cover, max_k}
use open_collate.Certificate.Execution.{IsWitness, check_cover-IsWitness}
use open_collate.Certificate.Verify.{
  is_text, problem_json, raw_rows_of, induction_depth, without, ClaimResult, check_evidence,
  verify_claim, verify_claims, claim_list, verify_certificate,
}
use open_collate.Unroll.Frames.{Frames}
use open_collate.Unroll.Problems.{Problem, base_problem, step_problem}

-- No assignment makes all clauses of the problem true.
abbrev pub IsRefuted : Problem → Type 0
IsRefuted problem = (σ : Assignment) → ¬ All (λ c. clause_true σ c ≡ true) problem.1

induction_depth-bounds :
    (j : Json) (hi : ℤ) {k : ℕ}
    → induction_depth j hi ≡ ok k
    → (n : ℕ) × ((hi ≡ pos n) × ((1 ≤ k) × (k ≤ n)))
unfolding induction_depth
induction_depth-bounds j (pos n) h =
    (n, (refl, integer-bounds j 1 n "certificate induction depth" h))
induction_depth-bounds j (negsuc n) h = cc

module _ (digest : Json → String) where
  check_evidence-IsRefuted :
      (problem : Problem) (value : Json) (m : Meter) {r : Stats × Meter}
      → check_evidence digest problem value m ≡ ok r
      → IsRefuted problem
  unfolding check_evidence
  check_evidence-IsRefuted problem value m h σ all =
      after-ok
        (of_request (obj value ("problem_sha256" ∷ "variables" ∷ "clauses" ∷ "proof" ∷ []) [])) h
        λ row _ h. after-ok (of_request (read "variables" row)) h λ variables _ h.
          after-ok (of_request (read "clauses" row)) h λ clauses _ h.
            after-ok (of_request (read "problem_sha256" row)) h λ sha _ h.
              after-ok (of_request (read "proof" row)) h λ proof _ h.
                after-ok
                  (if not (is_number variables problem.0)
                      || (not (is_number clauses (length problem.1))
                          || not (is_text sha (digest (problem_json problem))))
                    then err other_obligation
                    else ok row)
                  h
                  λ _ _ h.
                    verify_rup_sound (rows (raw_clauses problem.1)) (int (pos problem.0))
                      (raw_rows_of proof) m
                      (of_kernel-ok
                        (verify_rup (rows (raw_clauses problem.1)) (int (pos problem.0))
                          (raw_rows_of proof) m)
                        h)
                      σ (All-raw_clauses σ problem.1 all)

  module _ {ℓ} {P : Type ℓ} (c : Circuit) (spec : Spec P) where
    -- What a claim on a property comes to.
    pub record IsCertified (p : Property) (r : ClaimResult) : Type ℓ where
      pub same_id : r.id ≡ p.id
      -- the guard is met at the end of an execution
      pub witness : IsWitness c spec p r.cover_cycle
      -- the problem of the cycles up to the depth, built with some meter, has no solution
      pub base_meter : Meter
      pub base_rest : (Frames × (Problem × Problem)) × Meter
      pub base_built : base_problem c spec p base_meter ≡ ok base_rest
      pub base_refuted : IsRefuted base_rest.0.1.0
      -- nor has that of the induction step, for a depth of induction within the limit
      pub limit : ℕ
      pub limit_is : max_k c spec p ≡ pos limit
      pub some_depth : 1 ≤ r.induction_depth
      pub allowed : r.induction_depth ≤ limit
      pub step_meter : Meter
      pub step_rest : Problem × Meter
      pub step_built : step_problem c spec p r.induction_depth step_meter ≡ ok step_rest
      pub step_refuted : IsRefuted step_rest.0

    -- The claims, one for each property in their order.
    pub data AreCertified : List Property → List ClaimResult → Type ℓ where
      no_claims : AreCertified [] []
      one_claim :
          {p : Property} {ps : List Property} {r : ClaimResult} {rs : List ClaimResult}
          → IsCertified p r
          → AreCertified ps rs
          → AreCertified (p ∷ ps) (r ∷ rs)

    verify_claim-IsCertified :
        (p : Property) (raw : Json) (m : Meter) {r : ClaimResult × Meter}
        → verify_claim digest c spec p raw m ≡ ok r
        → IsCertified p r.0
    unfolding verify_claim
    verify_claim-IsCertified p raw m h =
        after-ok
          (of_request (obj raw ("id" ∷ "induction_depth" ∷ "cover" ∷ "base" ∷ "step" ∷ []) [])) h
          λ row _ h. after-ok (of_request (read "id" row)) h λ identity _ h.
            after-ok (if not (is_text identity p.id) then err other_identity else ok row) h λ _ _ h.
              after-ok (of_request (read "induction_depth" row)) h λ depth _ h.
                after-ok (of_request (induction_depth depth (max_k c spec p))) h λ k deep h.
                  after-ok (of_request (read "cover" row)) h λ cover _ h.
                    after-ok (check_cover c spec p cover m) h λ (cycle, m1) covered h.
                      after-ok (of_kernel (base_problem c spec p m1)) h
                        λ ((frames, (base, other)), m2) built h.
                          after-ok (of_request (read "base" row)) h λ base_row _ h.
                            after-ok (check_evidence digest base base_row m2) h
                              λ (base_stats, m3) refuted h.
                                after-ok (of_kernel (step_problem c spec p k m3)) h
                                  λ (step, m4) step_built h.
                                    after-ok (of_request (read "step" row)) h λ step_row _ h.
                                      after-ok (check_evidence digest step step_row m4) h
                                        λ (step_stats, m5) step_refuted h.
                                          let (n, (limit_is, (some_depth, allowed))) =
                                            induction_depth-bounds depth (max_k c spec p) (
                                              of_request-ok (induction_depth depth (max_k c spec p))
                                                deep) in
                                          subst (λ (r : ClaimResult × Meter). IsCertified p r.0)
                                            (ok-injective h)
                                            (record {
                                              same_id = refl;
                                              witness =
                                                  check_cover-IsWitness c spec p cover m covered;
                                              base_meter = m1;
                                              base_rest = ((frames, (base, other)), m2);
                                              base_built =
                                                  of_kernel-ok (base_problem c spec p m1) built;
                                              base_refuted =
                                                  check_evidence-IsRefuted base base_row m2 refuted;
                                              limit = n;
                                              limit_is = limit_is;
                                              some_depth = some_depth;
                                              allowed = allowed;
                                              step_meter = m3;
                                              step_rest = (step, m4);
                                              step_built =
                                                  of_kernel-ok (step_problem c spec p k m3)
                                                    step_built;
                                              step_refuted =
                                                  check_evidence-IsRefuted step step_row m4
                                                    step_refuted;
                                            })

    verify_claims-AreCertified :
        (ps : List Property) (raws : List Json) (m : Meter) {r : List ClaimResult × Meter}
        → verify_claims digest c spec ps raws m ≡ ok r
        → AreCertified ps r.0
    unfolding verify_claims
    verify_claims-AreCertified [] [] m h =
        subst (λ (r : List ClaimResult × Meter). AreCertified [] r.0) (ok-injective h) no_claims
    verify_claims-AreCertified [] (raw ∷ raws) m h = cc
    verify_claims-AreCertified (p ∷ ps) [] m h = cc
    verify_claims-AreCertified (p ∷ ps) (raw ∷ raws) m h =
        after-ok (verify_claim digest c spec p raw m) h λ (result, m1) one h.
          after-ok (verify_claims digest c spec ps raws m1) h λ (results, m2) others h.
            subst (λ (r : List ClaimResult × Meter). AreCertified (p ∷ ps) r.0) (ok-injective h)
              (one_claim (verify_claim-IsCertified p raw m one)
                (verify_claims-AreCertified ps raws m1 others))

-- Where `verify_certificate` returns, each property of the request that was loaded has its claim, in
-- order: an execution of the circuit ends with the property's guard met, and neither the problem of
-- the cycles up to the depth nor that of an induction step of an admitted depth has a solution.
pub verify_certificate-AreCertified {ℓ} :
    {P : Type ℓ} (digest : Json → String) (load : Json → Result CertificateError (Circuit × Spec P))
    (binding : Circuit → Spec P → Json) (request certificate : Json) (m : Meter)
    {r : (Circuit × Spec P) × List ClaimResult}
    → verify_certificate digest load binding request certificate m ≡ ok r
    → (load request ≡ ok r.0) × AreCertified digest r.0.0 r.0.1 r.0.1.properties r.1
unfolding verify_certificate
verify_certificate-AreCertified digest load binding request certificate m h =
    after-ok
      (of_request (
        obj certificate
          ("schema_version" ∷ "semantics" ∷ "encoding" ∷ "binding" ∷ "claims" ∷ "certificate_sha256"
            ∷ [])
          []))
      h
      λ doc _ h. after-ok (of_request (read "schema_version" doc)) h λ version _ h.
        after-ok (if not (is_number version 1) then err bad_version else ok doc) h λ _ _ h.
          after-ok (of_request (read "semantics" doc)) h λ semantics _ h.
            after-ok (of_request (read "encoding" doc)) h λ encoding _ h.
              after-ok
                (if not (is_text semantics "two-valued-synchronous")
                    || not (is_text encoding "opencollate-bitblast-rup-v1")
                  then err unsupported_encoding
                  else ok doc)
                h
                λ _ _ h. after-ok (of_request (read "certificate_sha256" doc)) h λ sha _ h.
                  after-ok
                    (if not (is_text sha (digest (object (without "certificate_sha256" doc))))
                      then err other_digest
                      else ok doc)
                    h
                    λ _ _ h. after-ok (load request) h λ (c, spec) loaded h.
                      after-ok (of_request (read "binding" doc)) h λ bound _ h.
                        after-ok
                          (if not (name_eq (digest bound) (digest (binding c spec)))
                            then err other_binding
                            else ok doc)
                          h
                          λ _ _ h. after-ok (of_request (read "claims" doc)) h λ claims _ h.
                            after-ok (claim_list digest claims spec) h λ raws _ h.
                              after-ok (verify_claims digest c spec spec.properties raws m) h
                                λ (results, m1) verified h.
                                  after-ok (of_kernel (remaining m1)) h λ m2 _ h.
                                    subst
                                      (λ r.
                                        (load request ≡ ok r.0)
                                        × AreCertified digest r.0.0 r.0.1 r.0.1.properties r.1)
                                      (ok-injective h)
                                      (
                                        loaded,
                                        verify_claims-AreCertified digest c spec spec.properties
                                            raws m verified,
                                      )
