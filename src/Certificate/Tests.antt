-- ===== src/Certificate/Tests.antt =====
-- The verification of a certificate of a small circuit, and its theorems there.
use Prim.Native.String.{String}
use Prim.Native.Char.{Char, code}
use open_collate.Common.{
  ℕ, ◌≡◌, refl, pos, false, none, List, [], ◌∷◌, Result, ok, err, returned_value, ℤ, Option, Bool,
  true, some, negsuc, ◌≤◌, ◌==◌, length, name_eq, if◌then◌else◌, All, arith, Dict, lookup,
  lookup-has_key, Option-cases, inl, inr,
}
use open_collate.Kernel.Meter.{Meter, default_limits}
use open_collate.Cnf.State as Cnf
use open_collate.Cnf.Words.{problem}
use open_collate.Ir.Circuit.{ref, name}
use open_collate.Ir.Builder.{Circuit, new_circuit, node_of}
use open_collate.Ir.Values.{node_value}
use open_collate.Spec.Json.{
  Json, integral, text, array, object, no_items, item, no_fields, field, null, obj,
}
use open_collate.Spec.Request.{from_source, Property, Spec}
use open_collate.Certificate.Errors.{CertificateError, violates_transition}
use open_collate.Kernel.Clause.{Clause}
use open_collate.Spec.Bounds.{IsProperty}
use open_collate.Spec.Holds.{validate_signals}
use open_collate.Spec.Returns.{IsComplete, Returns, validate_signals-Returns}
use open_collate.Certificate.Producer.{
  line, log, proof_rows, IsClause, ends_empty, proof_rows-bounds,
}
use open_collate.Certificate.Cover.{check_cover}
use open_collate.Certificate.Execution.{IsWitness, check_cover-IsWitness}
use open_collate.Certificate.Verify.{ClaimResult, verify_certificate}
use open_collate.Certificate.Certified.{AreCertified, verify_certificate-AreCertified}

abbrev meter : Meter
meter = record {
  limits = default_limits;
  clock = λ n. n;
  readings = 1;
  deadline = 30_000;
  work = 0;
  next_clock_check = 0;
}

-- A register that takes its input.
abbrev delay : Circuit
delay = record (new_circuit "top" "clk") {
  nodes = node_of ref 1 false [] (name "a") ∷ [];
  signals = ("clk", (1, false)) ∷ ("a", (1, false)) ∷ ("q", (1, false)) ∷ [];
  inputs = "a" ∷ [];
  next_state = ("q", 0) ∷ [];
}

abbrev follows : Property
follows = record {
  id = "q follows a";
  sink = "q";
  latency = 1;
  expected = from_source "a";
  when = [];
  start_cycle = 1;
}

abbrev request : Spec ℕ
request = record {
  files = "top.sv" ∷ [];
  top = "top";
  clock = "clk";
  reset = none;
  assumptions = [];
  depth = 2;
  induction = 1;
  properties = follows ∷ [];
  preprocess = none;
}

abbrev row : ℕ → ℕ → ℕ → Json
row t a q = object (
    field "cycle" (integral (pos t)) (
      field "values"
        (object (field "a" (integral (pos a)) (field "q" (integral (pos q)) no_fields))) no_fields))

abbrev cover : Json
cover = array (item (row 0 1 0) (item (row 1 0 1) no_items))

abbrev seen : (r : ℕ × Meter) × (check_cover delay request follows cover meter ≡ ok r)
unfolding check_cover node_value obj
seen = returned_value (check_cover delay request follows cover meter) refl

check_cover-IsWitness_example : IsWitness delay request follows seen.0.0
check_cover-IsWitness_example = check_cover-IsWitness delay request follows cover meter seen.1

-- A register that does not move as the circuit says.
stuck :
    check_cover delay request follows (array (item (row 0 1 0) (item (row 1 0 0) no_items))) meter
    ≡ err violates_transition
unfolding check_cover node_value obj
stuck = refl

-- A digest that is the same for all values.
abbrev digest : Json → String
digest value = "0"

abbrev load : Json → Result CertificateError (Circuit × Spec ℕ)
load value = ok (delay, request)

abbrev binding : Circuit → Spec ℕ → Json
binding c spec = null

abbrev evidence : ℕ → ℕ → Json
evidence variables clauses = object (
    field "problem_sha256" (text "0") (
      field "variables" (integral (pos variables)) (
        field "clauses" (integral (pos clauses))
          (field "proof" (array (item (array no_items) no_items)) no_fields))))

abbrev claim : Json
claim = object (
    field "id" (text "q follows a") (
      field "induction_depth" (integral (pos 1)) (
        field "cover" cover (field "base" (evidence 5 2) (field "step" (evidence 5 2) no_fields)))))

abbrev certificate : Json
certificate = object (
    field "schema_version" (integral (pos 1)) (
      field "semantics" (text "two-valued-synchronous") (
        field "encoding" (text "opencollate-bitblast-rup-v1") (
          field "binding" null (
            field "claims" (array (item claim no_items))
              (field "certificate_sha256" (text "0") no_fields))))))

abbrev verified :
    (r : (Circuit × Spec ℕ) × List ClaimResult) × (verify_certificate digest load binding null
        certificate meter
      ≡ ok r)
unfolding verify_certificate node_value obj problem Cnf.◌>>=◌
verified = returned_value (verify_certificate digest load binding null certificate meter) refl

verify_certificate-AreCertified_example :
    (load null ≡ ok verified.0.0)
    × AreCertified digest verified.0.0.0 verified.0.0.1 verified.0.0.1.properties verified.0.1
verify_certificate-AreCertified_example =
    verify_certificate-AreCertified digest load binding null certificate meter verified.1

abbrev blank : Char → Bool
blank c = code c == 32

-- The literals of a log that is read here.
abbrev small_int : String → Option ℤ
small_int s =
    if name_eq s "2" then some (pos 2) else if name_eq s "-1" then some (negsuc 0) else none

abbrev logged :
    (r : List Clause × Meter) × (proof_rows blank small_int 2
        (log (line "2 -1 0" ∷ line "d 2 0" ∷ []))
        meter
      ≡ ok r)
unfolding proof_rows
logged =
    returned_value (proof_rows blank small_int 2 (log (line "2 -1 0" ∷ line "d 2 0" ∷ [])) meter)
      refl

proof_rows-bounds_example :
    All (IsClause blank small_int 2) logged.0.0
    × ((ends_empty blank small_int 2 logged.0.0 ≡ true) × (length logged.0.0 ≤ 100_001))
proof_rows-bounds_example =
    proof_rows-bounds blank small_int 2 (log (line "2 -1 0" ∷ line "d 2 0" ∷ [])) meter logged.1

valid : validate_signals delay request ≡ ok tt
unfolding validate_signals
valid = refl

follows-IsProperty : IsProperty follows
follows-IsProperty = record {
  latency_small = ground arith;
  latency_low = ground arith;
  start_small = ground arith;
  guards_few = ground arith;
  guards_good = tt;
  guards_low = tt;
  side = tt;
}

abbrev delayed : List (Dict ℕ)
delayed = (("a", 1) ∷ ("q", 0) ∷ []) ∷ (("a", 0) ∷ ("q", 1) ∷ []) ∷ []

has_all : (a q : ℕ) → IsComplete delay (("a", a) ∷ ("q", q) ∷ [])
has_all a q n h = elim (Option-cases (lookup n (("a", a) ∷ ("q", q) ∷ []))) [
  | inr found ↦ found
  | inl gone ↦
      let missing = (lookup-has_key n (("a", a) ∷ ("q", q) ∷ [])).1 gone in
      absurd (ground (arith, h, missing))
]

delayed-IsComplete : All (IsComplete delay) delayed
delayed-IsComplete = (has_all 1 0, (has_all 0 1, tt))

validate_signals-Returns_example : Returns follows delayed 1
validate_signals-Returns_example =
    validate_signals-Returns delay request valid 0 refl follows-IsProperty delayed 1
      delayed-IsComplete (ground arith) (ground arith)
