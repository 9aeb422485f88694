-- ===== src/Certificate/Cover.antt =====
-- `_check_cover` and `_max_k` of src/opencollate/sequential_certificate.py.
use Prim.Native.String.{String}
use open_collate.Common.{
  ℕ, ◌+◌, ◌-◌, ◌^◌, ℤ, pos, negsuc, Bool, true, false, not, ◌&&◌, Option, none, some, List, [], ◌∷◌,
  Result, ok, err, ◌>>=◌, or_raise, length, leb, ltb, ◌==◌, eqz, if◌then◌else◌, Dict, keys, lookup,
}
use open_collate.Kernel.Meter.{Meter, spend, remaining}
use open_collate.Ir.Builder.{Circuit}
use open_collate.Ir.Simulate.{simulate_frame}
use open_collate.Spec.Json.{
  Json, null, boolean, integral, fractional, text, array, object, to_list, to_dict, key_error,
  none_outside, obj,
}
use open_collate.Spec.Request.{Reset, Property, Spec}
use open_collate.Spec.Normalize.{read, larger, history_of, reset_cycles_of}
use open_collate.Spec.Holds.{driven, holds}
use open_collate.Certificate.Errors.{
  CertificateError, bad_witness_length, short_witness, bad_witness_frame, other_inventory,
  bad_witness_value, violates_assumptions, violates_reset, violates_transition, violates_equation,
  inactive_guard, of_request, of_circuit, of_kernel,
}

-- `type(value) is int and value == t`
abbrev pub is_number : Json → ℕ → Bool
is_number (integral n) t = eqz n (pos t)
is_number _ t = false

-- `f[n]`
abbrev pub value_of : String → Dict ℕ → Result CertificateError ℕ
value_of n f = of_request (or_raise key_error (lookup n f))

-- The bound on a value of `width` bits.
abbrev pub bits_of : ℕ → Json → Result CertificateError ℕ
bits_of width (integral (pos v)) = if ltb v (2 ^ width) then ok v else err bad_witness_value
bits_of width (integral (negsuc v)) = err bad_witness_value
bits_of width null = err bad_witness_value
bits_of width (boolean b) = err bad_witness_value
bits_of width (fractional s) = err bad_witness_value
bits_of width (text s) = err bad_witness_value
bits_of width (array xs) = err bad_witness_value
bits_of width (object d) = err bad_witness_value

-- `for name, val in f.items()`: the values as numbers, and the meter after them
unfoldable pub read_values : Circuit → Dict Json → Meter → Result CertificateError (Dict ℕ × Meter)
unfolding spend
read_values c [] m = ok ([], m)
read_values c ((name, val) ∷ f) m = do
  m1 ← of_kernel (spend 1 m)
  (width, _) ← of_request (or_raise key_error (lookup name c.signals))
  v ← bits_of width val
  (values, m2) ← read_values c f m1
  ok ((name, v) ∷ values, m2)

-- `not any(f[n] != v for n, v in expected.items())`
unfoldable pub all_equal : Dict ℕ → Dict ℕ → Result CertificateError Bool
all_equal [] f = ok true
all_equal ((n, v) ∷ expected) f = do
  w ← value_of n f
  if w == v then all_equal expected f else ok false

-- The value that the reset signal has in cycle `t`.
abbrev pub reset_value : Reset → ℕ → ℕ
reset_value r t = if ltb t r.cycles then r.active else 1 - r.active

unfoldable pub check_reset : Option Reset → ℕ → Dict ℕ → Result {0, 0} CertificateError Unit
check_reset none t f = ok tt
check_reset (some r) t f = do
  v ← value_of r.signal f
  if v == reset_value r t then ok tt else err violates_reset

-- `updated is not None and any(...)`
unfoldable pub check_transition : Option (Dict ℕ) → Dict ℕ → Result {0, 0} CertificateError Unit
unfolding all_equal
check_transition none f = ok tt
check_transition (some updated) f = do
  same ← all_equal updated f
  if same then ok tt else err violates_transition

-- `{n: f[n] for n in names}`
unfoldable pub restrict : List String → Dict ℕ → Result CertificateError (Dict ℕ)
restrict [] f = ok []
restrict (n ∷ names) f = do v ← value_of n f; rest ← restrict names f; ok ((n, v) ∷ rest)

-- Every entry of the first dict is in the second.
abbrev pub has_value : ℕ → Option ℕ → Bool
has_value v none = false
has_value v (some w) = v == w

unfoldable pub covers : Dict ℕ → Dict ℕ → Bool
covers [] d = true
covers ((n, v) ∷ first) d = has_value v (lookup n d) && covers first d

-- `observed == f`, on dicts
abbrev pub same_dict : Dict ℕ → Dict ℕ → Bool
same_dict a b = covers a b && covers b a

-- The equations of a frame; the values after the next edge.
unfoldable pub check_equations : Circuit → Dict ℕ → Result CertificateError (Dict ℕ)
unfolding restrict covers simulate_frame
check_equations c f = do
  states ← restrict (keys c.next_state) f
  inputs ← restrict c.inputs f
  (observed, updated) ← of_circuit (simulate_frame c states inputs)
  if same_dict observed f then ok updated else err violates_equation

abbrev pub fields_of : Json → Result CertificateError (Dict Json)
fields_of (object d) = ok (to_dict d)
fields_of _ = err bad_witness_frame

module _ {ℓ} {P : Type ℓ} (c : Circuit) (spec : Spec P) where
  -- The body of the loop over the witness: the frame, the values after its edge, and the meter.
  unfoldable pub check_row :
      ℕ → Json → Option (Dict ℕ) → Meter → Result CertificateError (Dict ℕ × (Dict ℕ × Meter))
  unfolding read_values all_equal check_reset check_transition check_equations
  check_row t raw updated m = do
    row ← of_request (obj raw ("cycle" ∷ "values" ∷ []) [])
    values ← of_request (read "values" row)
    cycle ← of_request (read "cycle" row)
    f ← if not (is_number cycle t) then err bad_witness_frame else fields_of values
    _ ←
        if not (none_outside (keys f) (driven c) && none_outside (driven c) (keys f))
        then err other_inventory
        else ok f
    (frame, m1) ← read_values c f m
    fixed ← all_equal spec.assumptions frame
    _ ← if not fixed then err violates_assumptions else ok frame
    _ ← check_reset spec.reset t frame
    _ ← check_transition updated frame
    m2 ← of_kernel (spend (length c.nodes + 1) m1)
    next ← check_equations c frame
    ok (frame, (next, m2))

  -- `for t, raw in enumerate(value)`, from cycle `t` on
  unfoldable pub check_rows :
      ℕ → List Json → Option (Dict ℕ) → Meter → Result CertificateError (List (Dict ℕ) × Meter)
  unfolding check_row
  check_rows t [] updated m = ok ([], m)
  check_rows t (raw ∷ rest) updated m = do
    (frame, (next, m1)) ← check_row t raw updated m
    (frames, m2) ← check_rows (t + 1) rest (some next) m1
    ok (frame ∷ frames, m2)

  -- `_check_cover`, on the array of the rows
  unfoldable pub check_witness : Property → List Json → Meter → Result CertificateError (ℕ × Meter)
  unfolding check_rows holds remaining
  check_witness prop rows m =
      if not (leb 1 (length rows) && leb (length rows) (spec.depth + 1))
      then err bad_witness_length
      else if ltb (length rows - 1) prop.start_cycle
      then err short_witness
      else (do
        (frames, m1) ← check_rows 0 rows none m
        (enabled, _) ← of_request (holds prop frames (length frames - 1))
        _ ← if not enabled then err inactive_guard else ok frames
        m2 ← of_kernel (remaining m1)
        ok (length frames - 1, m2))

  unfoldable pub check_cover : Property → Json → Meter → Result CertificateError (ℕ × Meter)
  unfolding check_witness
  check_cover prop (array xs) m = check_witness prop (to_list xs) m
  check_cover prop null m = err bad_witness_length
  check_cover prop (boolean b) m = err bad_witness_length
  check_cover prop (integral n) m = err bad_witness_length
  check_cover prop (fractional s) m = err bad_witness_length
  check_cover prop (text s) m = err bad_witness_length
  check_cover prop (object d) m = err bad_witness_length

  -- `_max_k`; an integer, below 0 where the prefix is longer than the depth
  unfoldable pub max_k : Property → ℤ
  max_k prop =
      let history = history_of prop.latency prop.when in
      let prefix = larger prop.start_cycle (reset_cycles_of spec.reset + history) in
      if leb prefix spec.depth
      then pos
          (if ltb spec.induction (spec.depth - prefix) then spec.induction else spec.depth - prefix)
      else negsuc (prefix - spec.depth - 1)
