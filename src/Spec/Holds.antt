-- ===== src/Spec/Holds.antt =====
-- `validate_signals` and `holds` of src/opencollate/sequential_spec.py.
use Prim.Native.String.{String}
use open_collate.Common.{
  ℕ, ◌-◌, ◌^◌, Bool, true, false, not, ◌||◌, Option, none, some, List, [], ◌∷◌, ◌++◌, Result, ok,
  err, ◌>>=◌, or_raise, length, get_elem?, leb, ltb, ◌==◌, if◌then◌else◌, Dict, keys, lookup,
  has_key, is_in, name_eq,
}
use open_collate.Ir.Builder.{Circuit}
use open_collate.Spec.Json.{
  RequestError, undriven_signal, wide_value, assumed_state, bad_reset, assumed_reset,
  unequal_widths, short_depth, key_error, index_error,
}
use open_collate.Spec.Request.{Reset, Guard, Expected, from_source, constant, Property, Spec}

-- `set(c.inputs) | set(c.next_state) | set(c.combinational)`
abbrev pub driven : Circuit → List String
driven c = c.inputs ++ (keys c.next_state ++ keys c.combinational)

-- `value is not None and value >= (1 << width)`
abbrev is_wide : ℕ → Option ℕ → Bool
is_wide width none = false
is_wide width (some value) = leb (2 ^ width) value

-- The inner function `signal`.
unfoldable pub signal : Circuit → String → Option ℕ → Result RequestError ℕ
signal c n value = if name_eq n c.clock || not (is_in n (driven c)) then err undriven_signal else do
  (width, _) ← or_raise key_error (lookup n c.signals)
  if is_wide width value then err wide_value else ok width

unfoldable pub check_assumptions : Circuit → Dict ℕ → Result {0, 0} RequestError Unit
unfolding signal
check_assumptions c [] = ok tt
check_assumptions c ((n, v) ∷ rest) =
    if not (is_in n c.inputs)
    then err assumed_state
    else do _ ← signal c n (some v); check_assumptions c rest

unfoldable pub check_reset : Circuit → Dict ℕ → Option Reset → Result {0, 0} RequestError Unit
unfolding signal
check_reset c assumptions none = ok tt
check_reset c assumptions (some r) = if not (is_in r.signal c.inputs) then err bad_reset else do
  width ← signal c r.signal none
  if not (width == 1)
      then err bad_reset
      else if has_key r.signal assumptions
      then err assumed_reset
      else ok tt

unfoldable pub check_guards : Circuit → List Guard → Result {0, 0} RequestError Unit
unfolding signal
check_guards c [] = ok tt
check_guards c (g ∷ guards) = do _ ← signal c g.signal (some g.equals); check_guards c guards

abbrev pub constant_of : Expected → Option ℕ
constant_of (from_source s) = none
constant_of (constant v) = some v

unfoldable pub check_source : Circuit → ℕ → Expected → Result {0, 0} RequestError Unit
unfolding signal
check_source c width (constant v) = ok tt
check_source c width (from_source s) = do
  other ← signal c s none
  if other == width then ok tt else err unequal_widths

unfoldable pub check_properties : Circuit → ℕ → List Property → Result {0, 0} RequestError Unit
unfolding signal check_source check_guards
check_properties c depth [] = ok tt
check_properties c depth (p ∷ properties) = do
  width ← signal c p.sink (constant_of p.expected)
  _ ← check_source c width p.expected
  _ ← check_guards c p.when
  if ltb depth p.start_cycle then err short_depth else check_properties c depth properties

unfoldable pub validate_signals {ℓ} :
    {P : Type ℓ} → Circuit → Spec P → Result {0, 0} RequestError Unit
unfolding check_assumptions check_reset check_properties
validate_signals c spec = do
  _ ← check_assumptions c spec.assumptions
  _ ← check_reset c spec.assumptions spec.reset
  check_properties c spec.depth spec.properties

-- `frames[cycle - lag]`; an index below 0 counts from the end.
unfoldable pub frame_at : List (Dict ℕ) → ℕ → ℕ → Option (Dict ℕ)
frame_at frames cycle lag =
    if leb lag cycle
    then get_elem? frames (cycle - lag)
    else if leb (lag - cycle) (length frames)
    then get_elem? frames (length frames - (lag - cycle))
    else none

-- `frames[cycle - lag][name]`
unfoldable pub value_at : List (Dict ℕ) → ℕ → ℕ → String → Result RequestError ℕ
unfolding frame_at
value_at frames cycle lag name = do
  frame ← or_raise index_error (frame_at frames cycle lag)
  or_raise key_error (lookup name frame)

-- `all(...)`, which stops at the first guard that is not met
unfoldable pub all_enabled : List (Dict ℕ) → ℕ → List Guard → Result RequestError Bool
unfolding value_at
all_enabled frames cycle [] = ok true
all_enabled frames cycle (g ∷ guards) = do
  v ← value_at frames cycle g.lag g.signal
  if v == g.equals then all_enabled frames cycle guards else ok false

unfoldable pub expected_value : Property → List (Dict ℕ) → ℕ → Expected → Result RequestError ℕ
unfolding value_at
expected_value p frames cycle (from_source s) = value_at frames cycle p.latency s
expected_value p frames cycle (constant v) = ok v

unfoldable pub holds : Property → List (Dict ℕ) → ℕ → Result RequestError (Bool × Bool)
unfolding all_enabled expected_value
holds p frames cycle = do
  enabled ← all_enabled frames cycle p.when
  expected ← expected_value p frames cycle p.expected
  if not enabled
      then ok (enabled, true)
      else (do v ← value_at frames cycle 0 p.sink; ok (enabled, v == expected))
