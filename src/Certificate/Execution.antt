-- ===== src/Certificate/Execution.antt =====
-- A witness that `_check_cover` (src/opencollate/sequential_certificate.py) accepts is an execution.
use Prim.Native.String.{String}
use mathlib.Core.Path.{subst}
use mathlib.Core.Option.{some-injective}
use open_collate.Common.{
  ℕ, suc, ◌+◌, ◌-◌, ◌^◌, ◌≡◌, ◌≤◌, ◌<◌, refl, sym, ap, ◌∙◌, inl, inr, pos, negsuc, Bool, true,
  false, not, ◌&&◌, Option, none, some, List, [], ◌∷◌, Result, ok, err, or_raise, length, leb, ltb,
  ◌==◌, if◌then◌else◌, Dict, keys, lookup, name_eq, name_eq_iff, Bool-cases, Option-cases, after-ok,
  guard-eq-ok, passed-eq-ok, or_raise-eq-ok, ok-injective, arith,
}
use open_collate.Kernel.Meter.{Meter, spend, remaining}
use open_collate.Ir.Builder.{Circuit}
use open_collate.Ir.Simulate.{simulate_frame}
use open_collate.Spec.Json.{
  Json, null, boolean, integral, fractional, text, array, object, to_list, key_error, none_outside,
  obj,
}
use open_collate.Spec.Request.{Reset, Property, Spec}
use open_collate.Spec.Normalize.{read}
use open_collate.Spec.Holds.{driven, holds}
use open_collate.Certificate.Errors.{
  CertificateError, bad_witness_frame, other_inventory, violates_assumptions, violates_reset,
  violates_transition, violates_equation, inactive_guard, of_request, of_circuit, of_kernel,
  of_request-ok, of_circuit-ok,
}
use open_collate.Certificate.Cover.{
  is_number, value_of, bits_of, read_values, all_equal, reset_value, check_reset, check_transition,
  restrict, covers, same_dict, check_equations, fields_of, check_row, check_rows, check_witness,
  check_cover,
}

-- All that the first dict says, the second says.
abbrev pub Says : Dict ℕ → Dict ℕ → Type 0
Says a b = (n : String) (v : ℕ) → lookup n a ≡ some v → lookup n b ≡ some v

-- Values have the widths of their signals.
abbrev pub IsWide : Circuit → Dict ℕ → Type 0
IsWide c f =
    (n : String) (v : ℕ)
    → lookup n f ≡ some v
    → (w : ℕ) × ((s : Bool) × ((lookup n c.signals ≡ some (w, s)) × (v < 2 ^ w)))

value_of-lookup : (n : String) (f : Dict ℕ) {v : ℕ} → value_of n f ≡ ok v → lookup n f ≡ some v
value_of-lookup n f h =
    or_raise-eq-ok key_error (lookup n f) (of_request-ok (or_raise key_error (lookup n f)) h)

Says-cons :
    (k : String) (u : ℕ) (a b : Dict ℕ) → lookup k b ≡ some u → Says a b → Says ((k, u) ∷ a) b
Says-cons k u a b here rest n v e = elim (Bool-cases (name_eq k n)) [
  | inl same ↦
      subst (λ (x : String). lookup x b ≡ some v) ((name_eq_iff k n).0 same)
        (here ∙ sym (rw same refl) ∙ e)
  | inr other ↦ rest n v (sym (rw other refl) ∙ e)
]

all_equal-Says : (a b : Dict ℕ) → all_equal a b ≡ ok true → Says a b
unfolding all_equal
all_equal-Says [] b h = λ n v e. cc
all_equal-Says ((k, u) ∷ a) b h = after-ok (value_of k b) h λ w found h.
    elim (Bool-cases (w == u)) [
      | inl same ↦
          let equal : w ≡ u = ground arith in
          Says-cons k u a b (value_of-lookup k b found ∙ ap some equal)
            (all_equal-Says a b (sym (rw same refl) ∙ h))
      | inr other ↦ absurd (ok-false (sym (rw other refl) ∙ h))
    ]
  where
    ok-false : ¬ ◌≡◌ {A = Result CertificateError Bool} (ok false) (ok true)
    ok-false p = cc

covers-Says : (a b : Dict ℕ) → covers a b ≡ true → Says a b
unfolding covers
covers-Says [] b h = λ n v e. cc
covers-Says ((k, u) ∷ a) b h = elim (Option-cases (lookup k b)) [
  | inl gone ↦ absurd (ground (arith, gone))
  | inr (w, found) ↦
      let equal : u ≡ w = ground (arith, found) in
      Says-cons k u a b (found ∙ ap some (sym equal)) (covers-Says a b (ground arith))
]

-- Dicts that are equal say the same.
same_dict-lookup : (a b : Dict ℕ) → same_dict a b ≡ true → (n : String) → lookup n a ≡ lookup n b
same_dict-lookup a b h n = elim (Option-cases (lookup n a)) [
  | inr (v, found) ↦ found ∙ sym (covers-Says a b (ground arith) n v found)
  | inl gone ↦ elim (Option-cases (lookup n b)) [
    | inl gone' ↦ gone ∙ sym gone'
    | inr (w, found) ↦ absurd (none≢some (sym gone ∙ covers-Says b a (ground arith) n w found))
  ]
]
  where
    none≢some : {w : ℕ} → ¬ ◌≡◌ {A = Option ℕ} none (some w)
    none≢some p = cc

bits_of-bound : (w : ℕ) (j : Json) {v : ℕ} → bits_of w j ≡ ok v → v < 2 ^ w
bits_of-bound w (integral (pos n)) h = ground arith
bits_of-bound w (integral (negsuc n)) h = cc
bits_of-bound w null h = cc
bits_of-bound w (boolean b) h = cc
bits_of-bound w (fractional s) h = cc
bits_of-bound w (text s) h = cc
bits_of-bound w (array xs) h = cc
bits_of-bound w (object d) h = cc

read_values-IsWide :
    (c : Circuit) (f : Dict Json) (m : Meter) {r : Dict ℕ × Meter}
    → read_values c f m ≡ ok r
    → IsWide c r.0
unfolding read_values
read_values-IsWide c [] m h =
    subst (λ (r : Dict ℕ × Meter). IsWide c r.0) (ok-injective h) (λ n v e. cc)
read_values-IsWide c ((k, val) ∷ f) m h = after-ok (of_kernel (spend 1 m)) h λ m1 _ h.
    after-ok (of_request (or_raise key_error (lookup k c.signals))) h λ (w, s) typed h.
      after-ok (bits_of w val) h λ u small h. after-ok (read_values c f m1) h λ (values, m2) more h.
        subst (λ (r : Dict ℕ × Meter). IsWide c r.0) (ok-injective h)
          (λ n v e. elim (Bool-cases (name_eq k n)) [
            | inl same ↦
                let which : u ≡ v = some-injective u v (sym (rw same refl) ∙ e) in
                let at : k ≡ n = (name_eq_iff k n).0 same in
                (
                  w,
                  (
                    s,
                    (
                      subst (λ (x : String). lookup x c.signals ≡ some (w, s)) at
                          (or_raise-eq-ok key_error (lookup k c.signals)
                            (of_request-ok (or_raise key_error (lookup k c.signals)) typed)),
                      subst (λ (x : ℕ). x < 2 ^ w) which (bits_of-bound w val small),
                    ),
                  ),
                )
            | inr other ↦ read_values-IsWide c f m1 more n v (sym (rw other refl) ∙ e)
          ])

restrict-Says :
    (names : List String) (f : Dict ℕ) {d : Dict ℕ}
    → restrict names f ≡ ok d
    → Says d f × (keys d ≡ names)
unfolding restrict
restrict-Says [] f h = subst (λ d. Says d f × (keys d ≡ [])) (ok-injective h) ((λ n v e. cc), refl)
restrict-Says (k ∷ names) f h = after-ok (value_of k f) h λ u found h.
    after-ok (restrict names f) h λ d more h.
      let (says, same) = restrict-Says names f more in
      subst (λ x. Says x f × (keys x ≡ k ∷ names)) (ok-injective h)
        (Says-cons k u d f (value_of-lookup k f found) says, ap (λ (ks : List String). k ∷ ks) same)

-- A frame obeys the equations of the circuit, and `next` is what its registers hold after it.
pub record IsSettled (c : Circuit) (f next : Dict ℕ) : Type 0 where
  pub states : Dict ℕ
  pub inputs : Dict ℕ
  pub observed : Dict ℕ
  pub all_states : keys states ≡ keys c.next_state
  pub all_inputs : keys inputs ≡ c.inputs
  pub states_are : Says states f
  pub inputs_are : Says inputs f
  pub simulated : simulate_frame c states inputs ≡ ok (observed, next)
  pub equations : (n : String) → lookup n observed ≡ lookup n f

check_equations-IsSettled :
    (c : Circuit) (f : Dict ℕ) {next : Dict ℕ} → check_equations c f ≡ ok next → IsSettled c f next
unfolding check_equations
check_equations-IsSettled c f h = after-ok (restrict (keys c.next_state) f) h λ states s h.
    after-ok (restrict c.inputs f) h λ inputs i h.
      after-ok (of_circuit (simulate_frame c states inputs)) h λ (observed, updated) sim h.
        let (same, h) = passed-eq-ok (same_dict observed f) violates_equation (ok updated) h in
        subst (IsSettled c f) (ok-injective h) (record {
          states = states;
          inputs = inputs;
          observed = observed;
          all_states = (restrict-Says (keys c.next_state) f s).1;
          all_inputs = (restrict-Says c.inputs f i).1;
          states_are = (restrict-Says (keys c.next_state) f s).0;
          inputs_are = (restrict-Says c.inputs f i).0;
          simulated = of_circuit-ok (simulate_frame c states inputs) sim;
          equations = same_dict-lookup observed f same;
        })

module _ {ℓ} {P : Type ℓ} (c : Circuit) (spec : Spec P) where
  -- The environment keeps the assumptions and the reset protocol in cycle `t`.
  pub record IsAdmitted (t : ℕ) (f : Dict ℕ) : Type 0 where
    pub assumed : Says spec.assumptions f
    pub reset_follows :
        (r : Reset) → spec.reset ≡ some r → lookup r.signal f ≡ some (reset_value r t)
    pub wide : IsWide c f

  -- Frames from cycle `t` on, the registers of the first as `previous` says.
  pub data IsExecution : ℕ → Option (Dict ℕ) → List (Dict ℕ) → Type 0 where
    no_frame : {t : ℕ} {previous : Option (Dict ℕ)} → IsExecution t previous []
    one_frame :
        {t : ℕ} {previous : Option (Dict ℕ)} {f next : Dict ℕ} {frames : List (Dict ℕ)}
        → IsAdmitted t f
        → ((u : Dict ℕ) → previous ≡ some u → Says u f)
        → IsSettled c f next
        → IsExecution (t + 1) (some next) frames
        → IsExecution t previous (f ∷ frames)

  check_reset-follows :
      (o : Option Reset) (t : ℕ) (f : Dict ℕ) {u : Unit {0}}
      → check_reset o t f ≡ ok u
      → (r : Reset) → o ≡ some r
      → lookup r.signal f ≡ some (reset_value r t)
  unfolding check_reset
  check_reset-follows none t f h r e = cc
  check_reset-follows (some q) t f h r e = after-ok (value_of q.signal f) h λ v found h.
      let (same, _) = passed-eq-ok (v == reset_value q t) violates_reset (ok tt) h in
      let equal : v ≡ reset_value q t = ground arith in
      subst (λ (x : Reset). lookup x.signal f ≡ some (reset_value x t)) (some-injective q r e)
        (value_of-lookup q.signal f found ∙ ap some equal)

  check_transition-Says :
      (o : Option (Dict ℕ)) (f : Dict ℕ) {x : Unit {0}}
      → check_transition o f ≡ ok x
      → (u : Dict ℕ) → o ≡ some u
      → Says u f
  unfolding check_transition
  check_transition-Says none f h u e = cc
  check_transition-Says (some q) f h u e = after-ok (all_equal q f) h λ same equal h.
      let (passed, _) = passed-eq-ok same violates_transition (ok tt) h in
      subst (λ (x : Dict ℕ). Says x f) (some-injective q u e)
        (all_equal-Says q f (equal ∙ ap ok passed))

  -- A row that is accepted.
  check_row-Accepts :
      (t : ℕ) (raw : Json) (updated : Option (Dict ℕ)) (m : Meter) {r : Dict ℕ × (Dict ℕ × Meter)}
      → check_row c spec t raw updated m ≡ ok r
      → IsAdmitted t r.0 × (((u : Dict ℕ) → updated ≡ some u → Says u r.0) × IsSettled c r.0 r.1.0)
  unfolding check_row
  check_row-Accepts t raw updated m h =
      after-ok (of_request (obj raw ("cycle" ∷ "values" ∷ []) [])) h λ row _ h.
        after-ok (of_request (read "values" row)) h λ values _ h.
          after-ok (of_request (read "cycle" row)) h λ cycle _ h.
            after-ok (if not (is_number cycle t) then err bad_witness_frame else fields_of values) h
              λ f _ h.
                after-ok
                  (if not (none_outside (keys f) (driven c) && none_outside (driven c) (keys f))
                    then err other_inventory
                    else ok f)
                  h
                  λ _ _ h. after-ok (read_values c f m) h λ (frame, m1) values_read h.
                    after-ok (all_equal spec.assumptions frame) h λ fixed equal h.
                      after-ok (if not fixed then err violates_assumptions else ok frame) h
                        λ _ passed h. after-ok (check_reset spec.reset t frame) h λ _ reset h.
                          after-ok (check_transition updated frame) h λ _ moved h.
                            after-ok (of_kernel (spend (length c.nodes + 1) m1)) h λ m2 _ h.
                              after-ok (check_equations c frame) h λ next settled h.
                                let yes_fixed : fixed ≡ true = ground arith in
                                subst
                                  (λ (r : Dict ℕ × (Dict ℕ × Meter)).
                                    IsAdmitted t r.0
                                    × (((u : Dict ℕ) → updated ≡ some u → Says u r.0)
                                        × IsSettled c r.0 r.1.0))
                                  (ok-injective h)
                                  (
                                    record {
                                      assumed =
                                          all_equal-Says spec.assumptions frame
                                            (equal ∙ ap ok yes_fixed);
                                      reset_follows = check_reset-follows spec.reset t frame reset;
                                      wide = read_values-IsWide c f m values_read;
                                    },
                                    (
                                      check_transition-Says updated frame moved,
                                      check_equations-IsSettled c frame settled,
                                    ),
                                  )

  check_rows-IsExecution :
      (t : ℕ) (rows : List Json) (updated : Option (Dict ℕ)) (m : Meter) {r : List (Dict ℕ) × Meter}
      → check_rows c spec t rows updated m ≡ ok r
      → IsExecution t updated r.0 × (length r.0 ≡ length rows)
  unfolding check_rows
  check_rows-IsExecution t [] updated m h =
      subst (λ (r : List (Dict ℕ) × Meter). IsExecution t updated r.0 × (length r.0 ≡ 0))
        (ok-injective h) (no_frame, refl)
  check_rows-IsExecution t (raw ∷ rest) updated m h =
      after-ok (check_row c spec t raw updated m) h λ (frame, (next, m1)) row h.
        after-ok (check_rows c spec (t + 1) rest (some next) m1) h λ (frames, m2) rows h.
          let (admitted, (moved, settled)) = check_row-Accepts t raw updated m row in
          let (more, size) = check_rows-IsExecution (t + 1) rest (some next) m1 rows in
          subst
            (λ (r : List (Dict ℕ) × Meter).
              IsExecution t updated r.0 × (length r.0 ≡ suc (length rest)))
            (ok-injective h) (one_frame admitted moved settled more, ap suc size)

  -- An execution from cycle 0 to cycle `k` at the end of which the property's guard is met.
  pub record IsWitness (prop : Property) (k : ℕ) : Type ℓ where
    pub frames : List (Dict ℕ)
    pub execution : IsExecution 0 none frames
    pub size : length frames ≡ k + 1
    pub late : prop.start_cycle ≤ k
    pub within : k ≤ spec.depth
    pub holding : Bool
    pub enabled : holds prop frames k ≡ ok (true, holding)

  check_witness-IsWitness :
      (prop : Property) (rows : List Json) (m : Meter) {r : ℕ × Meter}
      → check_witness c spec prop rows m ≡ ok r
      → IsWitness prop r.0
  unfolding check_witness
  check_witness-IsWitness prop rows m h =
      let (sized, h) =
        guard-eq-ok (not (leb 1 (length rows) && leb (length rows) (spec.depth + 1))) _ _ h in
      let (long, h) = guard-eq-ok (ltb (length rows - 1) prop.start_cycle) _ _ h in
      after-ok (check_rows c spec 0 rows none m) h λ (frames, m1) checked h.
        after-ok (of_request (holds prop frames (length frames - 1))) h λ (enabled, holding) held h.
          after-ok (if not enabled then err inactive_guard else ok frames) h λ _ passed h.
            after-ok (of_kernel (remaining m1)) h λ m2 _ h.
              let (execution, size) = check_rows-IsExecution 0 rows none m checked in
              let yes_enabled : enabled ≡ true = ground arith in
              subst (λ (r : ℕ × Meter). IsWitness prop r.0) (ok-injective h)
                (record {
                  frames = frames;
                  execution = execution;
                  size = ground (arith, size);
                  late = ground (arith, size);
                  within = ground (arith, size);
                  holding = holding;
                  enabled =
                      of_request-ok (holds prop frames (length frames - 1)) held
                      ∙ ap (λ (b : Bool). ok (b, holding)) yes_enabled;
                })

-- What `_check_cover` accepts is an execution of the circuit: it keeps the assumptions, the reset protocol
-- and the widths, every frame obeys the equations, every register moves as the circuit says, and it
-- ends between the property's first checked cycle and the depth, with the guard met.
pub check_cover-IsWitness {ℓ} :
    {P : Type ℓ} (c : Circuit) (spec : Spec P) (prop : Property) (value : Json) (m : Meter)
    {r : ℕ × Meter}
    → check_cover c spec prop value m ≡ ok r
    → IsWitness c spec prop r.0
unfolding check_cover
check_cover-IsWitness c spec prop (array xs) m h =
    check_witness-IsWitness c spec prop (to_list xs) m h
check_cover-IsWitness c spec prop null m h = cc
check_cover-IsWitness c spec prop (boolean b) m h = cc
check_cover-IsWitness c spec prop (integral n) m h = cc
check_cover-IsWitness c spec prop (fractional s) m h = cc
check_cover-IsWitness c spec prop (text s) m h = cc
check_cover-IsWitness c spec prop (object d) m h = cc
