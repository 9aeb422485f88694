-- ===== src/Spec/Returns.antt =====
-- `holds` (src/opencollate/sequential_spec.py) on a property that `normalize` and `validate_signals` accept:
-- it raises nothing, and its results are right.
use Prim.Native.String.{String}
use mathlib.Core.Path.{subst}
use mathlib.Core.Option.{some-injective}
use open_collate.Common.{
  ◌+◌, sym, ap, ◌∙◌, ℕ, zero, suc, ◌-◌, ◌≡◌, ◌≤◌, ◌<◌, refl, inl, inr, Bool, true, false, not, ◌||◌,
  Option, none, some, List, [], ◌∷◌, ok, length, get_elem?, leb, ltb, ◌==◌, Dict, lookup, is_in,
  name_eq, All, after-ok, guard-eq-ok, Bool-cases, arith,
}
use open_collate.Ir.Builder.{Circuit}
use open_collate.Spec.Request.{Guard, Expected, from_source, constant, Property, Spec}
use open_collate.Spec.Bounds.{IsProperty}
use open_collate.Spec.Holds.{
  driven, signal, check_assumptions, check_reset, check_guards, constant_of, check_source,
  check_properties, validate_signals, frame_at, value_at, all_enabled, expected_value, holds,
}

-- A frame has a value for every driven signal.
abbrev pub IsComplete : Circuit → Dict ℕ → Type 0
IsComplete c f = (n : String) → is_in n (driven c) ≡ true → (v : ℕ) × (lookup n f ≡ some v)

-- The value of a signal a number of cycles before a cycle, in a frame that is there: no index is below 0.
abbrev pub WasAt : List (Dict ℕ) → ℕ → ℕ → String → ℕ → Type 0
WasAt frames cycle lag n v =
    (i : ℕ) × ((f : Dict ℕ) × ((i + lag ≡ cycle)
        × ((get_elem? frames i ≡ some f) × (lookup n f ≡ some v))))

-- Every guard's signal had its value.
abbrev pub IsEnabled : List (Dict ℕ) → ℕ → List Guard → Type 0
IsEnabled frames cycle gs = All (λ g. WasAt frames cycle g.lag g.signal g.equals) gs

-- The value that the sink is compared with.
abbrev pub IsExpected : Property → List (Dict ℕ) → ℕ → Expected → ℕ → Type 0
IsExpected p frames cycle (from_source s) v = WasAt frames cycle p.latency s v
IsExpected p frames cycle (constant k) v = v ≡ k

-- The sink has the value expected.
abbrev pub IsMet : Property → List (Dict ℕ) → ℕ → Type 0
IsMet p frames cycle =
    (v : ℕ) × (WasAt frames cycle 0 p.sink v × IsExpected p frames cycle p.expected v)

-- A Boolean that tells whether a statement is true.
pub data Tells {ℓ} (P : Type ℓ) (b : Bool) : Type ℓ where
  yes : b ≡ true → P → Tells P b
  no : b ≡ false → ¬ P → Tells P b

-- `holds` returns, and tells whether the guards are met and whether, if they are, the sink has the value expected.
pub record Returns (p : Property) (frames : List (Dict ℕ)) (cycle : ℕ) : Type 0 where
  pub enabled : Bool
  pub held : Bool
  pub returns : holds p frames cycle ≡ ok (enabled, held)
  pub enabled_right : Tells (IsEnabled frames cycle p.when) enabled
  pub held_right : Tells (IsEnabled frames cycle p.when → IsMet p frames cycle) held

WasAt-unique :
    (frames : List (Dict ℕ)) (cycle lag : ℕ) (n : String) {v w : ℕ}
    → WasAt frames cycle lag n v
    → WasAt frames cycle lag n w
    → v ≡ w
WasAt-unique frames cycle lag n (i, (f, (at, (there, has)))) (j, (g, (at', (there', has')))) =
    let same : i ≡ j = omega (arith, at, at') in
    let frame : f ≡ g =
      some-injective _ _ (sym there ∙ ap (λ (k : ℕ). get_elem? frames k) same ∙ there') in
    some-injective _ _ (sym has ∙ ap (λ (h : Dict ℕ). lookup n h) frame ∙ has')

IsExpected-unique :
    (p : Property) (frames : List (Dict ℕ)) (cycle : ℕ) (x : Expected) {v w : ℕ}
    → IsExpected p frames cycle x v
    → IsExpected p frames cycle x w
    → v ≡ w
IsExpected-unique p frames cycle (from_source s) h k = WasAt-unique frames cycle p.latency s h k
IsExpected-unique p frames cycle (constant n) h k = h ∙ sym k

signal-driven :
    (c : Circuit) (n : String) (value : Option ℕ) {w : ℕ}
    → signal c n value ≡ ok w
    → is_in n (driven c) ≡ true
unfolding signal
signal-driven c n value h =
    let (here, _) = guard-eq-ok (name_eq n c.clock || not (is_in n (driven c))) _ _ h in
    ground arith

frame-there :
    (P : Dict ℕ → Type 0) (frames : List (Dict ℕ)) (i : ℕ)
    → i < length frames
    → All P frames
    → (f : Dict ℕ) × ((get_elem? frames i ≡ some f) × P f)
frame-there P [] i h all = absurd (omega arith)
frame-there P (f ∷ frames) zero h (p, all) = (f, (refl, p))
frame-there P (f ∷ frames) (suc i) h (p, all) = frame-there P frames i (omega arith) all

module _ (c : Circuit) (frames : List (Dict ℕ)) (complete : All (IsComplete c) frames) (cycle : ℕ)
    (here : cycle < length frames) where
  value_at-returns :
      (lag : ℕ) (n : String)
      → lag ≤ cycle
      → is_in n (driven c) ≡ true
      → (v : ℕ) × ((value_at frames cycle lag n ≡ ok v) × WasAt frames cycle lag n v)
  unfolding value_at frame_at
  value_at-returns lag n back named =
      let (f, (found, has)) =
        frame-there (IsComplete c) frames (cycle - lag) (omega arith) complete in
      let (v, e) = has n named in
      let near : leb lag cycle ≡ true = ground arith in
      (v, (rw (near, found, e) refl, (cycle - lag, (f, (omega arith, (found, e))))))

  all_enabled-returns :
      (gs : List Guard) {u : Unit {0}}
      → check_guards c gs ≡ ok u
      → All (λ g. g.lag ≤ cycle) gs
      → (b : Bool) × ((all_enabled frames cycle gs ≡ ok b) × Tells (IsEnabled frames cycle gs) b)
  unfolding all_enabled check_guards
  all_enabled-returns [] h low = (true, (refl, yes refl tt))
  all_enabled-returns (g ∷ gs) h (low, lows) =
      after-ok (signal c g.signal (some g.equals)) h λ w named h.
        let (v, (e, was)) =
          value_at-returns g.lag g.signal low (signal-driven c g.signal (some g.equals) named) in
        let (b, (rest, says)) = all_enabled-returns gs h lows in
        elim (Bool-cases (v == g.equals)) [
          | inl same ↦
              let equal : v ≡ g.equals = ground arith in
              (
                b,
                (
                  rw (e, same) rest,
                  elim says [
                    | yes on all ↦
                        yes on
                          (subst (λ (k : ℕ). WasAt frames cycle g.lag g.signal k) equal was, all)
                    | no off unmet ↦ no off (λ both. unmet both.1)
                  ],
                ),
              )
          | inr other ↦ (
            false,
            (
              rw (e, other) refl,
              no refl λ both.
                  let equal = WasAt-unique frames cycle g.lag g.signal was both.0 in ground arith,
            ),
          )
        ]

  expected_value-returns :
      (p : Property) (width : ℕ) (x : Expected) {u : Unit {0}}
      → check_source c width x ≡ ok u
      → p.latency ≤ cycle
      → (v : ℕ) × ((expected_value p frames cycle x ≡ ok v) × IsExpected p frames cycle x v)
  unfolding expected_value check_source
  expected_value-returns p width (constant v) h low = (v, (refl, refl))
  expected_value-returns p width (from_source s) h low =
      after-ok (signal c s none) h
        λ other named _. value_at-returns p.latency s low (signal-driven c s none named)

  -- The comparison of the sink tells whether it has the value expected.
  sink-Tells :
      (p : Property) (v x : ℕ)
      → WasAt frames cycle 0 p.sink v
      → IsExpected p frames cycle p.expected x
      → Tells (IsMet p frames cycle) (v == x)
  sink-Tells p v x was expected = elim (Bool-cases (v == x)) [
    | inl same ↦
        let equal : x ≡ v = ground arith in
        yes same (v, (was, subst (λ k. IsExpected p frames cycle p.expected k) equal expected))
    | inr other ↦ no other λ (w, (was', expected')).
        let e = WasAt-unique frames cycle 0 p.sink was was' in
        let e' = IsExpected-unique p frames cycle p.expected expected expected' in ground arith
  ]

  holds-there :
      (p : Property) (width : ℕ) {w : ℕ} {u u' : Unit {0}}
      → signal c p.sink (constant_of p.expected) ≡ ok w
      → check_source c width p.expected ≡ ok u
      → check_guards c p.when ≡ ok u'
      → p.latency ≤ cycle
      → All (λ g. g.lag ≤ cycle) p.when
      → Returns p frames cycle
  unfolding holds
  holds-there p width sunk sourced guarded low lows =
      let (b, (e, says)) = all_enabled-returns p.when guarded lows in
      let (x, (e', expected)) = expected_value-returns p width p.expected sourced low in
      let (v, (e'', was)) =
        value_at-returns 0 p.sink (omega arith)
          (signal-driven c p.sink (constant_of p.expected) sunk) in
      elim says [
        | yes on all ↦ record {
          enabled = b;
          held = v == x;
          returns = rw (e, e', on, e'') refl;
          enabled_right = yes on all;
          held_right = elim (sink-Tells p v x was expected) [
            | yes same met ↦ yes same (λ _. met)
            | no other unmet ↦ no other (λ h. unmet (h all))
          ];
        }
        | no off unmet ↦ record {
          enabled = b;
          held = true;
          returns = rw (e, e', off) refl;
          enabled_right = no off unmet;
          held_right = yes refl (λ all. absurd (unmet all));
        }
      ]

Lags-low : (k n : ℕ) (gs : List Guard) → k ≤ n → All (λ g. g.lag ≤ k) gs → All (λ g. g.lag ≤ n) gs
Lags-low k n [] h all = tt
Lags-low k n (g ∷ gs) h (low, all) = (omega arith, Lags-low k n gs h all)

module _ (c : Circuit) (frames : List (Dict ℕ)) (cycle : ℕ) (complete : All (IsComplete c) frames)
    (here : cycle < length frames) where
  check_properties-Returns :
      (depth : ℕ) (ps : List Property) {u : Unit {0}}
      → check_properties c depth ps ≡ ok u
      → (i : ℕ) {p : Property} → get_elem? ps i ≡ some p
      → IsProperty p
      → p.start_cycle ≤ cycle
      → Returns p frames cycle
  unfolding check_properties
  check_properties-Returns depth [] h i found good late = cc
  check_properties-Returns depth (q ∷ ps) h i {p} found good late =
      after-ok (signal c q.sink (constant_of q.expected)) h λ width sunk h.
        after-ok (check_source c width q.expected) h λ _ sourced h.
          after-ok (check_guards c q.when) h λ _ guarded h.
            let (deep, h) = guard-eq-ok (ltb depth q.start_cycle) _ _ h in
            first width sunk sourced guarded i found
              (λ j there. check_properties-Returns depth ps h j there good late)
    where
      first :
          (width : ℕ) {w : ℕ} {u u' : Unit {0}}
          → signal c q.sink (constant_of q.expected) ≡ ok w
          → check_source c width q.expected ≡ ok u
          → check_guards c q.when ≡ ok u'
          → (i : ℕ) → get_elem? (q ∷ ps) i ≡ some p
          → ((j : ℕ) → get_elem? ps j ≡ some p → Returns p frames cycle)
          → Returns p frames cycle
      first width sunk sourced guarded (suc i) found next = next i found
      first width sunk sourced guarded zero found next =
          let same : q ≡ p = some-injective _ _ found in
          let bounds : IsProperty q = subst IsProperty (sym same) good in
          subst (λ (r : Property). Returns r frames cycle) same
            (holds-there c frames complete cycle here q width sunk sourced guarded
              (omega (arith, bounds.latency_low, ap (λ (r : Property). r.start_cycle) same))
              (Lags-low q.start_cycle cycle q.when
                (omega (arith, ap (λ (r : Property). r.start_cycle) same)) bounds.guards_low))

-- Where `validate_signals` returns, take a property of the request that keeps the bounds of `normalize`,
-- frames that all have the driven signals, and a cycle of them from the property's first checked cycle
-- on. There `holds` returns; its first result tells whether each guard's signal had its value, and its
-- second whether, if so, the sink has the constant or the source's earlier value, each read in the frame
-- that many cycles before, and none before cycle 0.
pub validate_signals-Returns {ℓ} :
    {P : Type ℓ} (c : Circuit) (spec : Spec P) {u : Unit {0}}
    → validate_signals c spec ≡ ok u
    → (i : ℕ) {p : Property} → get_elem? spec.properties i ≡ some p
    → IsProperty p
    → (frames : List (Dict ℕ)) (cycle : ℕ) → All (IsComplete c) frames
    → p.start_cycle ≤ cycle
    → cycle < length frames
    → Returns p frames cycle
unfolding validate_signals
validate_signals-Returns c spec h i found good frames cycle complete late here =
    after-ok (check_assumptions c spec.assumptions) h λ _ _ h.
      after-ok (check_reset c spec.assumptions spec.reset) h λ _ _ h.
        check_properties-Returns c frames cycle complete here spec.depth spec.properties h i found
          good late
