-- ===== src/Spec/Bounds.antt =====
-- The bounds that `normalize` (src/opencollate/sequential_spec.py) puts on a request.
use Prim.Native.Char.{Char}
use Prim.Native.String.{String}
use mathlib.Core.Path.{subst}
use open_collate.Common.{
  ℕ, suc, ◌+◌, ◌-◌, ◌^◌, ◌≡◌, ◌≤◌, refl, ap, ◌∙◌, pos, negsuc, Bool, not, ◌&&◌, ◌||◌, Option, none,
  some, List, [], ◌∷◌, Result, ok, err, length, leb, ltb, if◌then◌else◌, lookup, has_key, All,
  after-ok, guard-eq-ok, ok-injective, Bool-cases, inl, inr, arith,
}
use open_collate.Spec.Json.{
  Json, null, boolean, integral, fractional, text, array, object, no_items, no_fields, to_list,
  RequestError, two_sides, bad_semantics, obj, integer, get_or,
}
use open_collate.Spec.Names.{name, signal_name}
use open_collate.Spec.Request.{Reset, Guard, Expected, from_source, constant, Property, Spec}
use open_collate.Spec.Normalize.{
  read, each, source_files, optional_reset, read_assumptions, read_guard, read_guards, guard_le,
  property_le, insert_by, sort_by, larger, history_of, expected_of, reset_cycles_of, identity_of,
  read_property, read_rows, read_properties, is_semantics, prepared, normalize,
}

pub integer-bounds :
    (v : Json) (lo hi : ℕ) (label : String) {n : ℕ}
    → integer v lo hi label ≡ ok n
    → (lo ≤ n) × (n ≤ hi)
unfolding integer
integer-bounds (integral (pos m)) lo hi label h = ground arith
integer-bounds (integral (negsuc m)) lo hi label h = cc
integer-bounds null lo hi label h = cc
integer-bounds (boolean b) lo hi label h = cc
integer-bounds (fractional s) lo hi label h = cc
integer-bounds (text s) lo hi label h = cc
integer-bounds (array xs) lo hi label h = cc
integer-bounds (object d) lo hi label h = cc

-- A guard looks back at most 16 cycles.
abbrev pub IsGuard : Guard → Type 0
IsGuard g = (g.lag ≤ 16) × (g.equals ≤ 2 ^ 256 - 1)

read_guard-IsGuard : (j : Json) {g : Guard} → read_guard j ≡ ok g → IsGuard g
unfolding read_guard
read_guard-IsGuard j h = after-ok (obj j ("signal" ∷ "equals" ∷ []) ("lag" ∷ [])) h λ d _ h.
    after-ok (read "signal" d) h λ s _ h. after-ok (signal_name s "guard signal") h λ guarded _ h.
      after-ok (read "equals" d) h λ e _ h.
        after-ok (integer e 0 (2 ^ 256 - 1) "guard equals") h λ value small h.
          after-ok (integer (get_or "lag" (integral (pos 0)) d) 0 16 "guard lag") h λ back near h.
            subst IsGuard (ok-injective h) (
              (integer-bounds (get_or "lag" (integral (pos 0)) d) 0 16 "guard lag" near).1,
              (integer-bounds e 0 (2 ^ 256 - 1) "guard equals" small).1,
            )

each-All :
    {A : Type 0} (f : Json → Result RequestError A) (Q : A → Type 0)
    → ((x : Json) (y : A) → f x ≡ ok y → Q y)
    → (xs : List Json) {ys : List A} → each f xs ≡ ok ys
    → All Q ys × (length ys ≡ length xs)
each-All f Q good [] h = subst (λ ys. All Q ys × (length ys ≡ 0)) (ok-injective h) (tt, refl)
each-All f Q good (x ∷ xs) h = after-ok (f x) h λ y here h. after-ok (each f xs) h λ ys there h.
    let (all, size) = each-All f Q good xs there in
    subst (λ zs. All Q zs × (length zs ≡ suc (length xs))) (ok-injective h)
      ((good x y here, all), ap suc size)

insert_by-All :
    {A : Type 0} (Q : A → Type 0) (le : A → A → Bool) (x : A) (ys : List A)
    → Q x
    → All Q ys
    → All Q (insert_by le x ys) × (length (insert_by le x ys) ≡ suc (length ys))
insert_by-All Q le x [] h k = ((h, tt), refl)
insert_by-All Q le x (y ∷ ys) h (k, ks) = elim (Bool-cases (le x y)) [
  | inl first ↦ rw first ((h, (k, ks)), refl)
  | inr later ↦ let (all, size) = insert_by-All Q le x ys h ks in rw later ((k, all), ap suc size)
]

-- Sorting keeps what is said of every element, and their number.
pub sort_by-All :
    {A : Type 0} (Q : A → Type 0) (le : A → A → Bool) (xs : List A)
    → All Q xs
    → All Q (sort_by le xs) × (length (sort_by le xs) ≡ length xs)
sort_by-All Q le [] h = (tt, refl)
sort_by-All Q le (x ∷ xs) (h, hs) =
    let (all, size) = sort_by-All Q le xs hs in
    let (more, longer) = insert_by-All Q le x (sort_by le xs) h all in (more, longer ∙ ap suc size)

history_of-bounds :
    (latency : ℕ) (gs : List Guard)
    → (latency ≤ history_of latency gs) × All (λ g. g.lag ≤ history_of latency gs) gs
history_of-bounds latency [] = (omega arith, tt)
history_of-bounds latency (g ∷ gs) =
    let (low, all) = history_of-bounds latency gs in
    (ground (arith, low), (ground arith, All-raise gs (λ h p. ground (arith, p)) all))
  where
    All-raise :
        (hs : List Guard)
        → ((h : Guard)
            → h.lag ≤ history_of latency gs
            → h.lag ≤ larger g.lag (history_of latency gs))
        → All (λ h. h.lag ≤ history_of latency gs) hs
        → All (λ h. h.lag ≤ larger g.lag (history_of latency gs)) hs
    All-raise [] f k = tt
    All-raise (h ∷ hs) f (k, ks) = (f h k, All-raise hs f ks)

abbrev pub IsExpected : ℕ → Expected → Type 0
IsExpected latency (from_source s) = Unit
IsExpected latency (constant v) = (latency ≡ 0) × (v ≤ 2 ^ 256 - 1)

expected_of-IsExpected :
    (latency : ℕ) (s e : Option Json) {x : Expected}
    → expected_of latency s e ≡ ok x
    → IsExpected latency x
expected_of-IsExpected latency (some s) e h =
    after-ok (signal_name s "source") h λ value _ h. subst (IsExpected latency) (ok-injective h) tt
expected_of-IsExpected latency none none h = cc
expected_of-IsExpected latency none (some e) h =
    after-ok (integer e 0 (2 ^ 256 - 1) "equals") h λ value small h.
      let (now, h) = guard-eq-ok (ltb 0 latency) _ _ h in
      subst (IsExpected latency) (ok-injective h)
        (ground arith, (integer-bounds e 0 (2 ^ 256 - 1) "equals" small).1)

-- What a property that is read says: no value is looked for before the first cycle.
pub record IsProperty (p : Property) : Type 0 where
  pub latency_small : p.latency ≤ 16
  pub latency_low : p.latency ≤ p.start_cycle
  pub start_small : p.start_cycle ≤ 128
  pub guards_few : length p.when ≤ 64
  pub guards_good : All IsGuard p.when
  pub guards_low : All (λ g. g.lag ≤ p.start_cycle) p.when
  pub side : IsExpected p.latency p.expected

read_guards-IsGuard :
    (j : Json) {gs : List Guard} → read_guards j ≡ ok gs → All IsGuard gs × (length gs ≤ 64)
unfolding read_guards
read_guards-IsGuard (array xs) h =
    let (few, h) = guard-eq-ok (ltb 64 (length (to_list xs))) _ _ h in
    let (all, size) =
      each-All read_guard IsGuard (λ x y e. read_guard-IsGuard x e) (to_list xs) h in
    (all, ground (arith, size))
read_guards-IsGuard null h = cc
read_guards-IsGuard (boolean b) h = cc
read_guards-IsGuard (integral m) h = cc
read_guards-IsGuard (fractional s) h = cc
read_guards-IsGuard (text s) h = cc
read_guards-IsGuard (object d) h = cc

Guards-low : (k n : ℕ) (gs : List Guard) → k ≤ n → All (λ g. g.lag ≤ k) gs → All (λ g. g.lag ≤ n) gs
Guards-low k n [] h all = tt
Guards-low k n (g ∷ gs) h (low, all) = (omega arith, Guards-low k n gs h all)

-- The record that `read_property` returns.
IsProperty-record :
    (i end : String) (delay start : ℕ) (side : Expected) (gs : List Guard)
    → delay ≤ 16
    → IsExpected delay side
    → All IsGuard gs
    → length gs ≤ 64
    → history_of delay gs ≤ start
    → start ≤ 128
    → IsProperty (record {
      id = i;
      sink = end;
      latency = delay;
      expected = side;
      when = sort_by guard_le gs;
      start_cycle = start;
    })
IsProperty-record i end delay start side gs small side_good good few low high =
    let (latency_low, lags) = history_of-bounds delay gs in
    let (good', size) = sort_by-All IsGuard guard_le gs good in
    record {
      latency_small = small;
      latency_low = omega arith;
      start_small = high;
      guards_few = omega (arith, size);
      guards_good = good';
      guards_low =
          (sort_by-All (λ g. g.lag ≤ start) guard_le gs
            (Guards-low (history_of delay gs) start gs low lags)).0;
      side = side_good;
    }

module _ (is_space : Char → Bool) where
  read_property-IsProperty :
      (r : Option Reset) (ids : List String) (row : Json) {p : Property}
      → read_property is_space r ids row ≡ ok p
      → IsProperty p
  unfolding read_property
  read_property-IsProperty r ids row h =
      after-ok
        (obj row ("id" ∷ "sink" ∷ [])
          ("source" ∷ "equals" ∷ "latency" ∷ "when" ∷ "start_cycle" ∷ []))
        h
        λ q _ h. after-ok (read "id" q) h λ i _ h.
          after-ok (identity_of is_space i ids) h λ identity _ h.
            after-ok
              (if (has_key "source" q && has_key "equals" q)
                  || not (has_key "source" q || has_key "equals" q)
                then err two_sides
                else ok q)
              h
              λ _ _ h. after-ok (read "sink" q) h λ s _ h.
                after-ok (signal_name s "sink") h λ end _ h.
                  after-ok (integer (get_or "latency" (integral (pos 0)) q) 0 16 "latency") h
                    λ delay small h.
                      after-ok (expected_of delay (lookup "source" q) (lookup "equals" q)) h
                        λ side sided h.
                          after-ok (read_guards (get_or "when" (array no_items) q)) h
                            λ gs guarded h.
                              after-ok
                                (integer
                                  (get_or "start_cycle"
                                    (integral (pos (reset_cycles_of r + history_of delay gs))) q)
                                  (history_of delay gs) 128 "start_cycle")
                                h
                                λ start started h.
                                  let (good, few) =
                                    read_guards-IsGuard (get_or "when" (array no_items) q)
                                      guarded in
                                  let (low, high) =
                                    integer-bounds
                                      (get_or "start_cycle"
                                        (integral (pos (reset_cycles_of r + history_of delay gs)))
                                        q)
                                      (history_of delay gs) 128 "start_cycle" started in
                                  let short =
                                    (integer-bounds (get_or "latency" (integral (pos 0)) q) 0 16
                                      "latency" small).1 in
                                  subst IsProperty (ok-injective h) (
                                    IsProperty-record identity end delay start side gs short
                                      (expected_of-IsExpected delay (lookup "source" q)
                                        (lookup "equals" q) sided)
                                      good few low high)

  read_rows-All :
      (r : Option Reset) (ids : List String) (rows : List Json) {ps : List Property}
      → read_rows is_space r ids rows ≡ ok ps
      → All IsProperty ps × (length ps ≡ length rows)
  read_rows-All r ids [] h =
      subst (λ ps. All IsProperty ps × (length ps ≡ 0)) (ok-injective h) (tt, refl)
  read_rows-All r ids (row ∷ rows) h = after-ok (read_property is_space r ids row) h λ p here h.
      after-ok (read_rows is_space r (p.id ∷ ids) rows) h λ ps there h.
        let (all, size) = read_rows-All r (p.id ∷ ids) rows there in
        subst (λ qs. All IsProperty qs × (length qs ≡ suc (length rows))) (ok-injective h)
          ((read_property-IsProperty r ids row here, all), ap suc size)

  read_properties-All :
      (r : Option Reset) (j : Json) {ps : List Property}
      → read_properties is_space r j ≡ ok ps
      → All IsProperty ps × ((1 ≤ length ps) × (length ps ≤ 32))
  unfolding read_properties
  read_properties-All r (array xs) h =
      let (many, h) =
        guard-eq-ok (not (leb 1 (length (to_list xs)) && leb (length (to_list xs)) 32)) _ _ h in
      let (all, size) = read_rows-All r [] (to_list xs) h in
      (all, (ground (arith, size), ground (arith, size)))
  read_properties-All r null h = cc
  read_properties-All r (boolean b) h = cc
  read_properties-All r (integral m) h = cc
  read_properties-All r (fractional s) h = cc
  read_properties-All r (text s) h = cc
  read_properties-All r (object d) h = cc

-- What a normalized request is bounded by.
pub record IsBounded {ℓ} {P : Type ℓ} (s : Spec P) : Type 0 where
  pub depth_positive : 1 ≤ s.depth
  pub depth_small : s.depth ≤ 128
  pub induction_small : s.induction ≤ 16
  pub some_property : 1 ≤ length s.properties
  pub few_properties : length s.properties ≤ 32
  pub good_properties : All IsProperty s.properties

-- A request that `normalize` accepts is within its bounds: depth, induction and number of properties,
-- and for each property latency and guards, none of which look back before cycle 0 from its first
-- checked cycle on.
pub normalize-IsBounded {ℓ} :
    {P : Type ℓ} (is_space : Char → Bool)
    (normalize_preprocess : Json → List String → Result RequestError P) (value : Json) {s : Spec P}
    → normalize is_space normalize_preprocess value ≡ ok s
    → IsBounded s
unfolding normalize
normalize-IsBounded is_space normalize_preprocess value h =
    after-ok
      (obj value ("schema_version" ∷ "semantics" ∷ "files" ∷ "top" ∷ "clock" ∷ "properties" ∷ [])
        ("reset" ∷ "assumptions" ∷ "depth" ∷ "induction" ∷ "preprocess" ∷ []))
      h
      λ r _ h. after-ok (read "schema_version" r) h λ version _ h.
        after-ok (integer version 1 1 "schema_version") h λ _ _ h.
          after-ok (read "semantics" r) h λ semantics _ h.
            after-ok (if not (is_semantics is_space semantics) then err bad_semantics else ok r) h
              λ _ _ h. after-ok (read "files" r) h λ paths _ h.
                after-ok (source_files paths) h λ files _ h.
                  after-ok (optional_reset (lookup "reset" r)) h λ reset_part _ h.
                    after-ok (read_assumptions (get_or "assumptions" (object no_fields) r)) h
                      λ fixed _ h. after-ok (read "properties" r) h λ rows _ h.
                        after-ok (read_properties is_space reset_part rows) h λ props read_props h.
                          after-ok (read "top" r) h λ t _ h. after-ok (name t "top") h λ top _ h.
                            after-ok (read "clock" r) h λ c _ h.
                              after-ok (name c "clock") h λ clock _ h.
                                after-ok
                                  (integer (get_or "depth" (integral (pos 12)) r) 1 128 "depth") h
                                  λ steps deep h.
                                    after-ok
                                      (integer (get_or "induction" (integral (pos 4)) r) 0 16
                                        "induction")
                                      h
                                      λ inductive k_steps h.
                                        after-ok
                                          (prepared is_space normalize_preprocess files
                                            (lookup "preprocess" r))
                                          h
                                          λ preprocess _ h.
                                            let (all, (lowest, highest)) =
                                              read_properties-All is_space reset_part rows
                                                read_props in
                                            let (sorted_all, size) =
                                              sort_by-All IsProperty property_le props all in
                                            let (positive, small) =
                                              integer-bounds (get_or "depth" (integral (pos 12)) r)
                                                1 128 "depth" deep in
                                            let (_, few) =
                                              integer-bounds
                                                (get_or "induction" (integral (pos 4)) r) 0 16
                                                "induction" k_steps in
                                            subst IsBounded (ok-injective h) (record {
                                              depth_positive = positive;
                                              depth_small = small;
                                              induction_small = few;
                                              some_property = omega (arith, size);
                                              few_properties = omega (arith, size);
                                              good_properties = sorted_all;
                                            })
