-- ===== src/Spec/Normalize.antt =====
-- `normalize` of src/opencollate/sequential_spec.py. `str.isspace` of a character, and
-- `normalize_preprocess` of src/opencollate/sequential_sources.py, are arguments.
use Prim.Native.Char.{Char, code}
use Prim.Native.String.{String, count}
use open_collate.Common.{
  ℕ, ◌+◌, ◌-◌, ◌^◌, pos, Bool, true, false, not, ◌&&◌, ◌||◌, Option, none, some, List, [], ◌∷◌,
  Result, ok, err, ◌>>=◌, or_raise, length, leb, ltb, ◌==◌, if◌then◌else◌, Dict, lookup, has_key,
  is_in, name_eq, name_le, to_set,
}
use open_collate.Spec.Json.{
  Json, null, boolean, integral, fractional, text, array, object, no_items, no_fields, to_list,
  to_dict, RequestError, bad_semantics, bad_files, bad_file, duplicate_file, bad_assumptions,
  bad_properties, bad_id, two_sides, late_constant, bad_guards, key_error, obj, integer, get_or,
}
use open_collate.Spec.Names.{name, signal_name}
use open_collate.Spec.Request.{Reset, Guard, Expected, from_source, constant, Property, Spec}

-- `d[key]`
abbrev pub read : String → Dict Json → Result RequestError Json
read key d = or_raise key_error (lookup key d)

-- `max(a, b)`
abbrev pub larger : ℕ → ℕ → ℕ
larger a b = if ltb a b then b else a

-- `c in s`
abbrev pub has_code : ℕ → String → Bool
has_code k String.[] = false
has_code k (String.◌∷◌ c s) = code c == k || has_code k s

-- `s.split("/")`
abbrev put_front : Char → List String → List String
put_front c [] = (String.◌∷◌ c String.[]) ∷ []
put_front c (part ∷ parts) = (String.◌∷◌ c part) ∷ parts

abbrev pub split_path : String → List String
split_path String.[] = String.[] ∷ []
split_path (String.◌∷◌ c s) =
    let rest = split_path s in if code c == 47 then String.[] ∷ rest else put_front c rest

abbrev is_absolute : String → Bool
is_absolute String.[] = false
is_absolute (String.◌∷◌ c s) = code c == 47

-- A source path, on a POSIX system.
unfoldable pub file_path : Json → Result RequestError String
file_path (text f) =
    if name_eq f ""
      || (ltb 1024 (count f)
          || (has_code 0 f || (has_code 92 f || (is_absolute f || is_in ".." (split_path f)))))
    then err bad_file
    else ok f
file_path null = err bad_file
file_path (boolean b) = err bad_file
file_path (integral n) = err bad_file
file_path (fractional s) = err bad_file
file_path (array xs) = err bad_file
file_path (object d) = err bad_file

-- A check of every element, from the first on.
abbrev pub each {ℓ} :
    {A : Type ℓ} → (Json → Result RequestError A) → List Json → Result RequestError (List A)
each f [] = ok []
each f (x ∷ xs) = do a ← f x; rest ← each f xs; ok (a ∷ rest)

unfoldable pub source_files : Json → Result RequestError (List String)
unfolding file_path
source_files (array xs) =
    if not (leb 1 (length (to_list xs)) && leb (length (to_list xs)) 32) then err bad_files else do
      files ← each file_path (to_list xs)
      if not (length (to_set files) == length files) then err duplicate_file else ok files
source_files null = err bad_files
source_files (boolean b) = err bad_files
source_files (integral n) = err bad_files
source_files (fractional s) = err bad_files
source_files (text s) = err bad_files
source_files (object d) = err bad_files

abbrev read_reset : Json → Result RequestError (Option Reset)
read_reset r = do
  q ← obj r ("signal" ∷ "active" ∷ []) ("cycles" ∷ [])
  s ← read "signal" q
  reset_signal ← name s "reset signal"
  a ← read "active" q
  reset_active ← integer a 0 1 "reset active"
  reset_cycles ← integer (get_or "cycles" (integral (pos 1)) q) 1 16 "reset cycles"
  ok (some (record { signal = reset_signal; active = reset_active; cycles = reset_cycles }))

-- `r.get("reset") is not None`
unfoldable pub optional_reset : Option Json → Result RequestError (Option Reset)
optional_reset none = ok none
optional_reset (some null) = ok none
optional_reset (some (boolean b)) = read_reset (boolean b)
optional_reset (some (integral n)) = read_reset (integral n)
optional_reset (some (fractional s)) = read_reset (fractional s)
optional_reset (some (text s)) = read_reset (text s)
optional_reset (some (array xs)) = read_reset (array xs)
optional_reset (some (object d)) = read_reset (object d)

abbrev pub fixed_values : Dict Json → Result RequestError (Dict ℕ)
fixed_values [] = ok []
fixed_values ((k, v) ∷ d) = do
  key ← name (text k) "assumption"
  value ← integer v 0 (2 ^ 256 - 1) "assumption value"
  rest ← fixed_values d
  ok ((key, value) ∷ rest)

unfoldable pub read_assumptions : Json → Result RequestError (Dict ℕ)
read_assumptions (object d) =
    if ltb 256 (length (to_dict d)) then err bad_assumptions else fixed_values (to_dict d)
read_assumptions null = err bad_assumptions
read_assumptions (boolean b) = err bad_assumptions
read_assumptions (integral n) = err bad_assumptions
read_assumptions (fractional s) = err bad_assumptions
read_assumptions (text s) = err bad_assumptions
read_assumptions (array xs) = err bad_assumptions

unfoldable pub read_guard : Json → Result RequestError Guard
read_guard g = do
  d ← obj g ("signal" ∷ "equals" ∷ []) ("lag" ∷ [])
  s ← read "signal" d
  guarded ← signal_name s "guard signal"
  e ← read "equals" d
  value ← integer e 0 (2 ^ 256 - 1) "guard equals"
  back ← integer (get_or "lag" (integral (pos 0)) d) 0 16 "guard lag"
  ok (record { signal = guarded; equals = value; lag = back })

unfoldable pub read_guards : Json → Result RequestError (List Guard)
unfolding read_guard
read_guards (array xs) =
    if ltb 64 (length (to_list xs)) then err bad_guards else each read_guard (to_list xs)
read_guards null = err bad_guards
read_guards (boolean b) = err bad_guards
read_guards (integral n) = err bad_guards
read_guards (fractional s) = err bad_guards
read_guards (text s) = err bad_guards
read_guards (object d) = err bad_guards

-- `(lag, signal, equals)` at most that of the other guard
abbrev pub guard_le : Guard → Guard → Bool
guard_le g h =
    ltb g.lag h.lag
    || (g.lag == h.lag
        && (not (name_le h.signal g.signal)
            || (name_eq g.signal h.signal && leb g.equals h.equals)))

abbrev pub property_le : Property → Property → Bool
property_le p q = name_le p.id q.id

-- `sorted`, which keeps the order of equal elements
abbrev pub insert_by {ℓ} : {A : Type ℓ} → (A → A → Bool) → A → List A → List A
insert_by le x [] = x ∷ []
insert_by le x (y ∷ ys) = let rest = insert_by le x ys in if le x y then x ∷ y ∷ ys else y ∷ rest

abbrev pub sort_by {ℓ} : {A : Type ℓ} → (A → A → Bool) → List A → List A
sort_by le [] = []
sort_by le (x ∷ xs) = insert_by le x (sort_by le xs)

-- `max([latency, *(g["lag"] for g in guards)])`
abbrev pub history_of : ℕ → List Guard → ℕ
history_of latency [] = latency
history_of latency (g ∷ guards) = larger g.lag (history_of latency guards)

-- The side that the sink is compared with, with the test on the latency of a constant.
abbrev pub expected_of : ℕ → Option Json → Option Json → Result RequestError Expected
expected_of latency (some s) other = do value ← signal_name s "source"; ok (from_source value)
expected_of latency none none = err key_error
expected_of latency none (some e) = do
  value ← integer e 0 (2 ^ 256 - 1) "equals"
  if ltb 0 latency then err late_constant else ok (constant value)

abbrev pub reset_cycles_of : Option Reset → ℕ
reset_cycles_of none = 0
reset_cycles_of (some r) = r.cycles

module _ (is_space : Char → Bool) where
  abbrev all_space : String → Bool
  all_space String.[] = true
  all_space (String.◌∷◌ c s) = is_space c && all_space s

  -- The identity of a property, not among those before.
  unfoldable pub identity_of : Json → List String → Result RequestError String
  identity_of (text s) ids =
      if all_space s || (ltb 256 (count s) || is_in s ids) then err bad_id else ok s
  identity_of null ids = err bad_id
  identity_of (boolean b) ids = err bad_id
  identity_of (integral n) ids = err bad_id
  identity_of (fractional s) ids = err bad_id
  identity_of (array xs) ids = err bad_id
  identity_of (object d) ids = err bad_id

  -- The body of the loop over the properties.
  unfoldable pub read_property : Option Reset → List String → Json → Result RequestError Property
  unfolding identity_of read_guards
  read_property reset_part ids row = do
    q ← obj row ("id" ∷ "sink" ∷ []) ("source" ∷ "equals" ∷ "latency" ∷ "when" ∷ "start_cycle" ∷ [])
    i ← read "id" q
    identity ← identity_of i ids
    _ ←
        if (has_key "source" q && has_key "equals" q)
          || not (has_key "source" q || has_key "equals" q)
        then err two_sides
        else ok q
    s ← read "sink" q
    end ← signal_name s "sink"
    delay ← integer (get_or "latency" (integral (pos 0)) q) 0 16 "latency"
    side ← expected_of delay (lookup "source" q) (lookup "equals" q)
    guards ← read_guards (get_or "when" (array no_items) q)
    start ←
        integer
          (get_or "start_cycle"
            (integral (pos (reset_cycles_of reset_part + history_of delay guards))) q)
          (history_of delay guards) 128 "start_cycle"
    ok (record {
      id = identity;
      sink = end;
      latency = delay;
      expected = side;
      when = sort_by guard_le guards;
      start_cycle = start;
    })

  abbrev pub read_rows :
      Option Reset → List String → List Json → Result RequestError (List Property)
  read_rows reset_part ids [] = ok []
  read_rows reset_part ids (row ∷ rows) = do
    p ← read_property reset_part ids row
    rest ← read_rows reset_part (p.id ∷ ids) rows
    ok (p ∷ rest)

  unfoldable pub read_properties : Option Reset → Json → Result RequestError (List Property)
  unfolding read_property
  read_properties reset_part (array xs) =
      if not (leb 1 (length (to_list xs)) && leb (length (to_list xs)) 32)
      then err bad_properties
      else read_rows reset_part [] (to_list xs)
  read_properties reset_part null = err bad_properties
  read_properties reset_part (boolean b) = err bad_properties
  read_properties reset_part (integral n) = err bad_properties
  read_properties reset_part (fractional s) = err bad_properties
  read_properties reset_part (text s) = err bad_properties
  read_properties reset_part (object d) = err bad_properties

  -- `r["semantics"] != SEMANTICS`
  abbrev pub is_semantics : Json → Bool
  is_semantics (text s) = name_eq s "two-valued-synchronous"
  is_semantics _ = false

  module _ {ℓ} {P : Type ℓ}
      (normalize_preprocess : Json → List String → Result RequestError P) where
    abbrev pub prepared : List String → Option Json → Result RequestError (Option P)
    prepared files none = ok none
    prepared files (some value) = do p ← normalize_preprocess value files; ok (some p)

    unfoldable pub normalize : Json → Result RequestError (Spec P)
    unfolding source_files optional_reset read_assumptions read_properties
    normalize value = do
      r ←
          obj value ("schema_version" ∷ "semantics" ∷ "files" ∷ "top" ∷ "clock" ∷ "properties" ∷ [])
            ("reset" ∷ "assumptions" ∷ "depth" ∷ "induction" ∷ "preprocess" ∷ [])
      version ← read "schema_version" r
      _ ← integer version 1 1 "schema_version"
      semantics ← read "semantics" r
      _ ← if not (is_semantics semantics) then err bad_semantics else ok r
      paths ← read "files" r
      file_list ← source_files paths
      reset_part ← optional_reset (lookup "reset" r)
      fixed ← read_assumptions (get_or "assumptions" (object no_fields) r)
      rows ← read "properties" r
      props ← read_properties reset_part rows
      t ← read "top" r
      top_name ← name t "top"
      c ← read "clock" r
      clock_name ← name c "clock"
      steps ← integer (get_or "depth" (integral (pos 12)) r) 1 128 "depth"
      inductive ← integer (get_or "induction" (integral (pos 4)) r) 0 16 "induction"
      prepared_part ← prepared file_list (lookup "preprocess" r)
      ok (record {
        files = file_list;
        top = top_name;
        clock = clock_name;
        reset = reset_part;
        assumptions = fixed;
        depth = steps;
        induction = inductive;
        properties = sort_by property_le props;
        preprocess = prepared_part;
      })
