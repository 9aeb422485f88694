-- ===== src/Spec/Reading.antt =====
-- `read_json` of src/opencollate/sequential_spec.py. The contents of the file, the decoding of UTF-8 and
-- `json.loads`, which is given the two hooks, are arguments.
use Prim.Native.Char.{code}
use Prim.Native.String.{String}
use open_collate.Common.{
  ℕ, zero, suc, ◌+◌, ◌*◌, ℤ, pos, negsuc, Bool, true, false, not, ◌||◌, Option, List, [], ◌∷◌, ◌++◌,
  Result, ok, err, ◌>>=◌, or_raise, length, take, ltb, ◌==◌, if◌then◌else◌, Dict, has_key,
}
use open_collate.Spec.Json.{Json, Fields, no_fields, field, object}

pub data ReadError : Type 0 where
  too_large bad_encoding bad_json too_nested not_an_object : ReadError
  duplicate_key non_finite : String → ReadError

abbrev pub max_json_bytes : ℕ
max_json_bytes = 8 * 1_048_576

abbrev pub max_json_depth : ℕ
max_json_depth = 64

-- `depth, quoted, escaped`
pub record Scan : Type 0 where
  pub depth : ℤ
  pub quoted : Bool
  pub escaped : Bool

abbrev pub scan_start : Scan
scan_start = record { depth = pos 0; quoted = false; escaped = false }

-- `depth + 1` and `depth - 1`
abbrev pub deeper : ℤ → ℤ
deeper (pos n) = pos (suc n)
deeper (negsuc zero) = pos 0
deeper (negsuc (suc n)) = negsuc n

abbrev pub shallower : ℤ → ℤ
shallower (pos zero) = negsuc 0
shallower (pos (suc n)) = pos n
shallower (negsuc n) = negsuc (suc n)

-- `depth > 64`
abbrev pub is_too_nested : ℤ → Bool
is_too_nested (pos n) = ltb max_json_depth n
is_too_nested (negsuc n) = false

-- `ch in "[{"` and `ch in "]}"`
abbrev pub is_opening : ℕ → Bool
is_opening c = c == 91 || c == 123

abbrev pub is_closing : ℕ → Bool
is_closing c = c == 93 || c == 125

-- The body of the loop over the characters, in a string and outside of one.
abbrev pub scan_quoted : ℤ → Bool → ℕ → Scan
scan_quoted depth true c = record { depth = depth; quoted = true; escaped = false }
scan_quoted depth false c =
    if c == 92
    then record { depth = depth; quoted = true; escaped = true }
    else record { depth = depth; quoted = not (c == 34); escaped = false }

abbrev pub scan_plain : ℤ → Bool → ℕ → Result ReadError Scan
scan_plain depth escaped c =
    if c == 34
    then ok (record { depth = depth; quoted = true; escaped = escaped })
    else if is_opening c
    then (if is_too_nested (deeper depth)
        then err too_nested
        else ok (record { depth = deeper depth; quoted = false; escaped = escaped }))
    else if is_closing c
    then ok (record { depth = shallower depth; quoted = false; escaped = escaped })
    else ok (record { depth = depth; quoted = false; escaped = escaped })

abbrev pub scan_character : Scan → ℕ → Result ReadError Scan
scan_character s c =
    if s.quoted then ok (scan_quoted s.depth s.escaped c) else scan_plain s.depth s.escaped c

-- `for ch in text`
unfoldable pub check_depth : Scan → String → Result {0, 0} ReadError Unit
check_depth s String.[] = ok tt
check_depth s (String.◌∷◌ c text) = scan_character s (code c) >>= λ s'. check_depth s' text

-- The inner function `pairs`, from the dict so far.
unfoldable pub pairs_from : Dict Json → List (String × Json) → Result ReadError (Dict Json)
pairs_from result [] = ok result
pairs_from result ((key, val) ∷ items) =
    if has_key key result
    then err (duplicate_key key)
    else pairs_from (result ++ (key, val) ∷ []) items

abbrev pub of_dict : Dict Json → Fields
of_dict [] = no_fields
of_dict ((k, v) ∷ d) = field k v (of_dict d)

unfoldable pub pairs : List (String × Json) → Result ReadError Json
unfolding pairs_from
pairs items = do result ← pairs_from [] items; ok (object (of_dict result))

abbrev pub nonfinite : String → Result ReadError Json
nonfinite value = err (non_finite value)

abbrev pub only_object : Json → Result ReadError Json
only_object (object d) = ok (object d)
only_object _ = err not_an_object

unfoldable pub read_json :
    (List ℕ → Option String)
    → ((List (String × Json) → Result ReadError Json)
        → (String → Result ReadError Json)
        → String
        → Result ReadError Json)
    → List ℕ
    → Result ReadError Json
unfolding check_depth pairs
read_json decode loads contents =
    let data' = take (max_json_bytes + 1) contents in
    if ltb max_json_bytes (length data') then err too_large else do
      text ← or_raise bad_encoding (decode data')
      _ ← check_depth scan_start text
      value ← loads pairs nonfinite text
      only_object value
