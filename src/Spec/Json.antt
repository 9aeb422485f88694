-- ===== src/Spec/Json.antt =====
-- What `json.loads` returns, and the shape checks `obj` and `integer` of
-- src/opencollate/sequential_spec.py.
use Prim.Native.String.{String}
use open_collate.Common.{
  ℕ, ℤ, pos, negsuc, Bool, true, not, ◌&&◌, ◌||◌, Option, none, some, List, [], ◌∷◌, ◌++◌, Result,
  ok, err, leb, if◌then◌else◌, Dict, keys, lookup, is_in,
}

mutual
  pub data Json : Type 0 where
    null : Json
    boolean : Bool → Json
    integral : ℤ → Json
    -- a number with a fraction, by its text
    fractional : String → Json
    text : String → Json
    array : Items → Json
    object : Fields → Json

  pub data Items : Type 0 where
    no_items : Items
    item : Json → Items → Items

  pub data Fields : Type 0 where
    no_fields : Fields
    field : String → Json → Fields → Fields

abbrev pub to_list : Items → List Json
to_list no_items = []
to_list (item x xs) = x ∷ to_list xs

abbrev pub to_dict : Fields → Dict Json
to_dict no_fields = []
to_dict (field k x d) = (k, x) ∷ to_dict d

-- The errors of requests: a `SequentialError` by its message, and the exceptions of Python's own reads.
pub data RequestError : Type 0 where
  bad_integer bad_name bad_signal_name : String → RequestError
  bad_object bad_semantics bad_files bad_file duplicate_file bad_assumptions bad_properties bad_id
        two_sides :
      RequestError
  late_constant bad_guards undriven_signal wide_value assumed_state bad_reset assumed_reset
        unequal_widths short_depth :
      RequestError
  key_error index_error : RequestError

-- `set(names) - others`
abbrev pub none_outside : List String → List String → Bool
none_outside [] others = true
none_outside (x ∷ names) others = is_in x others && none_outside names others

-- `obj`
unfoldable pub obj : Json → List String → List String → Result RequestError (Dict Json)
obj (object d) required optional =
    if not (none_outside (keys (to_dict d)) (required ++ optional))
      || not (none_outside required (keys (to_dict d)))
    then err bad_object
    else ok (to_dict d)
obj null required optional = err bad_object
obj (boolean b) required optional = err bad_object
obj (integral n) required optional = err bad_object
obj (fractional s) required optional = err bad_object
obj (text s) required optional = err bad_object
obj (array xs) required optional = err bad_object

-- `integer`, whose bounds are never negative
unfoldable pub integer : Json → ℕ → ℕ → String → Result RequestError ℕ
integer (integral (pos n)) lo hi label =
    if leb lo n && leb n hi then ok n else err (bad_integer label)
integer (integral (negsuc n)) lo hi label = err (bad_integer label)
integer null lo hi label = err (bad_integer label)
integer (boolean b) lo hi label = err (bad_integer label)
integer (fractional s) lo hi label = err (bad_integer label)
integer (text s) lo hi label = err (bad_integer label)
integer (array xs) lo hi label = err (bad_integer label)
integer (object d) lo hi label = err (bad_integer label)

-- `r.get(name, default)`
abbrev pub or_default : Json → Option Json → Json
or_default value none = value
or_default value (some found) = found

abbrev pub get_or : String → Json → Dict Json → Json
get_or name value d = or_default value (lookup name d)
