-- ===== src/Spec/Tests.antt =====
-- Runs of the normalisation of requests, and its theorem at a concrete request.
use Prim.Native.Char.{Char, code}
use Prim.Native.String.{String}
use open_collate.Common.{
  ℕ, zero, suc, ◌≡◌, refl, pos, Bool, true, false, some, List, [], ◌∷◌, Result, ok, err, ◌==◌,
  returned_value,
}
use open_collate.Spec.Json.{
  Json, null, integral, text, array, object, no_items, item, no_fields, field, RequestError,
  bad_object, two_sides, obj, integer,
}
use open_collate.Spec.Names.{is_signal_path, name, signal_name}
use open_collate.Spec.Request.{Spec}
use open_collate.Spec.Normalize.{normalize}
use open_collate.Spec.Bounds.{IsBounded, normalize-IsBounded}
use open_collate.Spec.Reading.{
  ReadError, too_nested, duplicate_key, not_an_object, scan_start, check_depth, pairs, read_json,
}
use open_collate.Spec.Depth.{opening, closing, brackets, Decides, check_depth-Decides}

abbrev is_blank : Char → Bool
is_blank c = code c == 32

-- No request here has the field that this would read.
abbrev no_preprocess : Json → List String → Result RequestError ℕ
no_preprocess value files = err bad_object

abbrev delayed : Json
delayed = object (
    field "id" (text "q follows a") (
      field "sink" (text "core.q[3]")
        (field "source" (text "a") (field "latency" (integral (pos 2)) no_fields))))

abbrev request_of : Json → Json
request_of row = object (
    field "schema_version" (integral (pos 1)) (
      field "semantics" (text "two-valued-synchronous") (
        field "files" (array (item (text "rtl/top.sv") no_items)) (
          field "top" (text "top") (
            field "clock" (text "clk") (
              field "reset"
                (object (field "signal" (text "rst") (field "active" (integral (pos 1)) no_fields)))
                (field "properties" (array (item row no_items)) no_fields)))))))

indexed_path : is_signal_path "a.b[-12][0].c$" ≡ true
unfolding is_signal_path
indexed_path = refl

padded_index : is_signal_path "a[01]" ≡ false
unfolding is_signal_path
padded_index = refl

no_side :
    normalize is_blank no_preprocess
      (request_of (object (field "id" (text "p") (field "sink" (text "q") no_fields))))
    ≡ err two_sides
unfolding normalize obj integer name signal_name
no_side = refl

accepted : (s : Spec ℕ) × (normalize is_blank no_preprocess (request_of delayed) ≡ ok s)
unfolding normalize obj integer name signal_name
accepted = returned_value (normalize is_blank no_preprocess (request_of delayed)) refl

normalize-IsBounded_example : IsBounded accepted.0
normalize-IsBounded_example =
    normalize-IsBounded is_blank no_preprocess (request_of delayed) accepted.1

-- A bracket in a string, behind an escaped quote, is not one.
quoted_bracket : brackets false "{\"a\\\"[\": [1]}" ≡ opening ∷ opening ∷ closing ∷ closing ∷ []
quoted_bracket = refl

shallow_text : check_depth scan_start "]{\"[\":[1]}" ≡ ok tt
unfolding check_depth
shallow_text = refl

check_depth-Decides_example : Decides "{\"[\":[1]}" (check_depth scan_start "{\"[\":[1]}")
check_depth-Decides_example = check_depth-Decides "{\"[\":[1]}"

abbrev nested : ℕ → String
nested zero = String.[]
nested (suc n) = String.◌∷◌ "[" (nested n)

deep_text : check_depth scan_start (nested 65) ≡ err too_nested
unfolding check_depth
deep_text = refl

repeated_key : pairs (("a", null) ∷ ("b", null) ∷ ("a", null) ∷ []) ≡ err (duplicate_key "a")
unfolding pairs
repeated_key = refl

-- A document that is a constant, whatever the text is.
abbrev loads_null :
    (List (String × Json) → Result ReadError Json)
    → (String → Result ReadError Json)
    → String
    → Result ReadError Json
loads_null pairs_hook constant_hook s = ok null

no_object : read_json (λ bytes. some "null") loads_null [] ≡ err not_an_object
unfolding read_json
no_object = refl
