-- ===== src/Spec/Names.antt =====
-- The names that src/opencollate/sequential_spec.py admits: `IDENTIFIER` and `SIGNAL_PATH` of
-- src/opencollate/sequential_rtl.py, `name` and `signal_name`.
use Prim.Native.Char.{code}
use Prim.Native.String.{String, count}
use open_collate.Common.{
  ℕ, Bool, true, false, not, ◌&&◌, ◌||◌, Result, ok, err, leb, ltb, ◌==◌, if◌then◌else◌,
}
use open_collate.Spec.Json.{
  Json, text, null, boolean, integral, fractional, array, object, RequestError, bad_name,
  bad_signal_name,
}

abbrev is_between : ℕ → ℕ → ℕ → Bool
is_between lo hi c = leb lo c && leb c hi

-- `[A-Za-z_]`
abbrev pub starts_name : ℕ → Bool
starts_name c = is_between 65 90 c || (is_between 97 122 c || c == 95)

-- `[A-Za-z0-9_$]`
abbrev pub continues_name : ℕ → Bool
continues_name c = starts_name c || (is_between 48 57 c || c == 36)

abbrev all_continue : String → Bool
all_continue String.[] = true
all_continue (String.◌∷◌ c s) = continues_name (code c) && all_continue s

-- `IDENTIFIER.fullmatch`
unfoldable pub is_identifier : String → Bool
is_identifier String.[] = false
is_identifier (String.◌∷◌ c s) = starts_name (code c) && all_continue s

-- The states of a reader of `SIGNAL_PATH`: at the start of a name, in a name, after `[`, after its
-- minus sign, after an index 0, in another index, after `]`, and after what does not match.
pub data PathState : Type 0 where
  at_start in_name after_bracket after_minus after_zero in_index after_index no_match : PathState

abbrev index_digit : ℕ → PathState
index_digit c = if c == 48 then after_zero else if is_between 49 57 c then in_index else no_match

abbrev after_part : ℕ → PathState
after_part c = if c == 91 then after_bracket else if c == 46 then at_start else no_match

abbrev pub path_step : PathState → ℕ → PathState
path_step at_start c = if starts_name c then in_name else no_match
path_step in_name c = if continues_name c then in_name else after_part c
path_step after_bracket c = if c == 45 then after_minus else index_digit c
path_step after_minus c = index_digit c
path_step after_zero c = if c == 93 then after_index else no_match
path_step in_index c =
    if is_between 48 57 c then in_index else if c == 93 then after_index else no_match
path_step after_index c = after_part c
path_step no_match c = no_match

abbrev pub path_accepts : PathState → String → Bool
path_accepts in_name String.[] = true
path_accepts after_index String.[] = true
path_accepts at_start String.[] = false
path_accepts after_bracket String.[] = false
path_accepts after_minus String.[] = false
path_accepts after_zero String.[] = false
path_accepts in_index String.[] = false
path_accepts no_match String.[] = false
path_accepts state (String.◌∷◌ c s) = path_accepts (path_step state (code c)) s

-- `SIGNAL_PATH.fullmatch`
unfoldable pub is_signal_path : String → Bool
is_signal_path s = path_accepts at_start s

-- `name`
unfoldable pub name : Json → String → Result RequestError String
unfolding is_identifier
name (text s) label =
    if ltb 256 (count s) || not (is_identifier s) then err (bad_name label) else ok s
name null label = err (bad_name label)
name (boolean b) label = err (bad_name label)
name (integral n) label = err (bad_name label)
name (fractional s) label = err (bad_name label)
name (array xs) label = err (bad_name label)
name (object d) label = err (bad_name label)

-- `signal_name`
unfoldable pub signal_name : Json → String → Result RequestError String
unfolding is_signal_path
signal_name (text s) label =
    if ltb 256 (count s) || not (is_signal_path s) then err (bad_signal_name label) else ok s
signal_name null label = err (bad_signal_name label)
signal_name (boolean b) label = err (bad_signal_name label)
signal_name (integral n) label = err (bad_signal_name label)
signal_name (fractional s) label = err (bad_signal_name label)
signal_name (array xs) label = err (bad_signal_name label)
signal_name (object d) label = err (bad_signal_name label)
