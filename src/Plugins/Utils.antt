-- ===== src/Plugins/Utils.antt =====
-- src/plugins/utils.go, and `mapGetString` of asset_maybe_change_plugin.go.
use hxscanner.Prelude.{
  String, Bool, true, false, Option, none, some, List, [], ◌∷◌, ◌==◌, lookup, if◌then◌else◌,
}
use hxscanner.Prelude.Int.{ℤ}
use hxscanner.Strconv.{parse_int}
use hxscanner.Value.{Value, Object, number, int32, int64, as_string, as_array}

unfoldable pub is_string_in_array : String → List String → Bool
is_string_in_array item [] = false
is_string_in_array item (val ∷ vals) = if val == item then true else is_string_in_array item vals

unfoldable pub is_all_in_array : List String → List String → Bool
unfolding is_string_in_array
is_all_in_array [] vals = true
is_all_in_array (item ∷ items) vals =
    if is_string_in_array item vals then is_all_in_array items vals else false

abbrev cons_text : Option String → Option (List String) → Option (List String)
cons_text none rest = none
cons_text (some s) none = none
cons_text (some s) (some rest) = some (s ∷ rest)

unfoldable pub obj_array_to_string_array : List Value → Option (List String)
obj_array_to_string_array [] = some []
obj_array_to_string_array (item ∷ items) =
    cons_text (as_string item) (obj_array_to_string_array items)

abbrev strings_of : Option (List Value) → Option (List String)
strings_of none = none
strings_of (some vs) = obj_array_to_string_array vs

unfoldable pub obj_to_string_array : Value → Option (List String)
unfolding obj_array_to_string_array
obj_to_string_array v = strings_of (as_array v)

abbrev string_of : Option Value → Option String
string_of none = none
string_of (some v) = as_string v

unfoldable pub get_string_prop_from_json_obj : Object → String → Option String
get_string_prop_from_json_obj json_obj prop = string_of (lookup prop json_obj)

unfoldable pub map_get_string : Object → String → Option String
map_get_string m key = string_of (lookup key m)

abbrev int_of : Option Value → Option ℤ
int_of (some (int64 n)) = some n
int_of (some (int32 n)) = some n
int_of (some (number s)) = parse_int s
int_of o = none

unfoldable pub get_int_prop_from_json_obj : Object → String → Option ℤ
get_int_prop_from_json_obj json_obj prop = int_of (lookup prop json_obj)
