-- ===== src/Value.antt =====
-- Go's `interface{}` values as the program meets them: what encoding/json decodes (numbers as
-- `json.Number`, or as `float64` where the decoder was not told otherwise) and the integers that the
-- scanner itself puts into a decoded object.
use hxscanner.Prelude.{ℕ, String, Option, none, some, List, [], ◌∷◌}
use hxscanner.Prelude.Int.{ℤ}
use hxscanner.Prelude.{Bool}

-- A map is a list of its entries in the order in which a `range` meets them.
mutual
  pub data Value : Type 0 where
    null : Value
    bool : Bool → Value
    -- `json.Number`, by its text
    number : String → Value
    float64 : String → Value
    int int32 int64 : ℤ → Value
    uint32 uint64 : ℕ → Value
    str : String → Value
    arr : Values → Value
    obj : Fields → Value

  pub data Values : Type 0 where
    nil : Values
    cons : Value → Values → Values

  pub data Fields : Type 0 where
    end : Fields
    field : String → Value → Fields → Fields

abbrev pub Object : Type 0
Object = List (String × Value)

abbrev pub values : Values → List Value
values nil = []
values (cons v vs) = v ∷ values vs

abbrev pub entries : Fields → Object
entries end = []
entries (field k v fs) = (k, v) ∷ entries fs

abbrev pub fields : Object → Fields
fields [] = end
fields ((k, v) ∷ m) = field k v (fields m)

-- `v.(string)`
abbrev pub as_string : Value → Option String
as_string (str s) = some s
as_string _ = none

-- `v.([]interface{})`
abbrev pub as_array : Value → Option (List Value)
as_array (arr vs) = some (values vs)
as_array _ = none

-- `v.(map[string]interface{})`
abbrev pub as_object : Value → Option Object
as_object (obj fs) = some (entries fs)
as_object _ = none

-- `v.(json.Number)`
abbrev pub as_number : Value → Option String
as_number (number n) = some n
as_number _ = none
