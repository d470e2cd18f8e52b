-- ===== src/Db/RowLookup.antt =====
-- A column of the row that `InsertDynamicOperation` makes of an operation's object.
use hxscanner.Prelude.{
  ◌≡◌, refl, sym, ap, ◌∙◌, String, Bool, true, false, none, some, [], ◌∷◌, lookup, ◌==◌, ◌⊎◌,
  eq_iff, Bool-cases, inl, inr,
}
use hxscanner.Value.{Value, Object}
use hxscanner.Env.{Result, ok, err, ok-injective, Env}
use mathlib.Core.Option.{none-ne-some, some-injective}
use mathlib.Core.Bool.{true≢false}
use hxscanner.Db.Schema.{PgTableSchema, has_column}
use hxscanner.Db.Dynamic.{sql_value}
use hxscanner.Db.Rows.{column_values}

-- What the row of an object with one more entry is made of.
data RowCase (E : Env) (schema : PgTableSchema) (key : String) (v : Value) (op_json row : Object)
    : Type 0 where
  passed_over :
      has_column schema key ≡ false
      → column_values E schema op_json ≡ ok row
      → RowCase E schema key v op_json row
  taken_up :
      has_column schema key ≡ true
      → (x : Value) (rest : Object) → sql_value E v ≡ ok x
      → column_values E schema op_json ≡ ok rest
      → (key, x) ∷ rest ≡ row
      → RowCase E schema key v op_json row

other_column :
    (schema : PgTableSchema) (key k : String)
    → has_column schema key ≡ true
    → has_column schema k ≡ false
    → (key == k) ≡ false
other_column schema key k is_col no_col = elim (Bool-cases (key == k)) [
  | inl same ↦
      absurd (true≢false (sym is_col ∙ ap (has_column schema) ((eq_iff key k).0 same) ∙ no_col))
  | inr apart ↦ apart
]

row-RowCase :
    (E : Env) (schema : PgTableSchema) (key : String) (v : Value) (op_json row : Object)
    → column_values E schema ((key, v) ∷ op_json) ≡ ok row
    → RowCase E schema key v op_json row
unfolding column_values
row-RowCase E schema key v op_json row h = by_column (has_column schema key) refl h
  where
    by_rest :
        has_column schema key ≡ true
        → (x : Value) (s : Result Object) → sql_value E v ≡ ok x
        → column_values E schema op_json ≡ s
        → elim s [ err e ↦ err e | ok rest ↦ ok ((key, x) ∷ rest) ] ≡ ok row
        → RowCase E schema key v op_json row
    by_rest c x (err y) e f h = cc
    by_rest c x (ok rest) e f h = taken_up c x rest e f (ok-injective _ row h)

    by_value :
        has_column schema key ≡ true
        → (r : Result Value) → sql_value E v ≡ r
        → elim r [
          | err e ↦ err e
          | ok x ↦ elim (column_values E schema op_json) [
            | err e ↦ err e
            | ok rest ↦ ok ((key, x) ∷ rest)
          ]
        ]
          ≡ ok row
        → RowCase E schema key v op_json row
    by_value c (err y) e h = cc
    by_value c (ok x) e h = by_rest c x (column_values E schema op_json) e refl h

    by_column :
        (c : Bool)
        → has_column schema key ≡ c
        → elim c [
          | false ↦ column_values E schema op_json
          | true ↦ elim (sql_value E v) [
            | err e ↦ err e
            | ok x ↦ elim (column_values E schema op_json) [
              | err e ↦ err e
              | ok rest ↦ ok ((key, x) ∷ rest)
            ]
          ]
        ]
          ≡ ok row
        → RowCase E schema key v op_json row
    by_column false e h = passed_over e h
    by_column true e h = by_value e (sql_value E v) refl h

-- A column of the row has the bound value of the object's property.
pub lookup-column_values :
    (E : Env) (schema : PgTableSchema) (k : String) (op_json row : Object) (v x : Value)
    → column_values E schema op_json ≡ ok row
    → has_column schema k ≡ true
    → lookup k op_json ≡ some v
    → sql_value E v ≡ ok x
    → lookup k row ≡ some x
lookup-column_values E schema k [] row v x e col has val = absurd (none-ne-some v has)
lookup-column_values E schema k ((key, u) ∷ op_json) row v x e col has val =
    by_case (row-RowCase E schema key u op_json row e) (Bool-cases (key == k))
      (λ rest f later. lookup-column_values E schema k op_json rest v x f col later val)
  where
    by_case :
        RowCase E schema key u op_json row
        → ((key == k) ≡ true) ⊎ ((key == k) ≡ false)
        → ((rest : Object)
            → column_values E schema op_json ≡ ok rest
            → lookup k op_json ≡ some v
            → lookup k rest ≡ some x)
        → lookup k row ≡ some x
    by_case (passed_over no_col f) (inl here) ih =
        absurd
          (true≢false (sym col ∙ ap (has_column schema) (sym ((eq_iff key k).0 here)) ∙ no_col))
    by_case (passed_over no_col f) (inr there) ih = ih row f (rw there at has)
    by_case (taken_up is_col y rest f g is) (inl here) ih =
        let same : u ≡ v = some-injective u v (rw here at has) in
        let same_value : y ≡ x = ok-injective y x (sym f ∙ ap (sql_value E) same ∙ val) in
        rw (sym is) (rw here (ap some same_value))
    by_case (taken_up is_col y rest f g is) (inr there) ih =
        rw (sym is) (rw there (ih rest g (rw there at has)))

-- The row has nothing under a name that is no column.
pub lookup-column_values_missing :
    (E : Env) (schema : PgTableSchema) (k : String) (op_json row : Object)
    → column_values E schema op_json ≡ ok row
    → has_column schema k ≡ false
    → lookup k row ≡ none
unfolding column_values
lookup-column_values_missing E schema k [] row e col = ap (lookup k) (ok-injective row [] (sym e))
lookup-column_values_missing E schema k ((key, u) ∷ op_json) row e col =
    by_case (row-RowCase E schema key u op_json row e)
      (λ rest f. lookup-column_values_missing E schema k op_json rest f col)
  where
    by_case :
        RowCase E schema key u op_json row
        → ((rest : Object) → column_values E schema op_json ≡ ok rest → lookup k rest ≡ none)
        → lookup k row ≡ none
    by_case (passed_over no_col f) ih = ih row f
    by_case (taken_up is_col y rest f g is) ih =
        let apart : (key == k) ≡ false = other_column schema key k is_col col in
        rw (sym is) (rw apart (ih rest g))
