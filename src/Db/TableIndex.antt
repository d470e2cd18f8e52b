-- ===== src/Db/TableIndex.antt =====
-- Which tables of operations can be indexed: the statement that makes a table gives its name in quotes, the one that
-- makes its index does not.
use hxscanner.Prelude.{
  ◌≡◌, refl, sym, String, Bool, true, false, none, some, List, [], ◌∷◌, ◌++◌, find?, not,
  Bool-cases, inl, inr, if◌then◌else◌,
}
use hxscanner.Env.{ok, err}
use mathlib.Core.Option.{none-ne-some}
use hxscanner.Db.Schema.{Db, PgTableSchemaColumn, OpTable}
use hxscanner.Db.Dynamic.{
  add_index, find_unquoted, has_place, in_relation, mark_indexed, refers, no_relation, no_column,
}

-- The index statement of a new table, which gives the table's name without quotes.
find_unquoted-new :
    (name : String) (t : OpTable) (ts : List OpTable)
    → find? (λ s. refers name s.name) ts ≡ none
    → find? (λ s. refers name s.name) (ts ++ t ∷ []) ≡ (if refers name t.name then some t else none)
find_unquoted-new name t [] h = refl
find_unquoted-new name t (s ∷ ts) h = elim (Bool-cases (refers name s.name)) [
  | inl e ↦ absurd (none-ne-some s (sym (rw e at h)))
  | inr e ↦ rw e (find_unquoted-new name t ts (rw e at h))
]

-- The database with a new table.
abbrev pub with_table : String → List PgTableSchemaColumn → Db → Db
with_table name cols d = record d {
  op_tables =
      d.op_tables
      ++ record { name = name; schema = record { columns = cols }; indexed = false; op_rows = [] }
        ∷ [];
}

-- And with its index.
abbrev pub with_index_of : String → Db → Db
with_index_of name d = record d { op_tables = mark_indexed name d.op_tables }

-- A table that was just made with the two columns, whose name no older table answers to, can be indexed exactly
-- if its name stands for itself without quotes.
pub add_index-new :
    (name : String) (cols : List PgTableSchemaColumn) (d : Db)
    → find_unquoted name d ≡ none
    → has_place (record { columns = cols }) ≡ true
    → add_index name (with_table name cols d) ≡ (
        if refers name name
        then ok (with_index_of name (with_table name cols d))
        else err no_relation)
unfolding find_unquoted
add_index-new name cols d none_older place =
    rw (find_unquoted-new name _ d.op_tables none_older) (part (refers name name))
  where
    new_db : Db
    new_db = with_table name cols d

    part :
        (b : Bool)
        → in_relation
            (if b
              then some (record {
                name = name;
                schema = record { columns = cols };
                indexed = false;
                op_rows = [];
              })
              else none)
            (λ t.
              if not (has_place t.schema)
              then err no_column
              else if t.indexed
              then err "relation already exists"
              else ok (with_index_of name new_db))
          ≡ (if b then ok (with_index_of name new_db) else err no_relation)
    part true = rw place refl
    part false = refl
