-- ===== src/Scanner/TableIndex.antt =====
-- The table that the first operation of a type makes, and its index (src/scanner/scanner.go).
use hxscanner.Prelude.{
  ℕ, ◌+◌, ◌≡◌, refl, String, Bool, true, false, none, some, [], ◌∷◌, ◌==◌, lookup, not, Bool-cases,
  inl, inr, if◌then◌else◌,
}
use mathlib.Core.Option.{none-ne-some}
use hxscanner.Prelude.Int.{ℤ, pos}
use hxscanner.Value.{Value, Object, int, str}
use hxscanner.Types.{HxBlock}
use hxscanner.Env.{Error, Result, ok, err, Env}
use hxscanner.Exec.{
  World, done, failed, fatal, pure, fail, ◌>>=◌, ask, gets, write, sql, or_exit, exec_checked,
}
use hxscanner.Exec.Leads.{Reliable}
use hxscanner.Exec.Quiet.{Quiet}
use hxscanner.Db.Schema.{Db, has_column}
use hxscanner.Db.Dynamic.{
  find_quoted, find_unquoted, has_place, found_row, check_table_exist, create_table, create_index,
  add_table, add_index, no_relation, refers,
}
use hxscanner.Db.TableIndex.{with_table, with_index_of, add_index-new}
use hxscanner.Node.Names.{
  get_operation_name_by_operation_type, get_operation_table_name_by_operation_name,
}
use hxscanner.Node.TableNames.{unindexed_names, named-refers}
use hxscanner.Plugins.Utils.{is_string_in_array}
use hxscanner.Scanner.Operation.{enrich, columns_of, ensure_table}
use hxscanner.Scanner.Enrich.{lookup-enrich}

-- Every key of the object is a column of the table that is made from it.
has_column-columns_of :
    (k : String) (v : Value) (o : Object)
    → lookup k o ≡ some v
    → has_column (record { columns = columns_of o }) k ≡ true
unfolding has_column
has_column-columns_of k v [] h = absurd (none-ne-some v h)
has_column-columns_of k v ((j, u) ∷ o) h = elim (Bool-cases (j == k)) [
  | inl e ↦ rw e refl
  | inr e ↦ rw e (has_column-columns_of k v o (rw e at h))
]

has_place-enrich :
    (b : HxBlock) (trxid : String) (i : ℕ) (op_json : Object)
    → has_place (record { columns = columns_of (enrich b trxid i op_json) }) ≡ true
has_place-enrich b trxid i op_json =
    let added = lookup-enrich b trxid i op_json in
    rw
      (
        has_column-columns_of "trxid" (str trxid) (enrich b trxid i op_json) added.1,
        has_column-columns_of "index_in_tx" (int (pos i)) (enrich b trxid i op_json) added.2,
      )
      refl

module _ (E : Env) (quiet : Quiet E) (rel : Reliable E) where
  -- The look-up of a table that is not there.
  check_table_exist-missing :
      (name : String) (w : World)
      → find_quoted name w.db ≡ none
      → check_table_exist E name w ≡ (done false, record w { tick = w.tick + 1 + 1 })
  unfolding check_table_exist found_row sql ask gets pure ◌>>=◌
  check_table_exist-missing name w missing = rw (quiet w.tick, rel (w.tick + 1), missing) refl

  -- A statement that the server takes, and one that it refuses.
  exec_checked-ok :
      (f : Db → Result Db) (w : World) (d : Db)
      → f w.db ≡ ok d
      → exec_checked E f w ≡ (done tt, record w { tick = w.tick + 1 + 1; db = d })
  unfolding exec_checked sql ask write pure ◌>>=◌
  exec_checked-ok f w d taken = rw (quiet w.tick, quiet (w.tick + 1), taken) refl

  exec_checked-err :
      (f : Db → Result Db) (w : World) (e : Error)
      → f w.db ≡ err e
      → exec_checked E f w ≡ (failed e, record w { tick = w.tick + 1 + 1 })
  unfolding exec_checked sql ask fail pure ◌>>=◌
  exec_checked-err f w e refused = rw (quiet w.tick, quiet (w.tick + 1), refused) refl

  -- The statements of a table that is not there yet.
  ensure_table-new :
      (name : String) (o : Object) (w : World) (b : Bool) (d : Db)
      → find_quoted name w.db ≡ none
      → add_index name (with_table name (columns_of o) w.db) ≡ (if b then ok d else err no_relation)
      → ((ensure_table E name o w).0 ≡ (if b then done tt else fatal no_relation))
        × ((ensure_table E name o w).1.db ≡ (if b then d else with_table name (columns_of o) w.db))
  unfolding ensure_table create_table create_index or_exit ◌>>=◌
  ensure_table-new name o w b d missing indexed =
      rw
        (
          check_table_exist-missing name w missing,
          exec_checked-ok (add_table name (columns_of o)) (record w { tick = w.tick + 1 + 1 })
              (with_table name (columns_of o) w.db) (rw missing refl),
        )
        (last b indexed)
    where
      made : World
      made = record w { tick = w.tick + 1 + 1 + 1 + 1; db = with_table name (columns_of o) w.db }

      last :
          (b : Bool)
          → add_index name made.db ≡ (if b then ok d else err no_relation)
          → ((or_exit (exec_checked E (add_index name)) made).0
              ≡ (if b then done tt else fatal no_relation))
            × ((or_exit (exec_checked E (add_index name)) made).1.db ≡ (if b then d else made.db))
      last true h = rw (exec_checked-ok (add_index name) made d h) (refl, refl)
      last false h = rw (exec_checked-err (add_index name) made no_relation h) (refl, refl)

-- Take a driver that reports no error, a reliable row iteration, and an operation type whose table is not
-- there, with no older table that answers to the table's name without quotes. For a type that is none of the three whose
-- names have capitals or colons, the table of the first operation is made and then its index. For these
-- three the table is made, but the statement for the index does not find it, at which the process exits.
pub ensure_table-named :
    (E : Env) (t : ℤ) (name : String) (b : HxBlock) (trxid : String) (i : ℕ) (op_json : Object)
    (w : World)
    → Quiet E
    → Reliable E
    → get_operation_name_by_operation_type t ≡ ok name
    → find_quoted (get_operation_table_name_by_operation_name name) w.db ≡ none
    → find_unquoted (get_operation_table_name_by_operation_name name) w.db ≡ none
    → let table = get_operation_table_name_by_operation_name name in
      let made = with_table table (columns_of (enrich b trxid i op_json)) w.db in
      let r = ensure_table E table (enrich b trxid i op_json) w in
      (r.0 ≡ (if is_string_in_array name unindexed_names then fatal no_relation else done tt))
      × (r.1.db
          ≡ (if is_string_in_array name unindexed_names then made else with_index_of table made))
ensure_table-named E t name b trxid i op_json w quiet rel named missing older =
    part (is_string_in_array name unindexed_names)
      (ensure_table-new E quiet rel table o w (refers table table) _ missing
        (add_index-new table (columns_of o) w.db older (has_place-enrich b trxid i op_json)))
      (named-refers t name named)
  where
    table : String
    table = get_operation_table_name_by_operation_name name

    o : Object
    o = enrich b trxid i op_json

    made : Db
    made = with_table table (columns_of o) w.db

    part :
        (u : Bool)
        → ((ensure_table E table o w).0
            ≡ (if refers table table then done tt else fatal no_relation))
          × ((ensure_table E table o w).1.db
              ≡ (if refers table table then with_index_of table made else made))
        → refers table table ≡ not u
        → ((ensure_table E table o w).0 ≡ (if u then fatal no_relation else done tt))
          × ((ensure_table E table o w).1.db ≡ (if u then made else with_index_of table made))
    part true h r = rw r at h
    part false h r = rw r at h
