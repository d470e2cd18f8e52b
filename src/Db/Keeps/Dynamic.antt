-- ===== src/Db/Keeps/Dynamic.antt =====
-- What the functions on operation tables and on contract receipts leave alone.
use mathlib.Core.Path.{subst}
use hxscanner.Prelude.{
  ℕ, ◌≡◌, refl, String, Bool, true, false, Option, none, some, List, [], ◌∷◌, not, if◌then◌else◌,
}
use hxscanner.Value.{Value, Object}
use hxscanner.Types.{HxContractOpReceipt, HxContractOpReceiptEvent}
use hxscanner.Env.{Error, Result, ok, err, Env, ok-injective}
use hxscanner.Db.Table.{Table, unless_found-eq-ok}
use hxscanner.Db.Schema.{
  Db, OpTable, PgTableSchema, PgTableSchemaColumn, ReceiptRow, ReceiptEventRow,
}
use hxscanner.Exec.Keeps.{
  Keeps, Keeps-bind, Keeps-exec_checked, Keeps-ask, Keeps-if, Keeps-fail, Keeps-sql, Keeps-pure,
  Keeps-write, keeps_rules,
}
use hxscanner.Db.Receipts.{save_contract_op_receipt, save_events, insert_receipt, marshal_array}
use hxscanner.Db.Dynamic.{
  check_table_exist, check_operation_exist, get_table_schema, create_table, create_index,
  insert_dynamic_operation, in_relation, find_quoted, find_unquoted, all_columns, exists_in,
  found_row, scan_columns, add_index, mark_indexed, has_place, no_column,
}

pub in_relation-eq-ok :
    (o : Option OpTable) (k : OpTable → Result Db) (d' : Db)
    → in_relation o k ≡ ok d'
    → (t : OpTable) × (o ≡ some t) × (k t ≡ ok d')
in_relation-eq-ok none k d' h = cc
in_relation-eq-ok (some t) k d' h = (t, refl, h)

pub if-eq-ok :
    {A : Type 0} (b : Bool) (e : Error) (x y : A) → (if b then ok x else err e) ≡ ok y → x ≡ y
if-eq-ok true e x y h = ok-injective x y h
if-eq-ok false e x y h = cc

-- What CREATE INDEX leaves when it succeeds.
add_index-eq-ok :
    (name : String) (d d' : Db)
    → add_index name d ≡ ok d'
    → record d { op_tables = mark_indexed name d.op_tables } ≡ d'
add_index-eq-ok name d d' e =
    let (t, found, e') = in_relation-eq-ok (find_unquoted name d) _ d' e in
    part (has_place t.schema) t.indexed e'
  where
    part :
        (place indexed : Bool)
        → (if not place
            then err no_column
            else if indexed
            then err "relation already exists"
            else ok (record d { op_tables = mark_indexed name d.op_tables }))
          ≡ ok d'
        → record d { op_tables = mark_indexed name d.op_tables } ≡ d'
    part false indexed h = cc
    part true true h = cc
    part true false h = ok-injective _ d' h

module _ (E : Env) {P : Db → Type 0} where
  Keeps-found_row : {A : Type 0} (o : Option A) → Keeps P (found_row E o)
  unfolding found_row
  Keeps-found_row none = search keeps_rules
  Keeps-found_row (some a) = search keeps_rules

  Keeps-exists_in :
      (t : String) (i : ℕ) (stop : Bool) (o : Option OpTable) → Keeps P (exists_in E t i stop o)
  unfolding exists_in
  Keeps-exists_in t i stop none = search keeps_rules
  Keeps-exists_in t i stop (some o) = Keeps-if _ _ _ (Keeps-found_row _) (Keeps-fail _)

  pub Keeps-check_operation_exist :
      (name t : String) (i : ℕ) → Keeps P (check_operation_exist E name t i)
  unfolding check_operation_exist
  Keeps-check_operation_exist name t i = search (keeps_rules, Keeps-exists_in)

  pub Keeps-check_table_exist : (name : String) → Keeps P (check_table_exist E name)
  unfolding check_table_exist
  Keeps-check_table_exist name = search (keeps_rules, Keeps-found_row)

  Keeps-scan_columns : (cols : List PgTableSchemaColumn) → Keeps P (scan_columns E cols)
  unfolding scan_columns
  Keeps-scan_columns [] = search keeps_rules
  Keeps-scan_columns (c ∷ cols) = Keeps-bind _ _ (Keeps-ask E.rows_stop) λ stop.
      Keeps-if stop _ _ (Keeps-fail _) (
        Keeps-bind _ _ (Keeps-sql E)
          λ _. Keeps-bind _ _ (Keeps-scan_columns cols) (λ rest. Keeps-pure _))

  pub Keeps-get_table_schema : (name : String) → Keeps P (get_table_schema E name)
  unfolding get_table_schema
  Keeps-get_table_schema name = search (keeps_rules, Keeps-scan_columns)

  pub Keeps-create_table :
      (name : String) (cols : List PgTableSchemaColumn)
      → ((d : Db) (t : List OpTable) → P d → P (record d { op_tables = t }))
      → Keeps P (create_table E name cols)
  unfolding create_table
  Keeps-create_table name cols k =
      Keeps-exec_checked E _
        λ d d' h e. subst P (unless_found-eq-ok (find_quoted name d) _ _ d' e).1 (k d _ h)

  pub Keeps-create_index :
      (name : String)
      → ((d : Db) → P d → P (record d { op_tables = mark_indexed name d.op_tables }))
      → Keeps P (create_index E name)
  unfolding create_index
  Keeps-create_index name k =
      Keeps-exec_checked E _ λ d d' h e. subst P (add_index-eq-ok name d d' e) (k d h)

  pub Keeps-insert_dynamic_operation :
      (name : String) (s : PgTableSchema) (op_json : Object)
      → ((d : Db) (t : List OpTable) → P d → P (record d { op_tables = t }))
      → Keeps P (insert_dynamic_operation E name s op_json)
  unfolding insert_dynamic_operation
  Keeps-insert_dynamic_operation name s op_json k = Keeps-bind _ _ (search keeps_rules) λ p.
      Keeps-exec_checked E _ λ d d' h e.
        let (t, found, e') = in_relation-eq-ok (find_unquoted name d) _ d' e in
        subst P (if-eq-ok (all_columns t.schema _) _ _ d' e') (k d _ h)

  pub Keeps-save_events :
      (r : HxContractOpReceipt) (events : List (Option HxContractOpReceiptEvent))
      → ((d : Db) (t : Table ReceiptEventRow) → P d → P (record d { receipt_events = t }))
      → Keeps P (save_events E r events)
  unfolding save_events
  Keeps-save_events r [] k = search keeps_rules
  Keeps-save_events r (none ∷ events) k = search keeps_rules
  Keeps-save_events r (some e ∷ events) k =
      Keeps-bind _ _ (search (keeps_rules, k)) (λ _. Keeps-save_events r events k)

  pub Keeps-marshal_array : (vs : List Value) → Keeps P (marshal_array E vs)
  unfolding marshal_array
  Keeps-marshal_array vs = search keeps_rules

  pub Keeps-save_contract_op_receipt :
      (r : HxContractOpReceipt)
      → ((d : Db) (t : Table ReceiptRow) → P d → P (record d { receipts = t }))
      → ((d : Db) (t : Table ReceiptEventRow) → P d → P (record d { receipt_events = t }))
      → Keeps P (save_contract_op_receipt E r)
  unfolding save_contract_op_receipt insert_receipt marshal_array save_events
  Keeps-save_contract_op_receipt r k l =
      search (keeps_rules, Keeps-write, k, Keeps-save_events) depth 14
