-- ===== src/Scanner/OpRows.antt =====
-- The scanner stores no operation twice in the table of its type.
use mathlib.Core.Bool.{true≢false}
use hxscanner.Prelude.{
  ℕ, ◌≡◌, refl, sym, ap, ◌∙◌, String, Bool, true, false, Option, none, some, find?, if◌then◌else◌,
}
use hxscanner.Value.{Object}
use hxscanner.Types.{HxBlock}
use hxscanner.Env.{Env}
use hxscanner.Exec.{pure, fail, gets, ask, or_exit, ◌>>=◌}
use hxscanner.Exec.Keeps.{
  Keeps, Keeps-pure, Keeps-bind, Keeps-if, Keeps-or_exit, Keeps-gets, Keeps-sql, Keeps-exec_checked,
  Keeps-of_Gives, Gives, Gives-bind, Gives-known, Gives-lift, Gives-assume,
}
use hxscanner.Exec.Leads.{Reliable, Leads, Gives-or_exit, Gives-after, Leads-exec_checked}
use hxscanner.Db.Schema.{Db, OpTable, PgTableSchema}
use hxscanner.Db.Dynamic.{
  has_place, no_column, find_unquoted, is_operation, found_row, exists_in, check_operation_exist,
  create_table, no_values, prepare_values, insert_dynamic_operation,
}
use hxscanner.Db.Rows.{row_of, prepare_values-row}
use hxscanner.Db.Keeps.Dynamic.{Keeps-check_table_exist, Keeps-create_index}
use hxscanner.Db.OpTables.{OpRows, add_table-OpRows, add_op_row-OpRows, mark_indexed-OpRows}
use hxscanner.Scanner.Operation.{
  enrich, columns_of, ensure_table, store_operation, cached_get_table_schema,
}
use hxscanner.Scanner.Enrich.{enrich-StandsFor}
use hxscanner.Scanner.Stores.{
  Keeps-store_block, Keeps-fix_previous_block, Keeps-fetch_schema, KeepsStores-with,
}
use hxscanner.Scanner.Loops.{KeepsBlocks}
use hxscanner.Db.Keeps.{
  Keeps-save_base_operation, Keeps-save_transaction, Keeps-update_last_scanned_block_number,
}

module _ (E : Env) where
  Keeps-ensure_table_rows :
      (name : String) (op_json : Object) → Keeps OpRows (ensure_table E name op_json)
  unfolding ensure_table create_table
  Keeps-ensure_table_rows name op_json = Keeps-bind _ _ (Keeps-check_table_exist E name) λ found.
      Keeps-if found _ _ (Keeps-pure tt) (
        Keeps-bind _ _
          (Keeps-or_exit _ (Keeps-exec_checked E _ (add_table-OpRows name (columns_of op_json))))
          (λ _. Keeps-or_exit _ (Keeps-create_index E name (mark_indexed-OpRows name))))

  module _ (name trxid : String) (i : ℕ) where
    -- No row of the table stands for the transaction and index.
    abbrev Fresh : Db → Type 0
    Fresh d =
        OpRows d
        × ((t : OpTable) × (find_unquoted name d ≡ some t)
            × (find? (is_operation trxid i) t.op_rows ≡ none))

    abbrev Checked : Bool → Db → Type 0
    Checked found d = OpRows d × (found ≡ false → Fresh d)

    Gives-found_row :
        (t : OpTable) (o : Option Object)
        → find? (is_operation trxid i) t.op_rows ≡ o
        → Gives (λ d. OpRows d × (some t ≡ find_unquoted name d)) (found_row E o) Checked OpRows
    unfolding found_row pure
    Gives-found_row t none e = record { from = λ w h. (h.0, λ _. (h.0, (t, sym h.1, e))) }
    Gives-found_row t (some r) e = record { from = λ w h. (h.0, λ f. absurd (true≢false f)) }

    Gives-exists_in :
        (table : Option OpTable)
        → Gives
            (λ d. OpRows d × (table ≡ find_unquoted name d))
            (exists_in E trxid i false table)
            Checked
            OpRows
    unfolding exists_in fail
    Gives-exists_in none = record { from = λ w h. h.0 }
    Gives-exists_in (some t) = place (has_place t.schema)
      where
        place :
            (b : Bool)
            → Gives
                (λ d. OpRows d × (some t ≡ find_unquoted name d))
                (if b then found_row E (find? (is_operation trxid i) t.op_rows) else fail no_column)
                Checked
                OpRows
        place true = Gives-found_row t _ refl
        place false = record { from = λ w h. h.0 }

    Gives-check_operation_exist :
        Reliable E → Gives OpRows (check_operation_exist E name trxid i) Checked OpRows
    unfolding check_operation_exist gets ask
    Gives-check_operation_exist rel =
        Gives-after _ _ (λ d h. h) (Keeps-sql E)
          λ _.
            Gives-bind {Q = λ table d. OpRows d × (table ≡ find_unquoted name d)} _ _
              (record { from = λ w h. (h, refl) })
              λ table.
                Gives-bind
                  {Q = λ stop d. (stop ≡ false) × (OpRows d × (table ≡ find_unquoted name d))} _ _
                  (record { from = λ w h. (rel w.tick, h) })
                  (Gives-known (λ stop. exists_in E trxid i stop table) false
                    (Gives-exists_in table))

    module _ (b : HxBlock) (op_json : Object) where
      abbrev object : Object
      object = enrich b trxid i op_json

      Leads-insert :
          (schema : PgTableSchema)
          → Leads Fresh (insert_dynamic_operation E name schema object) OpRows
      unfolding insert_dynamic_operation
      Leads-insert schema =
          Gives-bind _ _ (Gives-lift (prepare_values E schema object no_values) (λ d h. h.0)) λ p.
            Leads-exec_checked E (λ d h. h.1.0) _
              λ d d' (prepared, (h, (t, found, missing))) e.
                add_op_row-OpRows name trxid i _ t d d'
                  (enrich-StandsFor E schema b trxid i op_json _
                    (sym (prepare_values-row E schema object) ∙ ap (row_of E) prepared))
                  h found missing e

      stored_once :
          (found : Bool)
          → Leads
              (Checked found)
              (if found then pure tt else do
                schema ← or_exit (cached_get_table_schema E name)
                or_exit (insert_dynamic_operation E name schema object))
              OpRows
      unfolding pure cached_get_table_schema
      stored_once true = record { from = λ w h. h.0 }
      stored_once false =
          Gives-assume _ (λ d h. h.1 refl)
            (Gives-after _ _ (λ d h. h.0)
              (Keeps-or_exit _ (Keeps-bind _ _ (Keeps-gets _) (Keeps-fetch_schema E name)))
              (λ schema. Gives-or_exit _ (Leads-insert schema)))

      Keeps-store_operation_rows : Reliable E → Keeps OpRows (store_operation E name trxid i object)
      unfolding store_operation
      Keeps-store_operation_rows rel =
          Keeps-of_Gives _
            (Gives-bind _ _ (Gives-or_exit _ (Gives-check_operation_exist rel)) stored_once)

  -- What the scanner stores for a block, with a reliable row iteration.
  pub KeepsBlocks-OpRows : Reliable E → KeepsBlocks E OpRows
  KeepsBlocks-OpRows rel = record {
    blocks = Keeps-store_block E (λ d t h. h);
    previous = Keeps-fix_previous_block E (λ d t h. h);
    checkpoints = λ n. Keeps-update_last_scanned_block_number E n (λ d t h. h);
    stores =
        KeepsStores-with E (λ d t h. h) (λ d t h. h) Keeps-ensure_table_rows
          (λ name b trxid i op_json. Keeps-store_operation_rows name trxid i b op_json rel)
          (λ o. Keeps-save_base_operation E o (λ d t h. h))
          (λ tx. Keeps-save_transaction E tx (λ d t h. h));
  }
