-- ===== src/Scanner/Stores.antt =====
-- What the statements inside a block leave alone: all but the tables that they write to.
use hxscanner.Prelude.{ℕ, String, Option, none, some, List, [], ◌∷◌}
use hxscanner.Value.{Object}
use hxscanner.Types.{HxBlock, HxTransaction, HxContractOpReceipt}
use hxscanner.Db.Blocks.{save_transaction}
use hxscanner.Db.Operations.{save_base_operation}
use hxscanner.Env.{Env}
use hxscanner.Exec.Keeps.{
  Keeps, Keeps-pure, Keeps-panic, Keeps-bind, Keeps-if, Keeps-or_exit, Keeps-lift, Keeps-gets,
  Keeps-when_nil, keeps_rules,
}
use hxscanner.Db.Schema.{
  Db, PgTableSchema, BlockEntity, OpTable, BaseOperationEntity, TransactionEntity, ReceiptRow,
  ReceiptEventRow,
}
use hxscanner.Db.Table.{Table}
use hxscanner.Db.Keeps.{
  Keeps-find_block, Keeps-save_block, Keeps-update_block_hash, Keeps-find_base_operation,
  Keeps-find_transaction, Keeps-save_transaction, Keeps-save_base_operation,
  Keeps-find_contract_op_receipt,
}
use hxscanner.Db.Keeps.Dynamic.{
  Keeps-check_table_exist, Keeps-create_table, Keeps-create_index, Keeps-check_operation_exist,
  Keeps-get_table_schema, Keeps-insert_dynamic_operation, Keeps-save_contract_op_receipt,
}
use hxscanner.Scanner.Operation.{
  enrich, ensure_table, store_operation, store_base_operation, fetch_schema,
}
use hxscanner.Scanner.Block.{
  store_block, fill_hash, fix_previous_block, store_transaction, store_receipt, store_receipts,
}
use hxscanner.Scanner.Keeps.{KeepsStores}

module _ (E : Env) {P : Db → Type 0} where
  pub Keeps-fetch_schema :
      (name : String) (o : Option PgTableSchema) → Keeps P (fetch_schema E name o)
  Keeps-fetch_schema name none = search (keeps_rules, Keeps-get_table_schema)
  Keeps-fetch_schema name (some s) = Keeps-pure s

  module _ (op_tables : (d : Db) (t : List OpTable) → P d → P (record d { op_tables = t })) where
    pub Keeps-ensure_table :
        (name : String) (op_json : Object) → Keeps P (ensure_table E name op_json)
    unfolding ensure_table
    Keeps-ensure_table name op_json = Keeps-bind _ _ (Keeps-check_table_exist E name) λ found.
        Keeps-if found _ _ (Keeps-pure tt) (
          Keeps-bind _ _ (Keeps-or_exit _ (Keeps-create_table E name _ op_tables))
            (λ _. Keeps-or_exit _ (Keeps-create_index E name (λ d. op_tables d _))))

    pub Keeps-store_operation :
        (name trxid : String) (i : ℕ) (op_json : Object)
        → Keeps P (store_operation E name trxid i op_json)
    unfolding store_operation
    Keeps-store_operation name trxid i op_json =
        Keeps-bind _ _ (Keeps-or_exit _ (Keeps-check_operation_exist E name trxid i)) λ found.
          Keeps-if found _ _ (Keeps-pure tt) (
            Keeps-bind _ _
              (Keeps-or_exit _ (Keeps-bind _ _ (Keeps-gets _) (Keeps-fetch_schema name)))
              (λ s. Keeps-or_exit _ (Keeps-insert_dynamic_operation E name s op_json op_tables)))

  module _ (receipts : (d : Db) (t : Table ReceiptRow) → P d → P (record d { receipts = t }))
      (events : (d : Db) (t : Table ReceiptEventRow)
        → P d
        → P (record d { receipt_events = t })) where
    pub Keeps-store_receipts :
        (rs : List (Option HxContractOpReceipt)) → Keeps P (store_receipts E rs)
    unfolding store_receipts store_receipt
    Keeps-store_receipts [] = Keeps-pure tt
    Keeps-store_receipts (none ∷ rs) = Keeps-panic
    Keeps-store_receipts (some r ∷ rs) =
        Keeps-bind _ _
          (Keeps-bind _ _ (Keeps-or_exit _ (Keeps-find_contract_op_receipt E _ _)) λ o.
            Keeps-when_nil o _
              (Keeps-or_exit _ (Keeps-save_contract_op_receipt E r receipts events)))
          (λ _. Keeps-store_receipts rs)

    -- An invariant that does not read the receipts, and that the other statements keep.
    pub KeepsStores-with :
        ((name : String) (op_json : Object) → Keeps P (ensure_table E name op_json))
        → ((name : String) (b : HxBlock) (trxid : String) (i : ℕ) (op_json : Object)
            → Keeps P (store_operation E name trxid i (enrich b trxid i op_json)))
        → ((o : BaseOperationEntity) → Keeps P (save_base_operation E o))
        → ((tx : HxTransaction) → Keeps P (save_transaction E tx))
        → KeepsStores E P
    unfolding store_base_operation store_transaction
    KeepsStores-with tables op_rows save_operation save_tx = record {
      tables = tables;
      op_rows = op_rows;
      base_rows = λ b trxid tx_index i t name op_json.
          Keeps-bind _ _ (Keeps-or_exit _ (Keeps-lift _)) λ json.
            Keeps-bind _ _ (Keeps-find_base_operation E _)
              λ o. Keeps-when_nil o _ (Keeps-or_exit _ (save_operation _));
      tx_rows =
          λ tx. Keeps-bind _ _ (Keeps-find_transaction E _) λ o. Keeps-when_nil o _ (save_tx tx);
      receipt_rows = Keeps-store_receipts;
    }

    -- An invariant that does not read these tables.
    pub KeepsStores-apart :
        ((d : Db) (t : List OpTable) → P d → P (record d { op_tables = t }))
        → ((d : Db) (t : Table BaseOperationEntity) → P d → P (record d { operations = t }))
        → ((d : Db) (t : Table TransactionEntity) → P d → P (record d { transactions = t }))
        → KeepsStores E P
    KeepsStores-apart op_tables operations transactions =
        KeepsStores-with (Keeps-ensure_table op_tables)
          (λ name b trxid i op_json. Keeps-store_operation op_tables name trxid i _)
          (λ o. Keeps-save_base_operation E o operations)
          (λ tx. Keeps-save_transaction E tx transactions)

  module _ (blocks : (d : Db) (t : List BlockEntity) → P d → P (record d { blocks = t })) where
    pub Keeps-store_block : (b : HxBlock) → Keeps P (store_block E b)
    unfolding store_block
    Keeps-store_block b =
        Keeps-bind _ _ (Keeps-find_block E _) λ o. Keeps-when_nil o _ (Keeps-save_block E b blocks)

    pub Keeps-fix_previous_block : (b : HxBlock) → Keeps P (fix_previous_block E b)
    unfolding fix_previous_block
    Keeps-fix_previous_block b =
        Keeps-if _ _ _ (Keeps-bind _ _ (Keeps-find_block E _) filled) (Keeps-pure tt)
      where
        filled : (o : Option BlockEntity) → Keeps P (fill_hash E b o)
        filled none = Keeps-pure tt
        filled (some p) = Keeps-if _ _ _ (Keeps-update_block_hash E _ _ blocks) (Keeps-pure tt)
