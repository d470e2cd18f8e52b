-- ===== src/Scanner/Keys.antt =====
-- Whatever the node and the database answer, a scan stores no key twice.
use hxscanner.Prelude.{ℕ, refl, String, Option, none, some, List, [], ◌∷◌}
use hxscanner.Prelude.Int.{ℤ}
use hxscanner.Strconv.{itoa}
use hxscanner.Value.{Object}
use hxscanner.Types.{HxBlock, HxTransaction, HxContractOpReceipt}
use hxscanner.Env.{Env}
use hxscanner.Exec.Keeps.{
  Keeps, Keeps-pure, Keeps-panic, Keeps-bind, Keeps-if, Keeps-or_exit, Keeps-lift, Keeps-of_Gives,
  Gives-bind,
}
use hxscanner.Exec.Leads.{Reliable, Gives-or_exit, Leads, Leads-weaken}
use hxscanner.Db.Schema.{BlockEntity, ScanConfigEntity}
use hxscanner.Db.Keys.{HasKeys, block_key, transaction_key, operation_key, config_key, receipt_key}
use hxscanner.Db.Keys.Changes.{with_op_tables}
use hxscanner.Db.Unique.{
  Leads-save_block, Leads-save_transaction, Leads-save_base_operation, Leads-save_config,
  Keeps-update_config_keys, Keeps-update_block_hash_keys,
}
use hxscanner.Db.UniqueReceipts.{Leads-save_contract_op_receipt}
use hxscanner.Db.FindOrSave.{
  Missing, Keeps-find_or_save, Gives-Missing, Gives-find_contract_op_receipt,
}
use hxscanner.Db.Keeps.{Keeps-find_block}
use hxscanner.Db.Configs.{
  update_last_scanned_block_number, store_checkpoint, find_scan_config,
  last_scanned_block_number_config_key,
}
use hxscanner.Db.Blocks.{find_block, find_transaction}
use hxscanner.Db.Operations.{get_base_operation_id, find_base_operation}
use hxscanner.Scanner.Operation.{OpScannerPlugin, store_base_operation}
use hxscanner.Scanner.Block.{
  store_block, fill_hash, fix_previous_block, store_transaction, store_receipt, store_receipts,
  scan_blocks_from,
}
use hxscanner.Scanner.Loops.{Keeps-scan_blocks_from}
use hxscanner.Scanner.Stores.{Keeps-ensure_table, Keeps-store_operation}
use hxscanner.Scanner.Keeps.{KeepsPlugins, KeepsStores}

module _ (E : Env) (rel : Reliable E) where
  Keeps-store_block_keys : (b : HxBlock) → Keeps HasKeys (store_block E b)
  unfolding store_block find_block
  Keeps-store_block_keys b =
      Keeps-find_or_save _ (block_key b.block_number) _ _ (Gives-Missing E rel _ _)
        (Leads-save_block E b)

  Keeps-store_transaction_keys : (tx : HxTransaction) → Keeps HasKeys (store_transaction E tx)
  unfolding store_transaction find_transaction
  Keeps-store_transaction_keys tx =
      Keeps-find_or_save _ (transaction_key tx.trxid) _ _ (Gives-Missing E rel _ _)
        (Leads-save_transaction E tx)

  Keeps-store_base_operation_keys :
      (b : HxBlock) (trxid : String) (tx_index i : ℕ) (t : ℤ) (name : String) (op_json : Object)
      → Keeps HasKeys (store_base_operation E b trxid tx_index i t name op_json)
  unfolding store_base_operation find_base_operation
  Keeps-store_base_operation_keys b trxid tx_index i t name op_json =
      Keeps-bind _ _ (Keeps-or_exit _ (Keeps-lift _)) λ json.
        Keeps-find_or_save (λ d. d.operations.rows)
          (operation_key (get_base_operation_id b.block_number trxid i)) _ _
          (Gives-Missing E rel _ _) (Gives-or_exit _ (Leads-save_base_operation E _))

  Keeps-store_receipt_keys : (r : HxContractOpReceipt) → Keeps HasKeys (store_receipt E r)
  unfolding store_receipt
  Keeps-store_receipt_keys r =
      Keeps-find_or_save _ (receipt_key (r.trxid, r.op_num)) _ _
        (Gives-or_exit _ (Gives-find_contract_op_receipt E rel r.trxid r.op_num))
        (Gives-or_exit _ (Leads-save_contract_op_receipt E r))

  Keeps-store_receipts_keys :
      (rs : List (Option HxContractOpReceipt)) → Keeps HasKeys (store_receipts E rs)
  unfolding store_receipts
  Keeps-store_receipts_keys [] = Keeps-pure tt
  Keeps-store_receipts_keys (none ∷ rs) = Keeps-panic
  Keeps-store_receipts_keys (some r ∷ rs) =
      Keeps-bind _ _ (Keeps-store_receipt_keys r) (λ _. Keeps-store_receipts_keys rs)

  -- The statements inside a block.
  pub KeepsStores-HasKeys : KeepsStores E HasKeys
  KeepsStores-HasKeys = record {
    tables = Keeps-ensure_table E (λ d t h. with_op_tables h t);
    op_rows = λ name b trxid i op_json.
        Keeps-store_operation E (λ d t h. with_op_tables h t) name trxid i _;
    base_rows = Keeps-store_base_operation_keys;
    tx_rows = Keeps-store_transaction_keys;
    receipt_rows = Keeps-store_receipts_keys;
  }

  Keeps-fix_previous_block_keys : (b : HxBlock) → Keeps HasKeys (fix_previous_block E b)
  unfolding fix_previous_block
  Keeps-fix_previous_block_keys b =
      Keeps-if _ _ _ (Keeps-bind _ _ (Keeps-find_block E _) filled) (Keeps-pure tt)
    where
      filled : (o : Option BlockEntity) → Keeps HasKeys (fill_hash E b o)
      filled none = Keeps-pure tt
      filled (some p) = Keeps-if _ _ _ (Keeps-update_block_hash_keys E _ _) (Keeps-pure tt)

  Keeps-update_last_keys : (n : ℤ) → Keeps HasKeys (update_last_scanned_block_number E n)
  unfolding update_last_scanned_block_number find_scan_config
  Keeps-update_last_keys n = Keeps-of_Gives _ (Gives-bind _ _ (Gives-Missing E rel _ _) stored)
    where
      stored :
          (o : Option ScanConfigEntity)
          → Leads
              (Missing
                (λ d. d.scan_configs.rows)
                (config_key last_scanned_block_number_config_key)
                o)
              (store_checkpoint E (itoa n) o)
              HasKeys
      stored none = record { from = λ w h. (Leads-save_config E _ (itoa n)).from w (h.0, h.1 refl) }
      stored (some c) =
          Leads-weaken _ (λ d h. h.0)
            (Keeps-if _ _ _ (Keeps-pure tt) (Keeps-update_config_keys E _))

  -- With a reliable row iteration, and plugins that store no key twice, no number of rounds stores a
  -- key twice, whatever else the node and the database answer and however the scan ends.
  pub scan_blocks_from-HasKeys :
      (ps : List OpScannerPlugin)
      → KeepsPlugins HasKeys ps
      → (rounds n : ℕ) → Keeps HasKeys (scan_blocks_from E ps rounds n)
  scan_blocks_from-HasKeys ps k =
      Keeps-scan_blocks_from E
        (record {
          blocks = Keeps-store_block_keys;
          previous = Keeps-fix_previous_block_keys;
          checkpoints = Keeps-update_last_keys;
          stores = KeepsStores-HasKeys;
        })
        ps k
