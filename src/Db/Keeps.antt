-- ===== src/Db/Keeps.antt =====
-- What each function of src/db leaves alone: a look-up changes nothing, and a statement that writes
-- changes one table, so it keeps every fact that does not speak of that table.
pub mod Dynamic
use mathlib.Core.Path.{subst}
use hxscanner.Prelude.{
  ℕ, zero, suc, String, ◌≡◌, Bool, Option, none, some, List, [], ◌∷◌, ◌==◌, eqb, find?, refl,
  if◌then◌else◌,
}
use hxscanner.Prelude.Int.{ℤ}
use hxscanner.Value.{Value, Object}
use hxscanner.Types.{HxBlock, HxTransaction, HxContractOpReceipt, HxContractOpReceiptEvent}
use hxscanner.Env.{Error, Result, ok, err, Env}
use hxscanner.Db.Table.{Table, unless_found, unless_found-eq-ok}
use hxscanner.Db.Schema.{
  Db, BlockEntity, TransactionEntity, BaseOperationEntity, ScanConfigEntity, ReceiptRow,
  ReceiptEventRow, AccountEntity, AssetEntity, AddressBalanceEntity, OpTable, PgTableSchema,
  PgTableSchemaColumn,
}
use hxscanner.Exec.{M, ◌>>=◌, ◌>>◌}
use hxscanner.Exec.Keeps.{Keeps, Keeps-write, Keeps-bind, keeps_rules}
use hxscanner.Db.Configs.{
  find_scan_config, get_scan_config_or, get_last_scanned_block_number, save_config, update_config,
  update_last_scanned_block_number, store_checkpoint,
}
use hxscanner.Db.Blocks.{
  find_block, save_block, insert_block, update_block_hash, find_transaction, first_operation_type,
  save_transaction,
}
use hxscanner.Db.Operations.{find_base_operation, save_base_operation}
use hxscanner.Db.Receipts.{
  find_contract_op_receipt, save_contract_op_receipt, receipt_of, save_events,
}
use hxscanner.Db.Assets.{
  find_asset, save_asset, insert_asset, find_address_balance_by_owner_addr_and_asset_id,
  save_address_balance, update_address_balance, parsed_balance,
}
use hxscanner.Db.Tokens.{
  find_token_contract_by_contract_id, save_token_contract, update_token_contract,
}
use hxscanner.Db.Accounts.{find_account_by_owner_addr, save_account}

module _ (E : Env) {P : Db → Type 0} where
  pub Keeps-find_scan_config : (k : String) → Keeps P (find_scan_config E k)
  unfolding find_scan_config
  Keeps-find_scan_config k = search keeps_rules

  pub Keeps-find_block : (n : ℕ) → Keeps P (find_block E n)
  unfolding find_block
  Keeps-find_block n = search keeps_rules

  pub Keeps-find_transaction : (t : String) → Keeps P (find_transaction E t)
  unfolding find_transaction
  Keeps-find_transaction t = search keeps_rules

  pub Keeps-find_base_operation : (i : String) → Keeps P (find_base_operation E i)
  unfolding find_base_operation
  Keeps-find_base_operation i = search keeps_rules

  pub Keeps-find_account_by_owner_addr : (a : String) → Keeps P (find_account_by_owner_addr E a)
  unfolding find_account_by_owner_addr
  Keeps-find_account_by_owner_addr a = search keeps_rules

  pub Keeps-save_account :
      (a : AccountEntity)
      → ((d : Db) (t : Table AccountEntity) → P d → P (record d { accounts = t }))
      → Keeps P (save_account E a)
  unfolding save_account
  Keeps-save_account a k = search (keeps_rules, k)

  pub Keeps-save_base_operation :
      (o : BaseOperationEntity)
      → ((d : Db) (t : Table BaseOperationEntity) → P d → P (record d { operations = t }))
      → Keeps P (save_base_operation E o)
  unfolding save_base_operation
  Keeps-save_base_operation o k = search (keeps_rules, k)

  pub Keeps-first_operation_type : (ops : List (List Value)) → Keeps P (first_operation_type ops)
  unfolding first_operation_type
  Keeps-first_operation_type [] = search keeps_rules
  Keeps-first_operation_type ([] ∷ ops) = search keeps_rules
  Keeps-first_operation_type ((v ∷ vs) ∷ ops) = search keeps_rules

  pub Keeps-save_transaction :
      (tx : HxTransaction)
      → ((d : Db) (t : Table TransactionEntity) → P d → P (record d { transactions = t }))
      → Keeps P (save_transaction E tx)
  unfolding save_transaction
  Keeps-save_transaction tx k = search (keeps_rules, Keeps-write, Keeps-first_operation_type, k)

  Keeps-receipt_of : (r : Option ReceiptRow) → Keeps P (receipt_of E r)
  unfolding receipt_of
  Keeps-receipt_of none = search keeps_rules
  Keeps-receipt_of (some r) = search keeps_rules depth 12

  pub Keeps-find_contract_op_receipt :
      (t : String) (n : ℕ) → Keeps P (find_contract_op_receipt E t n)
  unfolding find_contract_op_receipt
  Keeps-find_contract_op_receipt t n = search (keeps_rules, Keeps-receipt_of)

  pub Keeps-save_config :
      (key value : String)
      → ((d : Db) (t : Table ScanConfigEntity) → P d → P (record d { scan_configs = t }))
      → Keeps P (save_config E key value)
  unfolding save_config
  Keeps-save_config key value k = search (keeps_rules, k)

  pub Keeps-update_config :
      (c : ScanConfigEntity)
      → ((d : Db) (t : Table ScanConfigEntity) → P d → P (record d { scan_configs = t }))
      → Keeps P (update_config E c)
  unfolding update_config
  Keeps-update_config c k = search (keeps_rules, k)

  Keeps-store_checkpoint :
      (s : String) (o : Option ScanConfigEntity)
      → ((d : Db) (t : Table ScanConfigEntity) → P d → P (record d { scan_configs = t }))
      → Keeps P (store_checkpoint E s o)
  unfolding store_checkpoint
  Keeps-store_checkpoint s none k = Keeps-save_config _ _ k
  Keeps-store_checkpoint s (some c) k = search (keeps_rules, Keeps-update_config, k)

  pub Keeps-update_last_scanned_block_number :
      (n : ℤ)
      → ((d : Db) (t : Table ScanConfigEntity) → P d → P (record d { scan_configs = t }))
      → Keeps P (update_last_scanned_block_number E n)
  unfolding update_last_scanned_block_number
  Keeps-update_last_scanned_block_number n k =
      search (keeps_rules, Keeps-find_scan_config, Keeps-store_checkpoint, k)

  pub Keeps-get_last_scanned_block_number : Keeps P (get_last_scanned_block_number E)
  unfolding get_last_scanned_block_number get_scan_config_or
  Keeps-get_last_scanned_block_number = search (keeps_rules, Keeps-find_scan_config) depth 8

  pub Keeps-find_asset : (a : String) → Keeps P (find_asset E a)
  unfolding find_asset
  Keeps-find_asset a = search keeps_rules

  Keeps-parsed_balance : (o : Option AddressBalanceEntity) → Keeps P (parsed_balance E o)
  Keeps-parsed_balance none = search keeps_rules
  Keeps-parsed_balance (some r) = search keeps_rules

  pub Keeps-find_address_balance :
      (o a : String) → Keeps P (find_address_balance_by_owner_addr_and_asset_id E o a)
  unfolding find_address_balance_by_owner_addr_and_asset_id
  Keeps-find_address_balance o a = search (keeps_rules, Keeps-parsed_balance)

  pub Keeps-save_address_balance :
      (b : AddressBalanceEntity)
      → ((d : Db) (t : Table AddressBalanceEntity) → P d → P (record d { address_balances = t }))
      → Keeps P (save_address_balance E b)
  unfolding save_address_balance
  Keeps-save_address_balance b k = search (keeps_rules, k)

  pub Keeps-update_address_balance :
      (b : AddressBalanceEntity)
      → ((d : Db) (t : Table AddressBalanceEntity) → P d → P (record d { address_balances = t }))
      → Keeps P (update_address_balance E b)
  unfolding update_address_balance
  Keeps-update_address_balance b k = search (keeps_rules, k)

  insert_asset-kept :
      (a : AssetEntity) (n : ℕ)
      → ((d : Db) (t : List AssetEntity) → P d → P (record d { assets = t }))
      → (d d' : Db) → P d
      → insert_asset a n d ≡ ok d'
      → P d'
  insert_asset-kept a n k d d' h e =
      subst P (unless_found-eq-ok (find? (λ r. r.asset_id == a.asset_id) d.assets) _ _ d' e).1
        (k d _ h)

  pub Keeps-save_asset :
      (a : AssetEntity)
      → ((d : Db) (t : List AssetEntity) → P d → P (record d { assets = t }))
      → Keeps P (save_asset E a)
  unfolding save_asset
  Keeps-save_asset a k = search (keeps_rules, insert_asset-kept, k)

  insert_block-kept :
      (b : HxBlock)
      → ((d : Db) (t : List BlockEntity) → P d → P (record d { blocks = t }))
      → (d d' : Db) → P d
      → insert_block b d ≡ ok d'
      → P d'
  insert_block-kept b k d d' h e =
      subst P (unless_found-eq-ok (find? (λ r. eqb b.block_number r.id) d.blocks) _ _ d' e).1
        (k d _ h)

  pub Keeps-save_block :
      (b : HxBlock)
      → ((d : Db) (t : List BlockEntity) → P d → P (record d { blocks = t }))
      → Keeps P (save_block E b)
  unfolding save_block
  Keeps-save_block b k = search (keeps_rules, insert_block-kept, k)

  pub Keeps-update_block_hash :
      (n : ℕ) (hash : String)
      → ((d : Db) (t : List BlockEntity) → P d → P (record d { blocks = t }))
      → Keeps P (update_block_hash E n hash)
  unfolding update_block_hash
  Keeps-update_block_hash n hash k = search (keeps_rules, k)
