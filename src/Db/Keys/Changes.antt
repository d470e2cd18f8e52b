-- ===== src/Db/Keys/Changes.antt =====
-- What it takes to change one table and keep all of them free of double keys.
use hxscanner.Prelude.{List}
use hxscanner.Db.Table.{Table, UniqueBy}
use hxscanner.Db.Serials.{HasSerials}
use hxscanner.Db.Schema.{
  Db, BlockEntity, TransactionEntity, BaseOperationEntity, ScanConfigEntity, ReceiptRow,
  ReceiptEventRow, AccountEntity, AssetEntity, AddressBalanceEntity, TokenContractEntity,
  TokenBalanceEntity, TokenContractTransferHistoryEntity, OpTable,
}
use hxscanner.Db.Keys.{
  HasKeys, block_key, transaction_key, operation_key, config_key, receipt_key, contract_key,
  token_balance_key, asset_key, balance_key, account_key,
}

module _ {d : Db} (h : HasKeys d) where
  pub with_blocks :
      (t : List BlockEntity) → UniqueBy block_key t → HasKeys (record d { blocks = t })
  with_blocks t u = record {
    blocks = u;
    transactions = h.transactions;
    operations = h.operations;
    scan_configs = h.scan_configs;
    receipts = h.receipts;
    token_contracts = h.token_contracts;
    token_balances = h.token_balances;
    assets = h.assets;
    address_balances = h.address_balances;
    accounts = h.accounts;
    balance_ids = h.balance_ids;
    contract_ids = h.contract_ids;
    token_balance_ids = h.token_balance_ids;
  }

  pub with_transactions :
      (t : Table TransactionEntity)
      → UniqueBy transaction_key t.rows
      → HasKeys (record d { transactions = t })
  with_transactions t u = record {
    blocks = h.blocks;
    transactions = u;
    operations = h.operations;
    scan_configs = h.scan_configs;
    receipts = h.receipts;
    token_contracts = h.token_contracts;
    token_balances = h.token_balances;
    assets = h.assets;
    address_balances = h.address_balances;
    accounts = h.accounts;
    balance_ids = h.balance_ids;
    contract_ids = h.contract_ids;
    token_balance_ids = h.token_balance_ids;
  }

  pub with_operations :
      (t : Table BaseOperationEntity)
      → UniqueBy operation_key t.rows
      → HasKeys (record d { operations = t })
  with_operations t u = record {
    blocks = h.blocks;
    transactions = h.transactions;
    operations = u;
    scan_configs = h.scan_configs;
    receipts = h.receipts;
    token_contracts = h.token_contracts;
    token_balances = h.token_balances;
    assets = h.assets;
    address_balances = h.address_balances;
    accounts = h.accounts;
    balance_ids = h.balance_ids;
    contract_ids = h.contract_ids;
    token_balance_ids = h.token_balance_ids;
  }

  pub with_scan_configs :
      (t : Table ScanConfigEntity)
      → UniqueBy config_key t.rows
      → HasKeys (record d { scan_configs = t })
  with_scan_configs t u = record {
    blocks = h.blocks;
    transactions = h.transactions;
    operations = h.operations;
    scan_configs = u;
    receipts = h.receipts;
    token_contracts = h.token_contracts;
    token_balances = h.token_balances;
    assets = h.assets;
    address_balances = h.address_balances;
    accounts = h.accounts;
    balance_ids = h.balance_ids;
    contract_ids = h.contract_ids;
    token_balance_ids = h.token_balance_ids;
  }

  pub with_receipts :
      (t : Table ReceiptRow) → UniqueBy receipt_key t.rows → HasKeys (record d { receipts = t })
  with_receipts t u = record {
    blocks = h.blocks;
    transactions = h.transactions;
    operations = h.operations;
    scan_configs = h.scan_configs;
    receipts = u;
    token_contracts = h.token_contracts;
    token_balances = h.token_balances;
    assets = h.assets;
    address_balances = h.address_balances;
    accounts = h.accounts;
    balance_ids = h.balance_ids;
    contract_ids = h.contract_ids;
    token_balance_ids = h.token_balance_ids;
  }

  pub with_token_contracts :
      (t : Table TokenContractEntity)
      → UniqueBy contract_key t.rows
      → HasSerials (λ r. r.id) t
      → HasKeys (record d { token_contracts = t })
  with_token_contracts t u s = record {
    blocks = h.blocks;
    transactions = h.transactions;
    operations = h.operations;
    scan_configs = h.scan_configs;
    receipts = h.receipts;
    token_contracts = u;
    token_balances = h.token_balances;
    assets = h.assets;
    address_balances = h.address_balances;
    accounts = h.accounts;
    balance_ids = h.balance_ids;
    contract_ids = s;
    token_balance_ids = h.token_balance_ids;
  }

  pub with_token_balances :
      (t : Table TokenBalanceEntity)
      → UniqueBy token_balance_key t.rows
      → HasSerials (λ r. r.id) t
      → HasKeys (record d { token_balances = t })
  with_token_balances t u s = record {
    blocks = h.blocks;
    transactions = h.transactions;
    operations = h.operations;
    scan_configs = h.scan_configs;
    receipts = h.receipts;
    token_contracts = h.token_contracts;
    token_balances = u;
    assets = h.assets;
    address_balances = h.address_balances;
    accounts = h.accounts;
    balance_ids = h.balance_ids;
    contract_ids = h.contract_ids;
    token_balance_ids = s;
  }

  pub with_assets :
      (t : List AssetEntity) → UniqueBy asset_key t → HasKeys (record d { assets = t })
  with_assets t u = record {
    blocks = h.blocks;
    transactions = h.transactions;
    operations = h.operations;
    scan_configs = h.scan_configs;
    receipts = h.receipts;
    token_contracts = h.token_contracts;
    token_balances = h.token_balances;
    assets = u;
    address_balances = h.address_balances;
    accounts = h.accounts;
    balance_ids = h.balance_ids;
    contract_ids = h.contract_ids;
    token_balance_ids = h.token_balance_ids;
  }

  pub with_address_balances :
      (t : Table AddressBalanceEntity)
      → UniqueBy balance_key t.rows
      → HasSerials (λ r. r.id) t
      → HasKeys (record d { address_balances = t })
  with_address_balances t u s = record {
    blocks = h.blocks;
    transactions = h.transactions;
    operations = h.operations;
    scan_configs = h.scan_configs;
    receipts = h.receipts;
    token_contracts = h.token_contracts;
    token_balances = h.token_balances;
    assets = h.assets;
    address_balances = u;
    accounts = h.accounts;
    balance_ids = s;
    contract_ids = h.contract_ids;
    token_balance_ids = h.token_balance_ids;
  }

  pub with_accounts :
      (t : Table AccountEntity) → UniqueBy account_key t.rows → HasKeys (record d { accounts = t })
  with_accounts t u = record {
    blocks = h.blocks;
    transactions = h.transactions;
    operations = h.operations;
    scan_configs = h.scan_configs;
    receipts = h.receipts;
    token_contracts = h.token_contracts;
    token_balances = h.token_balances;
    assets = h.assets;
    address_balances = h.address_balances;
    accounts = u;
    balance_ids = h.balance_ids;
    contract_ids = h.contract_ids;
    token_balance_ids = h.token_balance_ids;
  }

  pub with_transfer_history :
      (t : Table TokenContractTransferHistoryEntity) → HasKeys (record d { transfer_history = t })
  with_transfer_history t = record {
    blocks = h.blocks;
    transactions = h.transactions;
    operations = h.operations;
    scan_configs = h.scan_configs;
    receipts = h.receipts;
    token_contracts = h.token_contracts;
    token_balances = h.token_balances;
    assets = h.assets;
    address_balances = h.address_balances;
    accounts = h.accounts;
    balance_ids = h.balance_ids;
    contract_ids = h.contract_ids;
    token_balance_ids = h.token_balance_ids;
  }

  pub with_receipt_events : (t : Table ReceiptEventRow) → HasKeys (record d { receipt_events = t })
  with_receipt_events t = record {
    blocks = h.blocks;
    transactions = h.transactions;
    operations = h.operations;
    scan_configs = h.scan_configs;
    receipts = h.receipts;
    token_contracts = h.token_contracts;
    token_balances = h.token_balances;
    assets = h.assets;
    address_balances = h.address_balances;
    accounts = h.accounts;
    balance_ids = h.balance_ids;
    contract_ids = h.contract_ids;
    token_balance_ids = h.token_balance_ids;
  }

  pub with_op_tables : (t : List OpTable) → HasKeys (record d { op_tables = t })
  with_op_tables t = record {
    blocks = h.blocks;
    transactions = h.transactions;
    operations = h.operations;
    scan_configs = h.scan_configs;
    receipts = h.receipts;
    token_contracts = h.token_contracts;
    token_balances = h.token_balances;
    assets = h.assets;
    address_balances = h.address_balances;
    accounts = h.accounts;
    balance_ids = h.balance_ids;
    contract_ids = h.contract_ids;
    token_balance_ids = h.token_balance_ids;
  }
