-- ===== src/Db/Schema.antt =====
-- The entities of src/db/models.go and the tables of sqls/init.sql that hold them.
use hxscanner.Prelude.{ℕ, String, Bool, true, false, Option, List, [], ◌∷◌, ◌==◌, if◌then◌else◌}
use hxscanner.Prelude.Int.{ℤ}
use hxscanner.Value.{Object}
use hxscanner.Env.{Decimal}
use hxscanner.Db.Table.{Table, empty_table}

pub record BlockEntity : Type 0 where
  pub id : ℕ
  pub number : ℕ
  pub previous : String
  pub timestamp : String
  pub trxfee : ℕ
  pub miner : String
  pub transaction_merkle_root : String
  pub next_secret_hash : String
  pub block_id : String
  pub reward : ℕ
  pub txs_count : ℕ

pub record TransactionEntity : Type 0 where
  pub serial_id : ℕ
  pub block_number : ℕ
  pub id : String
  pub ref_block_num : ℕ
  pub ref_block_prefix : ℕ
  pub expiration : String
  pub operations_count : ℕ
  pub index_in_block : ℕ
  pub first_operation_type : ℤ
  pub txid : String

pub record BaseOperationEntity : Type 0 where
  pub serial_id : ℕ
  pub id : String
  pub trxid : String
  pub block_num : ℕ
  pub tx_index_in_block : ℕ
  pub operation_type : ℤ
  pub operation_type_name : String
  pub operation_json : String
  pub addr : String

pub record ScanConfigEntity : Type 0 where
  pub id : ℕ
  pub config_key : String
  pub config_value : String

pub record PgTableSchemaColumn : Type 0 where
  pub column_name : String
  pub column_type : String

pub record PgTableSchema : Type 0 where
  pub columns : List PgTableSchemaColumn

pub record TokenContractEntity : Type 0 where
  pub id : ℕ
  pub block_num : ℕ
  pub block_time : String
  pub txid : String
  pub contract_id : String
  pub contract_type : String
  pub owner_pubkey : String
  pub owner_addr : String
  pub register_time : String
  pub inherit_from : String
  pub gas_price : ℕ
  pub gas_limit : ℕ
  pub state : Option String
  pub total_supply : Option ℤ
  pub precision : Option ℕ
  pub token_symbol : Option String
  pub token_name : Option String
  pub logo : Option String
  pub url : Option String
  pub description : Option String

pub record TokenBalanceEntity : Type 0 where
  pub id : ℕ
  pub contract_addr : String
  pub owner_addr : String
  pub amount : Decimal
  pub created_at : ℕ
  pub updated_at : ℕ

pub record AssetEntity : Type 0 where
  pub asset_id : String
  pub symbol : String
  pub precision : ℕ
  pub created_at : ℕ
  pub updated_at : ℕ

pub record AddressBalanceEntity : Type 0 where
  pub id : ℕ
  pub owner_addr : String
  pub asset_id : String
  pub amount : Decimal
  pub created_at : ℕ
  pub updated_at : ℕ

pub record AccountEntity : Type 0 where
  pub id : ℕ
  pub owner_addr : String
  pub account_name : String
  pub created_at : ℕ
  pub updated_at : ℕ

pub record TokenContractTransferHistoryEntity : Type 0 where
  pub id : ℕ
  pub contract_addr : String
  pub from_addr : String
  pub to_addr : String
  pub amount : Decimal
  pub block_num : ℕ
  pub txid : String
  pub op_num : ℕ
  pub event_name : String
  pub tx_time : ℕ
  pub created_at : ℕ
  pub updated_at : ℕ

-- A row of contract_operation_receipt, with the lists as JSON texts.
pub record ReceiptRow : Type 0 where
  pub id : ℕ
  pub trxid : String
  pub block_num : ℕ
  pub op_num : ℕ
  pub api_result : String
  pub events : String
  pub exec_succeed : Bool
  pub actual_fee : ℕ
  pub invoker : String
  pub contract_registered : String
  pub contract_withdraw_info : String
  pub contract_balance_changes : String
  pub deposit_to_address_changes : String
  pub deposit_to_contract_changes : String
  pub transfer_fees : String

-- A row of contract_operation_receipt_event.
pub record ReceiptEventRow : Type 0 where
  pub id : ℕ
  pub trxid : String
  pub block_num : ℕ
  pub op_num : ℕ
  pub caller_addr : String
  pub contract_address : String
  pub event_arg : String
  pub event_name : String

-- An operation table that the scanner made: a row holds its values by column.
pub record OpTable : Type 0 where
  pub name : String
  pub schema : PgTableSchema
  pub indexed : Bool
  pub op_rows : List Object

pub record Db : Type 0 where
  pub blocks : List BlockEntity
  pub transactions : Table TransactionEntity
  pub operations : Table BaseOperationEntity
  pub scan_configs : Table ScanConfigEntity
  pub receipts : Table ReceiptRow
  pub receipt_events : Table ReceiptEventRow
  pub token_contracts : Table TokenContractEntity
  pub token_balances : Table TokenBalanceEntity
  pub transfer_history : Table TokenContractTransferHistoryEntity
  pub assets : List AssetEntity
  pub address_balances : Table AddressBalanceEntity
  pub accounts : Table AccountEntity
  pub op_tables : List OpTable

-- The tables as sqls/init.sql leaves them.
abbrev pub init_db : Db
init_db = record {
  blocks = [];
  transactions = empty_table;
  operations = empty_table;
  scan_configs = empty_table;
  receipts = empty_table;
  receipt_events = empty_table;
  token_contracts = empty_table;
  token_balances = empty_table;
  transfer_history = empty_table;
  assets = [];
  address_balances = empty_table;
  accounts = empty_table;
  op_tables = [];
}

-- `schema.HasColumn(name)`
abbrev has_column_in : List PgTableSchemaColumn → String → Bool
has_column_in [] name = false
has_column_in (col ∷ cols) name = if col.column_name == name then true else has_column_in cols name

unfoldable pub has_column : PgTableSchema → String → Bool
has_column schema = has_column_in schema.columns
