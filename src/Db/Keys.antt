-- ===== src/Db/Keys.antt =====
-- No key is stored twice: the invariant of the tables.
pub mod Changes
use hxscanner.Prelude.{ℕ, ◌+◌, ◌≤◌, ◌≡◌, String, Bool, ◌&&◌, List, ◌==◌, eqb, count, arith}
use hxscanner.Db.Table.{UniqueBy, empty_table}
use hxscanner.Db.Serials.{HasSerials}
use hxscanner.Db.Schema.{
  Db, BlockEntity, TransactionEntity, BaseOperationEntity, ScanConfigEntity, ReceiptRow,
  AccountEntity, AssetEntity, AddressBalanceEntity, TokenContractEntity, TokenBalanceEntity,
  init_db,
}
use hxscanner.Db.Receipts.{is_receipt_of}
use hxscanner.Db.Assets.{is_balance_of}
use hxscanner.Db.Tokens.{is_token_balance_of}

abbrev pub block_key : ℕ → BlockEntity → Bool
block_key n r = eqb n r.number

abbrev pub transaction_key : String → TransactionEntity → Bool
transaction_key k r = r.txid == k

abbrev pub operation_key : String → BaseOperationEntity → Bool
operation_key k r = r.id == k

abbrev pub config_key : String → ScanConfigEntity → Bool
config_key k r = r.config_key == k

-- A transaction's id, and the position of the operation in it.
abbrev pub receipt_key : String × ℕ → ReceiptRow → Bool
receipt_key k = is_receipt_of k.0 k.1

abbrev pub contract_key : String → TokenContractEntity → Bool
contract_key k r = r.contract_id == k

abbrev pub token_balance_key : String × String → TokenBalanceEntity → Bool
token_balance_key k = is_token_balance_of k.0 k.1

abbrev pub asset_key : String → AssetEntity → Bool
asset_key k r = r.asset_id == k

abbrev pub balance_key : String × String → AddressBalanceEntity → Bool
balance_key k = is_balance_of k.0 k.1

abbrev pub account_key : String → AccountEntity → Bool
account_key k r = r.owner_addr == k

pub record HasKeys (d : Db) : Type 0 where
  pub blocks : UniqueBy block_key d.blocks
  pub transactions : UniqueBy transaction_key d.transactions.rows
  pub operations : UniqueBy operation_key d.operations.rows
  pub scan_configs : UniqueBy config_key d.scan_configs.rows
  pub receipts : UniqueBy receipt_key d.receipts.rows
  pub token_contracts : UniqueBy contract_key d.token_contracts.rows
  pub token_balances : UniqueBy token_balance_key d.token_balances.rows
  pub assets : UniqueBy asset_key d.assets
  pub address_balances : UniqueBy balance_key d.address_balances.rows
  pub accounts : UniqueBy account_key d.accounts.rows
  pub balance_ids : HasSerials (λ r. r.id) d.address_balances
  pub contract_ids : HasSerials (λ r. r.id) d.token_contracts
  pub token_balance_ids : HasSerials (λ r. r.id) d.token_balances

empty-HasSerials : {A : Type 0} {serial : A → ℕ} → HasSerials serial empty_table
empty-HasSerials = record { once = λ i. omega arith; fresh = λ i l. omega arith }

-- Empty tables hold no key twice.
pub HasKeys-init_db : HasKeys init_db
HasKeys-init_db = record {
  blocks = λ k. omega arith;
  transactions = λ k. omega arith;
  operations = λ k. omega arith;
  scan_configs = λ k. omega arith;
  receipts = λ k. omega arith;
  token_contracts = λ k. omega arith;
  token_balances = λ k. omega arith;
  assets = λ k. omega arith;
  address_balances = λ k. omega arith;
  accounts = λ k. omega arith;
  balance_ids = empty-HasSerials;
  contract_ids = empty-HasSerials;
  token_balance_ids = empty-HasSerials;
}
