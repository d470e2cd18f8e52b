-- ===== src/Db.antt =====
-- src/db: the entities and the tables that src/db/models.go and sqls/init.sql declare. The functions
-- that read and write them are the modules below.
pub mod Table
pub mod Schema
pub mod Configs
pub mod Checkpoint
pub mod Blocks
pub mod Operations
pub mod OperationIds
pub mod Dynamic
pub mod Rows
pub mod RowLookup
pub mod TableIndex
pub mod Receipts
pub mod ReceiptsReadBack
pub mod Accounts
pub mod Assets
pub mod Tokens
pub mod Serials
pub mod Keys
pub mod Keeps
pub mod Unique
pub mod UniqueBalances
pub mod UniqueTokens
pub mod UniqueReceipts
pub mod OpTables
pub mod FindOrSave
