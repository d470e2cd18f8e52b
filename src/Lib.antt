-- ===== src/Lib.antt =====
-- hxscanner reads the blocks of an hx node and stores them, with their transactions, operations and
-- contract receipts, in a PostgreSQL database. The scanner (src/scanner/scanner.go) asks the node
-- service (src/nodeservice/node.go) for one block after the other, stores what it finds through the
-- data access functions (src/db), and gives every operation to the plugins (src/plugins), which keep
-- derived tables such as the balances of addresses. A checkpoint in the table scan_configs says
-- where the next process goes on.
--
-- Files and code:
-- - Prelude, Strconv, Value: tests on numbers, lists and maps; Go's Itoa and ParseInt; the values
--   of encoding/json. A map is the list of its entries in the order in which a range meets them.
-- - Types: src/types. Env: what is not in the repository, as a record of answers: the node's JSON-
--   RPC calls and their decoding, errors of the SQL driver, the clock and time.Parse, the decimal
--   package, and floating point. Each call of the driver takes the next answer, so that any call
--   may fail; the driver's errors also stand for constraints on the width of a column.
-- - Db: src/db and sqls/init.sql. Schema has the entities and the tables, and one module for each
--   group of functions: Configs, Blocks, Operations, Dynamic (the tables of operations), Receipts,
--   Accounts, Assets, Tokens. A table is the list of its rows, oldest first, with the next serial
--   number. Keys, Serials, Unique, UniqueBalances, UniqueTokens, UniqueReceipts, OpTables and
--   FindOrSave show that keys stay unique; Keeps what a function leaves alone; Checkpoint,
--   OperationIds, Rows, RowLookup, ReceiptsReadBack and TableIndex are named for what they are
--   about. A table of operations knows whether it has its index.
-- - Exec: the effects. An action takes the world (database, schema cache, number of interactions)
--   to an outcome: a result, a Go error, an exit by logger.Fatal, or a panic; what was written
--   before stays written. Exec/Keeps has invariants of actions, Exec/Leads what holds after an
--   action, Exec/Quiet what returns when the driver reports no error, Exec/Ends what does not end
--   the process, Exec/Any what is true however an action ends, Exec/Completes what never fails.
-- - Node: src/nodeservice; Node/Names is operations.go. Node/TxState is FindHxTransactionByTxid,
--   Node/Connection the opening and closing of the connection. Node/Numbers, Node/TableNames,
--   Node/Balances and Node/TxStateLaws have their theorems.
-- - Scanner: Operation and Block are src/scanner/scanner.go, from the operation pair up to the
--   loop over the blocks, and the goroutine of hxscanner.go. A break of a loop is a failed action
--   that the loop catches (until_break, attempt). Registered has the plugins that hxscanner.go
--   adds. Loops, Keys, OpRows, Coverage, Rounds, Restart and Lives lead to the theorems on whole
--   processes; Machine is an abstract machine of the loop, Refines and Behind relate the code to
--   it; Ends, Progress, Plain and Steady are about how far the loop comes; WellFormed, Persist,
--   CompleteOps, Complete, CompleteBlocks, CompleteScan, CompleteCheckpoints, CompleteRounds and
--   CompleteLives are about what is stored of the blocks that were passed; Enrich is about the
--   operation's object, and TableIndex about the table and the index that the first operation of a
--   type makes.
-- - Plugins: src/plugins/utils.go and the plugins, with asset_balance_update_util.go. TokenCreate
--   is token_contract_create_plugin.go; TokenInvoke and TokenEvents are
--   token_contract_invoke_plugin.go, whose result err is passed along its loops. Keeps, Keys,
--   TokenKeeps, EventKeeps, EventStores and EventKeys show what they leave alone and that they
--   store no key twice; EventErrors and Deposits are about the errors that the loops pass on,
--   BalanceRows, BalanceStored and TokenStored about the balances that are stored.
-- - Main: src/hxscanner.go and src/config/config.go: the flags, the configuration, and the start.
--   The theorems on processes are about run, which main comes to once the database is open.
-- - Tests: a node with two blocks, whole runs on it, and each theorem at concrete data.
--
-- The loop over the blocks runs for a given number of rounds; the Go loop has no bound, and the
-- theorems hold for every number of rounds. Printing a number has its value plus one as fuel, which
-- is enough since each step divides by ten. Numbers of blocks, positions and counts are natural
-- numbers; the conversions to uint32 are written out as they stand in the code.
--
-- Not modelled: the JSON-RPC codec (wsjsonrpc is a copy of Go's net/rpc/jsonrpc) and the logger, the
-- sleeps, the signals, and the goroutines that send pings and watch the context. Assumed: pointers
-- in a decoded block are not nil, identifiers are shorter than 63 bytes, and a query without an
-- order answers in the order of insertion.
pub mod Prelude
pub mod Strconv
pub mod Value
pub mod Types
pub mod Env
pub mod Db
pub mod Exec
pub mod Node
pub mod Scanner
pub mod Plugins
pub mod Main
pub mod Tests
