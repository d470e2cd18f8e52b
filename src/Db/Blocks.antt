-- ===== src/Db/Blocks.antt =====
-- Blocks and transactions of src/db/daos.go.
use hxscanner.Prelude.{ℕ, String, Option, List, [], ◌∷◌, ◌++◌, ◌==◌, eqb, find?, update, length}
use hxscanner.Prelude.Int.{ℤ, negsuc}
use hxscanner.Value.{Value, as_number}
use hxscanner.Strconv.{parse_int}
use hxscanner.Types.{HxBlock, HxTransaction}
use hxscanner.Env.{Result, Env}
use hxscanner.Db.Table.{insert_row, unless_found}
use hxscanner.Db.Schema.{Db, BlockEntity, TransactionEntity}
use hxscanner.Exec.{M, pure, panic, or_fail, ◌>>=◌, ◌>>◌, sql, query_row, exec, exec_checked, write}

abbrev pub block_row : HxBlock → BlockEntity
block_row block = record {
  id = block.block_number;
  number = block.block_number;
  previous = block.previous;
  timestamp = block.timestamp;
  trxfee = block.trxfee;
  miner = block.miner;
  transaction_merkle_root = block.transaction_merkle_root;
  next_secret_hash = block.next_secret_hash;
  block_id = "";
  reward = 0;
  txs_count = length block.transactions;
}

-- `id` is the primary key of `blocks`.
abbrev pub insert_block : HxBlock → Db → Result Db
insert_block block d =
    unless_found (find? (λ r. eqb block.block_number r.id) d.blocks)
      "duplicate key value violates unique constraint pk_blocks"
      (record d { blocks = d.blocks ++ block_row block ∷ [] })

-- A Go panic where the slice is empty.
abbrev first_item : List Value → M Value
first_item [] = panic
first_item (v ∷ vs) = pure v

-- The type of the first operation, or -1.
unfoldable pub first_operation_type : List (List Value) → M ℤ
first_operation_type [] = pure (negsuc 0)
first_operation_type (first_op_pair ∷ ops) = do
  first_op_type_obj ← first_item first_op_pair
  first_op_type_num ← or_fail (as_number first_op_type_obj) "invalid operation type"
  or_fail (parse_int first_op_type_num) "strconv.ParseInt: invalid syntax"

module _ (E : Env) where
  unfoldable pub find_block : ℕ → M (Option BlockEntity)
  find_block block_number = query_row E (λ d. d.blocks) (λ r. eqb block_number r.number)

  unfoldable pub save_block : HxBlock → M (Unit {0})
  save_block block = exec_checked E (insert_block block)

  unfoldable pub update_block_hash : ℕ → String → M (Unit {0})
  update_block_hash block_number block_hash = exec E λ d. record d {
    blocks =
        update (λ r. eqb block_number r.number) (λ r. record r { block_id = block_hash }) d.blocks;
  }

  unfoldable pub find_transaction : String → M (Option TransactionEntity)
  find_transaction txid = query_row E (λ d. d.transactions.rows) (λ r. r.txid == txid)

  unfoldable pub insert_transaction : HxTransaction → ℤ → Db → Db
  insert_transaction tx first_op_type d = record d {
    transactions =
        insert_row
          (λ i. record {
            serial_id = i;
            block_number = tx.block_num;
            id = tx.trxid;
            ref_block_num = tx.ref_block_num;
            ref_block_prefix = tx.ref_block_prefix;
            expiration = tx.expiration;
            operations_count = length tx.operations;
            index_in_block = tx.index_in_block;
            first_operation_type = first_op_type;
            txid = tx.trxid;
          })
          d.transactions;
  }

  unfoldable pub save_transaction : HxTransaction → M (Unit {0})
  unfolding first_operation_type insert_transaction
  save_transaction tx = do
    sql E
    first_op_type ← first_operation_type tx.operations
    sql E
    write (insert_transaction tx first_op_type)
