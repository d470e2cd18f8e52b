-- ===== src/Db/Operations.antt =====
-- The base table of operations of src/db/daos.go.
use hxscanner.Prelude.{ℕ, String, ◌<>◌, Option, ◌==◌}
use hxscanner.Strconv.{format_nat}
use hxscanner.Env.{Env}
use hxscanner.Db.Table.{insert_row}
use hxscanner.Db.Schema.{BaseOperationEntity}
use hxscanner.Exec.{M, query_row, exec}

-- `fmt.Sprintf("%d@%s@%d", blockNum, trxId, opNum)`
unfoldable pub get_base_operation_id : ℕ → String → ℕ → String
get_base_operation_id block_num trx_id op_num =
    format_nat block_num <> ("@" <> (trx_id <> ("@" <> format_nat op_num)))

module _ (E : Env) where
  unfoldable pub find_base_operation : String → M (Option BaseOperationEntity)
  find_base_operation id = query_row E (λ d. d.operations.rows) (λ r. r.id == id)

  unfoldable pub save_base_operation : BaseOperationEntity → M (Unit {0})
  save_base_operation operation = exec E λ d. record d {
    operations = insert_row (λ i. record operation { serial_id = i }) d.operations;
  }
