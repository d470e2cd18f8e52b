-- ===== src/Scanner/Operation.antt =====
-- One operation of a transaction: the body of the innermost loop of `ScanBlocksFrom`.
use hxscanner.Prelude.{
  ℕ, String, Option, none, some, List, [], ◌∷◌, get_elem?, lookup, insert, has_key, if◌then◌else◌,
}
use hxscanner.Prelude.Int.{ℤ, pos}
use hxscanner.Strconv.{parse_int}
use hxscanner.Value.{
  Value, Object, null, number, str, int, int64, uint32, uint64, obj, fields, as_object,
}
use hxscanner.Types.{HxBlock, HxContractOpReceipt, HxContractTxReceipt}
use hxscanner.Env.{Env}
use hxscanner.Db.Schema.{PgTableSchema, PgTableSchemaColumn, BaseOperationEntity}
use hxscanner.Db.Operations.{get_base_operation_id, find_base_operation, save_base_operation}
use hxscanner.Db.Dynamic.{
  check_table_exist, create_table, create_index, check_operation_exist, get_table_schema,
  insert_dynamic_operation,
}
use hxscanner.Node.Names.{
  get_operation_name_by_operation_type, get_operation_table_name_by_operation_name,
}
use hxscanner.Exec.{
  M, pure, fail, panic, lift, or_fail, or_exit, ◌>>=◌, ◌>>◌, gets, put_schema, when_nil,
}

-- `OpScannerPlugin`
pub record OpScannerPlugin : Type 0 where
  pub plugin_name : String
  pub apply_operation :
      HxBlock → String → ℕ → ℤ → String → Object → Option HxContractOpReceipt → M (Unit {0})

-- `opPair[0].(json.Number)`; the message for another type asks for the type's name, which panics at nil.
unfoldable pub op_type_number : Value → M String
op_type_number (number n) = pure n
op_type_number null = panic
op_type_number v = fail "invalid operation type type"

-- The type and the JSON object of an operation pair.
unfoldable pub decode_op_pair : List Value → M (ℤ × Object)
unfolding op_type_number
decode_op_pair (t ∷ json ∷ []) = do
  n ← op_type_number t
  op_type ← or_fail (parse_int n) "parse operation type error"
  op_json ← or_fail (as_object json) "invalid operation json type"
  pure (op_type, op_json)
decode_op_pair op_pair = fail "invalid operation pair size"

abbrev pub default_text : String → Object → Object
default_text key op_json = if has_key key op_json then op_json else insert key (str "") op_json

-- The keys that the scanner adds to the operation's object.
unfoldable pub enrich : HxBlock → String → ℕ → Object → Object
enrich block trxid op_index op_json = default_text "guarantee_id" (
    default_text "memo" (
      insert "index_in_tx" (int (pos op_index))
        (insert "trxid" (str trxid) (insert "block_num" (int (pos block.block_number)) op_json))))

abbrev column_type : Value → String
column_type (int n) = "bigint"
column_type (uint32 n) = "bigint"
column_type (int64 n) = "bigint"
column_type (uint64 n) = "bigint"
column_type v = "text"

abbrev pub columns_of : Object → List PgTableSchemaColumn
columns_of [] = []
columns_of ((key, v) ∷ op_json) =
    record { column_name = key; column_type = column_type v } ∷ columns_of op_json

abbrev pub maybe_addr_props : List String
maybe_addr_props =
    "addr" ∷ "from_addr" ∷ "caller_addr" ∷ "owner_addr" ∷ "miner_address" ∷ "payer"
    ∷ "fee_paying_account" ∷ "lock_balance_addr" ∷ "pay_back_owner" ∷ "bonus_owner"
    ∷ "fee_pay_address" ∷ "publisher_addr" ∷ "addr_from_claim" ∷ "issuer_addr" ∷ []

-- The value of the first property that the object has.
abbrev first_prop : List String → Object → Option Value
first_prop [] op_json = none
first_prop (prop ∷ props) op_json = elim (lookup prop op_json) [
  | some v ↦ some v
  | none ↦ first_prop props op_json
]

abbrev text_or_empty : Option Value → String
text_or_empty (some (str s)) = s
text_or_empty o = ""

unfoldable pub operation_addr : Object → String
operation_addr op_json = text_or_empty (first_prop maybe_addr_props op_json)

abbrev pub nth_receipt : Option HxContractTxReceipt → ℕ → Option HxContractOpReceipt
nth_receipt none i = none
nth_receipt (some tx_receipts) i = elim (get_elem? tx_receipts.op_receipts i) [
  | none ↦ none
  | some r ↦ r
]

module _ (E : Env) where
  abbrev pub fetch_schema : String → Option PgTableSchema → M PgTableSchema
  fetch_schema table_name (some schema) = pure schema
  fetch_schema table_name none = do
    schema ← get_table_schema E table_name
    put_schema table_name schema
    pure schema

  unfoldable pub cached_get_table_schema : String → M PgTableSchema
  cached_get_table_schema table_name = do
    cached ← gets (λ w. lookup table_name w.schema_cache)
    fetch_schema table_name cached

  -- The table of the operation's type, made from the first operation of the type that comes up.
  unfoldable pub ensure_table : String → Object → M (Unit {0})
  ensure_table table_name op_json = do
    op_table_exist ← check_table_exist E table_name
    if op_table_exist then pure tt else do
      or_exit (create_table E table_name (columns_of op_json))
      or_exit (create_index E table_name)

  unfoldable pub store_operation : String → String → ℕ → Object → M (Unit {0})
  unfolding cached_get_table_schema
  store_operation table_name trxid op_index op_json = do
    op_exist_in_db ← or_exit (check_operation_exist E table_name trxid op_index)
    if op_exist_in_db then pure tt else do
      op_table_schema ← or_exit (cached_get_table_schema table_name)
      or_exit (insert_dynamic_operation E table_name op_table_schema op_json)

  abbrev pub base_operation :
      HxBlock → String → ℕ → ℕ → ℤ → String → String → String → BaseOperationEntity
  base_operation block trxid tx_index op_index op_type op_type_name json addr = record {
    serial_id = 0;
    id = get_base_operation_id block.block_number trxid op_index;
    trxid = trxid;
    block_num = block.block_number;
    tx_index_in_block = tx_index;
    operation_type = op_type;
    operation_type_name = op_type_name;
    operation_json = json;
    addr = addr;
  }

  -- The row of the operation in the base table.
  unfoldable pub store_base_operation :
      HxBlock → String → ℕ → ℕ → ℤ → String → Object → M (Unit {0})
  store_base_operation block trxid tx_index op_index op_type op_type_name op_json = do
    json ← or_exit (lift (E.marshal (obj (fields op_json))))
    let operation =
        base_operation block trxid tx_index op_index op_type op_type_name json
          (operation_addr op_json)
    old_base_op_in_db ← find_base_operation E operation.id
    when_nil old_base_op_in_db (or_exit (save_base_operation E operation))

  -- `ApplyPluginsToOperation`: in the order of registration, up to the first error.
  unfoldable pub apply_plugins_to_operation :
      List OpScannerPlugin
      → HxBlock
      → String
      → ℕ
      → ℤ
      → String
      → Object
      → Option HxContractOpReceipt
      → M (Unit {0})
  apply_plugins_to_operation [] block txid op_index op_type op_type_name op_json receipt = pure tt
  apply_plugins_to_operation (plugin ∷ plugins) block txid op_index op_type op_type_name op_json
        receipt =
      do
        plugin.apply_operation block txid op_index op_type op_type_name op_json receipt
        apply_plugins_to_operation plugins block txid op_index op_type op_type_name op_json receipt

  unfoldable pub scan_op :
      List OpScannerPlugin
      → HxBlock
      → String
      → ℕ
      → Option HxContractTxReceipt
      → ℕ
      → List Value
      → M (Unit {0})
  unfolding decode_op_pair
  scan_op plugins block trxid tx_index tx_receipts op_index op_pair = do
    (op_type, op_pair_json) ← decode_op_pair op_pair
    let op_json = enrich block trxid op_index op_pair_json
    op_type_name ← lift (get_operation_name_by_operation_type op_type)
    let table_name = get_operation_table_name_by_operation_name op_type_name
    ensure_table table_name op_json
    store_operation table_name trxid op_index op_json
    store_base_operation block trxid tx_index op_index op_type op_type_name op_json
    or_exit (
        apply_plugins_to_operation plugins block trxid op_index op_type op_type_name op_json
          (nth_receipt tx_receipts op_index))
