-- ===== src/Node.antt =====
-- src/nodeservice: the calls of the node, and what the program makes of the answers.
pub mod Names
pub mod Keeps
pub mod Numbers
pub mod TableNames
pub mod Balances
pub mod TxState
pub mod TxStateLaws
pub mod Connection
use Prim.Native.String.{[] as nil_text, ◌∷◌ as ◌∷ᶜ◌}
use hxscanner.Prelude.{
  ℕ, suc, zero, String, code, ◌++◌, Bool, true, false, ◌&&◌, ◌||◌, not, Option, none, some, List,
  [], ◌∷◌, ◌==◌, eqb, leb, insert, map, if◌then◌else◌,
}
use hxscanner.Prelude.Int.{ℤ, pos, negsuc}
use hxscanner.Strconv.{parse_int}
use hxscanner.Value.{Value, str, int, as_number}
use hxscanner.Types.{
  HxBlock, HxTransaction, HxFullTransactionExtraInfo, HxContractOpReceipt, HxContractTxReceipt,
}
use hxscanner.Env.{Error, Result, ok, err, AssetItem, BalanceItem, Env}
use hxscanner.Db.Schema.{AssetEntity}
use hxscanner.Exec.{M, pure, fail, panic, lift, or_fail, attempt, ◌>>=◌, ◌>>◌, now, connected, call}

-- `tx.IndexInBlock = i`
unfoldable pub number_transactions : ℕ → List HxTransaction → List HxTransaction
number_transactions i [] = []
number_transactions i (tx ∷ txs) =
    record tx { index_in_block = i } ∷ number_transactions (suc i) txs

-- The ids of the node's second answer, where there is a transaction at the position.
unfoldable pub fill_transactions :
    List HxFullTransactionExtraInfo → List HxTransaction → List HxTransaction
fill_transactions [] txs = txs
fill_transactions (info ∷ infos) [] = []
fill_transactions (info ∷ infos) (tx ∷ txs) =
    record tx { trxid = info.trxid; block_num = info.block_num; contract_id = info.contract_id }
    ∷ fill_transactions infos txs

unfoldable pub is_contract_op_type : ℤ → Bool
is_contract_op_type (pos n) = leb 76 n && leb n 81
is_contract_op_type (negsuc n) = false

abbrev pub is_contract_number : Option String → Bool
is_contract_number none = false
is_contract_number (some n) = elim (parse_int n) [ none ↦ false | some t ↦ is_contract_op_type t ]

-- An operation that is a pair, or longer, and has the type of a contract operation.
unfoldable pub is_contract_item : List Value → Bool
unfolding is_contract_op_type
is_contract_item (t ∷ json ∷ more) = is_contract_number (as_number t)
is_contract_item _ = false

abbrev any_contract_item : List (List Value) → Bool
any_contract_item [] = false
any_contract_item (item ∷ items) = if is_contract_item item then true else any_contract_item items

unfoldable pub check_transaction_has_contract_op : HxTransaction → Bool
unfolding is_contract_item
check_transaction_has_contract_op tx_info = any_contract_item tx_info.operations

abbrev failed_receipt : Option HxContractOpReceipt → Bool
failed_receipt none = false
failed_receipt (some r) = not r.exec_succeed

abbrev any_failed : List (Option HxContractOpReceipt) → Bool
any_failed [] = false
any_failed (r ∷ rs) = if failed_receipt r then true else any_failed rs

-- `len(s) >= 2 && s[0] == '"'`
abbrev pub is_quoted : String → Bool
is_quoted (String.◌∷◌ c (String.◌∷◌ d s)) = eqb (code c) b'"'
is_quoted _ = false

-- The map of the address's balances, filled in the order of the answer.
unfoldable pub collect_balances : List BalanceItem → List (String × ℤ) → Result (List (String × ℤ))
collect_balances [] result = ok result
collect_balances (item ∷ items) result = elim (parse_int item.amount) [
  | none ↦ err "strconv.ParseInt: invalid syntax"
  | some amount ↦ collect_balances items (insert item.asset_id amount result)
]

module _ (E : Env) where
  -- The block, with its number, its transactions' positions and their ids.
  unfoldable pub complete_block : ℕ → Option HxBlock → M (Option HxBlock)
  complete_block block_num none = panic
  complete_block block_num (some reply) = do
    full_txs ← call E "fetch_block_transactions" (int (pos block_num) ∷ [])
    infos ← lift (E.decode_full_txs full_txs)
    pure (
        some (record reply {
          block_number = block_num;
          transactions = fill_transactions infos (number_transactions zero reply.transactions);
          transaction_ids = map (λ info. info.trxid) infos;
        }))

  unfoldable pub get_block_reply : ℕ → Result Value → M (Option HxBlock)
  get_block_reply block_num (err e) = if e == "error <nil>" then pure none else fail e
  get_block_reply block_num (ok wrapper_reply) = do
    reply ← lift (E.decode_block wrapper_reply)
    complete_block block_num reply

  unfoldable pub get_block : ℕ → M (Option HxBlock)
  unfolding complete_block get_block_reply
  get_block block_num = do
    is_connected ← connected E
    if not is_connected then pure none else do
      reply ← attempt (call E "get_block" (int (pos block_num) ∷ []))
      get_block_reply block_num reply

  unfoldable pub invoke_contract_offline : String → String → String → String → M String
  invoke_contract_offline caller_pub_key contract_addr api_name api_arg = do
    is_connected ← connected E
    if not is_connected then pure "" else do
      reply ←
          call E "invoke_contract_offline"
            (str caller_pub_key ∷ str contract_addr ∷ str api_name ∷ str api_arg ∷ [])
      lift (E.marshal reply)

  -- A result that is a JSON string is decoded.
  abbrev pub unquoted : String → M String
  unquoted s = if is_quoted s then lift (E.unmarshal_string s) else pure s

  unfoldable pub invoke_contract_offline_with_int_result : String → String → String → String → M ℤ
  invoke_contract_offline_with_int_result caller_pub_key contract_addr api_name api_arg = do
    quoted ← invoke_contract_offline caller_pub_key contract_addr api_name api_arg
    str_result ← unquoted quoted
    or_fail (parse_int str_result) "strconv.ParseInt: invalid syntax"

  abbrev asset_entity : ℕ → AssetItem → AssetEntity
  asset_entity t item = record {
    asset_id = item.asset_id;
    symbol = item.symbol;
    precision = item.precision;
    created_at = t;
    updated_at = t;
  }

  unfoldable pub list_assets : ℕ → ℕ → M (List AssetEntity)
  list_assets offset limit = do
    is_connected ← connected E
    if not is_connected then pure [] else do
      reply ← call E "list_assets" (int (pos offset) ∷ int (pos limit) ∷ [])
      items ← lift (E.decode_assets reply)
      t ← now E
      pure (map (asset_entity t) items)

  unfoldable pub get_address_balances : String → M (List (String × ℤ))
  unfolding collect_balances
  get_address_balances addr = do
    is_connected ← connected E
    if not is_connected then pure [] else do
      reply ← call E "get_addr_balances" (str addr ∷ [])
      items ← lift (E.decode_balances reply)
      lift (collect_balances items [])

  unfoldable pub get_tx_receipts : HxTransaction → M (Option HxContractTxReceipt)
  get_tx_receipts tx_info = do
    is_connected ← connected E
    if not is_connected then pure none else do
      reply ← call E "get_contract_invoke_object" (str tx_info.trxid ∷ [])
      op_receipts ← lift (E.decode_receipts reply)
      pure (
          some (record {
            op_receipts = op_receipts;
            has_failed_contract_operation = any_failed op_receipts;
          }))
