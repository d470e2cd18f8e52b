-- ===== src/Node/TxState.antt =====
-- `FindHxTransactionByTxid` of src/nodeservice/node.go: what became of a transaction, as a text. It
-- reads the node's answers as maps, where the scanner decodes them into records.
use hxscanner.Prelude.{
  String, Bool, true, false, ◌&&◌, Option, none, some, List, [], ◌∷◌, leb, lookup, not,
  if◌then◌else◌,
}
use hxscanner.Prelude.Int.{ℤ, pos, negsuc}
use hxscanner.Strconv.{parse_int}
use hxscanner.Value.{Value, Object, bool, str, obj, fields, as_array, as_number}
use hxscanner.Env.{Result, ok, err, Env}
use hxscanner.Exec.{M, pure, lift, attempt, ◌>>=◌, connected, call}

abbrev pub tx_state_not_found : String
tx_state_not_found = "TxStateNotFound"

abbrev pub tx_state_success : String
tx_state_success = "TxStateSuccess"

abbrev pub tx_state_fail : String
tx_state_fail = "TxStateFail"

-- `operationType >= 76 && operationType <= 81`
abbrev pub is_contract_range : ℤ → Bool
is_contract_range (pos n) = leb 76 n && leb n 81
is_contract_range (negsuc n) = false

abbrev pub is_contract_type_num : Option String → Bool
is_contract_type_num none = false
is_contract_type_num (some n) = elim (parse_int n) [ none ↦ false | some t ↦ is_contract_range t ]

-- An operation that is an array of two or more, and whose first element is such a number.
unfoldable pub is_contract_array : List Value → Bool
is_contract_array (t ∷ json ∷ more) = is_contract_type_num (as_number t)
is_contract_array _ = false

-- An operation that is no array is passed over.
abbrev pub is_contract_value : Option (List Value) → Bool
is_contract_value none = false
is_contract_value (some operation_item_array) = is_contract_array operation_item_array

abbrev pub any_contract_value : List Value → Bool
any_contract_value [] = false
any_contract_value (v ∷ vs) = if is_contract_value (as_array v) then true else any_contract_value vs

abbrev pub contract_in : Option (List Value) → Bool
contract_in none = false
contract_in (some operations) = any_contract_value operations

abbrev pub contract_in_property : Option Value → Bool
contract_in_property none = false
contract_in_property (some operations_json) = contract_in (as_array operations_json)

unfoldable pub has_contract_op : Object → Bool
unfolding is_contract_array
has_contract_op reply = contract_in_property (lookup "operations" reply)

-- `exec_succeed` is there, and is false.
abbrev pub is_failure : Option Value → Bool
is_failure (some (bool exec_success)) = not exec_success
is_failure v = false

abbrev pub failed_map : Option Object → Bool
failed_map none = false
failed_map (some operation_result) = is_failure (lookup "exec_succeed" operation_result)

abbrev pub any_failed_map : List (Option Object) → Bool
any_failed_map [] = false
any_failed_map (r ∷ rs) = if failed_map r then true else any_failed_map rs

unfoldable pub state_of_results : Result (List (Option Object)) → String
state_of_results (err e) = tx_state_success
state_of_results (ok results) = if any_failed_map results then tx_state_fail else tx_state_success

module _ (E : Env) where
  -- The map again, with numbers as `json.Number`. An error of `Marshal` leaves no bytes, which do not decode.
  unfoldable pub reread : Object → Result Object
  reread reply = elim (E.marshal (obj (fields reply))) [
    | err e ↦ err e
    | ok bytes ↦ E.unmarshal_object bytes
  ]

  unfoldable pub contract_results : String → M (List (Option Object))
  contract_results txid = do
    reply ← call E "get_contract_invoke_object" (str txid ∷ [])
    lift (E.decode_maps reply)

  unfoldable pub state_of_transaction : String → Result Object → M String
  unfolding has_contract_op contract_results state_of_results
  state_of_transaction txid (err e) = pure tx_state_success
  state_of_transaction txid (ok reply) =
      if has_contract_op reply
      then (do r ← attempt (contract_results txid); pure (state_of_results r))
      else pure tx_state_success

  unfoldable pub transaction_reply : String → M Object
  transaction_reply txid = do
    reply ← call E "get_transaction_by_id" (str txid ∷ [])
    lift (E.decode_map reply)

  abbrev pub state_of_reply : String → Result Object → M String
  state_of_reply txid (err e) = pure tx_state_not_found
  state_of_reply txid (ok reply) = state_of_transaction txid (reread reply)

  unfoldable pub find_hx_transaction_by_txid : String → M String
  unfolding transaction_reply reread state_of_transaction
  find_hx_transaction_by_txid txid = do
    is_connected ← connected E
    if not is_connected
        then pure tx_state_not_found
        else do r ← attempt (transaction_reply txid); state_of_reply txid r
