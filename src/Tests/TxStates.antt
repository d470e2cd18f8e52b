-- ===== src/Tests/TxStates.antt =====
-- The theorem on FindHxTransactionByTxid, at a node that reports a failed call of a contract.
use hxscanner.Prelude.{◌≡◌, refl, false, some, Option, List, [], ◌∷◌}
use hxscanner.Value.{Values, Object, nil, cons, bool, number, arr, null}
use hxscanner.Types.{HxTransaction, HxContractOpReceipt, new_hx_contract_op_receipt}
use hxscanner.Env.{ok, Env}
use hxscanner.Exec.{done}
use hxscanner.Node.TxState.{find_hx_transaction_by_txid, reread, tx_state_fail}
use hxscanner.Node.TxStateLaws.{Answers, find_hx_transaction_by_txid-agrees}
use hxscanner.Node.{check_transaction_has_contract_op, is_contract_item, is_contract_op_type}
use hxscanner.Strconv.{parse_int, parse_nat, parse_digits}
use hxscanner.Tests.Sample.{node, empty_world, transfer}

-- One operation of the type 79.
abbrev contract_operations : Values
contract_operations = cons (arr (cons (number "79") (cons null nil))) nil

abbrev contract_reply : Object
contract_reply = ("operations", arr contract_operations) ∷ []

abbrev failing_results : List (Option Object)
failing_results = some (("exec_succeed", bool false) ∷ []) ∷ []

abbrev contract_transaction : HxTransaction
contract_transaction = record transfer { operations = (number "79" ∷ null ∷ []) ∷ [] }

abbrev failed_receipts : List (Option HxContractOpReceipt)
failed_receipts = some new_hx_contract_op_receipt ∷ []

abbrev contract_node : Env
contract_node = record node {
  call = λ t method args. ok null;
  decode_map = λ v. ok contract_reply;
  unmarshal_object = λ s. ok contract_reply;
  decode_maps = λ v. ok failing_results;
}

contract_node-Answers : Answers contract_node "t1" 0 contract_reply failing_results
unfolding reread
contract_node-Answers = record {
  is_connected = refl;
  first = null;
  called = refl;
  raw = contract_reply;
  as_map = refl;
  again = refl;
  second = null;
  called_results = refl;
  as_maps = refl;
}

tx_state_agrees_example :
    (find_hx_transaction_by_txid contract_node "t1" empty_world).0 ≡ done tx_state_fail
unfolding check_transaction_has_contract_op is_contract_item is_contract_op_type parse_int parse_nat
    parse_digits new_hx_contract_op_receipt
tx_state_agrees_example =
    find_hx_transaction_by_txid-agrees contract_node "t1" empty_world contract_reply failing_results
      contract_transaction failed_receipts contract_operations contract_node-Answers refl refl
      (refl, tt)
