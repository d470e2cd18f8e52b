-- ===== src/Node/TxStateLaws.antt =====
-- What `FindHxTransactionByTxid` answers.
use hxscanner.Prelude.{
  ℕ, ◌+◌, ◌≡◌, refl, inl, inr, String, true, false, ◌&&◌, Option, none, some, List, [], ◌∷◌, lookup,
  map, Bool-cases, if◌then◌else◌,
}
use hxscanner.Prelude.Int.{ℤ, pos, negsuc}
use hxscanner.Strconv.{parse_int}
use hxscanner.Value.{Value, Values, Object, arr, values, str, bool, as_array, as_number}
use hxscanner.Types.{HxTransaction, HxContractOpReceipt}
use hxscanner.Env.{ok, Env}
use hxscanner.Exec.{World, done, pure, lift, attempt, ◌>>=◌, ask, connected, call}
use hxscanner.Node.{
  is_contract_op_type, is_contract_number, is_contract_item, any_contract_item,
  check_transaction_has_contract_op, failed_receipt, any_failed,
}
use hxscanner.Node.TxState.{
  tx_state_success, tx_state_fail, is_contract_range, is_contract_type_num, is_contract_array,
  any_contract_value, has_contract_op, failed_map, any_failed_map, state_of_results, reread,
  contract_results, state_of_transaction, transaction_reply, find_hx_transaction_by_txid,
}

-- The answers of the node about one transaction: its map, and the maps of its contract results.
pub record Answers (E : Env) (txid : String) (t : ℕ) (reply : Object)
    (results : List (Option Object)) : Type 0 where
  pub is_connected : E.connected t ≡ true
  pub first : Value
  pub called : E.call (t + 1) "get_transaction_by_id" (str txid ∷ []) ≡ ok first
  pub raw : Object
  pub as_map : E.decode_map first ≡ ok raw
  pub again : reread E raw ≡ ok reply
  pub second : Value
  pub called_results : E.call (t + 1 + 1) "get_contract_invoke_object" (str txid ∷ []) ≡ ok second
  pub as_maps : E.decode_maps second ≡ ok results

-- The two tests of an operation, which the source writes out twice, agree.
is_contract_array-same : (item : List Value) → is_contract_array item ≡ is_contract_item item
unfolding is_contract_array is_contract_item is_contract_op_type
is_contract_array-same [] = refl
is_contract_array-same (t ∷ []) = refl
is_contract_array-same (t ∷ json ∷ more) = number (as_number t)
  where
    in_range :
        (o : Option ℤ)
        → elim o [ none ↦ false | some n ↦ is_contract_range n ]
          ≡ elim o [ none ↦ false | some n ↦ is_contract_op_type n ]
    in_range none = refl
    in_range (some (pos n)) = refl
    in_range (some (negsuc n)) = refl

    number : (o : Option String) → is_contract_type_num o ≡ is_contract_number o
    number none = refl
    number (some n) = in_range (parse_int n)

any_contract-same :
    (vs : List Value) (ops : List (List Value))
    → map as_array vs ≡ map some ops
    → any_contract_value vs ≡ any_contract_item ops
any_contract-same [] [] h = refl
any_contract-same [] (o ∷ ops) h = cc
any_contract-same (v ∷ vs) [] h = cc
any_contract-same (v ∷ vs) (o ∷ ops) h =
    let here : as_array v ≡ some o = cc in
    rw (here, is_contract_array-same o, any_contract-same vs ops (cc)) refl

-- The result of a call, decoded as a map, and the same decoded as a receipt: both are null, or the
-- property "exec_succeed" is there, is a Boolean, and is the field of the receipt.
abbrev pub ExecAlike : Option Object → Option HxContractOpReceipt → Type 0
ExecAlike none none = Unit
ExecAlike (some m) (some r) = lookup "exec_succeed" m ≡ some (bool r.exec_succeed)
ExecAlike _ _ = ⊥

abbrev pub AllAlike : List (Option Object) → List (Option HxContractOpReceipt) → Type 0
AllAlike [] [] = Unit
AllAlike (m ∷ ms) (r ∷ rs) = ExecAlike m r × AllAlike ms rs
AllAlike _ _ = ⊥

failed-same :
    (m : Option Object) (r : Option HxContractOpReceipt)
    → ExecAlike m r
    → failed_map m ≡ failed_receipt r
failed-same none none h = refl
failed-same (some m) (some r) h = rw h refl
failed-same none (some r) h = absurd h
failed-same (some m) none h = absurd h

any_failed-same :
    (ms : List (Option Object)) (rs : List (Option HxContractOpReceipt))
    → AllAlike ms rs
    → any_failed_map ms ≡ any_failed rs
any_failed-same [] [] h = refl
any_failed-same [] (r ∷ rs) h = absurd h
any_failed-same (m ∷ ms) [] h = absurd h
any_failed-same (m ∷ ms) (r ∷ rs) h = rw (failed-same m r h.0, any_failed-same ms rs h.1) refl

-- Take a node that is connected and gives both answers about a transaction, whose operations as JSON
-- are those of a decoded transaction, and whose results, as maps, each have a Boolean "exec_succeed" which is that of a decoded
-- receipt, or are null where it is nil. FindHxTransactionByTxid returns "TxStateFail" if CheckTransactionHasContractOp finds a
-- contract operation in the transaction and one of the receipts failed, as GetTxReceipts tests it,
-- and "TxStateSuccess" otherwise.
pub find_hx_transaction_by_txid-agrees :
    (E : Env) (txid : String) (w : World) (reply : Object) (results : List (Option Object))
    (tx : HxTransaction) (receipts : List (Option HxContractOpReceipt)) (vs : Values)
    → Answers E txid w.tick reply results
    → lookup "operations" reply ≡ some (arr vs)
    → map as_array (values vs) ≡ map some tx.operations
    → AllAlike results receipts
    → (find_hx_transaction_by_txid E txid w).0
      ≡ done (
          if check_transaction_has_contract_op tx && any_failed receipts
          then tx_state_fail
          else tx_state_success)
unfolding find_hx_transaction_by_txid transaction_reply state_of_transaction contract_results
    state_of_results has_contract_op check_transaction_has_contract_op attempt lift pure call ask
    connected ◌>>=◌
find_hx_transaction_by_txid-agrees E txid w reply results tx receipts vs a ops same_ops
      same_results =
    elim (Bool-cases (any_contract_item tx.operations)) [
      | inl e ↦
          rw
            (
              a.is_connected,
              a.called,
              a.as_map,
              a.again,
              ops,
              any_contract-same (values vs) tx.operations same_ops,
              e,
              a.called_results,
              a.as_maps,
              any_failed-same results receipts same_results,
            )
            refl
      | inr e ↦
          rw
            (
              a.is_connected,
              a.called,
              a.as_map,
              a.again,
              ops,
              any_contract-same (values vs) tx.operations same_ops,
              e,
            )
            refl
    ]
