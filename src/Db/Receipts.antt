-- ===== src/Db/Receipts.antt =====
-- Contract receipts and their events of src/db/daos.go.
use hxscanner.Prelude.{
  ℕ, String, Bool, Option, none, some, List, [], ◌∷◌, ◌&&◌, ◌==◌, eqb, map, if◌then◌else◌,
}
use hxscanner.Value.{null, Value, Values, nil, cons, fields, str, int, uint32, arr, obj}
use hxscanner.Prelude.Int.{pos}
use hxscanner.Strconv.{format_nat}
use hxscanner.Types.{HxContractOpReceipt, HxContractOpReceiptEvent}
use hxscanner.Env.{Result, Env}
use hxscanner.Db.Table.{insert_row}
use hxscanner.Db.Schema.{Db, ReceiptRow}
use hxscanner.Exec.{panic, M, pure, lift, ◌>>=◌, ◌>>◌, sql, query_row, exec, write}

abbrev pub is_receipt_of : String → ℕ → ReceiptRow → Bool
is_receipt_of trxid op_num r = (r.trxid == trxid) && eqb op_num r.op_num

-- The struct tags of `HxContractOpReceiptEvent`, and null for a nil pointer.
abbrev pub event_value : Option HxContractOpReceiptEvent → Value
event_value none = null
event_value (some e) = obj (
    fields (
      ("block_num", uint32 e.block_num)
      ∷ ("caller_addr", str e.caller_addr)
      ∷ ("contract_address", str e.contract_address)
      ∷ ("event_arg", str e.event_arg)
      ∷ ("event_name", str e.event_name)
      ∷ ("op_num", int (pos e.op_num))
      ∷ ("trx_id", str e.trxid)
      ∷ []))

abbrev pub array : List Value → Values
array [] = nil
array (v ∷ vs) = cons v (array vs)

module _ (E : Env) where
  -- `if len(text) > 0 { err = json.Unmarshal(…) }`
  abbrev pub unmarshal_or : {A : Type 0} → A → (String → Result A) → String → M A
  unmarshal_or before decode text = if text == "" then pure before else lift (decode text)

  unfoldable pub receipt_of : Option ReceiptRow → M (Option HxContractOpReceipt)
  receipt_of none = pure none
  receipt_of (some r) = do
    events ← unmarshal_or [] E.unmarshal_events r.events
    contract_withdraw_info ← unmarshal_or [] E.unmarshal_values r.contract_withdraw_info
    contract_balance_changes ← unmarshal_or [] E.unmarshal_values r.contract_balance_changes
    deposit_to_address_changes ← unmarshal_or [] E.unmarshal_values r.deposit_to_address_changes
    deposit_to_contract_changes ← unmarshal_or [] E.unmarshal_values r.deposit_to_contract_changes
    transfer_fees ← unmarshal_or [] E.unmarshal_values r.transfer_fees
    pure (
        some (record {
          id = format_nat r.id;
          trxid = r.trxid;
          block_num = r.block_num;
          op_num = r.op_num;
          api_result = r.api_result;
          events = events;
          exec_succeed = r.exec_succeed;
          actual_fee = r.actual_fee;
          invoker = r.invoker;
          contract_registered = r.contract_registered;
          contract_withdraw_info = contract_withdraw_info;
          contract_balance_changes = contract_balance_changes;
          deposit_to_address_changes = deposit_to_address_changes;
          deposit_to_contract_changes = deposit_to_contract_changes;
          transfer_fees = transfer_fees;
        }))

  unfoldable pub find_contract_op_receipt : String → ℕ → M (Option HxContractOpReceipt)
  unfolding receipt_of
  find_contract_op_receipt trxid op_num = do
    row ← query_row E (λ d. d.receipts.rows) (is_receipt_of trxid op_num)
    receipt_of row

  unfoldable pub insert_event : HxContractOpReceipt → HxContractOpReceiptEvent → Db → Db
  insert_event receipt event d = record d {
    receipt_events =
        insert_row
          (λ i. record {
            id = i;
            trxid = receipt.trxid;
            block_num = event.block_num;
            op_num = event.op_num;
            caller_addr = event.caller_addr;
            contract_address = event.contract_address;
            event_arg = event.event_arg;
            event_name = event.event_name;
          })
          d.receipt_events;
  }

  -- The events once more, each in a row of its own; a nil pointer is dereferenced.
  unfoldable pub save_events :
      HxContractOpReceipt → List (Option HxContractOpReceiptEvent) → M (Unit {0})
  unfolding insert_event
  save_events receipt [] = pure tt
  save_events receipt (none ∷ events) = do sql E; panic
  save_events receipt (some event ∷ events) = do
    exec E (insert_event receipt event)
    save_events receipt events

  unfoldable pub insert_receipt :
      HxContractOpReceipt → String → String → String → String → String → String → Db → Db
  insert_receipt receipt events withdraws balances to_address to_contract fees d = record d {
    receipts =
        insert_row
          (λ i. record {
            id = i;
            trxid = receipt.trxid;
            block_num = receipt.block_num;
            op_num = receipt.op_num;
            api_result = receipt.api_result;
            events = events;
            exec_succeed = receipt.exec_succeed;
            actual_fee = receipt.actual_fee;
            invoker = receipt.invoker;
            contract_registered = receipt.contract_registered;
            contract_withdraw_info = withdraws;
            contract_balance_changes = balances;
            deposit_to_address_changes = to_address;
            deposit_to_contract_changes = to_contract;
            transfer_fees = fees;
          })
          d.receipts;
  }

  unfoldable pub marshal_array : List Value → M String
  marshal_array vs = lift (E.marshal (arr (array vs)))

  unfoldable pub save_contract_op_receipt : HxContractOpReceipt → M (Unit {0})
  unfolding insert_receipt marshal_array save_events
  save_contract_op_receipt receipt = do
    sql E
    events ← marshal_array (map event_value receipt.events)
    withdraws ← marshal_array receipt.contract_withdraw_info
    balances ← marshal_array receipt.contract_balance_changes
    to_address ← marshal_array receipt.deposit_to_address_changes
    to_contract ← marshal_array receipt.deposit_to_contract_changes
    fees ← marshal_array receipt.transfer_fees
    sql E
    write (insert_receipt receipt events withdraws balances to_address to_contract fees)
    save_events receipt receipt.events
