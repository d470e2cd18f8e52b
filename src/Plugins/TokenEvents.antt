-- ===== src/Plugins/TokenEvents.antt =====
-- src/plugins/token_contract_invoke_plugin.go: the loops over a receipt's events and its deposits.
use hxscanner.Prelude.{
  ℕ, ◌%◌, ◌^◌, String, ◌||◌, Option, none, some, List, [], ◌∷◌, ◌==◌, not, if◌then◌else◌,
}
use hxscanner.Prelude.Int.{ℤ}
use hxscanner.Strconv.{format_nat}
use hxscanner.Value.{Value, Object, as_array}
use hxscanner.Types.{HxBlock, HxContractOpReceipt, HxContractOpReceiptEvent}
use hxscanner.Env.{ok, err, Decimal, TransferEventArg, Env}
use hxscanner.Db.Schema.{TokenContractEntity, TokenContractTransferHistoryEntity}
use hxscanner.Db.Tokens.{
  find_token_contract_by_contract_id, save_token_contract_transfer_history,
  find_token_contract_transfer_history_item_by_tx_id_and_op_num,
}
use hxscanner.Exec.{panic, M, pure, lift, attempt, ◌>>=◌, ◌>>◌, now}
use hxscanner.Plugins.Balance.{update_address_balance}
use hxscanner.Plugins.TokenInvoke.{
  MaybeError, users_to_update, pair_of_change, result_of, process_inited, update_users,
  refresh_total_supply,
}
use hxscanner.Scanner.Operation.{OpScannerPlugin}

abbrev pub transfer_history_item :
    HxBlock
    → String
    → ℕ
    → ℕ
    → String
    → TransferEventArg
    → Decimal
    → ℕ
    → TokenContractTransferHistoryEntity
transfer_history_item block txid op_num tx_time contract_id a amount t = record {
  id = 0;
  contract_addr = contract_id;
  from_addr = a.from_addr;
  to_addr = a.to_addr;
  amount = amount;
  block_num = block.block_number % 2 ^ 32;
  txid = txid;
  op_num = op_num % 2 ^ 32;
  event_name = "Transfer";
  tx_time = tx_time;
  created_at = t;
  updated_at = t;
}

module _ (E : Env) (caller_pub_key : String) where
  -- The balances of both users, and the supply where one of them is empty.
  unfoldable pub update_after_transfer : String → TransferEventArg → M MaybeError
  update_after_transfer contract_id a = do
    t ← now E
    e ← update_users E caller_pub_key contract_id t (users_to_update a) none
    if (a.from_addr == "") || (a.to_addr == "")
        then refresh_total_supply E caller_pub_key contract_id
        else pure e

  module _ (block : HxBlock) (txid : String) (op_num tx_time : ℕ) where
    unfoldable pub save_transfer :
        String
        → TransferEventArg
        → Decimal
        → Option TokenContractTransferHistoryEntity
        → M (Unit {0})
    save_transfer contract_id a amount (some item) = pure tt
    save_transfer contract_id a amount none = do
      t ← now E
      save_token_contract_transfer_history E
          (transfer_history_item block txid op_num tx_time contract_id a amount t)

    unfoldable pub store_transfer :
        String → TransferEventArg → Option TokenContractTransferHistoryEntity → M MaybeError
    unfolding save_transfer update_after_transfer
    store_transfer contract_id a item = do
      parsed ← attempt (lift (E.parse_decimal (format_nat a.amount)))
      elim parsed [
        | err e ↦ pure (some e)
        | ok amount ↦ do
          saved ← attempt (save_transfer contract_id a amount item)
          elim saved [ err e ↦ pure (some e) | ok _ ↦ update_after_transfer contract_id a ]
      ]

    unfoldable pub process_transfer : String → String → M MaybeError
    unfolding store_transfer
    process_transfer contract_id event_arg = elim (E.unmarshal_transfer event_arg) [
      | err e ↦ pure (some e)
      | ok a ↦ do
        found ←
            attempt (find_token_contract_transfer_history_item_by_tx_id_and_op_num E txid op_num)
        elim found [ err e ↦ pure (some e) | ok item ↦ store_transfer contract_id a item ]
    ]

    -- An event of a contract that is no token leaves no error.
    unfoldable pub process_event :
        HxContractOpReceiptEvent → Option TokenContractEntity → M MaybeError
    unfolding process_transfer
    process_event event none = pure none
    process_event event (some _) =
        if event.event_name == "Inited"
        then process_inited E caller_pub_key event.contract_address
        else if event.event_name == "Transfer"
        then process_transfer event.contract_address event.event_arg
        else pure none

    unfoldable pub process_events :
        List (Option HxContractOpReceiptEvent) → MaybeError → M MaybeError
    unfolding process_event
    process_events [] e = pure e
    process_events (none ∷ events) e = panic
    process_events (some event ∷ events) e = do
      token ← find_token_contract_by_contract_id E event.contract_address
      e' ← process_event event token
      process_events events e'

  unfoldable pub process_deposits : List Value → MaybeError → M MaybeError
  process_deposits [] e = pure e
  process_deposits (change ∷ changes) e = elim (pair_of_change (as_array change)) [
    | none ↦ process_deposits changes e
    | some (addr, asset_id) ↦ do
      update_address_balance E addr asset_id
      process_deposits changes none
  ]

  unfoldable pub process_receipt : HxBlock → String → ℕ → Option HxContractOpReceipt → M (Unit {0})
  unfolding process_events process_deposits
  process_receipt block txid op_num none = pure tt
  process_receipt block txid op_num (some receipt) =
      if not receipt.exec_succeed then pure tt else do
        tx_time ← lift (E.parse_time block.timestamp)
        e ← process_events block txid op_num tx_time receipt.events none
        e' ← process_deposits receipt.deposit_to_address_changes e
        result_of e'

  unfoldable pub apply_token_contract_invoke :
      HxBlock → String → ℕ → ℤ → String → Object → Option HxContractOpReceipt → M (Unit {0})
  unfolding process_receipt
  apply_token_contract_invoke block txid op_num op_type op_type_name op_json receipt =
      process_receipt block txid op_num receipt

  unfoldable pub token_contract_invoke_plugin : OpScannerPlugin
  unfolding apply_token_contract_invoke
  token_contract_invoke_plugin = record {
    plugin_name = "TokenContractInvokeScanPlugin";
    apply_operation = apply_token_contract_invoke;
  }
