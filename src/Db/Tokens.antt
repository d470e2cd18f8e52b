-- ===== src/Db/Tokens.antt =====
-- src/db/token_daos.go, and the token contracts of src/db/daos.go
use hxscanner.Prelude.{ℕ, String, Bool, ◌&&◌, Option, none, some, ◌==◌, eqb}
use hxscanner.Env.{Env}
use hxscanner.Db.Table.{insert_row, update_rows}
use hxscanner.Db.Schema.{
  Db, TokenContractEntity, TokenBalanceEntity, TokenContractTransferHistoryEntity,
}
use hxscanner.Exec.{M, pure, lift, ◌>>=◌, now, query_row, exec}

abbrev pub is_token_balance_of : String → String → TokenBalanceEntity → Bool
is_token_balance_of contract_addr owner_addr r =
    (r.contract_addr == contract_addr) && (r.owner_addr == owner_addr)

abbrev pub is_history_of : String → ℕ → TokenContractTransferHistoryEntity → Bool
is_history_of txid op_num r = (r.txid == txid) && eqb op_num r.op_num

module _ (E : Env) where
  unfoldable pub find_token_contract_by_contract_id : String → M (Option TokenContractEntity)
  find_token_contract_by_contract_id contract_id =
      query_row E (λ d. d.token_contracts.rows) (λ r. r.contract_id == contract_id)

  unfoldable pub update_token_contract : TokenContractEntity → M (Unit {0})
  update_token_contract token_contract = exec E λ d. record d {
    token_contracts =
        update_rows (λ r. eqb token_contract.id r.id) (λ r. record token_contract { id = r.id })
          d.token_contracts;
  }

  unfoldable pub save_token_contract : TokenContractEntity → M (Unit {0})
  save_token_contract token_contract = exec E λ d. record d {
    token_contracts = insert_row (λ i. record token_contract { id = i }) d.token_contracts;
  }

  unfoldable pub insert_token_balance : TokenBalanceEntity → ℕ → Db → Db
  insert_token_balance b t d = record d {
    token_balances =
        insert_row (λ i. record b { id = i; created_at = t; updated_at = t }) d.token_balances;
  }

  unfoldable pub save_token_balance : TokenBalanceEntity → M (Unit {0})
  unfolding insert_token_balance
  save_token_balance token_balance = do t ← now E; exec E (insert_token_balance token_balance t)

  unfoldable pub update_token_balance : TokenBalanceEntity → M (Unit {0})
  update_token_balance token_balance = exec E λ d. record d {
    token_balances =
        update_rows (λ r. eqb token_balance.id r.id) (λ r. record token_balance { id = r.id })
          d.token_balances;
  }

  abbrev pub parsed_token_balance : Option TokenBalanceEntity → M (Option TokenBalanceEntity)
  parsed_token_balance none = pure none
  parsed_token_balance (some r) = do
    amount ← lift (E.parse_decimal (E.show_decimal r.amount))
    pure (some (record r { amount = amount }))

  unfoldable pub find_token_balance_by_contract_addr_and_owner_addr :
      String → String → M (Option TokenBalanceEntity)
  find_token_balance_by_contract_addr_and_owner_addr contract_addr owner_addr = do
    row ← query_row E (λ d. d.token_balances.rows) (is_token_balance_of contract_addr owner_addr)
    parsed_token_balance row

  unfoldable pub insert_transfer : TokenContractTransferHistoryEntity → ℕ → Db → Db
  insert_transfer h t d = record d {
    transfer_history =
        insert_row (λ i. record h { id = i; created_at = t; updated_at = t }) d.transfer_history;
  }

  unfoldable pub save_token_contract_transfer_history :
      TokenContractTransferHistoryEntity → M (Unit {0})
  unfolding insert_transfer
  save_token_contract_transfer_history h = do t ← now E; exec E (insert_transfer h t)

  unfoldable pub update_token_contract_transfer_history :
      TokenContractTransferHistoryEntity → M (Unit {0})
  update_token_contract_transfer_history h = exec E λ d. record d {
    transfer_history =
        update_rows (λ r. eqb h.id r.id) (λ r. record h { id = r.id }) d.transfer_history;
  }

  abbrev pub parsed_transfer :
      Option TokenContractTransferHistoryEntity → M (Option TokenContractTransferHistoryEntity)
  parsed_transfer none = pure none
  parsed_transfer (some r) = do
    amount ← lift (E.parse_decimal (E.show_decimal r.amount))
    pure (some (record r { amount = amount }))

  unfoldable pub find_token_contract_transfer_history_item_by_tx_id_and_op_num :
      String → ℕ → M (Option TokenContractTransferHistoryEntity)
  find_token_contract_transfer_history_item_by_tx_id_and_op_num txid op_num = do
    row ← query_row E (λ d. d.transfer_history.rows) (is_history_of txid op_num)
    parsed_transfer row
