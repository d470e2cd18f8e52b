-- ===== src/Plugins/EventStores.antt =====
-- What the plugin for calls of token contracts leaves alone: all but the contracts, the balances and the
-- transfers of tokens, and what an update of an address's balance changes.
use hxscanner.Prelude.{ℕ, String, Option, none, some}
use hxscanner.Prelude.Int.{ℤ}
use hxscanner.Types.{HxBlock}
use hxscanner.Env.{Result, ok, err, Decimal, TransferEventArg, Env}
use hxscanner.Db.Table.{Table}
use hxscanner.Db.Schema.{
  Db, TokenContractEntity, TokenBalanceEntity, TokenContractTransferHistoryEntity,
}
use hxscanner.Db.Tokens.{
  update_token_contract, save_token_balance, update_token_balance, insert_token_balance,
  insert_transfer, save_token_contract_transfer_history,
}
use hxscanner.Exec.Keeps.{
  Keeps, Keeps-pure, Keeps-panic, Keeps-bind, Keeps-attempt, Keeps-lift, Keeps-exec, Keeps-now,
}
use hxscanner.Plugins.Balance.{update_address_balance}
use hxscanner.Plugins.TokenKeeps.{Keeps-query_base_info, Keeps-query_total_supply}
use hxscanner.Plugins.TokenInvoke.{
  update_inited, process_inited, store_token_balance, update_user, update_supply,
  refresh_total_supply,
}
use hxscanner.Plugins.TokenEvents.{save_transfer}
use hxscanner.Plugins.EventKeeps.{
  KeepsEvents, Keeps-tried, Keeps-find_token_contract, Keeps-find_token_balance,
}

module _ (E : Env) (key : String) {P : Db → Type 0}
    (contracts : (d : Db) (t : Table TokenContractEntity)
      → P d
      → P (record d { token_contracts = t }))
    (balances : (d : Db) (t : Table TokenBalanceEntity) → P d → P (record d { token_balances = t }))
    (transfers : (d : Db) (t : Table TokenContractTransferHistoryEntity)
      → P d
      → P (record d { transfer_history = t }))
    (updates : (a i : String) → Keeps P (update_address_balance E a i)) where
  Keeps-update_token_contract : (c : TokenContractEntity) → Keeps P (update_token_contract E c)
  unfolding update_token_contract
  Keeps-update_token_contract c = Keeps-exec E _ (λ d h. contracts d _ h)

  Keeps-update_inited :
      (id : String) (o : Option TokenContractEntity) → Keeps P (update_inited E key id o)
  unfolding update_inited
  Keeps-update_inited id none = Keeps-pure none
  Keeps-update_inited id (some c) =
      Keeps-bind _ _ (Keeps-attempt _ (Keeps-query_base_info E key id)) λ info.
        Keeps-bind _ _ (Keeps-attempt _ (Keeps-query_total_supply E key id)) λ supply.
          Keeps-bind _ _ (Keeps-attempt _ (Keeps-update_token_contract _)) (λ r. Keeps-pure none)

  Keeps-process_inited : (id : String) → Keeps P (process_inited E key id)
  unfolding process_inited
  Keeps-process_inited id =
      Keeps-tried _ _ _ (Keeps-find_token_contract E id) (λ e. Keeps-pure none)
        (Keeps-update_inited id)

  Keeps-store_token_balance :
      (c u : String) (a : Decimal) (t : ℕ) (o : Option TokenBalanceEntity)
      → Keeps P (store_token_balance E key c u a t o)
  unfolding store_token_balance save_token_balance update_token_balance insert_token_balance
  Keeps-store_token_balance c u a t none =
      Keeps-bind _ _ (Keeps-now E) (λ n. Keeps-exec E _ (λ d h. balances d _ h))
  Keeps-store_token_balance c u a t (some r) = Keeps-exec E _ (λ d h. balances d _ h)

  Keeps-update_user :
      (c : String) (t : ℕ) (u : String) (n : ℤ) → Keeps P (update_user E key c t u n)
  unfolding update_user
  Keeps-update_user c t u n =
      Keeps-bind _ _ (Keeps-find_token_balance E c u)
        λ o. Keeps-bind _ _ (Keeps-lift _) λ a. Keeps-store_token_balance c u a t o

  Keeps-update_supply :
      (o : Option TokenContractEntity) (r : Result ℤ) → Keeps P (update_supply E key o r)
  unfolding update_supply
  Keeps-update_supply o (err e) = Keeps-pure _
  Keeps-update_supply none (ok n) = Keeps-panic
  Keeps-update_supply (some c) (ok n) =
      Keeps-bind _ _ (Keeps-update_token_contract _) (λ u. Keeps-pure none)

  Keeps-refresh_total_supply : (id : String) → Keeps P (refresh_total_supply E key id)
  unfolding refresh_total_supply
  Keeps-refresh_total_supply id =
      Keeps-tried _ _ _ (Keeps-find_token_contract E id) (λ e. Keeps-pure _)
        λ c.
          Keeps-bind _ _ (Keeps-attempt _ (Keeps-query_total_supply E key id))
            (Keeps-update_supply c)

  module _ (block : HxBlock) (txid : String) (op_num tx_time : ℕ) where
    Keeps-save_transfer :
        (id : String) (a : TransferEventArg) (x : Decimal)
        (o : Option TokenContractTransferHistoryEntity)
        → Keeps P (save_transfer E key block txid op_num tx_time id a x o)
    unfolding save_transfer save_token_contract_transfer_history insert_transfer
    Keeps-save_transfer id a x (some item) = Keeps-pure tt
    Keeps-save_transfer id a x none =
        Keeps-bind _ _ (Keeps-now E)
          λ t. Keeps-bind _ _ (Keeps-now E) λ s. Keeps-exec E _ (λ d h. transfers d _ h)

  pub KeepsEvents-apart : KeepsEvents E key P
  KeepsEvents-apart = record {
    inited_rows = Keeps-process_inited;
    user_rows = Keeps-update_user;
    supply_rows = Keeps-refresh_total_supply;
    transfer_rows = Keeps-save_transfer;
    balance_rows = updates;
  }
