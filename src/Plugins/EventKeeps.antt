-- ===== src/Plugins/EventKeeps.antt =====
-- What the statements of the plugin for calls of token contracts keep, the plugin keeps.
use hxscanner.Prelude.{ℕ, String, Option, none, some, List, [], ◌∷◌}
use hxscanner.Prelude.Int.{ℤ}
use hxscanner.Strconv.{format_nat}
use hxscanner.Value.{Value, as_array}
use hxscanner.Types.{HxBlock, HxContractOpReceipt, HxContractOpReceiptEvent}
use hxscanner.Env.{Error, Result, ok, err, Decimal, TransferEventArg, Env}
use hxscanner.Db.Schema.{
  Db, TokenContractEntity, TokenBalanceEntity, TokenContractTransferHistoryEntity,
}
use hxscanner.Db.Tokens.{
  find_token_contract_by_contract_id, parsed_token_balance, parsed_transfer,
  find_token_balance_by_contract_addr_and_owner_addr,
  find_token_contract_transfer_history_item_by_tx_id_and_op_num,
}
use hxscanner.Exec.{M, pure, attempt, ◌>>=◌, ◌>>◌}
use hxscanner.Exec.Keeps.{
  Keeps-panic, Keeps, Keeps-pure, Keeps-fail, Keeps-bind, Keeps-if, Keeps-attempt, Keeps-lift,
  Keeps-query_row, Keeps-now,
}
use hxscanner.Plugins.Balance.{update_address_balance}
use hxscanner.Plugins.TokenKeeps.{Keeps-invoke_with_int_result}
use hxscanner.Plugins.TokenInvoke.{
  MaybeError, users_to_update, pair_of_change, result_of, process_inited, update_user, update_users,
  refresh_total_supply,
}
use hxscanner.Plugins.TokenEvents.{
  update_after_transfer, save_transfer, store_transfer, process_transfer, process_event,
  process_events, process_deposits, process_receipt, token_contract_invoke_plugin,
}
use hxscanner.Scanner.Keeps.{KeepsPlugin}

module _ {A B : Type 0} {P : Db → Type 0} where
  -- A step whose error is looked at.
  pub Keeps-tried :
      (m : M A) (f : Error → M B) (g : A → M B)
      → Keeps P m
      → ((e : Error) → Keeps P (f e))
      → ((a : A) → Keeps P (g a))
      → Keeps P (attempt m >>= λ r. elim r [ err e ↦ f e | ok a ↦ g a ])
  Keeps-tried m f g k l n = Keeps-bind _ _ (Keeps-attempt m k) part
    where
      part : (r : Result A) → Keeps P (elim r [ err e ↦ f e | ok a ↦ g a ])
      part (err e) = l e
      part (ok a) = n a

module _ (E : Env) {P : Db → Type 0} where
  pub Keeps-find_token_contract : (id : String) → Keeps P (find_token_contract_by_contract_id E id)
  unfolding find_token_contract_by_contract_id
  Keeps-find_token_contract id = Keeps-query_row E _ _

  Keeps-parsed_token_balance : (o : Option TokenBalanceEntity) → Keeps P (parsed_token_balance E o)
  Keeps-parsed_token_balance none = Keeps-pure none
  Keeps-parsed_token_balance (some r) = Keeps-bind _ _ (Keeps-lift _) (λ a. Keeps-pure _)

  pub Keeps-find_token_balance :
      (c o : String) → Keeps P (find_token_balance_by_contract_addr_and_owner_addr E c o)
  unfolding find_token_balance_by_contract_addr_and_owner_addr
  Keeps-find_token_balance c o = Keeps-bind _ _ (Keeps-query_row E _ _) Keeps-parsed_token_balance

  Keeps-parsed_transfer :
      (o : Option TokenContractTransferHistoryEntity) → Keeps P (parsed_transfer E o)
  Keeps-parsed_transfer none = Keeps-pure none
  Keeps-parsed_transfer (some r) = Keeps-bind _ _ (Keeps-lift _) (λ a. Keeps-pure _)

  Keeps-find_transfer :
      (t : String) (n : ℕ)
      → Keeps P (find_token_contract_transfer_history_item_by_tx_id_and_op_num E t n)
  unfolding find_token_contract_transfer_history_item_by_tx_id_and_op_num
  Keeps-find_transfer t n = Keeps-bind _ _ (Keeps-query_row E _ _) Keeps-parsed_transfer

-- The statements of the plugin that write.
pub record KeepsEvents (E : Env) (key : String) (P : Db → Type 0) : Type 0 where
  pub inited_rows : (id : String) → Keeps P (process_inited E key id)
  pub user_rows : (c : String) (t : ℕ) (u : String) (n : ℤ) → Keeps P (update_user E key c t u n)
  pub supply_rows : (id : String) → Keeps P (refresh_total_supply E key id)
  pub transfer_rows :
      (block : HxBlock) (txid : String) (op_num tx_time : ℕ) (id : String) (a : TransferEventArg)
      (x : Decimal) (o : Option TokenContractTransferHistoryEntity)
      → Keeps P (save_transfer E key block txid op_num tx_time id a x o)
  pub balance_rows : (a i : String) → Keeps P (update_address_balance E a i)

module _ (E : Env) (key : String) {P : Db → Type 0} (stores : KeepsEvents E key P) where
  Keeps-update_users :
      (c : String) (t : ℕ) (us : List String) (e : MaybeError)
      → Keeps P (update_users E key c t us e)
  unfolding update_users
  Keeps-update_users c t [] e = Keeps-pure e
  Keeps-update_users c t (u ∷ us) e =
      Keeps-tried _ _ _ (Keeps-invoke_with_int_result E key c "balanceOf" u)
        (λ x. Keeps-update_users c t us (some x))
        (λ n. Keeps-bind _ _ (stores.user_rows c t u n) (λ v. Keeps-update_users c t us none))

  Keeps-update_after_transfer :
      (id : String) (a : TransferEventArg) → Keeps P (update_after_transfer E key id a)
  unfolding update_after_transfer
  Keeps-update_after_transfer id a = Keeps-bind _ _ (Keeps-now E) λ t.
      Keeps-bind _ _ (Keeps-update_users id t (users_to_update a) none)
        λ e. Keeps-if _ _ _ (stores.supply_rows id) (Keeps-pure e)

  module _ (block : HxBlock) (txid : String) (op_num tx_time : ℕ) where
    Keeps-store_transfer :
        (id : String) (a : TransferEventArg) (o : Option TokenContractTransferHistoryEntity)
        → Keeps P (store_transfer E key block txid op_num tx_time id a o)
    unfolding store_transfer
    Keeps-store_transfer id a o =
        Keeps-tried _ _ _ (Keeps-lift (E.parse_decimal (format_nat a.amount))) (λ e. Keeps-pure _)
          λ x.
            Keeps-tried _ _ _ (stores.transfer_rows block txid op_num tx_time id a x o)
              (λ e. Keeps-pure _) (λ u. Keeps-update_after_transfer id a)

    Keeps-process_transfer :
        (id arg : String) → Keeps P (process_transfer E key block txid op_num tx_time id arg)
    unfolding process_transfer
    Keeps-process_transfer id arg = part (E.unmarshal_transfer arg)
      where
        part :
            (r : Result TransferEventArg)
            → Keeps P (elim r [
              | err e ↦ pure (some e)
              | ok a ↦
                  attempt
                    (find_token_contract_transfer_history_item_by_tx_id_and_op_num E txid op_num)
                  >>= λ found. elim found [
                    | err e ↦ pure (some e)
                    | ok item ↦ store_transfer E key block txid op_num tx_time id a item
                  ]
            ])
        part (err e) = Keeps-pure _
        part (ok a) =
            Keeps-tried _ _ _ (Keeps-find_transfer E txid op_num) (λ e. Keeps-pure _)
              (Keeps-store_transfer id a)

    Keeps-process_event :
        (v : HxContractOpReceiptEvent) (o : Option TokenContractEntity)
        → Keeps P (process_event E key block txid op_num tx_time v o)
    unfolding process_event
    Keeps-process_event v none = Keeps-pure none
    Keeps-process_event v (some c) =
        Keeps-if _ _ _ (stores.inited_rows _)
          (Keeps-if _ _ _ (Keeps-process_transfer _ _) (Keeps-pure none))

    Keeps-process_events :
        (vs : List (Option HxContractOpReceiptEvent)) (e : MaybeError)
        → Keeps P (process_events E key block txid op_num tx_time vs e)
    unfolding process_events
    Keeps-process_events [] e = Keeps-pure e
    Keeps-process_events (none ∷ vs) e = Keeps-panic
    Keeps-process_events (some v ∷ vs) e =
        Keeps-bind _ _ (Keeps-find_token_contract E _)
          λ o. Keeps-bind _ _ (Keeps-process_event v o) (Keeps-process_events vs)

  Keeps-process_deposits :
      (cs : List Value) (e : MaybeError) → Keeps P (process_deposits E key cs e)
  unfolding process_deposits
  Keeps-process_deposits [] e = Keeps-pure e
  Keeps-process_deposits (c ∷ cs) e =
      part (pair_of_change (as_array c)) (Keeps-process_deposits cs e)
        (Keeps-process_deposits cs none)
    where
      part :
          (o : Option (String × String))
          → Keeps P (process_deposits E key cs e)
          → Keeps P (process_deposits E key cs none)
          → Keeps P (elim o [
            | none ↦ process_deposits E key cs e
            | some (addr, asset_id) ↦
                update_address_balance E addr asset_id >> process_deposits E key cs none
          ])
      part none k l = k
      part (some (addr, asset_id)) k l = Keeps-bind _ _ (stores.balance_rows addr asset_id) (λ u. l)

  Keeps-result_of : (e : MaybeError) → Keeps P (result_of e)
  Keeps-result_of none = Keeps-pure tt
  Keeps-result_of (some e) = Keeps-fail e

  Keeps-process_receipt :
      (block : HxBlock) (txid : String) (op_num : ℕ) (r : Option HxContractOpReceipt)
      → Keeps P (process_receipt E key block txid op_num r)
  unfolding process_receipt
  Keeps-process_receipt block txid op_num none = Keeps-pure tt
  Keeps-process_receipt block txid op_num (some r) = Keeps-if _ _ _ (Keeps-pure tt) (
      Keeps-bind _ _ (Keeps-lift _) λ t.
        Keeps-bind _ _ (Keeps-process_events block txid op_num t r.events none) λ e.
          Keeps-bind _ _ (Keeps-process_deposits r.deposit_to_address_changes e) Keeps-result_of)

  pub KeepsPlugin-token_contract_invoke : KeepsPlugin P (token_contract_invoke_plugin E key)
  unfolding token_contract_invoke_plugin
  KeepsPlugin-token_contract_invoke = record {
    applied = λ block txid n t name op_json receipt. Keeps-process_receipt block txid n receipt;
  }
