-- ===== src/Plugins/EventKeys.antt =====
-- The plugin for calls of token contracts stores no contract, no token balance and no balance twice.
use mathlib.Core.Path.{subst}
use hxscanner.Prelude.{
  ◌∙◌, ℕ, ◌≡◌, refl, sym, String, Option, none, some, List, find?, find?-passes, eq_iff,
}
use hxscanner.Prelude.Int.{ℤ}
use hxscanner.Env.{Result, ok, err, Decimal, TransferEventArg, Env}
use hxscanner.Types.{HxBlock}
use hxscanner.Exec.{M, pure, panic, attempt, ◌>>=◌}
use hxscanner.Exec.Keeps.{
  Keeps, Keeps-pure, Keeps-bind, Keeps-attempt, Keeps-lift, Keeps-now, Keeps-exec, Keeps-of_Gives,
  Gives, Gives-bind, Gives-attempt, Gives-weaken, Tried,
}
use hxscanner.Exec.Leads.{Reliable, Seen, Gives-query_row, Gives-after, Leads}
use hxscanner.Db.Schema.{
  Db, TokenContractEntity, TokenBalanceEntity, TokenContractTransferHistoryEntity,
}
use hxscanner.Db.Tokens.{
  find_token_contract_by_contract_id, find_token_balance_by_contract_addr_and_owner_addr,
  parsed_token_balance, is_token_balance_of, save_token_contract_transfer_history, insert_transfer,
  update_token_contract,
}
use hxscanner.Db.Keys.{HasKeys, contract_key, token_balance_key}
use hxscanner.Db.Keys.Changes.{with_transfer_history}
use hxscanner.Db.UniqueTokens.{
  FoundContract, Leads-update_token_contract, Leads-save_token_balance, Leads-update_token_balance,
}
use hxscanner.Db.UniqueBalances.{both_texts}
use hxscanner.Plugins.TokenCreate.{TokenInfo, query_token_contract_total_supply}
use hxscanner.Plugins.TokenKeeps.{Keeps-query_base_info, Keeps-query_total_supply}
use hxscanner.Plugins.TokenInvoke.{
  inited, update_inited, process_inited, store_token_balance, update_user, update_supply,
  refresh_total_supply,
}
use hxscanner.Plugins.TokenEvents.{save_transfer, token_contract_invoke_plugin}
use hxscanner.Plugins.EventKeeps.{KeepsEvents, KeepsPlugin-token_contract_invoke}
use hxscanner.Plugins.Keys.{Keeps-update_balance_keys}
use hxscanner.Scanner.Keeps.{KeepsPlugin}

abbrev contract_rows : Db → List TokenContractEntity
contract_rows d = d.token_contracts.rows

abbrev token_balance_rows : Db → List TokenBalanceEntity
token_balance_rows d = d.token_balances.rows

abbrev ContractSeen : String → Option TokenContractEntity → Db → Type 0
ContractSeen id = Seen HasKeys contract_rows (contract_key id)

ContractSeen-known :
    (id : String) (o : Option TokenContractEntity) (d : Db) → ContractSeen id o d → HasKeys d
ContractSeen-known id o d h = h.0

-- A row that was found, with other columns, is a row of the same contract.
ContractSeen-found :
    (id : String) (r c : TokenContractEntity) (d : Db)
    → c.id ≡ r.id
    → c.contract_id ≡ r.contract_id
    → ContractSeen id (some r) d
    → FoundContract c d
ContractSeen-found id r c d ids contract h =
    let same : r.contract_id ≡ id =
      (eq_iff r.contract_id id).0 (find?-passes (contract_key id) (contract_rows d) r (sym h.1)) in
    (
      h.0,
      r,
      subst (λ k. find? (contract_key k) (contract_rows d) ≡ some r) (sym (contract ∙ same))
          (sym h.1),
      ids,
    )

inited-same :
    (info : Result TokenInfo) (supply : Result ℤ) (c : TokenContractEntity)
    → ((inited info supply c).id ≡ c.id) × ((inited info supply c).contract_id ≡ c.contract_id)
inited-same (ok i) (ok n) c = (refl, refl)
inited-same (ok i) (err e) c = (refl, refl)
inited-same (err e) (ok n) c = (refl, refl)
inited-same (err e) (err x) c = (refl, refl)

module _ {A : Type 0} {P I : Db → Type 0} where
  Leads-attempt : (m : M A) → Leads P m I → Leads P (attempt m) I
  Leads-attempt m l = Gives-weaken _ part (Gives-attempt m l)
    where
      part : (r : Result A) (d : Db) → Tried (λ a. I) I r d → I d
      part (ok a) d h = h
      part (err e) d h = h

  -- What holds whether or not the caught action fails.
  Gives-pure : (a : A) → ((d : Db) → P d → I d) → Leads P (pure a) I
  unfolding pure
  Gives-pure a k = record { from = λ w h. k w.db h }

module _ (E : Env) (rel : Reliable E) (key : String) where
  Gives-find_contract :
      (id : String)
      → Gives HasKeys (find_token_contract_by_contract_id E id) (ContractSeen id) HasKeys
  unfolding find_token_contract_by_contract_id
  Gives-find_contract id = Gives-query_row E HasKeys contract_rows (contract_key id) rel

  Leads-update_inited :
      (id : String) (o : Option TokenContractEntity)
      → Leads (ContractSeen id o) (update_inited E key id o) HasKeys
  unfolding update_inited
  Leads-update_inited id none = Gives-pure none (ContractSeen-known id none)
  Leads-update_inited id (some c) =
      Gives-after _ _ (ContractSeen-known id (some c))
        (Keeps-attempt _ (Keeps-query_base_info E key id))
        λ info.
          Gives-after _ _ (ContractSeen-known id (some c))
            (Keeps-attempt _ (Keeps-query_total_supply E key id))
            λ supply.
              Gives-bind _ _
                (Leads-attempt (update_token_contract E (inited info supply c))
                  (updated info supply))
                (λ r. Gives-pure none (λ d h. h))
    where
      updated :
          (info : Result TokenInfo) (supply : Result ℤ)
          → Leads
              (ContractSeen id (some c))
              (update_token_contract E (inited info supply c))
              HasKeys
      updated info supply = record {
        from = λ w h.
            let (ids, contract) = inited-same info supply c in
            (Leads-update_token_contract E (inited info supply c)).from w
              (ContractSeen-found id c (inited info supply c) w.db ids contract h);
      }

  Keeps-process_inited_keys : (id : String) → Keeps HasKeys (process_inited E key id)
  unfolding process_inited
  Keeps-process_inited_keys id =
      Keeps-of_Gives _ (Gives-bind _ _ (Gives-attempt _ (Gives-find_contract id)) part)
    where
      part :
          (r : Result (Option TokenContractEntity))
          → Leads
              (Tried (ContractSeen id) HasKeys r)
              (elim r [ err e ↦ pure none | ok c ↦ update_inited E key id c ])
              HasKeys
      part (err e) = Gives-pure none (λ d h. h)
      part (ok c) = Leads-update_inited id c

  Leads-update_supply :
      (id : String) (o : Option TokenContractEntity) (r : Result ℤ)
      → Leads (ContractSeen id o) (update_supply E key o r) HasKeys
  unfolding update_supply panic
  Leads-update_supply id o (err e) = Gives-pure (some e) (ContractSeen-known id o)
  Leads-update_supply id none (ok n) = record { from = λ w h. h.0 }
  Leads-update_supply id (some c) (ok n) =
      Gives-bind _ _
        (record {
          from = λ w h.
              (Leads-update_token_contract E (record c { total_supply = some n })).from w
                (ContractSeen-found id c (record c { total_supply = some n }) w.db refl refl h);
        })
        (λ u. Gives-pure none (λ d h. h))

  Keeps-refresh_total_supply_keys : (id : String) → Keeps HasKeys (refresh_total_supply E key id)
  unfolding refresh_total_supply
  Keeps-refresh_total_supply_keys id =
      Keeps-of_Gives _ (Gives-bind _ _ (Gives-attempt _ (Gives-find_contract id)) part)
    where
      part :
          (r : Result (Option TokenContractEntity))
          → Leads
              (Tried (ContractSeen id) HasKeys r)
              (elim r [
                | err e ↦ pure (some e)
                | ok c ↦ attempt (query_token_contract_total_supply E key id) >>= λ supply.
                    update_supply E key c supply
              ])
              HasKeys
      part (err e) = Gives-pure (some e) (λ d h. h)
      part (ok c) =
          Gives-after _ _ (ContractSeen-known id c)
            (Keeps-attempt _ (Keeps-query_total_supply E key id)) (Leads-update_supply id c)

-- What the look-up of a token balance says of the table.
abbrev TokenBalanceFact : String → String → Option TokenBalanceEntity → Db → Type 0
TokenBalanceFact c u none d = none ≡ find? (token_balance_key (c, u)) (token_balance_rows d)
TokenBalanceFact c u (some r) d =
    (e : TokenBalanceEntity) × (find? (token_balance_key (c, u)) (token_balance_rows d) ≡ some e)
    × (r.id ≡ e.id)
    × (r.contract_addr ≡ c)
    × (r.owner_addr ≡ u)

abbrev TokenBalanceSeen : String → String → Option TokenBalanceEntity → Db → Type 0
TokenBalanceSeen c u o d = HasKeys d × TokenBalanceFact c u o d

TokenBalanceSeen-known :
    (c u : String) (o : Option TokenBalanceEntity) (d : Db) → TokenBalanceSeen c u o d → HasKeys d
TokenBalanceSeen-known c u o d h = h.0

module _ (E : Env) (rel : Reliable E) (key : String) where
  Gives-parsed_token_balance :
      (c u : String) (o : Option TokenBalanceEntity)
      → Gives
          (Seen HasKeys token_balance_rows (is_token_balance_of c u) o)
          (parsed_token_balance E o)
          (TokenBalanceSeen c u)
          HasKeys
  unfolding pure
  Gives-parsed_token_balance c u none = record { from = λ w h. h }
  Gives-parsed_token_balance c u (some r) =
      Gives-after _ _ (λ d h. h.0) (Keeps-lift _)
        λ m. record {
          from = λ w h.
              let (o, s) =
                both_texts r.contract_addr r.owner_addr c u
                  (find?-passes (is_token_balance_of c u) (token_balance_rows w.db) r (sym h.1)) in
              (h.0, (r, sym h.1, refl, o, s));
        }

  Leads-store_token_balance :
      (c u : String) (m : Decimal) (t : ℕ) (o : Option TokenBalanceEntity)
      → Leads (TokenBalanceSeen c u o) (store_token_balance E key c u m t o) HasKeys
  unfolding store_token_balance
  Leads-store_token_balance c u m t none = Leads-save_token_balance E _
  Leads-store_token_balance c u m t (some r) = record {
    from = λ w h.
        (Leads-update_token_balance E (record r { updated_at = t; amount = m })).from w
          (h.0, h.1.0, rw (h.1.3, h.1.4) h.1.1, h.1.2);
  }

  Keeps-update_user_keys :
      (c : String) (t : ℕ) (u : String) (n : ℤ) → Keeps HasKeys (update_user E key c t u n)
  unfolding update_user find_token_balance_by_contract_addr_and_owner_addr
  Keeps-update_user_keys c t u n = Keeps-of_Gives _ (
      Gives-bind _ _
        (Gives-bind _ _ (Gives-query_row E HasKeys token_balance_rows (is_token_balance_of c u) rel)
          (Gives-parsed_token_balance c u))
        λ o.
          Gives-after _ _ (TokenBalanceSeen-known c u o) (Keeps-lift _)
            (λ m. Leads-store_token_balance c u m t o))

  Keeps-save_transfer_keys :
      (block : HxBlock) (txid : String) (op_num tx_time : ℕ) (id : String) (a : TransferEventArg)
      (x : Decimal) (o : Option TokenContractTransferHistoryEntity)
      → Keeps HasKeys (save_transfer E key block txid op_num tx_time id a x o)
  unfolding save_transfer save_token_contract_transfer_history insert_transfer
  Keeps-save_transfer_keys block txid op_num tx_time id a x (some item) = Keeps-pure tt
  Keeps-save_transfer_keys block txid op_num tx_time id a x none =
      Keeps-bind _ _ (Keeps-now E)
        λ t. Keeps-bind _ _ (Keeps-now E) λ s. Keeps-exec E _ (λ d h. with_transfer_history h _)

  -- One row for each token contract, and one for each contract and user.
  KeepsEvents-HasKeys : KeepsEvents E key HasKeys
  KeepsEvents-HasKeys = record {
    inited_rows = Keeps-process_inited_keys E rel key;
    user_rows = Keeps-update_user_keys;
    supply_rows = Keeps-refresh_total_supply_keys E rel key;
    transfer_rows = Keeps-save_transfer_keys;
    balance_rows = Keeps-update_balance_keys E rel;
  }

  pub KeepsPlugin-token_contract_invoke_keys :
      KeepsPlugin HasKeys (token_contract_invoke_plugin E key)
  KeepsPlugin-token_contract_invoke_keys =
      KeepsPlugin-token_contract_invoke E key KeepsEvents-HasKeys
