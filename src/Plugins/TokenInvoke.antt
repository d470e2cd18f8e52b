-- ===== src/Plugins/TokenInvoke.antt =====
-- src/plugins/token_contract_invoke_plugin.go. The function's result `err` outlives a `continue`: it is passed
-- along the loops as an option, and is the function's result at the end. An error at which the
-- function returns at once is a failed action. `contractIsTokenCache` is never written and is left out.
use hxscanner.Prelude.{ℕ, String, ◌||◌, Option, none, some, List, [], ◌∷◌, ◌==◌, if◌then◌else◌}
use hxscanner.Prelude.Int.{ℤ}
use hxscanner.Strconv.{itoa}
use hxscanner.Value.{Value, str, as_array}
use hxscanner.Env.{Error, Result, ok, err, Decimal, TransferEventArg, Env}
use hxscanner.Db.Schema.{TokenContractEntity, TokenBalanceEntity}
use hxscanner.Db.Tokens.{
  find_token_contract_by_contract_id, update_token_contract, save_token_balance,
  update_token_balance, find_token_balance_by_contract_addr_and_owner_addr,
}
use hxscanner.Node.{invoke_contract_offline_with_int_result}
use hxscanner.Exec.{M, pure, fail, panic, lift, attempt, ◌>>=◌, ◌>>◌}
use hxscanner.Plugins.TokenCreate.{
  TokenInfo, query_token_contract_base_info, query_token_contract_total_supply,
}

-- `err` at the end of a step.
abbrev pub MaybeError : Type 0
MaybeError = Option Error

-- What the queries answered goes into the contract's row, and the state "common".
abbrev pub with_info : Result TokenInfo → TokenContractEntity → TokenContractEntity
with_info (err e) c = c
with_info (ok info) c = record c {
  token_name = some info.token_name;
  token_symbol = some info.token_symbol;
  precision = some info.precision;
}

abbrev with_supply : Result ℤ → TokenContractEntity → TokenContractEntity
with_supply (err e) c = c
with_supply (ok n) c = record c { total_supply = some n }

abbrev pub inited : Result TokenInfo → Result ℤ → TokenContractEntity → TokenContractEntity
inited info supply c = with_supply supply (with_info info (record c { state = some "common" }))

-- The users whose balances a transfer changes.
abbrev pub users_to_update : TransferEventArg → List String
users_to_update a =
    let to = if (a.to_addr == "") || (a.to_addr == a.from_addr) then [] else a.to_addr ∷ [] in
    if a.from_addr == "" then to else a.from_addr ∷ to

-- The address and the asset of a change, where it is a pair of a pair of texts and something.
abbrev pub text_pair : Option (List Value) → Option (String × String)
text_pair (some (str addr ∷ str asset_id ∷ rest)) = some (addr, asset_id)
text_pair o = none

abbrev pub pair_of_change : Option (List Value) → Option (String × String)
pair_of_change (some (pair ∷ amount ∷ rest)) = text_pair (as_array pair)
pair_of_change o = none

abbrev pub result_of : MaybeError → M (Unit {0})
result_of none = pure tt
result_of (some e) = fail e

module _ (E : Env) (caller_pub_key : String) where
  unfoldable pub update_inited : String → Option TokenContractEntity → M MaybeError
  update_inited contract_id none = pure none
  update_inited contract_id (some c) = do
    info ← attempt (query_token_contract_base_info E caller_pub_key contract_id)
    supply ← attempt (query_token_contract_total_supply E caller_pub_key contract_id)
    updated ← attempt (update_token_contract E (inited info supply c))
    pure none

  -- The `err` of this branch is another variable.
  unfoldable pub process_inited : String → M MaybeError
  unfolding update_inited
  process_inited contract_id = do
    r ← attempt (find_token_contract_by_contract_id E contract_id)
    elim r [ err e ↦ pure none | ok c ↦ update_inited contract_id c ]

  unfoldable pub store_token_balance :
      String → String → Decimal → ℕ → Option TokenBalanceEntity → M (Unit {0})
  store_token_balance contract_id user_addr amount t none = save_token_balance E (record {
    id = 0;
    contract_addr = contract_id;
    owner_addr = user_addr;
    amount = amount;
    created_at = t;
    updated_at = t;
  })
  store_token_balance contract_id user_addr amount t (some item) =
      update_token_balance E (record item { updated_at = t; amount = amount })

  unfoldable pub update_user : String → ℕ → String → ℤ → M (Unit {0})
  unfolding store_token_balance
  update_user contract_id t user_addr user_balance = do
    item ← find_token_balance_by_contract_addr_and_owner_addr E contract_id user_addr
    amount ← lift (E.parse_decimal (itoa user_balance))
    store_token_balance contract_id user_addr amount t item

  unfoldable pub update_users : String → ℕ → List String → MaybeError → M MaybeError
  unfolding update_user
  update_users contract_id t [] e = pure e
  update_users contract_id t (user_addr ∷ users) e = do
    r ←
        attempt (
          invoke_contract_offline_with_int_result E caller_pub_key contract_id "balanceOf"
            user_addr)
    elim r [
      | err x ↦ update_users contract_id t users (some x)
      | ok user_balance ↦ do
        update_user contract_id t user_addr user_balance
        update_users contract_id t users none
    ]

  -- The row of the contract is dereferenced also where it was not found.
  unfoldable pub update_supply : Option TokenContractEntity → Result ℤ → M MaybeError
  update_supply c (err e) = pure (some e)
  update_supply none (ok n) = panic
  update_supply (some c) (ok n) = do
    update_token_contract E (record c { total_supply = some n })
    pure none

  unfoldable pub refresh_total_supply : String → M MaybeError
  unfolding update_supply
  refresh_total_supply contract_id = do
    r ← attempt (find_token_contract_by_contract_id E contract_id)
    elim r [
      | err e ↦ pure (some e)
      | ok c ↦ do
        supply ← attempt (query_token_contract_total_supply E caller_pub_key contract_id)
        update_supply c supply
    ]
