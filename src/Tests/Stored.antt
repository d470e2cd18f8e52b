-- ===== src/Tests/Stored.antt =====
-- The theorems on what is stored: receipts, balances and the users of a transfer.
use hxscanner.Prelude.{
  ℕ, ◌≡◌, refl, String, none, some, List, [], ◌∷◌, ◌==◌, count, lookup, arith, if◌then◌else◌,
}
use hxscanner.Prelude.Int.{ℤ, pos}
use hxscanner.Strconv.{itoa, format_digits, format_nat, parse_int, parse_nat, parse_digits}
use hxscanner.Value.{Value, null, str, arr, nil, cons}
use hxscanner.Types.{HxContractOpReceipt, new_hx_contract_op_receipt}
use hxscanner.Env.{ok, BalanceItem, Env}
use hxscanner.Db.Schema.{AssetEntity, init_db}
use hxscanner.Db.Keys.{token_balance_key, HasKeys, HasKeys-init_db}
use hxscanner.Db.Keys.Changes.{with_assets}
use hxscanner.Db.ReceiptsReadBack.{ReadsBack, ReadsValues, save_and_find, save_and_find-done}
use hxscanner.Exec.{
  World, done, sql, write, pure, lift, ◌>>=◌, gets, ask, now, connected, call, exec, query_row,
}
use hxscanner.Node.{collect_balances, get_address_balances}
use hxscanner.Db.Assets.{
  find_asset, save_address_balance, insert_address_balance,
  find_address_balance_by_owner_addr_and_asset_id,
}
use hxscanner.Node.Balances.{AllNumbers, last_amount, collect_balances-last}
use hxscanner.Plugins.Balance.{
  find_asset_from_cache_or_db, asset_or_node, store_balance, update_address_balance,
}
use hxscanner.Plugins.BalanceRows.{Sets}
use hxscanner.Plugins.BalanceStored.{NodeAnswer, update_address_balance-Sets}
use hxscanner.Plugins.TokenStored.{SetsRow, update_user-SetsRow}
use hxscanner.Plugins.TokenInvoke.{update_user, MaybeError, users_to_update}
use hxscanner.Plugins.TokenEvents.{process_deposits}
use hxscanner.Plugins.Deposits.{has_deposit, process_deposits-error, count-users_to_update}
use hxscanner.Tests.Sample.{node, caller, empty_world, whole}

abbrev receipt : HxContractOpReceipt
receipt = record new_hx_contract_op_receipt { trxid = "t1" }

empty-ReadsValues : ReadsValues node []
empty-ReadsValues = record { text = "{}"; written = refl; is_text = refl; read = refl }

receipt-ReadsBack : ReadsBack node receipt
unfolding new_hx_contract_op_receipt
receipt-ReadsBack = record {
  no_nil = tt;
  events = record { text = "{}"; written = refl; is_text = refl; read = refl };
  withdraws = empty-ReadsValues;
  balances = empty-ReadsValues;
  to_address = empty-ReadsValues;
  to_contract = empty-ReadsValues;
  fees = empty-ReadsValues;
}

save_and_find_example :
    (save_and_find node receipt empty_world).0 ≡ done (some (record receipt { id = format_nat 1 }))
save_and_find_example =
    save_and_find-done node receipt empty_world (λ n. refl) (λ n. refl) receipt-ReadsBack refl

-- A node with a balance of 700, and decimals that can always be read.
abbrev paying_node : Env
paying_node = record node { parse_decimal = λ s. ok (whole (pos 0)) }

abbrev hx_asset : AssetEntity
hx_asset = record {
  asset_id = "1.3.0";
  symbol = "HX";
  precision = 5;
  created_at = 0;
  updated_at = 0;
}

abbrev asset_world : World
asset_world = record empty_world { db = record init_db { assets = hx_asset ∷ [] } }

asset_world-HasKeys : HasKeys asset_world.db
asset_world-HasKeys = with_assets HasKeys-init_db (hx_asset ∷ []) (λ k. ground arith)

abbrev node_balances : List (String × ℤ)
node_balances = ("1.3.0", pos 700) ∷ []

paying_node-NodeAnswer : NodeAnswer paying_node "HXa" node_balances
unfolding collect_balances parse_int parse_nat parse_digits
paying_node-NodeAnswer = record {
  online = λ t. refl;
  reply = null;
  called = λ t. refl;
  items = record { amount = "700"; asset_id = "1.3.0" } ∷ [];
  decoded = refl;
  collected = refl;
}

update_address_balance-Sets_example :
    ((update_address_balance paying_node "HXa" "1.3.0" asset_world).0 ≡ done tt)
    × Sets "HXa" "1.3.0"
        (paying_node.decimal_div
          (record { value = pos 700; exponent = pos 0 })
          (record { value = paying_node.pow10 5; exponent = pos 0 }))
        asset_world.db
        (update_address_balance paying_node "HXa" "1.3.0" asset_world).1.db
update_address_balance-Sets_example =
    update_address_balance-Sets paying_node "HXa" "1.3.0" node_balances hx_asset asset_world
      (λ n. refl) (λ n. refl) (λ d. (whole (pos 0), refl)) asset_world-HasKeys
      paying_node-NodeAnswer refl

abbrev balance_items : List BalanceItem
balance_items =
    record { amount = "5"; asset_id = "1.3.0" } ∷ record { amount = "700"; asset_id = "1.3.0" } ∷ []

items-AllNumbers : AllNumbers balance_items
unfolding parse_int parse_nat parse_digits
items-AllNumbers = ((pos 5, refl), ((pos 700, refl), tt))

collect_balances_example :
    (r : List (String × ℤ)) × (collect_balances balance_items [] ≡ ok r)
    × ((asset_id : String) → lookup asset_id r ≡ last_amount asset_id balance_items none)
collect_balances_example = collect_balances-last balance_items items-AllNumbers

abbrev deposit : Value
deposit = arr (cons (arr (cons (str "HXa") (cons (str "1.3.0") nil))) (cons null nil))

count_users_example :
    count
      (λ v. v == "HXa")
      (users_to_update (record { from_addr = "HXa"; to_addr = "HXa"; amount = 7 }))
    ≡ 1
count_users_example =
    count-users_to_update (record { from_addr = "HXa"; to_addr = "HXa"; amount = 7 }) "HXa"

deposit_returns :
    (process_deposits node caller (deposit ∷ []) (some "event") asset_world).0 ≡ done none
unfolding process_deposits pure lift ◌>>=◌ gets write ask sql now connected call query_row exec
    get_address_balances collect_balances parse_int parse_nat parse_digits update_address_balance
    find_asset_from_cache_or_db asset_or_node find_asset store_balance save_address_balance
    find_address_balance_by_owner_addr_and_asset_id insert_address_balance
deposit_returns = refl

abbrev no_error : MaybeError
no_error = none

process_deposits_example : no_error ≡ (if has_deposit (deposit ∷ []) then none else some "event")
process_deposits_example =
    process_deposits-error node caller (deposit ∷ []) (some "event") none asset_world
      deposit_returns

-- A decimal package that knows two texts.
abbrev read_digits : String → ℕ
read_digits s = if s == "12" then 12 else 0

abbrev token_node : Env
token_node = record node { parse_decimal = λ s. ok (whole (pos (read_digits s))) }

update_user-SetsRow_example :
    ((update_user token_node "HX5jfb" "HXCtoken" 7 "HXa" (pos 12) asset_world).0 ≡ done tt)
    × SetsRow token_balance_key
        ("HXCtoken", "HXa")
        (λ r. r.amount ≡ whole (pos 12))
        []
        (update_user token_node "HX5jfb" "HXCtoken" 7 "HXa"
          (pos 12)
          asset_world).1.db.token_balances.rows
unfolding itoa format_nat format_digits
update_user-SetsRow_example =
    update_user-SetsRow token_node "HX5jfb" "HXCtoken" "HXa" 7 (pos 12) (whole (pos 12)) asset_world
      (λ n. refl) (λ n. refl) (λ d. (whole (pos (read_digits (token_node.show_decimal d))), refl))
      asset_world-HasKeys refl
