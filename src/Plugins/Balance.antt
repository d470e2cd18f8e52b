-- ===== src/Plugins/Balance.antt =====
-- src/plugins/asset_balance_update_util.go. `assetsCache` is a map that nothing ever writes, so a
-- look-up in it finds nothing and it is left out.
use hxscanner.Prelude.{
  ℕ, String, ◌<>◌, Option, none, some, List, [], ◌∷◌, ◌==◌, lookup, if◌then◌else◌,
}
use hxscanner.Prelude.Int.{ℤ, pos}
use hxscanner.Env.{Decimal, Env}
use hxscanner.Db.Schema.{AssetEntity, AddressBalanceEntity}
use hxscanner.Db.Assets.{
  find_asset, save_asset, save_address_balance, update_address_balance as store_address_balance,
  find_address_balance_by_owner_addr_and_asset_id,
}
use hxscanner.Node.{list_assets, get_address_balances}
use hxscanner.Exec.{M, pure, or_fail, ◌>>=◌, ◌>>◌, now, when_nil}

-- `newBalance, ok := addrBalances[assetId]`, and 0 if it is not there
abbrev pub balance_or_zero : Option ℤ → ℤ
balance_or_zero none = pos 0
balance_or_zero (some b) = b

module _ (E : Env) where
  -- Every asset of the node that the table lacks is saved; the wanted one is the result.
  unfoldable pub save_assets :
      String → List AssetEntity → Option AssetEntity → M (Option AssetEntity)
  save_assets asset_id [] result = pure result
  save_assets asset_id (item ∷ items) result = do
    exist_item ← find_asset E item.asset_id
    when_nil exist_item (save_asset E item)
    save_assets asset_id items (if item.asset_id == asset_id then some item else result)

  unfoldable pub asset_or_node : String → Option AssetEntity → M (Option AssetEntity)
  asset_or_node asset_id (some item) = pure (some item)
  asset_or_node asset_id none = do
    node_assets ← list_assets E 0 100
    save_assets asset_id node_assets none

  unfoldable pub find_asset_from_cache_or_db : String → M (Option AssetEntity)
  unfolding save_assets asset_or_node
  find_asset_from_cache_or_db asset_id = do
    found ← find_asset E asset_id
    asset_or_node asset_id found

  -- `decimal.New(newBalance, 0).Div(decimal.New(int64(math.Pow10(precision)), 0))`
  abbrev pub scaled : ℤ → AssetEntity → Decimal
  scaled balance asset =
      E.decimal_div (record { value = balance; exponent = pos 0 })
        (record { value = E.pow10 asset.precision; exponent = pos 0 })

  unfoldable pub store_balance :
      String → String → Decimal → ℕ → Option AddressBalanceEntity → M (Unit {0})
  store_balance addr asset_id amount t none = save_address_balance E (record {
    id = 0;
    owner_addr = addr;
    asset_id = asset_id;
    amount = amount;
    created_at = t;
    updated_at = t;
  })
  store_balance addr asset_id amount t (some r) =
      store_address_balance E (record r { amount = amount; updated_at = t })

  unfoldable pub update_address_balance : String → String → M (Unit {0})
  unfolding store_balance
  update_address_balance addr asset_id = do
    addr_balances ← get_address_balances E addr
    asset_or_none ← find_asset_from_cache_or_db asset_id
    asset_entry ← or_fail asset_or_none ("unknown asset id " <> asset_id)
    found ← find_address_balance_by_owner_addr_and_asset_id E addr asset_id
    t ← now E
    store_balance addr asset_id
        (scaled (balance_or_zero (lookup asset_id addr_balances)) asset_entry) t found
