-- ===== src/Db/Assets.antt =====
-- src/db/asset_daos.go
use hxscanner.Prelude.{ℕ, String, Bool, ◌&&◌, Option, none, some, [], ◌∷◌, ◌++◌, ◌==◌, eqb, find?}
use hxscanner.Env.{Result, Env}
use hxscanner.Db.Table.{insert_row, unless_found, update_rows}
use hxscanner.Db.Schema.{Db, AssetEntity, AddressBalanceEntity}
use hxscanner.Exec.{M, pure, lift, ◌>>=◌, now, query_row, exec, exec_checked}

-- `asset_id` is the primary key of `asset`.
abbrev pub insert_asset : AssetEntity → ℕ → Db → Result Db
insert_asset asset t d =
    unless_found (find? (λ r. r.asset_id == asset.asset_id) d.assets)
      "duplicate key value violates unique constraint pk_asset"
      (record d { assets = d.assets ++ record asset { created_at = t; updated_at = t } ∷ [] })

abbrev pub is_balance_of : String → String → AddressBalanceEntity → Bool
is_balance_of owner_addr asset_id r = (r.owner_addr == owner_addr) && (r.asset_id == asset_id)

module _ (E : Env) where
  unfoldable pub save_asset : AssetEntity → M (Unit {0})
  save_asset asset = do t ← now E; exec_checked E (insert_asset asset t)

  unfoldable pub find_asset : String → M (Option AssetEntity)
  find_asset asset_id = query_row E (λ d. d.assets) (λ r. r.asset_id == asset_id)

  unfoldable pub insert_address_balance : AddressBalanceEntity → ℕ → Db → Db
  insert_address_balance b t d = record d {
    address_balances =
        insert_row (λ i. record b { id = i; created_at = t; updated_at = t }) d.address_balances;
  }

  unfoldable pub save_address_balance : AddressBalanceEntity → M (Unit {0})
  unfolding insert_address_balance
  save_address_balance address_balance = do
    t ← now E
    exec E (insert_address_balance address_balance t)

  unfoldable pub update_address_balance : AddressBalanceEntity → M (Unit {0})
  update_address_balance address_balance = exec E λ d. record d {
    address_balances =
        update_rows (λ r. eqb address_balance.id r.id) (λ r. record address_balance { id = r.id })
          d.address_balances;
  }

  abbrev pub parsed_balance : Option AddressBalanceEntity → M (Option AddressBalanceEntity)
  parsed_balance none = pure none
  parsed_balance (some r) = do
    amount ← lift (E.parse_decimal (E.show_decimal r.amount))
    pure (some (record r { amount = amount }))

  unfoldable pub find_address_balance_by_owner_addr_and_asset_id :
      String → String → M (Option AddressBalanceEntity)
  find_address_balance_by_owner_addr_and_asset_id owner_addr asset_id = do
    row ← query_row E (λ d. d.address_balances.rows) (is_balance_of owner_addr asset_id)
    parsed_balance row
