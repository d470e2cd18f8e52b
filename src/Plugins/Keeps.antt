-- ===== src/Plugins/Keeps.antt =====
-- What the plugins for transfers, accounts and asset changes leave alone.
use hxscanner.Prelude.{ℕ, String, Option, none, some, List, [], ◌∷◌}
use hxscanner.Env.{Decimal, Env}
use hxscanner.Exec.Keeps.{
  Keeps, Keeps-pure, Keeps-bind, Keeps-if, Keeps-now, Keeps-or_fail, Keeps-when_nil,
}
use hxscanner.Db.Table.{Table}
use hxscanner.Db.Schema.{Db, AccountEntity, AssetEntity, AddressBalanceEntity}
use hxscanner.Db.Keeps.{
  Keeps-find_asset, Keeps-save_asset, Keeps-find_address_balance, Keeps-save_address_balance,
  Keeps-update_address_balance, Keeps-find_account_by_owner_addr, Keeps-save_account,
}
use hxscanner.Node.Keeps.{Keeps-list_assets, Keeps-get_address_balances}
use hxscanner.Plugins.Balance.{
  save_assets, asset_or_node, find_asset_from_cache_or_db, store_balance, update_address_balance,
}
use hxscanner.Plugins.Transfer.{update_both, transfer_plugin}
use hxscanner.Plugins.Account.{register, account_register_plugin}
use hxscanner.Plugins.AssetChange.{update_changed, asset_maybe_change_plugin}
use hxscanner.Scanner.Keeps.{KeepsPlugin}

module _ (E : Env) {P : Db → Type 0}
    (updates : (a i : String) → Keeps P (update_address_balance E a i)) where
  Keeps-update_both : (f t : String) (o : Option String) → Keeps P (update_both E f t o)
  unfolding update_both
  Keeps-update_both f t none = Keeps-pure tt
  Keeps-update_both f t (some i) = Keeps-bind _ _ (updates f i) (λ _. updates t i)

  -- The transfer plugin does no more than update balances.
  pub KeepsPlugin-transfer : KeepsPlugin P (transfer_plugin E)
  unfolding transfer_plugin
  KeepsPlugin-transfer = record {
    applied = λ block txid n t name op_json receipt. Keeps-if _ _ _ (Keeps-pure tt) (
        Keeps-bind _ _ (Keeps-or_fail _ _) λ to_addr.
          Keeps-bind _ _ (Keeps-or_fail _ _) λ from_addr.
            Keeps-bind _ _ (Keeps-or_fail _ _) λ amount_obj.
              Keeps-bind _ _ (Keeps-or_fail _ _) λ amount_map. Keeps-update_both _ _ _);
  }

  Keeps-update_changed : (a i : Option String) → Keeps P (update_changed E a i)
  unfolding update_changed
  Keeps-update_changed none i = Keeps-pure tt
  Keeps-update_changed (some a) none = Keeps-pure tt
  Keeps-update_changed (some a) (some i) = updates a i

  pub KeepsPlugin-asset_maybe_change : KeepsPlugin P (asset_maybe_change_plugin E)
  unfolding asset_maybe_change_plugin
  KeepsPlugin-asset_maybe_change = record {
    applied = λ block txid n t name op_json receipt. Keeps-update_changed _ _;
  }

module _ (E : Env) {P : Db → Type 0}
    (accounts : (d : Db) (t : Table AccountEntity) → P d → P (record d { accounts = t })) where
  Keeps-register : (n a : Option String) → Keeps P (register E n a)
  unfolding register
  Keeps-register none a = Keeps-pure tt
  Keeps-register (some n) none = Keeps-pure tt
  Keeps-register (some n) (some a) =
      Keeps-bind _ _ (Keeps-find_account_by_owner_addr E a)
        λ o. Keeps-bind _ _ (Keeps-now E) λ t. Keeps-when_nil o _ (Keeps-save_account E _ accounts)

  pub KeepsPlugin-account_register : KeepsPlugin P (account_register_plugin E)
  unfolding account_register_plugin
  KeepsPlugin-account_register = record {
    applied =
        λ block txid n t name op_json receipt. Keeps-if _ _ _ (Keeps-pure tt) (Keeps-register _ _);
  }

module _ (E : Env) {P : Db → Type 0}
    (assets : (d : Db) (t : List AssetEntity) → P d → P (record d { assets = t }))
    (balances : (d : Db) (t : Table AddressBalanceEntity)
      → P d
      → P (record d { address_balances = t })) where
  Keeps-save_assets :
      (i : String) (items : List AssetEntity) (r : Option AssetEntity)
      → Keeps P (save_assets E i items r)
  unfolding save_assets
  Keeps-save_assets i [] r = Keeps-pure r
  Keeps-save_assets i (a ∷ items) r = Keeps-bind _ _ (Keeps-find_asset E _) λ o.
      Keeps-bind _ _ (Keeps-when_nil o _ (Keeps-save_asset E a assets))
        (λ _. Keeps-save_assets i items _)

  Keeps-asset_or_node : (i : String) (o : Option AssetEntity) → Keeps P (asset_or_node E i o)
  unfolding asset_or_node
  Keeps-asset_or_node i none =
      Keeps-bind _ _ (Keeps-list_assets E 0 100) (λ items. Keeps-save_assets i items none)
  Keeps-asset_or_node i (some a) = Keeps-pure _

  Keeps-store_balance :
      (a i : String) (m : Decimal) (t : ℕ) (o : Option AddressBalanceEntity)
      → Keeps P (store_balance E a i m t o)
  unfolding store_balance
  Keeps-store_balance a i m t none = Keeps-save_address_balance E _ balances
  Keeps-store_balance a i m t (some r) = Keeps-update_address_balance E _ balances

  -- An update of a balance touches the assets and the balances alone.
  pub Keeps-update_balance : (a i : String) → Keeps P (update_address_balance E a i)
  unfolding update_address_balance find_asset_from_cache_or_db
  Keeps-update_balance a i = Keeps-bind _ _ (Keeps-get_address_balances E a) λ bs.
      Keeps-bind _ _ (Keeps-bind _ _ (Keeps-find_asset E i) (Keeps-asset_or_node i)) λ o.
        Keeps-bind _ _ (Keeps-or_fail o _) λ asset.
          Keeps-bind _ _ (Keeps-find_address_balance E a i)
            λ found. Keeps-bind _ _ (Keeps-now E) λ t. Keeps-store_balance a i _ t found
