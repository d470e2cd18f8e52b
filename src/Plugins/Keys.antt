-- ===== src/Plugins/Keys.antt =====
-- The plugins for transfers, accounts and asset changes store no key twice.
use hxscanner.Prelude.{
  ℕ, ◌≡◌, refl, sym, String, Option, none, some, List, [], ◌∷◌, find?, find?-passes,
}
use hxscanner.Env.{Decimal, Env}
use hxscanner.Exec.{pure}
use hxscanner.Exec.Keeps.{
  Keeps, Keeps-pure, Keeps-bind, Keeps-if, Keeps-now, Keeps-or_fail, Keeps-lift, Keeps-of_Gives,
  Gives, Gives-bind, Gives-of_Keeps,
}
use hxscanner.Exec.Leads.{Reliable, Seen, Gives-query_row, Gives-after, Leads}
use hxscanner.Db.Schema.{Db, AssetEntity, AddressBalanceEntity}
use hxscanner.Db.Assets.{
  find_asset, find_address_balance_by_owner_addr_and_asset_id, parsed_balance, is_balance_of,
}
use hxscanner.Db.Accounts.{find_account_by_owner_addr}
use hxscanner.Db.Keeps.{Keeps-find_asset}
use hxscanner.Db.Keys.{HasKeys, asset_key, balance_key, account_key}
use hxscanner.Db.Unique.{Leads-save_asset, Leads-save_account}
use hxscanner.Db.UniqueBalances.{
  Leads-save_address_balance, Leads-update_address_balance, both_texts,
}
use hxscanner.Db.FindOrSave.{Gives-Missing, Leads-when-Missing}
use hxscanner.Node.Keeps.{Keeps-list_assets, Keeps-get_address_balances}
use hxscanner.Plugins.Balance.{
  save_assets, asset_or_node, find_asset_from_cache_or_db, store_balance, update_address_balance,
}
use hxscanner.Plugins.Transfer.{transfer_plugin}
use hxscanner.Plugins.Account.{register, account_register_plugin}
use hxscanner.Plugins.AssetChange.{asset_maybe_change_plugin}
use hxscanner.Scanner.Keeps.{KeepsPlugin}
use hxscanner.Plugins.Keeps.{KeepsPlugin-transfer, KeepsPlugin-asset_maybe_change}

abbrev balance_rows : Db → List AddressBalanceEntity
balance_rows d = d.address_balances.rows

-- What the look-up of a balance says of the table.
abbrev BalanceFact : String → String → Option AddressBalanceEntity → Db → Type 0
BalanceFact a i none d = none ≡ find? (balance_key (a, i)) (balance_rows d)
BalanceFact a i (some r) d =
    (e : AddressBalanceEntity) × (find? (balance_key (a, i)) (balance_rows d) ≡ some e)
    × (r.id ≡ e.id)
    × (r.owner_addr ≡ a)
    × (r.asset_id ≡ i)

abbrev BalanceSeen : String → String → Option AddressBalanceEntity → Db → Type 0
BalanceSeen a i o d = HasKeys d × BalanceFact a i o d

BalanceSeen-known :
    (a i : String) (o : Option AddressBalanceEntity) (d : Db) → BalanceSeen a i o d → HasKeys d
BalanceSeen-known a i o d h = h.0

module _ (E : Env) where
  Leads-store_balance :
      (a i : String) (m : Decimal) (t : ℕ) (o : Option AddressBalanceEntity)
      → Leads (BalanceSeen a i o) (store_balance E a i m t o) HasKeys
  unfolding store_balance
  Leads-store_balance a i m t none = Leads-save_address_balance E _
  Leads-store_balance a i m t (some r) = record {
    from = λ w h.
        (Leads-update_address_balance E (record r { amount = m; updated_at = t })).from w
          (h.0, h.1.0, rw (h.1.3, h.1.4) h.1.1, h.1.2);
  }

module _ (E : Env) (rel : Reliable E) where
  Gives-parsed_balance :
      (a i : String) (o : Option AddressBalanceEntity)
      → Gives
          (Seen HasKeys balance_rows (is_balance_of a i) o)
          (parsed_balance E o)
          (BalanceSeen a i)
          HasKeys
  unfolding pure
  Gives-parsed_balance a i none = record { from = λ w h. h }
  Gives-parsed_balance a i (some r) =
      Gives-after _ _ (λ d h. h.0) (Keeps-lift _)
        λ m. record {
          from = λ w h.
              let (o, s) =
                both_texts r.owner_addr r.asset_id a i
                  (find?-passes (is_balance_of a i) (balance_rows w.db) r (sym h.1)) in
              (h.0, (r, sym h.1, refl, o, s));
        }

  Keeps-save_assets_keys :
      (i : String) (items : List AssetEntity) (r : Option AssetEntity)
      → Keeps HasKeys (save_assets E i items r)
  unfolding save_assets find_asset
  Keeps-save_assets_keys i [] r = Keeps-pure r
  Keeps-save_assets_keys i (a ∷ items) r = Keeps-of_Gives _ (
      Gives-bind _ _ (Gives-Missing E rel (λ d. d.assets) (asset_key a.asset_id)) λ o.
        Gives-bind _ _
          (Leads-when-Missing (λ d. d.assets) (asset_key a.asset_id) o _ (Leads-save_asset E a))
          (λ _. Gives-of_Keeps _ (Keeps-save_assets_keys i items _)))

  Keeps-asset_or_node_keys :
      (i : String) (o : Option AssetEntity) → Keeps HasKeys (asset_or_node E i o)
  unfolding asset_or_node
  Keeps-asset_or_node_keys i none =
      Keeps-bind _ _ (Keeps-list_assets E 0 100) (λ items. Keeps-save_assets_keys i items none)
  Keeps-asset_or_node_keys i (some a) = Keeps-pure _

  -- With a reliable row iteration, updateAddressBalance keeps that no key is stored twice, so that there is one
  -- balance for each address and asset, and one row for each asset.
  pub Keeps-update_balance_keys : (a i : String) → Keeps HasKeys (update_address_balance E a i)
  unfolding update_address_balance find_asset_from_cache_or_db
      find_address_balance_by_owner_addr_and_asset_id
  Keeps-update_balance_keys a i = Keeps-bind _ _ (Keeps-get_address_balances E a) λ bs.
      Keeps-bind _ _ (Keeps-bind _ _ (Keeps-find_asset E i) (Keeps-asset_or_node_keys i)) λ o.
        Keeps-bind _ _ (Keeps-or_fail o _) λ asset. Keeps-of_Gives _ (
          Gives-bind _ _
            (Gives-bind _ _ (Gives-query_row E HasKeys balance_rows (is_balance_of a i) rel)
              (Gives-parsed_balance a i))
            λ found.
              Gives-after _ _ (BalanceSeen-known a i found) (Keeps-now E)
                (λ t. Leads-store_balance E a i _ t found))

  Keeps-register_keys : (n a : Option String) → Keeps HasKeys (register E n a)
  unfolding register find_account_by_owner_addr
  Keeps-register_keys none a = Keeps-pure tt
  Keeps-register_keys (some n) none = Keeps-pure tt
  Keeps-register_keys (some n) (some a) = Keeps-of_Gives _ (
      Gives-bind _ _ (Gives-Missing E rel (λ d. d.accounts.rows) (account_key a)) λ o.
        Gives-after _ _ (λ d h. h.0) (Keeps-now E)
          (λ t.
            Leads-when-Missing (λ d. d.accounts.rows) (account_key a) o _ (Leads-save_account E _)))

  pub KeepsPlugin-account_register_keys : KeepsPlugin HasKeys (account_register_plugin E)
  unfolding account_register_plugin
  KeepsPlugin-account_register_keys = record {
    applied = λ block txid n t name op_json receipt.
        Keeps-if _ _ _ (Keeps-pure tt) (Keeps-register_keys _ _);
  }

  pub KeepsPlugin-transfer_keys : KeepsPlugin HasKeys (transfer_plugin E)
  KeepsPlugin-transfer_keys = KeepsPlugin-transfer E Keeps-update_balance_keys

  pub KeepsPlugin-asset_maybe_change_keys : KeepsPlugin HasKeys (asset_maybe_change_plugin E)
  KeepsPlugin-asset_maybe_change_keys = KeepsPlugin-asset_maybe_change E Keeps-update_balance_keys
