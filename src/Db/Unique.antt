-- ===== src/Db/Unique.antt =====
-- Saving a row whose key a look-up did not find, and updating a row that a look-up found, keep the
-- tables free of double keys.
use mathlib.Core.Path.{subst}
use hxscanner.Prelude.{
  ℕ, ◌≤◌, ◌≡◌, refl, sym, String, Bool, true, none, List, ◌==◌, eqb, eqb→eq, eq_iff, find?, count,
  count-eq-zero, count-update,
}
use hxscanner.Env.{Env}
use hxscanner.Types.{HxBlock, HxTransaction}
use hxscanner.Exec.Keeps.{Keeps, Keeps-now, Keeps-sql, Keeps-exec}
use hxscanner.Exec.Leads.{Leads, Leads-exec, Leads-exec_checked, Leads-write, Gives-after}
use hxscanner.Db.Table.{append-UniqueBy, unless_found-eq-ok}
use hxscanner.Db.Schema.{Db, BaseOperationEntity, AccountEntity, AssetEntity, ScanConfigEntity}
use hxscanner.Db.Blocks.{save_block, block_row, update_block_hash, save_transaction}
use hxscanner.Db.Configs.{save_config, update_config}
use hxscanner.Db.Keeps.{Keeps-first_operation_type}
use hxscanner.Db.Operations.{save_base_operation}
use hxscanner.Db.Accounts.{save_account}
use hxscanner.Db.Assets.{save_asset}
use hxscanner.Db.Keys.{
  HasKeys, block_key, transaction_key, operation_key, account_key, config_key, asset_key,
}
use hxscanner.Db.Keys.Changes.{
  with_accounts, with_assets, with_blocks, with_operations, with_scan_configs, with_transactions,
}

-- What a look-up by this key, which found nothing, says of the table.
abbrev pub Absent : {A : Type 0} → (Db → List A) → (A → Bool) → Db → Type 0
Absent table test d = HasKeys d × (none ≡ find? test (table d))

-- A text key that another text equals.
pub absent_text :
    {A : Type 0} (key : A → String) (k : String) (rows : List A)
    → none ≡ find? (λ r. key r == k) rows
    → (j : String) → (k == j) ≡ true
    → count (λ r. key r == j) rows ≡ 0
absent_text key k rows h j e =
    subst (λ j. count (λ r. key r == j) rows ≡ 0) ((eq_iff k j).0 e) (count-eq-zero _ rows (sym h))

module _ (E : Env) where
  pub Leads-save_block :
      (b : HxBlock)
      → Leads (Absent (λ d. d.blocks) (block_key b.block_number)) (save_block E b) HasKeys
  unfolding save_block
  Leads-save_block b =
      Leads-exec_checked E (λ d h. h.0) _
        λ d d' h e.
          subst HasKeys
            (unless_found-eq-ok (find? (λ r. eqb b.block_number r.id) d.blocks) _ _ d' e).1
            (with_blocks h.0 _ (
              append-UniqueBy block_key d.blocks (block_row b) (HasKeys.blocks h.0)
                (λ k t. rw (eqb→eq k b.block_number t) (count-eq-zero _ d.blocks (sym h.1)))))

  pub Leads-save_base_operation :
      (o : BaseOperationEntity)
      → Leads
          (Absent (λ d. d.operations.rows) (operation_key o.id))
          (save_base_operation E o)
          HasKeys
  unfolding save_base_operation
  Leads-save_base_operation o =
      Leads-exec E (λ d h. h.0) _
        λ d h. with_operations h.0 _ (
          append-UniqueBy operation_key d.operations.rows _ (HasKeys.operations h.0)
            (absent_text (λ r. r.id) o.id d.operations.rows h.1))

  pub Leads-save_transaction :
      (tx : HxTransaction)
      → Leads
          (Absent (λ d. d.transactions.rows) (transaction_key tx.trxid))
          (save_transaction E tx)
          HasKeys
  unfolding save_transaction
  Leads-save_transaction tx =
      Gives-after _ _ (λ d h. h.0) (Keeps-sql E)
        λ _.
          Gives-after _ _ (λ d h. h.0) (Keeps-first_operation_type E tx.operations)
            λ t.
              Gives-after _ _ (λ d h. h.0) (Keeps-sql E)
                λ _. Leads-write _ λ d h. with_transactions h.0 _ (
                  append-UniqueBy transaction_key d.transactions.rows _ (HasKeys.transactions h.0)
                    (absent_text (λ r. r.txid) tx.trxid d.transactions.rows h.1))

  pub Leads-save_account :
      (a : AccountEntity)
      → Leads (Absent (λ d. d.accounts.rows) (account_key a.owner_addr)) (save_account E a) HasKeys
  unfolding save_account
  Leads-save_account a =
      Gives-after _ _ (λ d h. h.0) (Keeps-now E)
        λ t.
          Leads-exec E (λ d h. h.0) _
            λ d h. with_accounts h.0 _ (
              append-UniqueBy account_key d.accounts.rows _ (HasKeys.accounts h.0)
                (absent_text (λ r. r.owner_addr) a.owner_addr d.accounts.rows h.1))

  pub Leads-save_asset :
      (a : AssetEntity)
      → Leads (Absent (λ d. d.assets) (asset_key a.asset_id)) (save_asset E a) HasKeys
  unfolding save_asset
  Leads-save_asset a =
      Gives-after _ _ (λ d h. h.0) (Keeps-now E)
        λ t.
          Leads-exec_checked E (λ d h. h.0) _
            λ d d' h e.
              subst HasKeys
                (unless_found-eq-ok (find? (λ r. r.asset_id == a.asset_id) d.assets) _ _ d' e).1
                (with_assets h.0 _ (
                  append-UniqueBy asset_key d.assets _ (HasKeys.assets h.0)
                    (absent_text (λ r. r.asset_id) a.asset_id d.assets h.1)))

  pub Leads-save_config :
      (key value : String)
      → Leads (Absent (λ d. d.scan_configs.rows) (config_key key)) (save_config E key value) HasKeys
  unfolding save_config
  Leads-save_config key value =
      Leads-exec E (λ d h. h.0) _
        λ d h. with_scan_configs h.0 _ (
          append-UniqueBy config_key d.scan_configs.rows _ (HasKeys.scan_configs h.0)
            (absent_text (λ r. r.config_key) key d.scan_configs.rows h.1))

  pub Keeps-update_config_keys : (c : ScanConfigEntity) → Keeps HasKeys (update_config E c)
  unfolding update_config
  Keeps-update_config_keys c = Keeps-exec E _ λ d h. with_scan_configs h _ λ k.
      subst (λ n. n ≤ 1)
        (sym (
          count-update (config_key k) (λ r. r.config_key == c.config_key)
            (λ r. record r { config_value = c.config_value }) d.scan_configs.rows (λ x p. refl)))
        (h.scan_configs k)

  pub Keeps-update_block_hash_keys :
      (n : ℕ) (hash : String) → Keeps HasKeys (update_block_hash E n hash)
  unfolding update_block_hash
  Keeps-update_block_hash_keys n hash = Keeps-exec E _ λ d h. with_blocks h _ λ k.
      subst (λ n. n ≤ 1)
        (sym (
          count-update (block_key k) (λ r. eqb n r.number) (λ r. record r { block_id = hash })
            d.blocks (λ x p. refl)))
        (h.blocks k)
