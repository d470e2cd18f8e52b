-- ===== src/Scanner/Registered.antt =====
-- The plugins that src/hxscanner.go adds to the scanner, and what all of them keep.
use hxscanner.Prelude.{ℕ, String, List, [], ◌∷◌}
use hxscanner.Env.{Env}
use hxscanner.Db.Table.{Table}
use hxscanner.Db.Schema.{
  Db, AccountEntity, AssetEntity, AddressBalanceEntity, TokenContractEntity, TokenBalanceEntity,
  TokenContractTransferHistoryEntity,
}
use hxscanner.Db.Keys.{HasKeys}
use hxscanner.Db.OpTables.{OpRows}
use hxscanner.Exec.Keeps.{Keeps}
use hxscanner.Exec.Leads.{Reliable}
use hxscanner.Scanner.Operation.{OpScannerPlugin}
use hxscanner.Scanner.Keeps.{KeepsPlugins}
use hxscanner.Scanner.Coverage.{Scanned}
use hxscanner.Scanner.Refines.{At}
use hxscanner.Plugins.Transfer.{transfer_plugin}
use hxscanner.Plugins.Account.{account_register_plugin}
use hxscanner.Plugins.AssetChange.{asset_maybe_change_plugin}
use hxscanner.Plugins.TokenCreate.{token_contract_create_plugin}
use hxscanner.Plugins.TokenEvents.{token_contract_invoke_plugin}
use hxscanner.Plugins.EventKeeps.{KeepsPlugin-token_contract_invoke}
use hxscanner.Plugins.EventStores.{KeepsEvents-apart}
use hxscanner.Plugins.EventKeys.{KeepsPlugin-token_contract_invoke_keys}
use hxscanner.Plugins.TokenKeeps.{
  KeepsPlugin-token_contract_create_apart, KeepsPlugin-token_contract_create_keys,
}
use hxscanner.Plugins.Keeps.{
  KeepsPlugin-transfer, KeepsPlugin-account_register, KeepsPlugin-asset_maybe_change,
  Keeps-update_balance,
}
use hxscanner.Plugins.Keys.{
  KeepsPlugin-transfer_keys, KeepsPlugin-account_register_keys, KeepsPlugin-asset_maybe_change_keys,
}
use hxscanner.Plugins.Balance.{update_address_balance}

-- `caller_pub_key` is the key of the command line with which contracts are called.
module _ (E : Env) (caller_pub_key : String) where
  -- The plugins in the order in which `main` adds them.
  abbrev pub plugins : List OpScannerPlugin
  plugins =
      transfer_plugin E
      ∷ account_register_plugin E
      ∷ asset_maybe_change_plugin E
      ∷ token_contract_create_plugin E caller_pub_key
      ∷ token_contract_invoke_plugin E caller_pub_key
      ∷ []

  -- An invariant that reads none of the tables that the plugins write to.
  pub plugins-apart :
      (P : Db → Type 0)
      → ((d : Db) (t : List AssetEntity) → P d → P (record d { assets = t }))
      → ((d : Db) (t : Table AddressBalanceEntity) → P d → P (record d { address_balances = t }))
      → ((d : Db) (t : Table AccountEntity) → P d → P (record d { accounts = t }))
      → ((d : Db) (t : Table TokenContractEntity) → P d → P (record d { token_contracts = t }))
      → ((d : Db) (t : Table TokenBalanceEntity) → P d → P (record d { token_balances = t }))
      → ((d : Db) (t : Table TokenContractTransferHistoryEntity)
          → P d
          → P (record d { transfer_history = t }))
      → KeepsPlugins P plugins
  plugins-apart P assets balances accounts contracts token_balances transfers =
      let updates : (a i : String) → Keeps P (update_address_balance E a i) =
        Keeps-update_balance E assets balances in
      (
        KeepsPlugin-transfer E updates,
        (
          KeepsPlugin-account_register E accounts,
          (
            KeepsPlugin-asset_maybe_change E updates,
            (
              KeepsPlugin-token_contract_create_apart E caller_pub_key contracts,
              (
                KeepsPlugin-token_contract_invoke E caller_pub_key
                    (KeepsEvents-apart E caller_pub_key contracts token_balances transfers updates),
                tt,
              ),
            ),
          ),
        ),
      )

  pub plugins-Scanned : (n : ℕ) → KeepsPlugins (Scanned 1 n) plugins
  plugins-Scanned n =
      plugins-apart (Scanned 1 n) (λ d t h. h) (λ d t h. h) (λ d t h. h) (λ d t h. h) (λ d t h. h)
        (λ d t h. h)

  pub plugins-At : (c : ℕ) → KeepsPlugins (At c) plugins
  plugins-At c =
      plugins-apart (At c) (λ d t h. h) (λ d t h. h) (λ d t h. h) (λ d t h. h) (λ d t h. h)
        (λ d t h. h)

  pub plugins-HasKeys : Reliable E → KeepsPlugins HasKeys plugins
  plugins-HasKeys rel = (
    KeepsPlugin-transfer_keys E rel,
    (
      KeepsPlugin-account_register_keys E rel,
      (
        KeepsPlugin-asset_maybe_change_keys E rel,
        (
          KeepsPlugin-token_contract_create_keys E rel caller_pub_key,
          (KeepsPlugin-token_contract_invoke_keys E rel caller_pub_key, tt),
        ),
      ),
    ),
  )

  pub plugins-OpRows : KeepsPlugins OpRows plugins
  plugins-OpRows =
      plugins-apart OpRows (λ d t h. h) (λ d t h. h) (λ d t h. h) (λ d t h. h) (λ d t h. h)
        (λ d t h. h)
