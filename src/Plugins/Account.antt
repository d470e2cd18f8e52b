-- ===== src/Plugins/Account.antt =====
-- src/plugins/account_register_plugin.go
use hxscanner.Prelude.{ℕ, String, Option, none, some, ◌==◌, if◌then◌else◌, not}
use hxscanner.Prelude.Int.{ℤ}
use hxscanner.Value.{Object}
use hxscanner.Types.{HxBlock, HxContractOpReceipt}
use hxscanner.Env.{Env}
use hxscanner.Db.Accounts.{save_account, find_account_by_owner_addr}
use hxscanner.Exec.{M, pure, ◌>>=◌, now, when_nil}
use hxscanner.Plugins.Utils.{map_get_string}
use hxscanner.Scanner.Operation.{OpScannerPlugin}

module _ (E : Env) where
  -- The payer's account, under the name of the operation, unless the payer has one.
  unfoldable pub register : Option String → Option String → M (Unit {0})
  register none payer = pure tt
  register (some account_name) none = pure tt
  register (some account_name) (some payer_addr) = do
    account_entity ← find_account_by_owner_addr E payer_addr
    t ← now E
    when_nil account_entity (
        save_account E (record {
          id = 0;
          owner_addr = payer_addr;
          account_name = account_name;
          created_at = t;
          updated_at = t;
        }))

  unfoldable pub apply_account_register :
      HxBlock → String → ℕ → ℤ → String → Object → Option HxContractOpReceipt → M (Unit {0})
  unfolding register
  apply_account_register block txid op_num op_type op_type_name op_json receipt =
      if not (op_type_name == "account_create_operation")
      then pure tt
      else register (map_get_string op_json "name") (map_get_string op_json "payer")

  unfoldable pub account_register_plugin : OpScannerPlugin
  unfolding apply_account_register
  account_register_plugin = record {
    plugin_name = "AccountRegisterPlugin";
    apply_operation = apply_account_register;
  }
