-- ===== src/Plugins/Transfer.antt =====
-- src/plugins/transfer_plugin.go
use hxscanner.Prelude.{ℕ, String, Option, none, some, ◌==◌, lookup, if◌then◌else◌, not}
use hxscanner.Prelude.Int.{ℤ}
use hxscanner.Value.{Object, as_object}
use hxscanner.Types.{HxBlock, HxContractOpReceipt}
use hxscanner.Env.{Env}
use hxscanner.Exec.{M, pure, or_fail, ◌>>=◌, ◌>>◌}
use hxscanner.Plugins.Utils.{map_get_string}
use hxscanner.Plugins.Balance.{update_address_balance}
use hxscanner.Scanner.Operation.{OpScannerPlugin}

module _ (E : Env) where
  unfoldable pub update_both : String → String → Option String → M (Unit {0})
  update_both from_addr to_addr none = pure tt
  update_both from_addr to_addr (some asset_id) = do
    update_address_balance E from_addr asset_id
    update_address_balance E to_addr asset_id

  unfoldable pub apply_transfer :
      HxBlock → String → ℕ → ℤ → String → Object → Option HxContractOpReceipt → M (Unit {0})
  unfolding update_both
  apply_transfer block txid op_num op_type op_type_name op_json receipt =
      if not (op_type_name == "transfer_operation") then pure tt else do
        to_addr ← or_fail (map_get_string op_json "to_addr") "invalid to_addr in transfer op"
        from_addr ← or_fail (map_get_string op_json "from_addr") "invalid from_addr in transfer op"
        amount_obj ← or_fail (lookup "amount" op_json) "invalid amount type in transfer op"
        amount_map ← or_fail (as_object amount_obj) "invalid amount type in transfer op"
        update_both from_addr to_addr (map_get_string amount_map "asset_id")

  unfoldable pub transfer_plugin : OpScannerPlugin
  unfolding apply_transfer
  transfer_plugin = record { plugin_name = "TransferPlugin"; apply_operation = apply_transfer }
