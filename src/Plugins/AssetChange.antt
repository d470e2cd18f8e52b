-- ===== src/Plugins/AssetChange.antt =====
-- src/plugins/asset_maybe_change_plugin.go
use hxscanner.Prelude.{ℕ, String, Option, none, some, List, [], ◌∷◌, ◌==◌, lookup, if◌then◌else◌}
use hxscanner.Prelude.Int.{ℤ}
use hxscanner.Value.{Value, Object, as_object}
use hxscanner.Types.{HxBlock, HxContractOpReceipt}
use hxscanner.Env.{Env}
use hxscanner.Exec.{M, pure}
use hxscanner.Plugins.Utils.{map_get_string}
use hxscanner.Plugins.Balance.{update_address_balance}
use hxscanner.Scanner.Operation.{OpScannerPlugin}

-- The first of the properties that is a text.
unfoldable pub first_string : List String → Object → Option String
first_string [] op_json = none
first_string (prop ∷ props) op_json = elim (map_get_string op_json prop) [
  | some s ↦ some s
  | none ↦ first_string props op_json
]

abbrev unless_empty : Option String → Option String
unless_empty none = none
unless_empty (some s) = if s == "" then none else some s

abbrev asset_of_amount : Option Value → Option String
asset_of_amount none = none
asset_of_amount (some amount_obj) = elim (as_object amount_obj) [
  | none ↦ none
  | some amount_map ↦ map_get_string amount_map "asset_id"
]

-- The asset that the operation names itself, or else the one of its amount.
abbrev asset_or_amount : Option String → Object → Option String
asset_or_amount (some asset_id) op_json = some asset_id
asset_or_amount none op_json = asset_of_amount (lookup "amount" op_json)

-- The address and the asset whose balance may have changed.
unfoldable pub changed_address : Object → Option String
unfolding first_string
changed_address op_json =
    unless_empty
      (first_string ("addr" ∷ "caller_addr" ∷ "lock_balance_addr" ∷ "foreclose_addr" ∷ []) op_json)

unfoldable pub changed_asset : Object → Option String
unfolding first_string
changed_asset op_json =
    asset_or_amount
      (unless_empty
        (first_string ("asset_id" ∷ "lock_asset_id" ∷ "foreclose_asset_id" ∷ []) op_json))
      op_json

module _ (E : Env) where
  unfoldable pub update_changed : Option String → Option String → M (Unit {0})
  update_changed none asset = pure tt
  update_changed (some addr) none = pure tt
  update_changed (some addr) (some asset_id) = update_address_balance E addr asset_id

  unfoldable pub apply_asset_maybe_change :
      HxBlock → String → ℕ → ℤ → String → Object → Option HxContractOpReceipt → M (Unit {0})
  unfolding update_changed
  apply_asset_maybe_change block txid op_num op_type op_type_name op_json receipt =
      update_changed (changed_address op_json) (changed_asset op_json)

  unfoldable pub asset_maybe_change_plugin : OpScannerPlugin
  unfolding apply_asset_maybe_change
  asset_maybe_change_plugin = record {
    plugin_name = "AssetMaybeChangePlugin";
    apply_operation = apply_asset_maybe_change;
  }
