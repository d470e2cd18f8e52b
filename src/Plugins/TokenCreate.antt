-- ===== src/Plugins/TokenCreate.antt =====
-- src/plugins/token_contract_create_plugin.go. The branch for native contracts does nothing but log.
use hxscanner.Prelude.{
  ℕ, ◌%◌, ◌^◌, String, Bool, Option, none, some, List, [], ◌∷◌, ◌==◌, lookup, not, ◌&&◌,
  if◌then◌else◌,
}
use hxscanner.Prelude.Int.{ℤ, to_unsigned}
use hxscanner.Value.{Object, as_object}
use hxscanner.Types.{HxBlock, HxContractOpReceipt}
use hxscanner.Env.{Result, ok, err, Env}
use hxscanner.Db.Schema.{TokenContractEntity}
use hxscanner.Db.Tokens.{find_token_contract_by_contract_id, save_token_contract}
use hxscanner.Node.{invoke_contract_offline, invoke_contract_offline_with_int_result, unquoted}
use hxscanner.Exec.{M, pure, or_fail, attempt, ◌>>=◌, when_nil}
use hxscanner.Plugins.Utils.{
  is_all_in_array, obj_to_string_array, get_string_prop_from_json_obj, get_int_prop_from_json_obj,
}
use hxscanner.Scanner.Operation.{OpScannerPlugin}

pub record ContractRegisterOperation : Type 0 where
  pub contract_code : Object
  pub abi : List String
  pub offline_abi : List String
  pub owner_pub_key : String
  pub owner_addr : String
  pub inherit_from : String
  pub register_time : String
  pub contract_id : String
  pub gas_price : ℕ
  pub gas_limit : ℕ

-- Every property must be there, in the order in which they are looked at.
unfoldable pub decode_token_register_operation : Object → M ContractRegisterOperation
decode_token_register_operation op_json = do
  contract_code ← or_fail (lookup "contract_code" op_json) "contract_code not found"
  contract_code_map ← or_fail (as_object contract_code) "invalid contract_code map"
  abi_obj ← or_fail (lookup "abi" contract_code_map) "abi not found"
  abi ← or_fail (obj_to_string_array abi_obj) "abi not array<string>"
  offline_abi_obj ← or_fail (lookup "offline_abi" contract_code_map) "invalid offline_abi"
  offline_abi ← or_fail (obj_to_string_array offline_abi_obj) "invalid offline_abi"
  owner_pubkey ←
      or_fail (get_string_prop_from_json_obj op_json "owner_pubkey") "owner_pubkey not found"
  register_time ←
      or_fail (get_string_prop_from_json_obj op_json "register_time") "register_time not found"
  owner_addr ← or_fail (get_string_prop_from_json_obj op_json "owner_addr") "owner_addr not found"
  inherit_from ←
      or_fail (get_string_prop_from_json_obj op_json "inherit_from") "inherit_from not found"
  gas_price ← or_fail (get_int_prop_from_json_obj op_json "gas_price") "gasPrice not found"
  gas_limit ← or_fail (get_int_prop_from_json_obj op_json "init_cost") "init_cost not found"
  contract_id ←
      or_fail (get_string_prop_from_json_obj op_json "contract_id") "contract_id not found"
  pure (record {
    contract_code = contract_code_map;
    abi = abi;
    offline_abi = offline_abi;
    owner_pub_key = owner_pubkey;
    owner_addr = owner_addr;
    inherit_from = inherit_from;
    register_time = register_time;
    contract_id = contract_id;
    gas_price = to_unsigned 64 gas_price;
    gas_limit = to_unsigned 64 gas_limit;
  })

-- The name, the symbol and the precision of a token.
pub record TokenInfo : Type 0 where
  pub token_name : String
  pub token_symbol : String
  pub precision : ℕ

-- What was asked of the contract, or nil where the node gave an error.
abbrev pub if_ok : {A : Type 0} → Result A → Option A
if_ok (ok a) = some a
if_ok (err e) = none

abbrev name_of : Option TokenInfo → Option String
name_of none = none
name_of (some i) = some i.token_name

abbrev symbol_of : Option TokenInfo → Option String
symbol_of none = none
symbol_of (some i) = some i.token_symbol

abbrev precision_of : Option TokenInfo → Option ℕ
precision_of none = none
precision_of (some i) = some i.precision

abbrev pub token_contract :
    HxBlock → String → ContractRegisterOperation → Option TokenInfo → Option ℤ → TokenContractEntity
token_contract block txid contract_op info total_supply = record {
  id = 0;
  block_num = block.block_number % 2 ^ 32;
  block_time = block.timestamp;
  txid = txid;
  contract_id = contract_op.contract_id;
  contract_type = "common";
  owner_pubkey = contract_op.owner_pub_key;
  owner_addr = contract_op.owner_addr;
  register_time = block.timestamp;
  inherit_from = contract_op.inherit_from;
  gas_price = contract_op.gas_price;
  gas_limit = contract_op.gas_limit;
  state = none;
  total_supply = total_supply;
  precision = precision_of info;
  token_symbol = symbol_of info;
  token_name = name_of info;
  logo = none;
  url = none;
  description = none;
}

abbrev pub token_abi : List String
token_abi = "transfer" ∷ "transferFrom" ∷ "approve" ∷ []

abbrev pub token_offline_abi : List String
token_offline_abi = "balanceOf" ∷ "totalSupply" ∷ "precision" ∷ "approvedBalanceFrom" ∷ []

-- The three functions of a token, and the four that answer offline.
abbrev pub is_token_contract : ContractRegisterOperation → Bool
is_token_contract contract_op =
    is_all_in_array token_abi contract_op.abi
    && is_all_in_array token_offline_abi contract_op.offline_abi

-- The key is `config.SystemConfig.CallerPubKeyString`.
module _ (E : Env) (caller_pub_key : String) where
  unfoldable pub query_token_contract_base_info : String → M TokenInfo
  query_token_contract_base_info contract_id = do
    quoted_name ← invoke_contract_offline E caller_pub_key contract_id "tokenName" ""
    token_name ← unquoted E quoted_name
    quoted_symbol ← invoke_contract_offline E caller_pub_key contract_id "tokenSymbol" ""
    token_symbol ← unquoted E quoted_symbol
    precision_int ←
        invoke_contract_offline_with_int_result E caller_pub_key contract_id "precision" ""
    pure (record {
      token_name = token_name;
      token_symbol = token_symbol;
      precision = to_unsigned 32 precision_int;
    })

  unfoldable pub query_token_contract_total_supply : String → M ℤ
  query_token_contract_total_supply contract_id =
      invoke_contract_offline_with_int_result E caller_pub_key contract_id "totalSupply" ""

  unfoldable pub register_token_contract :
      HxBlock → String → ContractRegisterOperation → M (Unit {0})
  register_token_contract block txid contract_op = do
    info ← attempt (query_token_contract_base_info contract_op.contract_id)
    total_supply ← attempt (query_token_contract_total_supply contract_op.contract_id)
    db_token_contract ← find_token_contract_by_contract_id E contract_op.contract_id
    when_nil db_token_contract (
        save_token_contract E
          (token_contract block txid contract_op (if_ok info) (if_ok total_supply)))

  unfoldable pub register_contract :
      HxBlock → String → Object → Option HxContractOpReceipt → M (Unit {0})
  unfolding register_token_contract
  register_contract block txid op_json none = pure tt
  register_contract block txid op_json (some receipt) =
      if not receipt.exec_succeed then pure tt else do
        contract_op ← decode_token_register_operation op_json
        if is_token_contract contract_op
            then register_token_contract block txid contract_op
            else pure tt

  unfoldable pub apply_token_contract_create :
      HxBlock → String → ℕ → ℤ → String → Object → Option HxContractOpReceipt → M (Unit {0})
  unfolding register_contract
  apply_token_contract_create block txid op_num op_type op_type_name op_json receipt =
      if op_type_name == "contract_register_operation"
      then register_contract block txid op_json receipt
      else pure tt

  unfoldable pub token_contract_create_plugin : OpScannerPlugin
  unfolding apply_token_contract_create
  token_contract_create_plugin = record {
    plugin_name = "TokenContractCreateScanPlugin";
    apply_operation = apply_token_contract_create;
  }
