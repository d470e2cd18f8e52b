-- ===== src/Plugins/TokenKeeps.antt =====
-- What the plugin for new token contracts leaves alone, and that it stores no contract twice.
use hxscanner.Prelude.{String, Option, none, some}
use hxscanner.Value.{Object}
use hxscanner.Types.{HxBlock, HxContractOpReceipt}
use hxscanner.Env.{Env}
use hxscanner.Db.Table.{Table}
use hxscanner.Db.Schema.{Db, TokenContractEntity}
use hxscanner.Db.Keys.{HasKeys, contract_key}
use hxscanner.Db.UniqueTokens.{Leads-save_token_contract}
use hxscanner.Db.FindOrSave.{Keeps-find_or_save, Gives-Missing}
use hxscanner.Db.Tokens.{find_token_contract_by_contract_id, save_token_contract}
use hxscanner.Exec.{◌>>=◌, when_nil}
use hxscanner.Exec.Keeps.{
  Keeps, Keeps-pure, Keeps-bind, Keeps-if, Keeps-attempt, Keeps-query_row, Keeps-exec,
  Keeps-when_nil, keeps_rules,
}
use hxscanner.Exec.Leads.{Reliable}
use hxscanner.Node.{invoke_contract_offline, invoke_contract_offline_with_int_result}
use hxscanner.Plugins.TokenCreate.{
  ContractRegisterOperation, decode_token_register_operation, query_token_contract_base_info,
  query_token_contract_total_supply, register_token_contract, register_contract, is_token_contract,
  token_contract_create_plugin, token_contract, if_ok,
}
use hxscanner.Scanner.Keeps.{KeepsPlugin}

Keeps-decode_token_register_operation :
    {P : Db → Type 0} (op_json : Object) → Keeps P (decode_token_register_operation op_json)
unfolding decode_token_register_operation
Keeps-decode_token_register_operation op_json = search keeps_rules depth 30

module _ (E : Env) (key : String) {P : Db → Type 0} where
  Keeps-invoke_contract_offline :
      (id api arg : String) → Keeps P (invoke_contract_offline E key id api arg)
  unfolding invoke_contract_offline
  Keeps-invoke_contract_offline id api arg = search keeps_rules depth 7

  pub Keeps-invoke_with_int_result :
      (id api arg : String) → Keeps P (invoke_contract_offline_with_int_result E key id api arg)
  unfolding invoke_contract_offline_with_int_result
  Keeps-invoke_with_int_result id api arg =
      search (keeps_rules, Keeps-invoke_contract_offline) depth 8

  pub Keeps-query_base_info : (id : String) → Keeps P (query_token_contract_base_info E key id)
  unfolding query_token_contract_base_info
  Keeps-query_base_info id =
      search (keeps_rules, Keeps-invoke_contract_offline, Keeps-invoke_with_int_result) depth 12

  pub Keeps-query_total_supply :
      (id : String) → Keeps P (query_token_contract_total_supply E key id)
  unfolding query_token_contract_total_supply
  Keeps-query_total_supply id = Keeps-invoke_with_int_result id "totalSupply" ""

  -- The queries and then the find-or-save statements of a contract.
  Keeps-register_if_stored :
      (block : HxBlock) (txid : String) (op : ContractRegisterOperation)
      → ((t : TokenContractEntity)
          → Keeps P (
              find_token_contract_by_contract_id E t.contract_id >>= λ o.
              when_nil o (save_token_contract E t)))
      → Keeps P (register_token_contract E key block txid op)
  unfolding register_token_contract
  Keeps-register_if_stored block txid op stored =
      Keeps-bind _ _ (Keeps-attempt _ (Keeps-query_base_info op.contract_id)) λ info.
        Keeps-bind _ _ (Keeps-attempt _ (Keeps-query_total_supply op.contract_id))
          λ supply. stored (token_contract block txid op (if_ok info) (if_ok supply))

  module _
      (stored : (t : TokenContractEntity)
        → Keeps P (
            find_token_contract_by_contract_id E t.contract_id >>= λ o.
            when_nil o (save_token_contract E t))) where
    Keeps-register_contract :
        (block : HxBlock) (txid : String) (op_json : Object) (r : Option HxContractOpReceipt)
        → Keeps P (register_contract E key block txid op_json r)
    unfolding register_contract
    Keeps-register_contract block txid op_json none = Keeps-pure tt
    Keeps-register_contract block txid op_json (some r) = Keeps-if _ _ _ (Keeps-pure tt) (
        Keeps-bind _ _ (Keeps-decode_token_register_operation op_json) λ op.
          Keeps-if (is_token_contract op) _ _ (Keeps-register_if_stored block txid op stored)
            (Keeps-pure tt))

    pub KeepsPlugin-token_contract_create : KeepsPlugin P (token_contract_create_plugin E key)
    unfolding token_contract_create_plugin
    KeepsPlugin-token_contract_create = record {
      applied = λ block txid n t name op_json receipt.
          Keeps-if _ _ _ (Keeps-register_contract block txid op_json receipt) (Keeps-pure tt);
    }

  -- An invariant that does not read the table of token contracts.
  pub KeepsPlugin-token_contract_create_apart :
      ((d : Db) (t : Table TokenContractEntity) → P d → P (record d { token_contracts = t }))
      → KeepsPlugin P (token_contract_create_plugin E key)
  unfolding find_token_contract_by_contract_id save_token_contract
  KeepsPlugin-token_contract_create_apart k = KeepsPlugin-token_contract_create λ t.
      Keeps-bind _ _ (Keeps-query_row E _ _)
        λ o. Keeps-when_nil o _ (Keeps-exec E _ (λ d h. k d _ h))

module _ (E : Env) (rel : Reliable E) (key : String) where
  -- A contract is stored once.
  pub KeepsPlugin-token_contract_create_keys :
      KeepsPlugin HasKeys (token_contract_create_plugin E key)
  unfolding find_token_contract_by_contract_id
  KeepsPlugin-token_contract_create_keys = KeepsPlugin-token_contract_create E key λ t.
      Keeps-find_or_save (λ d. d.token_contracts.rows) (contract_key t.contract_id) _ _
        (Gives-Missing E rel (λ d. d.token_contracts.rows) (contract_key t.contract_id))
        (Leads-save_token_contract E t)
