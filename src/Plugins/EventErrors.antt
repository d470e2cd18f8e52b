-- ===== src/Plugins/EventErrors.antt =====
-- Which error of a receipt's events comes back from the plugin for calls of token contracts.
use hxscanner.Prelude.{ℕ, String, Option, List}
use hxscanner.Types.{HxBlock, HxContractOpReceiptEvent}
use hxscanner.Env.{Env}
use hxscanner.Db.Schema.{TokenContractEntity}
use hxscanner.Db.Tokens.{find_token_contract_by_contract_id}
use hxscanner.Exec.{M, ◌>>=◌}
use hxscanner.Plugins.TokenInvoke.{MaybeError}
use hxscanner.Plugins.TokenEvents.{process_event, process_events}

module _ (E : Env) (caller_pub_key : String) (block : HxBlock) (txid : String)
    (op_num tx_time : ℕ) where
  abbrev token_of : HxContractOpReceiptEvent → M (Option TokenContractEntity)
  token_of v = find_token_contract_by_contract_id E v.contract_address

  abbrev step : HxContractOpReceiptEvent → Option TokenContractEntity → M MaybeError
  step = process_event E caller_pub_key block txid op_num tx_time

  abbrev steps : List (Option HxContractOpReceiptEvent) → MaybeError → M MaybeError
  steps = process_events E caller_pub_key block txid op_num tx_time

  abbrev last_step : HxContractOpReceiptEvent → MaybeError → M MaybeError
  last_step v forgotten = token_of v >>= step v
