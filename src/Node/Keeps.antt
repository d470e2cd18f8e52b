-- ===== src/Node/Keeps.antt =====
-- The node's answers change nothing in the database.
use hxscanner.Prelude.{ℕ, String, Option, none, some}
use hxscanner.Value.{Value}
use hxscanner.Types.{HxBlock, HxTransaction}
use hxscanner.Env.{Result, ok, err, Env}
use hxscanner.Db.Schema.{Db}
use hxscanner.Exec.Keeps.{Keeps, keeps_rules}
use hxscanner.Node.{
  get_block, get_block_reply, complete_block, get_tx_receipts, list_assets, get_address_balances,
}

module _ (E : Env) {P : Db → Type 0} where
  Keeps-complete_block : (n : ℕ) (o : Option HxBlock) → Keeps P (complete_block E n o)
  unfolding complete_block
  Keeps-complete_block n none = search keeps_rules
  Keeps-complete_block n (some b) = search keeps_rules

  Keeps-get_block_reply : (n : ℕ) (r : Result Value) → Keeps P (get_block_reply E n r)
  unfolding get_block_reply
  Keeps-get_block_reply n (err e) = search keeps_rules
  Keeps-get_block_reply n (ok v) = search (keeps_rules, Keeps-complete_block)

  pub Keeps-get_block : (n : ℕ) → Keeps P (get_block E n)
  unfolding get_block
  Keeps-get_block n = search (keeps_rules, Keeps-get_block_reply) depth 7

  pub Keeps-get_tx_receipts : (tx : HxTransaction) → Keeps P (get_tx_receipts E tx)
  unfolding get_tx_receipts
  Keeps-get_tx_receipts tx = search keeps_rules depth 7

  pub Keeps-list_assets : (offset limit : ℕ) → Keeps P (list_assets E offset limit)
  unfolding list_assets
  Keeps-list_assets offset limit = search keeps_rules depth 8

  pub Keeps-get_address_balances : (addr : String) → Keeps P (get_address_balances E addr)
  unfolding get_address_balances
  Keeps-get_address_balances addr = search keeps_rules depth 7
