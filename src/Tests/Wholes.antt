-- ===== src/Tests/Wholes.antt =====
-- The theorem on what is in the blocks that a scan has passed, at the sample node.
use mathlib.Core.Bool.{false≢true}
use hxscanner.Prelude.{ℕ, zero, suc, ◌≡◌, refl, true, [], ◌∷◌, All, none, some, Option}
use hxscanner.Prelude.Int.{pos, negsuc}
use hxscanner.Strconv.{parse_int, parse_nat, parse_digits}
use hxscanner.Value.{number, obj, fields}
use hxscanner.Types.{HxBlock}
use hxscanner.Exec.{
  Outcome, done, World, pure, fail, panic, lift, attempt, ◌>>=◌, ask, connected, call,
}
use hxscanner.Node.{
  get_block, complete_block, get_block_reply, number_transactions, fill_transactions,
  check_transaction_has_contract_op, is_contract_item, is_contract_op_type,
}
use hxscanner.Node.Names.{get_operation_name_by_operation_type}
use hxscanner.Scanner.Block.{running}
use hxscanner.Scanner.Progress.{completed}
use hxscanner.Scanner.WellFormed.{GoodPair, GoodTransaction}
use hxscanner.Scanner.CompleteScan.{Chain, WholeUpTo, scan_blocks_from-WholeUpTo}
use hxscanner.Scanner.Block.{run, scan_blocks_from}
use hxscanner.Scanner.Lives.{lives}
use hxscanner.Scanner.CompleteLives.{OnceUpTo, lives-WholeUpTo, lives-OnceUpTo}
use hxscanner.Exec.Leads.{Reliable}
use hxscanner.Scanner.Registered.{plugins}
use hxscanner.Exec.Quiet.{Quiet}
use hxscanner.Tests.Sample.{node, caller, empty_world, block_with, transfer, transfer_json}
use hxscanner.Tests.Runs.{runs_end}

node_block : ℕ → HxBlock
node_block zero = block_with []
node_block (suc zero) =
    completed 1 (record { block_num = 1; trxid = "t1"; contract_id = "" } ∷ [])
      (block_with (transfer ∷ []))
node_block (suc (suc n)) = completed (suc (suc n)) [] (block_with [])

transfer-GoodPair : GoodPair (number "0" ∷ obj (fields transfer_json) ∷ [])
unfolding parse_int parse_nat parse_digits get_operation_name_by_operation_type
transfer-GoodPair = record {
  digits = "0";
  json = obj (fields transfer_json);
  is_pair = refl;
  op_type = pos 0;
  parsed = refl;
  object = transfer_json;
  is_object = refl;
  name = "transfer_operation";
  named = refl;
}

no_contract :
    {A : Type 0}
    → check_transaction_has_contract_op (record transfer { trxid = "t1"; block_num = 1 }) ≡ true
    → A
unfolding check_transaction_has_contract_op is_contract_item is_contract_op_type parse_int parse_nat
    parse_digits
no_contract h = absurd (false≢true h)

node_good : (k : ℕ) → All (GoodTransaction node) (node_block k).transactions
unfolding node_block number_transactions fill_transactions
node_good zero = tt
node_good (suc zero) =
    (record { pairs = (transfer-GoodPair, tt); answered = λ h. no_contract h }, tt)
node_good (suc (suc n)) = tt

result-same : {A : Type 0} (a b : A) → done (some a) ≡ done (some b) → b ≡ a
result-same a b h = cc

abbrev nothing : Outcome (Option HxBlock)
nothing = done none

no_block : (b c : HxBlock) → nothing ≡ done (some b) → b ≡ c
no_block b c h = cc

node_same :
    (k : ℕ) (w : World) (b : HxBlock) → (get_block node k w).0 ≡ done (some b) → b ≡ node_block k
unfolding node_block get_block complete_block get_block_reply number_transactions fill_transactions
    connected call ask attempt lift pure fail panic ◌>>=◌
node_same zero w b h = no_block b _ h
node_same (suc zero) w b h = result-same _ b h
node_same (suc (suc zero)) w b h = result-same _ b h
node_same (suc (suc (suc n))) w b h = no_block b _ h

node_chain : Chain node
node_chain = record { block = node_block; good = node_good; same = node_same }

node_silent : Quiet node
node_silent n = refl

scan_blocks_from-WholeUpTo_example :
    WholeUpTo node_chain 1 3 (scan_blocks_from node (plugins node caller) 2 1 empty_world).1.db
scan_blocks_from-WholeUpTo_example =
    scan_blocks_from-WholeUpTo node caller node_silent node_chain 2 1 empty_world (running 3)
      runs_end.0

lives-WholeUpTo_example :
    WholeUpTo node_chain 1 2
      (run node
        (plugins node caller)
        1
        (negsuc 0)
        (lives node (plugins node caller) (2 ∷ []) empty_world)).1.db
lives-WholeUpTo_example =
    lives-WholeUpTo node caller node_silent node_chain (2 ∷ []) 1 empty_world (running 2) refl
      runs_end.1

node_steady : Reliable node
node_steady n = refl

lives-OnceUpTo_example :
    OnceUpTo node_chain 1 2
      (run node
        (plugins node caller)
        1
        (negsuc 0)
        (lives node (plugins node caller) (2 ∷ []) empty_world)).1.db
lives-OnceUpTo_example =
    lives-OnceUpTo node caller node_chain (2 ∷ []) 1 empty_world (running 2) node_silent node_steady
      refl runs_end.1
