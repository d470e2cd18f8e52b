-- ===== src/Tests/Advances.antt =====
-- The theorems on how far a scan comes, at a node that has every block, each with one transaction, without operations
-- or with a transfer.
use hxscanner.Prelude.{ℕ, some, ◌+◌, ◌≤◌, ◌≡◌, refl, [], ◌∷◌, arith}
use hxscanner.Value.{null}
use hxscanner.Types.{HxTransaction, HxFullTransactionExtraInfo}
use hxscanner.Env.{ok, Env}
use hxscanner.Exec.{done}
use hxscanner.Exec.Leads.{Reliable}
use hxscanner.Exec.Quiet.{Quiet}
use hxscanner.Scanner.Block.{run, scan_blocks_from, running}
use hxscanner.Scanner.Loops.{next_block}
use hxscanner.Scanner.Ends.{scan_blocks_from-Within}
use hxscanner.Exec.Completes.{Completes}
use hxscanner.Scanner.Progress.{NumberIds, HasBlockReply}
use hxscanner.Scanner.Steady.{plugins-NumberIds, scan_blocks_from-steady}
use hxscanner.Scanner.Plain.{HasPlainBlock, scan_blocks_from-advances}
use hxscanner.Prelude.Int.{negsuc}
use hxscanner.Exec.Keeps.{Gives}
use hxscanner.Scanner.Refines.{At, ComesTo, Passes, scan_blocks_from-refines}
use hxscanner.Scanner.Behind.{start, Advanced, Behind, run-Behind}
use hxscanner.Scanner.Registered.{plugins, plugins-At}
use hxscanner.Tests.Sample.{node, caller, empty_world, transfer, block_with}

abbrev empty_transaction : HxTransaction
empty_transaction = record transfer { operations = [] }

abbrev full_info : HxFullTransactionExtraInfo
full_info = record { block_num = 1; trxid = "t1"; contract_id = "" }

abbrev full_node : Env
full_node = record node {
  call = λ t method args. ok null;
  decode_block = λ v. ok (some (block_with (empty_transaction ∷ [])));
  decode_full_txs = λ v. ok (full_info ∷ []);
}

full_node-Quiet : Quiet full_node
full_node-Quiet n = refl

full_node-Reliable : Reliable full_node
full_node-Reliable n = refl

full_node-HasBlockReply : (n : ℕ) → HasBlockReply full_node n
full_node-HasBlockReply n = record {
  reply = null;
  block = block_with (empty_transaction ∷ []);
  called = λ t. refl;
  decoded = refl;
  full_reply = null;
  infos = full_info ∷ [];
  called_full = λ t. refl;
  decoded_full = refl;
}

full_node-HasPlainBlock : (n : ℕ) → HasPlainBlock full_node n
unfolding full_node-HasBlockReply
full_node-HasPlainBlock n = record { has = full_node-HasBlockReply n; plain = (refl, tt) }

-- A node whose blocks have a transfer each.
abbrev busy_node : Env
busy_node = record full_node { decode_block = λ v. ok (some (block_with (transfer ∷ []))) }

busy_node-HasBlockReply : (n : ℕ) → HasBlockReply busy_node n
busy_node-HasBlockReply n = record {
  reply = null;
  block = block_with (transfer ∷ []);
  called = λ t. refl;
  decoded = refl;
  full_reply = null;
  infos = full_info ∷ [];
  called_full = λ t. refl;
  decoded_full = refl;
}

scan_steady_example :
    Completes NumberIds
      (scan_blocks_from busy_node (plugins busy_node caller) 3 1)
      (λ s d. s ≡ running 4)
scan_steady_example =
    scan_blocks_from-steady busy_node (plugins busy_node caller) 3 1 (λ n. refl) (λ n. refl)
      (λ t. refl) (λ t. refl) (plugins-NumberIds busy_node caller)
      (λ m lo hi. busy_node-HasBlockReply m)

scan_advances :
    (scan_blocks_from full_node (plugins full_node caller) 3 1 empty_world).0 ≡ done (running 4)
scan_advances =
    scan_blocks_from-advances full_node (plugins full_node caller) 3 1 empty_world full_node-Quiet
      full_node-Reliable (λ t. refl) (λ t. refl) (λ m lo hi. full_node-HasPlainBlock m) tt

scan_within_example : (1 ≤ 4) × (4 ≤ 1 + 3)
scan_within_example =
    scan_blocks_from-Within full_node (plugins full_node caller) 3 1 empty_world (running 4)
      scan_advances

run-Behind_example :
    Gives
      (At 0)
      (run node (plugins node caller) 5 (negsuc 0))
      (λ s. Behind 0 (next_block s))
      (Advanced 0)
run-Behind_example =
    run-Behind node (plugins node caller) 5 0 (λ n. refl) (omega arith) (plugins-At node caller)

scan_refines_example :
    Gives
      (At 0)
      (scan_blocks_from node (plugins node caller) 5 1)
      (ComesTo (start 0))
      (Passes (start 0))
scan_refines_example =
    scan_blocks_from-refines node (λ n. refl) (plugins node caller) (plugins-At node caller) 5
      (start 0) (omega arith)
