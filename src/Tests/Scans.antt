-- ===== src/Tests/Scans.antt =====
-- The theorems on scans, at the sample node and an empty database.
use hxscanner.Prelude.{◌≡◌, refl, [], ◌∷◌, arith}
use hxscanner.Prelude.Int.{negsuc}
use hxscanner.Db.Schema.{Db}
use hxscanner.Db.Keys.{HasKeys}
use hxscanner.Db.OpTables.{OpRows}
use hxscanner.Db.Checkpoint.{store_and_read, store_and_read-done}
use hxscanner.Exec.{done}
use hxscanner.Exec.Keeps.{Keeps, Gives}
use hxscanner.Exec.Leads.{Reliable}
use hxscanner.Exec.Quiet.{Quiet}
use hxscanner.Node.{get_block}
use hxscanner.Node.Numbers.{Numbers, Numbers-get_block}
use hxscanner.Plugins.Balance.{update_address_balance}
use hxscanner.Plugins.Keys.{Keeps-update_balance_keys}
use hxscanner.Scanner.Block.{running, run, scan_blocks_from, store_block}
use hxscanner.Scanner.Coverage.{Covered, Scanned, Stored, Gives-store_block}
use hxscanner.Scanner.Rounds.{Reached, scan_blocks_from-Scanned}
use hxscanner.Scanner.Keys.{scan_blocks_from-HasKeys}
use hxscanner.Scanner.Lives.{lives, lives-Covered, lives-HasKeys, lives-OpRows}
use hxscanner.Scanner.Registered.{plugins, plugins-Scanned, plugins-HasKeys}
use hxscanner.Tests.Sample.{node, caller, empty_world, block_with}
use hxscanner.Tests.Runs.{runs_end}

node-Reliable : Reliable node
node-Reliable n = refl

node-Quiet : Quiet node
node-Quiet n = refl

abbrev NothingKnown : Db → Type 0
NothingKnown d = Unit

lives-Covered_example :
    Covered 1 2
      (run node
        (plugins node caller)
        1
        (negsuc 0)
        (lives node (plugins node caller) (2 ∷ []) empty_world)).1.db.blocks
lives-Covered_example = lives-Covered node caller (2 ∷ []) 1 empty_world (running 2) refl runs_end.1

lives-HasKeys_example : HasKeys (lives node (plugins node caller) (3 ∷ 2 ∷ []) empty_world).db
lives-HasKeys_example = lives-HasKeys node caller node-Reliable (3 ∷ 2 ∷ []) empty_world refl

lives-OpRows_example : OpRows (lives node (plugins node caller) (3 ∷ 2 ∷ []) empty_world).db
lives-OpRows_example = lives-OpRows node caller node-Reliable (3 ∷ 2 ∷ []) empty_world refl

scan_blocks_from-Scanned_example :
    Gives
      (Scanned 1 1)
      (scan_blocks_from node (plugins node caller) 3 1)
      (Reached 1 1)
      (Scanned 1 1)
scan_blocks_from-Scanned_example =
    scan_blocks_from-Scanned node (plugins node caller) 1 (plugins-Scanned node caller) 3 1
      (omega arith)

scan_blocks_from-HasKeys_example : Keeps HasKeys (scan_blocks_from node (plugins node caller) 3 1)
scan_blocks_from-HasKeys_example =
    scan_blocks_from-HasKeys node node-Reliable (plugins node caller)
      (plugins-HasKeys node caller node-Reliable) 3 1

store_block_example :
    Gives
      (Scanned 0 0)
      (store_block node (block_with []))
      (λ u. Stored 0 0 (block_with []))
      (Scanned 0 0)
store_block_example = Gives-store_block 0 0 node (block_with [])

update_balance_example : Keeps HasKeys (update_address_balance node "HXa" "1.3.0")
update_balance_example = Keeps-update_balance_keys node node-Reliable "HXa" "1.3.0"

store_and_read_example : (store_and_read node 500 empty_world).0 ≡ done 500
store_and_read_example =
    store_and_read-done node empty_world 500 node-Quiet node-Reliable (omega arith)

get_block_example : Numbers NothingKnown 1 (get_block node 1)
get_block_example = Numbers-get_block node 1
