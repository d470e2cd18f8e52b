-- ===== src/Scanner/Block.antt =====
-- One block, and the loop over the blocks of `ScanBlocksFrom`.
use hxscanner.Prelude.{
  ℕ, zero, suc, ◌-◌, ◌%◌, ◌^◌, ◌||◌, Option, none, some, List, [], ◌∷◌, ◌==◌, eqb, ltb,
  if◌then◌else◌,
}
use hxscanner.Prelude.Int.{ℤ, pos, negsuc}
use hxscanner.Types.{HxBlock, HxTransaction, HxContractOpReceipt, HxContractTxReceipt}
use hxscanner.Env.{ok, err, Env}
use hxscanner.Db.Schema.{BlockEntity}
use hxscanner.Db.Configs.{get_last_scanned_block_number, update_last_scanned_block_number}
use hxscanner.Db.Blocks.{
  find_block, save_block, update_block_hash, find_transaction, save_transaction,
}
use hxscanner.Db.Receipts.{find_contract_op_receipt, save_contract_op_receipt}
use hxscanner.Node.{get_block, get_tx_receipts, check_transaction_has_contract_op}
use hxscanner.Scanner.Operation.{OpScannerPlugin, scan_op}
use hxscanner.Exec.{M, pure, panic, attempt, or_exit, ◌>>=◌, ◌>>◌, ask, when_nil}

-- A loop that leaves at the first iteration that breaks.
unfoldable pub until_break : {A : Type 0} → (ℕ → A → M (Unit {0})) → ℕ → List A → M (Unit {0})
until_break body i [] = pure tt
until_break body i (a ∷ rest) = do
  r ← attempt (body i a)
  elim r [ err e ↦ pure tt | ok _ ↦ until_break body (suc i) rest ]

-- `scannedBlockNum - 1`
abbrev pub before : ℕ → ℤ
before zero = negsuc 0
before (suc n) = pos n

-- How the loop over the blocks stands after some rounds.
pub data Scan : Type 0 where
  running : ℕ → Scan
  stopped : ℕ → Scan

module _ (E : Env) where
  -- The id of the block before, which is known from its successor.
  abbrev pub fill_hash : HxBlock → Option BlockEntity → M (Unit {0})
  fill_hash block none = pure tt
  fill_hash block (some prev_block) =
      if (prev_block.block_id == "") || (prev_block.block_id == "TODO")
      then update_block_hash E prev_block.number block.previous
      else pure tt

  unfoldable pub fix_previous_block : HxBlock → M (Unit {0})
  fix_previous_block block =
      if ltb 1 block.block_number
      then (do prev_block ← find_block E (block.block_number - 1); fill_hash block prev_block)
      else pure tt

  unfoldable pub store_block : HxBlock → M (Unit {0})
  store_block block = do
    old_block ← find_block E block.block_number
    when_nil old_block (save_block E block)

  unfoldable pub store_transaction : HxTransaction → M (Unit {0})
  store_transaction tx = do
    old_tx ← find_transaction E tx.trxid
    when_nil old_tx (save_transaction E tx)

  unfoldable pub store_receipt : HxContractOpReceipt → M (Unit {0})
  store_receipt op_receipt = do
    old_db_op_receipt ← or_exit (find_contract_op_receipt E op_receipt.trxid op_receipt.op_num)
    when_nil old_db_op_receipt (or_exit (save_contract_op_receipt E op_receipt))

  -- A receipt behind a nil pointer is dereferenced.
  unfoldable pub store_receipts : List (Option HxContractOpReceipt) → M (Unit {0})
  unfolding store_receipt
  store_receipts [] = pure tt
  store_receipts (none ∷ rs) = panic
  store_receipts (some op_receipt ∷ rs) = do store_receipt op_receipt; store_receipts rs

  abbrev pub store_tx_receipts : Option HxContractTxReceipt → M (Unit {0})
  store_tx_receipts none = pure tt
  store_tx_receipts (some tx_receipts) = store_receipts tx_receipts.op_receipts

  unfoldable pub scan_tx : List OpScannerPlugin → HxBlock → ℕ → HxTransaction → M (Unit {0})
  scan_tx plugins block tx_index tx = do
    let tx_info = record tx { block_num = block.block_number % 2 ^ 32 }
    tx_receipts ←
        if check_transaction_has_contract_op tx_info then get_tx_receipts E tx_info else pure none
    store_transaction tx_info
    until_break (scan_op E plugins block tx_info.trxid tx_index tx_receipts) zero tx_info.operations
    store_tx_receipts tx_receipts

  unfoldable pub checkpoint : ℕ → M (Unit {0})
  checkpoint n =
      if eqb (n % 100) 0 then or_exit (update_last_scanned_block_number E (pos n)) else pure tt

  -- A block of the node, or none, at which the loop waits for the node.
  unfoldable pub process_block : List OpScannerPlugin → ℕ → Option HxBlock → M ℕ
  process_block plugins n none = do or_exit (update_last_scanned_block_number E (before n)); pure n
  process_block plugins n (some block) = do
    store_block block
    fix_previous_block block
    until_break (scan_tx plugins block) zero block.transactions
    checkpoint n
    pure (suc n)

  -- One round of the loop over the blocks; the result is the next block's number.
  unfoldable pub scan_round : List OpScannerPlugin → ℕ → M ℕ
  scan_round plugins n = do block ← get_block E n; process_block plugins n block

  -- `break` in the `select` leaves the `select` alone: the round goes on, and the next one ends the loop.
  unfoldable pub scan_blocks_from : List OpScannerPlugin → ℕ → ℕ → M Scan
  scan_blocks_from plugins zero n = pure (running n)
  scan_blocks_from plugins (suc rounds) n = do
    end ← ask E.cancelled
    r ← attempt (scan_round plugins n)
    elim r [
      | err e ↦ pure (stopped n)
      | ok next ↦ if end then pure (stopped next) else scan_blocks_from plugins rounds next
    ]

  abbrev pub chosen_start : ℤ → ℕ → ℕ
  chosen_start (pos n) last = n % 2 ^ 32
  chosen_start (negsuc n) last = last

  -- The goroutine of `main`: from the checkpoint, or from the block before `-scan_from`.
  unfoldable pub run : List OpScannerPlugin → ℕ → ℤ → M Scan
  run plugins rounds scan_from = do
    last_scanned_block_num ← or_exit (get_last_scanned_block_number E)
    scan_blocks_from plugins rounds (suc (chosen_start scan_from last_scanned_block_num))
