-- ===== src/Scanner/Loops.antt =====
-- An invariant that the statements of the scanner and the plugins keep is kept by the loop over the blocks.
use hxscanner.Prelude.{Bool, true, false, ℕ, zero, suc, Option, none, some, List, if◌then◌else◌}
use hxscanner.Prelude.Int.{ℤ, pos}
use hxscanner.Types.{HxBlock}
use hxscanner.Env.{Result, ok, err, Env}
use hxscanner.Exec.{pure}
use hxscanner.Exec.Keeps.{
  Keeps, Keeps-pure, Keeps-bind, Keeps-if, Keeps-attempt, Keeps-or_exit, Keeps-ask, Gives, Tried,
  Gives-bind, Gives-invariant, Gives-attempt,
}
use hxscanner.Exec.Leads.{Gives-after}
use hxscanner.Db.Schema.{Db}
use hxscanner.Db.Configs.{update_last_scanned_block_number}
use hxscanner.Node.Keeps.{Keeps-get_block}
use hxscanner.Scanner.Operation.{OpScannerPlugin}
use hxscanner.Scanner.Block.{
  store_block, fix_previous_block, checkpoint, process_block, scan_round, scan_blocks_from, before,
  running, stopped, Scan,
}
use hxscanner.Scanner.Keeps.{KeepsPlugins, KeepsStores, Keeps-until_break, Keeps-scan_tx}

-- The number of the next block.
abbrev pub next_block : Scan → ℕ
next_block (running n) = n
next_block (stopped n) = n

-- What the scanner stores for a block keeps `P`.
pub record KeepsBlocks (E : Env) (P : Db → Type 0) : Type 0 where
  pub blocks : (b : HxBlock) → Keeps P (store_block E b)
  pub previous : (b : HxBlock) → Keeps P (fix_previous_block E b)
  pub checkpoints : (n : ℤ) → Keeps P (update_last_scanned_block_number E n)
  pub stores : KeepsStores E P

module _ (E : Env) {P : Db → Type 0} (S : KeepsBlocks E P) (ps : List OpScannerPlugin)
    (plugins : KeepsPlugins P ps) where
  Keeps-process_block : (n : ℕ) (o : Option HxBlock) → Keeps P (process_block E ps n o)
  unfolding process_block checkpoint
  Keeps-process_block n none =
      Keeps-bind _ _ (Keeps-or_exit _ (S.checkpoints (before n))) (λ _. Keeps-pure n)
  Keeps-process_block n (some b) = Keeps-bind _ _ (S.blocks b) λ _.
      Keeps-bind _ _ (S.previous b) λ _.
        Keeps-bind _ _
          (Keeps-until_break _ zero b.transactions (Keeps-scan_tx E S.stores ps plugins b))
          λ _.
            Keeps-bind _ _
              (Keeps-if _ _ _ (Keeps-or_exit _ (S.checkpoints (pos n))) (Keeps-pure tt))
              (λ _. Keeps-pure (suc n))

  pub Keeps-scan_round : (n : ℕ) → Keeps P (scan_round E ps n)
  unfolding scan_round
  Keeps-scan_round n = Keeps-bind _ _ (Keeps-get_block E n) (Keeps-process_block n)

  pub Keeps-scan_blocks_from : (rounds n : ℕ) → Keeps P (scan_blocks_from E ps rounds n)
  unfolding scan_blocks_from
  Keeps-scan_blocks_from zero n = Keeps-pure (running n)
  Keeps-scan_blocks_from (suc rounds) n = Keeps-bind _ _ (Keeps-ask _) λ end.
      Keeps-bind _ _ (Keeps-attempt _ (Keeps-scan_round n))
        (part end (Keeps-scan_blocks_from rounds))
    where
      part :
          (end : Bool)
          → ((m : ℕ) → Keeps P (scan_blocks_from E ps rounds m))
          → (r : Result ℕ)
          → Keeps P (elim r [
            | err e ↦ pure (stopped n)
            | ok next ↦ if end then pure (stopped next) else scan_blocks_from E ps rounds next
          ])
      part end ih (err e) = Keeps-pure _
      part end ih (ok next) = Keeps-if end _ _ (Keeps-pure _) (ih next)

module _ (E : Env) (ps : List OpScannerPlugin) {P : ℕ → Db → Type 0} {I : Db → Type 0} where
  -- What each round says of the next block's number, whether it returns or fails, the loop says of the block
  -- before which it stands.
  pub Gives-rounds :
      ((n : ℕ) (d : Db) → P n d → I d)
      → ((n : ℕ) → Gives (P n) (scan_round E ps n) P (P n))
      → (rounds n : ℕ) → Gives (P n) (scan_blocks_from E ps rounds n) (λ s. P (next_block s)) I
  unfolding scan_blocks_from pure
  Gives-rounds imp round zero n = record { from = λ w h. h }
  Gives-rounds imp round (suc rounds) n = Gives-after _ _ (imp n) (Keeps-ask _) λ end.
      Gives-bind _ _ (Gives-invariant _ (imp n) (Gives-attempt _ (round n)))
        (part end (Gives-rounds imp round rounds))
    where
      part :
          (end : Bool)
          → ((m : ℕ) → Gives (P m) (scan_blocks_from E ps rounds m) (λ s. P (next_block s)) I)
          → (r : Result ℕ)
          → Gives
              (Tried P (P n) r)
              (elim r [
                | err e ↦ pure (stopped n)
                | ok next ↦ if end then pure (stopped next) else scan_blocks_from E ps rounds next
              ])
              (λ s. P (next_block s))
              I
      part end later (err e) = record { from = λ w h. h }
      part true later (ok next) = record { from = λ w h. h }
      part false later (ok next) = later next
