-- ===== src/Scanner/Rounds.antt =====
-- The rounds of `ScanBlocksFrom`, and restarts from the stored checkpoint.
use mathlib.Core.Path.{subst}
use native.Mathlib.Nat.{le_trans}
use hxscanner.Prelude.{
  ℕ, zero, suc, ◌⊎◌, inl, inr, eqb_refl, Bool-cases, ◌≤◌, ◌<◌, ◌≡◌, refl, sym, true, false, Option,
  none, some, List, eqb, eqb→eq, arith,
}
use hxscanner.Prelude.Int.{pos}
use hxscanner.Types.{HxBlock}
use hxscanner.Env.{Env}
use hxscanner.Exec.{pure}
use hxscanner.Exec.Keeps.{
  Keeps, Keeps-pure, Keeps-if, Keeps-or_exit, Gives, Gives-bind, Gives-weaken, Gives-assume,
  Gives-invariant,
}
use hxscanner.Exec.Leads.{Gives-after}
use hxscanner.Db.Schema.{Db}
use hxscanner.Node.Numbers.{Numbered, Numbers-get_block}
use hxscanner.Scanner.Operation.{OpScannerPlugin}
use hxscanner.Scanner.Block.{
  scan_tx, until_break, checkpoint, process_block, scan_round, scan_blocks_from, Scan,
}
use hxscanner.Scanner.Keeps.{KeepsPlugins, Keeps-until_break, Keeps-scan_tx}
use hxscanner.Scanner.Loops.{next_block, Gives-rounds}
use hxscanner.Scanner.Stores.{KeepsStores-apart}
use hxscanner.Scanner.Coverage.{
  Scanned, HasBlock, Gives-store_block, Keeps-fix_previous_block-Scanned, Keeps-update_last-Scanned,
}

-- What is known after a number of rounds from block n.
abbrev pub Reached : ℕ → ℕ → Scan → Db → Type 0
Reached lo n s d = (n ≤ next_block s) × Scanned lo (next_block s) d

Scanned-fewer : (lo m n : ℕ) (d : Db) → m ≤ n → Scanned lo n d → Scanned lo m d
Scanned-fewer lo m n d h s = (λ k l u. s.0 k l (le_trans u h), s.1)

Scanned-next : (lo n : ℕ) (d : Db) → Scanned lo n d → HasBlock n d.blocks → Scanned lo (suc n) d
Scanned-next lo n d s b = (λ k l u. part k l (Bool-cases (eqb k n)) u, s.1)
  where
    part : (k : ℕ) → lo ≤ k → (eqb k n ≡ true) ⊎ (eqb k n ≡ false) → k < suc n → HasBlock k d.blocks
    part k l (inl e) u = subst (λ m. HasBlock m d.blocks) (sym (eqb→eq k n e)) b
    part k l (inr e) u = s.0 k l (ground (arith, eqb_refl n))

module _ (E : Env) (ps : List OpScannerPlugin) (lo : ℕ)
    (keep : (n : ℕ) → KeepsPlugins (Scanned lo n) ps) where
  Keeps-scan_txs :
      (n : ℕ) (b : HxBlock)
      → Keeps (Scanned lo n) (until_break (scan_tx E ps b) zero b.transactions)
  Keeps-scan_txs n b = Keeps-until_break _ zero b.transactions (
      Keeps-scan_tx E
        (KeepsStores-apart E (λ d t h. h) (λ d t h. h) (λ d t h. h) (λ d t h. h) (λ d t h. h)) ps
        (keep n) b)

  -- The rest of a round, once the block is stored.
  Keeps-checkpoint : (n : ℕ) → Keeps (Scanned lo (suc n)) (checkpoint E n)
  unfolding checkpoint
  Keeps-checkpoint n =
      Keeps-if _ _ _ (Keeps-or_exit _ (Keeps-update_last-Scanned lo (suc n) E (pos n) (λ d h. h)))
        (Keeps-pure tt)

  -- The round of a block that the node has, or of one that it does not have yet.
  Gives-process_block :
      (n : ℕ)
      → 1 ≤ n
      → (o : Option HxBlock) → Numbered n o
      → Gives
          (Scanned lo n)
          (process_block E ps n o)
          (λ m d. (n ≤ m) × Scanned lo m d)
          (Scanned lo n)
  unfolding process_block pure
  Gives-process_block zero h none is = absurd (omega arith)
  Gives-process_block (suc m) h none is =
      Gives-after _ _ (λ d s. s)
        (Keeps-or_exit _ (Keeps-update_last-Scanned lo (suc m) E (pos m) (λ d c. c)))
        (λ _. record { from = λ w s. (omega arith, s) })
  Gives-process_block n h (some b) is = Gives-bind _ _ (Gives-store_block lo n E b) λ _.
      Gives-assume _
        (λ d s. Scanned-next lo n d s.0 (subst (λ k. HasBlock k d.blocks) (is b refl).number s.1))
        (Gives-invariant _ (λ d. Scanned-fewer lo n (suc n) d (omega arith))
          (Gives-after _ _ (λ d s. s) (Keeps-fix_previous_block-Scanned lo (suc n) E b)
            λ _.
              Gives-after _ _ (λ d s. s) (Keeps-scan_txs (suc n) b)
                λ _.
                  Gives-after _ _ (λ d s. s) (Keeps-checkpoint n)
                    λ _. record { from = λ w s. (omega arith, s) }))

  Gives-scan_round :
      (n : ℕ)
      → 1 ≤ n
      → Gives (Scanned lo n) (scan_round E ps n) (λ m d. (n ≤ m) × Scanned lo m d) (Scanned lo n)
  unfolding scan_round
  Gives-scan_round n h =
      Gives-bind _ _ (Numbers-get_block E n)
        λ o. record { from = λ w s. (Gives-process_block n h o s.1).from w s.0 }

  -- Let every block from `lo` to n - 1 be stored, the checkpoint be no further, and each plugin keep such
  -- facts. Then, however the scan from block n ends, this still holds, and when it returns, standing before
  -- block m, then m is not less than n, every block from `lo` to m - 1 is stored, and the checkpoint has
  -- only stored blocks up to it.
  pub scan_blocks_from-Scanned :
      (rounds n : ℕ)
      → 1 ≤ n
      → Gives (Scanned lo n) (scan_blocks_from E ps rounds n) (Reached lo n) (Scanned lo n)
  scan_blocks_from-Scanned rounds n h = record {
    from = λ w s.
        (Gives-rounds E ps (λ m d r. Scanned-fewer lo n m d r.0 r.1) round rounds n).from w
          (omega arith, s);
  }
    where
      round :
          (m : ℕ)
          → Gives
              (λ d. (n ≤ m) × Scanned lo m d)
              (scan_round E ps m)
              (λ next d. (n ≤ next) × Scanned lo next d)
              (λ d. (n ≤ m) × Scanned lo m d)
      round m = record {
        from = λ w s.
            (Gives-invariant _ (λ d t. (s.0, t))
                (Gives-weaken _ (λ next d r. (le_trans s.0 r.0, r.1))
                  (Gives-scan_round m (le_trans h s.0)))).from
              w s.1;
      }
