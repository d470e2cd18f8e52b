-- ===== src/Scanner/Steady.antt =====
-- The scan of any blocks that the node has: it does not wait, skip a block, or stop before its end.
use mathlib.Core.Path.{subst}
use hxscanner.Prelude.{
  ℕ, zero, suc, ◌+◌, ◌≤◌, ◌<◌, ◌≡◌, refl, ap, true, false, some, List, [], ◌∷◌, arith,
  if◌then◌else◌,
}
use hxscanner.Types.{HxBlock}
use hxscanner.Env.{Result, ok, err, Env}
use hxscanner.Db.Schema.{Db}
use hxscanner.Exec.{M, pure, ask}
use hxscanner.Exec.Keeps.{Keeps}
use hxscanner.Exec.Leads.{Reliable}
use hxscanner.Exec.Quiet.{Quiet}
use hxscanner.Exec.Completes.{
  Completes, Succeeded, Completes-pure, Completes-of_Returns, Completes-bind, Completes-attempt,
  Completes-known, Completes-caught,
}
use hxscanner.Scanner.Operation.{OpScannerPlugin}
use hxscanner.Scanner.Block.{
  until_break, scan_tx, process_block, scan_round, scan_blocks_from, Scan, running, stopped,
}
use hxscanner.Scanner.Keeps.{KeepsPlugins, Keeps-scan_tx}
use hxscanner.Scanner.Stores.{KeepsStores-apart}
use hxscanner.Scanner.Registered.{plugins, plugins-apart}
use hxscanner.Scanner.Progress.{
  NumberIds, HasBlockReply, completed, Returns-store_block, Returns-fix_previous_block,
  Returns-checkpoint, Returns-get_block,
}

-- The plugins of the program write no rows of blocks.
pub plugins-NumberIds :
    (E : Env) (caller_pub_key : _) → KeepsPlugins NumberIds (plugins E caller_pub_key)
plugins-NumberIds E caller_pub_key =
    plugins-apart E caller_pub_key NumberIds (λ d t h. h) (λ d t h. h) (λ d t h. h) (λ d t h. h)
      (λ d t h. h) (λ d t h. h)

module _ {A : Type 0} {P : Db → Type 0} where
  -- A loop catches what fails inside it.
  Completes-until_break :
      (body : ℕ → A → M (Unit {0})) (i : ℕ) (xs : List A)
      → ((i : ℕ) (a : A) → Keeps P (body i a))
      → Completes P (until_break body i xs) (λ _. P)
  unfolding until_break
  Completes-until_break body i [] k = Completes-pure tt (λ d h. h)
  Completes-until_break body i (a ∷ xs) k =
      Completes-bind _ _ (Completes-caught _ (k i a))
        (part (Completes-until_break body (suc i) xs k))
    where
      part :
          Completes P (until_break body (suc i) xs) (λ _. P)
          → (r : Result (Unit {0}))
          → Completes P (elim r [ err e ↦ pure tt | ok u ↦ until_break body (suc i) xs ]) (λ _. P)
      part later (err e) = Completes-pure tt (λ d h. h)
      part later (ok u) = later

module _ (E : Env) (quiet : Quiet E) (rel : Reliable E) (online : (t : ℕ) → E.connected t ≡ true)
    (go : (t : ℕ) → E.cancelled t ≡ false) (ps : List OpScannerPlugin)
    (keep : KeepsPlugins NumberIds ps) where
  Completes-transactions :
      (b : HxBlock)
      → Completes NumberIds (until_break (scan_tx E ps b) zero b.transactions) (λ _. NumberIds)
  Completes-transactions b = Completes-until_break _ zero b.transactions (
      Keeps-scan_tx E
        (KeepsStores-apart E (λ d t h. h) (λ d t h. h) (λ d t h. h) (λ d t h. h) (λ d t h. h)) ps
        keep b)

  -- The round of a block that the node has leads to the next block, or ends the process.
  Completes-process_block :
      (n : ℕ) (b : HxBlock)
      → Completes NumberIds (process_block E ps n (some b)) (λ m d. (m ≡ suc n) × NumberIds d)
  unfolding process_block
  Completes-process_block n b =
      Completes-bind _ _ (Completes-of_Returns _ (Returns-store_block E quiet rel b)) λ _.
        Completes-bind _ _ (Completes-of_Returns _ (Returns-fix_previous_block E quiet rel b)) λ _.
          Completes-bind _ _ (Completes-transactions b) λ _.
            Completes-bind _ _ (Completes-of_Returns _ (Returns-checkpoint E quiet rel ps n))
              λ _. Completes-pure (suc n) (λ d h. (refl, h))

  Completes-scan_round :
      (n : ℕ)
      → HasBlockReply E n
      → Completes NumberIds (scan_round E ps n) (λ m d. (m ≡ suc n) × NumberIds d)
  unfolding scan_round
  Completes-scan_round n s =
      Completes-bind _ _ (Completes-of_Returns _ (Returns-get_block E quiet rel ps online n s)) (
        Completes-known _ (some (completed n s.infos s.block))
          (Completes-process_block n (completed n s.infos s.block)))

  abbrev Onward : ℕ → Scan → Db → Type 0
  Onward n s d = s ≡ running n

  Completes-scan_blocks_from :
      (rounds n : ℕ)
      → ((m : ℕ) → n ≤ m → m < n + rounds → HasBlockReply E m)
      → Completes NumberIds (scan_blocks_from E ps rounds n) (Onward (n + rounds))
  unfolding scan_blocks_from ask
  Completes-scan_blocks_from zero n serves =
      Completes-pure (running n) (λ d h. ap running (omega arith))
  Completes-scan_blocks_from (suc rounds) n serves =
      Completes-bind {Q = λ end d. (end ≡ false) × NumberIds d} _ _ asked (
        Completes-known _ false (
          Completes-bind _ _
            (Completes-attempt _ (Completes-scan_round n (serves n (omega arith) (omega arith))))
            (part (
              Completes-scan_blocks_from rounds (suc n)
                (λ m lo hi. serves m (omega arith) (omega arith))))))
    where
      asked : Completes NumberIds (ask E.cancelled) (λ end d. (end ≡ false) × NumberIds d)
      asked = record { from = λ w h. (go w.tick, h) }

      part :
          Completes NumberIds (scan_blocks_from E ps rounds (suc n)) (Onward (suc n + rounds))
          → (r : Result ℕ)
          → Completes
              (Succeeded (λ m d. (m ≡ suc n) × NumberIds d) r)
              (elim r [
                | err e ↦ pure (stopped n)
                | ok next ↦ if false then pure (stopped next) else scan_blocks_from E ps rounds next
              ])
              (Onward (n + suc rounds))
      part later (err e) = record { from = λ w h. absurd h }
      part later (ok m) =
          Completes-known (scan_blocks_from E ps rounds) (suc n)
            (subst (λ k. Completes NumberIds (scan_blocks_from E ps rounds (suc n)) (Onward k))
              (omega arith) later)
            m

-- Let the driver report no error, the row iteration be reliable, the connection stand, the context not be cancelled, the
-- plugins leave the rows of `blocks` with their number as their id, and the node have the blocks from n to
-- n + rounds - 1, whatever is in them. From a database whose rows of `blocks` have their number as their id, so many
-- rounds end the process, or return with the loop before block n + rounds: it does not stop before, wait, or
-- pass a block twice.
pub scan_blocks_from-steady :
    (E : Env) (ps : List OpScannerPlugin) (rounds n : ℕ)
    → Quiet E
    → Reliable E
    → ((t : ℕ) → E.connected t ≡ true)
    → ((t : ℕ) → E.cancelled t ≡ false)
    → KeepsPlugins NumberIds ps
    → ((m : ℕ) → n ≤ m → m < n + rounds → HasBlockReply E m)
    → Completes NumberIds (scan_blocks_from E ps rounds n) (λ s d. s ≡ running (n + rounds))
scan_blocks_from-steady E ps rounds n quiet rel online go keep serves =
    Completes-scan_blocks_from E quiet rel online go ps keep rounds n serves
