-- ===== src/Scanner/Ends.antt =====
-- How far the loop over the blocks comes, and how it ends.
use native.Mathlib.Nat.{le_trans}
use hxscanner.Prelude.{
  ℕ, zero, suc, ◌+◌, ◌≤◌, ◌≡◌, Bool, true, false, Option, none, some, List, arith, if◌then◌else◌,
}
use hxscanner.Types.{HxBlock}
use hxscanner.Env.{Result, ok, err, Env}
use hxscanner.Exec.{World, done, pure}
use hxscanner.Exec.Keeps.{Gives, Gives-bind, Gives-attempt, Gives-weaken, Tried, Gives-result}
use hxscanner.Exec.Any.{Any, Gives-last}
use hxscanner.Scanner.Operation.{OpScannerPlugin}
use hxscanner.Scanner.Block.{process_block, scan_round, scan_blocks_from, Scan, stopped}
use hxscanner.Scanner.Loops.{next_block}

-- A number between two.
abbrev Within : ℕ → ℕ → ℕ → Type 0
Within lo hi m = (lo ≤ m) × (m ≤ hi)

module _ (E : Env) (ps : List OpScannerPlugin) where
  Gives-process_block-Within :
      (n : ℕ) (o : Option HxBlock)
      → Gives Any (process_block E ps n o) (λ m d. Within n (suc n) m) Any
  unfolding process_block pure
  Gives-process_block-Within n none =
      Gives-last _ _ λ _. record { from = λ w h. (omega arith, omega arith) }
  Gives-process_block-Within n (some b) = Gives-last _ _ λ _. Gives-last _ _ λ _.
      Gives-last _ _ λ _. Gives-last _ _ λ _. record { from = λ w h. (omega arith, omega arith) }

  Gives-scan_round-Within : (n : ℕ) → Gives Any (scan_round E ps n) (λ m d. Within n (suc n) m) Any
  unfolding scan_round
  Gives-scan_round-Within n = Gives-last _ _ (Gives-process_block-Within n)

  Gives-scan-Within :
      (rounds n : ℕ)
      → Gives Any (scan_blocks_from E ps rounds n) (λ s d. Within n (n + rounds) (next_block s)) Any
  unfolding scan_blocks_from pure
  Gives-scan-Within zero n = record { from = λ w h. (omega arith, omega arith) }
  Gives-scan-Within (suc rounds) n = Gives-last _ _ λ end.
      Gives-bind _ _ (Gives-attempt _ (Gives-scan_round-Within n))
        (part end (Gives-scan-Within rounds))
    where
      part :
          (end : Bool)
          → ((m : ℕ)
              → Gives Any
                  (scan_blocks_from E ps rounds m)
                  (λ s d. Within m (m + rounds) (next_block s))
                  Any)
          → (r : Result ℕ)
          → Gives
              (Tried (λ m d. Within n (suc n) m) Any r)
              (elim r [
                | err e ↦ pure (stopped n)
                | ok next ↦ if end then pure (stopped next) else scan_blocks_from E ps rounds next
              ])
              (λ s d. Within n (n + suc rounds) (next_block s))
              Any
      part end ih (err e) = record { from = λ w s. (omega arith, omega arith) }
      part true ih (ok m) = record { from = λ w s. (omega arith, omega arith) }
      part false ih (ok m) = record {
        from = λ w s.
            (Gives-weaken _
                (λ a d (r : Within m (m + rounds) (next_block a)). (le_trans s.0 r.0, omega arith))
                (ih m)).from
              w tt;
      }

-- After so many rounds from block n the loop stands before a block that is not below n, and each round has
-- led at most one block further, whatever the node and the database answer.
pub scan_blocks_from-Within :
    (E : Env) (ps : List OpScannerPlugin) (rounds n : ℕ) (w : World) (s : Scan)
    → (scan_blocks_from E ps rounds n w).0 ≡ done s
    → (n ≤ next_block s) × (next_block s ≤ n + rounds)
scan_blocks_from-Within E ps rounds n w s returned =
    Gives-result (scan_blocks_from E ps rounds n) w s (Gives-scan-Within E ps rounds n) tt returned
