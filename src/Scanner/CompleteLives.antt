-- ===== src/Scanner/CompleteLives.antt =====
-- Processes one after the other leave no transaction and no operation out.
use mathlib.Core.Path.{subst}
use hxscanner.Prelude.{ℕ, zero, ◌<◌, ◌≤◌, ◌≡◌, sym, String, List, count, arith}
use hxscanner.Value.{Value}
use hxscanner.Types.{HxBlock, HxTransaction}
use hxscanner.Db.Keys.{HasKeys, transaction_key, operation_key}
use hxscanner.Db.Operations.{get_base_operation_id}
use hxscanner.Exec.Leads.{Reliable}
use hxscanner.Exec.Completes.{Each, Each-map}
use hxscanner.Scanner.CompleteBlocks.{WholeBlock}
use hxscanner.Scanner.CompleteOps.{OpStored}
use hxscanner.Scanner.Complete.{TxStored}
use hxscanner.Prelude.Int.{negsuc}
use hxscanner.Env.{Env}
use hxscanner.Db.Schema.{Db, init_db}
use hxscanner.Exec.{World, done}
use hxscanner.Exec.Keeps.{Keeps-of_Gives, Gives-weaken, Gives-result}
use hxscanner.Exec.Quiet.{Quiet}
use hxscanner.Scanner.Block.{Scan, run}
use hxscanner.Scanner.Loops.{next_block}
use hxscanner.Scanner.Registered.{plugins}
use hxscanner.Scanner.Lives.{lives, lives-Keeps, lives-HasKeys, run-HasKeys}
use hxscanner.Scanner.CompleteScan.{Chain, WholeUpTo}
use hxscanner.Scanner.CompleteCheckpoints.{SafeWhole}
use hxscanner.Scanner.CompleteRounds.{Gives-run_whole}

module _ (E : Env) (caller_pub_key : String) (quiet : Quiet E) (chain : Chain E) where
  lives-SafeWhole :
      (ls : List ℕ) (w : World)
      → w.db ≡ init_db
      → SafeWhole chain (lives E (plugins E caller_pub_key) ls w).db
  lives-SafeWhole ls w empty =
      lives-Keeps E (plugins E caller_pub_key) (SafeWhole chain)
        (λ rounds.
          Keeps-of_Gives _ (
            Gives-weaken _ (λ s d h. h.1.1)
              (Gives-run_whole E caller_pub_key quiet chain rounds 0)))
        ls w (subst (SafeWhole chain) (sym empty) tt)

  -- Take a driver that reports no error, and a node whose blocks are always the same and are well-formed,
  -- with the receipts of their contract calls. However often the process ended since the database was empty, by a
  -- plugin's error, by a panic or by the end of its rounds, when a further process returns before block n, then every
  -- transaction and every operation of the blocks 1 to n - 1 is in the database.
  pub lives-WholeUpTo :
      (ls : List ℕ) (rounds : ℕ) (w : World) (s : Scan)
      → w.db ≡ init_db
      → (run E
          (plugins E caller_pub_key)
          rounds
          (negsuc 0)
          (lives E (plugins E caller_pub_key) ls w)).0
        ≡ done s
      → WholeUpTo chain 1
          (next_block s)
          (run E
            (plugins E caller_pub_key)
            rounds
            (negsuc 0)
            (lives E (plugins E caller_pub_key) ls w)).1.db
  lives-WholeUpTo ls rounds w s empty ends =
      (Gives-result (run E (plugins E caller_pub_key) rounds (negsuc 0))
        (lives E (plugins E caller_pub_key) ls w) s
        (Gives-run_whole E caller_pub_key quiet chain rounds 0) (lives-SafeWhole ls w empty)
        ends).1.0

-- The operation has one row in the base table, and the transaction one, with all its operations.
abbrev pub OpOnce : HxBlock → String → ℕ → List Value → Db → Type 0
OpOnce b trxid i pair d =
    count (operation_key (get_base_operation_id b.block_number trxid i)) d.operations.rows ≡ 1

abbrev pub TxOnce : HxBlock → ℕ → HxTransaction → Db → Type 0
TxOnce b tx_index tx d =
    (count (transaction_key tx.trxid) d.transactions.rows ≡ 1)
    × Each (OpOnce b tx.trxid) zero tx.operations d

abbrev pub OnceUpTo : {E : Env} → Chain E → ℕ → ℕ → Db → Type 0
OnceUpTo chain lo n d =
    (k : ℕ) → lo ≤ k → k < n → Each (TxOnce (chain.block k)) zero (chain.block k).transactions d

one_row : (n : ℕ) → 0 < n → n ≤ 1 → n ≡ 1
one_row n more less = omega arith

whole-Once :
    (b : HxBlock) (d : Db) → HasKeys d → WholeBlock b d → Each (TxOnce b) zero b.transactions d
whole-Once b d keys = Each-map (TxStored b) (TxOnce b) d zero b.transactions λ i tx h. (
  one_row _ h.0 (HasKeys.transactions keys tx.trxid),
  Each-map (OpStored b tx.trxid) (OpOnce b tx.trxid) d zero tx.operations
      (λ j pair stored. one_row _ stored (HasKeys.operations keys _)) h.1,
)

-- Take a driver that reports no error, a reliable row iteration, and a node whose blocks are always the same and
-- are well-formed, with the receipts of their contract calls. However often the process ended since the
-- database was empty, when a further process returns before block n, then every transaction of the blocks 1 to
-- n - 1 has exactly one row, and every operation of it exactly one in the base table.
pub lives-OnceUpTo :
    (E : Env) (caller_pub_key : String) (chain : Chain E) (ls : List ℕ) (rounds : ℕ) (w : World)
    (s : Scan)
    → Quiet E
    → Reliable E
    → w.db ≡ init_db
    → (run E
        (plugins E caller_pub_key)
        rounds
        (negsuc 0)
        (lives E (plugins E caller_pub_key) ls w)).0
      ≡ done s
    → OnceUpTo chain 1
        (next_block s)
        (run E
          (plugins E caller_pub_key)
          rounds
          (negsuc 0)
          (lives E (plugins E caller_pub_key) ls w)).1.db
lives-OnceUpTo E key chain ls rounds w s quiet rel empty ends k l u =
    whole-Once (chain.block k) _
      ((run-HasKeys E key rel rounds).at (lives E (plugins E key) ls w)
        (lives-HasKeys E key rel ls w empty))
      (lives-WholeUpTo E key quiet chain ls rounds w s empty ends k l u)
