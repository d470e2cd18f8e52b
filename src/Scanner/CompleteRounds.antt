-- ===== src/Scanner/CompleteRounds.antt =====
-- The rounds of the loop over the blocks leave only whole blocks behind them, and a checkpoint that is no further.
use hxscanner.Prelude.{
  ℕ, zero, suc, String, ◌≡◌, refl, ap, ◌∙◌, Option, none, some, List, arith, inr,
}
use hxscanner.Prelude.Int.{negsuc}
use hxscanner.Types.{HxBlock}
use hxscanner.Env.{Env}
use hxscanner.Exec.{done, M, pure}
use hxscanner.Exec.Keeps.{
  Keeps, Keeps-pure, Keeps-if, Keeps-or_exit, Gives, Gives-bind, Gives-known, Gives-weaken,
  Gives-assume, Gives-invariant,
}
use hxscanner.Exec.Leads.{Gives-after, Gives-or_exit}
use hxscanner.Exec.Any.{Gives-Keeps, Gives-of_result}
use hxscanner.Exec.Quiet.{Quiet}
use hxscanner.Exec.Completes.{Gives-of_Completes}
use hxscanner.Db.Schema.{Db, BlockEntity, ScanConfigEntity}
use hxscanner.Node.Keeps.{Keeps-get_block}
use hxscanner.Scanner.Operation.{OpScannerPlugin}
use hxscanner.Scanner.Block.{scan_tx, until_break, checkpoint, process_block, scan_round, run}
use hxscanner.Scanner.Keeps.{Keeps-until_break, Keeps-scan_tx}
use hxscanner.Scanner.Stores.{KeepsStores-apart, Keeps-store_block, Keeps-fix_previous_block}
use hxscanner.Scanner.Loops.{next_block, Gives-rounds}
use hxscanner.Scanner.Registered.{plugins, plugins-apart}
use hxscanner.Scanner.Persist.{
  Persists, Persists-HasTransaction, Persists-HasOperation, HasTransaction, HasOperation,
}
use hxscanner.Scanner.Complete.{Completes-transactions}
use hxscanner.Scanner.CompleteBlocks.{WholeBlock, Keeps-WholeBlock}
use hxscanner.Scanner.CompleteScan.{Chain, WholeUpTo-next}
use hxscanner.Scanner.CompleteCheckpoints.{
  SafeWhole, At, Configs, Keeps-At, Keeps-update_last_whole, Gives-get_last_whole,
}

module _ (E : Env) (caller_pub_key : String) (quiet : Quiet E) (chain : Chain E) where
  abbrev ps : List OpScannerPlugin
  ps = plugins E caller_pub_key

  Persists-Configs : (rows : List ScanConfigEntity) → Persists E ps (Configs chain rows)
  Persists-Configs rows = record {
    stores = KeepsStores-apart E (λ d t h. h) (λ d t h. h) (λ d t h. h) (λ d t h. h) (λ d t h. h);
    applied =
        plugins-apart E caller_pub_key (Configs chain rows) (λ d t h. h) (λ d t h. h) (λ d t h. h)
          (λ d t h. h) (λ d t h. h) (λ d t h. h);
  }

  -- What writes to no checkpoint.
  Keeps-apart :
      {A : Type 0} (m : M A) (n : ℕ)
      → ((P : Db → Type 0)
          → ((d : Db) (t : List BlockEntity) → P d → P (record d { blocks = t }))
          → Persists E ps P
          → Keeps P m)
      → Keeps (At chain n) m
  Keeps-apart m n k =
      Keeps-At chain m n (λ rows. k (Configs chain rows) (λ d t h. h) (Persists-Configs rows))
        (λ j.
          Keeps-WholeBlock m (chain.block j)
            (λ t. k (HasTransaction t) (λ d t h. h) (Persists-HasTransaction E caller_pub_key t))
            (λ i. k (HasOperation i) (λ d t h. h) (Persists-HasOperation E caller_pub_key i)))

  Keeps-checkpoint : (n : ℕ) → Keeps (At chain (suc n)) (checkpoint E n)
  unfolding checkpoint
  Keeps-checkpoint n =
      Keeps-if _ _ _ (Keeps-or_exit _ (Keeps-update_last_whole chain (suc n) n (omega arith)))
        (Keeps-pure tt)

  At-next : (n : ℕ) (d : Db) → At chain n d → WholeBlock (chain.block n) d → At chain (suc n) d
  At-next n d h whole = (
    omega arith,
    (WholeUpTo-next E caller_pub_key quiet chain 1 n (suc n) d h.1.0 (inr (refl, whole)), h.1.1),
  )

  At-fewer : (n : ℕ) (d : Db) → At chain (suc (suc n)) d → At chain (suc n) d
  At-fewer n d h = (omega arith, ((λ k l u. h.1.0 k l (omega arith)), h.1.1))

  Gives-transactions :
      (n : ℕ)
      → Gives
          (At chain n)
          (until_break (scan_tx E ps (chain.block n)) zero (chain.block n).transactions)
          (λ _. At chain (suc n))
          (At chain n)
  Gives-transactions n =
      Gives-weaken _ (λ _ d h. At-next n d h.0 h.1)
        (Gives-Keeps _
          (Gives-of_Completes _ (
            Completes-transactions E quiet ps (Persists-HasTransaction E caller_pub_key)
              (Persists-HasOperation E caller_pub_key) (chain.block n) (chain.good n)))
          (Keeps-apart _ n λ P blocks kept.
            Keeps-until_break _ zero (chain.block n).transactions
              (Keeps-scan_tx E kept.stores ps kept.applied (chain.block n))))

  Gives-block :
      (n : ℕ)
      → Gives (At chain n) (process_block E ps n (some (chain.block n))) (At chain) (At chain n)
  unfolding process_block pure
  Gives-block zero = record { from = λ w h. absurd (omega arith) }
  Gives-block (suc m) =
      Gives-after _ _ (λ d h. h)
        (Keeps-apart _ (suc m) (λ P blocks kept. Keeps-store_block E blocks (chain.block (suc m))))
        λ _.
          Gives-after _ _ (λ d h. h)
            (Keeps-apart _ (suc m)
              (λ P blocks kept. Keeps-fix_previous_block E blocks (chain.block (suc m))))
            λ _. Gives-bind _ _ (Gives-transactions (suc m)) λ _. Gives-invariant _ (At-fewer m) (
              Gives-after _ _ (λ d h. h) (Keeps-checkpoint (suc m))
                (λ _. record { from = λ w h. h }))

  Gives-no_block : (n : ℕ) → Gives (At chain n) (process_block E ps n none) (At chain) (At chain n)
  unfolding process_block pure
  Gives-no_block zero = record { from = λ w h. absurd (omega arith) }
  Gives-no_block (suc m) =
      Gives-after _ _ (λ d h. h)
        (Keeps-or_exit _ (Keeps-update_last_whole chain (suc m) m (omega arith)))
        (λ _. record { from = λ w h. h })

  Gives-scan_round : (n : ℕ) → Gives (At chain n) (scan_round E ps n) (At chain) (At chain n)
  unfolding scan_round
  Gives-scan_round n =
      Gives-bind _ _
        (Gives-Keeps _
          (Gives-of_result {F = λ o. (b : HxBlock) → o ≡ some b → b ≡ chain.block n} _
            (λ w o returned b e. chain.same n w b (returned ∙ ap done e)))
          (Keeps-apart _ n (λ P blocks kept. Keeps-get_block E n)))
        part
    where
      part :
          (o : Option HxBlock)
          → Gives
              (λ d. At chain n d × ((b : HxBlock) → o ≡ some b → b ≡ chain.block n))
              (process_block E ps n o)
              (At chain)
              (At chain n)
      part none = Gives-assume _ (λ d h. h.0) (Gives-no_block n)
      part (some b) =
          Gives-assume _ (λ d h. (h.1 b refl, h.0))
            (Gives-known (λ x. process_block E ps n (some x)) (chain.block n) (Gives-block n) b)

  -- A process that starts from the checkpoint.
  pub Gives-run_whole :
      (rounds m : ℕ)
      → Gives
          (SafeWhole chain)
          (run E ps rounds (negsuc m))
          (λ s. At chain (next_block s))
          (SafeWhole chain)
  unfolding run
  Gives-run_whole rounds m =
      Gives-bind _ _ (Gives-or_exit _ (Gives-get_last_whole chain))
        λ last. Gives-rounds E ps (λ n d h. h.1.1) Gives-scan_round rounds (suc last)
