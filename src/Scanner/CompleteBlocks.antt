-- ===== src/Scanner/CompleteBlocks.antt =====
-- The blocks that the loop has passed are in the database with all their transactions and operations.
use hxscanner.Prelude.{[], ℕ, zero, suc, ◌≡◌, refl, String, some, List, All}
use hxscanner.Prelude.Int.{pos}
use hxscanner.Types.{HxBlock}
use hxscanner.Env.{Env}
use hxscanner.Exec.{write, M, pure}
use hxscanner.Exec.Keeps.{
  Keeps, Gives, Keeps-if, Keeps-or_exit, Keeps-write, Keeps-pure, Gives-bind, Gives-of_Keeps,
  Gives-invariant,
}
use hxscanner.Exec.Any.{Any, Gives-last}
use hxscanner.Exec.Quiet.{Quiet}
use hxscanner.Exec.Completes.{Each, Keeps-Each, Gives-of_Completes}
use hxscanner.Db.Table.{Table}
use hxscanner.Db.Schema.{Db, BlockEntity, ScanConfigEntity}
use hxscanner.Db.Keeps.{Keeps-update_last_scanned_block_number}
use hxscanner.Scanner.Block.{checkpoint, process_block, scan_round}
use hxscanner.Scanner.Stores.{Keeps-store_block, Keeps-fix_previous_block}
use hxscanner.Scanner.Loops.{KeepsBlocks, Keeps-scan_round}
use hxscanner.Scanner.Persist.{
  Persists, Persists-HasTransaction, Persists-HasOperation, HasTransaction, HasOperation,
}
use hxscanner.Scanner.WellFormed.{GoodTransaction}
use hxscanner.Scanner.CompleteOps.{OpStored}
use hxscanner.Scanner.Complete.{TxStored, Completes-transactions}
use hxscanner.Scanner.Registered.{plugins}

-- The block's transactions are stored with all their operations.
abbrev pub WholeBlock : HxBlock → Db → Type 0
WholeBlock b = Each (TxStored b) zero b.transactions

pub Keeps-WholeBlock :
    {A : Type 0} (m : M A) (b : HxBlock)
    → ((trxid : String) → Keeps (HasTransaction trxid) m)
    → ((id : String) → Keeps (HasOperation id) m)
    → Keeps (WholeBlock b) m
Keeps-WholeBlock m b transactions operations = Keeps-Each _ zero b.transactions λ i tx. record {
  at = λ w h. (
    (transactions tx.trxid).at w h.0,
    (Keeps-Each {F = OpStored b tx.trxid} _ zero tx.operations (λ j pair. operations _)).at w h.1,
  );
}

-- A whole block does not depend on the checkpoint.
pub WholeBlock-configs :
    (b : HxBlock) (d : Db) (t : Table ScanConfigEntity)
    → WholeBlock b d
    → WholeBlock b (record d { scan_configs = t })
unfolding write
WholeBlock-configs b d t =
    (Keeps-WholeBlock (write (λ x. record x { scan_configs = t })) b
        (λ trxid. Keeps-write _ (λ x h. h)) (λ id. Keeps-write _ (λ x h. h))).at
      (record { tick = 0; db = d; schema_cache = [] })

module _ (E : Env) (caller_pub_key : String) where
  -- An invariant of the rows of transactions and operations, which are only added to.
  KeepsBlocks-Persists :
      (P : Db → Type 0)
      → ((d : Db) (t : List BlockEntity) → P d → P (record d { blocks = t }))
      → ((d : Db) (t : _) → P d → P (record d { scan_configs = t }))
      → Persists E (plugins E caller_pub_key) P
      → KeepsBlocks E P
  KeepsBlocks-Persists P blocks configs kept = record {
    blocks = Keeps-store_block E blocks;
    previous = Keeps-fix_previous_block E blocks;
    checkpoints = λ n. Keeps-update_last_scanned_block_number E n configs;
    stores = kept.stores;
  }

  pub Keeps-round :
      (n : ℕ) (b : HxBlock) → Keeps (WholeBlock b) (scan_round E (plugins E caller_pub_key) n)
  Keeps-round n b =
      Keeps-WholeBlock _ b
        (λ trxid. kept (λ d t h. h) (λ d t h. h) (Persists-HasTransaction E caller_pub_key trxid))
        (λ id. kept (λ d t h. h) (λ d t h. h) (Persists-HasOperation E caller_pub_key id))
    where
      kept :
          {P : Db → Type 0}
          → ((d : Db) (t : List BlockEntity) → P d → P (record d { blocks = t }))
          → ((d : Db) (t : _) → P d → P (record d { scan_configs = t }))
          → Persists E (plugins E caller_pub_key) P
          → Keeps P (scan_round E (plugins E caller_pub_key) n)
      kept {P} blocks configs p =
          Keeps-scan_round E (KeepsBlocks-Persists P blocks configs p) (plugins E caller_pub_key)
            p.applied n

  Keeps-checkpoint_block : (n : ℕ) (b : HxBlock) → Keeps (WholeBlock b) (checkpoint E n)
  unfolding checkpoint
  Keeps-checkpoint_block n b =
      Keeps-WholeBlock _ b (λ trxid. kept (λ d t h. h)) (λ id. kept (λ d t h. h))
    where
      kept :
          {P : Db → Type 0}
          → ((d : Db) (t : _) → P d → P (record d { scan_configs = t }))
          → Keeps P (checkpoint E n)
      kept configs =
          Keeps-if _ _ _
            (Keeps-or_exit _ (Keeps-update_last_scanned_block_number E (pos n) configs))
            (Keeps-pure tt)

  module _ (quiet : Quiet E) where
    -- A block that is well-formed that a round has passed is stored with all that is in it.
    pub Gives-process_block :
        (n : ℕ) (b : HxBlock)
        → All (GoodTransaction E) b.transactions
        → Gives Any
            (process_block E (plugins E caller_pub_key) n (some b))
            (λ next d. (next ≡ suc n) × WholeBlock b d)
            Any
    unfolding process_block pure
    Gives-process_block n b good = Gives-last _ _ λ _. Gives-last _ _ λ _.
        Gives-bind _ _
          (Gives-of_Completes _ (
            Completes-transactions E quiet (plugins E caller_pub_key)
              (Persists-HasTransaction E caller_pub_key) (Persists-HasOperation E caller_pub_key) b
              good))
          λ _.
            Gives-bind _ _
              (Gives-invariant _ (λ d h. tt) (Gives-of_Keeps _ (Keeps-checkpoint_block n b)))
              λ _. record { from = λ w h. (refl, h) }
