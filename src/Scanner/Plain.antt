-- ===== src/Scanner/Plain.antt =====
-- Transactions without operations do not end the process: an instance of what the scan needs to come on.
use hxscanner.Prelude.{
  ℕ, zero, suc, Bool, true, false, All-map, ◌%◌, ◌^◌, ◌+◌, ◌≤◌, ◌<◌, ◌≡◌, refl, Option, none, some,
  List, [], ◌∷◌, All, if◌then◌else◌,
}
use hxscanner.Value.{Value}
use hxscanner.Types.{HxBlock, HxTransaction, HxContractTxReceipt, HxFullTransactionExtraInfo}
use hxscanner.Env.{Result, ok, err, Env}
use hxscanner.Db.Schema.{Db, TransactionEntity}
use hxscanner.Db.Keys.{transaction_key}
use hxscanner.Db.Blocks.{
  find_transaction, save_transaction, insert_transaction, first_operation_type,
}
use hxscanner.Exec.{World, done, M, pure, write, when_nil, ◌>>=◌}
use hxscanner.Exec.Keeps.{Gives-bind, Gives-assume}
use hxscanner.Exec.Leads.{Reliable, Seen}
use hxscanner.Exec.Quiet.{Quiet, Returns, Returns-sql, Returns-query_row}
use hxscanner.Exec.Ends.{Ends, Ends-of_Returns, Returns-attempt, Returns-pure}
use hxscanner.Node.{fill_transactions, number_transactions, check_transaction_has_contract_op}
use hxscanner.Scanner.Operation.{OpScannerPlugin, scan_op}
use hxscanner.Scanner.Block.{
  running, scan_blocks_from, until_break, scan_tx, store_transaction, store_tx_receipts,
}
use hxscanner.Scanner.Progress.{NumberIds, completed, HasBlockReply, Serves, scan_blocks_from-done}

module _ {P : Db → Type 0} {A : Type 0} (body : ℕ → A → M (Unit {0})) where
  -- A loop whose rounds return or break returns.
  Returns-until_break :
      (i : ℕ) (xs : List A)
      → All (λ a. (j : ℕ) → Ends P (body j a)) xs
      → Returns P (until_break body i xs) (λ _. P)
  unfolding until_break
  Returns-until_break i [] k = Returns-pure tt (λ d h. h)
  Returns-until_break i (a ∷ xs) k =
      Gives-bind _ _ (Returns-attempt _ (k.0 i)) (part (Returns-until_break (suc i) xs k.1))
    where
      part :
          Returns P (until_break body (suc i) xs) (λ _. P)
          → (r : Result (Unit {0}))
          → Returns P (elim r [ err e ↦ pure tt | ok u ↦ until_break body (suc i) xs ]) (λ _. P)
      part later (err e) = Returns-pure tt (λ d h. h)
      part later (ok u) = later

abbrev IsPlain : HxTransaction → Type 0
IsPlain tx = tx.operations ≡ []

number-IsPlain :
    (i : ℕ) (txs : List HxTransaction) → All IsPlain txs → All IsPlain (number_transactions i txs)
unfolding number_transactions
number-IsPlain i [] h = tt
number-IsPlain i (tx ∷ txs) h = (h.0, number-IsPlain (suc i) txs h.1)

fill-IsPlain :
    (infos : List HxFullTransactionExtraInfo) (txs : List HxTransaction)
    → All IsPlain txs
    → All IsPlain (fill_transactions infos txs)
unfolding fill_transactions
fill-IsPlain [] txs h = h
fill-IsPlain (info ∷ infos) [] h = tt
fill-IsPlain (info ∷ infos) (tx ∷ txs) h = (h.0, fill-IsPlain infos txs h.1)

All-empty : {A : Type 0} (P : A → Type 0) (xs : List A) → xs ≡ [] → All P xs
All-empty P [] e = tt
All-empty P (x ∷ xs) e = cc

module _ (E : Env) (quiet : Quiet E) (rel : Reliable E) (ps : List OpScannerPlugin) where
  Returns-save_transaction :
      (tx : HxTransaction) → IsPlain tx → Returns NumberIds (save_transaction E tx) (λ _. NumberIds)
  unfolding save_transaction insert_transaction write
  Returns-save_transaction tx plain = Gives-bind _ _ (Returns-sql E quiet) λ _.
      Gives-bind _ _ (first tx.operations plain)
        λ t. Gives-bind _ _ (Returns-sql E quiet) λ _. record { from = λ w h. h }
    where
      first :
          (ops : List (List Value))
          → ops ≡ []
          → Returns NumberIds (first_operation_type ops) (λ _. NumberIds)
      first [] e = Returns-pure _ (λ d h. h)
      first (op ∷ ops) e = cc

  Returns-store_transaction :
      (tx : HxTransaction)
      → IsPlain tx
      → Returns NumberIds (store_transaction E tx) (λ _. NumberIds)
  unfolding store_transaction find_transaction
  Returns-store_transaction tx plain =
      Gives-bind _ _
        (Returns-query_row E quiet rel NumberIds (λ d. d.transactions.rows)
          (transaction_key tx.trxid))
        part
    where
      part :
          (o : Option TransactionEntity)
          → Returns
              (Seen NumberIds (λ d. d.transactions.rows) (transaction_key tx.trxid) o)
              (when_nil o (save_transaction E tx))
              (λ _. NumberIds)
      part none = record { from = λ w h. (Returns-save_transaction tx plain).from w h.0 }
      part (some r) = Returns-pure tt (λ d h. h.0)

  check-plain : (tx : HxTransaction) → IsPlain tx → check_transaction_has_contract_op tx ≡ false
  unfolding check_transaction_has_contract_op
  check-plain tx plain = part tx.operations plain
    where
      part :
          (ops : List (List Value))
          → ops ≡ []
          → check_transaction_has_contract_op (record tx { operations = ops }) ≡ false
      part [] e = refl
      part (op ∷ ops) e = cc

  Returns-no_receipts :
      (b : Bool) (m : M (Option HxContractTxReceipt))
      → b ≡ false
      → Returns NumberIds (if b then m else pure none) (λ rs d. (rs ≡ none) × NumberIds d)
  Returns-no_receipts true m e = cc
  Returns-no_receipts false m e = Returns-pure none (λ d h. (refl, h))

  Ends-scan_tx :
      (b : HxBlock) (tx : HxTransaction)
      → IsPlain tx
      → (i : ℕ) → Ends NumberIds (scan_tx E ps b i tx)
  unfolding scan_tx
  Ends-scan_tx b tx plain i = Ends-of_Returns _ (
      Gives-bind _ _
        (Returns-no_receipts _ _
          (check-plain (record tx { block_num = b.block_number % 2 ^ 32 }) plain))
        stored)
    where
      stored :
          (rs : Option HxContractTxReceipt)
          → Returns
              (λ d. (rs ≡ none) × NumberIds d)
              (store_transaction E (record tx { block_num = b.block_number % 2 ^ 32 }) >>= λ _.
                until_break (scan_op E ps b tx.trxid i rs) zero tx.operations >>= λ _.
                store_tx_receipts E rs)
              (λ _. NumberIds)
      stored (some rs) = record { from = λ w h. cc }
      stored none =
          Gives-assume _ (λ d h. h.1)
            (Gives-bind _ _ (Returns-store_transaction _ plain) λ _.
              Gives-bind _ _
                (Returns-until_break _ zero tx.operations (All-empty _ tx.operations plain))
                λ _. Returns-pure tt (λ d h. h))

  pub Returns-plain :
      (b : HxBlock) (txs : List HxTransaction)
      → All IsPlain txs
      → Returns NumberIds (until_break (scan_tx E ps b) zero txs) (λ _. NumberIds)
  Returns-plain b txs plain =
      Returns-until_break _ zero txs (All-map _ _ txs (λ tx p. Ends-scan_tx b tx p) plain)

-- What a node with this block gives the scan, if the block's transactions have no operations.
pub plain_inside :
    (E : Env) (quiet : Quiet E) (rel : Reliable E) (ps : List OpScannerPlugin) (n : ℕ)
    (infos : List HxFullTransactionExtraInfo) (block : HxBlock)
    → All IsPlain block.transactions
    → Returns NumberIds
        (until_break
          (scan_tx E ps (completed n infos block))
          zero
          (completed n infos block).transactions)
        (λ _. NumberIds)
plain_inside E quiet rel ps n infos block plain =
    Returns-plain E quiet rel ps (completed n infos block) (completed n infos block).transactions
      (fill-IsPlain infos _ (number-IsPlain zero block.transactions plain))

-- The node has block n, whose transactions have no operations.
pub record HasPlainBlock (E : Env) (n : ℕ) : Type 0 where
  pub has : HasBlockReply E n
  pub plain : All IsPlain has.block.transactions

Serves-plain :
    (E : Env) (quiet : Quiet E) (rel : Reliable E) (ps : List OpScannerPlugin) (n : ℕ)
    → HasPlainBlock E n
    → Serves E ps n
Serves-plain E quiet rel ps n b = record {
  has = b.has;
  inside = plain_inside E quiet rel ps n b.has.infos b.has.block b.plain;
}

-- Let the driver report no error, the row iteration be reliable, the connection stand, the context not be
-- cancelled, and each row of `blocks` have its number as its id. If the node has the blocks from n to
-- n + rounds - 1, and their transactions have no operations, then so many rounds return, whatever the plugins are and whatever
-- else the database holds, and the loop stands before block n + rounds.
pub scan_blocks_from-advances :
    (E : Env) (ps : List OpScannerPlugin) (rounds n : ℕ) (w : World)
    → Quiet E
    → Reliable E
    → ((t : ℕ) → E.connected t ≡ true)
    → ((t : ℕ) → E.cancelled t ≡ false)
    → ((m : ℕ) → n ≤ m → m < n + rounds → HasPlainBlock E m)
    → NumberIds w.db
    → (scan_blocks_from E ps rounds n w).0 ≡ done (running (n + rounds))
scan_blocks_from-advances E ps rounds n w quiet rel online go blocks ids =
    scan_blocks_from-done E ps rounds n w quiet rel online go
      (λ m lo hi. Serves-plain E quiet rel ps m (blocks m lo hi)) ids
