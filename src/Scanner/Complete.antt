-- ===== src/Scanner/Complete.antt =====
-- With a driver that reports no error, the well-formed transactions of a block are stored with all their
-- operations, or the process ends.
use mathlib.Core.Path.{subst}
use hxscanner.Prelude.{
  ℕ, zero, ◌≡◌, refl, ap, ◌∙◌, String, not, Option, none, some, List, [], ◌∷◌, count-pos, eq_refl,
  All, All-map,
}
use hxscanner.Value.{Value, str}
use hxscanner.Types.{HxBlock, HxTransaction, HxContractOpReceipt, HxContractTxReceipt}
use hxscanner.Env.{ok, Env}
use hxscanner.Exec.{M, pure, panic, lift, or_exit, when_nil, ◌>>=◌, write, ask, connected, call}
use hxscanner.Exec.Keeps.{Keeps, Keeps-pure}
use hxscanner.Exec.Leads.{FoundIf}
use hxscanner.Exec.Any.{Any, Gives-Any}
use hxscanner.Exec.Quiet.{Quiet, Returns-sql, Returns-query_row_if}
use hxscanner.Exec.Ends.{Returns-ask}
use hxscanner.Exec.Completes.{
  Completes, Each, Completes-pure, Completes-bind, Completes-or_exit, Completes-of_Returns,
  Completes-if, Completes-lift, Completes-Keeps, Completes-still, Keeps-Each,
}
use hxscanner.Db.Schema.{Db, TransactionEntity}
use hxscanner.Db.Keys.{transaction_key}
use hxscanner.Db.Blocks.{
  find_transaction, save_transaction, insert_transaction, first_operation_type,
}
use hxscanner.Db.Receipts.{save_contract_op_receipt}
use hxscanner.Node.{get_tx_receipts, check_transaction_has_contract_op}
use hxscanner.Scanner.Operation.{OpScannerPlugin, scan_op}
use hxscanner.Scanner.Block.{
  until_break, store_transaction, store_receipt, store_receipts, store_tx_receipts, scan_tx,
}
use hxscanner.Scanner.Keeps.{Keeps-until_break, Keeps-scan_op, Keeps-scan_tx}
use hxscanner.Scanner.Persist.{Persists, HasTransaction, HasOperation, append-HasRow_new}
use hxscanner.Scanner.WellFormed.{GoodPair, Answered, GoodTransaction}
use hxscanner.Scanner.CompleteOps.{Completes-until_break, Completes-scan_op, OpStored}

-- The transaction is stored, and each of its operations.
abbrev pub TxStored : HxBlock → ℕ → HxTransaction → Db → Type 0
TxStored b tx_index tx d =
    HasTransaction tx.trxid d × Each (OpStored b tx.trxid) zero tx.operations d

module _ (E : Env) (quiet : Quiet E) where
  Completes-call :
      (tx : HxTransaction) (a : Answered E tx.trxid)
      → Completes Any (call E "get_contract_invoke_object" (str tx.trxid ∷ [])) (λ r d. r ≡ a.reply)
  unfolding call ask lift ◌>>=◌
  Completes-call tx a = record { from = λ w h. rw (a.called w.tick) refl }

  Completes-get_tx_receipts :
      (tx : HxTransaction) → Answered E tx.trxid → Completes Any (get_tx_receipts E tx) (λ _. Any)
  unfolding get_tx_receipts connected
  Completes-get_tx_receipts tx a =
      Completes-bind _ _ (Completes-of_Returns _ (Returns-ask E.connected)) λ on.
        Completes-if (not on) _ _ (λ _. Completes-pure none (λ d h. tt))
          (Completes-bind _ _ (Completes-call tx a) λ reply.
            Completes-bind _ _ (Completes-lift _ (λ d. decodes reply))
              (λ rs. Completes-pure _ (λ d h. tt)))
    where
      decodes :
          (reply : Value)
          → reply ≡ a.reply
          → (rs : List (Option HxContractOpReceipt)) × (E.decode_receipts reply ≡ ok rs)
      decodes reply same = (a.receipts, ap (λ v. E.decode_receipts v) same ∙ a.decoded)

  Completes-first_operation_type :
      (ops : List (List Value))
      → All GoodPair ops
      → Completes Any (first_operation_type ops) (λ _. Any)
  unfolding first_operation_type pure ◌>>=◌
  Completes-first_operation_type [] h = Completes-pure _ (λ d h. tt)
  Completes-first_operation_type (pair ∷ ops) h =
      subst (λ p. Completes Any (first_operation_type (p ∷ ops)) (λ _. Any)) h.0.is_pair
        (record { from = λ w k. rw h.0.parsed tt })

  Completes-store_transaction :
      (tx : HxTransaction)
      → All GoodPair tx.operations
      → Completes Any (store_transaction E tx) (λ _. HasTransaction tx.trxid)
  unfolding store_transaction find_transaction save_transaction insert_transaction write
  Completes-store_transaction tx good =
      Completes-bind _ _
        (Completes-of_Returns _
          (Returns-query_row_if E quiet Any (λ d. d.transactions.rows) (transaction_key tx.trxid)))
        stored
    where
      saved : Completes Any (save_transaction E tx) (λ _. HasTransaction tx.trxid)
      saved = Completes-bind _ _ (Completes-of_Returns _ (Returns-sql E quiet)) λ _.
          Completes-bind _ _ (Completes-first_operation_type tx.operations good) λ t.
            Completes-bind {Q = λ _. Any} _ _ (Completes-of_Returns _ (Returns-sql E quiet)) λ _.
              record {
                from = λ w h.
                    append-HasRow_new (transaction_key tx.trxid) w.db.transactions.rows _
                      (eq_refl tx.trxid);
              }

      stored :
          (o : Option TransactionEntity)
          → Completes
              (FoundIf E Any (λ d. d.transactions.rows) (transaction_key tx.trxid) o)
              (when_nil o (save_transaction E tx))
              (λ _. HasTransaction tx.trxid)
      stored none = record { from = λ w h. saved.from w tt }
      stored (some r) =
          Completes-pure tt
            (λ d h. count-pos (transaction_key tx.trxid) d.transactions.rows r (h.1 r refl))

  Completes-store_receipts :
      (rs : List (Option HxContractOpReceipt)) → Completes Any (store_receipts E rs) (λ _. Any)
  unfolding store_receipts store_receipt panic
  Completes-store_receipts [] = Completes-pure tt (λ d h. tt)
  Completes-store_receipts (none ∷ rs) = record { from = λ w h. tt }
  Completes-store_receipts (some r ∷ rs) =
      Completes-bind {Q = λ _. Any} _ _
        (Completes-bind _ _ (Completes-or_exit _ (Gives-Any _)) saved)
        (λ _. Completes-store_receipts rs)
    where
      saved :
          (o : Option HxContractOpReceipt)
          → Completes Any (when_nil o (or_exit (save_contract_op_receipt E r))) (λ _. Any)
      saved none = Completes-or_exit _ (Gives-Any _)
      saved (some x) = Completes-pure tt (λ d h. tt)

  Completes-store_tx_receipts :
      (rs : Option HxContractTxReceipt) → Completes Any (store_tx_receipts E rs) (λ _. Any)
  Completes-store_tx_receipts none = Completes-pure tt (λ d h. tt)
  Completes-store_tx_receipts (some rs) = Completes-store_receipts rs.op_receipts

  module _ (ps : List OpScannerPlugin)
      (transactions : (trxid : String) → Persists E ps (HasTransaction trxid))
      (operations : (id : String) → Persists E ps (HasOperation id)) (b : HxBlock) where
    -- What the statements of a transaction keep of another one.
    Keeps-TxStored :
        {A : Type 0} (m : M A) (i : ℕ) (tx : HxTransaction)
        → ((P : Db → Type 0) → Persists E ps P → Keeps P m)
        → Keeps (TxStored b i tx) m
    Keeps-TxStored m i tx k = record {
      at = λ w h. (
        (k _ (transactions tx.trxid)).at w h.0,
        (Keeps-Each {F = OpStored b tx.trxid} m zero tx.operations
              (λ j pair. k _ (operations _))).at
            w h.1,
      );
    }

    Completes-operations :
        (tx : HxTransaction) (tx_index : ℕ) (rs : Option HxContractTxReceipt)
        → All GoodPair tx.operations
        → Completes
            (HasTransaction tx.trxid)
            (until_break (scan_op E ps b tx.trxid tx_index rs) zero tx.operations)
            (λ _. TxStored b tx_index tx)
    Completes-operations tx tx_index rs good =
        Completes-Keeps _
          (Completes-until_break _
            (λ i pair j other.
              let kept : Persists E ps (OpStored b tx.trxid i pair) = operations _ in
              Keeps-scan_op E kept.stores ps kept.applied b tx.trxid tx_index rs j other)
            zero tx.operations
            (All-map _ _ tx.operations
              (λ pair is_good j.
                Completes-scan_op E quiet b tx.trxid j ps (operations _) tx_index rs pair is_good)
              good))
          (let kept : Persists E ps (HasTransaction tx.trxid) = transactions tx.trxid in
            Keeps-until_break _ zero tx.operations
              (Keeps-scan_op E kept.stores ps kept.applied b tx.trxid tx_index rs))

    Keeps-store_tx_receipts :
        (rs : Option HxContractTxReceipt) (P : Db → Type 0)
        → Persists E ps P
        → Keeps P (store_tx_receipts E rs)
    Keeps-store_tx_receipts none P kept = Keeps-pure tt
    Keeps-store_tx_receipts (some rs) P kept = kept.stores.receipt_rows rs.op_receipts

    Completes-scan_tx :
        (tx_index : ℕ) (tx : HxTransaction)
        → GoodTransaction E tx
        → Completes Any (scan_tx E ps b tx_index tx) (λ _. TxStored b tx_index tx)
    unfolding scan_tx check_transaction_has_contract_op
    Completes-scan_tx tx_index tx good =
        Completes-bind _ _
          (Completes-if (check_transaction_has_contract_op tx) _ _
            (λ has. Completes-get_tx_receipts _ (good.answered has))
            (Completes-pure none (λ d h. tt)))
          λ rs. Completes-bind _ _ (Completes-store_transaction _ good.pairs) λ _.
            Completes-bind _ _ (Completes-operations tx tx_index rs good.pairs) λ _.
              Completes-still _ (Completes-store_tx_receipts rs)
                (Keeps-TxStored _ tx_index tx (Keeps-store_tx_receipts rs))

    Keeps-scan_txs :
        (tx_index : ℕ) (tx : HxTransaction) (P : Db → Type 0)
        → Persists E ps P
        → Keeps P (scan_tx E ps b tx_index tx)
    Keeps-scan_txs tx_index tx P kept = Keeps-scan_tx E kept.stores ps kept.applied b tx_index tx

    pub Completes-transactions :
        All (GoodTransaction E) b.transactions
        → Completes Any
            (until_break (scan_tx E ps b) zero b.transactions)
            (λ _. Each (TxStored b) zero b.transactions)
    Completes-transactions good =
        Completes-until_break _ (λ i tx j other. Keeps-TxStored _ i tx (Keeps-scan_txs j other))
          zero b.transactions
          (All-map _ _ b.transactions (λ tx is_good j. Completes-scan_tx j tx is_good) good)
