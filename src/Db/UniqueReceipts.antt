-- ===== src/Db/UniqueReceipts.antt =====
-- Saving a contract receipt that a look-up did not find keeps the tables free of double keys.
use hxscanner.Prelude.{
  ℕ, ◌≡◌, sym, String, true, ◌&&◌, ◌==◌, eqb, eq_iff, arith, count, count-eq-zero,
}
use mathlib.Core.Path.{subst}
use hxscanner.Env.{Env}
use hxscanner.Types.{HxContractOpReceipt}
use hxscanner.Exec.Keeps.{Keeps-sql}
use hxscanner.Exec.Leads.{Leads, Leads-write, Leads-then, Gives-after}
use hxscanner.Db.Table.{append-UniqueBy}
use hxscanner.Db.Schema.{Db}
use hxscanner.Db.Receipts.{save_contract_op_receipt, insert_receipt}
use hxscanner.Db.Keeps.Dynamic.{Keeps-save_events, Keeps-marshal_array}
use hxscanner.Db.Keys.{HasKeys, receipt_key}
use hxscanner.Db.Keys.Changes.{with_receipts, with_receipt_events}
use hxscanner.Db.Unique.{Absent}

same_receipt : (t u : String) (n m : ℕ) → ((t == u) && eqb m n) ≡ true → (t ≡ u) × (n ≡ m)
same_receipt t u n m h = ground (arith, eq_iff t u)

module _ (E : Env) where
  -- A receipt, and then its events.
  pub Leads-save_contract_op_receipt :
      (r : HxContractOpReceipt)
      → Leads
          (Absent (λ d. d.receipts.rows) (receipt_key (r.trxid, r.op_num)))
          (save_contract_op_receipt E r)
          HasKeys
  unfolding save_contract_op_receipt insert_receipt
  Leads-save_contract_op_receipt r = Gives-after _ _ known (Keeps-sql E) λ _.
      Gives-after _ _ known (Keeps-marshal_array E _) λ events.
        Gives-after _ _ known (Keeps-marshal_array E _) λ withdraws.
          Gives-after _ _ known (Keeps-marshal_array E _) λ balances.
            Gives-after _ _ known (Keeps-marshal_array E _) λ to_address.
              Gives-after _ _ known (Keeps-marshal_array E _) λ to_contract.
                Gives-after _ _ known (Keeps-marshal_array E _) λ fees.
                  Gives-after _ _ known (Keeps-sql E) λ _.
                    Leads-then _ _
                      (Leads-write
                        (insert_receipt E r events withdraws balances to_address to_contract fees)
                        (λ d h. with_receipts h.0 _ (
                          append-UniqueBy receipt_key d.receipts.rows _ (HasKeys.receipts h.0)
                            (λ k same.
                              let (t, n) = same_receipt r.trxid k.0 r.op_num k.1 same in
                              subst (λ k. count (receipt_key k) d.receipts.rows ≡ 0)
                                (λ i. (t i, n i)) (count-eq-zero _ d.receipts.rows (sym h.1))))))
                      (λ _. Keeps-save_events E r r.events (λ d t h. with_receipt_events h t))
    where
      known :
          (d : Db) → Absent (λ d. d.receipts.rows) (receipt_key (r.trxid, r.op_num)) d → HasKeys d
      known d h = h.0
