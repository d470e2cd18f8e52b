-- ===== src/Db/ReceiptsReadBack.antt =====
-- A contract receipt that was saved is found again, with the lists that were stored as JSON texts.
use mathlib.Core.Option.{none-ne-some}
use hxscanner.Prelude.{
  All, ℕ, ◌≡◌, refl, ap, ◌∙◌, String, Bool, true, false, Option, none, some, List, [], ◌∷◌, ◌==◌,
  find?, map, eq_refl, eqb_refl,
}
use hxscanner.Strconv.{format_nat}
use hxscanner.Value.{Value, arr}
use hxscanner.Types.{HxContractOpReceipt, HxContractOpReceiptEvent}
use hxscanner.Env.{ok, Env}
use hxscanner.Db.Schema.{Db, ReceiptRow}
use hxscanner.Db.Checkpoint.{find?-append}
use hxscanner.Db.Receipts.{
  is_receipt_of, event_value, array, receipt_of, find_contract_op_receipt, insert_event,
  save_events, insert_receipt, marshal_array, save_contract_op_receipt,
}
use hxscanner.Exec.{World, done, M, pure, lift, ◌>>=◌, ◌>>◌, write}
use hxscanner.Exec.Keeps.{Gives-bind, Gives-known, Gives-weaken}
use hxscanner.Exec.Leads.{Reliable}
use hxscanner.Exec.Quiet.{
  Quiet, Returns, Returns-done, Returns-sql, Returns-exec, Returns-query_row,
}
use hxscanner.Exec.Ends.{Returns-pure}

-- encoding/json reads these values as they were written.
pub record ReadsValues (E : Env) (vs : List Value) : Type 0 where
  pub text : String
  pub written : E.marshal (arr (array vs)) ≡ ok text
  pub is_text : (text == "") ≡ false
  pub read : E.unmarshal_values text ≡ ok vs

pub record ReadsEvents (E : Env) (events : List (Option HxContractOpReceiptEvent)) : Type 0 where
  pub text : String
  pub written : E.marshal (arr (array (map event_value events))) ≡ ok text
  pub is_text : (text == "") ≡ false
  pub read : E.unmarshal_events text ≡ ok events

-- The pointer is not nil.
abbrev pub IsEvent : Option HxContractOpReceiptEvent → Type 0
IsEvent event = (e : HxContractOpReceiptEvent) × (event ≡ some e)

pub record ReadsBack (E : Env) (r : HxContractOpReceipt) : Type 0 where
  pub no_nil : All IsEvent r.events
  pub events : ReadsEvents E r.events
  pub withdraws : ReadsValues E r.contract_withdraw_info
  pub balances : ReadsValues E r.contract_balance_changes
  pub to_address : ReadsValues E r.deposit_to_address_changes
  pub to_contract : ReadsValues E r.deposit_to_contract_changes
  pub fees : ReadsValues E r.transfer_fees

-- `SaveContractOpReceipt`, and then `FindContractOpReceipt`.
unfoldable pub save_and_find : Env → HxContractOpReceipt → M (Option HxContractOpReceipt)
save_and_find E r = do save_contract_op_receipt E r; find_contract_op_receipt E r.trxid r.op_num

module _ (E : Env) (quiet : Quiet E) (rel : Reliable E) (r : HxContractOpReceipt)
    (back : ReadsBack E r) (n : ℕ) where
  abbrev key : ReceiptRow → Bool
  key = is_receipt_of r.trxid r.op_num

  -- The row of the receipt.
  abbrev stored_row : ℕ → ReceiptRow
  stored_row i = record {
    id = i;
    trxid = r.trxid;
    block_num = r.block_num;
    op_num = r.op_num;
    api_result = r.api_result;
    events = back.events.text;
    exec_succeed = r.exec_succeed;
    actual_fee = r.actual_fee;
    invoker = r.invoker;
    contract_registered = r.contract_registered;
    contract_withdraw_info = back.withdraws.text;
    contract_balance_changes = back.balances.text;
    deposit_to_address_changes = back.to_address.text;
    deposit_to_contract_changes = back.to_contract.text;
    transfer_fees = back.fees.text;
  }

  abbrev Fresh : Db → Type 0
  Fresh d = (find? key d.receipts.rows ≡ none) × (d.receipts.next_id ≡ n)

  abbrev Stored : Db → Type 0
  Stored d = find? key d.receipts.rows ≡ some (stored_row n)

  Returns-marshal :
      (vs : List Value) (t : String)
      → E.marshal (arr (array vs)) ≡ ok t
      → Returns Fresh (marshal_array E vs) (λ s d. (s ≡ t) × Fresh d)
  unfolding marshal_array lift
  Returns-marshal vs t e = record { from = λ w h. rw e (refl, h) }

  Returns-save_events :
      (events : List (Option HxContractOpReceiptEvent))
      → All IsEvent events
      → Returns Stored (save_events E r events) (λ _. Stored)
  unfolding save_events insert_event
  Returns-save_events [] there = Returns-pure tt (λ d h. h)
  Returns-save_events (none ∷ events) there = absurd (none-ne-some there.0.0 there.0.1)
  Returns-save_events (some event ∷ events) there =
      Gives-bind _ _ (Returns-exec E quiet _ (λ d h. h)) (λ _. Returns-save_events events there.1)

  own_key : (i : ℕ) → key (stored_row i) ≡ true
  own_key i = rw (eq_refl r.trxid, eqb_refl r.op_num) refl

  Returns-save : Returns Fresh (save_contract_op_receipt E r) (λ _. Stored)
  unfolding save_contract_op_receipt insert_receipt write
  Returns-save = Gives-bind _ _ (Returns-sql E quiet) λ _.
      Gives-bind _ _ (Returns-marshal _ _ back.events.written) (
        Gives-known _ _ (
          Gives-bind _ _ (Returns-marshal _ _ back.withdraws.written) (
            Gives-known _ _ (
              Gives-bind _ _ (Returns-marshal _ _ back.balances.written) (
                Gives-known _ _ (
                  Gives-bind _ _ (Returns-marshal _ _ back.to_address.written) (
                    Gives-known _ _ (
                      Gives-bind _ _ (Returns-marshal _ _ back.to_contract.written) (
                        Gives-known _ _ (
                          Gives-bind _ _ (Returns-marshal _ _ back.fees.written) (
                            Gives-known _ _ (
                              Gives-bind _ _ (Returns-sql E quiet) λ _.
                                Gives-bind _ _
                                  (record {
                                    from = λ w h.
                                        find?-append key w.db.receipts.rows
                                          (stored_row w.db.receipts.next_id) h.0
                                          (own_key w.db.receipts.next_id)
                                        ∙ ap (λ i. some (stored_row i)) h.1;
                                  })
                                  λ _. Returns-save_events r.events back.no_nil))))))))))))

  -- The receipt with its number as its id.
  abbrev read_back : HxContractOpReceipt
  read_back = record r { id = format_nat n }

  Returns-receipt_of :
      Returns Stored (receipt_of E (some (stored_row n))) (λ o d. o ≡ some read_back)
  unfolding receipt_of lift pure ◌>>=◌
  Returns-receipt_of = record {
    from = λ w h.
        rw
          (
            back.events.is_text, back.events.read, back.withdraws.is_text, back.withdraws.read,
            back.balances.is_text, back.balances.read, back.to_address.is_text,
            back.to_address.read, back.to_contract.is_text, back.to_contract.read,
            back.fees.is_text, back.fees.read,
          )
          refl;
  }

  Returns-save_and_find : Returns Fresh (save_and_find E r) (λ o d. o ≡ some read_back)
  unfolding save_and_find find_contract_op_receipt
  Returns-save_and_find = Gives-bind _ _ Returns-save λ _.
      Gives-bind {Q = λ o d. (o ≡ some (stored_row n)) × Stored d} _ _
        (Gives-weaken _ (λ o d h. (h.1 ∙ h.0, h.0))
          (Returns-query_row E quiet rel Stored (λ d. d.receipts.rows) key))
        (Gives-known _ (some (stored_row n)) Returns-receipt_of)

-- With a driver that reports no error, a reliable row iteration, a receipt without nil events, and lists that
-- encoding/json writes as a text that is not empty and reads as it wrote them, SaveContractOpReceipt of a receipt that is not there yet and then FindContractOpReceipt by its
-- transaction and operation return the receipt, with the number of its row as its id.
pub save_and_find-done :
    (E : Env) (r : HxContractOpReceipt) (w : World)
    → Quiet E
    → Reliable E
    → ReadsBack E r
    → find? (is_receipt_of r.trxid r.op_num) w.db.receipts.rows ≡ none
    → (save_and_find E r w).0 ≡ done (some (record r { id = format_nat w.db.receipts.next_id }))
save_and_find-done E r w quiet rel back missing =
    let (o, returned, is) =
      Returns-done (save_and_find E r) w
        (Returns-save_and_find E quiet rel r back w.db.receipts.next_id) (missing, refl) in
    returned ∙ ap done is
