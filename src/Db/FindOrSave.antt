-- ===== src/Db/FindOrSave.antt =====
-- Look up a row, and save one if there is none: the pattern by which every table is filled.
use mathlib.Core.Option.{some-ne-none}
use hxscanner.Prelude.{ℕ, ◌≡◌, refl, sym, ◌∙◌, String, Bool, Option, none, some, List, find?}
use hxscanner.Env.{Result, Env}
use hxscanner.Exec.{M, pure, ◌>>=◌, when_nil, query_row}
use hxscanner.Exec.Keeps.{
  Keeps, Keeps-pure, Keeps-lift, Keeps-if, Keeps-of_Gives, Gives, Gives-bind, Gives-weaken,
}
use hxscanner.Exec.Leads.{Leads, Reliable, Seen, Gives-query_row, Gives-after}
use hxscanner.Db.Schema.{Db, ReceiptRow}
use hxscanner.Db.Receipts.{find_contract_op_receipt, receipt_of, unmarshal_or, is_receipt_of}
use hxscanner.Db.Keys.{HasKeys, receipt_key}
use hxscanner.Db.Unique.{Absent}

-- A look-up by this test that answers with nil says that no row passes.
abbrev pub Missing : {A B : Type 0} → (Db → List A) → (A → Bool) → Option B → Db → Type 0
Missing table test o d = HasKeys d × (o ≡ none → none ≡ find? test (table d))

module _ {A B : Type 0} (table : Db → List A) (test : A → Bool) where
  pub Missing-known : (o : Option B) (d : Db) → Missing table test o d → HasKeys d
  Missing-known o d h = h.0

  -- `if x == nil { save }` after such a look-up.
  pub Leads-when-Missing :
      (o : Option B) (m : M (Unit {0}))
      → Leads (Absent table test) m HasKeys
      → Leads (Missing table test o) (when_nil o m) HasKeys
  unfolding pure
  Leads-when-Missing none m l = record { from = λ w h. l.from w (h.0, h.1 refl) }
  Leads-when-Missing (some b) m l = record { from = λ w h. h.0 }

  pub Keeps-find_or_save :
      (find : M (Option B)) (save : M (Unit {0}))
      → Gives HasKeys find (Missing table test) HasKeys
      → Leads (Absent table test) save HasKeys
      → Keeps HasKeys (find >>= λ o. when_nil o save)
  Keeps-find_or_save find save g l =
      Keeps-of_Gives _ (Gives-bind find _ g (λ o. Leads-when-Missing o save l))

module _ (E : Env) (rel : Reliable E) where
  pub Gives-Missing :
      {A : Type 0} (table : Db → List A) (test : A → Bool)
      → Gives HasKeys (query_row E table test) (Missing table test) HasKeys
  Gives-Missing table test =
      Gives-weaken _ (λ o d h. (h.0, λ e. sym e ∙ h.1)) (Gives-query_row E HasKeys table test rel)

  unmarshal-Keeps :
      {P : Db → Type 0} {A : Type 0} (a : A) (decode : String → Result A) (s : String)
      → Keeps P (unmarshal_or E a decode s)
  unmarshal-Keeps a decode s = Keeps-if _ _ _ (Keeps-pure a) (Keeps-lift _)

  Gives-receipt_of :
      (test : ReceiptRow → Bool) (row : Option ReceiptRow)
      → Gives
          (Seen HasKeys (λ d. d.receipts.rows) test row)
          (receipt_of E row)
          (Missing (λ d. d.receipts.rows) test)
          HasKeys
  unfolding receipt_of pure
  Gives-receipt_of test none = record { from = λ w h. (h.0, λ _. h.1) }
  Gives-receipt_of test (some r) =
      Gives-after _ _ (λ d h. h.0) (unmarshal-Keeps _ E.unmarshal_events _)
        λ _.
          Gives-after _ _ (λ d h. h.0) (unmarshal-Keeps _ E.unmarshal_values _)
            λ _.
              Gives-after _ _ (λ d h. h.0) (unmarshal-Keeps _ E.unmarshal_values _)
                λ _.
                  Gives-after _ _ (λ d h. h.0) (unmarshal-Keeps _ E.unmarshal_values _)
                    λ _.
                      Gives-after _ _ (λ d h. h.0) (unmarshal-Keeps _ E.unmarshal_values _)
                        λ _.
                          Gives-after _ _ (λ d h. h.0) (unmarshal-Keeps _ E.unmarshal_values _)
                            λ _. record { from = λ w h. (h.0, λ e. absurd (some-ne-none _ e)) }

  pub Gives-find_contract_op_receipt :
      (trxid : String) (n : ℕ)
      → Gives HasKeys
          (find_contract_op_receipt E trxid n)
          (Missing (λ d. d.receipts.rows) (receipt_key (trxid, n)))
          HasKeys
  unfolding find_contract_op_receipt
  Gives-find_contract_op_receipt trxid n =
      Gives-bind _ _ (Gives-query_row E HasKeys _ _ rel) (Gives-receipt_of (is_receipt_of trxid n))
