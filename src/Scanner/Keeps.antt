-- ===== src/Scanner/Keeps.antt =====
-- An invariant that each statement of the scanner and each plugin keeps is kept by the loops over the
-- operations, the transactions and the receipts, whichever of them break.
use hxscanner.Prelude.{ℕ, zero, suc, String, Option, none, some, List, [], ◌∷◌}
use hxscanner.Prelude.Int.{ℤ}
use hxscanner.Value.{Value, Object, null, number}
use hxscanner.Types.{HxBlock, HxTransaction, HxContractOpReceipt, HxContractTxReceipt}
use hxscanner.Env.{Result, ok, err, Env}
use hxscanner.Db.Schema.{Db}
use hxscanner.Exec.{M, pure}
use hxscanner.Exec.Keeps.{
  Keeps, Keeps-pure, Keeps-fail, Keeps-panic, Keeps-bind, Keeps-if, Keeps-attempt, Keeps-or_exit,
  Keeps-lift, keeps_rules,
}
use hxscanner.Node.Keeps.{Keeps-get_tx_receipts}
use hxscanner.Scanner.Operation.{
  OpScannerPlugin, decode_op_pair, op_type_number, enrich, ensure_table, store_operation,
  store_base_operation, apply_plugins_to_operation, scan_op,
}
use hxscanner.Scanner.Block.{
  until_break, store_transaction, store_receipts, store_tx_receipts, scan_tx,
}

-- Whatever a plugin is given, it keeps `P`.
pub record KeepsPlugin (P : Db → Type 0) (p : OpScannerPlugin) : Type 0 where
  pub applied :
      (block : HxBlock) (txid : String) (op_num : ℕ) (op_type : ℤ) (op_type_name : String)
      (op_json : Object) (receipt : Option HxContractOpReceipt)
      → Keeps P (p.apply_operation block txid op_num op_type op_type_name op_json receipt)

abbrev pub KeepsPlugins : (Db → Type 0) → List OpScannerPlugin → Type 0
KeepsPlugins P [] = Unit
KeepsPlugins P (p ∷ ps) = KeepsPlugin P p × KeepsPlugins P ps

-- What the scanner stores inside a block keeps `P`.
pub record KeepsStores (E : Env) (P : Db → Type 0) : Type 0 where
  pub tables : (name : String) (op_json : Object) → Keeps P (ensure_table E name op_json)
  pub op_rows :
      (name : String) (block : HxBlock) (trxid : String) (i : ℕ) (op_json : Object)
      → Keeps P (store_operation E name trxid i (enrich block trxid i op_json))
  pub base_rows :
      (block : HxBlock) (trxid : String) (tx_index op_index : ℕ) (op_type : ℤ) (name : String)
      (op_json : Object)
      → Keeps P (store_base_operation E block trxid tx_index op_index op_type name op_json)
  pub tx_rows : (tx : HxTransaction) → Keeps P (store_transaction E tx)
  pub receipt_rows : (rs : List (Option HxContractOpReceipt)) → Keeps P (store_receipts E rs)

module _ {P : Db → Type 0} {A : Type 0} where
  pub Keeps-until_break :
      (body : ℕ → A → M (Unit {0})) (i : ℕ) (xs : List A)
      → ((i : ℕ) (a : A) → Keeps P (body i a))
      → Keeps P (until_break body i xs)
  unfolding until_break
  Keeps-until_break body i [] k = Keeps-pure tt
  Keeps-until_break body i (a ∷ xs) k =
      Keeps-bind _ _ (Keeps-attempt _ (k i a)) (part (Keeps-until_break body (suc i) xs k))
    where
      part :
          Keeps P (until_break body (suc i) xs)
          → (r : Result (Unit {0}))
          → Keeps P (elim r [ err e ↦ pure tt | ok u ↦ until_break body (suc i) xs ])
      part ih (err e) = Keeps-pure tt
      part ih (ok u) = ih

Keeps-op_type_number : {P : Db → Type 0} (v : Value) → Keeps P (op_type_number v)
unfolding op_type_number
Keeps-op_type_number null = Keeps-panic
Keeps-op_type_number (number n) = Keeps-pure n
Keeps-op_type_number _ = Keeps-fail _

Keeps-decode_op_pair : {P : Db → Type 0} (pair : List Value) → Keeps P (decode_op_pair pair)
unfolding decode_op_pair
Keeps-decode_op_pair [] = Keeps-fail _
Keeps-decode_op_pair (t ∷ []) = Keeps-fail _
Keeps-decode_op_pair (t ∷ json ∷ []) = search (keeps_rules, Keeps-op_type_number)
Keeps-decode_op_pair (t ∷ json ∷ v ∷ vs) = Keeps-fail _

module _ (E : Env) {P : Db → Type 0} (S : KeepsStores E P) where
  pub Keeps-apply_plugins :
      (ps : List OpScannerPlugin)
      → KeepsPlugins P ps
      → (block : HxBlock) (txid : String) (i : ℕ) (t : ℤ) (name : String) (op_json : Object)
        (receipt : Option HxContractOpReceipt)
      → Keeps P (apply_plugins_to_operation E ps block txid i t name op_json receipt)
  unfolding apply_plugins_to_operation
  Keeps-apply_plugins [] k block txid i t name op_json receipt = Keeps-pure tt
  Keeps-apply_plugins (p ∷ ps) k block txid i t name op_json receipt =
      Keeps-bind _ _ (k.0.applied block txid i t name op_json receipt)
        (λ _. Keeps-apply_plugins ps k.1 block txid i t name op_json receipt)

  pub Keeps-scan_op :
      (ps : List OpScannerPlugin)
      → KeepsPlugins P ps
      → (block : HxBlock) (trxid : String) (tx_index : ℕ) (rs : Option HxContractTxReceipt) (i : ℕ)
        (pair : List Value)
      → Keeps P (scan_op E ps block trxid tx_index rs i pair)
  unfolding scan_op
  Keeps-scan_op ps k block trxid tx_index rs i pair =
      Keeps-bind _ _ (Keeps-decode_op_pair pair) λ (t, json). Keeps-bind _ _ (Keeps-lift _) λ name.
        Keeps-bind _ _ (S.tables _ _) λ _. Keeps-bind _ _ (S.op_rows _ block trxid i json) λ _.
          Keeps-bind _ _ (S.base_rows _ _ _ _ _ _ _)
            λ _. Keeps-or_exit _ (Keeps-apply_plugins ps k _ _ _ _ _ _ _)

  Keeps-store_tx_receipts : (rs : Option HxContractTxReceipt) → Keeps P (store_tx_receipts E rs)
  Keeps-store_tx_receipts none = Keeps-pure tt
  Keeps-store_tx_receipts (some rs) = S.receipt_rows _

  pub Keeps-scan_tx :
      (ps : List OpScannerPlugin)
      → KeepsPlugins P ps
      → (block : HxBlock) (tx_index : ℕ) (tx : HxTransaction)
      → Keeps P (scan_tx E ps block tx_index tx)
  unfolding scan_tx
  Keeps-scan_tx ps k block tx_index tx =
      Keeps-bind _ _ (Keeps-if _ _ _ (Keeps-get_tx_receipts E _) (Keeps-pure none)) λ rs.
        Keeps-bind _ _ (S.tx_rows _) λ _.
          Keeps-bind _ _
            (Keeps-until_break _ zero tx.operations (Keeps-scan_op ps k block tx.trxid tx_index rs))
            (λ _. Keeps-store_tx_receipts rs)
