-- ===== src/Scanner/CompleteOps.antt =====
-- With a driver that reports no error, an operation that is well-formed is stored, or the process ends.
use mathlib.Core.Path.{subst}
use hxscanner.Prelude.{
  ℕ, suc, ◌≡◌, refl, ap, ◌∙◌, String, true, false, Option, none, some, List, [], ◌∷◌, count-pos,
  eq_refl, All,
}
use hxscanner.Prelude.Int.{ℤ}
use hxscanner.Value.{Value, Object}
use hxscanner.Types.{HxBlock, HxContractTxReceipt}
use hxscanner.Env.{Result, ok, err, Env}
use hxscanner.Exec.{M, pure, or_exit, when_nil, ◌>>=◌, gets}
use hxscanner.Exec.Keeps.{Keeps, Gives-bind, Gives-invariant, Gives-of_Keeps}
use hxscanner.Exec.Leads.{FoundIf, Gives-exec}
use hxscanner.Exec.Any.{Any, Gives-Any}
use hxscanner.Exec.Quiet.{Quiet, Returns, Returns-sql, Returns-query_row_if}
use hxscanner.Exec.Ends.{Returns-pure, Returns-ask}
use hxscanner.Exec.Completes.{
  Completes, Each, Succeeded, Completes-pure, Completes-bind, Completes-attempt, Completes-or_exit,
  Completes-of_Returns, Completes-if, Completes-lift, Completes-Keeps,
}
use hxscanner.Db.Schema.{Db, BaseOperationEntity, OpTable}
use hxscanner.Db.Keys.{operation_key}
use hxscanner.Db.Operations.{get_base_operation_id, find_base_operation, save_base_operation}
use hxscanner.Db.Dynamic.{check_table_exist, found_row}
use hxscanner.Node.Names.{get_operation_name_by_operation_type}
use hxscanner.Scanner.Operation.{
  OpScannerPlugin, decode_op_pair, op_type_number, ensure_table, store_operation,
  store_base_operation, base_operation, scan_op,
}
use hxscanner.Scanner.Block.{until_break}
use hxscanner.Scanner.Keeps.{Keeps-apply_plugins, Keeps-until_break}
use hxscanner.Scanner.Persist.{Persists, HasOperation, append-HasRow_new}
use hxscanner.Scanner.WellFormed.{GoodPair}

-- A loop whose rounds complete has done each of them, if what a round does stays done.
pub Completes-until_break :
    {A : Type 0} {F : ℕ → A → Db → Type 0} (body : ℕ → A → M (Unit {0}))
    → ((i : ℕ) (a : A) (j : ℕ) (b : A) → Keeps (F i a) (body j b))
    → (i : ℕ) (xs : List A) → All (λ a. (j : ℕ) → Completes Any (body j a) (λ _. F j a)) xs
    → Completes Any (until_break body i xs) (λ _. Each F i xs)
unfolding until_break
Completes-until_break body keeps i [] k = Completes-pure tt (λ d h. tt)
Completes-until_break {A} {F} body keeps i (a ∷ xs) k =
    Completes-bind _ _ (Completes-attempt _ (k.0 i)) (
      part (
        Completes-Keeps _ (Completes-until_break body keeps (suc i) xs k.1)
          (Keeps-until_break body (suc i) xs (keeps i a))))
  where
    part :
        Completes (F i a) (until_break body (suc i) xs) (λ _ d. F i a d × Each F (suc i) xs d)
        → (r : Result (Unit {0}))
        → Completes
            (Succeeded (λ _. F i a) r)
            (elim r [ err e ↦ pure tt | ok u ↦ until_break body (suc i) xs ])
            (λ _. Each F i (a ∷ xs))
    part later (err e) = record { from = λ w h. absurd h }
    part later (ok u) = later

-- The operation has its row in the base table.
abbrev pub OpStored : HxBlock → String → ℕ → List Value → Db → Type 0
OpStored b trxid i pair = HasOperation (get_base_operation_id b.block_number trxid i)

module _ (E : Env) (quiet : Quiet E) where
  Returns-check_table_exist : (name : String) → Returns Any (check_table_exist E name) (λ _. Any)
  unfolding check_table_exist gets found_row
  Returns-check_table_exist name = Gives-bind _ _ (Returns-sql E quiet) λ _.
      Gives-bind _ _ (Returns-ask E.rows_stop)
        λ stop. Gives-bind {Q = λ _. Any} _ _ (record { from = λ w h. tt }) λ table. returned _
    where
      returned : (o : Option OpTable) → Returns Any (found_row E o) (λ _. Any)
      returned none = Returns-pure false (λ d h. tt)
      returned (some t) = Returns-pure true (λ d h. tt)

  Completes-ensure_table :
      (name : String) (op_json : Object) → Completes Any (ensure_table E name op_json) (λ _. Any)
  unfolding ensure_table
  Completes-ensure_table name op_json =
      Completes-bind _ _ (Completes-of_Returns _ (Returns-check_table_exist name)) λ found.
        Completes-if found _ _ (λ _. Completes-pure tt (λ d h. tt))
          (Completes-bind _ _ (Completes-or_exit _ (Gives-Any _))
            (λ _. Completes-or_exit _ (Gives-Any _)))

  Completes-store_operation :
      (name trxid : String) (i : ℕ) (op_json : Object)
      → Completes Any (store_operation E name trxid i op_json) (λ _. Any)
  unfolding store_operation
  Completes-store_operation name trxid i op_json =
      Completes-bind _ _ (Completes-or_exit _ (Gives-Any _)) λ found.
        Completes-if found _ _ (λ _. Completes-pure tt (λ d h. tt))
          (Completes-bind _ _ (Completes-or_exit _ (Gives-Any _))
            (λ _. Completes-or_exit _ (Gives-Any _)))

  module _ (b : HxBlock) (trxid : String) (i : ℕ) where
    abbrev id : String
    id = get_base_operation_id b.block_number trxid i

    Completes-saved :
        (o : BaseOperationEntity)
        → o.id ≡ id
        → Completes Any (or_exit (save_base_operation E o)) (λ _. HasOperation id)
    unfolding save_base_operation
    Completes-saved o same = Completes-or_exit _ (
        Gives-exec E (λ d h. tt) _
          (λ d h. append-HasRow_new (operation_key id) d.operations.rows _ (rw same (eq_refl id))))

    Completes-store_base_operation :
        (tx_index : ℕ) (t : ℤ) (name : String) (op_json : Object)
        → Completes Any
            (store_base_operation E b trxid tx_index i t name op_json)
            (λ _. HasOperation id)
    unfolding store_base_operation find_base_operation
    Completes-store_base_operation tx_index t name op_json =
        Completes-bind _ _ (Completes-or_exit _ (Gives-Any _)) λ json.
          Completes-bind _ _
            (Completes-of_Returns _
              (Returns-query_row_if E quiet Any (λ d. d.operations.rows) (operation_key id)))
            (stored (base_operation E b trxid tx_index i t name json _) refl)
      where
        stored :
            (entity : BaseOperationEntity)
            → entity.id ≡ id
            → (o : Option BaseOperationEntity)
            → Completes
                (FoundIf E Any (λ d. d.operations.rows) (operation_key id) o)
                (when_nil o (or_exit (save_base_operation E entity)))
                (λ _. HasOperation id)
        stored entity same none = record { from = λ w h. (Completes-saved entity same).from w tt }
        stored entity same (some r) =
            Completes-pure tt (λ d h. count-pos (operation_key id) d.operations.rows r (h.1 r refl))

    -- The type and the object of a pair that is well-formed.
    Completes-decode_op_pair :
        (pair : List Value) (good : GoodPair pair)
        → Completes Any (decode_op_pair pair) (λ r d. r ≡ (good.op_type, good.object))
    unfolding decode_op_pair op_type_number pure ◌>>=◌
    Completes-decode_op_pair pair good =
        subst (λ p. Completes Any (decode_op_pair p) (λ r d. r ≡ (good.op_type, good.object)))
          good.is_pair (record { from = λ w h. rw (good.parsed, good.is_object) refl })

    named_type :
        (pair : List Value) (good : GoodPair pair) (decoded : ℤ × Object)
        → decoded ≡ (good.op_type, good.object)
        → get_operation_name_by_operation_type decoded.0 ≡ ok good.name
    named_type pair good decoded same =
        ap (λ r. get_operation_name_by_operation_type r.0) same ∙ good.named

    pub Completes-scan_op :
        (ps : List OpScannerPlugin)
        → Persists E ps (HasOperation id)
        → (tx_index : ℕ) (rs : Option HxContractTxReceipt) (pair : List Value) → GoodPair pair
        → Completes Any (scan_op E ps b trxid tx_index rs i pair) (λ _. OpStored b trxid i pair)
    unfolding scan_op
    Completes-scan_op ps persists tx_index rs pair good =
        Completes-bind _ _ (Completes-decode_op_pair pair good) λ (t, json).
          Completes-bind _ _
            (Completes-lift _ (λ d h. (good.name, named_type pair good (t, json) h)))
            λ name. Completes-bind _ _ (Completes-ensure_table _ _) λ _.
              Completes-bind _ _ (Completes-store_operation _ _ _ _) λ _.
                Completes-bind _ _ (Completes-store_base_operation _ _ _ _) λ _.
                  Completes-or_exit _ (
                    Gives-invariant _ (λ d h. tt)
                      (Gives-of_Keeps _
                        (Keeps-apply_plugins E persists.stores ps persists.applied _ _ _ _ _ _ _)))
