-- ===== src/Scanner/Persist.antt =====
-- A transaction or an operation that is stored stays stored.
use mathlib.Core.Path.{subst}
use hxscanner.Prelude.{
  ◌<◌, ◌≡◌, sym, String, Bool, true, List, [], ◌∷◌, ◌++◌, count, count-append, arith,
}
use hxscanner.Env.{Env}
use hxscanner.Exec.Keeps.{Keeps-bind, Keeps-exec, Keeps-sql, Keeps-write}
use hxscanner.Db.Schema.{Db}
use hxscanner.Db.Keys.{transaction_key, operation_key}
use hxscanner.Db.Keeps.{
  Keeps-save_base_operation, Keeps-save_transaction, Keeps-first_operation_type,
}
use hxscanner.Db.Blocks.{save_transaction, insert_transaction}
use hxscanner.Db.Operations.{save_base_operation}
use hxscanner.Scanner.Operation.{OpScannerPlugin}
use hxscanner.Scanner.Keeps.{KeepsStores, KeepsPlugins}
use hxscanner.Scanner.Stores.{KeepsStores-with, Keeps-ensure_table, Keeps-store_operation}
use hxscanner.Scanner.Registered.{plugins, plugins-apart}

-- A row of the table passes.
abbrev pub HasRow : {A : Type 0} → (A → Bool) → List A → Type 0
HasRow test rows = 0 < count test rows

abbrev pub HasTransaction : String → Db → Type 0
HasTransaction trxid d = HasRow (transaction_key trxid) d.transactions.rows

abbrev pub HasOperation : String → Db → Type 0
HasOperation id d = HasRow (operation_key id) d.operations.rows

pub append-HasRow :
    {A : Type 0} (test : A → Bool) (rows : List A) (r : A)
    → HasRow test rows
    → HasRow test (rows ++ r ∷ [])
append-HasRow test rows r h =
    subst (λ n. 0 < n) (sym (count-append test rows (r ∷ []))) (omega arith)

pub append-HasRow_new :
    {A : Type 0} (test : A → Bool) (rows : List A) (r : A)
    → test r ≡ true
    → HasRow test (rows ++ r ∷ [])
append-HasRow_new test rows r e = ground (arith, count-append test rows (r ∷ []), e)

-- The statements inside a block and the plugins keep `P`.
pub record Persists (E : Env) (ps : List OpScannerPlugin) (P : Db → Type 0) : Type 0 where
  pub stores : KeepsStores E P
  pub applied : KeepsPlugins P ps

module _ (E : Env) (caller_pub_key : String) where
  pub Persists-HasOperation :
      (id : String) → Persists E (plugins E caller_pub_key) (HasOperation id)
  unfolding save_base_operation
  Persists-HasOperation id = record {
    stores =
        KeepsStores-with E (λ d t h. h) (λ d t h. h) (Keeps-ensure_table E (λ d t h. h))
          (λ name b trxid i op_json. Keeps-store_operation E (λ d t h. h) name trxid i _)
          (λ o. Keeps-exec E _ (λ d h. append-HasRow (operation_key id) d.operations.rows _ h))
          (λ tx. Keeps-save_transaction E tx (λ d t h. h));
    applied =
        plugins-apart E caller_pub_key (HasOperation id) (λ d t h. h) (λ d t h. h) (λ d t h. h)
          (λ d t h. h) (λ d t h. h) (λ d t h. h);
  }

  pub Persists-HasTransaction :
      (trxid : String) → Persists E (plugins E caller_pub_key) (HasTransaction trxid)
  unfolding save_transaction insert_transaction
  Persists-HasTransaction trxid = record {
    stores =
        KeepsStores-with E (λ d t h. h) (λ d t h. h) (Keeps-ensure_table E (λ d t h. h))
          (λ name b t i op_json. Keeps-store_operation E (λ d t h. h) name t i _)
          (λ o. Keeps-save_base_operation E o (λ d t h. h))
          (λ tx. Keeps-bind _ _ (Keeps-sql E) λ _.
            Keeps-bind _ _ (Keeps-first_operation_type E tx.operations) λ first.
              Keeps-bind _ _ (Keeps-sql E) λ _.
                Keeps-write _
                  (λ d h. append-HasRow (transaction_key trxid) d.transactions.rows _ h));
    applied =
        plugins-apart E caller_pub_key (HasTransaction trxid) (λ d t h. h) (λ d t h. h) (λ d t h. h)
          (λ d t h. h) (λ d t h. h) (λ d t h. h);
  }
