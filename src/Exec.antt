-- ===== src/Exec.antt =====
-- The program's effects: the database, the cache of table schemas, Go errors, and the two ways in
-- which the process can end (`logger.Fatal` and a run-time panic). What was written before an error
-- stays written, so the state comes back beside every outcome.
pub mod Keeps
pub mod Leads
pub mod Quiet
pub mod Ends
pub mod Any
pub mod Completes
use hxscanner.Prelude.{
  ℕ, ◌+◌, ◌≡◌, refl, String, Bool, true, false, Option, none, some, List, [], ◌∷◌, find?,
}
use hxscanner.Value.{Value}
use hxscanner.Env.{Error, Result, ok, err, Env}
use hxscanner.Db.Schema.{Db, PgTableSchema}

pub record World : Type 0 where
  -- how many interactions with the environment there have been
  pub tick : ℕ
  pub db : Db
  -- `tableSchemaCache`
  pub schema_cache : List (String × PgTableSchema)

pub data Outcome (A : Type 0) : Type 0 where
  done : A → Outcome A
  -- the function returns an error
  failed : Error → Outcome A
  -- `logger.Fatal`: the process exits
  fatal : Error → Outcome A
  -- a run-time panic: the process exits
  panicked : Outcome A

abbrev pub M : Type 0 → Type 0
M A = World → Outcome A × World

module _ {A : Type 0} where
  unfoldable pub pure : A → M A
  pure a w = (done a, w)

  unfoldable pub fail : Error → M A
  fail e w = (failed e, w)

  unfoldable pub exit : Error → M A
  exit e w = (fatal e, w)

  unfoldable pub panic : M A
  panic w = (panicked, w)

  unfoldable pub lift : Result A → M A
  lift (ok a) w = (done a, w)
  lift (err e) w = (failed e, w)

  abbrev pub or_fail : Option A → Error → M A
  or_fail none e = fail e
  or_fail (some a) e = pure a

  abbrev caught : Outcome A → Outcome (Result A)
  caught (done a) = done (ok a)
  caught (failed e) = done (err e)
  caught (fatal e) = fatal e
  caught panicked = panicked

  -- The caller looks at the error itself.
  unfoldable pub attempt : M A → M (Result A)
  attempt m w = let (o, w') = m w in (caught o, w')

  abbrev fatally : Outcome A → Outcome A
  fatally (failed e) = fatal e
  fatally o = o

  -- `if err != nil { logger.Fatal(…) }`
  unfoldable pub or_exit : M A → M A
  or_exit m w = let (o, w') = m w in (fatally o, w')

module _ {A B : Type 0} where
  abbrev pub continue : Outcome A → (A → M B) → M B
  continue (done a) f w = f a w
  continue (failed e) f w = (failed e, w)
  continue (fatal e) f w = (fatal e, w)
  continue panicked f w = (panicked, w)

  infixl 5 ◌>>=◌ ◌>>◌
  unfoldable pub ◌>>=◌ : M A → (A → M B) → M B
  unfolding pure fail exit panic lift attempt or_exit
  ◌>>=◌ m f w = let (o, w') = m w in continue o f w'

  abbrev pub ◌>>◌ : M A → M B → M B
  m >> k = m >>= λ _. k

unfoldable pub gets : {A : Type 0} → (World → A) → M A
gets f w = (done (f w), w)

-- A statement's effect on the database.
unfoldable pub write : (Db → Db) → M (Unit {0})
write f w = (done tt, record w { db = f w.db })

unfoldable pub put_schema : String → PgTableSchema → M (Unit {0})
put_schema name s w = (done tt, record w { schema_cache = (name, s) ∷ w.schema_cache })

-- An answer of the environment.
unfoldable pub ask : {A : Type 0} → (ℕ → A) → M A
ask f w = (done (f w.tick), record w { tick = w.tick + 1 })

abbrev pub raised : Option Error → M (Unit {0})
raised none = pure tt
raised (some e) = fail e

-- `if x == nil { … }`
abbrev pub when_nil : {A : Type 0} → Option A → M (Unit {0}) → M (Unit {0})
when_nil none m = m
when_nil (some a) m = pure tt

-- A statement that the server may refuse, such as one that breaks a constraint.
abbrev settle : Result Db → M (Unit {0})
settle (ok d) = write (λ _. d)
settle (err e) = fail e

abbrev apply : (Db → Result Db) → M (Unit {0})
apply f w = settle (f w.db) w

module _ (E : Env) where
  -- One call of the driver: `Query`, `Prepare`, `Exec` or `Scan`.
  unfoldable pub sql : M (Unit {0})
  sql = do e ← ask E.sql_error; raised e

  unfoldable pub now : M ℕ
  now = ask E.now

  unfoldable pub connected : M Bool
  connected = ask E.connected

  unfoldable pub call : String → List Value → M Value
  call method args = do r ← ask (λ n. E.call n method args); lift r

  -- `if rows.Next()`: a row, or none, also where the iteration fails.
  abbrev pub delivered : {A : Type 0} → Bool → Option A → Option A
  delivered true o = none
  delivered false o = o

  -- `rows.Scan` into the entity.
  abbrev scanned : {A : Type 0} → Option A → M (Option A)
  scanned none = pure none
  scanned (some a) = do sql; pure (some a)

  -- `SELECT … WHERE test`, and the first row of the answer.
  unfoldable pub query_row : {A : Type 0} → (Db → List A) → (A → Bool) → M (Option A)
  query_row table test = do
    sql
    stop ← ask E.rows_stop
    row ← gets (λ w. find? test (table w.db))
    scanned (delivered stop row)

  -- `Prepare` and `Exec` of a statement that writes.
  unfoldable pub exec : (Db → Db) → M (Unit {0})
  exec f = do sql; sql; write f

  unfoldable pub exec_checked : (Db → Result Db) → M (Unit {0})
  exec_checked f = do sql; sql; apply f
