-- ===== src/Exec/Keeps.antt =====
-- The rules for invariants of actions and for what an action gives, and the invariants of the actions that ask
-- the environment.
mod Rules
pub use Rules.*
use mathlib.Core.Path.{subst}
use hxscanner.Prelude.{
  ℕ, ◌≡◌, refl, sym, Bool, true, false, Option, none, some, List, if◌then◌else◌,
}
use hxscanner.Value.{Value}
use hxscanner.Env.{Error, Result, ok, err, Env}
use hxscanner.Db.Schema.{Db, PgTableSchema}
use hxscanner.Exec.{
  World, Outcome, done, failed, fatal, panicked, M, pure, fail, exit, panic, lift, or_fail, caught,
  attempt, when_nil, or_exit, continue, ◌>>=◌, gets, write, put_schema, ask, raised, sql, now,
  connected, call, scanned, query_row, exec, settle, apply, exec_checked,
}

pub ruleset control_rules = (
  Keeps-pure, Keeps-fail, Keeps-exit, Keeps-panic, Keeps-lift, Keeps-or_fail, Keeps-attempt,
  Keeps-or_exit, Keeps-gets, Keeps-ask, Keeps-if, Keeps-put_schema, Keeps-bind,
)

module _ (E : Env) {P : Db → Type 0} where
  Keeps-raised : (o : Option Error) → Keeps P (raised o)
  Keeps-raised none = Keeps-pure tt
  Keeps-raised (some e) = Keeps-fail e

  pub Keeps-sql : Keeps P (sql E)
  unfolding sql
  Keeps-sql = search (control_rules, Keeps-raised)

  pub Keeps-now : Keeps P (now E)
  unfolding now
  Keeps-now = search control_rules

  pub Keeps-connected : Keeps P (connected E)
  unfolding connected
  Keeps-connected = search control_rules

  pub Keeps-call : (method : _) (args : List Value) → Keeps P (call E method args)
  unfolding call
  Keeps-call method args = search control_rules

  Keeps-scanned : {A : Type 0} (o : Option A) → Keeps P (scanned E o)
  Keeps-scanned none = search control_rules
  Keeps-scanned (some a) = search (control_rules, Keeps-sql)

  pub Keeps-query_row :
      {A : Type 0} (table : Db → List A) (test : A → Bool) → Keeps P (query_row E table test)
  unfolding query_row
  Keeps-query_row table test = search (control_rules, Keeps-sql, Keeps-scanned)

  Keeps-settle : (r : Result Db) → ((d : Db) → r ≡ ok d → P d) → Keeps P (settle r)
  unfolding write
  Keeps-settle (ok d) k = record { at = λ w h. k d refl }
  Keeps-settle (err e) k = Keeps-fail e

  Keeps-apply : (f : Db → Result Db) → ((d d' : Db) → P d → f d ≡ ok d' → P d') → Keeps P (apply f)
  Keeps-apply f k = record { at = λ w h. (Keeps-settle' w h).at w h }
    where
      Keeps-settle' : (w : World) → P w.db → Keeps P (settle (f w.db))
      Keeps-settle' w h = Keeps-settle (f w.db) (λ d e. k w.db d h e)

  pub Keeps-exec_checked :
      (f : Db → Result Db) → ((d d' : Db) → P d → f d ≡ ok d' → P d') → Keeps P (exec_checked E f)
  unfolding exec_checked
  Keeps-exec_checked f k = search (control_rules, Keeps-sql, Keeps-apply)

  pub Keeps-exec : (f : Db → Db) → ((d : Db) → P d → P (f d)) → Keeps P (exec E f)
  unfolding exec
  Keeps-exec f k = search (control_rules, Keeps-sql, Keeps-write)

pub ruleset keeps_rules = (
  control_rules, Keeps-sql, Keeps-now, Keeps-connected, Keeps-call, Keeps-query_row, Keeps-exec,
  Keeps-exec_checked, Keeps-when_nil,
)
