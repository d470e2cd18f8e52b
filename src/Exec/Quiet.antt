-- ===== src/Exec/Quiet.antt =====
-- A driver without errors: what returns, and not only what holds if it returns.
use mathlib.Core.Path.{subst}
use hxscanner.Prelude.{ℕ, ◌≡◌, refl, sym, ◌∙◌, Bool, true, false, Option, none, some, List, find?}
use hxscanner.Env.{Error, Result, ok, err, ok-injective, Env}
use hxscanner.Db.Schema.{Db}
use hxscanner.Exec.{
  World, Outcome, done, failed, fatal, panicked, M, pure, gets, write, ask, raised, sql, delivered,
  scanned, query_row, exec, settle, exec_checked,
}
use hxscanner.Exec.Keeps.{Post, Gives, Gives-bind}
use hxscanner.Exec.Leads.{Reliable, Seen, FoundIf}
use mathlib.Core.Option.{none-ne-some}

-- No call of the driver fails.
abbrev pub Quiet : Env → Type 0
Quiet E = (n : ℕ) → E.sql_error n ≡ none

abbrev pub Never : Db → Type 0
Never d = ⊥

-- From `P`, `m` returns, with `Q`.
abbrev pub Returns : {A : Type 0} → (Db → Type 0) → M A → (A → Db → Type 0) → Type 0
Returns P m Q = Gives P m Q Never

module _ {A : Type 0} {P : Db → Type 0} {Q : A → Db → Type 0} where
  pub Returns-done :
      (m : M A) (w : World) → Returns P m Q → P w.db → (a : A) × ((m w).0 ≡ done a) × Q a (m w).1.db
  Returns-done m w r h = part (m w).0 refl (r.from w h)
    where
      part :
          (o : Outcome A)
          → (m w).0 ≡ o
          → Post Q Never o (m w).1.db
          → (a : A) × ((m w).0 ≡ done a) × Q a (m w).1.db
      part (done a) e q = (a, e, q)
      part (failed x) e q = absurd q
      part (fatal x) e q = absurd q
      part panicked e q = absurd q

Returns-settle :
    (Q : Db → Type 0) (r : Result Db) (w : World) (d : Db)
    → r ≡ ok d
    → Q d
    → Post (λ a. Q) Never (settle r w).0 (settle r w).1.db
unfolding write
Returns-settle Q (ok d') w d e q = subst Q (sym (ok-injective d' d e)) q
Returns-settle Q (err x) w d e q = cc

module _ (E : Env) (quiet : Quiet E) {P : Db → Type 0} where
  Returns-raised : (o : Option Error) → o ≡ none → Returns P (raised o) (λ _. P)
  unfolding pure
  Returns-raised none e = record { from = λ w h. h }
  Returns-raised (some x) e = cc

  pub Returns-sql : Returns P (sql E) (λ _. P)
  unfolding sql ask
  Returns-sql =
      Gives-bind {Q = λ o d. P d × (o ≡ none)} (ask E.sql_error) raised
        (record { from = λ w h. (h, quiet w.tick) })
        (λ o. record { from = λ w h. (Returns-raised o h.1).from w h.0 })

  pub Returns-exec :
      {Q : Db → Type 0} (f : Db → Db) → ((d : Db) → P d → Q (f d)) → Returns P (exec E f) (λ _. Q)
  unfolding exec write
  Returns-exec f k =
      Gives-bind _ _ Returns-sql
        λ _. Gives-bind _ _ Returns-sql λ _. record { from = λ w h. k w.db h }

  -- A statement that the server takes.
  pub Returns-exec_checked :
      {Q : Db → Type 0} (f : Db → Result Db)
      → ((d : Db) → P d → (d' : Db) × (f d ≡ ok d') × Q d')
      → Returns P (exec_checked E f) (λ _. Q)
  unfolding exec_checked
  Returns-exec_checked {Q} f k = Gives-bind _ _ Returns-sql λ _.
      Gives-bind _ _ Returns-sql
        λ _. record { from = λ w h. let (d, e, q) = k w.db h in Returns-settle Q (f w.db) w d e q }

module _ (E : Env) (quiet : Quiet E) (rel : Reliable E) {A : Type 0} (P : Db → Type 0)
    (table : Db → List A) (test : A → Bool) where
  Returns-scanned :
      (stop : Bool) (row : Option A)
      → Returns
          (λ d. P d × (stop ≡ false) × (row ≡ find? test (table d)))
          (scanned E (delivered E stop row))
          (Seen P table test)
  unfolding pure
  Returns-scanned true row = record { from = λ w h. cc }
  Returns-scanned false none = record { from = λ w h. (h.0, h.2) }
  Returns-scanned false (some a) =
      Gives-bind _ _ (Returns-sql E quiet) λ _. record { from = λ w h. (h.0, h.2) }

  pub Returns-query_row : Returns P (query_row E table test) (Seen P table test)
  unfolding query_row ask gets
  Returns-query_row = Gives-bind _ _ (Returns-sql E quiet) λ _.
      Gives-bind {Q = λ stop d. P d × (stop ≡ false)} (ask E.rows_stop) _
        (record { from = λ w h. (h, rel w.tick) })
        λ stop.
          Gives-bind {Q = λ row d. P d × (stop ≡ false) × (row ≡ find? test (table d))}
            (gets (λ w. find? test (table w.db))) _ (record { from = λ w h. (h.0, h.1, refl) })
            (Returns-scanned stop)

module _ (E : Env) (quiet : Quiet E) {A : Type 0} (P : Db → Type 0) (table : Db → List A)
    (test : A → Bool) where
  Returns-scanned_if :
      (stop : Bool) (row : Option A)
      → Returns
          (λ d. P d × (row ≡ find? test (table d)))
          (scanned E (delivered E stop row))
          (FoundIf E P table test)
  unfolding pure
  Returns-scanned_if true row = record { from = λ w h. (h.0, λ r e. absurd (none-ne-some r e)) }
  Returns-scanned_if false none = record { from = λ w h. (h.0, λ r e. absurd (none-ne-some r e)) }
  Returns-scanned_if false (some a) =
      Gives-bind _ _ (Returns-sql E quiet) λ _. record { from = λ w h. (h.0, λ r e. sym h.1 ∙ e) }

  -- Also where the iteration stops early, a row that a look-up answers with is the first that passes.
  pub Returns-query_row_if : Returns P (query_row E table test) (FoundIf E P table test)
  unfolding query_row ask gets
  Returns-query_row_if = Gives-bind _ _ (Returns-sql E quiet) λ _.
      Gives-bind {Q = λ stop. P} (ask E.rows_stop) _ (record { from = λ w h. h })
        λ stop.
          Gives-bind {Q = λ row d. P d × (row ≡ find? test (table d))}
            (gets (λ w. find? test (table w.db))) _ (record { from = λ w h. (h, refl) })
            (Returns-scanned_if stop)
