-- ===== src/Exec/Leads.antt =====
-- Actions that lead from a fact about the database to an invariant, and what a look-up finds.
use mathlib.Core.Bool.{false≢true}
use mathlib.Core.Option.{none-ne-some}
use hxscanner.Prelude.{ℕ, ◌≡◌, refl, sym, ◌∙◌, Bool, true, false, Option, none, some, List, find?}
use hxscanner.Env.{Result, ok, err, Env}
use hxscanner.Db.Schema.{Db}
use hxscanner.Exec.{
  World, Outcome, done, failed, fatal, panicked, M, pure, fail, ◌>>=◌, gets, write, ask, sql,
  or_exit, fatally, delivered, scanned, query_row, exec, exec_checked, settle, apply, when_nil,
}
use hxscanner.Exec.Keeps.{Keeps, Post, Gives, Gives-bind, Gives-of_Keeps, Keeps-sql, Keeps-ask}

-- `rows.Next` never stops before the last row.
abbrev pub Reliable : Env → Type 0
Reliable E = (n : ℕ) → E.rows_stop n ≡ false

-- From `P`, every outcome of `m` leaves `I`.
abbrev pub Leads : {A : Type 0} → (Db → Type 0) → M A → (Db → Type 0) → Type 0
Leads P m I = Gives P m (λ a. I) I

module _ {A : Type 0} {P I : Db → Type 0} where
  pub Leads-weaken : (m : M A) → ((d : Db) → P d → I d) → Keeps I m → Leads P m I
  Leads-weaken m imp k = record { from = λ w h. (Gives-of_Keeps m k).from w (imp w.db h) }

module _ {A : Type 0} {P I : Db → Type 0} {Q : A → Db → Type 0} where
  pub Gives-or_exit : (m : M A) → Gives P m Q I → Gives P (or_exit m) Q I
  unfolding or_exit
  Gives-or_exit m l = record { from = λ w h. part (m w).0 (m w).1.db (l.from w h) }
    where
      part : (o : Outcome A) (d : Db) → Post Q I o d → Post Q I (fatally o) d
      part (done a) d p = p
      part (failed e) d p = p
      part (fatal e) d p = p
      part panicked d p = p

module _ {P I : Db → Type 0} where
  pub Leads-write : (f : Db → Db) → ((d : Db) → P d → I (f d)) → Leads P (write f) I
  unfolding write
  Leads-write f k = record { from = λ w h. k w.db h }

module _ {A B : Type 0} {P I : Db → Type 0} {R : B → Db → Type 0} where
  -- A part that keeps what is known.
  pub Gives-after :
      (m : M A) (f : A → M B)
      → ((d : Db) → P d → I d)
      → Keeps P m
      → ((a : A) → Gives P (f a) R I)
      → Gives P (m >>= f) R I
  Gives-after m f imp k l =
      Gives-bind m f (record { from = λ w h. part (m w).0 (m w).1.db (k.at w h) }) l
    where
      part : (o : Outcome A) (d : Db) → P d → Post (λ a. P) I o d
      part (done a) d p = p
      part (failed e) d p = imp d p
      part (fatal e) d p = imp d p
      part panicked d p = imp d p

module _ {A B : Type 0} {P I : Db → Type 0} where
  -- The part after the change keeps the invariant.
  pub Leads-then :
      (m : M A) (f : A → M B) → Leads P m I → ((a : A) → Keeps I (f a)) → Leads P (m >>= f) I
  Leads-then m f l k = Gives-bind m f l (λ a. Gives-of_Keeps (f a) (k a))

module _ (E : Env) {P I : Db → Type 0} (imp : (d : Db) → P d → I d) where
  pub Gives-exec :
      {Q : Db → Type 0} (f : Db → Db) → ((d : Db) → P d → Q (f d)) → Gives P (exec E f) (λ a. Q) I
  unfolding exec write
  Gives-exec f k =
      Gives-after _ _ imp (Keeps-sql E)
        λ _. Gives-after _ _ imp (Keeps-sql E) λ _. record { from = λ w h. k w.db h }

  pub Leads-exec : (f : Db → Db) → ((d : Db) → P d → I (f d)) → Leads P (exec E f) I
  Leads-exec f k = Gives-exec f k

  module _ {Q : Db → Type 0} where
    Gives-settle :
        (r : Result Db) (w : World)
        → P w.db
        → ((d : Db) → r ≡ ok d → Q d)
        → Post (λ a. Q) I (settle r w).0 (settle r w).1.db
    unfolding write fail
    Gives-settle (ok d) w h k = k d refl
    Gives-settle (err e) w h k = imp w.db h

    Gives-apply :
        (f : Db → Result Db)
        → ((d d' : Db) → P d → f d ≡ ok d' → Q d')
        → Gives P (apply f) (λ a. Q) I
    Gives-apply f k = record { from = λ w h. Gives-settle (f w.db) w h (λ d. k w.db d h) }

    -- A statement that the server takes leaves `Q`.
    pub Gives-exec_checked :
        (f : Db → Result Db)
        → ((d d' : Db) → P d → f d ≡ ok d' → Q d')
        → Gives P (exec_checked E f) (λ a. Q) I
    unfolding exec_checked
    Gives-exec_checked f k =
        Gives-after _ _ imp (Keeps-sql E)
          (λ _. Gives-after _ _ imp (Keeps-sql E) (λ _. Gives-apply f k))

  pub Leads-exec_checked :
      (f : Db → Result Db) → ((d d' : Db) → P d → f d ≡ ok d' → I d') → Leads P (exec_checked E f) I
  Leads-exec_checked f k = Gives-exec_checked f k

  -- `if x == nil { m }`, where it is known whether x is nil.
  pub Leads-when_nil :
      {A : Type 0} (o : Option A) (m : M (Unit {0}))
      → (o ≡ none → Leads P m I)
      → Leads P (when_nil o m) I
  unfolding pure
  Leads-when_nil none m l = l refl
  Leads-when_nil (some a) m l = record { from = λ w h. imp w.db h }

-- The answer of a look-up, and what is known besides.
abbrev pub Seen : {A : Type 0} → (Db → Type 0) → (Db → List A) → (A → Bool) → Option A → Db → Type 0
Seen P table test o d = P d × (o ≡ find? test (table d))

module _ (E : Env) {A : Type 0} (P : Db → Type 0) (table : Db → List A) (test : A → Bool) where
  Gives-scanned : (o : Option A) → Gives (Seen P table test o) (scanned E o) (Seen P table test) P
  unfolding pure
  Gives-scanned none = record { from = λ w h. h }
  Gives-scanned (some a) =
      Gives-after (sql E) _ (λ d h. h.0) (Keeps-sql E) (λ _. record { from = λ w h. h })

  Gives-delivered :
      (stop : Bool) (row : Option A)
      → Gives
          (λ d. P d × (stop ≡ false) × (row ≡ find? test (table d)))
          (scanned E (delivered E stop row))
          (Seen P table test)
          P
  Gives-delivered true row = record { from = λ w h. absurd (false≢true (sym h.1)) }
  Gives-delivered false row = record { from = λ w h. (Gives-scanned row).from w (h.0, h.2) }

  -- With a reliable iteration a look-up answers with the first row that passes, if there is one.
  pub Gives-query_row : Reliable E → Gives P (query_row E table test) (Seen P table test) P
  unfolding query_row ask gets
  Gives-query_row rel =
      Gives-after (sql E) _ (λ d h. h) (Keeps-sql E)
        λ _.
          Gives-bind {Q = λ stop d. P d × (stop ≡ false)} (ask E.rows_stop) _
            (record { from = λ w h. (h, rel w.tick) })
            λ stop.
              Gives-bind {Q = λ row d. P d × (stop ≡ false) × (row ≡ find? test (table d))}
                (gets (λ w. find? test (table w.db))) _ (record { from = λ w h. (h.0, h.1, refl) })
                (Gives-delivered stop)

  -- Also where the iteration stops early, a row that a look-up answers with is the first that passes.
  abbrev pub FoundIf : Option A → Db → Type 0
  FoundIf o d = P d × ((r : A) → o ≡ some r → find? test (table d) ≡ some r)

  Gives-scanned_if : (o : Option A) → Gives (FoundIf o) (scanned E o) FoundIf P
  unfolding pure
  Gives-scanned_if none = record { from = λ w h. h }
  Gives-scanned_if (some a) =
      Gives-after (sql E) _ (λ d h. h.0) (Keeps-sql E) (λ _. record { from = λ w h. h })

  Gives-delivered_if :
      (stop : Bool) (row : Option A)
      → Gives (λ d. P d × (row ≡ find? test (table d))) (scanned E (delivered E stop row)) FoundIf P
  unfolding pure
  Gives-delivered_if true row = record { from = λ w h. (h.0, λ r e. absurd (none-ne-some r e)) }
  Gives-delivered_if false row = record {
    from = λ w h. (Gives-scanned_if row).from w (h.0, λ r e. sym h.1 ∙ e);
  }

  pub Gives-query_row_if : Gives P (query_row E table test) FoundIf P
  unfolding query_row gets
  Gives-query_row_if =
      Gives-after (sql E) _ (λ d h. h) (Keeps-sql E)
        λ _.
          Gives-after (ask E.rows_stop) _ (λ d h. h) (Keeps-ask E.rows_stop)
            λ stop.
              Gives-bind {Q = λ row d. P d × (row ≡ find? test (table d))}
                (gets (λ w. find? test (table w.db))) _ (record { from = λ w h. (h, refl) })
                (Gives-delivered_if stop)
