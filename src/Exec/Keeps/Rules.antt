-- ===== src/Exec/Keeps/Rules.antt =====
-- Invariants of actions, and what holds of the database after an action that returns.
use mathlib.Core.Path.{subst}
use hxscanner.Prelude.{ℕ, ◌≡◌, refl, sym, Bool, true, false, Option, none, some, if◌then◌else◌}
use hxscanner.Env.{Error, Result, ok, err}
use hxscanner.Db.Schema.{Db, PgTableSchema}
use hxscanner.Exec.{
  World, Outcome, done, failed, fatal, panicked, M, pure, fail, exit, panic, lift, or_fail, caught,
  attempt, when_nil, or_exit, continue, ◌>>=◌, gets, write, put_schema, ask,
}

-- `m` keeps `P`, whatever its outcome.
pub record Keeps {A : Type 0} (P : Db → Type 0) (m : M A) : Type 0 where
  pub at : (w : World) → P w.db → P (m w).1.db

abbrev pub Post : {A : Type 0} → (A → Db → Type 0) → (Db → Type 0) → Outcome A → Db → Type 0
Post Q I (done a) d = Q a d
Post Q I _ d = I d

-- From `P`, `m` returns with `Q`, or ends otherwise with `I`.
pub record Gives {A : Type 0} (P : Db → Type 0) (m : M A) (Q : A → Db → Type 0) (I : Db → Type 0)
    : Type 0 where
  pub from : (w : World) → P w.db → Post Q I (m w).0 (m w).1.db

module _ {A : Type 0} {P : Db → Type 0} where
  pub Keeps-pure : (a : A) → Keeps P (pure a)
  unfolding pure
  Keeps-pure a = record { at = λ w h. h }

  pub Keeps-fail : (e : Error) → Keeps P (fail {A = A} e)
  unfolding fail
  Keeps-fail e = record { at = λ w h. h }

  pub Keeps-exit : (e : Error) → Keeps P (exit {A = A} e)
  unfolding exit
  Keeps-exit e = record { at = λ w h. h }

  pub Keeps-panic : Keeps P (panic {A = A})
  unfolding panic
  Keeps-panic = record { at = λ w h. h }

  pub Keeps-lift : (r : Result A) → Keeps P (lift r)
  unfolding lift
  Keeps-lift (ok a) = record { at = λ w h. h }
  Keeps-lift (err e) = record { at = λ w h. h }

  pub Keeps-or_fail : (o : Option A) (e : Error) → Keeps P (or_fail o e)
  Keeps-or_fail none e = Keeps-fail e
  Keeps-or_fail (some a) e = Keeps-pure a

  pub Keeps-attempt : (m : M A) → Keeps P m → Keeps P (attempt m)
  unfolding attempt
  Keeps-attempt m k = record { at = λ w h. k.at w h }

  pub Keeps-or_exit : (m : M A) → Keeps P m → Keeps P (or_exit m)
  unfolding or_exit
  Keeps-or_exit m k = record { at = λ w h. k.at w h }

  pub Keeps-gets : (f : World → A) → Keeps P (gets f)
  unfolding gets
  Keeps-gets f = record { at = λ w h. h }

  pub Keeps-ask : (f : ℕ → A) → Keeps P (ask f)
  unfolding ask
  Keeps-ask f = record { at = λ w h. h }

  pub Keeps-if : (b : Bool) (m n : M A) → Keeps P m → Keeps P n → Keeps P (if b then m else n)
  Keeps-if true m n km kn = km
  Keeps-if false m n km kn = kn

  pub Keeps-of_Gives : (m : M A) → Gives P m (λ a. P) P → Keeps P m
  Keeps-of_Gives m g = record { at = λ w h. merge (m w).0 (m w).1.db (g.from w h) }
    where
      merge : (o : Outcome A) (d : Db) → Post (λ a. P) P o d → P d
      merge (done a) d p = p
      merge (failed e) d p = p
      merge (fatal e) d p = p
      merge panicked d p = p

  pub Gives-of_Keeps : (m : M A) → Keeps P m → Gives P m (λ a. P) P
  Gives-of_Keeps m k = record { from = λ w h. part (m w).0 (m w).1.db (k.at w h) }
    where
      part : (o : Outcome A) (d : Db) → P d → Post (λ a. P) P o d
      part (done a) d p = p
      part (failed e) d p = p
      part (fatal e) d p = p
      part panicked d p = p

module _ {A : Type 0} {P I : Db → Type 0} where
  -- What is computed without the database.
  pub Gives-lift :
      (r : Result A) → ((d : Db) → P d → I d) → Gives P (lift r) (λ a d. (r ≡ ok a) × P d) I
  unfolding lift
  Gives-lift (ok a) imp = record { from = λ w h. (refl, h) }
  Gives-lift (err e) imp = record { from = λ w h. imp w.db h }

module _ {A : Type 0} {P I : Db → Type 0} {Q R : A → Db → Type 0} where
  -- A weaker fact about the result.
  pub Gives-weaken : (m : M A) → ((a : A) (d : Db) → Q a d → R a d) → Gives P m Q I → Gives P m R I
  Gives-weaken m imp g = record { from = λ w h. part (m w).0 (m w).1.db (g.from w h) }
    where
      part : (o : Outcome A) (d : Db) → Post Q I o d → Post R I o d
      part (done a) d q = imp a d q
      part (failed e) d q = q
      part (fatal e) d q = q
      part panicked d q = q

module _ {A : Type 0} {P I : Db → Type 0} {Q : A → Db → Type 0} where
  -- What is known when the action has returned.
  pub Gives-result :
      (m : M A) (w : World) (a : A) → Gives P m Q I → P w.db → (m w).0 ≡ done a → Q a (m w).1.db
  Gives-result m w a g h e = subst (λ o. Post Q I o (m w).1.db) e (g.from w h)

module _ {A B : Type 0} {P I : Db → Type 0} {R : B → Db → Type 0} where
  -- A continuation whose argument is known.
  pub Gives-known :
      (f : A → M B) (a : A) → Gives P (f a) R I → (x : A) → Gives (λ d. (x ≡ a) × P d) (f x) R I
  Gives-known f a g x = record {
    from = λ w h. subst (λ y. Post R I (f y w).0 (f y w).1.db) (sym h.0) (g.from w h.1);
  }

-- What is known of a caught error.
abbrev pub Tried : {A : Type 0} → (A → Db → Type 0) → (Db → Type 0) → Result A → Db → Type 0
Tried Q I (ok a) d = Q a d
Tried Q I (err e) d = I d

module _ {A : Type 0} {P I : Db → Type 0} {Q : A → Db → Type 0} where
  pub Gives-attempt : (m : M A) → Gives P m Q I → Gives P (attempt m) (Tried Q I) I
  unfolding attempt
  Gives-attempt m g = record { from = λ w h. part (m w).0 (m w).1.db (g.from w h) }
    where
      part : (o : Outcome A) (d : Db) → Post Q I o d → Post (Tried Q I) I (caught o) d
      part (done a) d q = q
      part (failed e) d q = q
      part (fatal e) d q = q
      part panicked d q = q

module _ {A : Type 0} {P I K : Db → Type 0} {Q : A → Db → Type 0} where
  pub Gives-assume : (m : M A) → ((d : Db) → K d → P d) → Gives P m Q I → Gives K m Q I
  Gives-assume m imp g = record { from = λ w h. g.from w (imp w.db h) }

  -- From a stronger invariant the outcome is one of the weaker.
  pub Gives-invariant : (m : M A) → ((d : Db) → I d → K d) → Gives P m Q I → Gives P m Q K
  Gives-invariant m imp g = record { from = λ w h. part (m w).0 (m w).1.db (g.from w h) }
    where
      part : (o : Outcome A) (d : Db) → Post Q I o d → Post Q K o d
      part (done a) d q = q
      part (failed e) d q = imp d q
      part (fatal e) d q = imp d q
      part panicked d q = imp d q

module _ {P : Db → Type 0} where
  pub Keeps-write : (f : Db → Db) → ((d : Db) → P d → P (f d)) → Keeps P (write f)
  unfolding write
  Keeps-write f k = record { at = λ w h. k w.db h }

  pub Keeps-when_nil :
      {A : Type 0} (o : Option A) (m : M (Unit {0})) → Keeps P m → Keeps P (when_nil o m)
  Keeps-when_nil none m k = k
  Keeps-when_nil (some a) m k = Keeps-pure tt

  pub Keeps-put_schema : (name : _) (s : PgTableSchema) → Keeps P (put_schema name s)
  unfolding put_schema
  Keeps-put_schema name s = record { at = λ w h. h }

module _ {A B : Type 0} {P : Db → Type 0} where
  Keeps-continue :
      (o : Outcome A) (f : A → M B) → ((a : A) → Keeps P (f a)) → Keeps P (continue o f)
  Keeps-continue (done a) f k = k a
  Keeps-continue (failed e) f k = record { at = λ w h. h }
  Keeps-continue (fatal e) f k = record { at = λ w h. h }
  Keeps-continue panicked f k = record { at = λ w h. h }

  pub Keeps-bind :
      (m : M A) (f : A → M B) → Keeps P m → ((a : A) → Keeps P (f a)) → Keeps P (m >>= f)
  unfolding ◌>>=◌
  Keeps-bind m f km kf = record {
    at = λ w h. let (o, w') = m w in (Keeps-continue o f kf).at w' (km.at w h);
  }

module _ {A B : Type 0} {I : Db → Type 0} {Q : A → Db → Type 0} {R : B → Db → Type 0} where
  Gives-continue :
      (o : Outcome A) (f : A → M B) (w : World)
      → ((a : A) → Gives (Q a) (f a) R I)
      → Post Q I o w.db
      → Post R I (continue o f w).0 (continue o f w).1.db
  Gives-continue (done a) f w g h = (g a).from w h
  Gives-continue (failed e) f w g h = h
  Gives-continue (fatal e) f w g h = h
  Gives-continue panicked f w g h = h

module _ {A B : Type 0} {P I : Db → Type 0} {Q : A → Db → Type 0} {R : B → Db → Type 0} where
  pub Gives-bind :
      (m : M A) (f : A → M B)
      → Gives P m Q I
      → ((a : A) → Gives (Q a) (f a) R I)
      → Gives P (m >>= f) R I
  unfolding ◌>>=◌
  Gives-bind m f gm gf = record {
    from = λ w h. let (o, w') = m w in Gives-continue o f w' gf (gm.from w h);
  }
