-- ===== src/Exec/Ends.antt =====
-- Actions that end by a result or by an error, and not with the process.
use hxscanner.Prelude.{ℕ, Bool, true, false, Option, none, some, List, if◌then◌else◌}
use hxscanner.Value.{Value}
use hxscanner.Env.{Error, Result, ok, err, Env}
use hxscanner.Db.Schema.{Db}
use hxscanner.Exec.{
  World, Outcome, done, failed, fatal, panicked, M, pure, fail, lift, or_fail, caught, attempt,
  continue, ◌>>=◌, gets, ask, now, connected, call,
}
use hxscanner.Exec.Keeps.{Post}
use hxscanner.Exec.Quiet.{Returns, Never}

abbrev pub Settled : {A : Type 0} → (Db → Type 0) → Outcome A → Db → Type 0
Settled P (done a) d = P d
Settled P (failed e) d = P d
Settled P (fatal e) d = ⊥
Settled P panicked d = ⊥

-- From `P`, `m` returns or fails, with `P`.
pub record Ends {A : Type 0} (P : Db → Type 0) (m : M A) : Type 0 where
  pub at : (w : World) → P w.db → Settled P (m w).0 (m w).1.db

module _ {A : Type 0} {P : Db → Type 0} where
  pub Ends-pure : (a : A) → Ends P (pure a)
  unfolding pure
  Ends-pure a = record { at = λ w h. h }

  pub Ends-fail : (e : Error) → Ends P (fail {A = A} e)
  unfolding fail
  Ends-fail e = record { at = λ w h. h }

  pub Ends-lift : (r : Result A) → Ends P (lift r)
  unfolding lift
  Ends-lift (ok a) = record { at = λ w h. h }
  Ends-lift (err e) = record { at = λ w h. h }

  pub Ends-or_fail : (o : Option A) (e : Error) → Ends P (or_fail o e)
  Ends-or_fail none e = Ends-fail e
  Ends-or_fail (some a) e = Ends-pure a

  pub Ends-gets : (f : World → A) → Ends P (gets f)
  unfolding gets
  Ends-gets f = record { at = λ w h. h }

  pub Ends-ask : (f : ℕ → A) → Ends P (ask f)
  unfolding ask
  Ends-ask f = record { at = λ w h. h }

  pub Ends-if : (b : Bool) (m n : M A) → Ends P m → Ends P n → Ends P (if b then m else n)
  Ends-if true m n km kn = km
  Ends-if false m n km kn = kn

  -- What returns ends.
  pub Ends-of_Returns : (m : M A) → Returns P m (λ a. P) → Ends P m
  Ends-of_Returns m r = record { at = λ w h. part (m w).0 (m w).1.db (r.from w h) }
    where
      part : (o : Outcome A) (d : Db) → Post (λ a. P) Never o d → Settled P o d
      part (done a) d q = q
      part (failed e) d q = absurd q
      part (fatal e) d q = q
      part panicked d q = q

  -- A caught action returns.
  pub Returns-attempt : (m : M A) → Ends P m → Returns P (attempt m) (λ r. P)
  unfolding attempt
  Returns-attempt m k = record { from = λ w h. part (m w).0 (m w).1.db (k.at w h) }
    where
      part : (o : Outcome A) (d : Db) → Settled P o d → Post (λ r. P) Never (caught o) d
      part (done a) d q = q
      part (failed e) d q = q
      part (fatal e) d q = q
      part panicked d q = q

  pub Returns-ask : (f : ℕ → A) → Returns P (ask f) (λ a. P)
  unfolding ask
  Returns-ask f = record { from = λ w h. h }

module _ {A : Type 0} {P : Db → Type 0} {Q : A → Db → Type 0} where
  pub Returns-pure : (a : A) → ((d : Db) → P d → Q a d) → Returns P (pure a) Q
  unfolding pure
  Returns-pure a k = record { from = λ w h. k w.db h }

  pub Returns-if :
      (b : Bool) (m n : M A) → Returns P m Q → Returns P n Q → Returns P (if b then m else n) Q
  Returns-if true m n km kn = km
  Returns-if false m n km kn = kn

module _ {A B : Type 0} {P : Db → Type 0} where
  Ends-continue :
      (o : Outcome A) (f : A → M B) (w : World)
      → ((a : A) → Ends P (f a))
      → Settled P o w.db
      → Settled P (continue o f w).0 (continue o f w).1.db
  Ends-continue (done a) f w k h = (k a).at w h
  Ends-continue (failed e) f w k h = h
  Ends-continue (fatal e) f w k h = h
  Ends-continue panicked f w k h = h

  pub Ends-bind : (m : M A) (f : A → M B) → Ends P m → ((a : A) → Ends P (f a)) → Ends P (m >>= f)
  unfolding ◌>>=◌
  Ends-bind m f km kf = record {
    at = λ w h. let (o, w') = m w in Ends-continue o f w' kf (km.at w h);
  }

pub ruleset ends_rules =
    (Ends-pure, Ends-fail, Ends-lift, Ends-or_fail, Ends-gets, Ends-ask, Ends-if, Ends-bind)

module _ (E : Env) {P : Db → Type 0} where
  pub Ends-connected : Ends P (connected E)
  unfolding connected
  Ends-connected = search ends_rules

  pub Ends-now : Ends P (now E)
  unfolding now
  Ends-now = search ends_rules

  pub Ends-call : (method : _) (args : List Value) → Ends P (call E method args)
  unfolding call
  Ends-call method args = search ends_rules

  pub Returns-connected : Returns P (connected E) (λ b. P)
  unfolding connected
  Returns-connected = Returns-ask E.connected

  pub Returns-now : Returns P (now E) (λ t. P)
  unfolding now
  Returns-now = Returns-ask E.now
