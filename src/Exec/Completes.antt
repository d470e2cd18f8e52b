-- ===== src/Exec/Completes.antt =====
-- Actions that do not fail: they return, or end the process. A loop with such rounds comes to its end.
use mathlib.Core.Path.{subst}
use hxscanner.Prelude.{sym, ℕ, suc, ◌≡◌, refl, Bool, true, false, List, [], ◌∷◌, if◌then◌else◌}
use hxscanner.Env.{Error, Result, ok, err}
use hxscanner.Db.Schema.{Db}
use hxscanner.Exec.{
  World, Outcome, done, failed, fatal, panicked, M, pure, lift, or_exit, fatally, attempt, caught,
  continue, ◌>>=◌,
}
use hxscanner.Exec.Keeps.{Keeps, Post, Gives}
use hxscanner.Exec.Any.{Any}
use hxscanner.Exec.Quiet.{Returns, Never}

err-ne-ok : {A : Type 0} (e : Error) (a : A) → err e ≡ ok a → ⊥
err-ne-ok e a h = cc

abbrev pub Whole : {A : Type 0} → (A → Db → Type 0) → Outcome A → Db → Type 0
Whole Q (done a) d = Q a d
Whole Q (failed e) d = ⊥
Whole Q (fatal e) d = Unit
Whole Q panicked d = Unit

-- From `P`, `m` returns with `Q`, or ends the process.
pub record Completes {A : Type 0} (P : Db → Type 0) (m : M A) (Q : A → Db → Type 0) : Type 0 where
  pub from : (w : World) → P w.db → Whole Q (m w).0 (m w).1.db

module _ {A : Type 0} {P : Db → Type 0} {Q : A → Db → Type 0} where
  pub Completes-pure : (a : A) → ((d : Db) → P d → Q a d) → Completes P (pure a) Q
  unfolding pure
  Completes-pure a k = record { from = λ w h. k w.db h }

  pub Completes-of_Returns : (m : M A) → Returns P m Q → Completes P m Q
  Completes-of_Returns m r = record { from = λ w h. part (m w).0 (m w).1.db (r.from w h) }
    where
      part : (o : Outcome A) (d : Db) → Post Q Never o d → Whole Q o d
      part (done a) d q = q
      part (failed e) d q = q
      part (fatal e) d q = tt
      part panicked d q = tt

  -- An error that ends the process is none.
  pub Completes-or_exit : (m : M A) → Gives P m Q Any → Completes P (or_exit m) Q
  unfolding or_exit
  Completes-or_exit m g = record { from = λ w h. part (m w).0 (m w).1.db (g.from w h) }
    where
      part : (o : Outcome A) (d : Db) → Post Q Any o d → Whole Q (fatally o) d
      part (done a) d q = q
      part (failed e) d q = tt
      part (fatal e) d q = tt
      part panicked d q = tt

  pub Completes-if :
      (b : Bool) (m n : M A)
      → (b ≡ true → Completes P m Q)
      → Completes P n Q
      → Completes P (if b then m else n) Q
  Completes-if true m n km kn = km refl
  Completes-if false m n km kn = kn

  pub Gives-of_Completes : (m : M A) → Completes P m Q → Gives P m Q Any
  Gives-of_Completes m c = record { from = λ w h. part (m w).0 (m w).1.db (c.from w h) }
    where
      part : (o : Outcome A) (d : Db) → Whole Q o d → Post Q Any o d
      part (done a) d q = q
      part (failed e) d q = tt
      part (fatal e) d q = tt
      part panicked d q = tt

module _ {A : Type 0} {Q : A → Db → Type 0} {R : Db → Type 0} where
  -- What the action keeps holds besides.
  pub Completes-Keeps :
      (m : M A) → Completes Any m Q → Keeps R m → Completes R m (λ a d. R d × Q a d)
  Completes-Keeps m c k = record { from = λ w h. part (m w).0 (m w).1.db (c.from w tt) (k.at w h) }
    where
      part : (o : Outcome A) (d : Db) → Whole Q o d → R d → Whole (λ a d. R d × Q a d) o d
      part (done a) d q r = (r, q)
      part (failed e) d q r = q
      part (fatal e) d q r = q
      part panicked d q r = q

module _ {A : Type 0} {R : Db → Type 0} {S : A → Db → Type 0} where
  -- An action that completes keeps what it keeps.
  pub Completes-still : (m : M A) → Completes Any m S → Keeps R m → Completes R m (λ a. R)
  Completes-still m c k = record { from = λ w h. part (m w).0 (m w).1.db (c.from w tt) (k.at w h) }
    where
      part : (o : Outcome A) (d : Db) → Whole S o d → R d → Whole (λ a. R) o d
      part (done a) d q r = r
      part (failed e) d q r = q
      part (fatal e) d q r = q
      part panicked d q r = q

module _ {A : Type 0} {P : Db → Type 0} where
  pub Completes-lift :
      (r : Result A) → ((d : Db) → P d → (a : A) × (r ≡ ok a)) → Completes P (lift r) (λ a. Any)
  unfolding lift
  Completes-lift (ok a) k = record { from = λ w h. tt }
  Completes-lift (err e) k = record {
    from = λ w h. let (a, same) = k w.db h in absurd (err-ne-ok e a same);
  }

module _ {A B : Type 0} {Q : A → Db → Type 0} {R : B → Db → Type 0} where
  Completes-continue :
      (o : Outcome A) (f : A → M B) (w : World)
      → ((a : A) → Completes (Q a) (f a) R)
      → Whole Q o w.db
      → Whole R (continue o f w).0 (continue o f w).1.db
  Completes-continue (done a) f w k h = (k a).from w h
  Completes-continue (failed e) f w k h = h
  Completes-continue (fatal e) f w k h = h
  Completes-continue panicked f w k h = h

module _ {A B : Type 0} {P : Db → Type 0} {Q : A → Db → Type 0} {R : B → Db → Type 0} where
  pub Completes-bind :
      (m : M A) (f : A → M B)
      → Completes P m Q
      → ((a : A) → Completes (Q a) (f a) R)
      → Completes P (m >>= f) R
  unfolding ◌>>=◌
  Completes-bind m f km kf = record {
    from = λ w h. let (o, w') = m w in Completes-continue o f w' kf (km.from w h);
  }

-- The action's error, if it is caught, is none.
abbrev pub Succeeded : {A : Type 0} → (A → Db → Type 0) → Result A → Db → Type 0
Succeeded Q (ok a) d = Q a d
Succeeded Q (err e) d = ⊥

module _ {A : Type 0} {P : Db → Type 0} {Q : A → Db → Type 0} where
  pub Completes-attempt : (m : M A) → Completes P m Q → Completes P (attempt m) (Succeeded Q)
  unfolding attempt
  Completes-attempt m c = record { from = λ w h. part (m w).0 (m w).1.db (c.from w h) }
    where
      part : (o : Outcome A) (d : Db) → Whole Q o d → Whole (Succeeded Q) (caught o) d
      part (done a) d q = q
      part (failed e) d q = q
      part (fatal e) d q = q
      part panicked d q = q

module _ {A : Type 0} {P : Db → Type 0} where
  -- A caught action does not fail, and keeps what it keeps.
  pub Completes-caught : (m : M A) → Keeps P m → Completes P (attempt m) (λ r. P)
  unfolding attempt
  Completes-caught m k = record { from = λ w h. part (m w).0 (m w).1.db (k.at w h) }
    where
      part : (o : Outcome A) (d : Db) → P d → Whole (λ r. P) (caught o) d
      part (done a) d h = h
      part (failed e) d h = h
      part (fatal e) d h = tt
      part panicked d h = tt

module _ {A B : Type 0} {P : Db → Type 0} {R : A → Db → Type 0} where
  -- The value before is known.
  pub Completes-known :
      (f : B → M A) (b : B) → Completes P (f b) R → (c : B) → Completes (λ d. (c ≡ b) × P d) (f c) R
  Completes-known f b k c = record {
    from = λ w h. subst (λ x. Whole R (f x w).0 (f x w).1.db) (sym h.0) (k.from w h.1);
  }

-- Each element has its fact, with its index counted from a first one.
abbrev pub Each : {A : Type 0} → (ℕ → A → Db → Type 0) → ℕ → List A → Db → Type 0
Each F i [] d = Unit
Each F i (a ∷ xs) d = F i a d × Each F (suc i) xs d

module _ {A : Type 0} {F : ℕ → A → Db → Type 0} where
  pub Keeps-Each :
      {B : Type 0} (m : M B) (i : ℕ) (xs : List A)
      → ((j : ℕ) (a : A) → Keeps (F j a) m)
      → Keeps (Each F i xs) m
  Keeps-Each m i [] k = record { at = λ w h. tt }
  Keeps-Each m i (a ∷ xs) k = record {
    at = λ w h. ((k i a).at w h.0, (Keeps-Each m (suc i) xs k).at w h.1);
  }

-- A fact of each element that follows from another one.
pub Each-map :
    {A : Type 0} (F G : ℕ → A → Db → Type 0) (d : Db) (i : ℕ) (xs : List A)
    → ((j : ℕ) (a : A) → F j a d → G j a d)
    → Each F i xs d
    → Each G i xs d
Each-map F G d i [] k h = tt
Each-map F G d i (a ∷ xs) k h = (k i a h.0, Each-map F G d (suc i) xs k h.1)
