-- ===== src/Exec/Any.antt =====
-- What an action gives whatever the database was.
use hxscanner.Db.Schema.{Db}
use hxscanner.Prelude.{◌≡◌, refl}
use hxscanner.Exec.{World, Outcome, done, failed, fatal, panicked, M, ◌>>=◌}
use hxscanner.Exec.Keeps.{Keeps, Post, Gives, Gives-bind, Gives-of_Keeps}

abbrev pub Any : Db → Type 0
Any d = Unit

pub Gives-Any : {A : Type 0} (m : M A) → Gives Any m (λ a. Any) Any
Gives-Any m = Gives-of_Keeps m (record { at = λ w h. tt })

-- A later action decides.
pub Gives-last :
    {A B : Type 0} (m : M A) (f : A → M B) {R : B → Db → Type 0}
    → ((a : A) → Gives Any (f a) R Any)
    → Gives Any (m >>= f) R Any
Gives-last m f k = Gives-bind m f (Gives-Any m) k

module _ {A : Type 0} {Q : A → Db → Type 0} {R : Db → Type 0} where
  -- What the action keeps holds besides.
  pub Gives-Keeps : (m : M A) → Gives Any m Q Any → Keeps R m → Gives R m (λ a d. R d × Q a d) R
  Gives-Keeps m g k = record { from = λ w h. part (m w).0 (m w).1.db (g.from w tt) (k.at w h) }
    where
      part : (o : Outcome A) (d : Db) → Post Q Any o d → R d → Post (λ a d. R d × Q a d) R o d
      part (done a) d q r = (r, q)
      part (failed e) d q r = r
      part (fatal e) d q r = r
      part panicked d q r = r

module _ {A : Type 0} {F : A → Type 0} where
  -- What is known of every result.
  pub Gives-of_result :
      (m : M A) → ((w : World) (a : A) → (m w).0 ≡ done a → F a) → Gives Any m (λ a d. F a) Any
  Gives-of_result m k = record { from = λ w h. part w (m w).0 refl }
    where
      part : (w : World) (o : Outcome A) → (m w).0 ≡ o → Post (λ a d. F a) Any o (m w).1.db
      part w (done a) e = k w a e
      part w (failed x) e = tt
      part w (fatal x) e = tt
      part w panicked e = tt
