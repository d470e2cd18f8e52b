-- ===== src/Prelude/Lists.antt =====
-- Lists measured and searched with native numbers and Boolean tests.
use Prim.Native.Nat.{ℕ, zero, suc, ◌+◌, ◌<◌}
use Prim.Native.String.{String}
use mathlib.Core.Path.{◌≡◌, refl, subst, ap, ◌∙◌}
use mathlib.Core.Bool.{Bool, true, false}
use mathlib.Core.List.{List, [], ◌∷◌, ◌++◌}
use mathlib.Core.Option.{Option, none, some, some-injective, none-ne-some}
use native.Mathlib.Omega.{arith}
use hxscanner.Prelude.Tests.{◌==◌, if◌then◌else◌, Bool-cases}
use mathlib.Core.Logic.{inl, inr}
use text.Mathlib.TextEquality.{eq_iff}
use text.Mathlib.TextPositions.{eq_refl}

module _ {ℓ} {A : Type ℓ} where
  abbrev pub length : List A → ℕ
  length [] = 0
  length (x ∷ xs) = suc (length xs)

  abbrev pub get_elem? : List A → ℕ → Option A
  get_elem? [] i = none
  get_elem? (x ∷ xs) zero = some x
  get_elem? (x ∷ xs) (suc i) = get_elem? xs i

  -- The first element that passes the test.
  pub get_elem?-append_before :
      (xs ys : List A) (i : ℕ) → i < length xs → get_elem? (xs ++ ys) i ≡ get_elem? xs i
  get_elem?-append_before [] ys i h = absurd (omega arith)
  get_elem?-append_before (x ∷ xs) ys zero h = refl
  get_elem?-append_before (x ∷ xs) ys (suc i) h = get_elem?-append_before xs ys i (omega arith)

  pub get_elem?-append_at : (xs : List A) (y : A) → get_elem? (xs ++ y ∷ []) (length xs) ≡ some y
  get_elem?-append_at [] y = refl
  get_elem?-append_at (x ∷ xs) y = get_elem?-append_at xs y

  pub length-append : (xs : List A) (y : A) → length (xs ++ y ∷ []) ≡ length xs + 1
  length-append [] y = refl
  length-append (x ∷ xs) y = let ih = length-append xs y in omega arith

  abbrev pub find? : (A → Bool) → List A → Option A
  find? p [] = none
  find? p (x ∷ xs) = if p x then some x else find? p xs

  -- How many elements pass the test.
  abbrev pub count : (A → Bool) → List A → ℕ
  count p [] = 0
  count p (x ∷ xs) = if p x then suc (count p xs) else count p xs

  -- Every element that passes the test is replaced.
  abbrev pub update : (A → Bool) → (A → A) → List A → List A
  update p f [] = []
  update p f (x ∷ xs) = (if p x then f x else x) ∷ update p f xs

  pub count-append : (p : A → Bool) (xs ys : List A) → count p (xs ++ ys) ≡ count p xs + count p ys
  count-append p [] ys = omega arith
  count-append p (x ∷ xs) ys = ground (arith, count-append p xs ys)

  pub count-eq-zero : (p : A → Bool) (xs : List A) → find? p xs ≡ none → count p xs ≡ 0
  count-eq-zero p [] h = refl
  count-eq-zero p (x ∷ xs) h = ground (arith, count-eq-zero p xs)

  pub count-pos : (p : A → Bool) (xs : List A) (x : A) → find? p xs ≡ some x → 0 < count p xs
  count-pos p [] x h = ground arith
  count-pos p (y ∷ xs) x h = ground (arith, count-pos p xs x)

  pub find?-passes : (p : A → Bool) (xs : List A) (x : A) → find? p xs ≡ some x → p x ≡ true
  find?-passes p [] x h = ground arith
  find?-passes p (y ∷ xs) x h = ground (arith, find?-passes p xs x)

  -- An update that keeps a test alone keeps the count of it.
  pub count-update :
      (q p : A → Bool) (f : A → A) (xs : List A)
      → ((x : A) → p x ≡ true → q (f x) ≡ q x)
      → count q (update p f xs) ≡ count q xs
  count-update q p f [] h = refl
  count-update q p f (x ∷ xs) h = ground (arith, h x, count-update q p f xs h)

module _ {ℓ κ} {A : Type ℓ} where
  -- Every element has the property.
  abbrev pub All : (A → Type κ) → List A → Type κ
  All P [] = Unit
  All P (x ∷ xs) = P x × All P xs

  pub All-append : (P : A → Type κ) (xs ys : List A) → All P xs → All P ys → All P (xs ++ ys)
  All-append P [] ys hx hy = hy
  All-append P (x ∷ xs) ys hx hy = (hx.0, All-append P xs ys hx.1 hy)

  pub All-update :
      (P : A → Type κ) (p : A → Bool) (f : A → A) (xs : List A)
      → ((x : A) → p x ≡ true → P x → P (f x))
      → All P xs
      → All P (update p f xs)
  All-update P p f [] k h = h
  All-update P p f (x ∷ xs) k h = (part (p x) refl, All-update P p f xs k h.1)
    where
      part : (b : Bool) → p x ≡ b → P (if b then f x else x)
      part true e = k x e h.0
      part false e = h.0

module _ {ℓ κ} {A : Type ℓ} where
  pub All-map : (P Q : A → Type κ) (xs : List A) → ((x : A) → P x → Q x) → All P xs → All Q xs
  All-map P Q [] k h = h
  All-map P Q (x ∷ xs) k h = (k x h.0, All-map P Q xs k h.1)

module _ {ℓ κ} {A : Type ℓ} where
  pub All-find? :
      (P : A → Type κ) (p : A → Bool) (xs : List A) (x : A) → find? p xs ≡ some x → All P xs → P x
  All-find? P p [] x e h = absurd (none-ne-some x e)
  All-find? P p (y ∷ xs) x e h = elim (Bool-cases (p y)) [
    | inl here ↦ subst P (some-injective y x (rw here at e)) h.0
    | inr there ↦ All-find? P p xs x (rw there at e) h.1
  ]

-- A map with text keys, as an association list without order.
module _ {ℓ} {V : Type ℓ} where
  abbrev pub lookup : String → List (String × V) → Option V
  lookup k [] = none
  lookup k ((j, v) ∷ m) = if j == k then some v else lookup k m

  abbrev pub insert : String → V → List (String × V) → List (String × V)
  insert k v [] = (k, v) ∷ []
  insert k v ((j, w) ∷ m) = if j == k then (k, v) ∷ m else (j, w) ∷ insert k v m

  -- `_, ok := m[k]`
  abbrev pub has_key : String → List (String × V) → Bool
  has_key k [] = false
  has_key k ((j, v) ∷ m) = if j == k then true else has_key k m

  pub lookup-insert_same :
      (k : String) (v : V) (m : List (String × V)) → lookup k (insert k v m) ≡ some v
  lookup-insert_same k v [] = rw (eq_refl k) refl
  lookup-insert_same k v ((j, w) ∷ m) = elim (Bool-cases (j == k)) [
    | inl e ↦ rw (e, eq_refl k) refl
    | inr e ↦ rw (e, e) (lookup-insert_same k v m)
  ]

  pub lookup-insert_other :
      (k i : String) (v : V) (m : List (String × V))
      → (i == k) ≡ false
      → lookup k (insert i v m) ≡ lookup k m
  lookup-insert_other k i v [] h = rw h refl
  lookup-insert_other k i v ((j, w) ∷ m) h = elim (Bool-cases (j == i)) [
    | inl e ↦
        let f : (j == k) ≡ false = ap (λ x. x == k) ((eq_iff j i).0 e) ∙ h in rw (e, h, f) refl
    | inr e ↦ rw (e, lookup-insert_other k i v m h) refl
  ]
