-- ===== src/Db/OperationIds.antt =====
-- The id of an operation in the base table tells block, transaction and position apart.
use Prim.Native.String.{[], ◌∷◌}
use text.Mathlib.TextLemmas.{cons-append, nil-append, head-eq_of_cons-eq, tail-eq_of_cons-eq}
use mathlib.Core.Path.{subst}
use hxscanner.Prelude.{
  ℕ, zero, suc, ◌+◌, ◌/◌, ◌%◌, ◌<◌, ◌≡◌, ◌≢◌, refl, sym, ap, ◌∙◌, Char, code, String, ◌<>◌, arith,
  ltb, ltb→lt, Bool-cases, inl, inr,
}
use hxscanner.Strconv.{digit_char, format_digits, format_nat}
use hxscanner.Strconv.RoundTrip.{code-digit_char, format_nat-injective}
use hxscanner.Db.Operations.{get_base_operation_id}

abbrev at_sign : Char
at_sign = "@"

-- No character of the text is an `@`.
abbrev NoAt : String → Type 0
NoAt [] = Unit
NoAt (c ∷ s) = (c ≢ at_sign) × NoAt s

digit_char-ne_at : (d : ℕ) → d < 10 → digit_char d ≢ at_sign
digit_char-ne_at d h e =
    let n : b'0' + d ≡ 64 = sym (code-digit_char d h) ∙ ap code e in absurd (omega arith)

format_digits-NoAt : (fuel n : ℕ) (out : String) → NoAt out → NoAt (format_digits fuel n out)
unfolding format_digits
format_digits-NoAt zero n out h = h
format_digits-NoAt (suc fuel) n out h = elim (Bool-cases (ltb n 10)) [
  | inl small ↦ rw small (digit_char-ne_at n (ltb→lt n 10 small), h)
  | inr large ↦ rw large (
      format_digits-NoAt fuel (n / 10) (digit_char (n % 10) ∷ out)
        (digit_char-ne_at (n % 10) (omega arith), h))
]

format_nat-NoAt : (n : ℕ) → NoAt (format_nat n)
unfolding format_nat
format_nat-NoAt n = format_digits-NoAt (suc n) n "" tt

at_sign-append : (s : String) → "@" <> s ≡ at_sign ∷ s
at_sign-append s = cons-append at_sign "" s ∙ ap (λ t. at_sign ∷ t) (nil-append s)

-- The first `@` splits a text in one way.
first_at_sign :
    (s t x y : String)
    → NoAt s
    → NoAt t
    → s <> (at_sign ∷ x) ≡ t <> (at_sign ∷ y)
    → (s ≡ t) × (x ≡ y)
first_at_sign [] [] x y h k e = (refl, tail-eq_of_cons-eq (rw (nil-append, nil-append) at e))
first_at_sign [] (c ∷ t) x y h k e =
    absurd (k.0 (sym (head-eq_of_cons-eq (rw (nil-append, cons-append) at e))))
first_at_sign (c ∷ s) [] x y h k e =
    absurd (h.0 (head-eq_of_cons-eq (rw (nil-append, cons-append) at e)))
first_at_sign (c ∷ s) (d ∷ t) x y h k e =
    let e' = rw (cons-append, cons-append) at e in
    let (same, rest) = first_at_sign s t x y h.1 k.1 (tail-eq_of_cons-eq e') in
    (rw (head-eq_of_cons-eq e', same) refl, rest)

append-at_sign-NoAt : (t n : String) → ¬ NoAt (t <> (at_sign ∷ n))
append-at_sign-NoAt [] n h = (subst NoAt (nil-append (at_sign ∷ n)) h).0 refl
append-at_sign-NoAt (c ∷ t) n h =
    append-at_sign-NoAt t n (subst NoAt (cons-append c t (at_sign ∷ n)) h).1

-- The last `@` does as well.
last_at_sign :
    (s t x y : String)
    → NoAt x
    → NoAt y
    → s <> (at_sign ∷ x) ≡ t <> (at_sign ∷ y)
    → (s ≡ t) × (x ≡ y)
last_at_sign [] [] x y h k e = (refl, tail-eq_of_cons-eq (rw (nil-append, nil-append) at e))
last_at_sign [] (c ∷ t) x y h k e = absurd (
    append-at_sign-NoAt t y (subst NoAt (tail-eq_of_cons-eq (rw (nil-append, cons-append) at e)) h))
last_at_sign (c ∷ s) [] x y h k e = absurd (
    append-at_sign-NoAt s x
      (subst NoAt (sym (tail-eq_of_cons-eq (rw (nil-append, cons-append) at e))) k))
last_at_sign (c ∷ s) (d ∷ t) x y h k e =
    let e' = rw (cons-append, cons-append) at e in
    let (same, rest) = last_at_sign s t x y h k (tail-eq_of_cons-eq e') in
    (rw (head-eq_of_cons-eq e', same) refl, rest)

get_base_operation_id-at_sign :
    (b n : ℕ) (t : String)
    → get_base_operation_id b t n ≡ format_nat b <> (at_sign ∷ (t <> (at_sign ∷ format_nat n)))
unfolding get_base_operation_id
get_base_operation_id-at_sign b n t =
    ap (λ s. format_nat b <> s)
      (at_sign-append _ ∙ ap (λ s. at_sign ∷ (t <> s)) (at_sign-append (format_nat n)))

-- Operations of different blocks, transactions or positions have different ids, whatever the text
-- of the transaction's id is.
pub get_base_operation_id-injective :
    (b c n m : ℕ) (t u : String)
    → get_base_operation_id b t n ≡ get_base_operation_id c u m
    → (b ≡ c) × (t ≡ u) × (n ≡ m)
get_base_operation_id-injective b c n m t u e =
    let (same_block, rest) =
      first_at_sign _ _ _ _ (format_nat-NoAt b) (format_nat-NoAt c)
        (sym (get_base_operation_id-at_sign b n t) ∙ e ∙ get_base_operation_id-at_sign c m u) in
    let (same_tx, same_op) = last_at_sign t u _ _ (format_nat-NoAt n) (format_nat-NoAt m) rest in
    (format_nat-injective b c same_block, same_tx, format_nat-injective n m same_op)
