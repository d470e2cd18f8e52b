-- ===== src/Strconv/RoundTrip.antt =====
-- Printing and parsing numbers: `ParseInt` after `Itoa`, and that `Itoa` tells numbers apart.
use Prim.Native.String.{◌∷◌}
use text.Mathlib.TextLemmas.{cons-append, nil-append}
use mathlib.Core.Option.{some-injective, none-ne-some}
use hxscanner.Prelude.{
  ℕ, zero, suc, ◌+◌, ◌-◌, ◌*◌, ◌/◌, ◌%◌, ◌^◌, ◌≤◌, ◌<◌, code, String, ◌<>◌, ◌≡◌, refl, ap, sym, ◌∙◌,
  some, inl, inr, arith, ltb, leb, ltb→lt, le→leb, ne→eqb, not-ltb→le, Bool-cases,
}
use hxscanner.Prelude.Int.{ℤ, pos, negsuc, neg}
use hxscanner.Strconv.{
  digit_char, format_digits, format_nat, parse_digits, parse_nat, parse_int, itoa, bounded,
}

pub code-digit_char : (d : ℕ) → d < 10 → code (digit_char d) ≡ b'0' + d
code-digit_char zero h = refl
code-digit_char (suc zero) h = refl
code-digit_char (suc (suc zero)) h = refl
code-digit_char (suc (suc (suc zero))) h = refl
code-digit_char (suc (suc (suc (suc zero)))) h = refl
code-digit_char (suc (suc (suc (suc (suc zero))))) h = refl
code-digit_char (suc (suc (suc (suc (suc (suc zero)))))) h = refl
code-digit_char (suc (suc (suc (suc (suc (suc (suc zero))))))) h = refl
code-digit_char (suc (suc (suc (suc (suc (suc (suc (suc zero)))))))) h = refl
code-digit_char (suc (suc (suc (suc (suc (suc (suc (suc (suc zero))))))))) h = refl
code-digit_char (suc (suc (suc (suc (suc (suc (suc (suc (suc (suc d)))))))))) h =
    absurd (omega arith)

-- Reading a digit that was printed appends it.
parse_digits-cons :
    (d n : ℕ) (s : String)
    → d < 10
    → parse_digits (digit_char d ∷ s) n ≡ parse_digits s (n * 10 + d)
unfolding parse_digits
parse_digits-cons d n s h =
    rw
      (
        code-digit_char d h,
        le→leb b'0' (b'0' + d) (omega arith),
        le→leb (b'0' + d) b'9' (omega arith),
      )
      (ap (λ k. parse_digits s (n * 10 + k)) (omega arith))

parse_digits-format_digits :
    (fuel n : ℕ) (out : String)
    → n < fuel
    → parse_digits (format_digits fuel n out) 0 ≡ parse_digits out n
unfolding format_digits
parse_digits-format_digits zero n out h = absurd (omega arith)
parse_digits-format_digits (suc fuel) n out h = elim (Bool-cases (ltb n 10)) [
  | inl small ↦
      rw small (parse_digits-cons n 0 out (ltb→lt n 10 small) ∙ ap (parse_digits out) (omega arith))
  | inr large ↦
      let le : 10 ≤ n = not-ltb→le n 10 large in
      let e : n / 10 * 10 + n % 10 ≡ n = omega arith in
      rw large (
        parse_digits-format_digits fuel (n / 10) (digit_char (n % 10) ∷ out) (omega arith)
        ∙ parse_digits-cons (n % 10) (n / 10) out (omega arith)
        ∙ ap (parse_digits out) e)
]

-- A printed number is not empty and begins with a digit.
format_digits-cons :
    (fuel n : ℕ) (out : String)
    → (d : ℕ) × (rest : String) × (d < 10) × (format_digits (suc fuel) n out ≡ digit_char d ∷ rest)
unfolding format_digits
format_digits-cons zero n out = elim (Bool-cases (ltb n 10)) [
  | inl small ↦ (n, out, ltb→lt n 10 small, rw small)
  | inr large ↦ (n % 10, out, omega arith, rw large)
]
format_digits-cons (suc fuel) n out = elim (Bool-cases (ltb n 10)) [
  | inl small ↦ (n, out, ltb→lt n 10 small, rw small)
  | inr large ↦
      let (d, rest, h, e) = format_digits-cons fuel (n / 10) (digit_char (n % 10) ∷ out) in
      (d, rest, h, rw large e)
]

parse_nat-format_nat : (n : ℕ) → parse_nat (format_nat n) ≡ some n
unfolding format_nat parse_nat
parse_nat-format_nat n =
    let (d, rest, h, e) = format_digits-cons n n "" in
    rw e
      (sym (ap (λ s. parse_digits s 0) e) ∙ parse_digits-format_digits (suc n) n "" (omega arith))

-- A number without a sign.
parse_int-digit_char :
    (d : ℕ) (rest : String)
    → d < 10
    → parse_int (digit_char d ∷ rest) ≡ bounded (2 ^ 63 - 1) pos (parse_nat (digit_char d ∷ rest))
unfolding parse_int
parse_int-digit_char d rest h = rw (
  code-digit_char d h,
  ne→eqb (b'0' + d) b'-' (omega arith),
  ne→eqb (b'0' + d) b'+' (omega arith),
)

parse_int-unsigned : (n : ℕ) → parse_int (format_nat n) ≡ bounded (2 ^ 63 - 1) pos (some n)
unfolding format_nat
parse_int-unsigned n =
    let (d, rest, small, e) = format_digits-cons n n "" in
    rw e (
      parse_int-digit_char d rest small
      ∙ ap (λ s. bounded (2 ^ 63 - 1) pos (parse_nat s)) (sym e)
      ∙ ap (bounded (2 ^ 63 - 1) pos) (parse_nat-format_nat n))

-- `ParseInt` reads back what `Itoa` printed, for every number that an int64 holds.
pub parse_int-format_nat : (n : ℕ) → n < 2 ^ 63 → parse_int (format_nat n) ≡ some (pos n)
parse_int-format_nat n h = parse_int-unsigned n ∙ rw (le→leb n (2 ^ 63 - 1) (omega arith))

-- `Itoa` tells numbers apart.
pub format_nat-injective : (m n : ℕ) → format_nat m ≡ format_nat n → m ≡ n
format_nat-injective m n e =
    some-injective m n (sym (parse_nat-format_nat m) ∙ ap parse_nat e ∙ parse_nat-format_nat n)

-- `ParseInt` reads the number itself, so a stored block number survives a restart.
pub parse_int-itoa : (n : ℕ) → n < 2 ^ 63 → parse_int (itoa (pos n)) ≡ some (pos n)
unfolding itoa
parse_int-itoa = parse_int-format_nat

bounded-eq-some :
    (limit : ℕ) (sign : ℕ → ℤ) (n : ℕ) (y : ℤ) → bounded limit sign (some n) ≡ some y → sign n ≡ y
bounded-eq-some limit sign n y h = elim (Bool-cases (leb n limit)) [
  | inl e ↦ some-injective (sign n) y (rw e at h)
  | inr e ↦ absurd (none-ne-some y (rw e at h))
]

parse_int-minus : (s : String) → parse_int ("-" <> s) ≡ bounded (2 ^ 63) neg (parse_nat s)
unfolding parse_int
parse_int-minus s = rw (cons-append, nil-append)

-- A text that `Itoa` printed is read as that number or not at all.
pub parse_int-itoa_inverse : (z y : ℤ) → parse_int (itoa z) ≡ some y → z ≡ y
unfolding itoa
parse_int-itoa_inverse (pos n) y h =
    bounded-eq-some (2 ^ 63 - 1) pos n y (sym (parse_int-unsigned n) ∙ h)
parse_int-itoa_inverse (negsuc n) y h = bounded-eq-some (2 ^ 63) neg (suc n) y (
    ap (bounded (2 ^ 63) neg) (sym (parse_nat-format_nat (suc n)))
    ∙ sym (parse_int-minus (format_nat (suc n)))
    ∙ h)
