-- ===== src/Strconv.antt =====
-- Go's strconv as the program uses it: `Itoa`, `Atoi` and `json.Number.Int64` (both are `ParseInt`
-- in base ten at 64 bits), and the decimal verb `%d` of fmt.
pub mod RoundTrip
use Prim.Native.String.{[], ◌∷◌}
use hxscanner.Prelude.{
  ℕ, zero, suc, ◌+◌, ◌-◌, ◌*◌, ◌/◌, ◌%◌, ◌^◌, Char, code, String, ◌<>◌, Option, none, some, ◌&&◌,
  ltb, leb, eqb, if◌then◌else◌,
}
use hxscanner.Prelude.Int.{ℤ, pos, negsuc, neg}

abbrev pub digit_char : ℕ → Char
digit_char zero = "0"
digit_char (suc zero) = "1"
digit_char (suc (suc zero)) = "2"
digit_char (suc (suc (suc zero))) = "3"
digit_char (suc (suc (suc (suc zero)))) = "4"
digit_char (suc (suc (suc (suc (suc zero))))) = "5"
digit_char (suc (suc (suc (suc (suc (suc zero)))))) = "6"
digit_char (suc (suc (suc (suc (suc (suc (suc zero))))))) = "7"
digit_char (suc (suc (suc (suc (suc (suc (suc (suc zero)))))))) = "8"
digit_char _ = "9"

-- The digits of `n` in front of `out`; a fuel of `n + 1` is enough.
unfoldable pub format_digits : ℕ → ℕ → String → String
format_digits zero n out = out
format_digits (suc fuel) n out =
    let rest = format_digits fuel (n / 10) (digit_char (n % 10) ∷ out) in
    if ltb n 10 then digit_char n ∷ out else rest

-- `strconv.Itoa(n)` and `%d` at a number that is not negative
unfoldable pub format_nat : ℕ → String
unfolding format_digits
format_nat n = format_digits (suc n) n ""

-- `strconv.Itoa(n)`
unfoldable pub itoa : ℤ → String
unfolding format_nat
itoa (pos n) = format_nat n
itoa (negsuc n) = "-" <> format_nat (suc n)

unfoldable pub parse_digits : String → ℕ → Option ℕ
parse_digits [] n = some n
parse_digits (c ∷ s) n =
    let d = code c - b'0' in
    if leb b'0' (code c) && leb (code c) b'9' then parse_digits s (n * 10 + d) else none

-- At least one digit.
unfoldable pub parse_nat : String → Option ℕ
unfolding parse_digits
parse_nat [] = none
parse_nat (c ∷ s) = parse_digits (c ∷ s) 0

-- The value, if it is at most the limit.
abbrev bounded : ℕ → (ℕ → ℤ) → Option ℕ → Option ℤ
bounded limit sign none = none
bounded limit sign (some n) = if leb n limit then some (sign n) else none

-- `strconv.ParseInt(s, 10, 64)`; `none` is an error.
unfoldable pub parse_int : String → Option ℤ
unfolding parse_nat
parse_int [] = none
parse_int (c ∷ s) =
    if eqb (code c) b'-'
    then bounded (2 ^ 63) neg (parse_nat s)
    else if eqb (code c) b'+'
    then bounded (2 ^ 63 - 1) pos (parse_nat s)
    else bounded (2 ^ 63 - 1) pos (parse_nat (c ∷ s))
