-- ===== src/Csv/Digits.antt =====
-- Decimal numbers as texts: Go's `strconv.ParseInt(s, 10, 64)` and `strconv.FormatInt(n, 10)`.
pub mod RoundTrip
pub mod Plain
use Prim.Native.Char.{Char, code}
use Prim.Native.String.{String, [], ◌∷◌}
use arran.Prelude.{
  ℕ, zero, suc, ◌+◌, ◌-◌, ◌*◌, ◌/◌, ◌%◌, ◌^◌, Bool, ◌&&◌, Option, none, some, ltb, leb, eqb,
  if◌then◌else◌,
}
use arran.Prelude.Text.{nth_text, text_append}
use arran.Prelude.Int.{ℤ, pos, negsuc, neg_ℕ}

unfoldable pub is_digit : Char → Bool
is_digit c = leb b'0' (code c) && leb (code c) b'9'

abbrev pub digit_value : Char → ℕ
digit_value c = code c - b'0'

-- The digits of a text after those with the value so far.
unfoldable pub parse_digits : String → ℕ → Option ℕ
unfolding is_digit
parse_digits [] n = some n
parse_digits (c ∷ s) n =
    let rest = parse_digits s (n * 10 + digit_value c) in if is_digit c then rest else none

unfoldable pub parse_unsigned : String → Option ℕ
unfolding parse_digits
parse_unsigned [] = none
parse_unsigned (c ∷ s) = parse_digits (c ∷ s) 0

abbrev pub positive : Option ℕ → Option ℤ
positive none = none
positive (some n) = if ltb n (2 ^ 63) then some (pos n) else none

abbrev pub negative : Option ℕ → Option ℤ
negative none = none
negative (some n) = if leb n (2 ^ 63) then some (neg_ℕ n) else none

unfoldable pub parse_int : String → Option ℤ
unfolding parse_unsigned
parse_int [] = none
parse_int (c ∷ s) =
    if eqb (code c) b'+'
    then positive (parse_unsigned s)
    else if eqb (code c) b'-'
    then negative (parse_unsigned s)
    else positive (parse_unsigned (c ∷ s))

-- A digit before a text.
unfoldable pub digit_onto : ℕ → String → String
unfolding nth_text text_append
digit_onto d s = text_append (nth_text d "0123456789") s

-- The decimal digits of a number before a text; the fuel is the number of digits at most.
unfoldable pub decimal_onto : ℕ → ℕ → String → String
unfolding digit_onto
decimal_onto zero n s = s
decimal_onto (suc fuel) n s =
    let more = decimal_onto fuel (n / 10) (digit_onto (n % 10) s) in
    if ltb n 10 then digit_onto n s else more

-- 20 digits hold every number below 10 ^ 20, which is more than 2 ^ 64.
unfoldable pub format_nat : ℕ → String
unfolding decimal_onto
format_nat n = decimal_onto 20 n ""

unfoldable pub format_int : ℤ → String
unfolding format_nat
format_int (pos n) = format_nat n
format_int (negsuc n) = "-" ∷ format_nat (suc n)
