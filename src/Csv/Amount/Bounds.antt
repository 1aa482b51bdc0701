-- ===== src/Csv/Amount/Bounds.antt =====
-- The range of the amounts of importer.go.
use arran.Prelude.{ℕ, zero, suc, Bool, ◌&&◌, Option, none, some, String, arith}
use arran.Prelude.Text.{trim_space, has_prefix, ends_with}
use arran.Prelude.Int.{ℤ, pos, ◌-ℤ◌, IsInt64, wrap64-IsInt64}
use arran.World.Monad.{Result, ok, err}
use arran.Csv.Digits.{parse_unsigned, positive, negative, parse_int}
use arran.Csv.Amount.{
  negate, signed, parsed_amount, clean_amount, trimmed_amount, parse_amount, replace,
  to_ascii_digits,
}
use Prim.Native.String.{[], ◌∷◌}

-- A result in range, if there is one.
abbrev pub InRange : Result ℤ → Type 0
InRange (ok n) = IsInt64 n
InRange (err e) = Unit

abbrev pub SomeInRange : Option ℤ → Type 0
SomeInRange (some n) = IsInt64 n
SomeInRange none = Unit

positive-SomeInRange : (o : Option ℕ) → SomeInRange (positive o)
positive-SomeInRange none = tt
positive-SomeInRange (some n) = ground arith

negative-SomeInRange : (o : Option ℕ) → SomeInRange (negative o)
negative-SomeInRange none = tt
negative-SomeInRange (some zero) = ground arith
negative-SomeInRange (some (suc n)) = ground arith

pub parse_int-SomeInRange : (s : String) → SomeInRange (parse_int s)
unfolding parse_int
parse_int-SomeInRange [] = tt
parse_int-SomeInRange (c ∷ s) = ground (
  arith,
  positive-SomeInRange (parse_unsigned s),
  negative-SomeInRange (parse_unsigned s),
  positive-SomeInRange (parse_unsigned (c ∷ s)),
)

pub negate-IsInt64 : (n : ℤ) → IsInt64 (negate n)
unfolding negate
negate-IsInt64 n = wrap64-IsInt64 (pos 0 -ℤ n)

signed-IsInt64 : (b : Bool) (n : ℤ) → IsInt64 n → IsInt64 (signed b n)
unfolding signed
signed-IsInt64 b n h = ground (arith, negate-IsInt64 n)

parsed_amount-InRange :
    (quote : String → String) (b : Bool) (value : String) (o : Option ℤ)
    → SomeInRange o
    → InRange (parsed_amount quote b value o)
unfolding parsed_amount
parsed_amount-InRange quote b value none h = tt
parsed_amount-InRange quote b value (some n) h = signed-IsInt64 b n h

clean_amount-InRange :
    (quote : String → String) (b : Bool) (value : String) → InRange (clean_amount quote b value)
unfolding clean_amount
clean_amount-InRange quote b value =
    ground
      (arith, parsed_amount-InRange quote b value (parse_int value) (parse_int-SomeInRange value))

trimmed_amount-InRange : (quote : String → String) (s : String) → InRange (trimmed_amount quote s)
unfolding trimmed_amount
trimmed_amount-InRange quote [] = ground arith
trimmed_amount-InRange quote (c ∷ s) =
    clean_amount-InRange quote (has_prefix (c ∷ s) "(" && ends_with ")" (c ∷ s))
      (to_ascii_digits (replace (c ∷ s)))

-- Whatever the text, the amount that ParseAmount reads is an int64.
pub parse_amount-InRange : (quote : String → String) (s : String) → InRange (parse_amount quote s)
unfolding parse_amount
parse_amount-InRange quote s = trimmed_amount-InRange quote (trim_space s)
