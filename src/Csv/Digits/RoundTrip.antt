-- ===== src/Csv/Digits/RoundTrip.antt =====
-- What is formatted is parsed again.
use Prim.Native.Char.{Char, code}
use Prim.Native.String.{String, [], ◌∷◌}
use arran.Prelude.{
  ℕ, zero, suc, ◌+◌, ◌*◌, ◌/◌, ◌%◌, ◌^◌, ◌<◌, ◌≤◌, ◌≡◌, refl, ap, ◌∙◌, true, some, ltb, arith,
  ltb→lt, Bool-cases, inl, inr,
}
use arran.Prelude.Text.{nth_text, text_append}
use arran.Prelude.Int.{ℤ, pos, negsuc, IsInt64}
use arran.Csv.Digits.{
  is_digit, digit_value, parse_digits, parse_unsigned, positive, negative, parse_int, digit_onto,
  decimal_onto, format_nat, format_int,
}

-- The character of a digit.
pub digit_char :
    (d : ℕ) → d < 10 → (c : Char) × (nth_text d "0123456789" ≡ c ∷ []) × (code c ≡ d + b'0')
unfolding nth_text
digit_char zero h = ("0", refl, refl)
digit_char (suc zero) h = ("1", refl, refl)
digit_char (suc (suc zero)) h = ("2", refl, refl)
digit_char (suc (suc (suc zero))) h = ("3", refl, refl)
digit_char (suc (suc (suc (suc zero)))) h = ("4", refl, refl)
digit_char (suc (suc (suc (suc (suc zero))))) h = ("5", refl, refl)
digit_char (suc (suc (suc (suc (suc (suc zero)))))) h = ("6", refl, refl)
digit_char (suc (suc (suc (suc (suc (suc (suc zero))))))) h = ("7", refl, refl)
digit_char (suc (suc (suc (suc (suc (suc (suc (suc zero)))))))) h = ("8", refl, refl)
digit_char (suc (suc (suc (suc (suc (suc (suc (suc (suc zero))))))))) h = ("9", refl, refl)
digit_char (suc (suc (suc (suc (suc (suc (suc (suc (suc (suc n)))))))))) h = absurd (omega arith)

pub digit_onto_cons :
    (d : ℕ) (s : String) → d < 10 → (c : Char) × (digit_onto d s ≡ c ∷ s) × (code c ≡ d + b'0')
unfolding digit_onto text_append
digit_onto_cons d s h = let (c, e, k) = digit_char d h in (c, ap (λ t. text_append t s) e, k)

pub parse_digits-digit_onto :
    (d n : ℕ) (s : String) → d < 10 → parse_digits (digit_onto d s) n ≡ parse_digits s (n * 10 + d)
unfolding parse_digits is_digit
parse_digits-digit_onto d n s h =
    let (c, e, k) = digit_onto_cons d s h in
    let v : digit_value c ≡ d = omega (arith, k) in rw e (ground (arith, k, v))

-- 10 ^ n
unfoldable pub limit : ℕ → ℕ
limit zero = 1
limit (suc n) = 10 * limit n

decimal_onto_small :
    (fuel n : ℕ) (s : String) → n < 10 → decimal_onto (suc fuel) n s ≡ digit_onto n s
unfolding decimal_onto
decimal_onto_small fuel n s h = ground arith

decimal_onto_large :
    (fuel n : ℕ) (s : String)
    → 10 ≤ n
    → decimal_onto (suc fuel) n s ≡ decimal_onto fuel (n / 10) (digit_onto (n % 10) s)
unfolding decimal_onto
decimal_onto_large fuel n s h = ground arith

parse_digits_small :
    (fuel n : ℕ) (s : String)
    → n < 10
    → parse_digits (decimal_onto (suc fuel) n s) 0 ≡ parse_digits s n
parse_digits_small fuel n s h =
    ap (λ t. parse_digits t 0) (decimal_onto_small fuel n s h)
    ∙ parse_digits-digit_onto n 0 s h
    ∙ ap (parse_digits s) (omega arith)

pub parse_digits-decimal_onto :
    (fuel n : ℕ) (s : String)
    → n < limit (suc fuel)
    → parse_digits (decimal_onto (suc fuel) n s) 0 ≡ parse_digits s n
unfolding limit
parse_digits-decimal_onto zero n s h = parse_digits_small zero n s (omega (arith, h))
parse_digits-decimal_onto (suc fuel) n s h = elim (Bool-cases (ltb n 10)) [
  | inl small ↦ parse_digits_small (suc fuel) n s (ltb→lt n 10 small)
  | inr large ↦
      let more : 10 ≤ n = ground arith in
      ap (λ t. parse_digits t 0) (decimal_onto_large (suc fuel) n s more)
      ∙ parse_digits-decimal_onto fuel (n / 10) (digit_onto (n % 10) s) (omega (arith, h))
      ∙ parse_digits-digit_onto (n % 10) (n / 10) s (omega arith)
      ∙ ap (parse_digits s) (omega arith)
]

-- A text that begins with a digit.
abbrev pub StartsWithDigit : String → Type 0
StartsWithDigit [] = ⊥
StartsWithDigit (c ∷ s) = is_digit c ≡ true

digit_onto-StartsWithDigit : (d : ℕ) (s : String) → d < 10 → StartsWithDigit (digit_onto d s)
unfolding is_digit
digit_onto-StartsWithDigit d s h = let (c, e, k) = digit_onto_cons d s h in rw e (ground (arith, k))

decimal_onto-StartsWithDigit :
    (fuel n : ℕ) (s : String) → n < limit (suc fuel) → StartsWithDigit (decimal_onto (suc fuel) n s)
unfolding limit
decimal_onto-StartsWithDigit zero n s h =
    rw (decimal_onto_small zero n s (omega (arith, h)))
      (digit_onto-StartsWithDigit n s (omega (arith, h)))
decimal_onto-StartsWithDigit (suc fuel) n s h = elim (Bool-cases (ltb n 10)) [
  | inl small ↦
      rw (decimal_onto_small (suc fuel) n s (ltb→lt n 10 small))
        (digit_onto-StartsWithDigit n s (ltb→lt n 10 small))
  | inr large ↦
      rw (decimal_onto_large (suc fuel) n s (ground arith))
        (decimal_onto-StartsWithDigit fuel (n / 10) (digit_onto (n % 10) s) (omega (arith, h)))
]

parse_unsigned_digits : (s : String) → StartsWithDigit s → parse_unsigned s ≡ parse_digits s 0
unfolding parse_unsigned
parse_unsigned_digits [] h = absurd h
parse_unsigned_digits (c ∷ s) h = refl

parse_int_digits : (s : String) → StartsWithDigit s → parse_int s ≡ positive (parse_unsigned s)
unfolding parse_int is_digit
parse_int_digits [] h = absurd h
parse_int_digits (c ∷ s) h = ground arith

format_nat-StartsWithDigit : (n : ℕ) → n < 10 ^ 20 → StartsWithDigit (format_nat n)
unfolding format_nat limit
format_nat-StartsWithDigit n h = decimal_onto-StartsWithDigit 19 n "" h

parse_unsigned-format_nat : (n : ℕ) → n < 10 ^ 20 → parse_unsigned (format_nat n) ≡ some n
unfolding format_nat limit parse_digits
parse_unsigned-format_nat n h =
    parse_unsigned_digits (format_nat n) (format_nat-StartsWithDigit n h)
    ∙ parse_digits-decimal_onto 19 n "" h

parse_int_minus : (s : String) → parse_int ("-" ∷ s) ≡ negative (parse_unsigned s)
unfolding parse_int
parse_int_minus s = refl

-- Every int64 is parsed from its digits.
pub parse_int-format_int : (z : ℤ) → IsInt64 z → parse_int (format_int z) ≡ some z
unfolding format_int
parse_int-format_int (pos n) h =
    parse_int_digits (format_nat n) (format_nat-StartsWithDigit n (omega (arith, h)))
    ∙ ap positive (parse_unsigned-format_nat n (omega (arith, h)))
    ∙ ground arith
parse_int-format_int (negsuc n) h =
    parse_int_minus (format_nat (suc n))
    ∙ ap negative (parse_unsigned-format_nat (suc n) (omega (arith, h)))
    ∙ ground arith
