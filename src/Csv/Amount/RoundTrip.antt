-- ===== src/Csv/Amount/RoundTrip.antt =====
-- `ParseAmount` on the amounts that people and banks write.
use Prim.Native.Char.{Char, code}
use Prim.Native.String.{String, [], ◌∷◌}
use arran.Prelude.{
  ◌+◌, ◌-◌, ◌<◌, ◌≤◌, ◌≡◌, refl, sym, ap, ◌∙◌, Bool, true, false, ◌&&◌, none, some, ◌==◌, arith,
  eq_iff, Bool-cases, inl, inr, ◌⊎◌,
}
use arran.Prelude.Text.{trim_space, has_prefix, ends_with}
use arran.Prelude.Int.{ℤ, IsInt64}
use mathlib.Core.Path.{subst}
use text.Mathlib.TextEquality.{Char-path}
use arran.World.Monad.{ok}
use arran.Csv.Digits.{is_digit, digit_onto, format_int, parse_int}
use arran.Csv.Digits.RoundTrip.{digit_onto_cons, parse_int-format_int}
use arran.Csv.Digits.Plain.{Plain, format_int-Plain}
use arran.Csv.Amount.{
  is_removed, replace, to_ascii_digits, signed, clean_amount, trimmed_amount, parse_amount,
}

-- The second text is the first with separators, currency signs, spaces and parentheses put in
-- anywhere, and with any of its digits in full width.
pub data Decorates : String → String → Type 0 where
  done : Decorates [] []
  same : {s t : String} (c : Char) → Decorates s t → Decorates (c ∷ s) (c ∷ t)
  extra :
      {s t : String} (c : Char) → is_removed (code c) ≡ true → Decorates s t → Decorates s (c ∷ t)
  wide :
      {s t : String} (c d : Char)
      → is_digit c ≡ true
      → code d ≡ code c + 0xfee0
      → Decorates s t
      → Decorates (c ∷ s) (d ∷ t)

abbrev cleaned : String → String
cleaned s = to_ascii_digits (replace s)

cleaned-Plain : (s : String) → Plain s → cleaned s ≡ s
unfolding replace to_ascii_digits is_digit
cleaned-Plain [] h = refl
cleaned-Plain (c ∷ s) h = ground (arith, cleaned-Plain s h.1)

cleaned_plain :
    (c : Char) (t : String)
    → (is_digit c ≡ true) ⊎ (code c ≡ b'-')
    → cleaned (c ∷ t) ≡ c ∷ cleaned t
unfolding replace to_ascii_digits is_digit
cleaned_plain c t h = ground arith

cleaned_removed : (c : Char) (t : String) → is_removed (code c) ≡ true → cleaned (c ∷ t) ≡ cleaned t
unfolding replace
cleaned_removed c t h = ground arith

replace_wide :
    (d : Char) (t : String) → 0xff10 ≤ code d → code d ≤ 0xff19 → replace (d ∷ t) ≡ d ∷ replace t
unfolding replace
replace_wide d t h k = ground arith

to_ascii_digits_wide :
    (d : Char) (t : String)
    → 0xff10 ≤ code d
    → code d ≤ 0xff19
    → to_ascii_digits (d ∷ t) ≡ digit_onto (code d - 0xff10) (to_ascii_digits t)
unfolding to_ascii_digits
to_ascii_digits_wide d t h k = ground arith

digit_onto_digit :
    (c : Char) (t : String) → is_digit c ≡ true → digit_onto (code c - b'0') t ≡ c ∷ t
unfolding is_digit
digit_onto_digit c t h =
    let small : code c - b'0' < 10 = ground arith in
    let (d, e, k) = digit_onto_cons (code c - b'0') t small in
    e ∙ ap (λ x. x ∷ t) (Char-path d c (ground (arith, k)))

cleaned_wide :
    (c d : Char) (t : String)
    → is_digit c ≡ true
    → code d ≡ code c + 0xfee0
    → cleaned (d ∷ t) ≡ c ∷ cleaned t
unfolding is_digit
cleaned_wide c d t h k =
    let low : 0xff10 ≤ code d = ground arith in
    let high : code d ≤ 0xff19 = ground arith in
    let same_value : code d - 0xff10 ≡ code c - b'0' = omega arith in
    ap to_ascii_digits (replace_wide d t low high)
    ∙ to_ascii_digits_wide d (replace t) low high
    ∙ ap (λ n. digit_onto n (cleaned t)) same_value
    ∙ digit_onto_digit c (cleaned t) h

cleaned-Decorates : {s t : String} → Decorates s t → Plain s → cleaned t ≡ s
unfolding replace to_ascii_digits
cleaned-Decorates done p = refl
cleaned-Decorates (same {t} c d) p =
    cleaned_plain c t p.0 ∙ ap (λ x. c ∷ x) (cleaned-Decorates d p.1)
cleaned-Decorates (extra {t} c r d) p = cleaned_removed c t r ∙ cleaned-Decorates d p
cleaned-Decorates (wide {t} c e h k d) p =
    cleaned_wide c e t h k ∙ ap (λ x. c ∷ x) (cleaned-Decorates d p.1)

-- A text that is a number is none of the empty ones.
ne_of_parse_int :
    (value other : String) (n : ℤ)
    → parse_int other ≡ none
    → parse_int value ≡ some n
    → (value == other) ≡ false
ne_of_parse_int value other n h k = elim (Bool-cases (value == other)) [
  | inl e ↦ absurd (
      subst (λ o. elim o [ none ↦ ⊥ | some x ↦ Unit {0} ])
        (sym k ∙ ap parse_int ((eq_iff value other).0 e) ∙ h) tt)
  | inr e ↦ e
]

clean_amount_number :
    (quote : String → String) (parentheses : Bool) (value : String) (n : ℤ)
    → parse_int value ≡ some n
    → clean_amount quote parentheses value ≡ ok (signed parentheses n)
unfolding clean_amount parse_int
clean_amount_number quote parentheses value n h = ground (
  arith,
  ne_of_parse_int value "" n refl h,
  ne_of_parse_int value "+" n refl h,
  ne_of_parse_int value "-" n refl h,
)

trimmed_amount-Decorates :
    (quote : String → String) (z : ℤ) (text : String)
    → parse_int (cleaned text) ≡ some z
    → trimmed_amount quote text ≡ ok (signed (has_prefix text "(" && ends_with ")" text) z)
unfolding trimmed_amount parse_int
trimmed_amount-Decorates quote z [] h = ground arith
trimmed_amount-Decorates quote z (c ∷ s) h =
    clean_amount_number quote (has_prefix (c ∷ s) "(" && ends_with ")" (c ∷ s)) (cleaned (c ∷ s)) z
      h

-- For every int64, a text that is, without the spaces around it, its decimal digits with
-- separators, currency signs, spaces and parentheses put in anywhere and any digits in full width
-- is read as that number; where the text stands in parentheses, a positive one is negated.
pub parse_amount-Decorates :
    (quote : String → String) (z : ℤ) (text : String)
    → IsInt64 z
    → Decorates (format_int z) (trim_space text)
    → parse_amount quote text
      ≡ ok (signed (has_prefix (trim_space text) "(" && ends_with ")" (trim_space text)) z)
unfolding parse_amount
parse_amount-Decorates quote z text h d =
    trimmed_amount-Decorates quote z (trim_space text)
      (ap parse_int (cleaned-Decorates d (format_int-Plain z)) ∙ parse_int-format_int z h)
