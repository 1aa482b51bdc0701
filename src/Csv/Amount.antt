-- ===== src/Csv/Amount.antt =====
-- `ParseAmount` of importer.go.
pub mod RoundTrip
pub mod Bounds
use Prim.Native.Char.{Char, code}
use Prim.Native.String.{String, [], ◌∷◌}
use arran.Prelude.{
  ℕ, zero, suc, ◌-◌, Bool, ◌&&◌, ◌||◌, Option, none, some, List, ◌==◌, ltb, leb, eqb, if◌then◌else◌,
}
use arran.Prelude.Text.{trim_space, has_prefix, ends_with, text_append, is_space, nth_text}
use arran.Prelude.Int.{ℤ, pos, negsuc, ◌-ℤ◌, ltb_ℤ, wrap64}
use arran.World.Monad.{Result, ok, err, failure}
use arran.Csv.Digits.{digit_onto, parse_int}

-- -n in 64 bits: the least int64 is its own negation.
unfoldable pub negate : ℤ → ℤ
unfolding wrap64 ◌-ℤ◌
negate n = wrap64 (pos 0 -ℤ n)

-- The characters that the replacer removes: separators, currency signs, spaces and parentheses.
unfoldable pub is_removed : ℕ → Bool
is_removed c =
    eqb c b','
    || eqb c 0xff0c
    || eqb c 0xa5
    || eqb c 0xffe5
    || eqb c 0x5186
    || eqb c b' '
    || eqb c 0x3000
    || eqb c b'('
    || eqb c b')'

-- A minus sign of another alphabet.
unfoldable pub is_minus : ℕ → Bool
is_minus c = eqb c 0x2212 || eqb c 0xff0d || eqb c 0x30fc

-- `replacer.Replace`
unfoldable pub replace : String → String
unfolding is_removed is_minus
replace [] = []
replace (c ∷ s) =
    let rest = replace s in
    if is_removed (code c)
    then rest
    else if eqb (code c) 0xff0b
    then "+" ∷ rest
    else if is_minus (code c)
    then "-" ∷ rest
    else c ∷ rest

-- `toASCIIDigits`
unfoldable pub to_ascii_digits : String → String
unfolding digit_onto is_space
to_ascii_digits [] = []
to_ascii_digits (c ∷ s) =
    let rest = to_ascii_digits s in
    if leb 0xff10 (code c) && leb (code c) 0xff19
    then digit_onto (code c - 0xff10) rest
    else if is_space (code c)
    then rest
    else c ∷ rest

-- The text of an error with a quoted value, `fmt.Errorf("… %q …", value)`; `strconv.Quote` is the
-- first argument.
unfoldable pub bad_value : (String → String) → String → String → String
unfolding text_append
bad_value quote what value =
    text_append what (text_append " " (text_append (quote value) " を解釈できません"))

unfoldable pub signed : Bool → ℤ → ℤ
unfolding negate
signed parentheses n = if parentheses && ltb_ℤ (pos 0) n then negate n else n

unfoldable pub parsed_amount : (String → String) → Bool → String → Option ℤ → Result ℤ
unfolding signed bad_value
parsed_amount quote parentheses value none = err (failure (bad_value quote "金額" value))
parsed_amount quote parentheses value (some n) = ok (signed parentheses n)

-- The amount after the replacements.
unfoldable pub clean_amount : (String → String) → Bool → String → Result ℤ
unfolding parsed_amount parse_int
clean_amount quote parentheses value =
    if value == "" || value == "+" || value == "-"
    then err (failure (bad_value quote "金額" value))
    else parsed_amount quote parentheses value (parse_int value)

unfoldable pub trimmed_amount : (String → String) → String → Result ℤ
unfolding clean_amount replace to_ascii_digits has_prefix ends_with
trimmed_amount quote [] = ok (pos 0)
trimmed_amount quote (c ∷ s) =
    clean_amount quote (has_prefix (c ∷ s) "(" && ends_with ")" (c ∷ s))
      (to_ascii_digits (replace (c ∷ s)))

-- `ParseAmount`
unfoldable pub parse_amount : (String → String) → String → Result ℤ
unfolding trimmed_amount trim_space
parse_amount quote value = trimmed_amount quote (trim_space value)
