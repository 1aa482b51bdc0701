-- ===== src/Csv/Dates.antt =====
-- `parseDate` of importer.go: Go's `time.Parse` on the six layouts, and the format 2006-01-02.
pub mod RoundTrip
use Prim.Native.Char.{Char, code}
use Prim.Native.String.{String, [], ◌∷◌}
use arran.Prelude.{
  ℕ, ◌+◌, ◌-◌, ◌*◌, ◌/◌, ◌%◌, Bool, true, false, not, ◌&&◌, ◌||◌, Option, none, some, List, eqb,
  leb, ltb, if◌then◌else◌,
}
use arran.Prelude.Text.{trim_space, text_append}
use arran.World.Monad.{Result, ok, err, failure}
use arran.Csv.Digits.{is_digit, digit_value, digit_onto}
use arran.Csv.Amount.{bad_value}

pub record Date : Type 0 where
  pub year : ℕ
  pub month : ℕ
  pub day : ℕ

-- The parts of a layout: 2006, 01, 1, Jan, 02, 2, and any other character for itself.
pub data Part : Type 0 where
  year_4 month_2 month_1 month_name day_2 day_1 : Part
  literal : Char → Part

-- `getnum`: one or two digits, or just two
unfoldable pub get_num : Bool → String → Option (ℕ × String)
unfolding is_digit
get_num fixed [] = none
get_num fixed (c ∷ []) = if is_digit c && not fixed then some (digit_value c, []) else none
get_num fixed (c ∷ d ∷ s) =
    if not (is_digit c)
    then none
    else if is_digit d
    then some (digit_value c * 10 + digit_value d, s)
    else if fixed
    then none
    else some (digit_value c, d ∷ s)

unfoldable pub get_year : String → Option (ℕ × String)
unfolding is_digit
get_year (a ∷ b ∷ c ∷ d ∷ s) =
    if is_digit a && is_digit b && is_digit c && is_digit d
    then some (digit_value a * 1000 + digit_value b * 100 + digit_value c * 10 + digit_value d, s)
    else none
get_year _ = none

-- The rest of a text after a prefix, whose ASCII letters may be in either case.
unfoldable pub fold_ascii : ℕ → ℕ
fold_ascii c = if leb b'A' c && leb c b'Z' then c + 32 else c

unfoldable pub skip_folded : String → String → Option String
unfolding fold_ascii
skip_folded [] s = some s
skip_folded (p ∷ ps) [] = none
skip_folded (p ∷ ps) (c ∷ s) =
    let rest = skip_folded ps s in
    if eqb (fold_ascii (code c)) (fold_ascii (code p)) then rest else none

unfoldable pub lookup_month : List String → ℕ → String → Option (ℕ × String)
unfolding skip_folded
lookup_month List.[] n s = none
lookup_month (List.◌∷◌ name names) n s =
    let rest = lookup_month names (n + 1) s in
    elim (skip_folded name s) [ none ↦ rest | some tail ↦ some (n, tail) ]

abbrev pub month_names : List String
month_names = List.◌∷◌ "Jan" (
    List.◌∷◌ "Feb" (
      List.◌∷◌ "Mar" (
        List.◌∷◌ "Apr" (
          List.◌∷◌ "May" (
            List.◌∷◌ "Jun" (
              List.◌∷◌ "Jul" (
                List.◌∷◌ "Aug"
                  (List.◌∷◌ "Sep" (List.◌∷◌ "Oct" (List.◌∷◌ "Nov" (List.◌∷◌ "Dec" List.[])))))))))))

abbrev pub set_year : Date → Option (ℕ × String) → Option (Date × String)
set_year d none = none
set_year d (some (n, s)) = some (record d { year = n }, s)

abbrev pub set_month : Date → Option (ℕ × String) → Option (Date × String)
set_month d none = none
set_month d (some (n, s)) = if leb 1 n && leb n 12 then some (record d { month = n }, s) else none

abbrev pub set_day : Date → Option (ℕ × String) → Option (Date × String)
set_day d none = none
set_day d (some (n, s)) = some (record d { day = n }, s)

abbrev pub skip_literal : Char → Date → String → Option (Date × String)
skip_literal p d [] = none
skip_literal p d (c ∷ s) = if eqb (code c) (code p) then some (d, s) else none

unfoldable pub parse_part : Part → Date → String → Option (Date × String)
unfolding get_num get_year lookup_month
parse_part year_4 d s = set_year d (get_year s)
parse_part month_2 d s = set_month d (get_num true s)
parse_part month_1 d s = set_month d (get_num false s)
parse_part month_name d s = set_month d (lookup_month month_names 1 s)
parse_part day_2 d s = set_day d (get_num true s)
parse_part day_1 d s = set_day d (get_num false s)
parse_part (literal c) d s = skip_literal c d s

unfoldable pub is_leap : ℕ → Bool
is_leap y = eqb (y % 4) 0 && (not (eqb (y % 100) 0) || eqb (y % 400) 0)

unfoldable pub days_in : ℕ → ℕ → ℕ
unfolding is_leap
days_in y m =
    if eqb m 2
    then (if is_leap y then 29 else 28)
    else if eqb m 4 || eqb m 6 || eqb m 9 || eqb m 11
    then 30
    else 31

unfoldable pub is_date : Date → Bool
unfolding days_in
is_date d =
    leb d.year 9999
    && (leb 1 d.month && leb d.month 12)
    && (leb 1 d.day && leb d.day (days_in d.year d.month))

-- The parts one after another; nothing may be left of the text.
unfoldable pub parse_parts : List Part → Date → String → Option Date
unfolding parse_part
parse_parts List.[] d [] = some d
parse_parts List.[] d (c ∷ s) = none
parse_parts (List.◌∷◌ part parts) d s = elim (parse_part part d s) [
  | none ↦ none
  | some (d', s') ↦ parse_parts parts d' s'
]

abbrev pub valid : Option Date → Option Date
valid none = none
valid (some d) = if is_date d then some d else none

-- `time.Parse`
unfoldable pub parse_time : List Part → String → Option Date
unfolding parse_parts is_date
parse_time layout s = valid (parse_parts layout (record { year = 0; month = 0; day = 0 }) s)

abbrev pub layout_of : Part → Part → Part → Part → Part → List Part
layout_of a b c d e = List.◌∷◌ a (List.◌∷◌ b (List.◌∷◌ c (List.◌∷◌ d (List.◌∷◌ e List.[]))))

abbrev pub iso_layout : List Part
iso_layout = layout_of year_4 (literal "-") month_2 (literal "-") day_2

-- `dateLayouts`
abbrev pub date_layouts : List (List Part)
date_layouts = List.◌∷◌ iso_layout (
    List.◌∷◌ (layout_of year_4 (literal "/") month_2 (literal "/") day_2) (
      List.◌∷◌ (layout_of year_4 (literal ".") month_2 (literal ".") day_2) (
        List.◌∷◌
          (List.◌∷◌ year_4 (
            List.◌∷◌ (literal "年") (
              List.◌∷◌ month_1
                (List.◌∷◌ (literal "月") (List.◌∷◌ day_1 (List.◌∷◌ (literal "日") List.[]))))))
          (List.◌∷◌ (layout_of month_2 (literal "/") day_2 (literal "/") year_4)
            (List.◌∷◌ (layout_of day_1 (literal "-") month_name (literal "-") year_4) List.[])))))

unfoldable pub two_digits_onto : ℕ → String → String
unfolding digit_onto
two_digits_onto n s = digit_onto (n / 10) (digit_onto (n % 10) s)

-- `parsed.Format("2006-01-02")`
unfoldable pub format_date : Date → String
unfolding two_digits_onto
format_date d = two_digits_onto (d.year / 100) (
    two_digits_onto (d.year % 100) ("-" ∷ two_digits_onto d.month ("-" ∷ two_digits_onto d.day "")))

-- The first layout that fits.
unfoldable pub first_date : List (List Part) → String → Option Date
unfolding parse_time
first_date List.[] s = none
first_date (List.◌∷◌ layout layouts) s =
    let rest = first_date layouts s in elim (parse_time layout s) [ none ↦ rest | some d ↦ some d ]

unfoldable pub dated : (String → String) → String → Option Date → Result String
unfolding format_date bad_value
dated quote value none = err (failure (bad_value quote "日付" value))
dated quote value (some d) = ok (format_date d)

-- `parseDate`
unfoldable pub parse_date : (String → String) → String → Result String
unfolding dated first_date trim_space
parse_date quote value =
    let trimmed = trim_space value in dated quote trimmed (first_date date_layouts trimmed)
