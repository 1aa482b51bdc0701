-- ===== src/Csv/Dates/RoundTrip.antt =====
-- What `parseDate` makes of a date it has formatted.
use Prim.Native.Char.{Char}
use Prim.Native.String.{String, ◌∷◌}
use arran.Prelude.{
  ℕ, ◌+◌, ◌*◌, ◌/◌, ◌%◌, ◌<◌, ◌≤◌, ◌≡◌, refl, ap, inr, ◌∙◌, true, Option, none, some, List, arith,
}
use arran.Prelude.Text.{trim_space}
use arran.World.Monad.{Result, ok, err}
use arran.Csv.Digits.{is_digit, digit_value, digit_onto}
use arran.Csv.Digits.RoundTrip.{digit_onto_cons}
use arran.Csv.Digits.Plain.{Plain, digit_onto-Plain, trim_space-Plain}
use arran.Csv.Dates.{
  Date, get_num, get_year, two_digits_onto, format_date, parse_part, parse_parts, parse_time, valid,
  iso_layout, first_date, date_layouts, is_date, days_in, dated, parse_date, Part, year_4, month_2,
  day_2, literal, set_year, set_month, set_day,
}

-- Two digits with the value n, before the text.
TwoDigits : ℕ → String → String → Type 0
TwoDigits n s t =
    (c : Char) × (d : Char) × (t ≡ c ∷ d ∷ s)
    × (is_digit c ≡ true)
    × (is_digit d ≡ true)
    × (digit_value c * 10 + digit_value d ≡ n)

two_digits_onto-TwoDigits : (n : ℕ) (s : String) → n < 100 → TwoDigits n s (two_digits_onto n s)
unfolding TwoDigits two_digits_onto is_digit
two_digits_onto-TwoDigits n s h =
    let (d, e, k) = digit_onto_cons (n % 10) s (omega arith) in
    let (c, f, l) = digit_onto_cons (n / 10) (digit_onto (n % 10) s) (omega (arith, h)) in
    (c, d, f ∙ ap (λ t. c ∷ t) e, ground (arith, l), ground (arith, k), omega (arith, k, l))

get_num-two_digits_onto :
    (n : ℕ) (s : String) → n < 100 → get_num true (two_digits_onto n s) ≡ some (n, s)
unfolding TwoDigits get_num
get_num-two_digits_onto n s h =
    let (c, d, e, k, l, v) = two_digits_onto-TwoDigits n s h in rw e (ground (arith, k, l, v))

get_year-two_digits_onto :
    (y : ℕ) (s : String)
    → y ≤ 9999
    → get_year (two_digits_onto (y / 100) (two_digits_onto (y % 100) s)) ≡ some (y, s)
unfolding TwoDigits get_year
get_year-two_digits_onto y s h =
    let (a, b, e, i, j, v) =
      two_digits_onto-TwoDigits (y / 100) (two_digits_onto (y % 100) s) (omega (arith, h)) in
    let (c, d, f, k, l, w) = two_digits_onto-TwoDigits (y % 100) s (omega arith) in
    rw (e ∙ ap (λ t. a ∷ b ∷ t) f) (ground (arith, i, j, k, l, v, w))

parse_parts_step :
    (part : Part) (parts : List Part) (d d' : Date) (s s' : String)
    → parse_part part d s ≡ some (d', s')
    → parse_parts (List.◌∷◌ part parts) d s ≡ parse_parts parts d' s'
unfolding parse_parts
parse_parts_step part parts d d' s s' h = ground (arith, h)

set_month_valid :
    (d : Date) (m : ℕ) (s : String)
    → 1 ≤ m
    → m ≤ 12
    → set_month d (some (m, s)) ≡ some (record d { month = m }, s)
set_month_valid d m s h k = ground arith

days_in-le : (y m : ℕ) → days_in y m ≤ 31
unfolding days_in
days_in-le y m = ground arith

-- The ranges of a date's parts.
is_date-ranges :
    (d : Date) → is_date d ≡ true → (d.year ≤ 9999) × (1 ≤ d.month) × (d.month ≤ 12) × (d.day < 100)
unfolding is_date
is_date-ranges d h = ground (arith, days_in-le d.year d.month)

parse_parts-format_date :
    (y m n : ℕ) (d : Date)
    → y ≤ 9999
    → 1 ≤ m
    → m ≤ 12
    → n < 100
    → parse_parts iso_layout d (format_date (record { year = y; month = m; day = n }))
      ≡ some (record { year = y; month = m; day = n })
unfolding format_date parse_part parse_parts
parse_parts-format_date y m n d h k l o =
    let days : String = two_digits_onto n "" in
    let months : String = two_digits_onto m ("-" ∷ days) in
    let whole : String = format_date (record { year = y; month = m; day = n }) in
    let dy : Date = record d { year = y } in
    let dm : Date = record dy { month = m } in
    let last : List Part = List.◌∷◌ day_2 List.[] in
    let from_day : List Part = List.◌∷◌ (literal "-") last in
    let from_month : List Part = List.◌∷◌ month_2 from_day in
    parse_parts_step year_4 (List.◌∷◌ (literal "-") from_month) d dy whole ("-" ∷ months)
      (ap (set_year d) (get_year-two_digits_onto y ("-" ∷ months) h))
    ∙ parse_parts_step (literal "-") from_month dy dy ("-" ∷ months) months refl
    ∙ parse_parts_step month_2 from_day dy dm months ("-" ∷ days) (
        ap (set_month dy) (get_num-two_digits_onto m ("-" ∷ days) (omega (arith, l)))
        ∙ set_month_valid dy m ("-" ∷ days) k l)
    ∙ parse_parts_step (literal "-") last dm dm ("-" ∷ days) days refl
    ∙ parse_parts_step day_2 List.[] dm (record dm { day = n }) days ""
        (ap (set_day dm) (get_num-two_digits_onto n "" o))

parse_time-format_date :
    (d : Date) → is_date d ≡ true → parse_time iso_layout (format_date d) ≡ some d
unfolding parse_time
parse_time-format_date d h =
    let (y, m, n, o) = is_date-ranges d h in
    ap valid (
      parse_parts-format_date d.year d.month d.day (record { year = 0; month = 0; day = 0 }) y m n
        o)
    ∙ ground (arith, h)

two_digits_onto-Plain : (n : ℕ) (s : String) → n < 100 → Plain s → Plain (two_digits_onto n s)
unfolding two_digits_onto
two_digits_onto-Plain n s h p =
    digit_onto-Plain (n / 10) (digit_onto (n % 10) s) (omega (arith, h))
      (digit_onto-Plain (n % 10) s (omega arith) p)

format_date-Plain : (d : Date) → is_date d ≡ true → Plain (format_date d)
unfolding format_date
format_date-Plain d h =
    let (y, m, n, o) = is_date-ranges d h in
    let days = two_digits_onto-Plain d.day "" o tt in
    let months =
      two_digits_onto-Plain d.month ("-" ∷ two_digits_onto d.day "") (omega (arith, n))
        (inr refl, days) in
    two_digits_onto-Plain (d.year / 100)
      (two_digits_onto (d.year % 100)
        ("-" ∷ two_digits_onto d.month ("-" ∷ two_digits_onto d.day "")))
      (omega (arith, y))
      (two_digits_onto-Plain (d.year % 100)
        ("-" ∷ two_digits_onto d.month ("-" ∷ two_digits_onto d.day "")) (omega arith)
        (inr refl, months))

first_date-format_date :
    (d : Date) → is_date d ≡ true → first_date date_layouts (format_date d) ≡ some d
unfolding first_date
first_date-format_date d h = ground (arith, parse_time-format_date d h)

-- Every date of the calendar up to the year 9999 is read from its text in the form 2006-01-02, and
-- keeps that text.
pub parse_date-format_date :
    (quote : String → String) (d : Date)
    → is_date d ≡ true
    → parse_date quote (format_date d) ≡ ok (format_date d)
unfolding parse_date
parse_date-format_date quote d h =
    let trimmed = trim_space-Plain (format_date d) (format_date-Plain d h) in
    ap (λ t. dated quote t (first_date date_layouts t)) trimmed
    ∙ ap (dated quote (format_date d)) (first_date-format_date d h)

IsSomeDate : Option Date → Type 0
IsSomeDate none = Unit
IsSomeDate (some d) = is_date d ≡ true

valid-IsSomeDate : (o : Option Date) → IsSomeDate (valid o)
unfolding IsSomeDate
valid-IsSomeDate none = tt
valid-IsSomeDate (some d) = ground arith

first_of-IsSomeDate :
    (o rest : Option Date)
    → IsSomeDate o
    → IsSomeDate rest
    → IsSomeDate (elim o [ none ↦ rest | some d ↦ some d ])
first_of-IsSomeDate none rest h k = k
first_of-IsSomeDate (some d) rest h k = h

first_date-IsSomeDate :
    (layouts : List (List Part)) (s : String) → IsSomeDate (first_date layouts s)
unfolding IsSomeDate first_date parse_time
first_date-IsSomeDate List.[] s = tt
first_date-IsSomeDate (List.◌∷◌ layout layouts) s =
    first_of-IsSomeDate (parse_time layout s) (first_date layouts s)
      (valid-IsSomeDate (parse_parts layout (record { year = 0; month = 0; day = 0 }) s))
      (first_date-IsSomeDate layouts s)

-- A date of the calendar in the form 2006-01-02, which is kept if it is read again; or an error.
abbrev pub Canonical : (String → String) → Result String → Type 0
Canonical quote (ok t) =
    (d : Date) × (is_date d ≡ true) × (t ≡ format_date d) × (parse_date quote t ≡ ok t)
Canonical quote (err e) = Unit

dated-Canonical :
    (quote : String → String) (value : String) (o : Option Date)
    → IsSomeDate o
    → Canonical quote (dated quote value o)
unfolding dated IsSomeDate
dated-Canonical quote value none h = tt
dated-Canonical quote value (some d) h = (d, h, refl, parse_date-format_date quote d h)

-- Whatever the text, what parseDate returns without an error is a date of the calendar in the form
-- 2006-01-02, and reading that again gives the same.
pub parse_date-Canonical :
    (quote : String → String) (value : String) → Canonical quote (parse_date quote value)
unfolding parse_date
parse_date-Canonical quote value =
    dated-Canonical quote (trim_space value) (first_date date_layouts (trim_space value))
      (first_date-IsSomeDate date_layouts (trim_space value))
