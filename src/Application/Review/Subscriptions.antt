-- ===== src/Application/Review/Subscriptions.antt =====
-- `DetectSubscriptionCandidates` of application.go.
use arran.Prelude.{
  ℕ, zero, suc, ◌+◌, ◌-◌, ◌*◌, ◌/◌, String, Bool, false, not, ◌&&◌, ◌||◌, Option, none, some, List,
  [], ◌∷◌, ◌==◌, leb, if◌then◌else◌, keep, length,
}
use arran.Prelude.Int.{ℤ, pos, ◌*ℤ◌, wrap64, ltb_ℤ, eqb_ℤ}
use arran.Prelude.Text.{member, str_lt}
use arran.Domain.{Transaction, ReviewCandidate}
use arran.Csv.Dates.{Date, parse_time, iso_layout, days_in}

-- What Go leaves open: the order in which `range` visits the keys of a map, and where `sort.Slice`
-- puts elements that its test does not order.
pub record Sorting : Type 0 where
  pub keys : List String → List String
  pub transactions : (Transaction → Transaction → Bool) → List Transaction → List Transaction
  pub candidates :
      (ReviewCandidate → ReviewCandidate → Bool) → List ReviewCandidate → List ReviewCandidate

abbrev pub is_expense_of : String → Transaction → Bool
is_expense_of merchant item =
    item.transaction_type == "expense" && item.normalized_merchant == merchant

-- The keys of `byMerchant`, in the order in which they are entered.
unfoldable pub merchants : List Transaction → List String
unfolding member
merchants [] = []
merchants (item ∷ items) =
    let rest = merchants items in
    if not (item.transaction_type == "expense") || member item.normalized_merchant rest
    then rest
    else item.normalized_merchant ∷ rest

-- `byMerchant[merchant]`
unfoldable pub items_of : String → List Transaction → List Transaction
unfolding keep
items_of merchant items = keep (is_expense_of merchant) items

-- The days of the years before `year`, from year 0 on.
unfoldable pub days_before_year : ℕ → ℕ
days_before_year year = 365 * year + (year + 3) / 4 - (year + 99) / 100 + (year + 399) / 400

-- The days of the months before the `month`-th, counted from 0.
unfoldable pub days_before_month : ℕ → ℕ → ℕ
unfolding days_in
days_before_month year zero = 0
days_before_month year (suc month) = days_before_month year month + days_in year (suc month)

unfoldable pub day_number : Date → ℕ
unfolding days_before_year days_before_month
day_number d = days_before_year d.year + days_before_month d.year (d.month - 1) + d.day

abbrev pub is_month_interval : ℕ → Bool
is_month_interval days = leb 25 days && leb days 35

abbrev pub dates_match : Option Date → Option Date → Bool
dates_match none after = false
dates_match (some before) none = false
dates_match (some before) (some after) = is_month_interval (day_number after - day_number before)

-- The test on two neighbours. Where `after` is the earlier one, the days are 0 here and negative in
-- Go, and neither is in the range.
unfoldable pub is_repeated : Transaction → Transaction → Bool
unfolding day_number parse_time
is_repeated before after =
    dates_match (parse_time iso_layout before.transaction_date)
      (parse_time iso_layout after.transaction_date)
    && eqb_ℤ after.amount before.amount

-- The loop over the neighbours.
unfoldable pub any_repeated : Transaction → List Transaction → Bool
unfolding is_repeated
any_repeated before [] = false
any_repeated before (after ∷ rest) = is_repeated before after || any_repeated after rest

-- `items[len(items)-1]` of the list that begins with `item`
unfoldable pub last_of : Transaction → List Transaction → Transaction
last_of item [] = item
last_of item (next ∷ rest) = last_of next rest

-- `x * 12`
abbrev pub annualized : ℤ → ℤ
annualized amount = wrap64 (amount *ℤ pos 12)

unfoldable pub subscription_candidate : String → Transaction → ℕ → ReviewCandidate
unfolding wrap64 ◌*ℤ◌
subscription_candidate merchant latest count = record {
  label = merchant;
  judgement = "見直し候補";
  total_amount = latest.amount;
  count = count;
  reason = "約1か月間隔で同額の支出があり、サブスクの可能性があります。";
  annualized_amount = annualized latest.amount;
  question = "現在も毎月利用していますか？";
}

-- The body of the loop over the merchants, with the sorted expenses. One expense alone has no
-- neighbour.
unfoldable pub detect_in : String → List Transaction → Option ReviewCandidate
unfolding any_repeated last_of subscription_candidate
detect_in merchant [] = none
detect_in merchant (item ∷ items) =
    if any_repeated item items
    then some (subscription_candidate merchant (last_of item items) (length (item ∷ items)))
    else none

abbrev pub by_date : Transaction → Transaction → Bool
by_date a b = str_lt a.transaction_date b.transaction_date

abbrev pub by_annualized : ReviewCandidate → ReviewCandidate → Bool
by_annualized a b = ltb_ℤ b.annualized_amount a.annualized_amount

abbrev pub append_found : Option ReviewCandidate → List ReviewCandidate → List ReviewCandidate
append_found none found = found
append_found (some candidate) found = candidate ∷ found

-- The loop over the merchants; the list is sorted afterwards.
unfoldable pub detect_all : Sorting → List Transaction → List String → List ReviewCandidate
unfolding detect_in items_of str_lt
detect_all sorting items [] = []
detect_all sorting items (merchant ∷ rest) =
    let found = detect_all sorting items rest in
    append_found (detect_in merchant (sorting.transactions by_date (items_of merchant items))) found

-- `DetectSubscriptionCandidates`
unfoldable pub detect_subscription_candidates : Sorting → List Transaction → List ReviewCandidate
unfolding merchants detect_all
detect_subscription_candidates sorting items =
    sorting.candidates by_annualized (detect_all sorting items (sorting.keys (merchants items)))
