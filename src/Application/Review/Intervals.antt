-- ===== src/Application/Review/Intervals.antt =====
-- What a candidate of `DetectSubscriptionCandidates` of application.go stands for.
use arran.Prelude.{
  ◌+◌, ◌≤◌, ◌≡◌, refl, ap, String, Bool, true, Option, none, some, List, [], ◌∷◌, false, arith,
  length, All, All-imp, All-Memᴰ, keep-All, Permᴰ-All, Memᴰ, Permᴰ, eq_iff, Bool-cases, inl, inr,
  if◌then◌else◌,
}
use mathlib.Core.Path.{subst}
use mathlib.Core.Option.{some-injective}
use arran.Prelude.Int.{eqb_ℤ→eq}
use arran.Domain.{Transaction, ReviewCandidate}
use arran.Csv.Dates.{Date, parse_time, iso_layout}
use arran.Application.Review.Subscriptions.{
  Sorting, is_expense_of, items_of, merchants, day_number, dates_match, is_repeated, any_repeated,
  append_found, last_of, subscription_candidate, detect_in, detect_all, by_date, by_annualized,
  detect_subscription_candidates,
}

-- `sort.Slice` permutes.
pub record Permutes (sorting : Sorting) : Type 0 where
  pub transactions :
      (before : Transaction → Transaction → Bool) (items : List Transaction)
      → Permᴰ items (sorting.transactions before items)
  pub candidates :
      (before : ReviewCandidate → ReviewCandidate → Bool) (items : List ReviewCandidate)
      → Permᴰ items (sorting.candidates before items)

-- An expense of a merchant among some transactions.
pub record IsExpense (items : List Transaction) (merchant : String) (item : Transaction)
    : Type 0 where
  pub is_in : Memᴰ item items
  pub type : item.transaction_type ≡ "expense"
  pub name : item.normalized_merchant ≡ merchant

-- Two expenses with one amount, 25 to 35 days apart.
pub record Repeated (items : List Transaction) (merchant : String) : Type 0 where
  pub before : Transaction
  pub after : Transaction
  pub first : IsExpense items merchant before
  pub second : IsExpense items merchant after
  pub first_day : Date
  pub second_day : Date
  pub first_date : parse_time iso_layout before.transaction_date ≡ some first_day
  pub second_date : parse_time iso_layout after.transaction_date ≡ some second_day
  pub at_least : day_number first_day + 25 ≤ day_number second_day
  pub at_most : day_number second_day ≤ day_number first_day + 35
  pub amount : after.amount ≡ before.amount

abbrev pub StandsFor : List Transaction → ReviewCandidate → Type 0
StandsFor items candidate = Repeated items candidate.label

expense_lem :
    (items : List Transaction) (merchant : String) (item : Transaction)
    → Memᴰ item items × (is_expense_of merchant item ≡ true)
    → IsExpense items merchant item
expense_lem items merchant item (m, h) = record {
  is_in = m;
  type = ground (arith, eq_iff item.transaction_type "expense");
  name = ground (arith, eq_iff item.normalized_merchant merchant);
}

-- The two dates that `dates_match` has found.
dates_match_lem :
    (before after : Option Date)
    → dates_match before after ≡ true
    → (d : Date) × (e : Date) × (before ≡ some d)
      × (after ≡ some e)
      × (day_number d + 25 ≤ day_number e)
      × (day_number e ≤ day_number d + 35)
dates_match_lem none after h = ground arith
dates_match_lem (some d) none h = ground arith
dates_match_lem (some d) (some e) h = (d, e, refl, refl, ground arith, ground arith)

repeated_lem :
    (items : List Transaction) (merchant : String) (before after : Transaction)
    → IsExpense items merchant before
    → IsExpense items merchant after
    → is_repeated before after ≡ true
    → Repeated items merchant
unfolding is_repeated
repeated_lem items merchant before after f s h =
    let (d, e, p, q, l, u) =
      dates_match_lem (parse_time iso_layout before.transaction_date)
        (parse_time iso_layout after.transaction_date) (ground arith) in
    record {
      before = before;
      after = after;
      first = f;
      second = s;
      first_day = d;
      second_day = e;
      first_date = p;
      second_date = q;
      at_least = l;
      at_most = u;
      amount = eqb_ℤ→eq after.amount before.amount (ground arith);
    }

any_repeated_lem :
    (items : List Transaction) (merchant : String) (x : Transaction) (xs : List Transaction)
    → IsExpense items merchant x
    → All (IsExpense items merchant) xs
    → any_repeated x xs ≡ true
    → Repeated items merchant
unfolding any_repeated
any_repeated_lem items merchant x [] hx h e = ground arith
any_repeated_lem items merchant x (y ∷ ys) hx h e = elim (Bool-cases (is_repeated x y)) [
  | inl r ↦ repeated_lem items merchant x y hx h.0 r
  | inr r ↦ any_repeated_lem items merchant y ys h.0 h.1 (ground arith)
]

items_of_lem :
    (items : List Transaction) (merchant : String)
    → All (IsExpense items merchant) (items_of merchant items)
unfolding items_of
items_of_lem items merchant =
    All-imp _ _ _ (expense_lem items merchant)
      (keep-All (λ item. Memᴰ item items) (is_expense_of merchant) items (All-Memᴰ items))

label_lem :
    (found : Bool) (candidate result : ReviewCandidate)
    → (if found then some candidate else none) ≡ some result
    → (found ≡ true) × (candidate.label ≡ result.label)
label_lem true candidate result e = (refl, ap (λ c. c.label) (some-injective _ _ e))
label_lem false candidate result e = ground arith

detect_in-StandsFor :
    (items : List Transaction) (merchant : String) (sorted : List Transaction)
    → All (IsExpense items merchant) sorted
    → (candidate : ReviewCandidate) → detect_in merchant sorted ≡ some candidate
    → StandsFor items candidate
unfolding detect_in subscription_candidate
detect_in-StandsFor items merchant [] h candidate e = ground arith
detect_in-StandsFor items merchant (x ∷ xs) h candidate e =
    let (r, l) =
      label_lem (any_repeated x xs)
        (subscription_candidate merchant (last_of x xs) (length (x ∷ xs))) candidate e in
    subst (Repeated items) l (any_repeated_lem items merchant x xs h.0 h.1 r)

append_found-All :
    (P : ReviewCandidate → Type 0) (found : Option ReviewCandidate) (rest : List ReviewCandidate)
    → ((candidate : ReviewCandidate) → found ≡ some candidate → P candidate)
    → All P rest
    → All P (append_found found rest)
append_found-All P none rest f h = h
append_found-All P (some candidate) rest f h = (f candidate refl, h)

detect_all-StandsFor :
    (sorting : Sorting) (items : List Transaction) (names : List String)
    → Permutes sorting
    → All (StandsFor items) (detect_all sorting items names)
unfolding detect_all
detect_all-StandsFor sorting items [] h = tt
detect_all-StandsFor sorting items (name ∷ names) h =
    append_found-All (StandsFor items) _ _
      (detect_in-StandsFor items name _ (
        Permᴰ-All (IsExpense items name) (h.transactions by_date (items_of name items))
          (items_of_lem items name)))
      (detect_all-StandsFor sorting items names h)

-- Where sort.Slice permutes, and whatever the order of the merchants: each candidate of
-- DetectSubscriptionCandidates stands for two expenses among the transactions, both of the merchant
-- that is its label, with dates that parse, 25 to 35 days apart, and with one amount.
pub detect_subscription_candidates-StandsFor :
    (sorting : Sorting) (items : List Transaction)
    → Permutes sorting
    → All (StandsFor items) (detect_subscription_candidates sorting items)
unfolding detect_subscription_candidates
detect_subscription_candidates-StandsFor sorting items h =
    Permᴰ-All (StandsFor items) (h.candidates by_annualized _)
      (detect_all-StandsFor sorting items (sorting.keys (merchants items)) h)
