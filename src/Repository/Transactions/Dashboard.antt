-- ===== src/Repository/Transactions/Dashboard.antt =====
-- `MonthlyDashboard` of postgres/repository.go.
pub mod Totals
use arran.Prelude.{ℕ, String, Bool, ◌&&◌, List, [], ◌∷◌, ◌++◌, ◌==◌, if◌then◌else◌, keep}
use arran.Prelude.Text.{member, text_take}
use arran.Prelude.Int.{pos, ◌+ℤ◌, ◌-ℤ◌, ltb_ℤ, wrap64, is_int64}
use arran.Domain.{Transaction, Profile, Dashboard, CategoryAmount}
use arran.World.{Action, query}
use arran.World.Monad.{Result, ok, err, failure, lift, pure, ◌>>=◌}
use arran.Repository.Transactions.{owned, list_transactions}

-- `transaction_type = 'expense' AND substr(transaction_date, 1, 7) = ?`
unfoldable pub is_expense_in : String → Transaction → Bool
is_expense_in month item =
    item.transaction_type == "expense" && text_take 7 item.transaction_date == month

-- `SUM(amount) … GROUP BY category`, exact.
unfoldable pub add_to_group : Transaction → List CategoryAmount → List CategoryAmount
add_to_group item [] = record { category = item.category; amount = item.amount } ∷ []
add_to_group item (group ∷ groups) =
    if group.category == item.category
    then record group { amount = group.amount +ℤ item.amount } ∷ groups
    else group ∷ add_to_group item groups

unfoldable pub group_by_category : List Transaction → List CategoryAmount
unfolding add_to_group
group_by_category [] = []
group_by_category (item ∷ items) = add_to_group item (group_by_category items)

-- `ORDER BY SUM(amount) DESC`
unfoldable pub insert_group : CategoryAmount → List CategoryAmount → List CategoryAmount
insert_group group [] = group ∷ []
insert_group group (g ∷ groups) =
    if ltb_ℤ g.amount group.amount then group ∷ g ∷ groups else g ∷ insert_group group groups

unfoldable pub sort_groups : List CategoryAmount → List CategoryAmount
unfolding insert_group
sort_groups [] = []
sort_groups (g ∷ groups) = insert_group g (sort_groups groups)

abbrev pub fixed_categories : List String
fixed_categories = "家賃" ∷ "光熱費" ∷ "通信" ∷ []

-- The `switch` that keeps the two categories with totals of their own.
unfoldable pub special_total : CategoryAmount → Dashboard → Dashboard
special_total item d =
    if item.category == "酒・飲み会"
    then record d { drinking_total = item.amount }
    else if item.category == "サブスクリプション"
    then record d { subscription_total = item.amount }
    else d

-- One row of the result.
unfoldable pub add_group : CategoryAmount → Dashboard → Dashboard
unfolding special_total member
add_group item d =
    let total = record d {
      by_category = d.by_category ++ item ∷ [];
      expense_total = wrap64 (d.expense_total +ℤ item.amount);
    } in
    special_total item (
      if member item.category fixed_categories
      then record total {
        fixed_expense_estimate = wrap64 (d.fixed_expense_estimate +ℤ item.amount);
      }
      else record total { free_expense_total = wrap64 (d.free_expense_total +ℤ item.amount) })

-- The loop over the rows; `Scan` refuses a sum that is no int64.
unfoldable pub add_groups : List CategoryAmount → Dashboard → Result Dashboard
unfolding add_group is_int64
add_groups [] d = ok d
add_groups (item ∷ items) d =
    let rest = add_groups items (add_group item d) in
    if is_int64 item.amount then rest else err (failure "sql: Scan error: value out of range")

unfoldable pub empty_dashboard : String → Profile → Dashboard
empty_dashboard month profile = record {
  month = month;
  expense_total = pos 0;
  fixed_expense_estimate = pos 0;
  free_expense_total = pos 0;
  monthly_free_budget = profile.monthly_free_budget;
  free_budget_remaining = pos 0;
  drinking_total = pos 0;
  subscription_total = pos 0;
  by_category = [];
  recent_transactions = [];
}

unfoldable pub close_dashboard : Profile → Dashboard → List Transaction → Dashboard
close_dashboard profile d recent = record d {
  free_budget_remaining = wrap64 (profile.monthly_free_budget -ℤ d.free_expense_total);
  recent_transactions = recent;
}

unfoldable pub expenses_by_category : ℕ → String → Action (List CategoryAmount)
unfolding sort_groups group_by_category is_expense_in keep owned
expenses_by_category uid month = query (λ db.
    ok (sort_groups (group_by_category (keep (is_expense_in month) (owned uid db.transactions)))))

unfoldable pub monthly_dashboard : ℕ → String → Profile → Action Dashboard
unfolding expenses_by_category add_groups empty_dashboard close_dashboard ◌>>=◌
monthly_dashboard uid month profile = do
  groups ← expenses_by_category uid month
  totals ← lift (add_groups groups (empty_dashboard month profile))
  recent ← list_transactions uid month 5
  pure (close_dashboard profile totals recent)
