-- ===== src/Tests/Totals.antt =====
-- The totals of a month on concrete expenses.
use arran.Prelude.{List, [], ◌∷◌, refl, arith}
use arran.Domain.{Transaction}
use arran.Repository.Transactions.Dashboard.{
  add_groups, sort_groups, group_by_category, empty_dashboard,
}
use arran.Repository.Transactions.Dashboard.Totals.{
  sum_items, Totalled, add_groups-group_by_category,
}
use arran.Tests.{coffee, rent, profile}

abbrev expenses : List Transaction
expenses = coffee ∷ rent ∷ coffee ∷ []

add_groups-group_by_category_example :
    Totalled 81300
      (add_groups (sort_groups (group_by_category expenses)) (empty_dashboard "2026-11" profile))
unfolding sum_items
add_groups-group_by_category_example =
    add_groups-group_by_category expenses "2026-11" profile (refl, (refl, (refl, tt))) (omega arith)
