-- ===== src/Repository/Transactions/Dashboard/Totals.antt =====
-- The totals of `MonthlyDashboard`, postgres/repository.go, where no sum leaves an int64.
use arran.Prelude.{ℕ, ◌+◌, ◌^◌, ◌<◌, ◌≡◌, refl, String, true, List, [], ◌∷◌, arith, All}
use mathlib.Core.Path.{subst}
use arran.Prelude.Int.{ℤ, pos, ◌+ℤ◌, pos_part, neg_part, is_int64, wrap64}
use arran.Domain.{Transaction, Profile, Dashboard, CategoryAmount}
use arran.World.Monad.{Result, ok, err}
use arran.Repository.Transactions.Dashboard.{
  add_to_group, group_by_category, insert_group, sort_groups, add_group, add_groups, special_total,
  empty_dashboard,
}

unfoldable pub sum_items : List Transaction → ℕ
sum_items [] = 0
sum_items (item ∷ items) = sum_items items + pos_part item.amount

unfoldable pub sum_groups : List CategoryAmount → ℕ
sum_groups [] = 0
sum_groups (group ∷ groups) = pos_part group.amount + sum_groups groups

abbrev pub NonNegative : ℤ → Type 0
NonNegative z = neg_part z ≡ 0

abbrev AllAmounts : List CategoryAmount → Type 0
AllAmounts groups = All (λ group. NonNegative group.amount) groups

add_pos : (a b : ℤ) → NonNegative a → NonNegative b → a +ℤ b ≡ pos (pos_part a + pos_part b)
unfolding ◌+ℤ◌
add_pos a b h k = ground arith

add_to_group_sum :
    (item : Transaction) (groups : List CategoryAmount)
    → NonNegative item.amount
    → AllAmounts groups
    → AllAmounts (add_to_group item groups)
      × (sum_groups (add_to_group item groups) ≡ sum_groups groups + pos_part item.amount)
unfolding add_to_group sum_groups
add_to_group_sum item [] h k = ground arith
add_to_group_sum item (group ∷ groups) h k =
    ground (arith, add_pos group.amount item.amount k.0 h, add_to_group_sum item groups h k.1)

group_by_category_sum :
    (items : List Transaction)
    → All (λ item. NonNegative item.amount) items
    → AllAmounts (group_by_category items)
      × (sum_groups (group_by_category items) ≡ sum_items items)
unfolding group_by_category sum_items sum_groups
group_by_category_sum [] h = (tt, refl)
group_by_category_sum (item ∷ items) h =
    let (amounts, e) = group_by_category_sum items h.1 in
    let (more, f) = add_to_group_sum item (group_by_category items) h.0 amounts in
    (more, omega (arith, e, f))

insert_group_sum :
    (group : CategoryAmount) (groups : List CategoryAmount)
    → NonNegative group.amount
    → AllAmounts groups
    → AllAmounts (insert_group group groups)
      × (sum_groups (insert_group group groups) ≡ pos_part group.amount + sum_groups groups)
unfolding insert_group sum_groups
insert_group_sum group [] h k = ground arith
insert_group_sum group (g ∷ groups) h k = ground (arith, insert_group_sum group groups h k.1)

sort_groups_sum :
    (groups : List CategoryAmount)
    → AllAmounts groups
    → AllAmounts (sort_groups groups) × (sum_groups (sort_groups groups) ≡ sum_groups groups)
unfolding sort_groups sum_groups
sort_groups_sum [] h = (tt, refl)
sort_groups_sum (g ∷ groups) h =
    let (amounts, e) = sort_groups_sum groups h.1 in
    let (more, f) = insert_group_sum g (sort_groups groups) h.0 amounts in
    (more, omega (arith, e, f))

-- Totals that agree: all expenses are the fixed ones and the free ones.
abbrev pub Totals : ℕ → Dashboard → Type 0
Totals n d =
    (d.expense_total ≡ pos n)
    × NonNegative d.fixed_expense_estimate
    × NonNegative d.free_expense_total
    × (pos_part d.fixed_expense_estimate + pos_part d.free_expense_total ≡ n)

wrap_add :
    (a b : ℤ)
    → NonNegative a
    → NonNegative b
    → pos_part a + pos_part b < 2 ^ 63
    → wrap64 (a +ℤ b) ≡ pos (pos_part a + pos_part b)
unfolding wrap64
wrap_add a b h k l = rw (add_pos a b h k) (ground arith)

add_group-Totals :
    (item : CategoryAmount) (d : Dashboard) (n : ℕ)
    → Totals n d
    → NonNegative item.amount
    → n + pos_part item.amount < 2 ^ 63
    → Totals (n + pos_part item.amount) (add_group item d)
unfolding add_group special_total
add_group-Totals item d n t h l = ground (
  arith,
  wrap_add d.expense_total item.amount,
  wrap_add d.fixed_expense_estimate item.amount,
  wrap_add d.free_expense_total item.amount,
)

-- A result with such totals.
abbrev pub Totalled : ℕ → Result Dashboard → Type 0
Totalled n (ok d) = Totals n d
Totalled n (err e) = ⊥

is_int64_of_pos : (z : ℤ) → NonNegative z → pos_part z < 2 ^ 63 → is_int64 z ≡ true
unfolding is_int64
is_int64_of_pos z h l = ground arith

add_groups-Totalled :
    (groups : List CategoryAmount) (d : Dashboard) (n : ℕ)
    → Totals n d
    → AllAmounts groups
    → n + sum_groups groups < 2 ^ 63
    → Totalled (n + sum_groups groups) (add_groups groups d)
unfolding add_groups sum_groups
add_groups-Totalled [] d n t h l = ground arith
add_groups-Totalled (item ∷ items) d n t h l =
    let step = add_group-Totals item d n t h.0 (omega (arith, l)) in
    let rest =
      add_groups-Totalled items (add_group item d) (n + pos_part item.amount) step h.1
        (omega (arith, l)) in
    let scanned = is_int64_of_pos item.amount h.0 (omega (arith, l)) in
    let same : n + (pos_part item.amount + sum_groups items)
        ≡ n + pos_part item.amount + sum_groups items =
      omega arith in
    rw (scanned, same) rest

-- Where the amounts of some expenses are not negative and their sum is an int64, the loop of
-- MonthlyDashboard over their groups succeeds: the total is their exact sum, and the fixed and the
-- free expenses add up to it.
pub add_groups-group_by_category :
    (items : List Transaction) (month : String) (profile : Profile)
    → All (λ item. NonNegative item.amount) items
    → sum_items items < 2 ^ 63
    → Totalled
        (sum_items items)
        (add_groups (sort_groups (group_by_category items)) (empty_dashboard month profile))
unfolding empty_dashboard
add_groups-group_by_category items month profile h l =
    let (grouped, e) = group_by_category_sum items h in
    let (sorted, f) = sort_groups_sum (group_by_category items) grouped in
    let same : 0 + sum_groups (sort_groups (group_by_category items)) ≡ sum_items items =
      omega (arith, f, e) in
    subst
      (λ n.
        Totalled n
          (add_groups (sort_groups (group_by_category items)) (empty_dashboard month profile)))
      same
      (add_groups-Totalled (sort_groups (group_by_category items)) (empty_dashboard month profile) 0
        (refl, refl, refl, refl) sorted (omega (arith, same, l)))
