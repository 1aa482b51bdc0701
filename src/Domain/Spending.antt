-- ===== src/Domain/Spending.antt =====
-- server/internal/domain/spending.go: the rule that judges a planned expense.
pub mod Verdict
use arran.Prelude.{
  ℕ, String, Bool, true, false, not, ◌&&◌, ◌||◌, Option, none, some, List, [], ◌∷◌, ◌==◌,
  if◌then◌else◌, find,
}
use arran.Prelude.Text.{member, contains}
use arran.Prelude.Int.{ℤ, pos, ◌-ℤ◌, ltb_ℤ, wrap64, quot}
use arran.Domain.{Profile, Dashboard, CategoryAmount, MemoryItem, AdviceFacts, categories}

pub record SpendingEvaluationInput : Type 0 where
  pub profile : Profile
  pub dashboard : Dashboard
  pub memories : List MemoryItem
  pub message : String
  pub planned_amount : Option ℤ
  pub category : String

unfoldable pub category_total_in : String → List CategoryAmount → ℤ
category_total_in category [] = pos 0
category_total_in category (item ∷ items) =
    if item.category == category then item.amount else category_total_in category items

unfoldable pub category_total : Dashboard → String → ℤ
unfolding category_total_in
category_total dashboard category = category_total_in category dashboard.by_category

-- `max` of two int64
unfoldable pub max_ℤ : ℤ → ℤ → ℤ
max_ℤ left right = if ltb_ℤ right left then left else right

-- The memory that the loop stops at, if there is one.
unfoldable pub matches_regret : String → String → MemoryItem → Bool
matches_regret category message memory =
    memory.type == "regret_pattern" && (contains memory.content category || contains message "飲")

unfoldable pub regret_pattern : String → String → List MemoryItem → String
unfolding matches_regret find
regret_pattern category message memories = elim (find (matches_regret category message) memories) [
  | none ↦ ""
  | some memory ↦ memory.content
]

-- The `switch` over the facts.
unfoldable pub judge : Bool → Bool → Bool → String → ℤ → ℤ → String
unfolding max_ℤ quot
judge exceeded regret reduced strictness remaining planned =
    if exceeded || regret
    then "avoid"
    else if reduced && ltb_ℤ (max_ℤ (quot remaining 5) (pos 3000)) planned
    then "avoid"
    else if strictness == "厳しい" && ltb_ℤ (quot remaining 4) planned
    then "caution"
    else "safe"

-- The category that the rule works with: an unknown one becomes その他.
unfoldable pub known_category : String → String
unfolding member
known_category category = if member category categories then category else "その他"

-- The facts that do not depend on the planned amount; what is not set yet has Go's zero value.
unfoldable pub base_facts : SpendingEvaluationInput → AdviceFacts
unfolding known_category category_total member
base_facts input =
    let category = known_category input.category in
    record {
      category = category;
      planned_amount = input.planned_amount;
      free_budget_remaining = input.dashboard.free_budget_remaining;
      remaining_after_planned = pos 0;
      category_total = category_total input.dashboard category;
      category_is_reduced = member category input.profile.reduce_categories;
      category_is_allowed = member category input.profile.allowed_categories;
      budget_exceeded = false;
      regret_pattern = "";
      verdict = "";
    }

unfoldable pub planned_facts : SpendingEvaluationInput → AdviceFacts → ℤ → AdviceFacts
unfolding regret_pattern judge
planned_facts input facts planned =
    let remaining = input.dashboard.free_budget_remaining in
    let exceeded = ltb_ℤ remaining planned in
    let regret = regret_pattern facts.category input.message input.memories in
    record facts {
      remaining_after_planned = wrap64 (remaining -ℤ planned);
      budget_exceeded = exceeded;
      regret_pattern = regret;
      verdict =
          judge exceeded (not (regret == "")) facts.category_is_reduced
            input.profile.advice_strictness remaining planned;
    }

-- The early return for a nil amount, and the rest.
unfoldable pub judge_planned : SpendingEvaluationInput → AdviceFacts → Option ℤ → AdviceFacts
judge_planned input facts none = record facts { verdict = "insufficient_data" }
judge_planned input facts (some planned) = planned_facts input facts planned

unfoldable pub evaluate_spending : SpendingEvaluationInput → AdviceFacts
unfolding judge_planned
evaluate_spending input = judge_planned input (base_facts input) input.planned_amount
