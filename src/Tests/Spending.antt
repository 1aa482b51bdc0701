-- ===== src/Tests/Spending.antt =====
-- The spending rule on concrete inputs.
use arran.Prelude.{◌≡◌, refl, ◌≤◌, ◌↔◌, ◌⊎◌, some, [], ◌∷◌, true, false, arith}
use arran.Prelude.Text.{member}
use arran.Prelude.Int.{pos, ◌-ℤ◌, ◌<ℤ◌}
use arran.Domain.{Dashboard, Transaction, categories, ConsultationContext}
use arran.Domain.Spending.{SpendingEvaluationInput, evaluate_spending, base_facts, planned_facts}
use arran.Domain.Spending.Verdict.{
  severity, severity-evaluate_spending, budget-evaluate_spending, category-evaluate_spending,
}
use arran.Adapter.{run}
use arran.Adapter.Disclosure.{replaced, run-replaced}
use arran.Tests.{noon, profile, coffee, rent, agent}

abbrev board : Dashboard
board = record {
  month = "2026-11";
  expense_total = pos 50000;
  fixed_expense_estimate = pos 0;
  free_expense_total = pos 50000;
  monthly_free_budget = pos 60000;
  free_budget_remaining = pos 10000;
  drinking_total = pos 0;
  subscription_total = pos 0;
  by_category = [];
  recent_transactions = [];
}

abbrev small : SpendingEvaluationInput
small = record {
  profile = profile;
  dashboard = board;
  memories = [];
  message = "買ってもいい？";
  planned_amount = some (pos 2600);
  category = "学習";
}

abbrev large : SpendingEvaluationInput
large = record small { planned_amount = some (pos 10001) }

small_is_cautious : (evaluate_spending small).verdict ≡ "caution"
unfolding evaluate_spending base_facts planned_facts
small_is_cautious = refl

large_is_avoided : (evaluate_spending large).verdict ≡ "avoid"
unfolding evaluate_spending base_facts planned_facts
large_is_avoided = refl

severity-evaluate_spending_example :
    severity (evaluate_spending small).verdict ≤ severity (evaluate_spending large).verdict
severity-evaluate_spending_example =
    severity-evaluate_spending small large (pos 2600) (pos 10001)
      (record {
        memories = refl;
        message = refl;
        category = refl;
        reduced = refl;
        strictness = refl;
      })
      refl refl (omega arith) (omega arith)

category-evaluate_spending_example :
    member (evaluate_spending (record small { category = "宇宙" })).category categories ≡ true
category-evaluate_spending_example = category-evaluate_spending (record small { category = "宇宙" })

budget-evaluate_spending_example :
    let facts = evaluate_spending large in
    ((facts.budget_exceeded ≡ true) ↔ (pos 10000 <ℤ pos 10001))
    × (facts.remaining_after_planned ≡ pos 10000 -ℤ pos 10001)
    × ((facts.budget_exceeded ≡ true) ↔ (facts.remaining_after_planned <ℤ pos 0))
    × ((facts.budget_exceeded ≡ false) ⊎ (facts.verdict ≡ "avoid"))
unfolding ◌-ℤ◌
budget-evaluate_spending_example = budget-evaluate_spending large (pos 10001) refl (omega arith)

abbrev context : ConsultationContext
context = record {
  now = noon;
  profile = profile;
  dashboard = board;
  recent_consultations = [];
  memories = [];
  relevant_transactions = coffee ∷ [];
}

-- Another shop, with another text, account and source.
abbrev elsewhere : Transaction
elsewhere = record coffee { description = "別の店"; normalized_merchant = "別"; source = "bank" }

run-replaced_example :
    run agent 0 (replaced context (rent ∷ []) (elsewhere ∷ []) []) "買う" (some (pos 100))
    ≡ run agent 0 context "買う" (some (pos 100))
run-replaced_example =
    run-replaced agent 0 context (rent ∷ []) (elsewhere ∷ []) [] "買う" (some (pos 100))
      (record { date = refl; amount = refl; category = refl }, tt) tt
