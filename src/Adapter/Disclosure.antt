-- ===== src/Adapter/Disclosure.antt =====
-- What the adapter of server/internal/agentadapter/adapter.go keeps from the agent.
use arran.Prelude.{
  ℕ, ◌≡◌, refl, String, Option, List, ap, Zipped, map-Zipped, Option-cases, inl, inr,
}
use arran.Prelude.Int.{ℤ}
use arran.Domain.{Transaction, Dashboard, Consultation, ConsultationContext, categories}
use arran.Domain.Spending.{SpendingEvaluationInput, evaluate_spending, base_facts, planned_facts}
use arran.Adapter.{
  Agent, dashboard_value, transaction_value, transaction_values, consultation_summary,
  consultation_summaries, consultation_input, settle_category, run,
}

-- Two transactions with the date, the amount and the category in common.
pub record SameSpending (a b : Transaction) : Type 0 where
  pub date : a.transaction_date ≡ b.transaction_date
  pub amount : a.amount ≡ b.amount
  pub category : a.category ≡ b.category

-- Two consultations with the time, the amounts, the category, the status and the scores in common.
pub record SameOutcome (a b : Consultation) : Type 0 where
  pub created : a.created_at ≡ b.created_at
  pub planned : a.planned_amount ≡ b.planned_amount
  pub category : a.inferred_category ≡ b.inferred_category
  pub status : a.status ≡ b.status
  pub actual : a.actual_amount ≡ b.actual_amount
  pub satisfaction : a.satisfaction_score ≡ b.satisfaction_score
  pub regret : a.regret_score ≡ b.regret_score

pub transaction_values-same :
    (xs ys : List Transaction)
    → Zipped SameSpending xs ys
    → transaction_values xs ≡ transaction_values ys
unfolding transaction_values
transaction_values-same = map-Zipped SameSpending transaction_value transaction_value λ a b s.
    λ i. record { transaction_date = s.date i; amount = s.amount i; category = s.category i }

pub consultation_summaries-same :
    (xs ys : List Consultation)
    → Zipped SameOutcome xs ys
    → consultation_summaries xs ≡ consultation_summaries ys
unfolding consultation_summaries
consultation_summaries-same =
    map-Zipped SameOutcome consultation_summary consultation_summary λ a b s. λ i. record {
      created_at = s.created i;
      planned_amount = s.planned i;
      category = s.category i;
      status = s.status i;
      actual_amount = s.actual i;
      satisfaction_score = s.satisfaction i;
      regret_score = s.regret i;
    }

pub dashboard_value-recent :
    (d : Dashboard) (recent : List Transaction)
    → dashboard_value (record d { recent_transactions = recent }) ≡ dashboard_value d
unfolding dashboard_value
dashboard_value-recent d recent = refl

evaluate_spending-recent :
    (d : Dashboard) (recent : List Transaction) (input : SpendingEvaluationInput)
    → evaluate_spending (record input { dashboard = record d { recent_transactions = recent } })
      ≡ evaluate_spending (record input { dashboard = d })
unfolding evaluate_spending base_facts planned_facts
evaluate_spending-recent d recent input = elim (Option-cases input.planned_amount) [
  | inl e ↦ rw e
  | inr (p, e) ↦ rw e
]

-- A context in which the transactions and the past consultations are replaced, and the recent
-- transactions of the dashboard too.
abbrev pub replaced :
    ConsultationContext
    → List Transaction
    → List Transaction
    → List Consultation
    → ConsultationContext
replaced c recent transactions consultations = record c {
  dashboard = record c.dashboard { recent_transactions = recent };
  relevant_transactions = transactions;
  recent_consultations = consultations;
}

-- The answer of `Run` does not depend on what a transaction holds beside its date, amount and
-- category, nor on what a past consultation holds beside its time, amounts, category, status and
-- scores, nor on the recent transactions of the dashboard: it is the same, whatever the agent, if
-- these are replaced. So none of it reaches the agent.
pub run-replaced :
    (agent : Agent) (tick : ℕ) (c : ConsultationContext) (recent ts : List Transaction)
    (cs : List Consultation) (message : String) (planned : Option ℤ)
    → Zipped SameSpending ts c.relevant_transactions
    → Zipped SameOutcome cs c.recent_consultations
    → run agent tick (replaced c recent ts cs) message planned ≡ run agent tick c message planned
unfolding run consultation_input
run-replaced agent tick c recent ts cs message planned s o =
    rw
      (
        run,
        consultation_input,
        transaction_values-same ts c.relevant_transactions s,
        consultation_summaries-same cs c.recent_consultations o,
      )
      (rw (run, consultation_input, dashboard_value-recent c.dashboard recent)
        (ap (λ facts. agent.consult tick (consultation_input c facts message planned))
          (evaluate_spending-recent c.dashboard recent (record {
            profile = c.profile;
            dashboard = c.dashboard;
            memories = c.memories;
            message = message;
            planned_amount = planned;
            category = settle_category (agent.infer_category tick message categories);
          }))))
