-- ===== src/Adapter.antt =====
-- server/internal/agentadapter/adapter.go: what of the program's data reaches the agent, a module of
-- its own (github.com/shuichiro-hayafuji/arran_agent) that is not part of this repository. The
-- records below have the fields that the adapter fills in or reads.
pub mod Disclosure
use arran.Prelude.{ℕ, String, Bool, ◌||◌, Option, none, some, List, [], ◌∷◌, if◌then◌else◌, map}
use arran.Prelude.Text.{member}
use arran.Prelude.Int.{ℤ, pos}
use arran.Domain.{
  Moment, Transaction, Profile, Dashboard, CategoryAmount, AdviceFacts, AdviceDraft, MemoryItem,
  Consultation, ConsultationContext, ReviewCandidate, categories,
}
use arran.Domain.Spending.{evaluate_spending}
use arran.World.Monad.{Result, ok, err, Error}

pub record AgentProfile : Type 0 where
  pub monthly_income : ℤ
  pub current_balance : ℤ
  pub monthly_fixed_costs : ℤ
  pub monthly_free_budget : ℤ
  pub monthly_savings_goal : ℤ
  pub reduce_categories : List String
  pub allowed_categories : List String
  pub long_term_goal : String
  pub advice_strictness : String

pub record AgentDashboard : Type 0 where
  pub month : String
  pub expense_total : ℤ
  pub fixed_expense_estimate : ℤ
  pub free_expense_total : ℤ
  pub monthly_free_budget : ℤ
  pub free_budget_remaining : ℤ
  pub drinking_total : ℤ
  pub subscription_total : ℤ
  pub by_category : List CategoryAmount

pub record AgentTransaction : Type 0 where
  pub transaction_date : String
  pub amount : ℤ
  pub category : String

pub record ConsultationSummary : Type 0 where
  pub created_at : String
  pub planned_amount : Option ℤ
  pub category : String
  pub status : String
  pub actual_amount : Option ℤ
  pub satisfaction_score : Option ℤ
  pub regret_score : Option ℤ

pub record AgentMemory : Type 0 where
  pub type : String
  pub content : String
  pub evidence : String
  pub confidence : ℤ

pub record ConsultationInput : Type 0 where
  pub now : Moment
  pub profile : AgentProfile
  pub dashboard : AgentDashboard
  pub recent_consultations : List ConsultationSummary
  pub memories : List AgentMemory
  pub relevant_transactions : List AgentTransaction
  pub advice_facts : AdviceFacts
  pub categories : List String
  pub message : String
  pub planned_amount : Option ℤ

pub record ReviewInput : Type 0 where
  pub profile : AgentProfile
  pub dashboard : AgentDashboard
  pub transactions : List AgentTransaction
  pub consultations : List ConsultationSummary
  pub local_candidates : List ReviewCandidate

pub record MemoryInput : Type 0 where
  pub category : String
  pub user_decision_reason : String
  pub satisfaction_score : Option ℤ
  pub regret_score : Option ℤ

-- The agent's methods at a moment: they may answer anything.
pub record Agent : Type 0 where
  pub infer_category : ℕ → String → List String → Result String
  pub consult : ℕ → ConsultationInput → Result (AdviceDraft × String)
  pub review : ℕ → ReviewInput → Result (List ReviewCandidate)
  pub extract_memory : ℕ → MemoryInput → List AgentMemory × Option Error

unfoldable pub profile_value : Profile → AgentProfile
profile_value v = record {
  monthly_income = v.monthly_income;
  current_balance = v.current_balance;
  monthly_fixed_costs = v.monthly_fixed_costs;
  monthly_free_budget = v.monthly_free_budget;
  monthly_savings_goal = v.monthly_savings_goal;
  reduce_categories = v.reduce_categories;
  allowed_categories = v.allowed_categories;
  long_term_goal = v.long_term_goal;
  advice_strictness = v.advice_strictness;
}

unfoldable pub dashboard_value : Dashboard → AgentDashboard
dashboard_value v = record {
  month = v.month;
  expense_total = v.expense_total;
  fixed_expense_estimate = v.fixed_expense_estimate;
  free_expense_total = v.free_expense_total;
  monthly_free_budget = v.monthly_free_budget;
  free_budget_remaining = v.free_budget_remaining;
  drinking_total = v.drinking_total;
  subscription_total = v.subscription_total;
  by_category = v.by_category;
}

unfoldable pub transaction_value : Transaction → AgentTransaction
transaction_value item = record {
  transaction_date = item.transaction_date;
  amount = item.amount;
  category = item.category;
}

unfoldable pub transaction_values : List Transaction → List AgentTransaction
unfolding transaction_value
transaction_values items = map transaction_value items

unfoldable pub consultation_summary : Consultation → ConsultationSummary
consultation_summary item = record {
  created_at = item.created_at;
  planned_amount = item.planned_amount;
  category = item.inferred_category;
  status = item.status;
  actual_amount = item.actual_amount;
  satisfaction_score = item.satisfaction_score;
  regret_score = item.regret_score;
}

unfoldable pub consultation_summaries : List Consultation → List ConsultationSummary
unfolding consultation_summary
consultation_summaries items = map consultation_summary items

unfoldable pub memory_value : MemoryItem → AgentMemory
memory_value item = record {
  type = item.type;
  content = item.content;
  evidence = item.evidence;
  confidence = item.confidence;
}

unfoldable pub memory_values : List MemoryItem → List AgentMemory
unfolding memory_value
memory_values items = map memory_value items

unfoldable pub domain_memory : AgentMemory → MemoryItem
domain_memory item = record {
  id = 0;
  type = item.type;
  content = item.content;
  evidence = item.evidence;
  confidence = item.confidence;
  created_at = "";
  updated_at = "";
}

unfoldable pub consultation_input :
    ConsultationContext → AdviceFacts → String → Option ℤ → ConsultationInput
consultation_input input facts message planned = record {
  now = input.now;
  profile = profile_value input.profile;
  dashboard = dashboard_value input.dashboard;
  recent_consultations = consultation_summaries input.recent_consultations;
  memories = memory_values input.memories;
  relevant_transactions = transaction_values input.relevant_transactions;
  advice_facts = facts;
  categories = categories;
  message = message;
  planned_amount = planned;
}

-- The category of the agent, or その他 on an error and for an unknown one.
unfoldable pub settle_category : Result String → String
unfolding member
settle_category (err e) = "その他"
settle_category (ok category) = if member category categories then category else "その他"

-- `Run`
unfoldable pub run :
    Agent → ℕ → ConsultationContext → String → Option ℤ → Result (AdviceDraft × String)
run agent tick input message planned =
    let category = settle_category (agent.infer_category tick message categories) in
    let facts = evaluate_spending (record {
      profile = input.profile;
      dashboard = input.dashboard;
      memories = input.memories;
      message = message;
      planned_amount = planned;
      category = category;
    }) in
    agent.consult tick (consultation_input input facts message planned)

-- `Review`
unfoldable pub review :
    Agent
    → ℕ
    → Profile
    → Dashboard
    → List Transaction
    → List Consultation
    → List ReviewCandidate
    → Result (List ReviewCandidate)
review agent tick profile dashboard transactions consultations local = agent.review tick (record {
  profile = profile_value profile;
  dashboard = dashboard_value dashboard;
  transactions = transaction_values transactions;
  consultations = consultation_summaries consultations;
  local_candidates = local;
})

-- `ExtractMemory`: the items, and the error beside them.
unfoldable pub extract_memory : Agent → ℕ → Consultation → List MemoryItem × Option Error
unfolding domain_memory
extract_memory agent tick item =
    let (items, error) = agent.extract_memory tick (record {
      category = item.inferred_category;
      user_decision_reason = item.user_decision_reason;
      satisfaction_score = item.satisfaction_score;
      regret_score = item.regret_score;
    }) in
    (map domain_memory items, error)
