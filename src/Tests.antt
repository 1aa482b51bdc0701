-- ===== src/Tests.antt =====
-- Concrete inputs, on which the theorems are applied and the definitions run.
mod Spending
mod Quota
mod Imports
mod Previews
mod Outcomes
mod Totals
mod Csv
mod Files
mod Reviews
mod Routes
mod Settings
mod Notify
mod Crypto
mod Auth
use arran.Prelude.{ℕ, String, Option, none, some, List, [], ◌∷◌, false}
use arran.Prelude.Int.{ℤ, pos}
use arran.Domain.{
  Moment, Transaction, Profile, Dashboard, AdviceDraft, ConsultationContext, Consultation,
  MemoryItem, ReviewCandidate,
}
use arran.World.{World, Env}
use arran.World.Tables.{Db}
use arran.World.Monad.{ok}
use arran.Adapter.{Agent}
use arran.Application.{Services}

abbrev pub noon : Moment
noon = record {
  instant = 1000;
  rfc3339 = "2026-11-26T03:00:00Z";
  jst_month = "2026-11";
  jst_day = 26;
}

abbrev pub env : Env
env = record { user_id = 7; now = λ tick. noon; random_id = λ tick. "p1" }

abbrev pub profile : Profile
profile = record {
  monthly_income = pos 300000;
  current_balance = pos 500000;
  monthly_fixed_costs = pos 120000;
  monthly_free_budget = pos 60000;
  monthly_savings_goal = pos 50000;
  reduce_categories = "酒・飲み会" ∷ [];
  allowed_categories = "学習" ∷ [];
  long_term_goal = "";
  advice_strictness = "厳しい";
  updated_at = "";
}

abbrev pub coffee : Transaction
coffee = record {
  id = 0;
  transaction_date = "2026-11-03";
  description = "カフェ 本店 12";
  normalized_merchant = "カフェ";
  amount = pos 650;
  transaction_type = "expense";
  category = "外食";
  source = "csv";
  source_account_name = "";
  fingerprint = "f1";
  imported_at = "";
  raw_data = none;
}

abbrev pub rent : Transaction
rent = record coffee { amount = pos 80000; category = "家賃"; fingerprint = "f2" }

abbrev pub db : Db
db = record {
  default_limit = some 1;
  user_limits = [];
  usage = [];
  notifications = [];
  profiles = (7, profile) ∷ [];
  transactions = [];
  next_transaction = 1;
  merchant_rules = [];
  consultations = [];
  next_consultation = 1;
  messages = [];
  memories = [];
  next_memory = 1;
  reviews = [];
  next_review = 1;
}

abbrev pub world : World
world = record { db = db; previews = []; faults = []; tick = 0 }

abbrev pub draft : AdviceDraft
draft = record {
  recommendation = "見送りましょう";
  verdict = "avoid";
  reasoning_summary = "";
  current_situation = "";
  alternative = "";
  final_question = "";
  inferred_category = "外食";
  needs_follow_up = false;
  follow_up_question = "";
}

abbrev pub services : Services
services = record {
  consultation_agent = λ tick context message planned. ok (draft, "openai");
  fallback_agent = λ tick context message planned. ok (draft, "mock");
  review_agent = λ tick p d ts cs local. ok local;
  fallback_review = λ tick p d ts cs local. ok local;
  memory_agent = λ tick c. ([], none);
  fallback_memory = λ tick c. ([], none);
  admin_notifier = some (λ tick event. none);
  environment = "test";
}

-- An agent that tells everything it is given.
abbrev pub agent : Agent
agent = record {
  infer_category = λ tick message known. ok "外食";
  consult = λ tick input. ok (record draft { recommendation = input.message }, "openai");
  review = λ tick input. ok input.local_candidates;
  extract_memory = λ tick input. ([], none);
}
