-- ===== src/Application/Review.antt =====
-- `CreateMonthlyReview` of application.go: the candidates of a month, and what is sent of them.
pub mod Subscriptions
pub mod Candidates
pub mod Labels
pub mod Intervals
pub mod Saved
pub mod Disclosure
use arran.Prelude.{
  ℕ, String, Bool, ◌||◌, Option, none, some, List, [], ◌∷◌, ◌==◌, if◌then◌else◌, take, map, length,
}
use arran.Prelude.Int.{pos}
use arran.Prelude.Text.{member, contains, text_append}
use arran.Domain.{
  Transaction, ReviewCandidate, MonthlyReview, Dashboard, categories, Moment, Profile, Consultation,
}
use arran.World.{Action, Env, World, read_clock, call}
use arran.World.Monad.{Result, ok, err, pure, ◌>>=◌}
use arran.Repository.Transactions.{list_transactions}
use arran.Repository.Transactions.Dashboard.{monthly_dashboard}
use arran.Repository.Records.{get_profile, list_consultations, save_review}
use arran.Csv.Digits.{format_nat}
use arran.Application.{Services}
use arran.Application.Settings.{month_or_now}
use arran.Application.Outcome.{external_model_allowed}
use Subscriptions.{Sorting}
use Candidates.{build_review_candidates, yen, pace_label}

abbrev pub without_texts : Transaction → Transaction
without_texts item = record item {
  raw_data = none;
  description = "";
  normalized_merchant = "";
  source_account_name = "";
  source = "";
  fingerprint = "";
}

-- `sanitizeForLLM`
unfoldable pub sanitize_for_llm : List Transaction → List Transaction
unfolding take
sanitize_for_llm items = map without_texts (take 50 items)

abbrev pub pattern_label : String
pattern_label = "同一加盟店の支出パターン"

unfoldable pub is_public_label : String → Bool
unfolding member contains
is_public_label label = member label categories || contains label "高後悔" || label == pace_label

abbrev pub with_public_label : ReviewCandidate → ReviewCandidate
with_public_label item =
    if is_public_label item.label then item else record item { label = pattern_label }

-- `sanitizeReviewCandidates`
unfoldable pub sanitize_review_candidates : List ReviewCandidate → List ReviewCandidate
sanitize_review_candidates items = map with_public_label items

-- The agent's candidates, or the local ones where it fails.
abbrev pub ok_or_local : List ReviewCandidate → Result (List ReviewCandidate) → List ReviewCandidate
ok_or_local local (ok candidates) = candidates
ok_or_local local (err e) = local

unfoldable pub review_summary : Dashboard → List ReviewCandidate → String
unfolding text_append yen format_nat
review_summary dashboard candidates = text_append "今月の支出" (
    text_append (yen dashboard.expense_total)
      (text_append "から、" (text_append (format_nat (length candidates)) "件の見直し候補を抽出しました。")))

unfoldable pub review_of : String → Dashboard → Moment → List ReviewCandidate → MonthlyReview
unfolding review_summary
review_of month dashboard now candidates = record {
  id = 0;
  month = month;
  created_at = now.rfc3339;
  summary = review_summary dashboard candidates;
  candidates = candidates;
}

-- The end of `CreateMonthlyReview`, once there are candidates.
unfoldable pub store_review : Env → String → Dashboard → List ReviewCandidate → Action MonthlyReview
unfolding take review_of save_review ◌>>=◌
store_review env month dashboard candidates = do
  now ← read_clock env
  save_review env.user_id (review_of month dashboard now (take 5 candidates))

-- The review agent, which is the local one where the external one is not allowed, on what is kept of
-- the transactions and candidates.
unfoldable pub ask_reviewer :
    Services
    → Bool
    → ℕ
    → Profile
    → Dashboard
    → List Transaction
    → List Consultation
    → List ReviewCandidate
    → Result (List ReviewCandidate)
unfolding sanitize_for_llm sanitize_review_candidates
ask_reviewer services external tick profile dashboard transactions consultations local =
    (if external then services.review_agent else services.fallback_review) tick profile dashboard
      (sanitize_for_llm transactions) consultations (sanitize_review_candidates local)

-- The call of the review agent, and the candidates after it.
unfoldable pub agent_candidates :
    Services
    → Env
    → Profile
    → Dashboard
    → List Transaction
    → List Consultation
    → List ReviewCandidate
    → Action (List ReviewCandidate)
unfolding external_model_allowed ask_reviewer call ◌>>=◌
agent_candidates services env profile dashboard transactions consultations local = do
  external ← external_model_allowed env
  call (λ tick. ok (
      ok_or_local local
        (ask_reviewer services external tick profile dashboard transactions consultations local)))

-- `CreateMonthlyReview`
unfoldable pub create_monthly_review : Sorting → Services → Env → String → Action MonthlyReview
unfolding month_or_now get_profile monthly_dashboard list_transactions build_review_candidates ◌>>=◌
create_monthly_review sorting services env asked = do
  month ← month_or_now env asked
  profile ← get_profile env.user_id
  dashboard ← monthly_dashboard env.user_id month profile
  transactions ← list_transactions env.user_id "" 1000
  consultations ← list_consultations env.user_id 100
  now ← read_clock env
  candidates ←
      agent_candidates services env profile dashboard transactions consultations
        (build_review_candidates sorting month now profile dashboard transactions consultations)
  store_review env month dashboard candidates
