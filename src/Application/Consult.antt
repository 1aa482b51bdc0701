-- ===== src/Application/Consult.antt =====
-- The consultations of application.go.
pub mod Quota
use arran.Prelude.{
  ℕ, suc, String, Bool, true, false, ◌&&◌, ◌||◌, not, Option, none, some, List, [], ◌∷◌, ◌++◌, ◌==◌,
  eqb, ltb, if◌then◌else◌, take, map,
}
use arran.Prelude.Text.{trim_space, member, text_append}
use arran.Prelude.Int.{ℤ, pos, ltb_ℤ}
use arran.Domain.{
  Moment, Transaction, Dashboard, AdviceDraft, MemoryItem, Consultation, ConsultationResultUpdate,
  ConsultationContext,
}
use arran.World.{Action, Env, World, read_clock, call}
use arran.World.Monad.{Result, ok, err, Error, failure, pure, raise, attempt, ◌>>=◌, ◌>>◌}
use arran.Repository.Usage.{
  ConsultationUsage, use_external_model, monthly_consultation_usage, reserve_monthly_consultation,
  release_monthly_consultation,
}
use arran.Repository.Notifications.{
  MonthlyLimitEvent, claim_monthly_limit_notification, complete_monthly_limit_notification,
}
use arran.Repository.Transactions.{list_transactions}
use arran.Repository.Transactions.Dashboard.{monthly_dashboard}
use arran.Repository.Records.{
  get_profile, create_consultation, update_consultation_advice, update_consultation_result,
  get_consultation, list_consultations, list_memories, add_message, save_memory,
}
use arran.Application.{Services}
use arran.Application.Settings.{is_negative, check}

abbrev without_raw : Transaction → Transaction
without_raw item = record item { raw_data = none }

unfoldable pub build_consultation_context : Env → Action ConsultationContext
unfolding take ◌>>=◌
build_consultation_context env = do
  profile ← get_profile env.user_id
  now ← read_clock env
  dashboard ← monthly_dashboard env.user_id now.jst_month profile
  consultations ← list_consultations env.user_id 5
  memories ← list_memories env.user_id
  transactions ← list_transactions env.user_id now.jst_month 10
  pure (record {
    now = now;
    profile = profile;
    dashboard = dashboard;
    recent_consultations = consultations;
    memories = take 20 memories;
    relevant_transactions = map without_raw transactions;
  })

unfoldable pub draft_to_consultation :
    AdviceDraft → String → Option ℤ → Dashboard → Moment → String → Consultation
draft_to_consultation draft message amount dashboard now source = record {
  id = 0;
  created_at = now.rfc3339;
  user_message = message;
  planned_amount = amount;
  inferred_category = draft.inferred_category;
  ai_recommendation = draft.recommendation;
  ai_reasoning_summary = draft.reasoning_summary;
  current_situation = draft.current_situation;
  alternative = draft.alternative;
  final_question = draft.final_question;
  budget_snapshot = record {
    month = dashboard.month;
    expense_total = dashboard.expense_total;
    free_budget_remaining = dashboard.free_budget_remaining;
    drinking_total = dashboard.drinking_total;
    subscription_total = dashboard.subscription_total;
    by_category = dashboard.by_category;
  };
  status = if draft.needs_follow_up then "awaiting_information" else "awaiting_result";
  actual_amount = none;
  user_decision_reason = "";
  satisfaction_score = none;
  regret_score = none;
  note = "";
  response_source = source;
  needs_follow_up = draft.needs_follow_up;
  follow_up_question = draft.follow_up_question;
}

-- The claim, the call of the notifier and the completion, once there is something to notify. Errors
-- of the repository are dropped.
unfoldable pub notify_claimed :
    Env → (ℕ → MonthlyLimitEvent → Option String) → MonthlyLimitEvent → Bool → Action (Unit {0})
unfolding call ◌>>=◌
notify_claimed env notify event false = pure tt
notify_claimed env notify event true = do
  error ← call (λ tick. ok (notify tick event))
  complete_monthly_limit_notification env.user_id event error

unfoldable pub limit_event : Services → Env → ConsultationUsage → Moment → MonthlyLimitEvent
limit_event services env usage now = record {
  environment = services.environment;
  user_id = env.user_id;
  month = usage.month;
  count = usage.count;
  limit = usage.limit;
  occurred_at = now.rfc3339;
}

-- `usage.Count < usage.Limit || usage.Count == 0`
abbrev pub below_limit : ConsultationUsage → Bool
below_limit usage = ltb usage.count usage.limit || eqb usage.count 0

unfoldable pub notify_through :
    Option (ℕ → MonthlyLimitEvent → Option String)
    → Services
    → Env
    → ConsultationUsage
    → Action (Unit {0})
unfolding notify_claimed ◌>>=◌
notify_through none services env usage = pure tt
notify_through (some notify) services env usage = if below_limit usage then pure tt else do
  now ← read_clock env
  let event = limit_event services env usage now
  claimed ← claim_monthly_limit_notification env.user_id event
  notify_claimed env notify event claimed

unfoldable pub notify_monthly_limit : Services → Env → ConsultationUsage → Action (Unit {0})
unfolding notify_through
notify_monthly_limit services env usage = notify_through services.admin_notifier services env usage

-- The agent of a request: beyond the limit it is the fallback.
abbrev pub agent_for :
    Services → Bool → ℕ → ConsultationContext → String → Option ℤ → Result (AdviceDraft × String)
agent_for services external =
    if external then services.consultation_agent else services.fallback_agent

-- `_ = m; _ = n; return a`
abbrev pub after_both : {A : Type 0} → Action (Unit {0}) → Action (Unit {0}) → A → Action A
after_both m n a = attempt m (attempt n (pure a))

-- What follows the creation of a consultation: none of it can fail the request.
unfoldable pub after_creation :
    Services → Env → ConsultationUsage → String → AdviceDraft → Consultation → Action Consultation
unfolding attempt
after_creation services env usage message draft created =
    attempt (notify_monthly_limit services env usage) (
      after_both (add_message env created.id "user" message)
        (add_message env created.id "assistant" draft.recommendation) created)

-- `StartConsultation` between the reservation and the success.
unfoldable pub advise : Services → Env → ConsultationUsage → String → Option ℤ → Action Consultation
unfolding after_creation ◌>>=◌
advise services env usage message planned = do
  context ← build_consultation_context env
  (draft, source) ←
      call (λ tick. agent_for services (use_external_model usage) tick context message planned)
  now ← read_clock env
  created ←
      create_consultation env.user_id
        (draft_to_consultation draft message planned context.dashboard now source)
  after_creation services env usage message draft created

-- The deferred function: an error gives the reservation back, and the error of that is dropped.
unfoldable pub release_on_error : {A : Type 0} → ℕ → String → Result A × World → Result A × World
release_on_error uid month (ok a, w) = (ok a, w)
release_on_error uid month (err e, w) = (err e, (release_monthly_consultation uid month w).1)

abbrev pub negative_amount : Option ℤ → Bool
negative_amount none = false
negative_amount (some amount) = is_negative amount

-- The two checks of `StartConsultation`.
unfoldable pub validate_start : String → Option ℤ → Option Error
validate_start message planned =
    if message == ""
    then some (failure "相談内容を入力してください")
    else if negative_amount planned
    then some (failure "予定額は0円以上にしてください")
    else none

-- The rest of `StartConsultation`, from the month on.
unfoldable pub consult_in_month : Services → Env → String → Option ℤ → String → Action Consultation
unfolding release_on_error ◌>>=◌
consult_in_month services env message planned month = do
  usage ← reserve_monthly_consultation env.user_id month
  λ w. release_on_error env.user_id month (advise services env usage message planned w)

unfoldable pub start_consultation : Services → Env → String → Option ℤ → Action Consultation
unfolding validate_start check consult_in_month trim_space ◌>>=◌
start_consultation services env message planned = do
  check (validate_start (trim_space message) planned)
  now ← read_clock env
  consult_in_month services env (trim_space message) planned now.jst_month

-- A new amount, or the one of the consultation.
abbrev pub amount_or : Option ℤ → Option ℤ → Option ℤ
amount_or none old = old
amount_or (some amount) old = some amount

unfoldable pub refine : Services → Env → ℕ → Consultation → String → Option ℤ → Action Consultation
unfolding attempt text_append ◌>>=◌
refine services env id consultation message planned = do
  context ← build_consultation_context env
  now ← read_clock env
  usage ← monthly_consultation_usage env.user_id now.jst_month
  (draft, source) ← call (λ tick.
      agent_for services (ltb usage.count usage.limit) tick context
        (text_append consultation.user_message (text_append "\n追加情報: " message)) planned)
  at ← read_clock env
  let advice =
      draft_to_consultation draft consultation.user_message planned context.dashboard at source
  updated ←
      update_consultation_advice env.user_id
        (record advice { id = id; created_at = consultation.created_at })
  after_both (add_message env id "user" message)
      (add_message env id "assistant" draft.recommendation) updated

unfoldable pub continue_consultation : Services → Env → ℕ → String → Option ℤ → Action Consultation
unfolding refine trim_space ◌>>=◌
continue_consultation services env id message planned = do
  consultation ← get_consultation env.user_id id
  if trim_space message == ""
      then raise (failure "メッセージを入力してください")
      else refine services env id consultation (trim_space message)
          (amount_or planned consultation.planned_amount)
