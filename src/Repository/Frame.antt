-- ===== src/Repository/Frame.antt =====
-- What the actions on the other tables leave of monthly_consultation_usage: all of it.
use arran.Prelude.{ℕ, String, Option, List}
use arran.Domain.{Profile, Consultation}
use arran.World.{Env}
use arran.World.Tables.{UsageRow}
use arran.World.Keeps.{Keeps, Keeps-statement, keeps_rules}
use arran.Repository.Usage.Actions.{HasUsage}
use arran.Repository.Notifications.{
  MonthlyLimitEvent, claim_monthly_limit_notification, complete_monthly_limit_notification,
}
use arran.Repository.Transactions.{list_transactions}
use arran.Repository.Transactions.Dashboard.{monthly_dashboard}
use arran.Repository.Records.{
  get_profile, create_consultation, list_consultations, list_memories, add_message,
}

module _ (rows : List UsageRow) where
  pub list_transactions-HasUsage :
      (uid : ℕ) (month : String) (limit : ℕ)
      → Keeps (HasUsage rows) (list_transactions uid month limit)
  unfolding list_transactions
  list_transactions-HasUsage uid month limit = search keeps_rules

  pub monthly_dashboard-HasUsage :
      (uid : ℕ) (month : String) (profile : Profile)
      → Keeps (HasUsage rows) (monthly_dashboard uid month profile)
  unfolding monthly_dashboard
  monthly_dashboard-HasUsage uid month profile = search (keeps_rules, list_transactions-HasUsage)

  pub get_profile-HasUsage : (uid : ℕ) → Keeps (HasUsage rows) (get_profile uid)
  unfolding get_profile
  get_profile-HasUsage uid = search keeps_rules

  pub list_consultations-HasUsage :
      (uid limit : ℕ) → Keeps (HasUsage rows) (list_consultations uid limit)
  unfolding list_consultations
  list_consultations-HasUsage uid limit = search keeps_rules

  pub list_memories-HasUsage : (uid : ℕ) → Keeps (HasUsage rows) (list_memories uid)
  unfolding list_memories
  list_memories-HasUsage uid = search keeps_rules

  pub create_consultation-HasUsage :
      (uid : ℕ) (c : Consultation) → Keeps (HasUsage rows) (create_consultation uid c)
  unfolding create_consultation
  create_consultation-HasUsage uid c = Keeps-statement _ (λ db h. h)

  pub add_message-HasUsage :
      (env : Env) (id : ℕ) (role content : String)
      → Keeps (HasUsage rows) (add_message env id role content)
  unfolding add_message
  add_message-HasUsage env id role content = search (keeps_rules, Keeps-statement)

  pub claim-HasUsage :
      (uid : ℕ) (event : MonthlyLimitEvent)
      → Keeps (HasUsage rows) (claim_monthly_limit_notification uid event)
  unfolding claim_monthly_limit_notification
  claim-HasUsage uid event = Keeps-statement _ (λ db h. h)

  pub complete-HasUsage :
      (uid : ℕ) (event : MonthlyLimitEvent) (error : Option String)
      → Keeps (HasUsage rows) (complete_monthly_limit_notification uid event error)
  unfolding complete_monthly_limit_notification
  complete-HasUsage uid event error = Keeps-statement _ (λ db h. h)

pub ruleset usage_frame = (
  keeps_rules, list_transactions-HasUsage, monthly_dashboard-HasUsage, get_profile-HasUsage,
  list_consultations-HasUsage, list_memories-HasUsage, create_consultation-HasUsage,
  add_message-HasUsage, claim-HasUsage, complete-HasUsage,
)
