-- ===== src/Repository/Notifications.antt =====
-- The monthly limit notifications of postgres/repository.go: a row is claimed before the
-- administrator is notified and completed after.
pub mod Status
pub mod Protocol
use arran.Prelude.{
  ℕ, ◌+◌, String, Bool, true, false, ◌&&◌, Option, none, some, List, [], ◌∷◌, ◌==◌, eqb,
  if◌then◌else◌, update_where,
}
use arran.World.{Action, statement, execute}
use arran.World.Tables.{NotificationRow}
use arran.World.Monad.{ok}

-- `MonthlyLimitEvent` of domain/consultation.go
pub record MonthlyLimitEvent : Type 0 where
  pub environment : String
  pub user_id : ℕ
  pub month : String
  pub count : ℕ
  pub limit : ℕ
  pub occurred_at : String

unfoldable pub is_notification : ℕ → String → NotificationRow → Bool
is_notification uid month row =
    eqb row.user_id uid
    && row.month == month
    && row.notification_type == "monthly_consultation_limit"

unfoldable pub new_notification : ℕ → MonthlyLimitEvent → NotificationRow
new_notification uid event = record {
  user_id = uid;
  month = event.month;
  notification_type = "monthly_consultation_limit";
  consultation_count = event.count;
  consultation_limit = event.limit;
  status = "sending";
  attempts = 1;
  last_error = "";
  occurred_at = event.occurred_at;
  delivered_at = none;
}

unfoldable pub retry_notification : MonthlyLimitEvent → NotificationRow → NotificationRow
retry_notification event row = record row {
  consultation_count = event.count;
  consultation_limit = event.limit;
  status = "sending";
  attempts = row.attempts + 1;
  last_error = "";
}

-- `INSERT … ON CONFLICT … DO UPDATE … WHERE status = 'failed' RETURNING 1`: the rows, and whether
-- one was written.
unfoldable pub claim_in : ℕ → MonthlyLimitEvent → List NotificationRow → List NotificationRow × Bool
unfolding is_notification new_notification retry_notification
claim_in uid event [] = (new_notification uid event ∷ [], true)
claim_in uid event (row ∷ rows) =
    let (rest, claimed) = claim_in uid event rows in
    if is_notification uid event.month row
    then (if row.status == "failed"
        then (retry_notification event row ∷ rows, true)
        else (row ∷ rows, false))
    else (row ∷ rest, claimed)

unfoldable pub claim_monthly_limit_notification : ℕ → MonthlyLimitEvent → Action Bool
unfolding claim_in
claim_monthly_limit_notification uid event = statement (λ db.
    let (rows, claimed) = claim_in uid event db.notifications in
    (ok claimed, record db { notifications = rows }))

-- The error of the notifier, if it failed.
unfoldable pub complete_row : MonthlyLimitEvent → Option String → NotificationRow → NotificationRow
complete_row event none row = record row {
  status = "delivered";
  last_error = "";
  delivered_at = some event.occurred_at;
}
complete_row event (some text) row = record row {
  status = "failed";
  last_error = text;
  delivered_at = none;
}

unfoldable pub complete_monthly_limit_notification :
    ℕ → MonthlyLimitEvent → Option String → Action (Unit {0})
unfolding complete_row is_notification update_where
complete_monthly_limit_notification uid event error = execute (λ db. record db {
  notifications =
      update_where (is_notification uid event.month) (complete_row event error) db.notifications;
})
