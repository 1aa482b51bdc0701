-- ===== src/World/Tables.antt =====
-- The PostgreSQL tables (server/internal/infrastructure/persistence/postgres/*.sql) as lists of rows
-- in the order of insertion. A row's first component is its owner (user_id), where the table has
-- nothing else before it. JSON columns hold the value itself.
use arran.Prelude.{ℕ, String, Option, List}
use arran.Domain.{Transaction, Profile, Consultation, MemoryItem, MonthlyReview}

-- monthly_consultation_usage
pub record UsageRow : Type 0 where
  pub user_id : ℕ
  pub month : String
  pub consultation_count : ℕ

-- admin_notifications
pub record NotificationRow : Type 0 where
  pub user_id : ℕ
  pub month : String
  pub notification_type : String
  pub consultation_count : ℕ
  pub consultation_limit : ℕ
  pub status : String
  pub attempts : ℕ
  pub last_error : String
  pub occurred_at : String
  pub delivered_at : Option String

-- merchant_rules
pub record RuleRow : Type 0 where
  pub user_id : ℕ
  pub normalized_merchant : String
  pub category : String
  pub updated_at : String

-- consultation_messages
pub record MessageRow : Type 0 where
  pub user_id : ℕ
  pub consultation_id : ℕ
  pub role : String
  pub content : String
  pub created_at : String

-- `default_limit` is the row of service_settings, if there is one; `next_*` are the sequences that
-- number the rows of a table.
pub record Db : Type 0 where
  pub default_limit : Option ℕ
  pub user_limits : List (ℕ × ℕ)
  pub usage : List UsageRow
  pub notifications : List NotificationRow
  pub profiles : List (ℕ × Profile)
  pub transactions : List (ℕ × Transaction)
  pub next_transaction : ℕ
  pub merchant_rules : List RuleRow
  pub consultations : List (ℕ × Consultation)
  pub next_consultation : ℕ
  pub messages : List MessageRow
  pub memories : List (ℕ × MemoryItem)
  pub next_memory : ℕ
  pub reviews : List (ℕ × MonthlyReview)
  pub next_review : ℕ
