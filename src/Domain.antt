-- ===== src/Domain.antt =====
-- server/internal/domain: the data that the server's parts exchange. An int64 amount is a `ℤ`, an
-- int that counts is a `ℕ`, a nil pointer is `none`. A confidence (float64) is counted in
-- thousandths, and a timestamp is the text that the program formats it to.
pub mod Spending
use arran.Prelude.{ℕ, String, Bool, Option, List, [], ◌∷◌, ◌==◌, ◌≡◌}
use arran.Prelude.Int.{ℤ}

-- A `time.Time` with what the program reads of it: the instant in nanoseconds, its RFC 3339 text in
-- UTC, and the month and the day in Japan.
pub record Moment : Type 0 where
  pub instant : ℕ
  pub rfc3339 : String
  pub jst_month : String
  pub jst_day : ℕ

-- transaction.go. `raw_data` is the CSV row by header, or nil.
pub record Transaction : Type 0 where
  pub id : ℕ
  pub transaction_date : String
  pub description : String
  pub normalized_merchant : String
  pub amount : ℤ
  pub transaction_type : String
  pub category : String
  pub source : String
  pub source_account_name : String
  pub fingerprint : String
  pub imported_at : String
  pub raw_data : Option (List (String × String))

-- profile.go
pub record Profile : Type 0 where
  pub monthly_income : ℤ
  pub current_balance : ℤ
  pub monthly_fixed_costs : ℤ
  pub monthly_free_budget : ℤ
  pub monthly_savings_goal : ℤ
  pub reduce_categories : List String
  pub allowed_categories : List String
  pub long_term_goal : String
  pub advice_strictness : String
  pub updated_at : String

-- dashboard.go
pub record CategoryAmount : Type 0 where
  pub category : String
  pub amount : ℤ

pub record Dashboard : Type 0 where
  pub month : String
  pub expense_total : ℤ
  pub fixed_expense_estimate : ℤ
  pub free_expense_total : ℤ
  pub monthly_free_budget : ℤ
  pub free_budget_remaining : ℤ
  pub drinking_total : ℤ
  pub subscription_total : ℤ
  pub by_category : List CategoryAmount
  pub recent_transactions : List Transaction

pub record BudgetSnapshot : Type 0 where
  pub month : String
  pub expense_total : ℤ
  pub free_budget_remaining : ℤ
  pub drinking_total : ℤ
  pub subscription_total : ℤ
  pub by_category : List CategoryAmount

-- advice.go
pub record AdviceFacts : Type 0 where
  pub category : String
  pub planned_amount : Option ℤ
  pub free_budget_remaining : ℤ
  pub remaining_after_planned : ℤ
  pub category_total : ℤ
  pub category_is_reduced : Bool
  pub category_is_allowed : Bool
  pub budget_exceeded : Bool
  pub regret_pattern : String
  pub verdict : String

pub record AdviceDraft : Type 0 where
  pub recommendation : String
  pub verdict : String
  pub reasoning_summary : String
  pub current_situation : String
  pub alternative : String
  pub final_question : String
  pub inferred_category : String
  pub needs_follow_up : Bool
  pub follow_up_question : String

-- memory.go
pub record MemoryItem : Type 0 where
  pub id : ℕ
  pub type : String
  pub content : String
  pub evidence : String
  pub confidence : ℤ
  pub created_at : String
  pub updated_at : String

-- consultation.go
pub record Consultation : Type 0 where
  pub id : ℕ
  pub created_at : String
  pub user_message : String
  pub planned_amount : Option ℤ
  pub inferred_category : String
  pub ai_recommendation : String
  pub ai_reasoning_summary : String
  pub current_situation : String
  pub alternative : String
  pub final_question : String
  pub budget_snapshot : BudgetSnapshot
  pub status : String
  pub actual_amount : Option ℤ
  pub user_decision_reason : String
  pub satisfaction_score : Option ℤ
  pub regret_score : Option ℤ
  pub note : String
  pub response_source : String
  pub needs_follow_up : Bool
  pub follow_up_question : String

pub record ConsultationResultUpdate : Type 0 where
  pub status : String
  pub actual_amount : Option ℤ
  pub user_decision_reason : String
  pub satisfaction_score : Option ℤ
  pub regret_score : Option ℤ
  pub note : String

-- What an advice is built from. `AdviceFacts` is set by the adapter.
pub record ConsultationContext : Type 0 where
  pub now : Moment
  pub profile : Profile
  pub dashboard : Dashboard
  pub recent_consultations : List Consultation
  pub memories : List MemoryItem
  pub relevant_transactions : List Transaction

-- review.go
pub record ReviewCandidate : Type 0 where
  pub label : String
  pub judgement : String
  pub total_amount : ℤ
  pub count : ℕ
  pub reason : String
  pub annualized_amount : ℤ
  pub question : String

pub record MonthlyReview : Type 0 where
  pub id : ℕ
  pub month : String
  pub created_at : String
  pub summary : String
  pub candidates : List ReviewCandidate

-- import.go
pub record CsvMapping : Type 0 where
  pub date_column : String
  pub description_column : String
  pub amount_column : String
  pub debit_column : String
  pub credit_column : String

pub record ImportPreview : Type 0 where
  pub preview_id : String
  pub detected_encoding : String
  pub headers : List String
  pub mapping : CsvMapping
  pub needs_mapping : Bool
  pub read_count : ℕ
  pub period_start : String
  pub period_end : String
  pub expense_total : ℤ
  pub rows : List Transaction
  pub warnings : List String

-- import.go
pub record ImportCommitResult : Type 0 where
  pub imported_count : ℕ
  pub duplicate_count : ℕ

-- categories.go
abbrev pub categories : List String
categories =
    "酒・飲み会" ∷ "サブスクリプション" ∷ "食費" ∷ "外食" ∷ "コンビニ" ∷ "日用品" ∷ "交通" ∷ "タクシー" ∷ "家賃" ∷ "光熱費" ∷ "通信"
    ∷ "娯楽" ∷ "学習" ∷ "健康" ∷ "旅行" ∷ "買い物" ∷ "その他" ∷ "未分類" ∷ []
