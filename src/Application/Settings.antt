-- ===== src/Application/Settings.antt =====
-- The profile, the lists, the dashboard and the memories of application.go.
use arran.Prelude.{
  ℕ, String, Bool, ◌||◌, not, Option, none, some, List, [], ◌∷◌, ◌==◌, eqb, ltb, if◌then◌else◌, any,
}
use arran.Prelude.Text.{member, trim_space}
use arran.Prelude.Int.{ℤ, pos, ltb_ℤ, eqb_ℤ}
use arran.Domain.{Transaction, Profile, Dashboard, Consultation, MemoryItem, categories}
use arran.World.{Action, Env, read_clock}
use arran.World.Monad.{Error, failure, pure, raise, ◌>>=◌, ◌>>◌}
use arran.Repository.Transactions.{list_transactions, update_transaction_category}
use arran.Repository.Transactions.Dashboard.{monthly_dashboard}
use arran.Repository.Records as Records

abbrev pub is_negative : ℤ → Bool
is_negative z = ltb_ℤ z (pos 0)

abbrev pub strictness_levels : List String
strictness_levels = "やさしい" ∷ "バランス型" ∷ "厳しい" ∷ []

-- `validateProfile`: the error, or nil.
unfoldable pub validate_profile : Profile → Option Error
unfolding any member
validate_profile profile =
    let values =
      profile.monthly_income ∷ profile.current_balance ∷ profile.monthly_fixed_costs
      ∷ profile.monthly_free_budget ∷ profile.monthly_savings_goal ∷ [] in
    if any is_negative values
    then some (failure "金額は0円以上にしてください")
    else if eqb_ℤ profile.monthly_free_budget (pos 0)
    then some (failure "月間自由支出予算は必須です")
    else if not (member profile.advice_strictness strictness_levels)
    then some (failure "AIの厳しさを選択してください")
    else none

-- `if err := …; err != nil { return err }`
unfoldable pub check : Option Error → Action (Unit {0})
unfolding pure raise
check none = pure tt
check (some e) = raise e

unfoldable pub put_profile : Env → Profile → Action Profile
unfolding validate_profile check read_clock Records.put_profile ◌>>=◌
put_profile env profile = do
  check (validate_profile profile)
  now ← read_clock env
  let stamped = record profile { updated_at = now.rfc3339 }
  Records.put_profile env.user_id stamped
  pure stamped

-- The limits that the lists fall back to. A negative `limit` is 0 here: both fall back.
unfoldable pub clamp_limit : ℕ → ℕ → ℕ → ℕ
clamp_limit most usual limit = if eqb limit 0 || ltb most limit then usual else limit

unfoldable pub list_transactions_use : Env → String → ℕ → Action (List Transaction)
unfolding clamp_limit list_transactions
list_transactions_use env month limit =
    list_transactions env.user_id month (clamp_limit 1000 200 limit)

unfoldable pub list_consultations_use : Env → ℕ → Action (List Consultation)
unfolding clamp_limit Records.list_consultations
list_consultations_use env limit = Records.list_consultations env.user_id (clamp_limit 100 20 limit)

unfoldable pub update_category : Env → ℕ → String → Bool → Action Transaction
unfolding member update_transaction_category ◌>>=◌
update_category env id category remember =
    if not (member category categories)
    then raise (failure "未対応のカテゴリです")
    else update_transaction_category env id category remember

-- The month that is asked for, or the current one in Japan.
unfoldable pub month_or_now : Env → String → Action String
unfolding read_clock ◌>>=◌
month_or_now env month =
    if month == "" then (do now ← read_clock env; pure now.jst_month) else pure month

unfoldable pub dashboard : Env → String → Action Dashboard
unfolding month_or_now Records.get_profile monthly_dashboard ◌>>=◌
dashboard env month = do
  month ← month_or_now env month
  profile ← Records.get_profile env.user_id
  monthly_dashboard env.user_id month profile

unfoldable pub validate_memory : MemoryItem → Option Error
unfolding trim_space
validate_memory item =
    if trim_space item.type == "" || trim_space item.content == ""
    then some (failure "typeとcontentは必須です")
    else if is_negative item.confidence || ltb_ℤ (pos 1000) item.confidence
    then some (failure "confidenceは0から1で指定してください")
    else none

unfoldable pub save_memory : Env → MemoryItem → Action MemoryItem
unfolding validate_memory check Records.save_memory ◌>>=◌
save_memory env item = do check (validate_memory item); Records.save_memory env item
