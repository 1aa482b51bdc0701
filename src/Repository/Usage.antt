-- ===== src/Repository/Usage.antt =====
-- The monthly consultation quota of postgres/repository.go.
pub mod Quota
pub mod Actions
use arran.Prelude.{
  ℕ, suc, ◌+◌, ◌-◌, String, Bool, true, false, ◌&&◌, not, Option, none, some, List, [], ◌∷◌, ◌==◌,
  eqb, ltb, if◌then◌else◌, find, any, update_where,
}
use arran.World.{Action, World, statement, query, transaction}
use arran.World.Tables.{Db, UsageRow}
use arran.World.Monad.{Result, ok, err, not_found, failure, raise, pure, ◌>>=◌, ◌>>◌}

-- `ConsultationUsage` of domain/consultation.go
pub record ConsultationUsage : Type 0 where
  pub month : String
  pub count : ℕ
  pub limit : ℕ

-- `UseExternalModel`
unfoldable pub use_external_model : ConsultationUsage → Bool
use_external_model u = not (ltb u.limit u.count)

unfoldable pub is_usage : ℕ → String → UsageRow → Bool
is_usage uid month row = eqb row.user_id uid && row.month == month

-- `COALESCE(usage.consultation_count, 0)` of the row of a user and a month
unfoldable pub count_in : ℕ → String → List UsageRow → ℕ
unfolding is_usage
count_in uid month [] = 0
count_in uid month (row ∷ rows) =
    if is_usage uid month row then row.consultation_count else count_in uid month rows

unfoldable pub user_limit : ℕ → List (ℕ × ℕ) → Option ℕ
user_limit uid [] = none
user_limit uid ((u, limit) ∷ rows) = if eqb u uid then some limit else user_limit uid rows

-- `COALESCE(user_limits.monthly_limit, settings.integer_value)`; without the settings row `Scan`
-- finds no row.
unfoldable pub effective_limit : ℕ → Db → Result ℕ
unfolding user_limit
effective_limit uid db = elim db.default_limit [
  | none ↦ err (failure "sql: no rows in result set")
  | some default ↦ elim (user_limit uid db.user_limits) [
    | none ↦ ok default
    | some limit ↦ ok limit
  ]
]

unfoldable pub monthly_consultation_limit : ℕ → Action ℕ
monthly_consultation_limit uid = query (effective_limit uid)

unfoldable pub monthly_consultation_usage : ℕ → String → Action ConsultationUsage
monthly_consultation_usage uid month = query (λ db. elim (effective_limit uid db) [
  | err e ↦ err e
  | ok limit ↦ ok (record { month = month; count = count_in uid month db.usage; limit = limit })
])

-- `INSERT … ON CONFLICT (user_id, month) DO UPDATE SET count = count + 1`
unfoldable pub upsert_usage : ℕ → String → List UsageRow → List UsageRow
unfolding is_usage
upsert_usage uid month [] = record { user_id = uid; month = month; consultation_count = 1 } ∷ []
upsert_usage uid month (row ∷ rows) =
    if is_usage uid month row
    then record row { consultation_count = row.consultation_count + 1 } ∷ rows
    else row ∷ upsert_usage uid month rows

unfoldable pub insert_usage : ℕ → String → Action ℕ
unfolding upsert_usage
insert_usage uid month = statement (λ db.
    let usage = upsert_usage uid month db.usage in
    (ok (count_in uid month usage), record db { usage = usage }))

unfoldable pub reserve_monthly_consultation : ℕ → String → Action ConsultationUsage
unfolding ◌>>=◌
reserve_monthly_consultation uid month =
    if eqb uid 0
    then raise (failure "authenticated user is required")
    else transaction (do
      count ← insert_usage uid month
      limit ← query (effective_limit uid)
      pure (record { month = month; count = count; limit = limit }))

-- The row that the guarded `UPDATE … WHERE consultation_count > 0` changes.
unfoldable pub is_reserved : ℕ → String → UsageRow → Bool
unfolding is_usage
is_reserved uid month row = is_usage uid month row && ltb 0 row.consultation_count

unfoldable pub release_monthly_consultation : ℕ → String → Action (Unit {0})
unfolding is_reserved any update_where
release_monthly_consultation uid month = statement (λ db.
    if any (is_reserved uid month) db.usage
    then (
      ok tt,
      record db {
        usage =
            update_where (is_reserved uid month)
              (λ row. record row { consultation_count = row.consultation_count - 1 }) db.usage;
      },
    )
    else (err not_found, db))
