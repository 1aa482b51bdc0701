-- ===== src/Repository/Notifications/Status.antt =====
-- What the claims and completions of postgres/repository.go do to the status of one notification.
use arran.Prelude.{
  ℕ, ◌≡◌, refl, ◌⊎◌, inl, String, Bool, true, false, not, ◌&&◌, ◌==◌, eqb, Option, none, some, List,
  [], ◌∷◌, if◌then◌else◌, arith, update_where, eq_iff, eq_refl,
}
use mathlib.Core.Path.{subst}
use arran.World.{World, statement}
use arran.World.Tables.{NotificationRow}
use arran.World.Monad.{Result, ok, err}
use arran.Repository.Notifications.{
  MonthlyLimitEvent, is_notification, claim_in, complete_row, claim_monthly_limit_notification,
  complete_monthly_limit_notification,
}

-- The status of the row of a user and a month, if there is one.
unfoldable pub status_of : ℕ → String → List NotificationRow → Option String
status_of uid month [] = none
status_of uid month (row ∷ rows) =
    if is_notification uid month row then some row.status else status_of uid month rows

abbrev pub status : ℕ → String → World → Option String
status uid month w = status_of uid month w.db.notifications

-- What a claim does to the status: it succeeds without a row or on a failed one.
abbrev pub Claims : Option String → Option String → Bool → Type 0
Claims before after claimed =
    ((claimed ≡ true) × (after ≡ some "sending") × ((before ≡ none) ⊎ (before ≡ some "failed")))
    ⊎ ((claimed ≡ false) × (after ≡ before))

claim_in-Claims :
    (uid : ℕ) (event : MonthlyLimitEvent) (rows : List NotificationRow)
    → Claims
        (status_of uid event.month rows)
        (status_of uid event.month (claim_in uid event rows).0)
        (claim_in uid event rows).1
unfolding status_of claim_in is_notification
claim_in-Claims uid event [] =
    ground (arith, eq_refl event.month, eq_refl "monthly_consultation_limit")
claim_in-Claims uid event (row ∷ rows) =
    ground (arith, claim_in-Claims uid event rows, eq_iff row.status "failed")

abbrev pub outcome_status : Option String → String
outcome_status none = "delivered"
outcome_status (some text) = "failed"

-- Whether a user and a month are others than those of the protocol.
abbrev pub is_elsewhere : ℕ → String → ℕ → String → Bool
is_elsewhere u m uid month = not (eqb u uid && m == month)

claim_in_elsewhere :
    (u : ℕ) (event : MonthlyLimitEvent) (uid : ℕ) (month : String) (rows : List NotificationRow)
    → is_elsewhere u event.month uid month ≡ true
    → status_of uid month (claim_in u event rows).0 ≡ status_of uid month rows
unfolding status_of claim_in is_notification
claim_in_elsewhere u event uid month [] h = ground (arith, eq_iff event.month month)
claim_in_elsewhere u event uid month (row ∷ rows) h = ground (
  arith,
  claim_in_elsewhere u event uid month rows h,
  eq_iff event.month month,
  eq_iff row.month event.month,
  eq_iff row.month month,
)

complete_elsewhere_lem :
    (u : ℕ) (event : MonthlyLimitEvent) (error : Option String) (uid : ℕ) (month : String)
    (rows : List NotificationRow)
    → is_elsewhere u event.month uid month ≡ true
    → status_of uid month
        (update_where (is_notification u event.month) (complete_row event error) rows)
      ≡ status_of uid month rows
unfolding status_of update_where is_notification complete_row
complete_elsewhere_lem u event error uid month [] h = refl
complete_elsewhere_lem u event none uid month (row ∷ rows) h = ground (
  arith,
  complete_elsewhere_lem u event none uid month rows h,
  eq_iff event.month month,
  eq_iff row.month event.month,
  eq_iff row.month month,
)
complete_elsewhere_lem u event (some text) uid month (row ∷ rows) h = ground (
  arith,
  complete_elsewhere_lem u event (some text) uid month rows h,
  eq_iff event.month month,
  eq_iff row.month event.month,
  eq_iff row.month month,
)

-- A completion sets the status of the row, if there is one.
status_of_complete :
    (uid : ℕ) (event : MonthlyLimitEvent) (error : Option String) (rows : List NotificationRow)
    → (status_of uid event.month rows ≡ none)
      ⊎ (status_of uid event.month
            (update_where (is_notification uid event.month) (complete_row event error) rows)
          ≡ some (outcome_status error))
unfolding status_of update_where is_notification complete_row
status_of_complete uid event error [] = inl refl
status_of_complete uid event none (row ∷ rows) =
    ground (arith, status_of_complete uid event none rows)
status_of_complete uid event (some text) (row ∷ rows) =
    ground (arith, status_of_complete uid event (some text) rows)

-- What a claim leaves of the status in the world.
abbrev pub Claimed : ℕ → String → World → Result Bool × World → Type 0
Claimed uid month v (ok claimed, w) = Claims (status uid month v) (status uid month w) claimed
Claimed uid month v (err e, w) = status uid month w ≡ status uid month v

claim-Claimed :
    (uid : ℕ) (event : MonthlyLimitEvent) (v : World)
    → Claimed uid event.month v (claim_monthly_limit_notification uid event v)
unfolding claim_monthly_limit_notification statement
claim-Claimed uid event v = ground (arith, claim_in-Claims uid event v.db.notifications)

-- What a completion leaves: the status of its outcome, unless there is no row or the database
-- failed.
abbrev pub Completed : ℕ → String → Option String → World → Result (Unit {0}) × World → Type 0
Completed uid month error v (r, w) =
    (status uid month w ≡ status uid month v)
    ⊎ ((status uid month v ≡ none) ⊎ (status uid month w ≡ some (outcome_status error)))

complete-Completed :
    (uid : ℕ) (event : MonthlyLimitEvent) (error : Option String) (v : World)
    → Completed uid event.month error v (complete_monthly_limit_notification uid event error v)
unfolding complete_monthly_limit_notification statement
complete-Completed uid event error v =
    ground (arith, status_of_complete uid event error v.db.notifications)

module _ (uid : ℕ) (event : MonthlyLimitEvent) {month : String} (same : event.month ≡ month) where
  pub claim-status :
      (v w : World) (r : Result Bool)
      → claim_monthly_limit_notification uid event v ≡ (r, w)
      → Claimed uid month v (r, w)
  claim-status v w r p =
      subst (λ m. Claimed uid m v (r, w)) same
        (subst (Claimed uid event.month v) p (claim-Claimed uid event v))

  pub complete-status :
      (error : Option String) (v w : World) (r : Result (Unit {0}))
      → complete_monthly_limit_notification uid event error v ≡ (r, w)
      → Completed uid month error v (r, w)
  complete-status error v w r p =
      subst (λ m. Completed uid m error v (r, w)) same
        (subst (Completed uid event.month error v) p (complete-Completed uid event error v))

pub claim_elsewhere-status :
    (uid : ℕ) (month : String) (u : ℕ) (event : MonthlyLimitEvent) (v : World)
    → is_elsewhere u event.month uid month ≡ true
    → status uid month (claim_monthly_limit_notification u event v).1 ≡ status uid month v
unfolding claim_monthly_limit_notification statement
claim_elsewhere-status uid month u event v h =
    ground (arith, claim_in_elsewhere u event uid month v.db.notifications h)

pub complete_elsewhere-status :
    (uid : ℕ) (month : String) (u : ℕ) (event : MonthlyLimitEvent) (error : Option String)
    (v : World)
    → is_elsewhere u event.month uid month ≡ true
    → status uid month (complete_monthly_limit_notification u event error v).1 ≡ status uid month v
unfolding complete_monthly_limit_notification statement
complete_elsewhere-status uid month u event error v h =
    ground (arith, complete_elsewhere_lem u event error uid month v.db.notifications h)
