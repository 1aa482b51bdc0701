-- ===== src/Application/Review/Saved.antt =====
-- What `CreateMonthlyReview` of application.go leaves of the reviews.
use arran.Prelude.{
  ℕ, ◌≤◌, ◌≡◌, refl, ap, String, List, [], ◌∷◌, ◌++◌, arith, take, length, length-take,
}
use arran.Domain.{Profile, Dashboard, Transaction, Consultation, ReviewCandidate, MonthlyReview}
use arran.World.{World, Env, Action, read_clock, statement, next_fault}
use arran.World.Keeps.{
  Keeps, Keeps-call, Keeps-read_clock, Keeps-bind, Keeps-next_fault, keeps_rules,
}
use arran.World.Monad.{Result, ok, err, continue, ◌>>=◌}
use arran.World.Tables.{Db}
use arran.Repository.Usage.{ConsultationUsage, monthly_consultation_usage}
use arran.Repository.Records.{get_profile, list_consultations, save_review}
use arran.Repository.Transactions.{list_transactions}
use arran.Repository.Transactions.Dashboard.{monthly_dashboard}
use arran.Application.{Services}
use arran.Application.Settings.{month_or_now}
use arran.Application.Outcome.{allowed, external_model_allowed}
use arran.Application.Review.Subscriptions.{Sorting}
use arran.Application.Review.Candidates.{build_review_candidates}
use arran.Application.Review.{agent_candidates, review_of, store_review, create_monthly_review}

-- A review is added at the end, of the user and with at most five candidates, or none is.
abbrev pub Saved : List (ℕ × MonthlyReview) → ℕ → Result MonthlyReview × World → Type 0
Saved rows uid (ok review, w) =
    (w.db.reviews ≡ rows ++ (uid, review) ∷ []) × (length review.candidates ≤ 5)
Saved rows uid (err e, w) = w.db.reviews ≡ rows

abbrev HasReviews : List (ℕ × MonthlyReview) → Db → Type 0
HasReviews rows db = db.reviews ≡ rows

record Saves (rows : List (ℕ × MonthlyReview)) (uid : ℕ) (m : Action MonthlyReview) : Type 0 where
  at : (w : World) → HasReviews rows w.db → Saved rows uid (m w)

module _ (rows : List (ℕ × MonthlyReview)) where
  continue-Saves :
      {A : Type 0} (uid : ℕ) (r : Result A) (f : A → Action MonthlyReview) (w : World)
      → ((a : A) → Saves rows uid (f a))
      → HasReviews rows w.db
      → Saved rows uid (continue r f w)
  continue-Saves uid (ok a) f w s h = (s a).at w h
  continue-Saves uid (err e) f w s h = h

  Saves-bind :
      {A : Type 0} (uid : ℕ) (m : Action A) (f : A → Action MonthlyReview)
      → Keeps (HasReviews rows) m
      → ((a : A) → Saves rows uid (f a))
      → Saves rows uid (m >>= f)
  unfolding ◌>>=◌
  Saves-bind uid m f k s = record { at = λ w h. continue-Saves uid (m w).0 f (m w).1 s (k.at w h) }

  save_review-Saves :
      (uid : ℕ) (review : MonthlyReview)
      → length review.candidates ≤ 5
      → Saves rows uid (save_review uid review)
  unfolding save_review statement
  save_review-Saves uid review l = Saves-bind uid next_fault _ Keeps-next_fault (λ _. record {
    at = λ w h. (ap (λ rs. rs ++ (uid, record review { id = w.db.next_review }) ∷ []) h, l);
  })

  month_or_now-HasReviews :
      (env : Env) (month : String) → Keeps (HasReviews rows) (month_or_now env month)
  unfolding month_or_now
  month_or_now-HasReviews env month = search keeps_rules

  get_profile-HasReviews : (uid : ℕ) → Keeps (HasReviews rows) (get_profile uid)
  unfolding get_profile
  get_profile-HasReviews uid = search keeps_rules

  list_transactions-HasReviews :
      (uid : ℕ) (month : String) (limit : ℕ)
      → Keeps (HasReviews rows) (list_transactions uid month limit)
  unfolding list_transactions
  list_transactions-HasReviews uid month limit = search keeps_rules

  dashboard-HasReviews :
      (uid : ℕ) (month : String) (profile : Profile)
      → Keeps (HasReviews rows) (monthly_dashboard uid month profile)
  unfolding monthly_dashboard
  dashboard-HasReviews uid month profile = search (keeps_rules, list_transactions-HasReviews)

  list_consultations-HasReviews :
      (uid limit : ℕ) → Keeps (HasReviews rows) (list_consultations uid limit)
  unfolding list_consultations
  list_consultations-HasReviews uid limit = search keeps_rules

  usage-HasReviews :
      (uid : ℕ) (month : String) → Keeps (HasReviews rows) (monthly_consultation_usage uid month)
  unfolding monthly_consultation_usage
  usage-HasReviews uid month = search keeps_rules

  allowed-HasReviews :
      (out : Result ConsultationUsage × World)
      → HasReviews rows out.1.db
      → HasReviews rows (allowed out).1.db
  allowed-HasReviews (ok usage, w) h = h
  allowed-HasReviews (err e, w) h = h

  external-HasReviews : (env : Env) → Keeps (HasReviews rows) (external_model_allowed env)
  unfolding external_model_allowed
  external-HasReviews env = Keeps-bind (read_clock env) _ (Keeps-read_clock env) (λ now. record {
    at = λ w h. allowed-HasReviews _ ((usage-HasReviews env.user_id now.jst_month).at w h);
  })

  agent_candidates-HasReviews :
      (services : Services) (env : Env) (profile : Profile) (dashboard : Dashboard)
      (ts : List Transaction) (cs : List Consultation) (local : List ReviewCandidate)
      → Keeps (HasReviews rows) (agent_candidates services env profile dashboard ts cs local)
  unfolding agent_candidates
  agent_candidates-HasReviews services env profile dashboard ts cs local =
      Keeps-bind _ _ (external-HasReviews env) (λ external. Keeps-call _)

  store_review-Saves :
      (env : Env) (month : String) (dashboard : Dashboard) (candidates : List ReviewCandidate)
      → Saves rows env.user_id (store_review env month dashboard candidates)
  unfolding store_review review_of
  store_review-Saves env month dashboard candidates =
      Saves-bind env.user_id (read_clock env) _ (Keeps-read_clock env) (λ now.
        save_review-Saves env.user_id (review_of month dashboard now (take 5 candidates))
          (omega (arith, length-take 5 candidates)))

  create-Saves :
      (sorting : Sorting) (services : Services) (env : Env) (month : String)
      → Saves rows env.user_id (create_monthly_review sorting services env month)
  unfolding create_monthly_review
  create-Saves sorting services env month =
      let uid = env.user_id in
      Saves-bind uid _ _ (month_or_now-HasReviews env month) λ month.
        Saves-bind uid _ _ (get_profile-HasReviews uid) λ profile.
          Saves-bind uid _ _ (dashboard-HasReviews uid month profile) λ dashboard.
            Saves-bind uid _ _ (list_transactions-HasReviews uid "" 1000) λ ts.
              Saves-bind uid _ _ (list_consultations-HasReviews uid 100) λ cs.
                Saves-bind uid _ _ (Keeps-read_clock env) λ now.
                  Saves-bind uid _ _
                    (agent_candidates-HasReviews services env profile dashboard ts cs
                      (build_review_candidates sorting month now profile dashboard ts cs))
                    (store_review-Saves env month dashboard)

-- For every world, order of Go and services, whatever the agents answer: on success
-- CreateMonthlyReview has added the review that it returns, for the user of the request and with at
-- most five candidates, behind the reviews there were; on an error the reviews are as before.
pub create_monthly_review-Saved :
    (sorting : Sorting) (services : Services) (env : Env) (month : String) (w : World)
    → Saved w.db.reviews env.user_id (create_monthly_review sorting services env month w)
create_monthly_review-Saved sorting services env month w =
    (create-Saves w.db.reviews sorting services env month).at w refl
