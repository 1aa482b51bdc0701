-- ===== src/Handler/Reads.antt =====
-- The routes of server/internal/handler/handler.go that only read.
use arran.Prelude.{ℕ, ◌≡◌, refl, String, Bool, true, Option, none, some, arith}
use arran.World.{World, Env, Action}
use arran.World.Keeps.{Keeps, keeps_rules}
use arran.World.Monad.{Result, ok, err}
use arran.World.Tables.{Db}
use arran.Domain.{Profile, categories}
use arran.Repository.Transactions.{list_transactions}
use arran.Repository.Transactions.Dashboard.{monthly_dashboard}
use arran.Repository.Records as Records
use arran.Application.Settings as Settings
use arran.Application.Settings.{month_or_now, list_transactions_use, list_consultations_use}
use arran.Handler.{
  Body, transactions_body, consultations_body, Handler, with_id, answer_of, respond, for_id,
  parse_id, parse_limit,
}
use arran.Handler.Requests.{Input, Server}
use arran.Prelude.Text.{has_prefix}
use arran.Handler.Routes.{
  pattern, Route, get_health, get_profile_route, put_profile_route, preview_route, commit_route,
  list_transactions_route, update_transaction_route, dashboard_route, start_route, continue_route,
  update_result_route, list_consultations_route, get_consultation_route, create_review_route,
  latest_review_route, list_memories_route, create_memory_route, update_memory_route,
  delete_memory_route, handle,
}

-- The routes with the method GET.
unfoldable pub is_get : Route → Bool
unfolding has_prefix
is_get route = has_prefix (pattern route) "GET "

module _ {A : Type 0} (P : Db → Type 0) where
  answer_lem :
      (status : ℕ) (body : A → Body) (out : Result A × World)
      → P out.1.db
      → P (answer_of status body out).1.db
  answer_lem status body (ok a, w) h = h
  answer_lem status body (err e, w) h = h

  respond-Keeps :
      (status : ℕ) (body : A → Body) (action : Action A) (w : World)
      → Keeps P action
      → P w.db
      → P (respond status body action w).1.db
  unfolding respond
  respond-Keeps status body action w k h = answer_lem status body (action w) (k.at w h)

module _ (P : Db → Type 0) where
  list_transactions-Keeps :
      (uid : ℕ) (month : String) (limit : ℕ) → Keeps P (list_transactions uid month limit)
  unfolding list_transactions
  list_transactions-Keeps uid month limit = search keeps_rules

  get_profile-Keeps : (uid : ℕ) → Keeps P (Records.get_profile uid)
  unfolding Records.get_profile
  get_profile-Keeps uid = search keeps_rules

  monthly_dashboard-Keeps :
      (uid : ℕ) (month : String) (profile : Profile) → Keeps P (monthly_dashboard uid month profile)
  unfolding monthly_dashboard
  monthly_dashboard-Keeps uid month profile = search (keeps_rules, list_transactions-Keeps)

  month_or_now-Keeps : (env : Env) (month : String) → Keeps P (month_or_now env month)
  unfolding month_or_now
  month_or_now-Keeps env month = search keeps_rules

  dashboard-Keeps : (env : Env) (month : String) → Keeps P (Settings.dashboard env month)
  unfolding Settings.dashboard
  dashboard-Keeps env month = search (keeps_rules, month_or_now-Keeps, monthly_dashboard-Keeps)

  transactions-Keeps :
      (env : Env) (month : String) (limit : ℕ) → Keeps P (list_transactions_use env month limit)
  unfolding list_transactions_use
  transactions-Keeps env month limit = list_transactions-Keeps env.user_id month _

  consultations-Keeps : (env : Env) (limit : ℕ) → Keeps P (list_consultations_use env limit)
  unfolding list_consultations_use Records.list_consultations
  consultations-Keeps env limit = search keeps_rules

  get_consultation-Keeps : (uid id : ℕ) → Keeps P (Records.get_consultation uid id)
  unfolding Records.get_consultation
  get_consultation-Keeps uid id = search keeps_rules

  latest_review-Keeps : (uid : ℕ) → Keeps P (Records.latest_review uid)
  unfolding Records.latest_review
  latest_review-Keeps uid = search keeps_rules

  list_memories-Keeps : (uid : ℕ) → Keeps P (Records.list_memories uid)
  unfolding Records.list_memories
  list_memories-Keeps uid = search keeps_rules

  with_id-Keeps :
      (rest : ℕ → Handler) (id : Option ℕ) (w : World)
      → ((n : ℕ) → P (rest n w).1.db)
      → P w.db
      → P (with_id rest id w).1.db
  with_id-Keeps rest none w f h = h
  with_id-Keeps rest (some id) w f h = f id

-- For every server, user, input and world: a route of the method GET leaves the tables as they are,
-- whatever it answers.
pub handle_get :
    (server : Server) (env : Env) (route : Route) (input : Input) (w : World)
    → is_get route ≡ true
    → (handle server env route input w).1.db ≡ w.db
unfolding handle for_id is_get
handle_get server env get_health input w h = refl
handle_get server env get_profile_route input w h =
    respond-Keeps (λ db. db ≡ w.db) 200 _ _ w (get_profile-Keeps _ env.user_id) refl
handle_get server env list_transactions_route input w h =
    respond-Keeps (λ db. db ≡ w.db) 200 (λ items. transactions_body items categories) _ w
      (transactions-Keeps _ env input.month (parse_limit input.limit)) refl
handle_get server env dashboard_route input w h =
    respond-Keeps (λ db. db ≡ w.db) 200 _ _ w (dashboard-Keeps _ env input.month) refl
handle_get server env list_consultations_route input w h =
    respond-Keeps (λ db. db ≡ w.db) 200 consultations_body _ w
      (consultations-Keeps _ env (parse_limit input.limit)) refl
handle_get server env (get_consultation_route id) input w h =
    with_id-Keeps (λ db. db ≡ w.db) _ (parse_id id) w
      (λ n. respond-Keeps (λ db. db ≡ w.db) 200 _ _ w (get_consultation-Keeps _ env.user_id n) refl)
      refl
handle_get server env latest_review_route input w h =
    respond-Keeps (λ db. db ≡ w.db) 200 _ _ w (latest_review-Keeps _ env.user_id) refl
handle_get server env list_memories_route input w h =
    respond-Keeps (λ db. db ≡ w.db) 200 _ _ w (list_memories-Keeps _ env.user_id) refl
handle_get server env put_profile_route input w h = ground arith
handle_get server env preview_route input w h = ground arith
handle_get server env commit_route input w h = ground arith
handle_get server env (update_transaction_route id) input w h = ground arith
handle_get server env start_route input w h = ground arith
handle_get server env (continue_route id) input w h = ground arith
handle_get server env (update_result_route id) input w h = ground arith
handle_get server env create_review_route input w h = ground arith
handle_get server env create_memory_route input w h = ground arith
handle_get server env (update_memory_route id) input w h = ground arith
handle_get server env (delete_memory_route id) input w h = ground arith
