-- ===== src/Auth/Unchanged.antt =====
-- The requests with which server/internal/auth/auth.go writes no table.
use arran.Prelude.{
  ◌≡◌, refl, ◌∙◌, String, Bool, true, false, ◌&&◌, ◌||◌, Option, none, some, arith, ◌==◌,
  if◌then◌else◌,
}
use arran.World.Monad.{Result, ok, err}
use arran.Auth.Store.{
  User, AuthState, resolve_session, auth_statement, session_user, delete_session,
}
use arran.Auth.Transaction.{fault-cases}
use arran.Auth.Service.{
  Service, Request, Handler, reply, no_content, passed, me, after, serve, is_health, bearer_token,
  login, authenticated, with_token, wrap,
}

-- A login or a logout.
abbrev pub is_sign_in_or_out : Request → Bool
is_sign_in_or_out request =
    request.method == "POST" && (request.path == "/auth/login" || request.path == "/auth/logout")

db-resolve_session : (hash : String) (s : AuthState) → (resolve_session hash s).1.db ≡ s.db
unfolding resolve_session auth_statement
db-resolve_session hash s =
    fault-cases (λ r. r.1.db ≡ s.db) s.faults
      (λ t. (ok (session_user hash t.clock t.db.users t.db.sessions), t)) s (λ e t d. d)
      (λ t d c. d)

db-after :
    {A : Type 0} (rest : A → Handler) (r : Result A × AuthState)
    → ((a : A) (t : AuthState) → (rest a t).1.db ≡ t.db)
    → (after rest r).1.db ≡ r.1.db
db-after rest (ok a, s) f = f a s
db-after rest (err e, s) f = refl

db-if :
    (b : Bool) (h k : Handler) (s : AuthState)
    → (b ≡ true → (h s).1.db ≡ s.db)
    → (b ≡ false → (k s).1.db ≡ s.db)
    → ((if b then h else k) s).1.db ≡ s.db
db-if true h k s f g = f refl
db-if false h k s f g = g refl

db-authenticated :
    (request : Request) (hash : String) (user : Option User) (s : AuthState)
    → is_sign_in_or_out request ≡ false
    → (authenticated request hash user s).1.db ≡ s.db
unfolding authenticated
db-authenticated request hash none s h = refl
db-authenticated request hash (some user) s h =
    db-if (request.method == "POST" && request.path == "/auth/logout")
      (serve (delete_session hash) (λ _. reply no_content)) _ s (λ e. ground arith)
      (λ _.
        db-if (request.method == "GET" && request.path == "/auth/me") (reply (me user))
          (reply (passed (some user.id))) s (λ _. refl) (λ _. refl))

db-with_token :
    (service : Service) (request : Request) (token : Option String) (s : AuthState)
    → is_sign_in_or_out request ≡ false
    → (with_token service request token s).1.db ≡ s.db
unfolding with_token serve
db-with_token service request none s h = refl
db-with_token service request (some token) s h =
    let hash = service.platform.digest token in
    db-after (authenticated request hash) (resolve_session hash s)
      (λ user t. db-authenticated request hash user t h)
    ∙ db-resolve_session hash s

-- A request that is no login and no logout leaves the tables of the authentication as they are.
pub db-wrap :
    (service : Service) (request : Request) (s : AuthState)
    → is_sign_in_or_out request ≡ false
    → (wrap service request s).1.db ≡ s.db
unfolding wrap
db-wrap service request s h =
    db-if (request.method == "OPTIONS") (reply no_content) _ s (λ _. refl)
      (λ _.
        db-if (is_health request) (reply (passed none)) _ s (λ _. refl)
          (λ _.
            db-if (request.method == "POST" && request.path == "/auth/login")
              (login service request) (with_token service request (bearer_token request)) s
              (λ e. ground arith) (λ _. db-with_token service request (bearer_token request) s h)))
