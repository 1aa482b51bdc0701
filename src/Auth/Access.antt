-- ===== src/Auth/Access.antt =====
-- What a request needs to pass the authentication of server/internal/auth/auth.go.
use arran.Prelude.{
  ℕ, ◌≡◌, refl, ap, ◌∙◌, String, true, not, ◌&&◌, ◌||◌, Option, none, some, List, [], ◌∷◌, arith,
  ◌==◌, ltb,
}
use Prim.Native.String.{len}
use arran.Prelude.Text.{trim_space}
use arran.World.Monad.{ok, ◌>>=◌}
use arran.Auth.Store.{
  User, AuthState, AuthDb, session_user, resolve_session, auth_statement, fault_in, delete_session,
}
use arran.Auth.Password.{verify_password}
use arran.Auth.Service.{
  Service, Credentials, Request, Reply, no_content, reply, unauthorized, failed, passed, me,
  session, serve, is_health, bearer_token, to_lower, username_pattern, limited_login, login,
  login_with, authenticated, with_token, wrap,
}
use arran.Auth.Grants.{
  Exists, Opened, LoggedIn, limited_login-LoggedIn, session_user-Opened, serve-cases, handler_if,
}

-- What a reply shows of the request and the tables before it.
abbrev pub Granted : Service → Request → AuthState → Reply → Type 0
Granted service request s (passed none) = is_health request ≡ true
Granted service request s (passed (some uid)) =
    (token : String) × (bearer_token request ≡ some token)
    × Opened (service.platform.digest token) s.clock s.db.users s.db.sessions uid
Granted service request s (me user) =
    (token : String) × (bearer_token request ≡ some token)
    × Opened (service.platform.digest token) s.clock s.db.users s.db.sessions user.id
Granted service request s (session token expires user) =
    (input : Credentials) × (service.platform.decode_login request.body ≡ some input)
    × Exists (λ stored. stored ≡ user) s.db.users
    × (user.username ≡ to_lower (trim_space input.username))
    × (user.active ≡ true)
    × (verify_password service.platform.crypto user.password_hash input.password ≡ true)
    × (request.random_token ≡ some token)
Granted service request s _ = Unit

-- A session that is found is open in the tables before.
resolved-Opened :
    (faults : List (Option String)) (hash : String) (clock : ℕ) (db : AuthDb) (s t : AuthState)
    (user : User)
    → s.clock ≡ clock
    → s.db ≡ db
    → (fault_in faults >>= λ _ u. (ok (session_user hash u.clock u.db.users u.db.sessions), u)) s
      ≡ (ok (some user), t)
    → Opened hash clock db.users db.sessions user.id
unfolding fault_in ◌>>=◌
resolved-Opened [] hash clock db s t user c d e =
    session_user-Opened hash clock db.users db.sessions user (
      ground (
        arith,
        ap (λ x. session_user hash x db.users db.sessions) c,
        ap (λ x. session_user hash s.clock x.users x.sessions) d,
      ))
resolved-Opened (none ∷ rest) hash clock db s t user c d e =
    session_user-Opened hash clock db.users db.sessions user (
      ground (
        arith,
        ap (λ x. session_user hash x db.users db.sessions) c,
        ap (λ x. session_user hash s.clock x.users x.sessions) d,
      ))
resolved-Opened (some text ∷ rest) hash clock db s t user c d e = ground arith

authenticated-Granted :
    (service : Service) (request : Request) (s : AuthState) (token : String) (user : Option User)
    (t : AuthState)
    → bearer_token request ≡ some token
    → ((u : User)
        → user ≡ some u
        → Opened (service.platform.digest token) s.clock s.db.users s.db.sessions u.id)
    → Granted service request s (authenticated request (service.platform.digest token) user t).0
unfolding authenticated serve
authenticated-Granted service request s token none t h f = tt
authenticated-Granted service request s token (some user) t h f =
    let P = Granted service request s in
    handler_if P (request.method == "POST" && request.path == "/auth/logout")
      (serve (delete_session (service.platform.digest token)) (λ _. reply no_content)) _ t
      (λ _.
        serve-cases P (λ _. reply no_content) (delete_session (service.platform.digest token) t) tt
          (λ _ _ _. tt))
      (handler_if P (request.method == "GET" && request.path == "/auth/me") (reply (me user))
        (reply (passed (some user.id))) t (λ _. (token, h, f user refl)) (token, h, f user refl))

with_token-Granted :
    (service : Service) (request : Request) (token : Option String) (s : AuthState)
    → bearer_token request ≡ token
    → Granted service request s (with_token service request token s).0
unfolding with_token serve resolve_session auth_statement
with_token-Granted service request none s h = tt
with_token-Granted service request (some token) s h =
    let P = Granted service request s in
    let hash = service.platform.digest token in
    serve-cases P (authenticated request hash) (resolve_session hash s) tt (λ user t e.
      authenticated-Granted service request s token user t h (λ u k.
        resolved-Opened s.faults hash s.clock s.db s t u refl refl (e ∙ ap (λ o. (ok o, t)) k)))

LoggedIn-Granted :
    (service : Service) (request : Request) (input : Credentials) (s : AuthState) (r : Reply)
    → service.platform.decode_login request.body ≡ some input
    → LoggedIn service request s.db.users (to_lower (trim_space input.username)) input.password r
    → Granted service request s r
LoggedIn-Granted service request input s no_content h l = tt
LoggedIn-Granted service request input s (failed status text) h l = tt
LoggedIn-Granted service request input s (session token expires user) h l =
    (input, h, l.0, l.1, l.2, l.3, l.4)
LoggedIn-Granted service request input s (me user) h l = absurd l
LoggedIn-Granted service request input s (passed uid) h l = absurd l

login_with-Granted :
    (service : Service) (request : Request) (input : Option Credentials) (s : AuthState)
    → service.platform.decode_login request.body ≡ input
    → Granted service request s (login_with service request input s).0
unfolding login_with
login_with-Granted service request none s h = tt
login_with-Granted service request (some input) s h =
    let username = to_lower (trim_space input.username) in
    handler_if (Granted service request s)
      (not (username_pattern username) || ltb 1024 (len input.password)) (reply unauthorized)
      (limited_login service request username input.password) s (λ _. tt)
      (LoggedIn-Granted service request input s
        (limited_login service request username input.password s).0 h
        (limited_login-LoggedIn service request username input.password s))

-- For every service, request and state: the next handler runs without a user id only for a health
-- request; it runs with a user id, or `/auth/me` answers with a user, only if the request's token
-- has a session before the request that is not over, of the user with that id, who is active and
-- whose password hash is that of the session; and a session is replied only with the random token
-- drawn, for a stored user of the username in the body, who is active and whose hash the password
-- in the body passes.
pub wrap-Granted :
    (service : Service) (request : Request) (s : AuthState)
    → Granted service request s (wrap service request s).0
unfolding wrap login
wrap-Granted service request s =
    let P = Granted service request s in
    let token = bearer_token request in
    handler_if P (request.method == "OPTIONS") (reply no_content) _ s (λ _. tt)
      (handler_if P (is_health request) (reply (passed none)) _ s (λ h. h)
        (handler_if P (request.method == "POST" && request.path == "/auth/login")
          (login service request) (with_token service request token) s
          (λ _.
            login_with-Granted service request (service.platform.decode_login request.body) s refl)
          (with_token-Granted service request token s refl)))
