-- ===== src/Handler/Guarded.antt =====
-- `app.New` of server/internal/app/app.go: the handlers behind the authentication. The multiplexer
-- is a parameter; a request without a route is answered by net/http.
use arran.Prelude.{ℕ, ◌≡◌, refl, ◌⊎◌, inl, inr, String, true, Option, none, some, ◌==◌, Bool-cases}
use arran.World.{World, Env}
use arran.Auth.Store.{AuthState}
use arran.Auth.Service.{
  Service, Request, Reply, no_content, failed, session, me, passed, is_health, bearer_token, wrap,
}
use arran.Auth.Grants.{Opened}
use arran.Auth.Unchanged.{is_sign_in_or_out, db-wrap}
use arran.Auth.Access.{Granted, wrap-Granted}
use arran.Handler.{Response}
use arran.Handler.Requests.{Input, Server}
use arran.Handler.Routes.{Route, get_health, handle, cors}

-- The answer of the authentication, of a handler, or of net/http.
pub data Answer : Type 0 where
  denied : Reply → Answer
  handled : Response → Answer
  unrouted : Answer

abbrev pub answered : Response × World → Answer × World
answered (response, w) = (handled response, w)

-- The user of the request's context: 0 where there is none.
abbrev pub with_user : Env → ℕ → Env
with_user env uid = record env { user_id = uid }

abbrev pub routed : Server → Env → String → Option Route → Input → World → Answer × World
routed server env method none input w = (unrouted, w)
routed server env method (some route) input w =
    answered (cors method (handle server env route input) w)

abbrev pub next_of : Server → Env → String → Option Route → Input → Reply → World → Answer × World
next_of server env method route input (passed none) w =
    routed server (with_user env 0) method route input w
next_of server env method route input (passed (some uid)) w =
    routed server (with_user env uid) method route input w
next_of server env method route input reply w = (denied reply, w)

-- One request through `Wrap` and the handlers: the answer, and the states of the authentication and
-- of the application after it.
unfoldable pub serve_request :
    Service
    → Server
    → (Request → Option Route)
    → Env
    → Request
    → Input
    → AuthState × World
    → Answer × AuthState × World
unfolding wrap handle cors
serve_request service server mux env request input (s, w) =
    let (reply, s') = wrap service request s in
    let (answer, w') = next_of server env request.method (mux request) input reply w in
    (answer, s', w')

-- The application's world is as it was, or the request has a token with an open session, and the
-- answer and the world are those of its route for the user of that session.
abbrev pub IsGuarded :
    Service
    → Server
    → Env
    → Request
    → Option Route
    → Input
    → AuthState
    → World
    → Answer × World
    → Type 0
IsGuarded service server env request route input s w out =
    (out.1 ≡ w)
    ⊎ ((uid : ℕ) × (token : String) × (bearer_token request ≡ some token)
        × Opened (service.platform.digest token) s.clock s.db.users s.db.sessions uid
        × (out ≡ routed server (with_user env uid) request.method route input w))

health_lem :
    (server : Server) (env : Env) (method : String) (route : Option Route) (input : Input)
    (w : World)
    → route ≡ some get_health
    → (routed server env method route input w).1 ≡ w
unfolding handle cors
health_lem server env method route input w h = elim (Bool-cases (method == "OPTIONS")) [
  | inl e ↦ rw (h, e) refl
  | inr e ↦ rw (h, e) refl
]

next_of-IsGuarded :
    (service : Service) (server : Server) (env : Env) (request : Request) (route : Option Route)
    (input : Input) (s : AuthState) (w : World) (reply : Reply)
    → (is_health request ≡ true → route ≡ some get_health)
    → Granted service request s reply
    → IsGuarded service server env request route input s w
        (next_of server env request.method route input reply w)
next_of-IsGuarded service server env request route input s w (passed none) h g =
    inl (health_lem server (with_user env 0) request.method route input w (h g))
next_of-IsGuarded service server env request route input s w (passed (some uid)) h (token, b, o) =
    inr (uid, token, b, o, refl)
next_of-IsGuarded service server env request route input s w no_content h g = inl refl
next_of-IsGuarded service server env request route input s w (failed status text) h g = inl refl
next_of-IsGuarded service server env request route input s w (session t e u) h g = inl refl
next_of-IsGuarded service server env request route input s w (me user) h g = inl refl

-- The tables of the authentication are as they were, or the request is a login or a logout.
abbrev pub KeepsAccounts : Request → AuthState → AuthState → Type 0
KeepsAccounts request s t = (is_sign_in_or_out request ≡ true) ⊎ (t.db ≡ s.db)

-- Where the multiplexer sends the requests for health to their route, of a request through Wrap and
-- the handlers: the application's tables and previews are as they were, or the request has a token
-- with a session before it, not over, of an active user with the password hash of the session, and
-- its answer and the application's tables and previews after it are those of its route with the id of
-- that user. The authentication's tables of users, sessions and attempts are as they were, or the
-- request is a POST of /auth/login or /auth/logout.
pub serve_request-IsGuarded :
    (service : Service) (server : Server) (mux : Request → Option Route) (env : Env)
    (request : Request) (input : Input) (s : AuthState) (w : World)
    → (is_health request ≡ true → mux request ≡ some get_health)
    → IsGuarded service server env request
        (mux request)
        input
        s
        w
        (let out = serve_request service server mux env request input (s, w) in (out.0, out.2))
      × KeepsAccounts request s (serve_request service server mux env request input (s, w)).1
unfolding serve_request
serve_request-IsGuarded service server mux env request input s w h = (
  next_of-IsGuarded service server env request (mux request) input s w (wrap service request s).0 h
      (wrap-Granted service request s),
  elim (Bool-cases (is_sign_in_or_out request)) [
    | inl e ↦ inl e
    | inr e ↦ inr (db-wrap service request s e)
  ],
)
