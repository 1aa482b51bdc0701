-- ===== src/Auth/Service.antt =====
-- The handlers of server/internal/auth/auth.go: what goes before every other handler, and the login.
-- Response headers, which depend on the status alone, are left out.
use Prim.Native.Char.{Char, code}
use Prim.Native.String.{String, [], ◌∷◌, len}
use arran.Prelude.{
  ℕ, ◌+◌, ◌-◌, ◌*◌, Bool, true, false, ◌&&◌, ◌||◌, not, Option, none, some, List, ◌==◌, eqb, ltb,
  leb, if◌then◌else◌,
}
use arran.Prelude.Text.{nth_text, fields_from, trim_space, text_append}
use arran.World.Monad.{Result, ok, err}
use arran.Auth.Store.{
  User, AuthState, AuthAction, find_user, allow_login, create_session, resolve_session,
  delete_session,
}
use arran.Auth.Password.{Crypto, verify_password}

pub record Credentials : Type 0 where
  pub username : String
  pub password : String

-- What the handlers call outside the repository: SHA-256 in hexadecimal, the JSON decoder of the
-- login's body (unknown fields, a second value and more than 4096 bytes are errors) and
-- `net.SplitHostPort`.
pub record Platform : Type 0 where
  pub crypto : Crypto
  pub digest : String → String
  pub decode_login : String → Option Credentials
  pub split_host : String → Option String

-- `Service`
pub record Service : Type 0 where
  pub platform : Platform
  pub dummy_hash : String

-- A request, with the server's time and the random token (`none`: no randomness) it would get.
pub record Request : Type 0 where
  pub method : String
  pub path : String
  pub authorization : String
  pub remote_addr : String
  pub body : String
  pub now : ℕ
  pub random_token : Option String

-- A status with the error it names, a session, the user of `/auth/me`, or what the next handler
-- does, with the user id of its context.
pub data Reply : Type 0 where
  no_content : Reply
  failed : ℕ → String → Reply
  session : String → ℕ → User → Reply
  me : User → Reply
  passed : Option ℕ → Reply

abbrev pub unauthorized : Reply
unauthorized = failed 401 "unauthorized"

abbrev pub unavailable : Reply
unavailable = failed 503 "unavailable"

abbrev pub Handler : Type 0
Handler = AuthState → Reply × AuthState

abbrev pub reply : Reply → Handler
reply r s = (r, s)

abbrev pub after : {A : Type 0} → (A → Handler) → Result A × AuthState → Reply × AuthState
after rest (err e, s) = (unavailable, s)
after rest (ok a, s) = rest a s

-- A call of the store whose error is answered by 503.
unfoldable pub serve : {A : Type 0} → AuthAction A → (A → Handler) → Handler
serve action rest s = after rest (action s)

-- Lower case. Of the letters outside ASCII only two have one inside it; the others stay outside.
unfoldable pub lower_code : Char → String
unfolding nth_text
lower_code c =
    if eqb (code c) 0x212a
    then "k"
    else if eqb (code c) 0x130
    then "i"
    else if leb b'A' (code c) && leb (code c) b'Z'
    then nth_text (code c - b'A') "abcdefghijklmnopqrstuvwxyz"
    else c ∷ []

-- `strings.ToLower`
unfoldable pub to_lower : String → String
unfolding lower_code text_append
to_lower [] = []
to_lower (c ∷ s) = text_append (lower_code c) (to_lower s)

unfoldable pub username_char : ℕ → Bool
username_char c =
    leb b'a' c && leb c b'z'
    || leb b'0' c && leb c b'9'
    || eqb c b'_'
    || eqb c b'.'
    || eqb c b'@'
    || eqb c b'+'
    || eqb c b'-'

unfoldable pub all_username : String → Bool
unfolding username_char
all_username [] = true
all_username (c ∷ s) = username_char (code c) && all_username s

-- `usernamePattern`
unfoldable pub username_pattern : String → Bool
unfolding all_username
username_pattern [] = false
username_pattern (c ∷ s) =
    (leb b'a' (code c) && leb (code c) b'z' || leb b'0' (code c) && leb (code c) b'9')
    && leb 2 (len s)
    && leb (len s) 127
    && all_username s

-- The token of an Authorization header: two fields, the first `Bearer` in any case, the second of
-- 43 bytes.
unfoldable pub token_of : List String → Option String
unfolding to_lower
token_of (List.◌∷◌ scheme (List.◌∷◌ token List.[])) =
    if to_lower scheme == "bearer" && eqb (len token) 43 then some token else none
token_of _ = none

abbrev pub bearer_token : Request → Option String
bearer_token request = token_of (fields_from "" request.authorization)

-- One of the 4 slots for password checks, given back when the handler ends.
unfoldable pub with_slot : Handler → Handler
with_slot handler s =
    if ltb s.busy 4
    then (let (r, s') = handler (record s { busy = s.busy + 1 }) in
        (r, record s' { busy = s'.busy - 1 }))
    else (failed 429 "rate_limited", s)

abbrev pub session_lifetime : ℕ
session_lifetime = 7 * 24 * 60 * 60

-- From the random token to the reply.
unfoldable pub open_session : Service → Request → User → Option String → Handler
unfolding serve create_session
open_session service request user none = reply (failed 500 "internal_error")
open_session service request user (some token) =
    serve (create_session (service.platform.digest token) user (request.now + session_lifetime))
      (λ created.
        reply
          (if created then session token (request.now + session_lifetime) user else unavailable))

abbrev pub hash_of : Service → Option User → String
hash_of service none = service.dummy_hash
hash_of service (some user) = user.password_hash

-- After the password check.
unfoldable pub admit : Service → Request → Bool → Option User → Handler
unfolding open_session
admit service request true (some user) =
    if user.active
    then open_session service request user request.random_token
    else reply unauthorized
admit service request _ _ = reply unauthorized

-- The stored user with the password; for a name that is not stored, the dummy hash is checked.
unfoldable pub check_user : Service → Request → String → Option User → Handler
unfolding admit
check_user service request password user =
    admit service request (verify_password service.platform.crypto (hash_of service user) password)
      user

abbrev pub host_of : Platform → String → String
host_of platform address = elim (platform.split_host address) [ none ↦ address | some host ↦ host ]

abbrev pub ip_key : Service → Request → String
ip_key service request =
    service.platform.digest (text_append "ip:" (host_of service.platform request.remote_addr))

abbrev pub user_key : Service → String → String
user_key service username = service.platform.digest (text_append "user:" username)

-- The login from the limit on.
unfoldable pub limited_login : Service → Request → String → String → Handler
unfolding serve allow_login with_slot find_user check_user
limited_login service request username password =
    serve (allow_login (ip_key service request) (user_key service username)) (λ allowed.
      if allowed
      then with_slot (serve (find_user username) (check_user service request password))
      else reply (failed 429 "rate_limited"))

-- The login with the decoded body.
unfoldable pub login_with : Service → Request → Option Credentials → Handler
unfolding limited_login username_pattern to_lower trim_space
login_with service request none = reply (failed 400 "invalid_request")
login_with service request (some input) =
    let username = to_lower (trim_space input.username) in
    if not (username_pattern username) || ltb 1024 (len input.password)
    then reply unauthorized
    else limited_login service request username input.password

-- `login`
unfoldable pub login : Service → Request → Handler
unfolding login_with
login service request = login_with service request (service.platform.decode_login request.body)

-- A request with a session: the logout, the user's own record, or the next handler.
unfoldable pub authenticated : Request → String → Option User → Handler
unfolding serve delete_session
authenticated request token_hash none = reply unauthorized
authenticated request token_hash (some user) =
    if request.method == "POST" && request.path == "/auth/logout"
    then serve (delete_session token_hash) (λ _. reply no_content)
    else if request.method == "GET" && request.path == "/auth/me"
    then reply (me user)
    else reply (passed (some user.id))

abbrev pub is_health : Request → Bool
is_health request =
    request.method == "GET" && (request.path == "/health" || request.path == "/healthz")

unfoldable pub with_token : Service → Request → Option String → Handler
unfolding authenticated serve resolve_session
with_token service request none = reply unauthorized
with_token service request (some token) =
    let token_hash = service.platform.digest token in
    serve (resolve_session token_hash) (authenticated request token_hash)

-- `Wrap`
unfoldable pub wrap : Service → Request → Handler
unfolding login with_token token_of fields_from
wrap service request =
    if request.method == "OPTIONS"
    then reply no_content
    else if is_health request
    then reply (passed none)
    else if request.method == "POST" && request.path == "/auth/login"
    then login service request
    else with_token service request (bearer_token request)
