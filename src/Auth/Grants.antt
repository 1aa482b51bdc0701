-- ===== src/Auth/Grants.antt =====
-- What the sessions and logins of server/internal/auth/auth.go grant.
use arran.Prelude.{
  ℕ, ◌+◌, ◌<◌, ◌≡◌, refl, if◌then◌else◌, ◌⊎◌, ap, sym, ◌∙◌, inl, inr, String, Bool, true, false,
  Option, none, some, List, [], ◌∷◌, ltb, arith, find, eq_iff, Bool-cases, find-true, Option-cases,
}
use mathlib.Core.Path.{subst}
use arran.World.Monad.{Result, ok, err, ◌>>=◌}
use arran.Auth.Store.{
  User, SessionRow, AuthState, opens, session_user, find_user, is_user, create_session,
  count_attempt, allow_login, auth_statement, fault_in,
}
use arran.Auth.Password.{verify_password}
use arran.Auth.Transaction.{transaction-cases}
use arran.Auth.Service.{
  Service, Request, Reply, Handler, reply, unauthorized, failed, ip_key, user_key, with_slot,
  limited_login, check_user, admit, hash_of, session_lifetime, passed, me, session, unavailable,
  after, serve, open_session,
}

abbrev pub Exists : {A : Type 0} → (A → Type 0) → List A → Type 0
Exists P [] = ⊥
Exists P (x ∷ xs) = P x ⊎ Exists P xs

-- The session is of the token, not over, and of the user with this id, who is active and has the
-- password of the session.
abbrev pub OpenedBy : String → ℕ → ℕ → SessionRow → User → Type 0
OpenedBy hash now uid row user =
    (user.id ≡ uid)
    × (row.user_id ≡ uid)
    × (row.token_hash ≡ hash)
    × (now < row.expires_at)
    × (user.active ≡ true)
    × (row.password_hash ≡ user.password_hash)

abbrev pub Opened : String → ℕ → List User → List SessionRow → ℕ → Type 0
Opened hash now users rows uid =
    Exists (λ row. Exists (λ user. OpenedBy hash now uid row user) users) rows

find-Exists :
    {A : Type 0} (p : A → Bool) (P : A → Type 0) (xs : List A) (x : A)
    → find p xs ≡ some x
    → P x
    → Exists P xs
unfolding find
find-Exists p P [] x h px = ground arith
find-Exists p P (y ∷ xs) x h px = elim (Bool-cases (p y)) [
  | inl t ↦ inl (subst P (ground arith) px)
  | inr f ↦ inr (find-Exists p P xs x (ground arith) px)
]

opens-OpenedBy :
    (hash : String) (now : ℕ) (row : SessionRow) (user : User)
    → opens hash now user row ≡ true
    → OpenedBy hash now user.id row user
unfolding opens
opens-OpenedBy hash now row user h =
    ground (arith, eq_iff row.token_hash hash, eq_iff row.password_hash user.password_hash)

pub session_user-Opened :
    (hash : String) (now : ℕ) (users : List User) (rows : List SessionRow) (user : User)
    → session_user hash now users rows ≡ some user
    → Opened hash now users rows user.id
unfolding session_user find
session_user-Opened hash now users [] user h = ground arith
session_user-Opened hash now users (row ∷ rows) user h =
    elim (Option-cases (find (λ user. opens hash now user row) users)) [
      | inl none_ ↦ inr (session_user-Opened hash now users rows user (ground arith))
      | inr (found, e) ↦ inl (
          find-Exists (λ user. opens hash now user row) (OpenedBy hash now user.id row) users found
            e
            (ground (
              arith,
              opens-OpenedBy hash now row found
                  (find-true (λ user. opens hash now user row) users found e),
            )))
    ]

-- What the reply of a login shows.
abbrev pub LoggedIn : Service → Request → List User → String → String → Reply → Type 0
LoggedIn service request users username password (session token expires user) =
    Exists (λ stored. stored ≡ user) users
    × (user.username ≡ username)
    × (user.active ≡ true)
    × (verify_password service.platform.crypto user.password_hash password ≡ true)
    × (request.random_token ≡ some token)
LoggedIn service request users username password (passed uid) = ⊥
LoggedIn service request users username password (me user) = ⊥
LoggedIn service request users username password _ = Unit

-- The reply to a store's answer is granted when that of each good answer is.
pub serve-cases :
    {A : Type 0} (P : Reply → Type 0) (rest : A → Handler) (r : Result A × AuthState)
    → P unavailable
    → ((a : A) (s : AuthState) → r ≡ (ok a, s) → P (rest a s).0)
    → P (after rest r).0
serve-cases P rest (err e, s) h f = h
serve-cases P rest (ok a, s) h f = f a s refl

session_reply :
    (P : Reply → Type 0) (b : Bool) (r : Reply)
    → P r
    → P unavailable
    → P (if b then r else unavailable)
session_reply P true r h k = h
session_reply P false r h k = k

open_session-LoggedIn :
    (service : Service) (request : Request) (users : List User) (username password : String)
    (user : User) (random : Option String) (s : AuthState)
    → request.random_token ≡ random
    → Exists (λ stored. stored ≡ user) users
    → user.username ≡ username
    → user.active ≡ true
    → verify_password service.platform.crypto user.password_hash password ≡ true
    → LoggedIn service request users username password
        (open_session service request user random s).0
unfolding open_session serve
open_session-LoggedIn service request users username password user none s r e n a v = tt
open_session-LoggedIn service request users username password user (some token) s r e n a v =
    let granted : LoggedIn service request users username password
        (session token (request.now + session_lifetime) user) =
      (e, n, a, v, r) in
    serve-cases (LoggedIn service request users username password)
      (λ created.
        reply
          (if created then session token (request.now + session_lifetime) user else unavailable))
      (create_session (service.platform.digest token) user (request.now + session_lifetime) s) tt
      (λ created s2 _.
        session_reply (LoggedIn service request users username password) created
          (session token (request.now + session_lifetime) user) granted tt)

pub handler_if :
    (P : Reply → Type 0) (b : Bool) (h k : Handler) (s : AuthState)
    → (b ≡ true → P (h s).0)
    → P (k s).0
    → P ((if b then h else k) s).0
handler_if P true h k s f g = f refl
handler_if P false h k s f g = g

admit-LoggedIn :
    (service : Service) (request : Request) (users : List User) (username password : String)
    (valid : Bool) (user : Option User) (s : AuthState)
    → find (is_user username) users ≡ user
    → verify_password service.platform.crypto (hash_of service user) password ≡ valid
    → LoggedIn service request users username password (admit service request valid user s).0
unfolding admit is_user
admit-LoggedIn service request users username password false user s h v = tt
admit-LoggedIn service request users username password true none s h v = tt
admit-LoggedIn service request users username password true (some user) s h v =
    handler_if (LoggedIn service request users username password) user.active
      (open_session service request user request.random_token) (reply unauthorized) s
      (λ active.
        open_session-LoggedIn service request users username password user request.random_token s
          refl (find-Exists (is_user username) (λ stored. stored ≡ user) users user h refl)
          (ground (arith, find-true (is_user username) users user h, eq_iff user.username username))
          active v)
      tt

either-reply :
    (P : Reply → Type 0) (b : Bool) (x y : Reply × AuthState)
    → P x.0
    → P y.0
    → P (if b then x else y).0
either-reply P true x y h k = h
either-reply P false x y h k = k

-- A lookup that succeeds has looked in the users.
found-find :
    (faults : List (Option String)) (username : String) (users : List User) (s t : AuthState)
    (found : Option User)
    → s.db.users ≡ users
    → (fault_in faults >>= λ _ u. (ok (find (is_user username) u.db.users), u)) s ≡ (ok found, t)
    → find (is_user username) users ≡ found
unfolding fault_in ◌>>=◌
found-find [] username users s t found h e = ground (arith, ap (find (is_user username)) h)
found-find (none ∷ rest) username users s t found h e =
    ground (arith, ap (find (is_user username)) h)
found-find (some text ∷ rest) username users s t found h e = ground arith

find_user-LoggedIn :
    (service : Service) (request : Request) (users : List User) (username password : String)
    (s : AuthState)
    → s.db.users ≡ users
    → LoggedIn service request users username password
        (serve (find_user username) (check_user service request password) s).0
unfolding find_user serve check_user auth_statement ◌>>=◌
find_user-LoggedIn service request users username password s h =
    serve-cases (LoggedIn service request users username password)
      (check_user service request password) (find_user username s) tt
      (λ found t e.
        admit-LoggedIn service request users username password
          (verify_password service.platform.crypto (hash_of service found) password) found t
          (found-find s.faults username users s t found h e) refl)

pub limited_login-LoggedIn :
    (service : Service) (request : Request) (username password : String) (s : AuthState)
    → LoggedIn service request s.db.users username password
        (limited_login service request username password s).0
unfolding limited_login allow_login count_attempt serve with_slot
limited_login-LoggedIn service request username password s =
    let P = LoggedIn service request s.db.users username password in
    serve-cases P
      (λ allowed.
        if allowed
        then with_slot (serve (find_user username) (check_user service request password))
        else reply (failed 429 "rate_limited"))
      (allow_login (ip_key service request) (user_key service username) s) tt
      (λ allowed t e.
        handler_if P allowed
          (with_slot (serve (find_user username) (check_user service request password)))
          (reply (failed 429 "rate_limited")) t
          (λ _.
            either-reply P (ltb t.busy 4) _ _
              (find_user-LoggedIn service request s.db.users username password
                (record t { busy = t.busy + 1 })
                (ap (λ r. r.1.db.users) (sym e)
                  ∙ transaction-cases (λ r. r.1.db.users ≡ s.db.users) 4 _ s
                      (λ e u d. ap (λ db. db.users) d) (λ u d c. ap (λ db. db.users) d)))
              tt)
          tt)
