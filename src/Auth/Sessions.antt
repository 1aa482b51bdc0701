-- ===== src/Auth/Sessions.antt =====
-- Sessions of server/internal/auth/auth.go from the login to the logout.
use arran.Prelude.{
  ℕ, ◌<◌, ◌≡◌, refl, sym, ap, inl, inr, String, Bool, true, false, not, Option, none, some, List,
  [], ◌∷◌, ◌==◌, arith, keep, find, find-true, eq_refl, Bool-cases,
}
use mathlib.Core.Path.{subst}
use arran.Auth.Transaction.{fault-cases, transaction-cases}
use arran.World.Monad.{Result, ok, err}
use arran.Auth.Store.{
  User, SessionRow, AuthDb, AuthState, same_credentials, session_for, insert_session, insert_for,
  commit_at, end_session, create_session, resolve_session, delete_session, auth_statement, opens,
  session_user, live_sessions,
}

-- A test that the found element passes finds an element too.
find_again :
    (p q : User → Bool) (xs : List User) (x : User)
    → find p xs ≡ some x
    → q x ≡ true
    → (y : User) × (find q xs ≡ some y) × (q y ≡ true)
unfolding find
find_again p q [] x h k = ground arith
find_again p q (y ∷ xs) x h k = elim (Bool-cases (q y)) [
  | inl t ↦ (y, ground arith, t)
  | inr f ↦
      let (z, found, passed) = find_again p q xs x (ground arith) k in (z, ground arith, passed)
]

-- The session of a user with the credentials is open, to that id only.
opens-session_for :
    (hash : String) (user row : User) (expires later : ℕ)
    → same_credentials user row ≡ true
    → later < expires
    → (opens hash later row (session_for hash row expires) ≡ true) × (row.id ≡ user.id)
unfolding same_credentials opens
opens-session_for hash user row expires later h l =
    ground (arith, eq_refl hash, eq_refl row.password_hash)

opens-id :
    (hash : String) (later : ℕ) (user : User) (row : SessionRow)
    → opens hash later user row ≡ true
    → user.id ≡ row.user_id
unfolding opens
opens-id hash later user row h = ground arith

closed-find :
    (hash : String) (now : ℕ) (row : SessionRow) (users : List User)
    → (row.token_hash == hash) ≡ false
    → find (λ user. opens hash now user row) users ≡ none
unfolding find opens
closed-find hash now row [] h = refl
closed-find hash now row (user ∷ users) h = ground (arith, closed-find hash now row users h)

-- A token whose sessions are deleted finds none.
keep-session_user :
    (hash : String) (now : ℕ) (users : List User) (rows : List SessionRow)
    → session_user hash now users (keep (λ row. not (row.token_hash == hash)) rows) ≡ none
unfolding session_user keep
keep-session_user hash now users [] = refl
keep-session_user hash now users (row ∷ rows) =
    ground (arith, closed-find hash now row users, keep-session_user hash now users rows)

-- The user that a session opens, if there is one.
abbrev opened_id : Option User → Option ℕ
opened_id none = none
opened_id (some user) = some user.id

insert_for-session_user :
    (hash : String) (user : User) (expires later : ℕ) (live : List SessionRow) (db : AuthDb)
    (row : Option User)
    → find (same_credentials user) db.users ≡ row
    → (insert_for hash expires live db row).0 ≡ ok true
    → later < expires
    → opened_id (
        session_user hash later
          (insert_for hash expires live db row).1.users
          (insert_for hash expires live db row).1.sessions)
      ≡ some user.id
unfolding insert_for session_user
insert_for-session_user hash user expires later live db none e h l = ground arith
insert_for-session_user hash user expires later live db (some row) e h l =
    let (opened, same) =
      opens-session_for hash user row expires later
        (find-true (same_credentials user) db.users row e) l in
    let (found, at, passed) =
      find_again (same_credentials user) (λ u. opens hash later u (session_for hash row expires))
        db.users row e opened in
    ground (arith, at, same, opens-id hash later found (session_for hash row expires) passed)

-- What a lookup of a session answers, when the database does not fail.
abbrev pub Answers : Option ℕ → Result (Option User) × AuthState → Type 0
Answers id (ok user, t) = opened_id user ≡ id
Answers id (err e, t) = Unit

resolve_session-Answers :
    (hash : String) (id : Option ℕ) (s : AuthState)
    → opened_id (session_user hash s.clock s.db.users s.db.sessions) ≡ id
    → Answers id (resolve_session hash s)
unfolding resolve_session auth_statement
resolve_session-Answers hash id s h =
    fault-cases (Answers id) s.faults _ s (λ e t d. tt)
      (λ t d c.
        subst (λ db. opened_id (session_user hash t.clock db.users db.sessions) ≡ id) (sym d)
          (subst (λ x. opened_id (session_user hash x s.db.users s.db.sessions) ≡ id) (sym c) h))

commit_at-true :
    (Q : AuthDb → Type 0) (faults : List (Option String)) (before : AuthDb) (s : AuthState)
    → Q s.db
    → (commit_at faults before s).0 ≡ ok true
    → Q (commit_at faults before s).1.db
commit_at-true Q [] before s q e = q
commit_at-true Q (none ∷ rest) before s q e = q
commit_at-true Q (some text ∷ rest) before s q e = ground arith

-- A transaction that ends well has the tables of its statements.
end_session-true :
    (Q : AuthDb → Type 0) (before : AuthDb) (out : Result Bool × AuthState)
    → (out.0 ≡ ok true → Q out.1.db)
    → (end_session before out).0 ≡ ok true
    → Q (end_session before out).1.db
end_session-true Q before (ok true, s) q e = commit_at-true Q s.faults before s (q refl) e
end_session-true Q before (ok false, s) q e = ground arith
end_session-true Q before (err x, s) q e = ground arith

-- Once `CreateSession` has succeeded, a lookup of the token at any time before the expiry finds a
-- user with the id of the session's, or the database fails.
pub resolve_session-create_session :
    (hash : String) (user : User) (expires later : ℕ) (s t : AuthState)
    → create_session hash user expires s ≡ (ok true, t)
    → later < expires
    → Answers (some user.id) (resolve_session hash (record t { clock = later }))
unfolding create_session insert_session
resolve_session-create_session hash user expires later s t e l =
    resolve_session-Answers hash (some user.id) (record t { clock = later })
      (subst
        (λ x.
          x.0 ≡ ok true
          → opened_id (session_user hash later x.1.db.users x.1.db.sessions) ≡ some user.id)
        e
        (end_session-true
          (λ db. opened_id (session_user hash later db.users db.sessions) ≡ some user.id) s.db _
          (transaction-cases
            (λ x.
              x.0 ≡ ok true
              → opened_id (session_user hash later x.1.db.users x.1.db.sessions) ≡ some user.id)
            2 (insert_session hash user expires) s (λ e u d h. ground arith)
            (λ u d c h.
              insert_for-session_user hash user expires later (live_sessions u.clock u.db.sessions)
                u.db (find (same_credentials user) u.db.users) refl h l)))
        refl)

-- Once `DeleteSession` has succeeded, a lookup of the token at any time finds no user, or the
-- database fails.
pub resolve_session-delete_session :
    (hash : String) (later : ℕ) (s t : AuthState)
    → delete_session hash s ≡ (ok tt, t)
    → Answers none (resolve_session hash (record t { clock = later }))
unfolding delete_session auth_statement
resolve_session-delete_session hash later s t e =
    resolve_session-Answers hash none (record t { clock = later })
      (subst
        (λ x. x.0 ≡ ok tt → opened_id (session_user hash later x.1.db.users x.1.db.sessions) ≡ none)
        e
        (fault-cases
          (λ x.
            x.0 ≡ ok tt → opened_id (session_user hash later x.1.db.users x.1.db.sessions) ≡ none)
          s.faults _ s (λ e u d h. ground arith)
          (λ u d c h. ap opened_id (keep-session_user hash later u.db.users u.db.sessions)))
        refl)
