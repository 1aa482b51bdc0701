-- ===== src/Auth/Store.antt =====
-- server/internal/infrastructure/persistence/postgres/auth.go over the tables of 002_auth.sql. Times
-- are counted in seconds. `auth.ErrInvalid` is `none` or `false`; any other error is an error.
use arran.Prelude.{
  ℕ, ◌+◌, String, Bool, true, false, ◌&&◌, not, Option, none, some, List, [], ◌∷◌, ◌==◌, eqb, ltb,
  leb, if◌then◌else◌, find, keep, any,
}
use arran.World.Monad.{Exec, Result, ok, err, failure, ◌>>=◌, ◌>>◌}

pub record User : Type 0 where
  pub id : ℕ
  pub username : String
  pub password_hash : String
  pub active : Bool

-- auth_sessions
pub record SessionRow : Type 0 where
  pub token_hash : String
  pub user_id : ℕ
  pub password_hash : String
  pub expires_at : ℕ

-- auth_attempts
pub record AttemptRow : Type 0 where
  pub key : String
  pub attempts : ℕ
  pub window_end : ℕ

pub record AuthDb : Type 0 where
  pub users : List User
  pub sessions : List SessionRow
  pub attempts : List AttemptRow

-- The tables, the coming failures of the database, the time and how many password checks run.
pub record AuthState : Type 0 where
  pub db : AuthDb
  pub faults : List (Option String)
  pub clock : ℕ
  pub busy : ℕ

abbrev pub AuthAction : Type 0 → Type 0
AuthAction A = Exec AuthState A

unfoldable pub fault_in : List (Option String) → AuthAction (Unit {0})
fault_in [] s = (ok tt, s)
fault_in (none ∷ rest) s = (ok tt, record s { faults = rest })
fault_in (some text ∷ rest) s = (err (failure text), record s { faults = rest })

-- A statement at the current time, which gives a result or the database's error; a failing one
-- changes nothing.
unfoldable pub auth_statement : {A : Type 0} → (ℕ → AuthDb → Result A × AuthDb) → AuthAction A
unfolding fault_in ◌>>=◌
auth_statement run = do
  λ s. fault_in s.faults s
  λ s. let (r, db) = run s.clock s.db in (r, record s { db = db })

-- `BEGIN`, the statements as one change of the tables, `COMMIT`: all of it or nothing.
unfoldable pub auth_transaction : {A : Type 0} → ℕ → (ℕ → AuthDb → Result A × AuthDb) → AuthAction A
unfolding fault_in auth_statement ◌>>=◌
auth_transaction ℕ.zero run = auth_statement run
auth_transaction (ℕ.suc calls) run = do λ s. fault_in s.faults s; auth_transaction calls run

unfoldable pub is_user : String → User → Bool
is_user username user = user.username == username

unfoldable pub find_user : String → AuthAction (Option User)
unfolding find is_user
find_user username = auth_statement (λ now db. (ok (find (is_user username) db.users), db))

-- `DELETE FROM auth_attempts WHERE window_end <= CURRENT_TIMESTAMP`
unfoldable pub live_attempts : ℕ → List AttemptRow → List AttemptRow
unfolding keep
live_attempts now rows = keep (λ row. ltb now row.window_end) rows

-- `INSERT … ON CONFLICT(key) DO UPDATE SET attempts = attempts + 1`
unfoldable pub add_attempt : String → ℕ → List AttemptRow → List AttemptRow
add_attempt key now [] = record { key = key; attempts = 1; window_end = now + 60 } ∷ []
add_attempt key now (row ∷ rows) =
    if row.key == key
    then record row { attempts = row.attempts + 1 } ∷ rows
    else row ∷ add_attempt key now rows

unfoldable pub attempts_of : String → List AttemptRow → ℕ
attempts_of key [] = 0
attempts_of key (row ∷ rows) = if row.key == key then row.attempts else attempts_of key rows

-- The attempts of an address and of a user after one more of each, and whether both are within
-- their limits of 20 and 5.
unfoldable pub count_attempt : String → String → ℕ → List AttemptRow → Bool × List AttemptRow
unfolding live_attempts add_attempt attempts_of
count_attempt ip username now rows =
    let one = add_attempt ip now (live_attempts now rows) in
    let two = add_attempt username now one in
    (leb (attempts_of ip one) 20 && leb (attempts_of username two) 5, two)

-- The transaction has five calls: begin, delete, two inserts and commit.
unfoldable pub allow_login : String → String → AuthAction Bool
unfolding auth_transaction count_attempt
allow_login ip username = auth_transaction 4 (λ now db.
    let (allowed, rows) = count_attempt ip username now db.attempts in
    (ok allowed, record db { attempts = rows }))

unfoldable pub same_credentials : User → User → Bool
same_credentials user row =
    eqb row.id user.id && row.password_hash == user.password_hash && row.active

unfoldable pub live_sessions : ℕ → List SessionRow → List SessionRow
unfolding keep
live_sessions now rows = keep (λ row. ltb now row.expires_at) rows

abbrev pub session_for : String → User → ℕ → SessionRow
session_for hash user expires = record {
  token_hash = hash;
  user_id = user.id;
  password_hash = user.password_hash;
  expires_at = expires;
}

-- The insertion of a session for the row that has the credentials. The token hash is the primary
-- key.
unfoldable pub insert_for :
    String → ℕ → List SessionRow → AuthDb → Option User → Result Bool × AuthDb
unfolding any
insert_for hash expires live db none = (ok false, db)
insert_for hash expires live db (some row) =
    if any (λ session. session.token_hash == hash) live
    then (err (failure "duplicate key value"), db)
    else (ok true, record db { sessions = session_for hash row expires ∷ live })

-- The insertion takes the user's row as it is now: with other credentials, or not active, there is
-- none, and nothing is committed.
unfoldable pub insert_session : String → User → ℕ → ℕ → AuthDb → Result Bool × AuthDb
unfolding same_credentials live_sessions find insert_for
insert_session hash user expires now db =
    insert_for hash expires (live_sessions now db.sessions) db
      (find (same_credentials user) db.users)

-- The commit: where it fails, the tables are as they were before the transaction.
abbrev pub commit_at : List (Option String) → AuthDb → AuthState → Result Bool × AuthState
commit_at [] before s = (ok true, s)
commit_at (none ∷ rest) before s = (ok true, record s { faults = rest })
commit_at (some text ∷ rest) before s =
    (err (failure text), record s { db = before; faults = rest })

-- The end of the transaction: it is committed where a session was inserted, and given up else.
abbrev pub end_session : AuthDb → Result Bool × AuthState → Result Bool × AuthState
end_session before (ok true, s) = commit_at s.faults before s
end_session before (ok false, s) = (ok false, s)
end_session before (err e, s) = (err e, s)

-- The transaction has three calls before the commit: begin, delete and insert.
unfoldable pub create_session : String → User → ℕ → AuthAction Bool
unfolding auth_transaction insert_session
create_session hash user expires s =
    end_session s.db (auth_transaction 2 (insert_session hash user expires) s)

-- The join of a session with its user: the session is not over, the user is active and has the
-- password of the session. The query takes the id and the name of the user, no more.
unfoldable pub opens : String → ℕ → User → SessionRow → Bool
opens hash now user row =
    row.token_hash == hash
    && eqb user.id row.user_id
    && ltb now row.expires_at
    && user.active
    && row.password_hash == user.password_hash

unfoldable pub session_user : String → ℕ → List User → List SessionRow → Option User
unfolding opens find
session_user hash now users [] = none
session_user hash now users (row ∷ rows) = elim (find (λ user. opens hash now user row) users) [
  | none ↦ session_user hash now users rows
  | some user ↦
      some (record { id = user.id; username = user.username; password_hash = ""; active = false })
]

unfoldable pub resolve_session : String → AuthAction (Option User)
unfolding session_user
resolve_session hash =
    auth_statement (λ now db. (ok (session_user hash now db.users db.sessions), db))

unfoldable pub delete_session : String → AuthAction (Unit {0})
unfolding keep
delete_session hash = auth_statement (λ now db.
    (ok tt, record db { sessions = keep (λ row. not (row.token_hash == hash)) db.sessions }))
