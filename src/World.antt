-- ===== src/World.antt =====
-- The state that a request reads and changes, and the actions over it: the PostgreSQL tables, the
-- import previews that the process holds, the clock and what the environment decides.
pub mod Monad
pub mod Tables
pub mod Keeps
use arran.Prelude.{
  ℕ, suc, ◌+◌, String, Bool, true, false, Option, none, some, List, [], ◌∷◌, if◌then◌else◌,
}
use arran.Domain.{Transaction, Moment}
use Monad.{Exec, Result, ok, err, failure, pure, raise, ◌>>=◌, ◌>>◌}
use Tables.{Db}

-- `cachedPreview` of application.go
pub record CachedPreview : Type 0 where
  pub user_id : ℕ
  pub transactions : List Transaction
  pub expires_at : ℕ

-- `faults` says of the coming database calls which fail, and with what text; after its end none
-- does. `tick` counts the readings of the clock and the calls of the outside.
pub record World : Type 0 where
  pub db : Db
  pub previews : List (String × CachedPreview)
  pub faults : List (Option String)
  pub tick : ℕ

-- What a request is handed: the user of its context (0 without one), and a clock and a source of
-- identifiers that may answer anything at each tick.
pub record Env : Type 0 where
  pub user_id : ℕ
  pub now : ℕ → Moment
  pub random_id : ℕ → String

abbrev pub Action : Type 0 → Type 0
Action A = Exec World A

unfoldable pub read_clock : Env → Action Moment
read_clock env w = (ok (env.now w.tick), record w { tick = suc w.tick })

-- Takes the outcome of the next database call from the list.
unfoldable pub consume : List (Option String) → Action (Unit {0})
consume [] w = (ok tt, w)
consume (none ∷ rest) w = (ok tt, record w { faults = rest })
consume (some text ∷ rest) w = (err (failure text), record w { faults = rest })

unfoldable pub next_fault : Action (Unit {0})
unfolding consume
next_fault w = consume w.faults w

abbrev pub on_db : {A : Type 0} → (Db → Result A × Db) → Action A
on_db run w = let (r, db) = run w.db in (r, record w { db = db })

-- One SQL statement: a failing one changes nothing.
unfoldable pub statement : {A : Type 0} → (Db → Result A × Db) → Action A
unfolding next_fault ◌>>=◌
statement run = do next_fault; on_db run

-- An SQL query, which only reads.
abbrev pub query : {A : Type 0} → (Db → Result A) → Action A
query read = statement (λ db. (read db, db))

-- An SQL statement with no result.
abbrev pub execute : (Db → Db) → Action (Unit {0})
execute change = statement (λ db. (ok tt, change db))

abbrev pub rollback : {A : Type 0} → Db → Result A × World → Result A × World
rollback db (ok a, w) = (ok a, w)
rollback db (err e, w) =
    (err e, record w { db = record db { next_transaction = w.db.next_transaction } })

-- `BeginTx`, the body, `Commit`; on any error the deferred `Rollback` restores the tables. PostgreSQL
-- does not take back the numbers that a sequence has given out, and of the sequences only that of
-- the transactions is used within a transaction.
unfoldable pub transaction : {A : Type 0} → Action A → Action A
unfolding next_fault ◌>>=◌
transaction body = do next_fault; λ w. rollback w.db ((do a ← body; next_fault; pure a) w)

-- A call of the outside (a model, the notifier): it may answer anything, and fail.
unfoldable pub call : {A : Type 0} → (ℕ → Result A) → Action A
call answer w = (answer w.tick, record w { tick = suc w.tick })
