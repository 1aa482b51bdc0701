-- ===== src/Repository/Transactions/Import.antt =====
-- `ImportTransactions` of postgres/repository.go.
pub mod Duplicates
use arran.Prelude.{
  ℕ, zero, suc, ◌+◌, ◌≤◌, ◌≡◌, refl, ◌⊎◌, inl, inr, ap, String, Bool, true, false, ◌&&◌, ◌||◌,
  Option, none, some, List, [], ◌∷◌, ◌++◌, ◌==◌, eqb, if◌then◌else◌, arith, any, length, All,
  eq_iff, eq_refl, eqb_refl, Bool-cases, not,
}
use mathlib.Core.Path.{subst}
use arran.Domain.{Transaction, ImportCommitResult}
use arran.World.{World, Action, statement, transaction, rollback, next_fault}
use arran.World.Tables.{Db}
use arran.World.Monad.{Result, ok, err, Error, failure, continue, pure, ◌>>=◌}
use arran.World.Keeps.{Keeps, Keeps-statement, Keeps-bind, db-next_fault, keeps_rules}
use arran.Repository.Transactions.{
  has_fingerprint, insert_row, insert_transaction, count_row, import_rows, no_rows,
  import_transactions,
}

abbrev pub Row : Type 0
Row = ℕ × Transaction

-- UNIQUE (user_id, fingerprint)
abbrev pub IsUnique : List Row → Type 0
IsUnique [] = Unit
IsUnique (row ∷ rows) = (any (has_fingerprint row.0 row.1.fingerprint) rows ≡ false) × IsUnique rows

any-append : (p : Row → Bool) (xs ys : List Row) → any p (xs ++ ys) ≡ (any p xs || any p ys)
unfolding any
any-append p [] ys = refl
any-append p (x ∷ xs) ys = ground (arith, any-append p xs ys)

has_fingerprint_sym :
    (u : ℕ) (f : String) (row : Row) (item : Transaction)
    → item.fingerprint ≡ f
    → has_fingerprint u f row ≡ has_fingerprint row.0 row.1.fingerprint (u, item)
unfolding has_fingerprint
has_fingerprint_sym u f row item e = ground (
  arith,
  eq_iff row.1.fingerprint f,
  eq_iff item.fingerprint row.1.fingerprint,
  eq_iff f row.1.fingerprint,
)

append_new-IsUnique :
    (rows : List Row) (u : ℕ) (item : Transaction)
    → IsUnique rows
    → any (has_fingerprint u item.fingerprint) rows ≡ false
    → IsUnique (rows ++ (u, item) ∷ [])
unfolding any
append_new-IsUnique [] u item h new = (refl, tt)
append_new-IsUnique (row ∷ rows) u item h new = (
  rw any-append (ground (arith, has_fingerprint_sym u item.fingerprint row item refl)),
  append_new-IsUnique rows u item h.1 (ground arith),
)

-- An insertion keeps the constraint.
pub insert_row-IsUnique :
    (uid : ℕ) (item : Transaction) (db : Db)
    → IsUnique db.transactions
    → IsUnique (insert_row uid item db).0.transactions
unfolding insert_row
insert_row-IsUnique uid item db h =
    elim (Bool-cases (any (has_fingerprint uid item.fingerprint) db.transactions)) [
      | inl known ↦ rw known h
      | inr new ↦
          rw new (
            append_new-IsUnique db.transactions uid (record item { id = db.next_transaction }) h
              new)
    ]

abbrev pub Unique : Db → Type 0
Unique db = IsUnique db.transactions

import_rows-Unique :
    (uid : ℕ) (result : ImportCommitResult) (items : List Transaction)
    → Keeps Unique (import_rows uid result items)
unfolding import_rows insert_transaction
import_rows-Unique uid result [] = search keeps_rules
import_rows-Unique uid result (item ∷ items) =
    Keeps-bind _ _ (Keeps-statement _ (insert_row-IsUnique uid item))
      (λ affected. import_rows-Unique uid (count_row affected result) items)

-- An import, whatever its outcome, keeps one transaction to a user and a fingerprint.
pub import_transactions-Unique :
    (uid : ℕ) (items : List Transaction) → Keeps Unique (import_transactions uid items)
unfolding import_transactions
import_transactions-Unique uid items = search (keeps_rules, import_rows-Unique)

-- What the rows of a successful import come to, with no database around them.
pub insert_all : ℕ → ImportCommitResult → List Transaction → Db → ImportCommitResult × Db
insert_all uid result [] db = (result, db)
insert_all uid result (item ∷ items) db =
    let (db', affected) = insert_row uid item db in
    insert_all uid (count_row affected result) items db'

abbrev Inserted : ℕ → Transaction → World → Result Bool × World → Type 0
Inserted uid item w (ok affected, v) =
    (affected ≡ (insert_row uid item w.db).1) × (v.db ≡ (insert_row uid item w.db).0)
Inserted uid item w (err e, v) = v.db ≡ w.db

insert_transaction-Inserted :
    (uid : ℕ) (item : Transaction) (w : World) → Inserted uid item w (insert_transaction uid item w)
unfolding insert_transaction statement
insert_transaction-Inserted uid item w = ground arith

-- An action that either comes to a result and tables that are known, or fails.
abbrev pub Comes : ImportCommitResult × Db → Result ImportCommitResult × World → Type 0
Comes expected (ok result, v) = (result ≡ expected.0) × (v.db ≡ expected.1)
Comes expected (err e, v) = Unit

next_row :
    (uid : ℕ) (item : Transaction) (items : List Transaction) (result : ImportCommitResult)
    (w : World) (out : Result Bool × World)
    → Inserted uid item w out
    → ((result : ImportCommitResult) (w : World)
        → Comes (insert_all uid result items w.db) (import_rows uid result items w))
    → Comes
        (insert_all uid result (item ∷ items) w.db)
        (continue out.0 (λ affected. import_rows uid (count_row affected result) items) out.1)
unfolding insert_all
next_row uid item items result w (ok affected, v) h rest =
    rw (← h.0, ← h.1) (rest (count_row affected result) v)
next_row uid item items result w (err e, v) h rest = tt

import_rows-Comes :
    (uid : ℕ) (items : List Transaction) (result : ImportCommitResult) (w : World)
    → Comes (insert_all uid result items w.db) (import_rows uid result items w)
unfolding import_rows insert_all
import_rows-Comes uid [] result w = (refl, refl)
import_rows-Comes uid (item ∷ items) result w =
    next_row uid item items result w (insert_transaction uid item w)
      (insert_transaction-Inserted uid item w) (import_rows-Comes uid items)

-- Either the expected result and tables, or an error and the tables as they were, but for the
-- sequence that numbers the transactions.
abbrev pub Atomic : ImportCommitResult × Db → Db → Result ImportCommitResult × World → Type 0
Atomic expected before (ok result, v) = (result ≡ expected.0) × (v.db ≡ expected.1)
Atomic expected before (err e, v) =
    v.db ≡ record before { next_transaction = v.db.next_transaction }

commit-Atomic :
    (expected : ImportCommitResult × Db) (before : Db) (out : Result ImportCommitResult × World)
    → Comes expected out
    → Atomic expected before
        (rollback before (continue out.0 (λ a. next_fault >>= λ _. pure a) out.1))
unfolding next_fault ◌>>=◌
commit-Atomic expected before (ok result, v) h = ground arith
commit-Atomic expected before (err e, v) h = refl

begin-Atomic :
    (uid : ℕ) (items : List Transaction) (w : World) (out : Result (Unit {0}) × World)
    → out.1.db ≡ w.db
    → Atomic (insert_all uid no_rows items w.db) w.db (
        continue out.0
          (λ _ v.
            rollback v.db ((import_rows uid no_rows items >>= λ a. next_fault >>= λ _. pure a) v))
          out.1)
unfolding ◌>>=◌
begin-Atomic uid items w (ok a, v) h =
    subst
      (λ db.
        Atomic (insert_all uid no_rows items db) db
          (rollback v.db ((import_rows uid no_rows items >>= λ a. next_fault >>= λ _. pure a) v)))
      h
      (commit-Atomic (insert_all uid no_rows items v.db) v.db (import_rows uid no_rows items v)
        (import_rows-Comes uid items no_rows v))
begin-Atomic uid items w (err e, v) h =
    λ i. record (h i) { next_transaction = v.db.next_transaction }

-- An import is atomic: it returns the counts of all its rows and leaves the tables with all of them
-- inserted, or it returns an error and leaves every row of the tables as it was; only the numbers
-- that the sequence of the transactions has given out are not taken back.
pub import_transactions-Atomic :
    (uid : ℕ) (items : List Transaction) (w : World)
    → Atomic (insert_all uid no_rows items w.db) w.db (import_transactions uid items w)
unfolding import_transactions transaction
import_transactions-Atomic uid items w = begin-Atomic uid items w (next_fault w) (db-next_fault w)
