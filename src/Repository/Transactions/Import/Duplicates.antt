-- ===== src/Repository/Transactions/Import/Duplicates.antt =====
-- The counts of an import of postgres/repository.go, and what it takes for a duplicate.
use arran.Prelude.{
  ℕ, suc, ◌+◌, ◌≡◌, refl, inl, inr, Bool, true, false, List, [], ◌∷◌, ◌++◌, eqb, arith, any, length,
  length-append, All, eq_refl, Bool-cases,
}
use mathlib.Core.Path.{subst, ◌∙◌}
use mathlib.Core.List.{append-nil}
use arran.Domain.{Transaction, ImportCommitResult}
use arran.World.{World}
use arran.World.Tables.{Db}
use arran.World.Monad.{ok}
use arran.Repository.Transactions.{
  has_fingerprint, insert_row, count_row, no_rows, import_transactions, owned,
}
use arran.Repository.Transactions.Import.{
  Row, any-append, insert_all, Atomic, import_transactions-Atomic,
}

-- Whether a user has a transaction with the fingerprint of the item.
abbrev pub known : ℕ → Db → Transaction → Bool
known uid db item = any (has_fingerprint uid item.fingerprint) db.transactions

has_fingerprint_self :
    (uid : ℕ) (item : Transaction) (n : ℕ)
    → has_fingerprint uid item.fingerprint (uid, record item { id = n }) ≡ true
unfolding has_fingerprint
has_fingerprint_self uid item n = ground (arith, eq_refl item.fingerprint)

known-insert_row :
    (uid : ℕ) (item other : Transaction) (db : Db)
    → known uid db other ≡ true
    → known uid (insert_row uid item db).0 other ≡ true
unfolding insert_row
known-insert_row uid item other db h = elim (Bool-cases (known uid db item)) [
  | inl old ↦ rw old h
  | inr new ↦ rw new (rw any-append (ground arith))
]

known-insert_row_self :
    (uid : ℕ) (item : Transaction) (db : Db) → known uid (insert_row uid item db).0 item ≡ true
unfolding insert_row any
known-insert_row_self uid item db = elim (Bool-cases (known uid db item)) [
  | inl old ↦ rw old old
  | inr new ↦
      rw new (rw any-append (ground (arith, has_fingerprint_self uid item db.next_transaction)))
]

known-insert_all :
    (uid : ℕ) (result : ImportCommitResult) (items : List Transaction) (db : Db)
    (other : Transaction)
    → known uid db other ≡ true
    → known uid (insert_all uid result items db).1 other ≡ true
unfolding insert_all
known-insert_all uid result [] db other h = h
known-insert_all uid result (item ∷ items) db other h =
    known-insert_all uid (count_row (insert_row uid item db).1 result) items
      (insert_row uid item db).0 other (known-insert_row uid item other db h)

-- After an import every item is known.
insert_all-All :
    (uid : ℕ) (result : ImportCommitResult) (items : List Transaction) (db : Db)
    → All (λ item. known uid (insert_all uid result items db).1 item ≡ true) items
unfolding insert_all
insert_all-All uid result [] db = tt
insert_all-All uid result (item ∷ items) db =
    let db' = (insert_row uid item db).0 in
    let result' = count_row (insert_row uid item db).1 result in
    (
      known-insert_all uid result' items db' item (known-insert_row_self uid item db),
      insert_all-All uid result' items db',
    )

-- The tables with the next number of the sequence taken.
abbrev numbered : Db → Db
numbered db = record db { next_transaction = suc db.next_transaction }

abbrev new_row : ℕ → Transaction → Db → List Row
new_row uid item db = (uid, record item { id = db.next_transaction }) ∷ []

-- The tables with the item appended under that number.
abbrev appended : ℕ → Transaction → Db → Db
appended uid item db = record (numbered db) {
  transactions = db.transactions ++ new_row uid item db;
}

insert_row_old :
    (uid : ℕ) (item : Transaction) (db : Db)
    → known uid db item ≡ true
    → insert_row uid item db ≡ (numbered db, false)
unfolding insert_row
insert_row_old uid item db h = rw h refl

insert_row_new :
    (uid : ℕ) (item : Transaction) (db : Db)
    → known uid db item ≡ false
    → insert_row uid item db ≡ (appended uid item db, true)
unfolding insert_row
insert_row_new uid item db h = rw h refl

-- Items that are known change nothing but the sequence, and count as duplicates.
abbrev Duplicated : ImportCommitResult → ℕ → Db → ImportCommitResult × Db → Type 0
Duplicated result n db out =
    (out.1.transactions ≡ db.transactions)
    × (out.0.imported_count ≡ result.imported_count)
    × (out.0.duplicate_count ≡ result.duplicate_count + n)

insert_all-Duplicated :
    (uid : ℕ) (result : ImportCommitResult) (items : List Transaction) (db : Db)
    → All (λ item. known uid db item ≡ true) items
    → Duplicated result (length items) db (insert_all uid result items db)
unfolding insert_all
insert_all-Duplicated uid result [] db h = (refl, refl, omega arith)
insert_all-Duplicated uid result (item ∷ items) db h =
    let (t, i, d) = insert_all-Duplicated uid (count_row false result) items (numbered db) h.1 in
    rw (insert_all, insert_row_old uid item db h.0) (t, i, omega (arith, d))

-- Every item counts once, and the table grows by what counts as imported.
abbrev pub Counted : ImportCommitResult → ℕ → Db → ImportCommitResult × Db → Type 0
Counted result n db out =
    (out.0.imported_count + out.0.duplicate_count
      ≡ result.imported_count + result.duplicate_count + n)
    × (length out.1.transactions + result.imported_count
        ≡ length db.transactions + out.0.imported_count)

insert_all-Counted :
    (uid : ℕ) (result : ImportCommitResult) (items : List Transaction) (db : Db)
    → Counted result (length items) db (insert_all uid result items db)
unfolding insert_all
insert_all-Counted uid result [] db = (omega arith, refl)
insert_all-Counted uid result (item ∷ items) db = elim (Bool-cases (known uid db item)) [
  | inl old ↦
      let (c, l) = insert_all-Counted uid (count_row false result) items (numbered db) in
      rw (insert_all, insert_row_old uid item db old) (omega (arith, c), omega (arith, l))
  | inr new ↦
      let (c, l) = insert_all-Counted uid (count_row true result) items (appended uid item db) in
      rw (insert_all, insert_row_new uid item db new)
        (omega (arith, c), omega (arith, l, length-append db.transactions (new_row uid item db)))
]

owned-append : (v : ℕ) (xs ys : List Row) → owned v (xs ++ ys) ≡ owned v xs ++ owned v ys
unfolding owned
owned-append v [] ys = refl
owned-append v ((u, a) ∷ xs) ys = ground (arith, owned-append v xs ys)

owned-insert_all :
    (v uid : ℕ) (result : ImportCommitResult) (items : List Transaction) (db : Db)
    → eqb uid v ≡ false
    → owned v (insert_all uid result items db).1.transactions ≡ owned v db.transactions
unfolding insert_all owned
owned-insert_all v uid result [] db h = refl
owned-insert_all v uid result (item ∷ items) db h = elim (Bool-cases (known uid db item)) [
  | inl old ↦
      rw (insert_all, insert_row_old uid item db old)
        (owned-insert_all v uid (count_row false result) items (numbered db) h)
  | inr new ↦
      rw (insert_all, insert_row_new uid item db new)
        (owned-insert_all v uid (count_row true result) items (appended uid item db) h
          ∙ (owned-append v db.transactions (new_row uid item db)
              ∙ rw h (append-nil (owned v db.transactions))))
]

-- A successful import counts every item once, as imported or as a duplicate; the table grows by as
-- many rows as count as imported; every item's fingerprint is then known for the user; and what
-- any other user owns is as before.
pub import_transactions_counts :
    (uid v : ℕ) (items : List Transaction) (w w' : World) (result : ImportCommitResult)
    → import_transactions uid items w ≡ (ok result, w')
    → eqb uid v ≡ false
    → (result.imported_count + result.duplicate_count ≡ length items)
      × (length w'.db.transactions ≡ length w.db.transactions + result.imported_count)
      × All (λ item. known uid w'.db item ≡ true) items
      × (owned v w'.db.transactions ≡ owned v w.db.transactions)
import_transactions_counts uid v items w w' result h other =
    let done =
      subst (Atomic (insert_all uid no_rows items w.db) w.db) h
        (import_transactions-Atomic uid items w) in
    let (c, l) = insert_all-Counted uid no_rows items w.db in
    (
      rw done.0 (omega (arith, c)),
      rw (done.0, done.1) (omega (arith, l)),
      rw done.1 (insert_all-All uid no_rows items w.db),
      rw done.1 (owned-insert_all v uid no_rows items w.db other),
    )

-- Importing the same items again, after an import that succeeded, adds nothing: if the second import
-- succeeds too, it counts every item as a duplicate and leaves the transactions as they are.
pub import_transactions_twice :
    (uid : ℕ) (items : List Transaction) (w w' w'' : World) (first second : ImportCommitResult)
    → import_transactions uid items w ≡ (ok first, w')
    → import_transactions uid items w' ≡ (ok second, w'')
    → (second.imported_count ≡ 0)
      × (second.duplicate_count ≡ length items)
      × (w''.db.transactions ≡ w'.db.transactions)
import_transactions_twice uid items w w' w'' first second h k =
    let one =
      subst (Atomic (insert_all uid no_rows items w.db) w.db) h
        (import_transactions-Atomic uid items w) in
    let two =
      subst (Atomic (insert_all uid no_rows items w'.db) w'.db) k
        (import_transactions-Atomic uid items w') in
    let (t, i, d) =
      insert_all-Duplicated uid no_rows items w'.db
        (rw one.1 (insert_all-All uid no_rows items w.db)) in
    (rw two.0 i, rw two.0 (omega (arith, d)), rw two.1 t)
