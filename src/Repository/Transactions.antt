-- ===== src/Repository/Transactions.antt =====
-- The transactions, the merchant rules and the monthly dashboard of postgres/repository.go.
pub mod Dashboard
pub mod Import
use arran.Prelude.{
  ℕ, suc, ◌+◌, String, Bool, true, false, ◌&&◌, ◌||◌, not, Option, none, some, List, [], ◌∷◌, ◌++◌,
  ◌==◌, eqb, ltb, if◌then◌else◌, find, any, keep, take, update_where, map,
}
use arran.Prelude.Text.{str_lt, text_take}
use arran.Domain.{Transaction, ImportCommitResult}
use arran.World.{Action, Env, statement, query, execute, transaction, read_clock}
use arran.World.Tables.{Db, RuleRow}
use arran.World.Monad.{Result, ok, err, not_found, pure, raise, get, ◌>>=◌, ◌>>◌}

-- `UNIQUE (user_id, fingerprint)`
unfoldable pub has_fingerprint : ℕ → String → (ℕ × Transaction) → Bool
has_fingerprint uid fingerprint row = eqb row.0 uid && row.1.fingerprint == fingerprint

-- `INSERT INTO transactions … ON CONFLICT (user_id, fingerprint) DO NOTHING`: the tables, and
-- whether a row was affected. A refused row consumes its number of the sequence too.
unfoldable pub insert_row : ℕ → Transaction → Db → Db × Bool
unfolding has_fingerprint any
insert_row uid item db =
    let numbered = record db { next_transaction = suc db.next_transaction } in
    if any (has_fingerprint uid item.fingerprint) db.transactions then (numbered, false) else (
      record numbered {
        transactions = db.transactions ++ (uid, record item { id = db.next_transaction }) ∷ [];
      },
      true,
    )

unfoldable pub insert_transaction : ℕ → Transaction → Action Bool
unfolding insert_row
insert_transaction uid item =
    statement (λ db. let (db', affected) = insert_row uid item db in (ok affected, db'))

abbrev pub count_row : Bool → ImportCommitResult → ImportCommitResult
count_row true r = record r { imported_count = r.imported_count + 1 }
count_row false r = record r { duplicate_count = r.duplicate_count + 1 }

-- The loop of `ImportTransactions`.
unfoldable pub import_rows : ℕ → ImportCommitResult → List Transaction → Action ImportCommitResult
unfolding insert_transaction ◌>>=◌
import_rows uid result [] = pure result
import_rows uid result (item ∷ items) = do
  affected ← insert_transaction uid item
  import_rows uid (count_row affected result) items

abbrev pub no_rows : ImportCommitResult
no_rows = record { imported_count = 0; duplicate_count = 0 }

unfoldable pub import_transactions : ℕ → List Transaction → Action ImportCommitResult
unfolding import_rows
import_transactions uid items = transaction (import_rows uid no_rows items)

-- `ORDER BY transaction_date DESC, id DESC`
unfoldable pub newer : Transaction → Transaction → Bool
newer a b =
    str_lt b.transaction_date a.transaction_date
    || a.transaction_date == b.transaction_date && ltb b.id a.id

unfoldable pub insert_sorted : Transaction → List Transaction → List Transaction
unfolding newer
insert_sorted item [] = item ∷ []
insert_sorted item (x ∷ xs) = if newer x item then x ∷ insert_sorted item xs else item ∷ x ∷ xs

unfoldable pub sort_newest : List Transaction → List Transaction
unfolding insert_sorted
sort_newest [] = []
sort_newest (x ∷ xs) = insert_sorted x (sort_newest xs)

-- `user_id = :user_id`, and the month if one is given
unfoldable pub in_month : String → Transaction → Bool
in_month month item = month == "" || text_take 7 item.transaction_date == month

unfoldable pub owned {ℓ} : {A : Type ℓ} → ℕ → List (ℕ × A) → List A
owned uid [] = []
owned uid ((u, a) ∷ rows) = let rest = owned uid rows in if eqb u uid then a ∷ rest else rest

unfoldable pub list_transactions : ℕ → String → ℕ → Action (List Transaction)
unfolding in_month sort_newest owned keep take
list_transactions uid month limit =
    query (λ db. ok (take limit (sort_newest (keep (in_month month) (owned uid db.transactions)))))

unfoldable pub is_row : ℕ → ℕ → (ℕ × Transaction) → Bool
is_row uid id row = eqb row.0 uid && eqb row.1.id id

unfoldable pub get_transaction : ℕ → ℕ → Action Transaction
unfolding is_row find
get_transaction uid id = query (λ db. elim (find (is_row uid id) db.transactions) [
  | none ↦ err not_found
  | some row ↦ ok row.1
])

unfoldable pub set_category : ℕ → ℕ → String → Action Bool
unfolding is_row any update_where
set_category uid id category = statement (λ db. (
  ok (any (is_row uid id) db.transactions),
  record db {
    transactions =
        update_where (is_row uid id) (λ row. (row.0, record row.1 { category = category }))
          db.transactions;
  },
))

unfoldable pub is_rule : ℕ → String → RuleRow → Bool
is_rule uid merchant row = eqb row.user_id uid && row.normalized_merchant == merchant

-- `INSERT INTO merchant_rules … ON CONFLICT … DO UPDATE`
unfoldable pub upsert_rule : ℕ → String → String → String → List RuleRow → List RuleRow
unfolding is_rule
upsert_rule uid merchant category now [] =
    record { user_id = uid; normalized_merchant = merchant; category = category; updated_at = now }
    ∷ []
upsert_rule uid merchant category now (row ∷ rows) =
    if is_rule uid merchant row
    then record row { category = category; updated_at = now } ∷ rows
    else row ∷ upsert_rule uid merchant category now rows

unfoldable pub remember_merchant : Env → String → String → Action (Unit {0})
unfolding upsert_rule read_clock ◌>>=◌
remember_merchant env merchant category = do
  now ← read_clock env
  execute (λ db. record db {
    merchant_rules = upsert_rule env.user_id merchant category now.rfc3339 db.merchant_rules;
  })

-- The merchant rule is written after the category, in a statement of its own.
unfoldable pub remember_if : Bool → Env → String → Transaction → Action Transaction
unfolding remember_merchant ◌>>=◌
remember_if true env category item = do
  remember_merchant env item.normalized_merchant category
  pure item
remember_if false env category item = pure item

unfoldable pub update_transaction_category : Env → ℕ → String → Bool → Action Transaction
unfolding set_category get_transaction remember_if ◌>>=◌
update_transaction_category env id category remember = do
  affected ← set_category env.user_id id category
  if not affected
      then raise not_found
      else do item ← get_transaction env.user_id id; remember_if remember env category item

-- The rules of a user by merchant.
unfoldable pub rules_of : ℕ → List RuleRow → List (String × String)
rules_of uid [] = []
rules_of uid (row ∷ rows) =
    let rest = rules_of uid rows in
    if eqb row.user_id uid then (row.normalized_merchant, row.category) ∷ rest else rest

unfoldable pub merchant_rules : ℕ → Action (List (String × String))
unfolding rules_of
merchant_rules uid = query (λ db. ok (rules_of uid db.merchant_rules))
