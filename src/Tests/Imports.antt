-- ===== src/Tests/Imports.antt =====
-- The import on concrete rows.
use arran.Prelude.{◌≡◌, refl, ◌+◌, List, [], ◌∷◌, length, All, true}
use arran.World.{World, statement, transaction}
use arran.World.Keeps.{Keeps}
use arran.World.Monad.{ok}
use arran.Domain.{Transaction, ImportCommitResult}
use arran.Repository.Transactions.{no_rows, owned, import_transactions}
use arran.Repository.Transactions.Import.{
  Atomic, Unique, insert_all, import_transactions-Atomic, import_transactions-Unique,
}
use arran.Repository.Transactions.Import.Duplicates.{
  known, import_transactions_counts, import_transactions_twice,
}
use arran.Tests.{world, coffee, rent}

-- The first transaction stands twice in the file.
abbrev items : List Transaction
items = coffee ∷ rent ∷ coffee ∷ []

abbrev stored : World
stored = record world {
  db = record world.db {
    transactions = (7, record coffee { id = 1 }) ∷ (7, record rent { id = 2 }) ∷ [];
    next_transaction = 4;
  };
}

abbrev counted : ImportCommitResult
counted = record { imported_count = 2; duplicate_count = 1 }

abbrev again : World
again = record stored { db = record stored.db { next_transaction = 7 } }

abbrev recounted : ImportCommitResult
recounted = record { imported_count = 0; duplicate_count = 3 }

first_import : import_transactions 7 items world ≡ (ok counted, stored)
unfolding import_transactions transaction statement
first_import = refl

second_import : import_transactions 7 items stored ≡ (ok recounted, again)
unfolding import_transactions transaction statement
second_import = refl

import_transactions-Atomic_example :
    Atomic (insert_all 7 no_rows items world.db) world.db (import_transactions 7 items world)
import_transactions-Atomic_example = import_transactions-Atomic 7 items world

import_transactions-Unique_example : Keeps Unique (import_transactions 7 items)
import_transactions-Unique_example = import_transactions-Unique 7 items

import_transactions_counts_example :
    (counted.imported_count + counted.duplicate_count ≡ length items)
    × (length stored.db.transactions ≡ length world.db.transactions + counted.imported_count)
    × All (λ item. known 7 stored.db item ≡ true) items
    × (owned 8 stored.db.transactions ≡ owned 8 world.db.transactions)
import_transactions_counts_example =
    import_transactions_counts 7 8 items world stored counted first_import refl

import_transactions_twice_example :
    (recounted.imported_count ≡ 0)
    × (recounted.duplicate_count ≡ length items)
    × (again.db.transactions ≡ stored.db.transactions)
import_transactions_twice_example =
    import_transactions_twice 7 items world stored again counted recounted first_import
      second_import
