-- ===== src/Auth/Transaction.antt =====
-- Transactions of server/internal/infrastructure/persistence/postgres/auth.go that may fail at any call.
use arran.Prelude.{ℕ, zero, suc, ◌≡◌, refl, ◌∙◌, String, Option, none, some, List, [], ◌∷◌}
use arran.World.Monad.{Result, err, Error, failure, ◌>>=◌}
use arran.Auth.Store.{AuthDb, AuthState, AuthAction, fault_in, auth_statement, auth_transaction}

-- A call after a possible failure of the database.
pub fault-cases :
    {A : Type 0} (P : Result A × AuthState → Type 0) (faults : List (Option String))
    (m : AuthAction A) (s : AuthState)
    → ((e : Error) (t : AuthState) → t.db ≡ s.db → P (err e, t))
    → ((t : AuthState) → t.db ≡ s.db → t.clock ≡ s.clock → P (m t))
    → P ((fault_in faults >>= λ _. m) s)
unfolding fault_in ◌>>=◌
fault-cases P [] m s failed done = done s refl refl
fault-cases P (none ∷ rest) m s failed done = done (record s { faults = rest }) refl refl
fault-cases P (some text ∷ rest) m s failed done =
    failed (failure text) (record s { faults = rest }) refl

-- A transaction fails and changes nothing, or makes its change.
pub transaction-cases :
    {A : Type 0} (P : Result A × AuthState → Type 0) (calls : ℕ)
    (run : ℕ → AuthDb → Result A × AuthDb) (s : AuthState)
    → ((e : Error) (t : AuthState) → t.db ≡ s.db → P (err e, t))
    → ((t : AuthState)
        → t.db ≡ s.db
        → t.clock ≡ s.clock
        → P ((run t.clock t.db).0, record t { db = (run t.clock t.db).1 }))
    → P (auth_transaction calls run s)
unfolding auth_transaction auth_statement ◌>>=◌
transaction-cases P zero run s failed done =
    fault-cases P s.faults (λ t. ((run t.clock t.db).0, record t { db = (run t.clock t.db).1 })) s
      failed done
transaction-cases P (suc n) run s failed done =
    fault-cases P s.faults (auth_transaction n run) s failed (λ t d c.
      transaction-cases P n run t (λ e u h. failed e u (h ∙ d)) (λ u h k. done u (h ∙ d) (k ∙ c)))
