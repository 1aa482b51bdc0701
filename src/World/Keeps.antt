-- ===== src/World/Keeps.antt =====
-- What actions keep true of the tables, whether they succeed or fail: a rule for each way to build
-- an action.
use arran.Prelude.{
  ℕ, String, ◌≡◌, refl, Bool, true, false, Option, none, some, List, [], ◌∷◌, if◌then◌else◌,
}
use arran.World.{
  World, Env, Action, read_clock, consume, next_fault, statement, query, rollback, transaction,
  call,
}
use arran.World.Tables.{Db}
use arran.World.Monad.{Error, Result, ok, err, pure, raise, lift, attempt, continue, ◌>>=◌}

pub record Keeps {A : Type 0} (P : Db → Type 0) (m : Action A) : Type 0 where
  pub at : (w : World) → P w.db → P (m w).1.db

module _ {A : Type 0} {P : Db → Type 0} where
  pub Keeps-pure : (a : A) → Keeps P (pure a)
  unfolding pure
  Keeps-pure a = record { at = λ w h. h }

  pub Keeps-raise : (e : Error) → Keeps {A = A} P (raise e)
  unfolding raise
  Keeps-raise e = record { at = λ w h. h }

  pub Keeps-lift : (r : Result A) → Keeps P (lift r)
  unfolding lift
  Keeps-lift r = record { at = λ w h. h }

  pub Keeps-call : (answer : ℕ → Result A) → Keeps P (call answer)
  unfolding call
  Keeps-call answer = record { at = λ w h. h }

  pub Keeps-if : (b : Bool) (m n : Action A) → Keeps P m → Keeps P n → Keeps P (if b then m else n)
  Keeps-if true m n km kn = km
  Keeps-if false m n km kn = kn

db-consume : (faults : List (Option String)) (w : World) → (consume faults w).1.db ≡ w.db
unfolding consume
db-consume [] w = refl
db-consume (none ∷ rest) w = refl
db-consume (some text ∷ rest) w = refl

pub db-next_fault : (w : World) → (next_fault w).1.db ≡ w.db
unfolding next_fault
db-next_fault w = db-consume w.faults w

rollback-Keeps :
    {A : Type 0} (P : Db → Type 0) (db : Db) (r : Result A) (w : World)
    → ((n : ℕ) → P (record db { next_transaction = n }))
    → P w.db
    → P (rollback db (r, w)).1.db
rollback-Keeps P db (ok a) w h k = k
rollback-Keeps P db (err e) w h k = h w.db.next_transaction

module _ {P : Db → Type 0} where
  pub Keeps-read_clock : (env : Env) → Keeps P (read_clock env)
  unfolding read_clock
  Keeps-read_clock env = record { at = λ w h. h }

  pub Keeps-next_fault : Keeps P next_fault
  unfolding next_fault
  Keeps-next_fault = record { at = λ w h. rw db-consume h }

module _ {A B : Type 0} {P : Db → Type 0} where
  continue-Keeps :
      (r : Result A) (f : A → Action B) (w : World)
      → ((a : A) → Keeps P (f a))
      → P w.db
      → P (continue r f w).1.db
  continue-Keeps (ok a) f w kf h = (kf a).at w h
  continue-Keeps (err e) f w kf h = h

  pub Keeps-bind :
      (m : Action A) (f : A → Action B) → Keeps P m → ((a : A) → Keeps P (f a)) → Keeps P (m >>= f)
  unfolding ◌>>=◌
  Keeps-bind m f km kf = record { at = λ w h. continue-Keeps (m w).0 f (m w).1 kf (km.at w h) }

  pub Keeps-attempt : (m : Action A) (n : Action B) → Keeps P m → Keeps P n → Keeps P (attempt m n)
  unfolding attempt
  Keeps-attempt m n km kn = record { at = λ w h. kn.at (m w).1 (km.at w h) }

module _ {A : Type 0} {P : Db → Type 0} where
  pub Keeps-statement :
      (run : Db → Result A × Db) → ((db : Db) → P db → P (run db).1) → Keeps P (statement run)
  unfolding statement
  Keeps-statement run h =
      Keeps-bind next_fault _ (Keeps-next_fault {P = P}) (λ _. record { at = λ w. h w.db })

  pub Keeps-query : (read : Db → Result A) → Keeps P (query read)
  Keeps-query read = Keeps-statement _ (λ db h. h)

  -- The rollback leaves the sequence of the transactions as it is.
  pub Keeps-transaction :
      (body : Action A)
      → ((db : Db) (n : ℕ) → P db → P (record db { next_transaction = n }))
      → Keeps P body
      → Keeps P (transaction body)
  unfolding transaction
  Keeps-transaction body kn kb = Keeps-bind next_fault _ (Keeps-next_fault {P = P}) (λ _. record {
    at = λ w h.
        rollback-Keeps P w.db _ _ (λ n. kn w.db n h)
          ((Keeps-bind body _ kb
              (λ a. Keeps-bind next_fault _ (Keeps-next_fault {P = P}) (λ _. Keeps-pure a))).at
            w h);
  })

pub ruleset keeps_rules = (
  Keeps-pure, Keeps-raise, Keeps-lift, Keeps-call, Keeps-if, Keeps-read_clock, Keeps-bind,
  Keeps-attempt, Keeps-query, Keeps-transaction,
)
