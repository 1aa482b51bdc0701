-- ===== src/Repository/Usage/Actions.antt =====
-- The actions of the quota: what they leave in the table, fault or no fault.
use arran.Prelude.{ℕ, ◌≡◌, String, false, some, List, ◌∷◌, arith, any}
use arran.World.{World, statement, transaction}
use arran.World.Tables.{Db, UsageRow}
use arran.World.Monad.{Result, ok, err, not_found, failure}
use arran.Repository.Usage.{
  ConsultationUsage, count_in, upsert_usage, insert_usage, is_reserved,
  reserve_monthly_consultation, release_monthly_consultation,
}
use arran.Repository.Usage.Quota.{released}

-- What a reservation returns: the usage after it with the row written, or an error and the tables
-- as they were.
abbrev pub Reserved : ℕ → String → World → Result ConsultationUsage × World → Type 0
Reserved uid month w (ok usage, v) =
    (v.db ≡ record w.db { usage = upsert_usage uid month w.db.usage })
    × (usage.count ≡ count_in uid month (upsert_usage uid month w.db.usage))
    × (usage.month ≡ month)
Reserved uid month w (err e, v) = v.db ≡ w.db

pub reserve-Reserved :
    (uid : ℕ) (month : String) (w : World)
    → Reserved uid month w (reserve_monthly_consultation uid month w)
unfolding reserve_monthly_consultation transaction insert_usage statement
reserve-Reserved uid month w = ground arith

-- What a release leaves: the released rows, or the tables as they were and an error, which is
-- `not_found` if there was nothing to release; any other error is the database's failure of this
-- call.
abbrev pub Released : ℕ → String → World → Result (Unit {0}) × World → Type 0
Released uid month w (ok a, v) = v.db ≡ record w.db { usage = released uid month w.db.usage }
Released uid month w (err not_found, v) =
    (v.db ≡ w.db) × (any (is_reserved uid month) w.db.usage ≡ false)
Released uid month w (err (failure text), v) = (v.db ≡ w.db) × (w.faults ≡ some text ∷ v.faults)

pub release-Released :
    (uid : ℕ) (month : String) (w : World)
    → Released uid month w (release_monthly_consultation uid month w)
unfolding release_monthly_consultation statement
release-Released uid month w = ground arith

-- The rest of the tables is no matter to the quota.
abbrev pub HasUsage : List UsageRow → Db → Type 0
HasUsage rows db = db.usage ≡ rows
