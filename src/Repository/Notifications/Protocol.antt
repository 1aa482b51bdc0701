-- ===== src/Repository/Notifications/Protocol.antt =====
-- The protocol of the monthly limit notification in postgres/repository.go: any number of requests
-- of a user and a month claim, notify and complete, in any order, among those of other users and
-- months, and the database may fail.
use arran.Prelude.{
  ℕ, suc, ◌+◌, ◌≤◌, ◌≡◌, refl, ◌⊎◌, inl, ap, sym, ◌∙◌, String, Bool, true, false, Option, none,
  some, arith, eq_iff,
}
use arran.World.{World}
use arran.World.Monad.{Result, ok, err, Error}
use arran.Repository.Notifications.{
  MonthlyLimitEvent, claim_monthly_limit_notification, complete_monthly_limit_notification,
}
use arran.Repository.Notifications.Status.{
  status_of, status, is_elsewhere, claim-status, complete-status, claim_elsewhere-status,
  complete_elsewhere-status,
}

-- The world, how many requests are between their claim and its completion, and how many
-- notifications were delivered.
pub record State : Type 0 where
  pub world : World
  pub holders : ℕ
  pub delivered : ℕ

-- A step of some request of the user in the month. A request that holds a claim completes it, with
-- the error of the notifier if there was one; its completion may be lost to the database, and it
-- may die. Meanwhile requests of other users and months claim and complete as they like; the rest of
-- the server writes nothing of the table.
pub data Step (uid : ℕ) (month : String) : State → State → Type 0 where
  claim :
      {s : State} (event : MonthlyLimitEvent) (w : World)
      → event.month ≡ month
      → claim_monthly_limit_notification uid event s.world ≡ (ok true, w)
      → Step uid month s (record s { world = w; holders = suc s.holders })
  refused :
      {s : State} (event : MonthlyLimitEvent) (w : World)
      → event.month ≡ month
      → claim_monthly_limit_notification uid event s.world ≡ (ok false, w)
      → Step uid month s (record s { world = w })
  claim_lost :
      {s : State} (event : MonthlyLimitEvent) (w : World) (e : Error)
      → event.month ≡ month
      → claim_monthly_limit_notification uid event s.world ≡ (err e, w)
      → Step uid month s (record s { world = w })
  deliver :
      {s : State} (event : MonthlyLimitEvent) (w : World) (h : ℕ) (r : Result (Unit {0}))
      → event.month ≡ month
      → s.holders ≡ suc h
      → complete_monthly_limit_notification uid event none s.world ≡ (r, w)
      → Step uid month s (record s { world = w; holders = h; delivered = suc s.delivered })
  fail :
      {s : State} (event : MonthlyLimitEvent) (w : World) (h : ℕ) (text : String)
      (r : Result (Unit {0}))
      → event.month ≡ month
      → s.holders ≡ suc h
      → complete_monthly_limit_notification uid event (some text) s.world ≡ (r, w)
      → Step uid month s (record s { world = w; holders = h })
  die : {s : State} (h : ℕ) → s.holders ≡ suc h → Step uid month s (record s { holders = h })
  claim_elsewhere :
      {s : State} (u : ℕ) (event : MonthlyLimitEvent) (w : World) (r : Result Bool)
      → is_elsewhere u event.month uid month ≡ true
      → claim_monthly_limit_notification u event s.world ≡ (r, w)
      → Step uid month s (record s { world = w })
  complete_elsewhere :
      {s : State} (u : ℕ) (event : MonthlyLimitEvent) (error : Option String) (w : World)
      (r : Result (Unit {0}))
      → is_elsewhere u event.month uid month ≡ true
      → complete_monthly_limit_notification u event error s.world ≡ (r, w)
      → Step uid month s (record s { world = w })
  other :
      {s : State} (w : World)
      → w.db.notifications ≡ s.world.db.notifications
      → Step uid month s (record s { world = w })

pub data Reach (uid : ℕ) (month : String) (s : State) : State → Type 0 where
  here : Reach uid month s s
  next : {t u : State} → Reach uid month s t → Step uid month t u → Reach uid month s u

-- The status, the holders and the deliveries that go together.
abbrev Consistent : Option String → ℕ → ℕ → Type 0
Consistent st holders delivered =
    (((st ≡ none) ⊎ (st ≡ some "failed")) × (holders ≡ 0) × (delivered ≡ 0))
    ⊎ (((st ≡ some "sending") × (holders + delivered ≤ 1))
        ⊎ ((st ≡ some "delivered") × (holders ≡ 0) × (delivered ≤ 1)))

abbrev Inv : ℕ → String → State → Type 0
Inv uid month s = Consistent (status uid month s.world) s.holders s.delivered

Step-Inv :
    {uid : ℕ} {month : String} {s t : State}
    → Step uid month s t
    → Inv uid month s
    → Inv uid month t
Step-Inv {uid} {month} {s} (claim event w e p) i =
    let c = claim-status uid event e s.world w (ok true) p in
    ground (arith, eq_iff "sending" "failed", eq_iff "delivered" "failed")
Step-Inv {uid} {month} {s} (refused event w e p) i =
    let c = claim-status uid event e s.world w (ok false) p in ground arith
Step-Inv {uid} {month} {s} (claim_lost event w x e p) i =
    rw (claim-status uid event e s.world w (err x) p) i
Step-Inv {uid} {month} {s} (deliver event w h r e p q) i =
    let c = complete-status uid event e none s.world w r q in ground arith
Step-Inv {uid} {month} {s} (fail event w h text r e p q) i =
    let c = complete-status uid event e (some text) s.world w r q in ground arith
Step-Inv (die h p) i = ground arith
Step-Inv {uid} {month} {s} (claim_elsewhere u event w r h p) i =
    rw
      (ap (λ out. status uid month out.1) (sym p)
        ∙ claim_elsewhere-status uid month u event s.world h)
      i
Step-Inv {uid} {month} {s} (complete_elsewhere u event error w r h p) i =
    rw
      (ap (λ out. status uid month out.1) (sym p)
        ∙ complete_elsewhere-status uid month u event error s.world h)
      i
Step-Inv {uid} {month} (other w p) i = rw (ap (status_of uid month) p) i

Reach-Inv :
    {uid : ℕ} {month : String} {s t : State}
    → Inv uid month s
    → Reach uid month s t
    → Inv uid month t
Reach-Inv i here = i
Reach-Inv i (next r st) = Step-Inv st (Reach-Inv i r)

-- In every interleaving of requests, of all users and months, that begins without a row of a user
-- and a month: at most one request of theirs at a time is between its claim and its completion, and
-- the administrator is notified of them successfully at most once, whatever calls of the database
-- fail and whichever requests die.
pub Reach_at_most_once :
    {uid : ℕ} {month : String} (w : World) {t : State}
    → status uid month w ≡ none
    → Reach uid month (record { world = w; holders = 0; delivered = 0 }) t
    → (t.holders ≤ 1) × (t.delivered ≤ 1)
Reach_at_most_once w fresh r = let i = Reach-Inv (inl (inl fresh, refl, refl)) r in ground arith
