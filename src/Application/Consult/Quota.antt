-- ===== src/Application/Consult/Quota.antt =====
-- The monthly quota across `StartConsultation` of application.go.
use arran.Prelude.{
  ℕ, suc, ◌≡◌, refl, ◌⊎◌, inl, inr, ap, String, Bool, true, false, Option, none, some, List, ◌∷◌,
  if◌then◌else◌, arith, any, Option-cases, eq_refl,
}
use arran.Prelude.Text.{trim_space}
use arran.Prelude.Int.{ℤ}
use arran.Domain.{Consultation, AdviceDraft}
use arran.World.{World, Env, read_clock}
use arran.World.Tables.{UsageRow}
use arran.World.Monad.{Result, ok, err, Error, not_found, failure, continue}
use arran.World.Keeps.{Keeps}
use arran.Repository.Usage.{
  ConsultationUsage, count_in, upsert_usage, is_reserved, reserve_monthly_consultation,
  release_monthly_consultation,
}
use arran.Repository.Usage.Quota.{
  IsKeyed, same_key, count_in-upsert_usage, upsert_usage-IsKeyed, any-is_reserved,
  released-upsert_usage,
}
use arran.Repository.Usage.Actions.{
  Reserved, reserve-Reserved, Released, release-Released, HasUsage,
}
use arran.Repository.Notifications.{MonthlyLimitEvent}
use arran.Repository.Frame.{usage_frame}
use arran.Application.{Services}
use arran.Application.Consult.{
  build_consultation_context, notify_claimed, notify_through, notify_monthly_limit, after_creation,
  advise, release_on_error, consult_in_month, start_consultation, validate_start,
}

module _ (rows : List UsageRow) where
  build_consultation_context-HasUsage :
      (env : Env) → Keeps (HasUsage rows) (build_consultation_context env)
  unfolding build_consultation_context
  build_consultation_context-HasUsage env = search usage_frame depth 16

  notify_claimed-HasUsage :
      (env : Env) (notify : ℕ → MonthlyLimitEvent → Option String) (event : MonthlyLimitEvent)
      (claimed : Bool)
      → Keeps (HasUsage rows) (notify_claimed env notify event claimed)
  unfolding notify_claimed
  notify_claimed-HasUsage env notify event true = search usage_frame
  notify_claimed-HasUsage env notify event false = search usage_frame

  notify_through-HasUsage :
      (notifier : Option (ℕ → MonthlyLimitEvent → Option String)) (services : Services) (env : Env)
      (usage : ConsultationUsage)
      → Keeps (HasUsage rows) (notify_through notifier services env usage)
  unfolding notify_through
  notify_through-HasUsage none services env usage = search usage_frame
  notify_through-HasUsage (some notify) services env usage =
      search (usage_frame, notify_claimed-HasUsage)

  after_creation-HasUsage :
      (services : Services) (env : Env) (usage : ConsultationUsage) (message : String)
      (draft : AdviceDraft) (created : Consultation)
      → Keeps (HasUsage rows) (after_creation services env usage message draft created)
  unfolding after_creation notify_monthly_limit
  after_creation-HasUsage services env usage message draft created =
      search (usage_frame, notify_through-HasUsage)

  advise-HasUsage :
      (services : Services) (env : Env) (usage : ConsultationUsage) (message : String)
      (planned : Option ℤ)
      → Keeps (HasUsage rows) (advise services env usage message planned)
  unfolding advise
  advise-HasUsage services env usage message planned =
      search (usage_frame, build_consultation_context-HasUsage, after_creation-HasUsage) depth 16

-- The count of a user and a month after a reservation for another pair, or the same.
abbrev pub reserved_count : ℕ → String → ℕ → String → ℕ → ℕ
reserved_count u m uid month before = if same_key u m uid month then suc before else before

abbrev pub used : ℕ → String → World → ℕ
used u m w = count_in u m w.db.usage

-- The database failed the call that comes after the body of a request has failed: its reservation
-- was made, the body ended with the error, and the next call of the database, which is all that the
-- final world has used up since, failed.
pub record Unreleased (services : Services) (env : Env) (message : String) (planned : Option ℤ)
    (month : String) (w : World) (final : Result Consultation × World) : Type 0 where
  pub usage : ConsultationUsage
  pub reserved : World
  pub ended : World
  pub error : Error
  pub text : String
  pub reservation : reserve_monthly_consultation env.user_id month w ≡ (ok usage, reserved)
  pub body : advise services env usage message planned reserved ≡ (err error, ended)
  pub failing : ended.faults ≡ some text ∷ final.1.faults
  pub outcome : final.0 ≡ err error

-- How a request that reserves may end, for the count of the user `u` in the month `m`: a success
-- counts; an error leaves the count as it was, or the reservation stays, as the database failed the
-- release.
abbrev pub Settled :
    ℕ
    → String
    → Services
    → Env
    → String
    → Option ℤ
    → String
    → World
    → Result Consultation × World
    → Type 0
Settled u m services env message planned month w final =
    ((a : Consultation) × (final.0 ≡ ok a)
      × (used u m final.1 ≡ reserved_count u m env.user_id month (used u m w)))
    ⊎ (((e : Error) × (final.0 ≡ err e) × (used u m final.1 ≡ used u m w))
        ⊎ (Unreleased services env message planned month w final
            × (used u m final.1 ≡ reserved_count u m env.user_id month (used u m w))))

reserved_self :
    (uid : ℕ) (month : String) (rows : List UsageRow)
    → IsKeyed rows
    → any (is_reserved uid month) (upsert_usage uid month rows) ≡ true
reserved_self uid month rows h =
    rw
      (any-is_reserved uid month (upsert_usage uid month rows)
        (upsert_usage-IsKeyed uid month rows h))
      (ground (arith, count_in-upsert_usage uid month uid month rows, eq_refl month))

module _ (services : Services) (env : Env) (message : String) (planned : Option ℤ) (u : ℕ)
    (m : String) where
  module _ (month : String) (w v : World) (usage : ConsultationUsage) (keyed : IsKeyed w.db.usage)
      (reservation : reserve_monthly_consultation env.user_id month w ≡ (ok usage, v)) where
    settle-Released :
        (e : Error) (ended : World) (out : Result (Unit {0}) × World)
        → ended.db.usage ≡ upsert_usage env.user_id month w.db.usage
        → advise services env usage message planned v ≡ (err e, ended)
        → Released env.user_id month ended out
        → Settled u m services env message planned month w (err e, out.1)
    settle-Released e ended (ok a, final) h p r =
        inr (
          inl (e, refl, rw r (rw h (released-upsert_usage u m env.user_id month w.db.usage keyed))))
    settle-Released e ended (err not_found, final) h p r = absurd (
        cc (
          r.1,
          ap (any (is_reserved env.user_id month)) h,
          reserved_self env.user_id month w.db.usage keyed,
        ))
    settle-Released e ended (err (failure text), final) h p r = inr (
        inr (
          record {
            usage = usage;
            reserved = v;
            ended = ended;
            error = e;
            text = text;
            reservation = reservation;
            body = p;
            failing = r.1;
            outcome = refl;
          },
          rw r.0 (rw h (count_in-upsert_usage u m env.user_id month w.db.usage)),
        ))

    settle :
        (out : Result Consultation × World)
        → advise services env usage message planned v ≡ out
        → out.1.db.usage ≡ upsert_usage env.user_id month w.db.usage
        → Settled u m services env message planned month w (release_on_error env.user_id month out)
    unfolding release_on_error
    settle (ok a, ended) p h =
        inl (a, refl, rw h (count_in-upsert_usage u m env.user_id month w.db.usage))
    settle (err e, ended) p h =
        settle-Released e ended (release_monthly_consultation env.user_id month ended) h p
          (release-Released env.user_id month ended)

  settle-Reserved :
      (month : String) (w : World)
      → IsKeyed w.db.usage
      → (out : Result ConsultationUsage × World)
      → reserve_monthly_consultation env.user_id month w ≡ out
      → Reserved env.user_id month w out
      → Settled u m services env message planned month w (
          continue out.0
            (λ usage v.
              release_on_error env.user_id month (advise services env usage message planned v))
            out.1)
  settle-Reserved month w keyed (ok usage, v) p r =
      settle month w v usage keyed p (advise services env usage message planned v) refl (
        (advise-HasUsage (upsert_usage env.user_id month w.db.usage) services env usage message
            planned).at
          v (ap (λ db. db.usage) r.0))
  settle-Reserved month w keyed (err e, v) p r = inr (inl (e, refl, rw r refl))

  settle_month :
      (month : String) (w : World)
      → IsKeyed w.db.usage
      → Settled u m services env message planned month w
          (consult_in_month services env message planned month w)
  unfolding consult_in_month
  settle_month month w keyed =
      settle-Reserved month w keyed (reserve_monthly_consultation env.user_id month w) refl
        (reserve-Reserved env.user_id month w)

-- The world after the first reading of the clock.
abbrev pub clock_read : World → World
clock_read w = record w { tick = suc w.tick }

-- `StartConsultation` counts exactly its successes. If the usage table has one row to a user and a
-- month, then for every user and month: a success adds one to the count of the request's user in
-- the month of its first reading of the clock and changes no other count; an error leaves every
-- count as it was, or the reservation was made and stays counted, as the request's body ended with
-- that error and the database failed the very next call, which is the release.
pub used-start_consultation :
    (services : Services) (env : Env) (message : String) (planned : Option ℤ) (w : World) (u : ℕ)
    (m : String)
    → IsKeyed w.db.usage
    → Settled u m services env
        (trim_space message)
        planned
        (env.now w.tick).jst_month
        (clock_read w)
        (start_consultation services env message planned w)
unfolding start_consultation read_clock
used-start_consultation services env message planned w u m keyed =
    elim (Option-cases (validate_start (trim_space message) planned)) [
      | inl valid ↦ rw valid (
          settle_month services env (trim_space message) planned u m (env.now w.tick).jst_month
            (record w { tick = suc w.tick }) keyed)
      | inr (e, refused) ↦ rw refused (inr (inl (e, refl, refl)))
    ]
