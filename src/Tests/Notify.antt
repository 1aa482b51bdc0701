-- ===== src/Tests/Notify.antt =====
-- The notification protocol on a concrete interleaving.
use arran.Prelude.{refl, ◌≤◌, true, none, some}
use arran.World.{World, statement}
use arran.World.Monad.{ok}
use arran.Repository.Notifications.{
  MonthlyLimitEvent, claim_monthly_limit_notification, complete_monthly_limit_notification,
}
use arran.Repository.Notifications.Protocol.{
  State, claim, refused, deliver, claim_elsewhere, complete_elsewhere, Reach, here, next,
  Reach_at_most_once,
}
use arran.Repository.Notifications.Status.{status_of}
use arran.Tests.{world}

abbrev event : MonthlyLimitEvent
event = record {
  environment = "test";
  user_id = 7;
  month = "2026-11";
  count = 30;
  limit = 30;
  occurred_at = "2026-11-26T03:00:00Z";
}

abbrev claimed : World
claimed = (claim_monthly_limit_notification 7 event world).1

abbrev again : World
again = (claim_monthly_limit_notification 7 event claimed).1

-- Meanwhile a request of another user claims, and its notification fails.
abbrev other_claimed : World
other_claimed = (claim_monthly_limit_notification 8 event again).1

abbrev other_failed : World
other_failed = (complete_monthly_limit_notification 8 event (some "timeout") other_claimed).1

abbrev done : World
done = (complete_monthly_limit_notification 7 event none other_failed).1

abbrev start : State
start = record { world = world; holders = 0; delivered = 0 }

abbrev finished : State
finished = record { world = done; holders = 0; delivered = 1 }

-- One request claims, a second is refused, another user's fails, and the first delivers.
run : Reach 7 "2026-11" start finished
unfolding claim_monthly_limit_notification complete_monthly_limit_notification statement
run =
    let second = next (next here (claim event claimed refl refl)) (refused event again refl refl) in
    let others =
      next (next second (claim_elsewhere 8 event other_claimed (ok true) refl refl))
        (complete_elsewhere 8 event (some "timeout") other_failed (ok tt) refl refl) in
    next others (deliver event done 0 (ok tt) refl refl refl)

Reach_at_most_once_example : (finished.holders ≤ 1) × (finished.delivered ≤ 1)
unfolding status_of
Reach_at_most_once_example = Reach_at_most_once world refl run
