-- ===== src/Tests/Quota.antt =====
-- The monthly quota on concrete requests.
use arran.Prelude.{◌≡◌, refl, none, some, [], ◌∷◌}
use arran.Prelude.Text.{trim_space}
use arran.World.{World, read_clock, transaction, statement}
use arran.Repository.Records.{get_profile}
use arran.Repository.Usage.{
  count_in, reserve_monthly_consultation, insert_usage, effective_limit,
  release_monthly_consultation,
}
use arran.Application.Consult.{start_consultation, advise, build_consultation_context}
use arran.Application.Consult.Quota.{Settled, clock_read, used-start_consultation}
use arran.Tests.{env, services, world}

-- The reservation succeeds and the reading of the profile fails.
abbrev failing : World
failing = record world { faults = none ∷ none ∷ none ∷ none ∷ some "timeout" ∷ [] }

used-start_consultation_example :
    Settled 7 "2026-11" services env
      (trim_space "飲みに行く")
      none
      "2026-11"
      (clock_read failing)
      (start_consultation services env "飲みに行く" none failing)
used-start_consultation_example =
    used-start_consultation services env "飲みに行く" none failing 7 "2026-11" tt

-- The release has given the reservation back.
released :
    count_in 7 "2026-11" (start_consultation services env "飲みに行く" none failing).1.db.usage ≡ 0
unfolding start_consultation count_in read_clock reserve_monthly_consultation transaction
    insert_usage statement effective_limit advise build_consultation_context get_profile
    release_monthly_consultation
released = refl
