-- ===== src/Application/Review/Disclosure.antt =====
-- What the models behind the review agent of application.go are told: the agent is the adapter of
-- agentadapter/adapter.go, as app.go sets it up.
use arran.World.{World}
use arran.Adapter.{Agent, review}
use arran.Application.{Services}

-- The services with two agents behind the adapter, as `ReviewAgent` and `FallbackReview`.
abbrev pub through_adapter : Services → Agent → Agent → Services
through_adapter services agent fallback = record services {
  review_agent = review agent;
  fallback_review = review fallback;
}
