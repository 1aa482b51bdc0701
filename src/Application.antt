-- ===== src/Application.antt =====
-- server/internal/application/application.go: the use cases, over the repository and the services
-- that the process is built with.
pub mod Settings
pub mod Consult
pub mod Outcome
pub mod Imports
pub mod Review
use arran.Prelude.{ℕ, String, Option, List}
use arran.Prelude.Int.{ℤ}
use arran.Domain.{
  Transaction, Profile, Dashboard, Consultation, ConsultationContext, AdviceDraft, MemoryItem,
  ReviewCandidate,
}
use arran.World.Monad.{Result, Error}
use arran.Repository.Notifications.{MonthlyLimitEvent}

-- The agents and the notifier of `Application`, each at a moment; a nil notifier is `none`. The
-- notifier returns the text of its error, if it fails; the memory agents return items and an error.
pub record Services : Type 0 where
  pub consultation_agent :
      ℕ → ConsultationContext → String → Option ℤ → Result (AdviceDraft × String)
  pub fallback_agent : ℕ → ConsultationContext → String → Option ℤ → Result (AdviceDraft × String)
  pub review_agent :
      ℕ
      → Profile
      → Dashboard
      → List Transaction
      → List Consultation
      → List ReviewCandidate
      → Result (List ReviewCandidate)
  pub fallback_review :
      ℕ
      → Profile
      → Dashboard
      → List Transaction
      → List Consultation
      → List ReviewCandidate
      → Result (List ReviewCandidate)
  pub memory_agent : ℕ → Consultation → List MemoryItem × Option Error
  pub fallback_memory : ℕ → Consultation → List MemoryItem × Option Error
  pub admin_notifier : Option (ℕ → MonthlyLimitEvent → Option String)
  pub environment : String
