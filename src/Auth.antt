-- ===== src/Auth.antt =====
-- server/internal/auth and its store, server/internal/infrastructure/persistence/postgres/auth.go.
pub mod Store
pub mod Password
pub mod Service
mod Transaction
pub mod Grants
pub mod Access
pub mod Unchanged
pub mod RateLimit
pub mod Sessions
pub mod RoundTrip
