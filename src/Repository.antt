-- ===== src/Repository.antt =====
-- server/internal/infrastructure/persistence/postgres/repository.go, by table. Each method is an
-- action; `uid` is `identity.UserID(ctx)`, which `userQuery` puts for `:user_id`.
pub mod Usage
pub mod Notifications
pub mod Transactions
pub mod Records
pub mod Frame
