-- ===== src/Csv.antt =====
-- server/internal/csvimport/importer.go: from the bytes of a file to transactions.
pub mod Digits
pub mod Amount
pub mod Dates
pub mod Merchant
pub mod Columns
pub mod Rows
pub mod Parse
