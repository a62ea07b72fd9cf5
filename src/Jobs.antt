-- ===== src/Jobs.antt =====
-- The background jobs of internal/jobs over the table of internal/db.
pub mod Progress
pub mod Model
pub mod Table
pub mod Statements
pub mod Reads
pub mod Invariant
pub mod Claim
pub mod Holding
pub mod Leases
pub mod Queue
pub mod Backoff
pub mod Worker
pub mod Broker
