-- ===== src/Ledger.antt =====
-- The work ledger (internal/workledger).
pub mod Patterns
pub mod Model
pub mod Validate
pub mod Agent
pub mod Registry
pub mod Store
pub mod Routes
pub mod Content
pub mod Admit
pub mod Claim
pub mod Complete
pub mod Resolve
pub mod Coherent
pub mod History
pub mod World
mod Tests
