-- ===== src/Orchestrator.antt =====
-- internal/core/services/orchestrator.go: one run of a test definition, and sequences of runs.
mod Run
mod Collect
mod Steps
mod Execute
pub mod Status
pub mod Attempts
pub mod Passed
pub mod Retries
pub mod Sequence
pub mod Finished
pub mod Order
pub mod Reservations
pub mod Released
pub mod Identity
pub mod Contended
unfoldable pub use Run.*
unfoldable pub use Collect.*
unfoldable pub use Steps.*
unfoldable pub use Execute.*
