-- ===== src/Api.antt =====
-- internal/adapters/primary/api/server.go: the result cache, the handlers and their interleaving.
mod Cache
mod Handlers
pub mod Invariant
pub mod Validity
pub mod Refusals
pub mod Eviction
unfoldable pub use Cache.*
unfoldable pub use Handlers.*
