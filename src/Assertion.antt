-- ===== src/Assertion.antt =====
-- internal/pkg/assertion: the thirteen kinds of assertions and their registry.
mod Util
mod Kinds
pub mod Registry
pub mod Laws
unfoldable pub use Util.*
unfoldable pub use Kinds.*
unfoldable pub use Registry.*
