-- ===== src/Config.antt =====
-- internal/pkg/config: the configuration of the service, and how it and the tests are loaded.
mod Settings
mod Load
pub mod Laws
unfoldable pub use Settings.*
unfoldable pub use Load.*
