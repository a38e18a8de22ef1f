-- ===== src/Domain.antt =====
-- internal/core/domain: errors, test definitions, messages and results.
mod Errors
mod Definitions
mod Results
mod Print
unfoldable pub use Errors.*
unfoldable pub use Definitions.*
unfoldable pub use Results.*
unfoldable pub use Print.*
