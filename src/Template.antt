-- ===== src/Template.antt =====
-- internal/pkg/template: placeholders, counters and generators in texts, headers and bodies.
mod Scan
pub mod Generators
mod Replace
pub mod Laws
unfoldable pub use Scan.*
unfoldable pub use Replace.*
