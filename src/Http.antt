-- ===== src/Http.antt =====
-- Outgoing requests: what the HTTP trigger, the API receiver and the notifier share, and the
-- trigger.
mod Request
mod Trigger
pub mod Unresolved
pub mod Outcome
unfoldable pub use Request.*
unfoldable pub use Trigger.*
