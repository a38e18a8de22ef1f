-- ===== src/Receivers.antt =====
-- internal/adapters/secondary/receiver: how receivers wait for messages.
mod Poll
mod Webhook
mod Api
mod Mail
mod Imap
pub mod Polling
pub mod Searches
pub mod Arrival
unfoldable pub use Poll.*
unfoldable pub use Webhook.*
unfoldable pub use Api.*
unfoldable pub use Mail.*
unfoldable pub use Imap.*
