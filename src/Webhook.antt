-- ===== src/Webhook.antt =====
-- internal/adapters/primary/webhook and internal/pkg/httputil: messages from the callbacks of
-- providers, and what the server answers.
mod Payload
mod Providers
mod Server
pub mod Laws
unfoldable pub use Payload.*
unfoldable pub use Providers.*
unfoldable pub use Server.*
