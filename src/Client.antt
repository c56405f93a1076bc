-- ===== src/Client.antt =====
-- vuvuzela-client: conversations, the handlers of a client, and the dialer.
pub mod Varint
pub mod Text
pub mod Gui
pub mod Message
pub mod Conversation
pub mod Roles
pub mod Talk
pub mod Handlers
pub mod Dialer
pub mod Introduced
