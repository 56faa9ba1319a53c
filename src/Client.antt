-- ===== src/Client.antt =====
-- The client library, audioclient/.
pub mod Tcp
pub mod Connection
pub mod NewTcp
pub mod OldTcp
pub mod Start
pub mod Status
pub mod Outgoing
pub mod Incoming
pub mod Settings
pub mod Header
