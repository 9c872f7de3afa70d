-- ===== src/Web.antt =====
-- The web viewer of viewer/sap-web.
pub mod View
pub mod Keys
pub mod Labels
pub mod Idents
pub mod Server
pub mod Session
pub mod Invariant
pub mod Announced
pub mod Limit
pub mod Broadcast
pub mod Subscribers
pub mod History
pub mod Drain
mod Tests
pub mod Patches
pub mod Stream
pub mod EventSource
pub mod Written
