-- ===== src/Protocol.antt =====
-- core/src/protocol: what the messages and the errors of the protocol hold.
pub mod Json
pub mod Errors
pub mod Messages
pub mod Permissions
pub mod Capabilities
