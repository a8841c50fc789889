-- ===== src/Protocol.antt =====
-- The wire protocol (src/protocol).
pub mod Traits
pub mod VecBuilder
pub mod Primitives
pub mod Frame
pub mod ApiVersion
pub mod Messages
pub mod ApiKey
pub mod Error
pub mod Record
