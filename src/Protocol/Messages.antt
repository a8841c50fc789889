-- ===== src/Protocol/Messages.antt =====
-- src/protocol/messages: the messages, whose fields depend on the version that client and broker
-- agreed on.
pub mod Fields
pub mod Arrays
pub mod Total
pub mod Header
pub mod Metadata
pub mod Constants
pub mod Produce
pub mod Sasl
pub mod Fetch
pub mod Compact
pub mod ListOffsets
pub mod DeleteRecords
pub mod DeleteTopics
pub mod CreateTopics
pub mod ApiVersions
