-- ===== src/Client.antt =====
-- The clients (src/client).
pub mod Error
pub mod Retry
pub mod Partition
pub mod Controller
pub mod Records
pub mod Producer
pub mod Consumer
pub mod MetadataCache
