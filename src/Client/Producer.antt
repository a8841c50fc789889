-- ===== src/Client/Producer.antt =====
-- The producer (src/client/producer.rs).
pub mod Aggregator
pub mod Broadcast
pub mod Batch
pub mod Inner
