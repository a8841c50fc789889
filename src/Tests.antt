-- ===== src/Tests.antt =====
-- The theorems at concrete inputs, and runs of the model.
mod Codecs
mod Connections
mod Records
mod Clients
mod Syncs
mod Producers
mod Brokers
mod Fetches
mod Partitions
mod Controllers
mod Readings
