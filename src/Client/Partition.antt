-- ===== src/Client/Partition.antt =====
-- `PartitionClient` of src/client/partition.rs: the leader of a partition, and the connection to it. Each
-- operation runs without another task between its steps.
pub mod Responses
pub mod Leader
pub mod Retry
pub mod Records
pub mod Requests
pub mod Operations
pub mod Creation
use rskafka.Prelude.{ℕ, ◌==◌, if◌then◌else◌, Bool, Option, none, some}
use rskafka.Prelude.Int.{ℤ}
use rskafka.Protocol.Primitives.Text.Utf8.{Text}
use rskafka.Connection.{start_generation}

pub data UnknownTopicHandling : Type 0 where
  give_error retry : UnknownTopicHandling

pub record CurrentBroker (Conn : Type 0) : Type 0 where
  pub broker : Option Conn
  pub gen_broker : ℕ
  pub gen_leader_from_arbitrary : Option ℕ
  pub gen_leader_from_self : Option ℕ

-- The part of a `PartitionClient` that is its own.
pub record PartitionClient (Conn : Type 0) : Type 0 where
  pub topic : Text
  pub partition : ℤ
  pub current_broker : CurrentBroker Conn
  pub unknown_topic_handling : UnknownTopicHandling

abbrev pub no_broker : {Conn : Type 0} → CurrentBroker Conn
no_broker = record {
  broker = none;
  gen_broker = start_generation;
  gen_leader_from_arbitrary = none;
  gen_leader_from_self = none;
}
