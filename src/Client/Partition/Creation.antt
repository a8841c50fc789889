-- ===== src/Client/Partition/Creation.antt =====
-- `PartitionClient::new` of src/client/partition.rs, which finds the leader before it returns a client.
pub mod Rounds
pub mod Laws
use rskafka.Prelude.{ℕ, Bool, Option, none, some, List}
use rskafka.Prelude.Int.{ℤ}
use rskafka.Prelude.Result.{Result, ok, err, panic}
use rskafka.Protocol.Primitives.Text.Utf8.{Text}
use rskafka.Connection as Connection
use rskafka.Connection.{BrokerConnector}
use rskafka.Client.Error.{Error}
use rskafka.Client.Retry.{Tried, returned, failed, crashed, waiting, maybe_retry}
use rskafka.Client.Partition.{PartitionClient, UnknownTopicHandling, no_broker}
use rskafka.Client.Partition.Leader.{Brokers}
use rskafka.Client.Partition.Retry.{on_error}
use rskafka.Client.Partition.Operations.{State, get_on}

module _ {Conn : Type 0} where
  -- The closure that is tried: `get`, whose errors come without a generation.
  abbrev pub detected :
      Option (Result Error (Conn × ℕ)) × State Conn → Tried (Unit {0}) × State Conn
  detected (none, s) = (waiting, s)
  detected (some (ok broker), s) = (returned tt, s)
  detected (some (err e), s) = (failed e none, s)
  detected (some panic, s) = (crashed, s)

  -- The cache that is given to `maybe_retry` is that of the connector.
  abbrev pub invalidate_connector : ℕ → State Conn → State Conn
  invalidate_connector gen (p, c) = (p, Connection.invalidate gen c)

  abbrev pub unconnected : Text → ℤ → UnknownTopicHandling → PartitionClient Conn
  unconnected topic partition handling = record {
    topic = topic;
    partition = partition;
    current_broker = no_broker;
    unknown_topic_handling = handling;
  }

  abbrev pub with_client :
      Option (Result Error (Unit {0})) × State Conn
      → Option (Result Error (PartitionClient Conn)) × BrokerConnector Conn
  with_client (none, (p, c)) = (none, c)
  with_client (some (ok u), (p, c)) = (some (ok p), c)
  with_client (some (err e), (p, c)) = (some (err e), c)
  with_client (some panic, (p, c)) = (some panic, c)

  -- The rounds have what finding the leader meets, and whether a failure exceeds the deadline.
  unfoldable pub new :
      Text
      → ℤ
      → UnknownTopicHandling
      → List (Brokers Conn × Bool)
      → BrokerConnector Conn
      → Option (Result Error (PartitionClient Conn)) × BrokerConnector Conn
  new topic partition handling rounds c = with_client (
      maybe_retry invalidate_connector (λ r. r.1) (λ r s. detected (get_on r.0 s))
        (on_error handling) rounds (unconnected topic partition handling, c))
