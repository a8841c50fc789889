-- ===== src/Tests/Brokers.antt =====
-- Brokers, and a client of a partition, that the tests share.
use rskafka.Prelude.{ℕ, false, none, some, [], ◌∷◌}
use rskafka.Prelude.Int.{ℤ, pos}
use rskafka.Prelude.Result.{ok}
use rskafka.Protocol.Primitives.Text.Utf8.{Text}
use rskafka.Protocol.Messages.Metadata.{MetadataResponse, MetadataResponseBroker}
use rskafka.Connection.Topology.{BrokerTopology}
use rskafka.Connection.{BrokerConnector}
use rskafka.Client.Partition.{PartitionClient, give_error, no_broker}
use rskafka.Client.Partition.Leader.{Brokers}

abbrev pub name : Text
name = 97 ∷ []

abbrev pub host : Text
host = 98 ∷ []

abbrev pub broker_at : ℤ → ℤ → MetadataResponseBroker
broker_at id port = record { node_id = id; host = host; port = port; rack = none }

abbrev pub old_topology : BrokerTopology
old_topology = (pos 1, record { id = pos 1; host = host; port = pos 9092 }) ∷ []

-- A topic with one partition, and who leads it.
abbrev pub led_by : ℤ → MetadataResponse
led_by leader = record {
  throttle_time_ms = none;
  brokers = broker_at (pos 1) (pos 9092) ∷ [];
  cluster_id = none;
  controller_id = none;
  topics =
      record {
        error = none;
        name = name;
        is_internal = none;
        partitions =
            record {
              error = none;
              partition_index = pos 0;
              leader_id = leader;
              replica_nodes = none;
              isr_nodes = none;
            }
            ∷ [];
      }
      ∷ [];
}

-- Broker 1 is cached as the leader. A connection is the number of its broker.
abbrev pub connector : BrokerConnector ℕ
connector = record {
  bootstrap_brokers = host ∷ [];
  topology = old_topology;
  cached_arbitrary_broker = none;
  arbitrary_generation = 0;
  cached_metadata = record { cached = some (led_by (pos 1)); generation = 1 };
}

abbrev pub unbound : PartitionClient ℕ
unbound = record {
  topic = name;
  partition = pos 0;
  current_broker = no_broker;
  unknown_topic_handling = give_error;
}

-- Broker 1 names a leader.
abbrev pub names : ℤ → Brokers ℕ
names leader = record {
  arbitrary = [];
  dial = λ b. ok 1;
  specific =
      record { reaches = λ bs. ok 1; answers = λ c r. ok (led_by leader); is_last = false } ∷ [];
}
