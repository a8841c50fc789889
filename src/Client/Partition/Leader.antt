-- ===== src/Client/Partition/Leader.antt =====
-- `get_leader` of src/client/partition.rs, and its cache of the connection to the leader.
pub mod Laws
pub mod Confirmed
use rskafka.Prelude.{ℕ, ◌==◌, if◌then◌else◌, Bool, true, false, Option, none, some, List, [], ◌∷◌}
use rskafka.Prelude.Int.{ℤ, negsuc, eqb_ℤ}
use rskafka.Prelude.Result.{Result, ok, err, panic, map_ok}
use rskafka.Prelude.Result as Results
use rskafka.Prelude.Task.{Task, ◌>>=◌, done, after}
use rskafka.Protocol.Primitives.Text.Utf8.{Text}
use rskafka.Protocol.Primitives.Text.Equality.{same_text}
use rskafka.Protocol.Error as Protocol
use rskafka.Protocol.Messages.Metadata.{
  MetadataResponse, MetadataResponseTopic, MetadataResponsePartition,
}
use rskafka.Connection as Connection
use rskafka.Connection.{
  BrokerConnector, BrokerRepresentation, MetadataLookupMode, specific_broker, cached_arbitrary,
  bump, connect, invalidate_metadata_cache,
}
use rskafka.Connection.Metadata.{Round, request_metadata}
use rskafka.Client.Error.{
  Error, connection, invalid_response, server_error, leader_not_found, other_topic,
  no_such_partition, for_topic, for_partition, leader_forward,
}
use rskafka.Client.Partition.{PartitionClient, CurrentBroker}
use rskafka.Client.Partition.Responses.{exactly_one_topic}

-- `partitions.iter().find(…)`
unfoldable pub find_partition :
    ℤ → List MetadataResponsePartition → Option MetadataResponsePartition
find_partition index [] = none
find_partition index (p ∷ ps) =
    if eqb_ℤ p.partition_index index then some p else find_partition index ps

-- What the partition's metadata says of its leader.
unfoldable pub leader_of_partition : Text → ℤ → Option MetadataResponsePartition → Result Error ℤ
leader_of_partition topic index none = err (invalid_response (no_such_partition index))
leader_of_partition topic index (some p) = elim p.error [
  | some e ↦ err (server_error e none (for_partition topic index) none false)
  | none ↦
      if eqb_ℤ p.leader_id (negsuc 0)
      then err
          (server_error Protocol.leader_not_available none (for_partition topic index) none true)
      else ok p.leader_id
]

unfoldable pub leader_of_topic : Text → ℤ → MetadataResponseTopic → Result Error ℤ
leader_of_topic topic index t =
    if same_text t.name topic
    then elim t.error [
      | some e ↦ err (server_error e none (for_topic topic) none false)
      | none ↦ leader_of_partition topic index (find_partition index t.partitions)
    ]
    else err (invalid_response (other_topic t.name))

unfoldable pub leader_of : Text → ℤ → MetadataResponse → Result Error ℤ
leader_of topic index m = Results.◌>>=◌ (exactly_one_topic m.topics) (leader_of_topic topic index)

-- What is asked of brokers to find the leader: the rounds of the two requests for metadata, and what
-- connecting to a broker gives.
pub record Brokers (Conn : Type 0) : Type 0 where
  pub arbitrary : List (Round Conn)
  pub dial : BrokerRepresentation → Result Connection.Error Conn
  pub specific : List (Round Conn)

module _ {Conn : Type 0} where
  -- `?` on an error of the connector.
  abbrev pub converted :
      {A : Type 0}
      → Option (Result Connection.Error A) × BrokerConnector Conn
      → Option (Result Error A) × BrokerConnector Conn
  converted (none, c) = (none, c)
  converted (some (ok a), c) = (some (ok a), c)
  converted (some (err e), c) = (some (err (connection e)), c)
  converted (some panic, c) = (some panic, c)

  abbrev pub leader_and_generation :
      Text → ℤ → MetadataResponse × Option ℕ → Task (BrokerConnector Conn) Error (ℤ × Option ℕ)
  leader_and_generation topic partition (m, gen) =
      done (map_ok (λ leader. (leader, gen)) (leader_of topic partition m))

  unfoldable pub get_leader :
      PartitionClient Conn
      → MetadataLookupMode Conn
      → List (Round Conn)
      → Task (BrokerConnector Conn) Error (ℤ × Option ℕ)
  get_leader p mode rounds c =
      after (leader_and_generation p.topic p.partition)
        (converted (request_metadata mode (some (p.topic ∷ [])) rounds c))

  abbrev pub invalidate_metadata_if : Option ℕ → BrokerConnector Conn → BrokerConnector Conn
  invalidate_metadata_if none c = c
  invalidate_metadata_if (some gen) c = invalidate_metadata_cache gen c

  abbrev pub connected :
      ℤ
      → Option ℕ
      → BrokerConnector Conn
      → Result Connection.Error (Option Conn)
      → Option (Result Error Conn) × BrokerConnector Conn
  connected leader gen c (ok (some broker)) = (some (ok broker), c)
  connected leader gen c (ok none) =
      (some (err (invalid_response (leader_not_found leader))), invalidate_metadata_if gen c)
  connected leader gen c (err e) = (some (err (connection e)), invalidate_metadata_if gen c)
  connected leader gen c panic = (some panic, c)

  unfoldable pub connect_to_leader :
      (BrokerRepresentation → Result Connection.Error Conn)
      → ℤ
      → Option ℕ
      → Task (BrokerConnector Conn) Error Conn
  connect_to_leader dial leader gen c = connected leader gen c (connect dial leader c)

  abbrev pub bound :
      PartitionClient Conn → Conn → Option ℕ → Option ℕ → (Conn × ℕ) × PartitionClient Conn
  bound p broker gen_arbitrary gen_self = (
    (broker, bump p.current_broker.gen_broker),
    record p {
      current_broker = record {
        broker = some broker;
        gen_broker = bump p.current_broker.gen_broker;
        gen_leader_from_arbitrary = gen_arbitrary;
        gen_leader_from_self = gen_self;
      };
    },
  )

  -- Does the leader take itself for the leader?
  unfoldable pub confirm :
      PartitionClient Conn
      → Conn
      → ℤ × Option ℕ
      → ℤ × Option ℕ
      → Task (BrokerConnector Conn) Error ((Conn × ℕ) × PartitionClient Conn)
  confirm p broker (leader, gen) (leader_self, gen_self) c =
      if eqb_ℤ leader leader_self then (some (ok (bound p broker gen gen_self)), c) else (
        some (
            err (
              server_error Protocol.not_leader_or_follower none (for_partition p.topic p.partition)
                (some (leader_forward leader leader_self)) true)),
        invalidate_metadata_if gen_self c,
      )

  unfoldable pub discover :
      Brokers Conn
      → PartitionClient Conn
      → Task (BrokerConnector Conn) Error ((Conn × ℕ) × PartitionClient Conn)
  discover brokers p = do
    leader ← get_leader p cached_arbitrary brokers.arbitrary
    broker ← connect_to_leader brokers.dial leader.0 leader.1
    leader_self ← get_leader p (specific_broker broker) brokers.specific
    confirm p broker leader leader_self

  -- `BrokerCache::get`: the connection with its generation, and the client after it.
  unfoldable pub get :
      Brokers Conn
      → PartitionClient Conn
      → Task (BrokerConnector Conn) Error ((Conn × ℕ) × PartitionClient Conn)
  get brokers p = elim p.current_broker.broker [
    | some broker ↦ done (ok ((broker, p.current_broker.gen_broker), p))
    | none ↦ discover brokers p
  ]

  -- `BrokerCache::invalidate`
  unfoldable pub invalidate :
      ℕ → PartitionClient Conn → BrokerConnector Conn → PartitionClient Conn × BrokerConnector Conn
  invalidate gen p c =
      let current = p.current_broker in
      if current.gen_broker == gen
      then (
        record p { current_broker = record current { broker = none } },
        invalidate_metadata_if current.gen_leader_from_self
            (invalidate_metadata_if current.gen_leader_from_arbitrary c),
      )
      else (p, c)
