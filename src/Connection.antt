-- ===== src/Connection.antt =====
-- src/connection.rs: the connections to brokers, the cached one to any of them, and metadata. How a
-- connection is made (addresses, TLS, proxy, SASL) is a parameter, as is what a broker answers.
pub mod Topology
pub mod Metadata
use rskafka.Prelude.{
  ℕ, ◌+◌, ◌%◌, ◌==◌, Bool, true, false, if◌then◌else◌, Option, none, some, List, [], ◌∷◌, ◌++◌, map,
}
use rskafka.Prelude.Int.{ℤ}
use rskafka.Prelude.Result.{Result, ok, err, panic, ◌>>=◌, map_ok, map_err}
use rskafka.Backoff.{
  BackoffError, ErrorOrThrottle, error, ControlFlow, break, continue, retry_with_backoff,
}
use rskafka.Protocol.Primitives.Varint.{u64_mod}
use rskafka.Protocol.Primitives.Text.Utf8.{Text}
use rskafka.Messenger.{RequestError}
use rskafka.Messenger.Sync.{SyncVersionsError}
use rskafka.Client.MetadataCache.{MetadataCache}
use rskafka.Client.MetadataCache as Cache
use rskafka.Connection.Topology.{Broker, BrokerTopology, is_empty, get_broker, get_brokers}

-- Errors of the transport and of SASL are told apart no further.
pub data Error : Type 0 where
  metadata_error : RequestError → Error
  transport : Error
  sync_versions_error : SyncVersionsError → Error
  retry_failed : BackoffError → Error
  sasl_failed : Error

pub data MetadataLookupMode (Conn : Type 0) : Type 0 where
  arbitrary_broker : MetadataLookupMode Conn
  specific_broker : Conn → MetadataLookupMode Conn
  cached_arbitrary : MetadataLookupMode Conn

pub data BrokerRepresentation : Type 0 where
  bootstrap : Text → BrokerRepresentation
  topology_broker : Broker → BrokerRepresentation

-- `BrokerCacheGeneration`, a `usize` of 64 bits
abbrev pub start_generation : ℕ
start_generation = 0

abbrev pub bump : ℕ → ℕ
bump g = (g + 1) % u64_mod

-- The parts of a `BrokerConnector` that change, and the brokers to start from. `Conn` is a connection.
pub record BrokerConnector (Conn : Type 0) : Type 0 where
  pub bootstrap_brokers : List Text
  pub topology : BrokerTopology
  pub cached_arbitrary_broker : Option Conn
  pub arbitrary_generation : ℕ
  pub cached_metadata : MetadataCache

-- A round of connecting: what connecting to each broker gives, and whether a failure exceeds the
-- deadline.
abbrev pub DialRound : Type 0 → Type 0
DialRound Conn = (BrokerRepresentation → Result Error Conn) × Bool

-- `connect_to_a_broker_with_retry`. One round tries the brokers in their order, which was shuffled
-- before, and collects the errors.
module _ {Conn : Type 0} where
  unfoldable pub connect_to_any :
      (BrokerRepresentation → Result Error Conn)
      → List Error
      → List BrokerRepresentation
      → ControlFlow (Result Error Conn) (ErrorOrThrottle (List Error))
  connect_to_any dial errors [] = continue (error errors)
  connect_to_any dial errors (b ∷ bs) = elim (dial b) [
    | ok conn ↦ break (ok conn)
    | err e ↦ connect_to_any dial (errors ++ e ∷ []) bs
    | panic ↦ break panic
  ]

  abbrev pub flattened :
      Option (Result BackoffError (Result Error Conn)) → Option (Result Error Conn)
  flattened none = none
  flattened (some (ok r)) = some r
  flattened (some (err e)) = some (err (retry_failed e))
  flattened (some panic) = some panic

  unfoldable pub connect_to_a_broker_with_retry :
      List BrokerRepresentation → List (DialRound Conn) → Option (Result Error Conn)
  connect_to_a_broker_with_retry bs rounds =
      flattened
        (retry_with_backoff (λ (r : DialRound Conn). r.1)
          (λ r (s : Unit {0}). (connect_to_any r.0 [] bs, s)) rounds tt).0

module _ {Conn : Type 0} where
  abbrev pub new : List Text → BrokerConnector Conn
  new bootstrap_brokers = record {
    bootstrap_brokers = bootstrap_brokers;
    topology = [];
    cached_arbitrary_broker = none;
    arbitrary_generation = start_generation;
    cached_metadata = Cache.default;
  }

  -- The topology, or the brokers to start from.
  unfoldable pub brokers : BrokerConnector Conn → List BrokerRepresentation
  brokers c =
      if is_empty c.topology
      then map bootstrap c.bootstrap_brokers
      else map topology_broker (get_brokers c.topology)

  abbrev pub remember : BrokerConnector Conn → Conn → (Conn × ℕ) × BrokerConnector Conn
  remember c conn = (
    (conn, bump c.arbitrary_generation),
    record c {
      cached_arbitrary_broker = some conn;
      arbitrary_generation = bump c.arbitrary_generation;
    },
  )

  abbrev pub remember_result :
      BrokerConnector Conn → Result Error Conn → Result Error (Conn × ℕ) × BrokerConnector Conn
  remember_result c (ok conn) = (ok (remember c conn).0, (remember c conn).1)
  remember_result c (err e) = (err e, c)
  remember_result c panic = (panic, c)

  -- `BrokerCache::get`. The argument is what `connect_to_a_broker_with_retry` makes of the brokers.
  unfoldable pub get :
      (List BrokerRepresentation → Result Error Conn)
      → BrokerConnector Conn
      → Result Error (Conn × ℕ) × BrokerConnector Conn
  get reach c = elim c.cached_arbitrary_broker [
    | some broker ↦ (ok (broker, c.arbitrary_generation), c)
    | none ↦ remember_result c (reach (brokers c))
  ]

  -- `BrokerCache::invalidate`
  unfoldable pub invalidate : ℕ → BrokerConnector Conn → BrokerConnector Conn
  invalidate gen c =
      if c.arbitrary_generation == gen then record c { cached_arbitrary_broker = none } else c

  unfoldable pub invalidate_metadata_cache : ℕ → BrokerConnector Conn → BrokerConnector Conn
  invalidate_metadata_cache gen c = record c {
    cached_metadata = Cache.invalidate gen c.cached_metadata;
  }

  -- A connection to the broker with an ID, if that is known.
  unfoldable pub connect :
      (BrokerRepresentation → Result Error Conn)
      → ℤ
      → BrokerConnector Conn
      → Result Error (Option Conn)
  connect dial id c = elim (get_broker id c.topology) [
    | none ↦ ok none
    | some broker ↦ map_ok some (dial (topology_broker broker))
  ]
