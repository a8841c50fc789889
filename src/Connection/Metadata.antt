-- ===== src/Connection/Metadata.antt =====
-- `request_metadata` of src/connection.rs, with `metadata_request_with_retry`.
pub mod Laws
use mathlib.Core.Option
use rskafka.Prelude.{
  ℕ, Bool, true, false, not, ◌&&◌, if◌then◌else◌, Option, none, some, List, [], ◌∷◌, map,
}
use rskafka.Prelude.Result.{Result, ok, err, panic}
use rskafka.Prelude.Task.{Task, after}
use rskafka.Backoff.{
  BackoffError, ErrorOrThrottle, error, throttle, ControlFlow, break, continue, retry_with_backoff,
}
use rskafka.Throttle.{maybe_throttle}
use rskafka.Protocol.Primitives.Text.Utf8.{Text}
use rskafka.Protocol.Messages.Metadata.{MetadataRequest, MetadataResponse}
use rskafka.Messenger.{RequestError, poisoned, io}
use rskafka.Client.MetadataCache as Cache
use rskafka.Connection.Topology as Topology
use rskafka.Connection.{
  Error, metadata_error, retry_failed, MetadataLookupMode, arbitrary_broker, specific_broker,
  cached_arbitrary, BrokerRepresentation, BrokerConnector, get, invalidate,
}

-- What one round of the loop meets: what connecting to any of the brokers gives, what a broker answers,
-- and whether a failure exceeds the deadline.
pub record Round (Conn : Type 0) : Type 0 where
  pub reaches : List BrokerRepresentation → Result Error Conn
  pub answers : Conn → MetadataRequest → Result RequestError MetadataResponse
  pub is_last : Bool

-- The errors of a connection that is broken.
unfoldable pub is_broken : RequestError → Bool
is_broken (poisoned e) = true
is_broken (io e) = true
is_broken _ = false

abbrev pub Outcome : Type 0
Outcome = ControlFlow (Result Error MetadataResponse) (ErrorOrThrottle RequestError)

abbrev pub on_metadata : MetadataResponse → Outcome
on_metadata response = elim (maybe_throttle response.throttle_time_ms) [
  | some ms ↦ continue (throttle ms)
  | none ↦ break (ok response)
]

abbrev pub metadata_request : Option (List Text) → MetadataRequest
metadata_request topics = record {
  topics = Option.map (λ t. map (λ x. record { name = x }) t) topics;
  allow_auto_topic_creation = none;
}

module _ {Conn : Type 0} where
  abbrev pub with_generation :
      Result Error (Conn × ℕ) × BrokerConnector Conn
      → Result Error (Conn × Option ℕ) × BrokerConnector Conn
  with_generation (ok (b, gen), c) = (ok (b, some gen), c)
  with_generation (err e, c) = (err e, c)
  with_generation (panic, c) = (panic, c)

  -- The broker of a round, with the generation of the cache that it is from.
  abbrev pub broker_of :
      MetadataLookupMode Conn
      → Round Conn
      → BrokerConnector Conn
      → Result Error (Conn × Option ℕ) × BrokerConnector Conn
  broker_of (specific_broker b) r c = (ok (b, none), c)
  broker_of arbitrary_broker r c = with_generation (get r.reaches c)
  broker_of cached_arbitrary r c = with_generation (get r.reaches c)

  abbrev pub is_specific : MetadataLookupMode Conn → Bool
  is_specific (specific_broker b) = true
  is_specific arbitrary_broker = false
  is_specific cached_arbitrary = false

  abbrev pub invalidate_if : Option ℕ → BrokerConnector Conn → BrokerConnector Conn
  invalidate_if none c = c
  invalidate_if (some gen) c = invalidate gen c

  abbrev pub on_answer :
      MetadataLookupMode Conn
      → Option ℕ
      → BrokerConnector Conn
      → Result RequestError MetadataResponse
      → Outcome × BrokerConnector Conn
  on_answer mode gen c (ok response) = (on_metadata response, c)
  on_answer mode gen c (err e) =
      if is_broken e && not (is_specific mode)
      then (continue (error e), invalidate_if gen c)
      else (break (err (metadata_error e)), c)
  on_answer mode gen c panic = (break panic, c)

  abbrev pub ask :
      MetadataLookupMode Conn
      → MetadataRequest
      → Round Conn
      → Result Error (Conn × Option ℕ) × BrokerConnector Conn
      → Outcome × BrokerConnector Conn
  ask mode request r (ok (b, gen), c) = on_answer mode gen c (r.answers b request)
  ask mode request r (err e, c) = (break (err e), c)
  ask mode request r (panic, c) = (break panic, c)

  unfoldable pub one_round :
      MetadataLookupMode Conn
      → MetadataRequest
      → Round Conn
      → BrokerConnector Conn
      → Outcome × BrokerConnector Conn
  one_round mode request r c = ask mode request r (broker_of mode r c)

  abbrev pub retried :
      {A : Type 0}
      → Option (Result BackoffError (Result Error A)) × BrokerConnector Conn
      → Option (Result Error A) × BrokerConnector Conn
  retried (none, c) = (none, c)
  retried (some (ok r), c) = (some r, c)
  retried (some (err e), c) = (some (err (retry_failed e)), c)
  retried (some panic, c) = (some panic, c)

  unfoldable pub metadata_request_with_retry :
      MetadataLookupMode Conn
      → MetadataRequest
      → List (Round Conn)
      → Task (BrokerConnector Conn) Error MetadataResponse
  metadata_request_with_retry mode request rounds c =
      retried (retry_with_backoff (λ r. r.is_last) (one_round mode request) rounds c)

  -- What the cache has, when the mode allows it.
  abbrev pub from_cache :
      MetadataLookupMode Conn
      → Option (List Text)
      → BrokerConnector Conn
      → Option (MetadataResponse × ℕ) × BrokerConnector Conn
  from_cache (specific_broker b) topics c = (none, c)
  from_cache arbitrary_broker topics c = (none, c)
  from_cache cached_arbitrary topics c =
      let found = Cache.get topics c.cached_metadata in
      (found.0, record c { cached_metadata = found.1 })

  -- A response for all topics is cached.
  abbrev pub cache_all :
      Option (List Text) → MetadataResponse → BrokerConnector Conn → BrokerConnector Conn
  cache_all (some topics) m c = c
  cache_all none m c = record c { cached_metadata = Cache.update m c.cached_metadata }

  abbrev pub learn :
      Option (List Text)
      → MetadataResponse
      → Task (BrokerConnector Conn) Error (MetadataResponse × Option ℕ)
  learn topics m c = (
    some (ok (m, none)),
    record (cache_all topics m c) { topology = Topology.update m.brokers c.topology },
  )

  abbrev pub or_request :
      MetadataLookupMode Conn
      → Option (List Text)
      → List (Round Conn)
      → Option (MetadataResponse × ℕ) × BrokerConnector Conn
      → Option (Result Error (MetadataResponse × Option ℕ)) × BrokerConnector Conn
  or_request mode topics rounds (some (m, gen), c) = (some (ok (m, some gen)), c)
  or_request mode topics rounds (none, c) =
      after (learn topics) (metadata_request_with_retry mode (metadata_request topics) rounds c)

  -- The response, with its generation if it is from the cache.
  unfoldable pub request_metadata :
      MetadataLookupMode Conn
      → Option (List Text)
      → List (Round Conn)
      → Task (BrokerConnector Conn) Error (MetadataResponse × Option ℕ)
  request_metadata mode topics rounds c = or_request mode topics rounds (from_cache mode topics c)
