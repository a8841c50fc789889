-- ===== src/Client/Controller.antt =====
-- `ControllerClient` of src/client/controller.rs: the connection to the controller of the cluster, and
-- the operations on topics. Each operation runs without another task between its steps.
pub mod Operations
use rskafka.Prelude.{ℕ, ◌==◌, if◌then◌else◌, Bool, Option, none, some, List, []}
use rskafka.Prelude.Int.{ℤ}
use rskafka.Prelude.Result.{Result, ok, err, panic}
use rskafka.Prelude.Task.{Task, done, after, ◌>>=◌}
use rskafka.Protocol.Messages.Metadata.{MetadataResponse}
use rskafka.Connection as Connection
use rskafka.Connection.{
  BrokerConnector, BrokerRepresentation, arbitrary_broker, start_generation, bump, connect,
}
use rskafka.Connection.Metadata.{Round, request_metadata}
use rskafka.Client.Error.{
  Error, connection, invalid_response, controller_is_null, controller_not_found,
}

-- `current_broker`
pub record ControllerClient (Conn : Type 0) : Type 0 where
  pub broker : Option Conn
  pub generation : ℕ

abbrev pub new : {Conn : Type 0} → ControllerClient Conn
new = record { broker = none; generation = start_generation }

-- What is asked of brokers to find the controller: the rounds of the request for metadata, and what
-- connecting to a broker gives.
pub record Controllers (Conn : Type 0) : Type 0 where
  pub arbitrary : List (Round Conn)
  pub dial : BrokerRepresentation → Result Connection.Error Conn

abbrev pub controller_id_of : Option ℤ → Result Error ℤ
controller_id_of none = err (invalid_response controller_is_null)
controller_id_of (some id) = ok id

abbrev pub State : Type 0 → Type 0
State Conn = ControllerClient Conn × BrokerConnector Conn

module _ {Conn : Type 0} where
  -- `?` on an error of the connector.
  abbrev pub converted :
      {A : Type 0}
      → Option (Result Connection.Error A) × BrokerConnector Conn
      → Option (Result Error A) × BrokerConnector Conn
  converted (none, c) = (none, c)
  converted (some (ok a), c) = (some (ok a), c)
  converted (some (err e), c) = (some (err (connection e)), c)
  converted (some panic, c) = (some panic, c)

  abbrev pub controller_id_in : MetadataResponse × Option ℕ → Task (BrokerConnector Conn) Error ℤ
  controller_id_in (m, gen) = done (controller_id_of m.controller_id)

  unfoldable pub get_controller_id : List (Round Conn) → Task (BrokerConnector Conn) Error ℤ
  get_controller_id rounds c =
      after controller_id_in (converted (request_metadata arbitrary_broker (some []) rounds c))

  abbrev pub connected : ℤ → Result Connection.Error (Option Conn) → Result Error Conn
  connected id (ok (some broker)) = ok broker
  connected id (ok none) = err (invalid_response (controller_not_found id))
  connected id (err e) = err (connection e)
  connected id panic = panic

  unfoldable pub connect_to_controller :
      (BrokerRepresentation → Result Connection.Error Conn)
      → ℤ
      → Task (BrokerConnector Conn) Error Conn
  connect_to_controller dial id c = (some (connected id (connect dial id c)), c)

  unfoldable pub discover : Controllers Conn → Task (BrokerConnector Conn) Error Conn
  discover brokers = do
    id ← get_controller_id brokers.arbitrary
    connect_to_controller brokers.dial id

  abbrev pub remember :
      ControllerClient Conn
      → Option (Result Error Conn) × BrokerConnector Conn
      → Option (Result Error (Conn × ℕ)) × State Conn
  remember p (none, c) = (none, (p, c))
  remember p (some (ok broker), c) = (
    some (ok (broker, bump p.generation)),
    (record { broker = some broker; generation = bump p.generation }, c),
  )
  remember p (some (err e), c) = (some (err e), (p, c))
  remember p (some panic, c) = (some panic, (p, c))

  -- `BrokerCache::get`
  unfoldable pub get : Controllers Conn → State Conn → Option (Result Error (Conn × ℕ)) × State Conn
  get brokers (p, c) = elim p.broker [
    | some broker ↦ (some (ok (broker, p.generation)), (p, c))
    | none ↦ remember p (discover brokers c)
  ]

  -- `BrokerCache::invalidate`
  unfoldable pub invalidate : ℕ → State Conn → State Conn
  invalidate gen (p, c) = if p.generation == gen then (record p { broker = none }, c) else (p, c)
