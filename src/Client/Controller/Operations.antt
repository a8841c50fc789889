-- ===== src/Client/Controller/Operations.antt =====
-- `create_topic`, `delete_topic` and `maybe_retry` of src/client/controller.rs.
pub mod Errors
pub mod Laws
use rskafka.Prelude.{ℕ, false, if◌then◌else◌, Bool, Option, none, some, List, [], ◌∷◌}
use rskafka.Prelude.Int.{ℤ}
use rskafka.Prelude.Result.{Result, ok, err, panic, ◌>>=◌}
use rskafka.Protocol.Primitives.Text.Utf8.{Text}
use rskafka.Protocol.Error as Protocol
use rskafka.Protocol.Messages.Compact.{flatten}
use rskafka.Protocol.Messages.CreateTopics.{CreateTopicsRequest, CreateTopicsResponse}
use rskafka.Protocol.Messages.DeleteTopics.{DeleteTopicsRequest, DeleteTopicsResponse}
use rskafka.Connection.{arbitrary_broker, BrokerConnector}
use rskafka.Connection.Metadata.{Round, is_broken, request_metadata}
use rskafka.Client.Error.{Error, connection, request, server_error, for_topic}
use rskafka.Client.Retry.{Reaction, again_elsewhere, fatal, Attempt, attempt, maybe_retry}
use rskafka.Client.Partition.Responses.{exactly_one_topic}
use rskafka.Client.Controller.{ControllerClient, Controllers, State, get, invalidate}

unfoldable pub on_server_error : Protocol.Error → Reaction
on_server_error Protocol.not_controller = again_elsewhere
on_server_error _ = fatal

unfoldable pub on_error : Error → Reaction
on_error (request e) = if is_broken e then again_elsewhere else fatal
on_error (connection e) = again_elsewhere
on_error (server_error e message context response virtual) = on_server_error e
on_error _ = fatal

abbrev pub Attempts : Type 0 → Type 0 → Type 0 → Type 0
Attempts Conn Req Resp = List (Attempt (Controllers Conn) Conn Req Resp)

-- What both operations make of the one topic of a response.
abbrev pub topic_result :
    Text → Option Protocol.Error → Option (Option Text) → Result Error (Unit {0})
topic_result name none message = ok tt
topic_result name (some e) message =
    err (server_error e (flatten message) (for_topic name) none false)

unfoldable pub process_create_topics_response : CreateTopicsResponse → Result Error (Unit {0})
process_create_topics_response r =
    exactly_one_topic r.topics >>= λ t. topic_result t.name t.error t.error_message

unfoldable pub process_delete_topics_response : DeleteTopicsResponse → Result Error (Unit {0})
process_delete_topics_response r =
    exactly_one_topic r.responses >>= λ t. topic_result t.name t.error t.error_message

module _ {Conn Req Resp : Type 0} (throttle_time_ms : Resp → Option ℤ)
    (process : Resp → Result Error (Unit {0})) (req : Req) where
  unfoldable pub retried :
      Attempts Conn Req Resp → State Conn → Option (Result Error (Unit {0})) × State Conn
  retried attempts s =
      maybe_retry invalidate (λ a. a.is_last) (attempt get throttle_time_ms process req) on_error
        attempts s

module _ {Conn : Type 0} where
  -- `refresh_metadata`, whose result is dropped
  abbrev pub refreshed : List (Round Conn) → State Conn → State Conn
  refreshed rounds (p, c) = (p, (request_metadata arbitrary_broker none rounds c).1)

  -- After the operation succeeded, the metadata is asked for again.
  abbrev pub then_refresh :
      List (Round Conn)
      → Option (Result Error (Unit {0})) × State Conn
      → Option (Result Error (Unit {0})) × State Conn
  then_refresh rounds (some (ok u), s) = (some (ok u), refreshed rounds s)
  then_refresh rounds (some (err e), s) = (some (err e), s)
  then_refresh rounds (some panic, s) = (some panic, s)
  then_refresh rounds (none, s) = (none, s)

  unfoldable pub create_topic :
      Text
      → ℤ
      → ℤ
      → ℤ
      → Attempts Conn CreateTopicsRequest CreateTopicsResponse
      → List (Round Conn)
      → State Conn
      → Option (Result Error (Unit {0})) × State Conn
  create_topic name num_partitions replication_factor timeout_ms attempts refreshes s =
      then_refresh refreshes (
        retried (λ r. r.throttle_time_ms) process_create_topics_response
          (record {
            topics =
                record {
                  name = name;
                  num_partitions = num_partitions;
                  replication_factor = replication_factor;
                  assignments = [];
                  configs = [];
                  tagged_fields = none;
                }
                ∷ [];
            timeout_ms = timeout_ms;
            validate_only = none;
            tagged_fields = none;
          })
          attempts s)

  unfoldable pub delete_topic :
      Text
      → ℤ
      → Attempts Conn DeleteTopicsRequest DeleteTopicsResponse
      → List (Round Conn)
      → State Conn
      → Option (Result Error (Unit {0})) × State Conn
  delete_topic name timeout_ms attempts refreshes s = then_refresh refreshes (
      retried (λ r. r.throttle_time_ms) process_delete_topics_response
        (record { topic_names = some (name ∷ []); timeout_ms = timeout_ms; tagged_fields = none })
        attempts s)
