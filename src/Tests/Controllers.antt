-- ===== src/Tests/Controllers.antt =====
-- The theorems about the controller client of src/client/controller.rs at concrete inputs.
use rskafka.Prelude.{ℕ, ◌≡◌, refl, false, true, none, some, [], ◌∷◌}
use rskafka.Prelude.Int.{pos}
use rskafka.Prelude.Result.{ok}
use rskafka.Protocol.Primitives.Text.Utf8.{Text}
use rskafka.Protocol.Error as Protocol
use rskafka.Protocol.Messages.CreateTopics.{CreateTopicsRequest, CreateTopicsResponse}
use rskafka.Protocol.Messages.DeleteTopics.{DeleteTopicsRequest, DeleteTopicsResponse}
use rskafka.Backoff.{error, continue}
use rskafka.Throttle.{maybe_throttle}
use rskafka.Connection.{BrokerConnector}
use rskafka.Connection as Connection
use rskafka.Client.Error.{Error, server_error, for_topic}
use rskafka.Client.Retry.{Attempt, attempt, on_tried}
use rskafka.Client.Retry.Laws.{Ends}
use rskafka.Client.Partition.Responses.{exactly_one}
use rskafka.Client.Controller.{Controllers, State, get, invalidate}
use rskafka.Client.Controller.Operations.{
  on_error, Attempts, process_delete_topics_response, create_topic, delete_topic,
}
use rskafka.Client.Controller.Operations.Errors.{IsReported}
use rskafka.Client.Controller.Operations.Laws.{topic_operations_report, lost_controller_is_given_up}

abbrev name : Text
name = 97 ∷ []

-- Broker 1 is a cached connection, a connection being the number of its broker.
abbrev connected : State ℕ
connected = (record { broker = some 1; generation = 1 }, Connection.new [])

-- Brokers that name nobody.
abbrev nobody : Controllers ℕ
nobody = record { arbitrary = []; dial = λ b. ok 1 }

abbrev refusing : DeleteTopicsResponse
refusing = record {
  throttle_time_ms = none;
  responses =
      record {
        name = name;
        error = some Protocol.not_controller;
        error_message = none;
        tagged_fields = none;
      }
      ∷ [];
  tagged_fields = none;
}

abbrev refused : Attempt (Controllers ℕ) ℕ DeleteTopicsRequest DeleteTopicsResponse
refused = record { brokers = nobody; answers = λ c r. ok refusing; is_last = false }

abbrev deletion : DeleteTopicsRequest
deletion = record { topic_names = some (name ∷ []); timeout_ms = pos 500; tagged_fields = none }

abbrev not_the_controller : Error
not_the_controller = server_error Protocol.not_controller none (for_topic name) none false

lost_controller_is_given_up_example :
    ((on_tried invalidate on_error (
        attempt get
          (λ r. r.throttle_time_ms)
          process_delete_topics_response
          deletion
          refused
          connected)).0
      ≡ continue (error not_the_controller))
    × ((on_tried invalidate on_error (
          attempt get
            (λ r. r.throttle_time_ms)
            process_delete_topics_response
            deletion
            refused
            connected)).1.0.broker
        ≡ none)
unfolding attempt get maybe_throttle process_delete_topics_response exactly_one
lost_controller_is_given_up_example =
    lost_controller_is_given_up (λ r. r.throttle_time_ms) process_delete_topics_response deletion
      refused connected not_the_controller 1 refl tt

abbrev creates : Attempts ℕ CreateTopicsRequest CreateTopicsResponse
creates =
    record {
      brokers = nobody;
      answers = λ c r. ok (record { throttle_time_ms = none; topics = []; tagged_fields = none });
      is_last = true;
    }
    ∷ []

topic_operations_report_example :
    Ends IsReported
      (λ u. Unit {0})
      (create_topic name (pos 1) (pos 1) (pos 500) creates [] connected).0
    × Ends IsReported (λ u. Unit {0}) (delete_topic name (pos 500) (refused ∷ []) [] connected).0
topic_operations_report_example =
    topic_operations_report name (pos 1) (pos 1) (pos 500) creates (refused ∷ []) [] connected
