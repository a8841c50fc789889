-- ===== src/Client/Partition/Operations.antt =====
-- The operations of `PartitionClient` of src/client/partition.rs, each in its loop of retries.
pub mod Laws
use rskafka.Prelude.{ℕ, Bool, Option, none, some, List, [], ◌∷◌, length}
use rskafka.Prelude.Int.{ℤ}
use rskafka.Prelude.Result.{Result, ok, err, panic, ◌>>=◌, map_ok}
use rskafka.Throttle.{maybe_throttle}
use rskafka.Protocol.Record.{RecordBatchCompression}
use rskafka.Protocol.Messages.Produce.{ProduceRequest, ProduceResponse}
use rskafka.Protocol.Messages.Fetch.{FetchRequest, FetchResponse, FetchResponsePartition}
use rskafka.Protocol.Messages.ListOffsets.{ListOffsetsRequest, ListOffsetsResponse}
use rskafka.Protocol.Messages.DeleteRecords.{DeleteRecordsRequest, DeleteRecordsResponse}
use rskafka.Messenger.{RequestError}
use rskafka.Connection.{BrokerConnector}
use rskafka.Client.Records.{Record, RecordAndOffset}
use rskafka.Client.Error.{Error}
use rskafka.Client.Partition.{PartitionClient}
use rskafka.Client.Partition.Leader.{Brokers, get, invalidate}
use rskafka.Client.Partition.Responses.{
  process_produce_response, process_fetch_response, process_list_offsets_response,
  process_delete_records_response, extract_offset,
}
use rskafka.Client.Partition.Records.{LocalResult, extract_records}
use rskafka.Client.Partition.Requests.{
  OffsetAt, Chrono, build_produce_request, build_fetch_request, build_list_offsets_request,
  build_delete_records_request,
}
use rskafka.Client.Partition.Retry.{on_error}
use rskafka.Client.Retry.{Attempt, attempt, maybe_retry}

abbrev pub State : Type 0 → Type 0
State Conn = PartitionClient Conn × BrokerConnector Conn

abbrev pub Attempts : Type 0 → Type 0 → Type 0 → Type 0
Attempts Conn Req Resp = List (Attempt (Brokers Conn) Conn Req Resp)

-- The `BrokerCache` that is given to `maybe_retry`.
module _ {Conn : Type 0} where
  abbrev pub bound_to :
      PartitionClient Conn
      → Option (Result Error ((Conn × ℕ) × PartitionClient Conn)) × BrokerConnector Conn
      → Option (Result Error (Conn × ℕ)) × State Conn
  bound_to p (none, c) = (none, (p, c))
  bound_to p (some (ok (broker, p')), c) = (some (ok broker), (p', c))
  bound_to p (some (err e), c) = (some (err e), (p, c))
  bound_to p (some panic, c) = (some panic, (p, c))

  unfoldable pub get_on : Brokers Conn → State Conn → Option (Result Error (Conn × ℕ)) × State Conn
  get_on brokers (p, c) = bound_to p (get brokers p c)

  unfoldable pub invalidate_on : ℕ → State Conn → State Conn
  invalidate_on gen (p, c) = invalidate gen p c

module _ {Conn Req Resp T : Type 0} (throttle_time_ms : Resp → Option ℤ)
    (process : Resp → Result Error T) (req : Req) where
  unfoldable pub retried :
      Attempts Conn Req Resp → State Conn → Option (Result Error T) × State Conn
  retried attempts s =
      maybe_retry invalidate_on (λ a. a.is_last) (attempt get_on throttle_time_ms process req)
        (on_error s.0.unknown_topic_handling) attempts s

-- `let x = maybe_retry(…).await?; f(x)`
abbrev pub finished :
    {S A B : Type 0}
    → (A → Result Error B)
    → Option (Result Error A) × S
    → Option (Result Error B) × S
finished f (none, s) = (none, s)
finished f (some (ok a), s) = (some (f a), s)
finished f (some (err e), s) = (some (err e), s)
finished f (some panic, s) = (some panic, s)

module _ {Conn Time : Type 0} (chrono : Chrono Time) where
  abbrev pub produce_built :
      ℕ
      → Attempts Conn ProduceRequest ProduceResponse
      → State Conn
      → Result Error ProduceRequest
      → Option (Result Error (List ℤ)) × State Conn
  produce_built n attempts s (ok req) =
      retried (λ r. r.throttle_time_ms) (process_produce_response s.0.partition s.0.topic n) req
        attempts s
  produce_built n attempts s (err e) = (some (err e), s)
  produce_built n attempts s panic = (some panic, s)

  unfoldable pub produce :
      List (Record Time)
      → RecordBatchCompression
      → Attempts Conn ProduceRequest ProduceResponse
      → State Conn
      → Option (Result Error (List ℤ)) × State Conn
  produce [] method attempts s = (some (ok []), s)
  produce (r ∷ rs) method attempts s =
      produce_built (length (r ∷ rs)) attempts s
        (build_produce_request chrono s.0.partition s.0.topic (r ∷ rs) method)

module _ {Time : Type 0} (timestamp_millis_opt : ℤ → LocalResult Time) where
  abbrev pub taken : ℤ → FetchResponsePartition → Result Error (List (RecordAndOffset Time) × ℤ)
  taken offset p =
      map_ok (λ rs. (rs, p.high_watermark)) (extract_records timestamp_millis_opt offset p.records)

module _ {Conn Time : Type 0} (timestamp_millis_opt : ℤ → LocalResult Time) where
  unfoldable pub fetch_records :
      ℤ
      → ℤ × ℤ
      → ℤ
      → Attempts Conn FetchRequest FetchResponse
      → State Conn
      → Option (Result Error (List (RecordAndOffset Time) × ℤ)) × State Conn
  fetch_records offset bytes max_wait_ms attempts s = finished (taken timestamp_millis_opt offset) (
      retried (λ r. r.throttle_time_ms)
        (λ r. process_fetch_response s.0.partition s.0.topic r offset)
        (build_fetch_request offset bytes max_wait_ms s.0.partition s.0.topic) attempts s)

module _ {Conn : Type 0} where
  unfoldable pub get_offset :
      OffsetAt
      → Attempts Conn ListOffsetsRequest ListOffsetsResponse
      → State Conn
      → Option (Result Error ℤ) × State Conn
  get_offset at attempts s = finished extract_offset (
      retried (λ r. r.throttle_time_ms) (process_list_offsets_response s.0.partition s.0.topic)
        (build_list_offsets_request s.0.partition s.0.topic at) attempts s)

  unfoldable pub delete_records :
      ℤ
      → ℤ
      → Attempts Conn DeleteRecordsRequest DeleteRecordsResponse
      → State Conn
      → Option (Result Error (Unit {0})) × State Conn
  delete_records offset timeout_ms attempts s =
      finished (λ p. ok tt)
        (retried (λ r. some r.throttle_time_ms)
          (process_delete_records_response s.0.topic s.0.partition)
          (build_delete_records_request offset timeout_ms s.0.topic s.0.partition) attempts s)
