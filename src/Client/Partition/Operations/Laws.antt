-- ===== src/Client/Partition/Operations/Laws.antt =====
-- What the operations of `PartitionClient` of src/client/partition.rs return.
use rskafka.Prelude.{ℕ, ◌≡◌, refl, subst, Option, none, some, List, [], ◌∷◌, length, All}
use mathlib.Core.List.{Memᴰ}
use rskafka.Prelude.Int.{ℤ, ◌≤ℤ◌}
use rskafka.Prelude.Result.{Result, ok, err, panic, >>=-eq-ok, map_ok}
use rskafka.Protocol.Primitives.Text.Utf8.{Text}
use rskafka.Protocol.Record.{RecordBatchCompression}
use rskafka.Protocol.Messages.Produce.{
  ProduceRequest, ProduceResponse, ProduceResponseResponse, ProduceResponsePartitionResponse,
}
use rskafka.Protocol.Messages.Fetch.{FetchRequest, FetchResponse, FetchResponsePartition}
use rskafka.Client.Records.{Record, RecordAndOffset}
use rskafka.Client.Error.{Error, for_partition}
use rskafka.Client.Partition.Leader.{Brokers}
use rskafka.Client.Partition.{UnknownTopicHandling}
use rskafka.Client.Partition.Responses.{
  process_produce_response, process_fetch_response, offsets_from, checked_response,
}
use rskafka.Client.Partition.Responses.Laws.{
  AreConsecutive, offsets_from-AreConsecutive, ProducedFor, response_is_checked,
}
use rskafka.Client.Partition.Records.Laws.{Yields, extract_records-Yields}
use rskafka.Client.Partition.Records.{LocalResult, extract_records}
use rskafka.Client.Partition.Requests.{Chrono, build_produce_request, build_fetch_request}
use rskafka.Client.Retry.{Attempt, attempt}
use rskafka.Client.Retry.Laws.{Ends, IsAnswer, attempt-Returns}
use rskafka.Client.Partition.Retry.Laws.{IsReported, maybe_retry-Reports}
use rskafka.Client.Partition.Operations.{
  State, Attempts, get_on, invalidate_on, retried, finished, produce, taken, fetch_records,
}

module _ {Conn Req Resp T : Type 0} (throttle_time_ms : Resp → Option ℤ)
    (process : Resp → Result Error T) (req : Req) (P : T → Type 0) where
  pub retried-Ends :
      (attempts : Attempts Conn Req Resp) (s : State Conn)
      → ((a : Attempt (Brokers Conn) Conn Req Resp)
          → Memᴰ a attempts
          → (r : Resp) (t : T) → IsAnswer req r a
          → process r ≡ ok t
          → P t)
      → Ends
          (IsReported s.0.unknown_topic_handling)
          P
          (retried throttle_time_ms process req attempts s).0
  unfolding retried
  retried-Ends attempts s each =
      maybe_retry-Reports invalidate_on (λ a. a.is_last)
        (attempt get_on throttle_time_ms process req) s.0.unknown_topic_handling P attempts s
        (λ a m s. attempt-Returns get_on throttle_time_ms process req P a (each a m) s)

-- The offsets of records: none for no record, and else consecutive from the base offset that a broker
-- gave for the partition, without an error, when it answered to the request with the records.
module _ {Conn Time : Type 0} (chrono : Chrono Time) (topic : Text) (partition : ℤ)
    (method : RecordBatchCompression)
    (attempts : Attempts Conn ProduceRequest ProduceResponse) where
  pub data AreGiven : List (Record Time) → List ℤ → Type 0 where
    nothing : AreGiven [] []
    given :
        (r : Record Time) (rs : List (Record Time)) (offsets : List ℤ) (req : ProduceRequest)
        (a : Attempt (Brokers Conn) Conn ProduceRequest ProduceResponse) (answer : ProduceResponse)
        (p : ProduceResponsePartitionResponse)
        → build_produce_request chrono {E = Error} partition topic (r ∷ rs) method ≡ ok req
        → Memᴰ a attempts
        → IsAnswer req answer a
        → ProducedFor topic partition answer p
        → AreConsecutive p.base_offset (length (r ∷ rs)) offsets
        → AreGiven (r ∷ rs) offsets

produced-AreConsecutive :
    (partition : ℤ) (topic : Text) (n : ℕ) (r : ProduceResponse) (offsets : List ℤ)
    → process_produce_response partition topic n r ≡ ok offsets
    → (p : ProduceResponsePartitionResponse) × ProducedFor topic partition r p
      × AreConsecutive p.base_offset n offsets
unfolding process_produce_response
produced-AreConsecutive partition topic n r offsets h =
    let accepted =
      checked_response (λ (t : ProduceResponseResponse). t.name) (λ t. t.partition_responses)
        (λ p. p.index) (λ p. p.error) (λ p. none) (for_partition topic partition) topic partition
        r.responses in
    let (p, e, last) = >>=-eq-ok accepted (λ p. ok (offsets_from p.base_offset 0 n)) offsets h in
    let same : offsets_from p.base_offset 0 n ≡ offsets = cc last in
    (
      p,
      (response_is_checked _ _ _ _ _ _ topic partition r.responses p).0 e,
      subst (AreConsecutive p.base_offset n) same (offsets_from-AreConsecutive p.base_offset n),
    )

module _ {Conn Time : Type 0} (chrono : Chrono Time) where
  -- Producing no record ends with no offset. Producing records ends with one offset for each record,
  -- consecutive from the base offset in the answer that a broker gave to the request with these
  -- records, and that is for the topic and the partition, without an error. Or it ends with an error
  -- that is for the user, however often it is tried.
  pub produce_gives_offsets :
      (rs : List (Record Time)) (method : RecordBatchCompression)
      (attempts : Attempts Conn ProduceRequest ProduceResponse) (s : State Conn)
      → Ends
          (IsReported s.0.unknown_topic_handling)
          (AreGiven chrono s.0.topic s.0.partition method attempts rs)
          (produce chrono rs method attempts s).0
  unfolding produce build_produce_request
  produce_gives_offsets [] method attempts s = nothing
  produce_gives_offsets (r ∷ rs) method attempts s =
      retried-Ends (λ r. r.throttle_time_ms)
        (process_produce_response s.0.partition s.0.topic (length (r ∷ rs))) _ _ attempts s
        (λ a m answer offsets h e.
          let (p, is_for, consecutive) =
            produced-AreConsecutive s.0.partition s.0.topic (length (r ∷ rs)) answer offsets e in
          given r rs offsets _ a answer p refl m h is_for consecutive)

module _ {Time : Type 0} where
  abbrev pub Fetched : ℤ → List (RecordAndOffset Time) × ℤ → Type 0
  Fetched o x = All (λ r. o ≤ℤ r.offset) x.0

  watermark-Ends :
      (handling : UnknownTopicHandling) (o w : ℤ) (r : Result Error (List (RecordAndOffset Time)))
      → Yields (λ rs. All (λ x. o ≤ℤ x.offset) rs) r
      → Ends (IsReported handling) (Fetched o) (some (map_ok (λ rs. (rs, w)) r))
  watermark-Ends handling o w (ok rs) h = h
  watermark-Ends handling o w (err e) (x, h) = rw h tt
  watermark-Ends handling o w panic h = tt

module _ {Conn Time : Type 0} (timestamp_millis_opt : ℤ → LocalResult Time) where
  finished-Ends :
      (handling : UnknownTopicHandling) (o : ℤ) (r : Option (Result Error FetchResponsePartition))
      (s : State Conn)
      → Ends (IsReported handling) (λ p. Unit {0}) r
      → Ends (IsReported handling) (Fetched o) (finished (taken timestamp_millis_opt o) (r, s)).0
  finished-Ends handling o none s h = tt
  finished-Ends handling o (some (ok p)) s h =
      watermark-Ends handling o p.high_watermark (extract_records timestamp_millis_opt o p.records)
        (extract_records-Yields timestamp_millis_opt o p.records)
  finished-Ends handling o (some (err e)) s h = h
  finished-Ends handling o (some panic) s h = tt

  -- Fetching ends with records from the offset on that was asked for, whatever batches the broker sends,
  -- or with an error that is for the user, however often it is tried.
  pub fetch_records_from_offset :
      (o max_wait_ms : ℤ) (bytes : ℤ × ℤ) (attempts : Attempts Conn FetchRequest FetchResponse)
      (s : State Conn)
      → Ends
          (IsReported s.0.unknown_topic_handling)
          (Fetched o)
          (fetch_records timestamp_millis_opt o bytes max_wait_ms attempts s).0
  unfolding fetch_records
  fetch_records_from_offset o max_wait_ms bytes attempts s =
      finished-Ends s.0.unknown_topic_handling o _ _ (
        retried-Ends (λ r. r.throttle_time_ms)
          (λ r. process_fetch_response s.0.partition s.0.topic r o)
          (build_fetch_request o bytes max_wait_ms s.0.partition s.0.topic) (λ p. Unit {0}) attempts
          s (λ a m r t h k. tt))
