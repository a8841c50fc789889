-- ===== src/Client/Partition/Requests.antt =====
-- The requests of src/client/partition.rs. What is taken from chrono is a parameter.
use rskafka.Prelude.{ℕ, suc, ◌-◌, false, if◌then◌else◌, none, some, List, [], ◌∷◌, length, map}
use rskafka.Prelude.Int.{ℤ, pos, negsuc, ◌-ℤ◌, leb_ℤ, to_word, from_word}
use rskafka.Prelude.Result.{Result, ok, panic}
use rskafka.Protocol.Primitives.Ints.{half32}
use rskafka.Protocol.Primitives.Text.Utf8.{Text}
use rskafka.Protocol.Record.{
  RecordBatch, RecordHeader, RecordBatchCompression, records, create_time,
}
use rskafka.Protocol.Record as Protocol
use rskafka.Protocol.Messages.Constants.{normal_consumer, read_committed}
use rskafka.Protocol.Messages.Produce.{ProduceRequest}
use rskafka.Protocol.Messages.Fetch.{FetchRequest}
use rskafka.Protocol.Messages.ListOffsets.{ListOffsetsRequest}
use rskafka.Protocol.Messages.DeleteRecords.{DeleteRecordsRequest}
use rskafka.Client.Records.{Record}

pub data OffsetAt : Type 0 where
  earliest latest : OffsetAt

-- Of chrono's `DateTime<Utc>`: `max`, the milliseconds since the epoch, and those between two times.
pub record Chrono (Time : Type 0) : Type 0 where
  pub later : Time → Time → Time
  pub timestamp_millis : Time → ℤ
  pub num_milliseconds : Time → Time → ℤ

-- `as i32`
abbrev pub to_i32 : ℕ → ℤ
to_i32 n = from_word half32 (to_word half32 (pos n))

module _ {Time : Type 0} (chrono : Chrono Time) where
  abbrev pub protocol_record : Time → ℕ → Record Time → Protocol.Record
  protocol_record first delta r = record {
    key = r.key;
    value = r.value;
    timestamp_delta = chrono.num_milliseconds r.timestamp first;
    offset_delta = to_i32 delta;
    headers = map (λ (h : Text × List ℕ). record { key = h.0; value = h.1 }) r.headers;
  }

  -- `enumerate().map(…)`, from `delta` on
  unfoldable pub protocol_records : Time → ℕ → List (Record Time) → List Protocol.Record
  protocol_records first delta [] = []
  protocol_records first delta (r ∷ rs) =
      protocol_record first delta r ∷ protocol_records first (suc delta) rs

  unfoldable pub max_timestamp : Time → List (Record Time) → Time
  max_timestamp t [] = t
  max_timestamp t (r ∷ rs) = max_timestamp (chrono.later t r.timestamp) rs

  unfoldable pub record_batch :
      Record Time → List (Record Time) → RecordBatchCompression → RecordBatch
  record_batch r rs method = record {
    base_offset = pos 0;
    partition_leader_epoch = pos 0;
    body = record {
      last_offset_delta = to_i32 (length (r ∷ rs)) -ℤ pos 1;
      first_timestamp = chrono.timestamp_millis r.timestamp;
      max_timestamp = chrono.timestamp_millis (max_timestamp r.timestamp (r ∷ rs));
      producer_id = negsuc 0;
      producer_epoch = negsuc 0;
      base_sequence = negsuc 0;
      records = records (protocol_records r.timestamp 0 (r ∷ rs));
      compression = method;
      is_transactional = false;
      timestamp_type = create_time;
    };
  }

  -- Without a record, `first().unwrap()` panics.
  unfoldable pub build_produce_request :
      {E : Type 0}
      → ℤ
      → Text
      → List (Record Time)
      → RecordBatchCompression
      → Result E ProduceRequest
  build_produce_request partition topic [] method = panic
  build_produce_request partition topic (r ∷ rs) method = ok (record {
    transactional_id = none;
    acks = negsuc 0;
    timeout_ms = pos 30000;
    topic_data =
        record {
          name = topic;
          partition_data =
              record { index = partition; records = record_batch r rs method ∷ [] } ∷ [];
        }
        ∷ [];
  })

-- `saturating_sub(1)` on `i32`
unfoldable pub one_less : ℤ → ℤ
one_less z = if leb_ℤ z (negsuc (half32 - 1)) then negsuc (half32 - 1) else z -ℤ pos 1

-- The range of bytes is from `start` up to below `end`.
unfoldable pub build_fetch_request : ℤ → ℤ × ℤ → ℤ → ℤ → Text → FetchRequest
build_fetch_request offset (start, end) max_wait_ms partition topic = record {
  replica_id = normal_consumer;
  max_wait_ms = max_wait_ms;
  min_bytes = start;
  max_bytes = some (one_less end);
  isolation_level = some read_committed;
  topics =
      record {
        topic = topic;
        partitions =
            record {
              partition = partition;
              fetch_offset = offset;
              partition_max_bytes = one_less end;
            }
            ∷ [];
      }
      ∷ [];
}

abbrev pub timestamp_of : OffsetAt → ℤ
timestamp_of earliest = negsuc 1
timestamp_of latest = negsuc 0

unfoldable pub build_list_offsets_request : ℤ → Text → OffsetAt → ListOffsetsRequest
build_list_offsets_request partition topic at = record {
  replica_id = normal_consumer;
  isolation_level = some read_committed;
  topics =
      record {
        name = topic;
        partitions =
            record {
              partition_index = partition;
              timestamp = timestamp_of at;
              max_num_offsets = some (pos 1);
            }
            ∷ [];
      }
      ∷ [];
}

unfoldable pub build_delete_records_request : ℤ → ℤ → Text → ℤ → DeleteRecordsRequest
build_delete_records_request offset timeout_ms topic partition = record {
  topics =
      record {
        name = topic;
        partitions =
            record { partition_index = partition; offset = offset; tagged_fields = none } ∷ [];
        tagged_fields = none;
      }
      ∷ [];
  timeout_ms = timeout_ms;
  tagged_fields = none;
}
