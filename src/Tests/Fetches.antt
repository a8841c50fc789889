-- ===== src/Tests/Fetches.antt =====
-- The theorems about the responses of src/client/partition.rs, and fetching, at concrete inputs.
use rskafka.Prelude.{ℕ, ◌≡◌, ◌↔◌, false, none, some, List, [], ◌∷◌}
use rskafka.Prelude.Int.{ℤ, pos, negsuc}
use rskafka.Prelude.Result.{ok}
use rskafka.Protocol.Record.{RecordBatch, no_compression, create_time, records}
use rskafka.Protocol.Record as Protocol
use rskafka.Protocol.Messages.Fetch.{FetchRequest, FetchResponse, FetchResponsePartition}
use rskafka.Client.Partition.{give_error}
use rskafka.Protocol.Messages.ListOffsets.{ListOffsetsResponse, ListOffsetsResponsePartition}
use rskafka.Protocol.Messages.DeleteRecords.{DeleteRecordsResponse, DeleteResponsePartition}
use rskafka.Client.Partition.Responses.{
  process_fetch_response, process_list_offsets_response, process_delete_records_response,
}
use rskafka.Client.Partition.Responses.Laws.{
  FetchedFor, ListedFor, DeletedFor, responses_are_for_the_partition,
}
use rskafka.Client.Retry.Laws.{Ends}
use rskafka.Client.Partition.Retry.Laws.{IsReported}
use rskafka.Client.Partition.Operations.{Attempts, fetch_records}
use rskafka.Client.Partition.Operations.Laws.{Fetched, fetch_records_from_offset}
use rskafka.Client.Partition.Records.{
  LocalResult, single, no_time, header_pairs, converted, extract_records,
}
use rskafka.Client.Records.Headers.Laws.{Collects}
use rskafka.Client.Partition.Records.Laws.{
  all_records, from_offset, convert_all, extract_records_is_filtered,
}
use rskafka.Tests.Brokers.{name, connector, unbound, names}

-- Times are milliseconds, and those before the epoch are invalid.
abbrev time : ℤ → LocalResult ℕ
time (pos n) = single n
time (negsuc n) = no_time

abbrev short_batch : RecordBatch
short_batch = record {
  base_offset = pos 10;
  partition_leader_epoch = pos 0;
  body = record {
    last_offset_delta = pos 1;
    first_timestamp = pos 1000;
    max_timestamp = pos 1001;
    producer_id = negsuc 0;
    producer_epoch = negsuc 0;
    base_sequence = negsuc 0;
    records = records (
        record {
          key = none;
          value = none;
          timestamp_delta = pos 0;
          offset_delta = pos 0;
          headers = [];
        }
        ∷ record {
          key = none;
          value = none;
          timestamp_delta = pos 1;
          offset_delta = pos 1;
          headers = [];
        }
        ∷ []);
    compression = no_compression;
    is_transactional = false;
    timestamp_type = create_time;
  };
}

extract_records_is_filtered_example :
    (extract_records time (pos 11) (short_batch ∷ [])
      ≡ convert_all time (from_offset (pos 11) (all_records (short_batch ∷ []))))
    × ((b : RecordBatch) (r : Protocol.Record) (t : ℕ)
        → Collects (header_pairs r.headers) (converted b r t).content.headers)
extract_records_is_filtered_example = extract_records_is_filtered time (pos 11) (short_batch ∷ [])

abbrev fetched_partition : List RecordBatch → FetchResponsePartition
fetched_partition batches = record {
  partition_index = pos 0;
  error_code = none;
  high_watermark = pos 12;
  last_stable_offset = some (pos 12);
  aborted_transactions = [];
  records = batches;
}

abbrev fetched : List RecordBatch → FetchResponse
fetched batches = record {
  throttle_time_ms = none;
  responses = record { topic = name; partitions = fetched_partition batches ∷ [] } ∷ [];
}

abbrev fetches : Attempts ℕ FetchRequest FetchResponse
fetches =
    record {
      brokers = names (pos 1);
      answers = λ c r. ok (fetched (short_batch ∷ []));
      is_last = false;
    }
    ∷ []

fetch_records_from_offset_example :
    Ends
      (IsReported give_error)
      (Fetched (pos 11))
      (fetch_records time (pos 11) (pos 1, pos 100) (pos 500) fetches (unbound, connector)).0
fetch_records_from_offset_example =
    fetch_records_from_offset time (pos 11) (pos 500) (pos 1, pos 100) fetches (unbound, connector)

abbrev listed : ListOffsetsResponsePartition
listed = record {
  partition_index = pos 0;
  error_code = none;
  old_style_offsets = none;
  timestamp = some (pos 0);
  offset = some (pos 40);
}

abbrev listing : ListOffsetsResponse
listing = record {
  throttle_time_ms = none;
  topics = record { name = name; partitions = listed ∷ [] } ∷ [];
}

abbrev deleted : DeleteResponsePartition
deleted = record {
  partition_index = pos 0;
  low_watermark = pos 40;
  error = none;
  tagged_fields = none;
}

abbrev deletion : DeleteRecordsResponse
deletion = record {
  throttle_time_ms = pos 0;
  topics = record { name = name; partitions = deleted ∷ []; tagged_fields = none } ∷ [];
  tagged_fields = none;
}

responses_are_for_the_partition_example :
    ((process_fetch_response (pos 0) name (fetched []) (pos 11) ≡ ok (fetched_partition []))
      ↔ FetchedFor name (pos 0) (fetched []) (fetched_partition []))
    × ((process_list_offsets_response (pos 0) name listing ≡ ok listed)
        ↔ ListedFor name (pos 0) listing listed)
    × ((process_delete_records_response name (pos 0) deletion ≡ ok deleted)
        ↔ DeletedFor name (pos 0) deletion deleted)
responses_are_for_the_partition_example =
    responses_are_for_the_partition name (pos 0) (pos 11) (fetched []) (fetched_partition [])
      listing listed deletion deleted
