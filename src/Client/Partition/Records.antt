-- ===== src/Client/Partition/Records.antt =====
-- `extract_records` of src/client/partition.rs: the records of a fetch. Times are chrono's, with how it
-- reads milliseconds.
pub mod Laws
use rskafka.Prelude.{
  ℕ, ◌-◌, ◌^◌, Bool, ◌&&◌, if◌then◌else◌, Option, none, some, List, [], ◌∷◌, ◌++◌, map,
}
use rskafka.Prelude.Int.{ℤ, pos, negsuc, ◌+ℤ◌, leb_ℤ, ltb_ℤ, to_word, from_word}
use rskafka.Prelude.Result.{Result, ok, err, panic, ◌>>=◌}
use rskafka.Protocol.Primitives.Ints.{half64}
use rskafka.Protocol.Primitives.Text.Utf8.{Text}
use rskafka.Protocol.Record.{
  RecordBatch, RecordHeader, ControlBatchOrRecords, control_batch, records,
}
use rskafka.Protocol.Record as Protocol
use rskafka.Client.Records.Headers.{collect_into}
use rskafka.Client.Records.{Record, RecordAndOffset}
use rskafka.Client.Error.{
  Error, invalid_response, timestamp_overflow, not_a_timestamp, ambiguous_timestamp,
}

-- chrono's `LocalResult`
pub data LocalResult (Time : Type 0) : Type 0 where
  no_time : LocalResult Time
  single : Time → LocalResult Time
  ambiguous : Time → Time → LocalResult Time

-- `+` and `checked_add` on `i64`. The `+` wraps, as it does without overflow checks.
unfoldable pub add_64 : ℤ → ℤ → ℤ
add_64 a b = from_word half64 (to_word half64 (a +ℤ b))

unfoldable pub checked_add_64 : ℤ → ℤ → Option ℤ
checked_add_64 a b =
    if leb_ℤ (negsuc (half64 - 1)) (a +ℤ b) && leb_ℤ (a +ℤ b) (pos (half64 - 1))
    then some (a +ℤ b)
    else none

unfoldable pub offset_of : RecordBatch → Protocol.Record → ℤ
offset_of batch r = add_64 batch.base_offset r.offset_delta

abbrev pub header_pairs : List RecordHeader → List (Text × List ℕ)
header_pairs = map λ (h : RecordHeader). (h.key, h.value)

-- The headers are collected into a map.
abbrev pub converted : {Time : Type 0} → RecordBatch → Protocol.Record → Time → RecordAndOffset Time
converted batch r time = record {
  content = record {
    key = r.key;
    value = r.value;
    headers = collect_into [] (header_pairs r.headers);
    timestamp = time;
  };
  offset = offset_of batch r;
}

module _ {Time : Type 0} (timestamp_millis_opt : ℤ → LocalResult Time) where
  abbrev pub local_time : ℤ → LocalResult Time → Result Error Time
  local_time ms no_time = err (invalid_response (not_a_timestamp ms))
  local_time ms (single t) = ok t
  local_time ms (ambiguous a b) = err (invalid_response (ambiguous_timestamp ms))

  abbrev pub checked_time : ℤ → ℤ → Option ℤ → Result Error Time
  checked_time first delta none = err (invalid_response (timestamp_overflow first delta))
  checked_time first delta (some ms) = local_time ms (timestamp_millis_opt ms)

  unfoldable pub time_of : RecordBatch → Protocol.Record → Result Error Time
  time_of batch r =
      checked_time batch.body.first_timestamp r.timestamp_delta
        (checked_add_64 batch.body.first_timestamp r.timestamp_delta)

module _ {Time : Type 0} (timestamp_millis_opt : ℤ → LocalResult Time) (request_offset : ℤ) where
  -- The loop over the records of a batch, with those that were taken so far.
  unfoldable pub extract_each :
      RecordBatch
      → List Protocol.Record
      → List (RecordAndOffset Time)
      → Result Error (List (RecordAndOffset Time))
  extract_each batch [] taken = ok taken
  extract_each batch (r ∷ rs) taken =
      let skipped = extract_each batch rs taken in
      let kept = time_of timestamp_millis_opt batch r >>= λ time.
      extract_each batch rs (taken ++ converted batch r time ∷ []) in
      if ltb_ℤ (offset_of batch r) request_offset then skipped else kept

  abbrev pub extract_batch :
      RecordBatch
      → ControlBatchOrRecords
      → List (RecordAndOffset Time)
      → Result Error (List (RecordAndOffset Time))
  extract_batch batch (control_batch c) taken = ok taken
  extract_batch batch (records rs) taken = extract_each batch rs taken

  unfoldable pub extract_from :
      List RecordBatch → List (RecordAndOffset Time) → Result Error (List (RecordAndOffset Time))
  extract_from [] taken = ok taken
  extract_from (b ∷ bs) taken = extract_batch b b.body.records taken >>= extract_from bs

  unfoldable pub extract_records : List RecordBatch → Result Error (List (RecordAndOffset Time))
  extract_records batches = extract_from batches []
