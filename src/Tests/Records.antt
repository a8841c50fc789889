-- ===== src/Tests/Records.antt =====
-- The theorems about src/protocol/record.rs at concrete inputs. The crates are instantiated by simple
-- functions that keep the promises: integers of eight bytes, a checksum that is a length, and
-- compressions that change nothing.
use rskafka.Prelude.{
  ℕ, ◌%◌, ◌^◌, ◌≡◌, ◌≢◌, refl, arith, false, none, some, List, [], ◌∷◌, ◌++◌, length, take, drop,
  take-append-drop, ap, sym, ◌∙◌,
}
use rskafka.Prelude.Int.{pos, negsuc}
use rskafka.Prelude.Result.{ok}
use rskafka.Protocol.Traits.{write_each, ◌then_write◌}
use rskafka.Protocol.Traits.Laws.{RoundTrips, written}
use rskafka.Protocol.Primitives.Ints.{
  half64, read_int, to_be_bytes, write_int8, write_int16, write_int32, write_int64,
}
use rskafka.Protocol.Primitives.Ints.Laws.{int-Reads}
use rskafka.Protocol.Primitives.Zigzag.{Zigzag, ZigzagLaws}
use rskafka.Protocol.Primitives.Text.Utf8.{is_utf8}
use rskafka.Protocol.Primitives.Text.Laws.{IsText}
use rskafka.Protocol.Record.{
  Record, abort, control_batch, records, RecordBatchCompression, no_compression, gzip, snappy, lz4,
  zstd, create_time, RecordBatchBody, RecordBatch,
}
use rskafka.Protocol.Record.Entry.{write_control_record}
use rskafka.Protocol.Record.Entry.Laws.{IsRecord}
use rskafka.Protocol.Record.Batch.{
  Compressor, Libraries, codec_of, write_record_batch_body, read_record_batch, write_record_batch,
  write_records,
}
use rskafka.Protocol.Record.Batch.Laws.{LibraryLaws, Decodes, IsBody}
use rskafka.Protocol.Record.Batch.Checked.{IsBatch, record_batch_round_trip}
use rskafka.Protocol.Record.Batches.{read_batches, read_record_batches, write_record_batches}
use rskafka.Protocol.Record.Batches.Laws.{cut_off_batch_is_dropped, record_batches_round_trip}
use rskafka.Protocol.Record.Batches.Rounds.{Runs, batch_rounds_are_enough}

abbrev eight_bytes : Zigzag
eight_bytes = record { read_varint = read_int 8 half64; write_varint = to_be_bytes 8 half64 }

eight_bytes-ZigzagLaws : ZigzagLaws eight_bytes
eight_bytes-ZigzagLaws = record { back = int-Reads 8 half64 refl }

abbrev stored : Compressor
stored = record { decompress = λ s. ok (s, []); compress = λ bs. ok bs }

abbrev crates : Libraries
crates = record {
  zigzag = eight_bytes;
  crc32c = λ bs. length bs % 2 ^ 32;
  gzip_codec = stored;
  snappy_codec = stored;
  lz4_codec = stored;
  zstd_codec = stored;
}

stored-Decodes : Decodes (some stored)
stored-Decodes bs cs e = cc e

crates-Decodes : (c : RecordBatchCompression) → Decodes (codec_of crates c)
crates-Decodes no_compression = tt
crates-Decodes gzip = stored-Decodes
crates-Decodes snappy = stored-Decodes
crates-Decodes lz4 = stored-Decodes
crates-Decodes zstd = stored-Decodes

crates-LibraryLaws : LibraryLaws crates
crates-LibraryLaws = record {
  zigzag = eight_bytes-ZigzagLaws;
  crc = λ bs. omega arith;
  codecs = crates-Decodes;
}

abbrev entry : Record
entry = record {
  timestamp_delta = pos 7;
  offset_delta = pos 0;
  key = none;
  value = some (1 ∷ 2 ∷ []);
  headers = record { key = 97 ∷ []; value = [] } ∷ [];
}

a-IsText : IsText (97 ∷ [])
unfolding is_utf8
a-IsText = record { utf8 = refl }

entry-IsRecord : IsRecord entry
entry-IsRecord = record { timestamp = omega arith; offset = omega arith; keys = (a-IsText, tt) }

abbrev body : RecordBatchBody
body = record {
  last_offset_delta = pos 0;
  first_timestamp = pos 1000;
  max_timestamp = pos 1007;
  producer_id = negsuc 0;
  producer_epoch = negsuc 0;
  base_sequence = negsuc 0;
  records = records (entry ∷ []);
  compression = gzip;
  is_transactional = false;
  timestamp_type = create_time;
}

body-IsBody : IsBody body
body-IsBody = record {
  last_offset_delta = omega arith;
  first_timestamp = omega arith;
  max_timestamp = omega arith;
  producer_id = omega arith;
  producer_epoch = omega arith;
  base_sequence = omega arith;
  records = (entry-IsRecord, tt);
}

abbrev batch : RecordBatch
batch = record { base_offset = pos 5; partition_leader_epoch = pos 1; body = body }

batch-IsBatch : IsBatch batch
batch-IsBatch = record {
  base_offset = omega arith;
  partition_leader_epoch = omega arith;
  body = body-IsBody;
}

record_batch_round_trip_example :
    RoundTrips (read_record_batch crates) (write_record_batch crates batch) batch
record_batch_round_trip_example =
    record_batch_round_trip crates crates-LibraryLaws batch batch-IsBatch

record_batches_round_trip_example :
    RoundTrips
      (read_record_batches crates)
      (write_record_batches crates (batch ∷ batch ∷ []))
      (batch ∷ batch ∷ [])
record_batches_round_trip_example =
    record_batches_round_trip crates crates-LibraryLaws (batch ∷ batch ∷ [])
      (batch-IsBatch, (batch-IsBatch, tt))

batch_rounds_are_enough_example : Runs crates (1 ∷ 2 ∷ []) (read_batches crates 2 (1 ∷ 2 ∷ []))
batch_rounds_are_enough_example = batch_rounds_are_enough crates 2 (1 ∷ 2 ∷ []) (omega arith)

-- A control batch, of 65 bytes.
abbrev ending : RecordBatch
ending = record batch {
  body = record body { records = control_batch abort; compression = no_compression };
}

ending-IsBatch : IsBatch ending
ending-IsBatch = record {
  base_offset = omega arith;
  partition_leader_epoch = omega arith;
  body = record {
    last_offset_delta = omega arith;
    first_timestamp = omega arith;
    max_timestamp = omega arith;
    producer_id = omega arith;
    producer_epoch = omega arith;
    base_sequence = omega arith;
    records = tt;
  };
}

abbrev ending_bytes : List ℕ
ending_bytes = written (write_record_batch crates ending)

ending_written : write_record_batch crates ending ≡ ok ending_bytes
unfolding write_record_batch write_record_batch_body ◌then_write◌ write_int16 write_int32
    write_int64 write_records write_control_record write_int8
ending_written = refl

abbrev front : List ℕ
front = take 20 ending_bytes

abbrev back : List ℕ
back = drop 20 ending_bytes

ending_in_parts : write_record_batch crates ending ≡ ok (front ++ back)
ending_in_parts = ending_written ∙ ap ok (sym (take-append-drop 20 ending_bytes))

back_left : back ≢ []
unfolding write_record_batch write_record_batch_body ◌then_write◌ write_int16 write_int32
    write_int64 write_records write_control_record write_int8
back_left e = cc e

one_written : write_each (write_record_batch crates) (ending ∷ []) ≡ ok (ending_bytes ++ [])
unfolding write_each ◌then_write◌
one_written = rw ending_written refl

cut_off_batch_is_dropped_example :
    read_batches crates (length ((ending_bytes ++ []) ++ front)) ((ending_bytes ++ []) ++ front)
    ≡ ok (ending ∷ [])
cut_off_batch_is_dropped_example =
    cut_off_batch_is_dropped crates crates-LibraryLaws (ending ∷ []) ending (ending_bytes ++ [])
      front back (ending-IsBatch, tt) ending-IsBatch one_written ending_in_parts back_left
