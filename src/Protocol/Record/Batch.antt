-- ===== src/Protocol/Record/Batch.antt =====
-- Record batches of src/protocol/record.rs. What third-party crates do for them is a parameter.
pub mod Whole
pub mod Laws
pub mod Checked
use rskafka.Prelude.{
  ℕ, zero, suc, ◌+◌, ◌-◌, ◌==◌, ltb, if◌then◌else◌, Bool, true, false, Option, none, some, List, [],
  ◌∷◌, length,
}
use rskafka.Prelude.Int.{ℤ, pos, negsuc, eqb_ℤ, to_word, from_word}
use rskafka.Prelude.Result.{Result, ok, err, panic}
use rskafka.Protocol.Traits.{
  Reader, Writer, ReadError, WriteError, ◌>>=◌, pure, fail, lift, read_times, write_all,
  ◌then_write◌, write_each,
}
use rskafka.Protocol.VecBuilder.{read_vec}
use rskafka.Protocol.Primitives.Ints.{
  half16, half32, read_int8, write_int8, read_int16, write_int16, read_int32, write_int32,
  read_int64, write_int64,
}
use rskafka.Protocol.Primitives.Zigzag.{Zigzag}
use rskafka.Protocol.Primitives.Lengths.{with_length, with_usize}
use rskafka.Protocol.Record.{
  ControlBatchOrRecords, control_batch, records, RecordBatchCompression, no_compression, gzip,
  snappy, lz4, zstd, RecordBatchTimestampType, RecordBatchBody, RecordBatch,
}
use rskafka.Protocol.Record.Attributes.{
  attributes_of, compression_in, timestamp_type_in, is_transactional_in, is_control_in,
}
use rskafka.Protocol.Record.Entry.{
  with_buffer, read_record, write_record, read_control_record, write_control_record,
}

-- A compression: what a decoder yields from the bytes that are left, until its end, and what it
-- leaves of them; and what an encoder that is finished has written. A decoder that fails is taken to
-- do so before it yields anything.
pub record Compressor : Type 0 where
  pub decompress : Reader (List ℕ)
  pub compress : List ℕ → Writer

-- integer-encoding, crc32c, and the four compressions of the build with all features.
pub record Libraries : Type 0 where
  pub zigzag : Zigzag
  pub crc32c : List ℕ → ℕ
  pub gzip_codec : Compressor
  pub snappy_codec : Compressor
  pub lz4_codec : Compressor
  pub zstd_codec : Compressor

-- A reader that has to take up all of a buffer.
abbrev all_read : {A : Type 0} → Result ReadError (A × List ℕ) → Result ReadError A
all_read (ok (a, [])) = ok a
all_read (ok (a, b ∷ left)) = err ReadError.malformed
all_read (err e) = err e
all_read panic = panic

unfoldable pub read_all : {A : Type 0} → Reader A → List ℕ → Result ReadError A
read_all r bs = all_read (r bs)

module _ (lib : Libraries) where
  abbrev pub codec_of : RecordBatchCompression → Option Compressor
  codec_of no_compression = none
  codec_of gzip = some lib.gzip_codec
  codec_of snappy = some lib.snappy_codec
  codec_of lz4 = some lib.lz4_codec
  codec_of zstd = some lib.zstd_codec

  unfoldable pub read_records : Bool → ℕ → Reader ControlBatchOrRecords
  read_records true n =
      if n == 1
      then (do c ← read_control_record; pure (control_batch c))
      else fail ReadError.malformed
  read_records false n = do rs ← read_times n (read_record lib.zigzag); pure (records rs)

  -- The records, behind a decoder that has to be at its end after them.
  abbrev pub read_coded : Option Compressor → Bool → ℕ → Reader ControlBatchOrRecords
  read_coded none is_control n = read_records is_control n
  read_coded (some codec) is_control n = do
    output ← codec.decompress
    lift (read_all (read_records is_control n) output)

  -- `-1 => 0, n => usize::try_from(n)?`
  abbrev pub n_records_of : {A : Type 0} → ℤ → (ℕ → Reader A) → Reader A
  n_records_of (negsuc zero) k = k 0
  n_records_of (negsuc (suc n)) k = fail ReadError.overflow
  n_records_of (pos n) k = k n

  abbrev pub body_fields : ℕ → RecordBatchCompression → Reader RecordBatchBody
  body_fields attributes compression = do
    last_offset_delta ← read_int32
    first_timestamp ← read_int64
    max_timestamp ← read_int64
    producer_id ← read_int64
    producer_epoch ← read_int16
    base_sequence ← read_int32
    n ← read_int32
    recs ← n_records_of n (read_coded (codec_of compression) (is_control_in attributes))
    pure (record {
      last_offset_delta = last_offset_delta;
      first_timestamp = first_timestamp;
      max_timestamp = max_timestamp;
      producer_id = producer_id;
      producer_epoch = producer_epoch;
      base_sequence = base_sequence;
      records = recs;
      compression = compression;
      is_transactional = is_transactional_in attributes;
      timestamp_type = timestamp_type_in attributes;
    })

  abbrev pub body_with : ℕ → Option RecordBatchCompression → Reader RecordBatchBody
  body_with attributes none = fail ReadError.malformed
  body_with attributes (some compression) = body_fields attributes compression

  unfoldable pub read_record_batch_body : Reader RecordBatchBody
  read_record_batch_body = do
    attributes ← read_int16
    body_with (to_word half16 attributes) (compression_in (to_word half16 attributes))

  unfoldable pub write_records : ControlBatchOrRecords → Writer
  write_records (control_batch c) = write_control_record c
  write_records (records rs) = write_each (write_record lib.zigzag) rs

  abbrev pub write_coded : Option Compressor → ControlBatchOrRecords → Writer
  write_coded none rs = write_records rs
  write_coded (some codec) rs = with_buffer (write_records rs) codec.compress

  abbrev pub is_control : ControlBatchOrRecords → Bool
  is_control (control_batch c) = true
  is_control (records rs) = false

  abbrev pub n_records : ControlBatchOrRecords → ℕ
  n_records (control_batch c) = 1
  n_records (records rs) = length rs

  -- `RecordBatchBodyRef`, which `RecordBatchBody` writes through.
  unfoldable pub write_record_batch_body : RecordBatchBody → Writer
  write_record_batch_body b =
      write_int16 (
        pos
          (attributes_of b.compression b.timestamp_type b.is_transactional (is_control b.records)))
      then_write write_int32 b.last_offset_delta
      then_write write_int64 b.first_timestamp
      then_write write_int64 b.max_timestamp
      then_write write_int64 b.producer_id
      then_write write_int16 b.producer_epoch
      then_write write_int32 b.base_sequence
      then_write with_length half32 WriteError.overflow (n_records b.records)
          λ n. write_int32 n then_write write_coded (codec_of b.compression) b.records

  -- partitionLeaderEpoch, magic and crc, which count for the length and are not checksummed.
  abbrev pub before_data : ℕ
  before_data = 4 + 1 + 4

  abbrev pub checked : ℤ → ℤ → ℤ → List ℕ → Reader RecordBatch
  checked base_offset epoch crc bytes =
      if to_word half32 crc == lib.crc32c bytes
      then (do
        body ← lift (read_all read_record_batch_body bytes)
        pure (record { base_offset = base_offset; partition_leader_epoch = epoch; body = body }))
      else fail ReadError.malformed

  abbrev pub behind_magic : ℤ → ℤ → ℕ → ℤ → Reader RecordBatch
  behind_magic base_offset epoch len magic =
      if eqb_ℤ magic (pos 2)
      then (do crc ← read_int32; bytes ← read_vec len; checked base_offset epoch crc bytes)
      else fail ReadError.malformed

  abbrev pub batch_of_len : ℤ → ℕ → Reader RecordBatch
  batch_of_len base_offset len = do
    epoch ← read_int32
    magic ← read_int8
    behind_magic base_offset epoch len magic

  unfoldable pub read_record_batch : Reader RecordBatch
  read_record_batch = do
    base_offset ← read_int64
    len ← read_int32
    with_usize ReadError.malformed len λ len.
        if ltb len before_data
        then fail ReadError.malformed
        else batch_of_len base_offset (len - before_data)

  unfoldable pub write_record_batch : RecordBatch → Writer
  write_record_batch b = with_buffer (write_record_batch_body b.body) λ bytes.
      write_int64 b.base_offset
      then_write with_length half32 WriteError.malformed (length bytes + before_data) λ l.
        write_int32 l
        then_write write_int32 b.partition_leader_epoch
        then_write write_int8 (pos 2)
        then_write write_int32 (from_word half32 (lib.crc32c bytes))
        then_write write_all bytes
