-- ===== src/Protocol/Record/Batch/Laws.antt =====
-- Round trips of the record batches of src/protocol/record.rs.
use rskafka.Prelude.{
  ℕ, ◌*◌, ◌%◌, ◌^◌, ◌<◌, ◌≡◌, refl, ◌∙◌, arith, Option, none, some, List, [], ◌∷◌, All,
}
use native.Mathlib.Nat.{mod-eq_of_lt}
use rskafka.Prelude.Int.{pos, InRange, to_word}
use rskafka.Prelude.Result.{ok, err, panic}
use rskafka.Protocol.Traits.{Reader, Writer, WriteError, ◌>>=◌, lift, ◌then_write◌}
use rskafka.Protocol.Traits.Laws.{RoundTrips, RoundTrips-last, read_times-RoundTrips, bind_ok}
use rskafka.Protocol.Primitives.Ints.{half16, half32, half64, write_int16, write_int32, write_int64}
use rskafka.Protocol.Primitives.Ints.Laws.{int16-RoundTrips, int32-RoundTrips, int64-RoundTrips}
use rskafka.Protocol.Primitives.Zigzag.{ZigzagLaws}
use rskafka.Protocol.Primitives.Lengths.{with_length}
use rskafka.Protocol.Record.{
  Record, ControlBatchOrRecords, control_batch, records, RecordBatchCompression, RecordBatchBody,
}
use rskafka.Protocol.Record.Attributes.{
  attributes_of, timestamp_type_in, is_transactional_in, is_control_in, attributes_round_trip,
}
use rskafka.Protocol.Record.Entry.{with_buffer, read_record, write_record}
use rskafka.Protocol.Record.Entry.Laws.{IsRecord, record_round_trip, control_record-RoundTrips}
use rskafka.Protocol.Record.Batch.{
  Compressor, Libraries, read_all, codec_of, read_records, read_coded, body_fields,
  read_record_batch_body, write_records, write_coded, is_control, n_records,
  write_record_batch_body,
}
use rskafka.Protocol.Record.Batch.Whole.{
  WholeTrips, RoundTrips-whole, WholeTrips-bind, WholeTrips-last, if-WholeTrips,
}

-- What the crates document: a decoder yields what an encoder was given, and takes up all it wrote.
abbrev pub Decodes : Option Compressor → Type 0
Decodes none = Unit
Decodes (some c) = (bs cs : List ℕ) → c.compress bs ≡ ok cs → c.decompress cs ≡ ok (bs, [])

-- A checksum is a u32.
pub record LibraryLaws (lib : Libraries) : Type 0 where
  pub zigzag : ZigzagLaws lib.zigzag
  pub crc : (bs : List ℕ) → lib.crc32c bs < 2 ^ 32
  pub codecs : (c : RecordBatchCompression) → Decodes (codec_of lib c)

-- What a body's fields have by their Rust types.
abbrev pub AreRecords : ControlBatchOrRecords → Type 0
AreRecords (control_batch c) = Unit
AreRecords (records rs) = All IsRecord rs

pub record IsBody (b : RecordBatchBody) : Type 0 where
  pub last_offset_delta : InRange half32 b.last_offset_delta
  pub first_timestamp : InRange half64 b.first_timestamp
  pub max_timestamp : InRange half64 b.max_timestamp
  pub producer_id : InRange half64 b.producer_id
  pub producer_epoch : InRange half16 b.producer_epoch
  pub base_sequence : InRange half32 b.base_sequence
  pub records : AreRecords b.records

module _ (lib : Libraries) (laws : LibraryLaws lib) where
  each_record :
      (rs : List Record)
      → All IsRecord rs
      → All (λ r. RoundTrips (read_record lib.zigzag) (write_record lib.zigzag r) r) rs
  each_record [] h = tt
  each_record (r ∷ rs) h = (record_round_trip lib.zigzag laws.zigzag r h.0, each_record rs h.1)

  records-RoundTrips :
      (rs : ControlBatchOrRecords)
      → AreRecords rs
      → RoundTrips
          (read_records lib (is_control lib rs) (n_records lib rs))
          (write_records lib rs)
          rs
  unfolding read_records write_records
  records-RoundTrips (control_batch c) h =
      RoundTrips-last control_batch (control_record-RoundTrips c)
  records-RoundTrips (records rs) h = RoundTrips-last records (
      read_times-RoundTrips (read_record lib.zigzag) (write_record lib.zigzag) rs
        (each_record rs h))

  buffered-WholeTrips :
      (codec : Compressor) (w : Writer) (r : Reader ControlBatchOrRecords)
      (rs : ControlBatchOrRecords)
      → Decodes (some codec)
      → WholeTrips r w rs
      → WholeTrips
          (codec.decompress >>= λ output. lift (read_all r output))
          (with_buffer w codec.compress)
          rs
  unfolding read_all
  buffered-WholeTrips codec (ok bs) r rs d t = record {
    back = λ cs e. bind_ok codec.decompress _ cs (d bs cs e) ∙ rw (t.back bs refl) refl;
  }
  buffered-WholeTrips codec (err e) r rs d t = record { back = λ bs q. cc }
  buffered-WholeTrips codec panic r rs d t = record { back = λ bs q. cc }

  coded-WholeTrips :
      (codec : Option Compressor) (rs : ControlBatchOrRecords)
      → Decodes codec
      → AreRecords rs
      → WholeTrips
          (read_coded lib codec (is_control lib rs) (n_records lib rs))
          (write_coded lib codec rs)
          rs
  coded-WholeTrips none rs d h = RoundTrips-whole (records-RoundTrips rs h)
  coded-WholeTrips (some codec) rs d h =
      buffered-WholeTrips codec (write_records lib rs) _ rs d
        (RoundTrips-whole (records-RoundTrips rs h))

  -- Behind the attributes, which tell whether the batch is a control batch.
  body_fields-WholeTrips :
      (a : ℕ) (b : RecordBatchBody)
      → IsBody b
      → timestamp_type_in a ≡ b.timestamp_type
      → is_transactional_in a ≡ b.is_transactional
      → is_control_in a ≡ is_control lib b.records
      → WholeTrips
          (body_fields lib a b.compression)
          (write_int32 b.last_offset_delta
            then_write write_int64 b.first_timestamp
            then_write write_int64 b.max_timestamp
            then_write write_int64 b.producer_id
            then_write write_int16 b.producer_epoch
            then_write write_int32 b.base_sequence
            then_write with_length half32 WriteError.overflow (n_records lib b.records) λ n.
              write_int32 n then_write write_coded lib (codec_of lib b.compression) b.records)
          b
  body_fields-WholeTrips a b h et ex ek =
      rw (et, ex, ek)
        (WholeTrips-bind _ (int32-RoundTrips b.last_offset_delta h.last_offset_delta) (
          WholeTrips-bind _ (int64-RoundTrips b.first_timestamp h.first_timestamp) (
            WholeTrips-bind _ (int64-RoundTrips b.max_timestamp h.max_timestamp) (
              WholeTrips-bind _ (int64-RoundTrips b.producer_id h.producer_id) (
                WholeTrips-bind _ (int16-RoundTrips b.producer_epoch h.producer_epoch) (
                  WholeTrips-bind _ (int32-RoundTrips b.base_sequence h.base_sequence) (
                    if-WholeTrips _ (n_records lib b.records) half32 WriteError.overflow _ b
                      (λ fits.
                        WholeTrips-bind _ (int32-RoundTrips (pos (n_records lib b.records)) fits) (
                          WholeTrips-last _ (
                            coded-WholeTrips (codec_of lib b.compression) b.records
                              (laws.codecs b.compression) h.records))))))))))

  -- The body of a batch with fields in the range of their types that is written, under any compression,
  -- is read back from exactly the bytes that were written, flags, control records and all. The
  -- decoders yield what the encoders were given.
  pub record_batch_body_round_trip :
      (b : RecordBatchBody)
      → IsBody b
      → WholeTrips (read_record_batch_body lib) (write_record_batch_body lib b) b
  unfolding read_record_batch_body write_record_batch_body to_word
  record_batch_body_round_trip b h =
      let a =
        attributes_of b.compression b.timestamp_type b.is_transactional
          (is_control lib b.records) in
      let (ec, et, ex, ek, small) =
        attributes_round_trip b.compression b.timestamp_type b.is_transactional
          (is_control lib b.records) in
      let word : a % (2 * half16) ≡ a = mod-eq_of_lt (omega (arith, small)) in
      WholeTrips-bind _ (int16-RoundTrips (pos a) (omega (arith, small)))
        (rw (word, ec) (body_fields-WholeTrips a b h et ex ek))
