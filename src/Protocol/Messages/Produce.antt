-- ===== src/Protocol/Messages/Produce.antt =====
-- src/protocol/messages/produce.rs: records for partitions, and where they were stored.
use rskafka.Prelude.{Option, some, List, []}
use rskafka.Prelude.Int.{ℤ, pos}
use rskafka.Protocol.Traits.{Reader, ◌>>=◌, pure, ◌then_write◌}
use rskafka.Protocol.Primitives.Ints.{read_int16, write_int16, read_int32, write_int32, read_int64}
use rskafka.Protocol.Primitives.Text.{read_string, write_string, write_nullable_string}
use rskafka.Protocol.Primitives.Text.Utf8.{Text}
use rskafka.Protocol.ApiVersion.{ApiVersion, ApiVersionRange, at_least, at_most}
use rskafka.Protocol.Error as Errors
use rskafka.Protocol.Record.{RecordBatch}
use rskafka.Protocol.Record.Batch.{Libraries}
use rskafka.Protocol.Record.Batches.{write_record_batches}
use rskafka.Protocol.Messages.Fields.{
  VersionedWriter, plain, read_if, write_if, read_asserting, write_asserting, or_default,
}
use rskafka.Protocol.Messages.Arrays.{read_versioned_array, write_versioned_array}

-- `ProduceRequest::API_VERSION_RANGE`
abbrev pub produce_range : ApiVersionRange
produce_range = record { min = pos 3; max = pos 7 }

pub record ProduceRequestPartitionData : Type 0 where
  pub index : ℤ
  pub records : List RecordBatch

pub record ProduceRequestTopicData : Type 0 where
  pub name : Text
  pub partition_data : List ProduceRequestPartitionData

pub record ProduceRequest : Type 0 where
  pub transactional_id : Option Text
  pub acks : ℤ
  pub timeout_ms : ℤ
  pub topic_data : List ProduceRequestTopicData

module _ (lib : Libraries) (v : ApiVersion) where
  unfoldable pub write_produce_partition_data : ProduceRequestPartitionData → VersionedWriter
  write_produce_partition_data p =
      write_asserting (at_most v 7)
        (plain (write_int32 p.index) then_write plain (write_record_batches lib p.records))

  unfoldable pub write_produce_topic_data : ProduceRequestTopicData → VersionedWriter
  write_produce_topic_data t = write_asserting (at_most v 7) (
      plain (write_string t.name)
      then_write write_versioned_array write_produce_partition_data (some t.partition_data))

  unfoldable pub write_produce_request : ProduceRequest → VersionedWriter
  write_produce_request r = write_asserting (at_most v 7) (
      write_if (at_least v 3) (plain (write_nullable_string r.transactional_id))
      then_write plain (write_int16 r.acks)
      then_write plain (write_int32 r.timeout_ms)
      then_write write_versioned_array write_produce_topic_data (some r.topic_data))

pub record ProduceResponsePartitionResponse : Type 0 where
  pub index : ℤ
  pub error : Option Errors.Error
  pub base_offset : ℤ
  pub log_append_time_ms : Option ℤ
  pub log_start_offset : Option ℤ

pub record ProduceResponseResponse : Type 0 where
  pub name : Text
  pub partition_responses : List ProduceResponsePartitionResponse

pub record ProduceResponse : Type 0 where
  pub responses : List ProduceResponseResponse
  pub throttle_time_ms : Option ℤ

module _ (v : ApiVersion) where
  unfoldable pub read_produce_partition_response : Reader ProduceResponsePartitionResponse
  read_produce_partition_response = read_asserting (at_most v 7) do
    index ← read_int32
    error ← read_int16
    base_offset ← read_int64
    log_append_time_ms ← read_if (at_least v 2) read_int64
    log_start_offset ← read_if (at_least v 5) read_int64
    pure (record {
      index = index;
      error = Errors.new error;
      base_offset = base_offset;
      log_append_time_ms = log_append_time_ms;
      log_start_offset = log_start_offset;
    })

  unfoldable pub read_produce_topic_response : Reader ProduceResponseResponse
  read_produce_topic_response = read_asserting (at_most v 7) do
    name ← read_string
    partitions ← read_versioned_array read_produce_partition_response
    pure (record { name = name; partition_responses = or_default [] partitions })

  unfoldable pub read_produce_response : Reader ProduceResponse
  read_produce_response = read_asserting (at_most v 7) do
    responses ← read_versioned_array read_produce_topic_response
    throttle ← read_if (at_least v 1) read_int32
    pure (record { responses = or_default [] responses; throttle_time_ms = throttle })
