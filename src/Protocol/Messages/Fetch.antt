-- ===== src/Protocol/Messages/Fetch.antt =====
-- src/protocol/messages/fetch.rs: asks for records of partitions, and has them.
use rskafka.Prelude.{◌-◌, ◌^◌, ◌&&◌, Option, some, List, []}
use rskafka.Prelude.Int.{ℤ, pos}
use rskafka.Protocol.Traits.{Reader, ◌>>=◌, pure, ◌then_write◌}
use rskafka.Protocol.Primitives.Ints.{
  write_int8, read_int16, read_int32, write_int32, read_int64, write_int64,
}
use rskafka.Protocol.Primitives.Text.{read_string, write_string}
use rskafka.Protocol.Primitives.Text.Utf8.{Text}
use rskafka.Protocol.ApiVersion.{ApiVersion, ApiVersionRange, at_least, at_most}
use rskafka.Protocol.Error as Errors
use rskafka.Protocol.Record.{RecordBatch}
use rskafka.Protocol.Record.Batch.{Libraries}
use rskafka.Protocol.Record.Batches.{read_record_batches}
use rskafka.Protocol.Messages.Fields.{
  VersionedWriter, plain, read_if, write_if, read_asserting, write_asserting, or_default,
}
use rskafka.Protocol.Messages.Arrays.{read_versioned_array, write_versioned_array}
use rskafka.Protocol.Messages.Compact.{flatten}
use rskafka.Protocol.Messages.Constants.{IsolationLevel, to_int8, default_level}

-- `FetchRequest::API_VERSION_RANGE`
abbrev pub fetch_range : ApiVersionRange
fetch_range = record { min = pos 4; max = pos 4 }

pub record FetchRequestPartition : Type 0 where
  pub partition : ℤ
  pub fetch_offset : ℤ
  pub partition_max_bytes : ℤ

pub record FetchRequestTopic : Type 0 where
  pub topic : Text
  pub partitions : List FetchRequestPartition

pub record FetchRequest : Type 0 where
  pub replica_id : ℤ
  pub max_wait_ms : ℤ
  pub min_bytes : ℤ
  pub max_bytes : Option ℤ
  pub isolation_level : Option IsolationLevel
  pub topics : List FetchRequestTopic

module _ (v : ApiVersion) where
  unfoldable pub write_fetch_partition : FetchRequestPartition → VersionedWriter
  write_fetch_partition p = write_asserting (at_most v 4) (
      plain (write_int32 p.partition)
      then_write plain (write_int64 p.fetch_offset)
      then_write plain (write_int32 p.partition_max_bytes))

  unfoldable pub write_fetch_topic : FetchRequestTopic → VersionedWriter
  write_fetch_topic t = write_asserting (at_most v 4) (
      plain (write_string t.topic)
      then_write write_versioned_array write_fetch_partition (some t.partitions))

  unfoldable pub write_fetch_request : FetchRequest → VersionedWriter
  write_fetch_request r = write_asserting (at_most v 4) (
      plain (write_int32 r.replica_id)
      then_write plain (write_int32 r.max_wait_ms)
      then_write plain (write_int32 r.min_bytes)
      then_write write_if (at_least v 3)
          (plain (write_int32 (or_default (pos (2 ^ 31 - 1)) r.max_bytes)))
      then_write write_if (at_least v 4)
          (plain (write_int8 (to_int8 (or_default default_level r.isolation_level))))
      then_write write_versioned_array write_fetch_topic (some r.topics))

pub record FetchResponseAbortedTransaction : Type 0 where
  pub producer_id : ℤ
  pub first_offset : ℤ

pub record FetchResponsePartition : Type 0 where
  pub partition_index : ℤ
  pub error_code : Option Errors.Error
  pub high_watermark : ℤ
  pub last_stable_offset : Option ℤ
  pub aborted_transactions : List FetchResponseAbortedTransaction
  pub records : List RecordBatch

pub record FetchResponseTopic : Type 0 where
  pub topic : Text
  pub partitions : List FetchResponsePartition

pub record FetchResponse : Type 0 where
  pub throttle_time_ms : Option ℤ
  pub responses : List FetchResponseTopic

module _ (lib : Libraries) (v : ApiVersion) where
  unfoldable pub read_aborted_transaction : Reader FetchResponseAbortedTransaction
  read_aborted_transaction = read_asserting (at_least v 4 && at_most v 4) do
    producer_id ← read_int64
    first_offset ← read_int64
    pure (record { producer_id = producer_id; first_offset = first_offset })

  unfoldable pub read_fetch_partition : Reader FetchResponsePartition
  read_fetch_partition = read_asserting (at_most v 4) do
    index ← read_int32
    error ← read_int16
    watermark ← read_int64
    stable ← read_if (at_least v 4) read_int64
    aborted ← read_if (at_least v 4) (read_versioned_array read_aborted_transaction)
    batches ← read_record_batches lib
    pure (record {
      partition_index = index;
      error_code = Errors.new error;
      high_watermark = watermark;
      last_stable_offset = stable;
      aborted_transactions = or_default [] (flatten aborted);
      records = batches;
    })

  unfoldable pub read_fetch_topic : Reader FetchResponseTopic
  read_fetch_topic = read_asserting (at_most v 4) do
    topic ← read_string
    partitions ← read_versioned_array read_fetch_partition
    pure (record { topic = topic; partitions = or_default [] partitions })

  unfoldable pub read_fetch_response : Reader FetchResponse
  read_fetch_response = read_asserting (at_most v 4) do
    throttle ← read_if (at_least v 1) read_int32
    responses ← read_versioned_array read_fetch_topic
    pure (record { throttle_time_ms = throttle; responses = or_default [] responses })
