-- ===== src/Protocol/Messages/DeleteRecords.antt =====
-- src/protocol/messages/delete_records.rs: deletes the records before an offset.
use rskafka.Prelude.{Option, List, []}
use rskafka.Prelude.Int.{ℤ, pos}
use rskafka.Protocol.Traits.{Reader, ◌>>=◌, pure, ◌then_write◌}
use rskafka.Protocol.Primitives.Ints.{read_int16, read_int32, write_int32, read_int64, write_int64}
use rskafka.Protocol.Primitives.Text.Utf8.{Text}
use rskafka.Protocol.Primitives.Collections.{TaggedFields, read_tagged_fields, write_tagged_fields}
use rskafka.Protocol.ApiVersion.{ApiVersion, ApiVersionRange, at_least, at_most}
use rskafka.Protocol.Error as Errors
use rskafka.Protocol.Messages.Fields.{
  VersionedWriter, plain, read_if, write_if, read_asserting, write_asserting, or_default,
}
use rskafka.Protocol.Messages.Compact.{read_name, write_name, read_objects, write_objects}

-- `DeleteRecordsRequest::API_VERSION_RANGE`
abbrev pub delete_records_range : ApiVersionRange
delete_records_range = record { min = pos 0; max = pos 2 }

pub record DeleteRequestPartition : Type 0 where
  pub partition_index : ℤ
  pub offset : ℤ
  pub tagged_fields : Option TaggedFields

pub record DeleteRequestTopic : Type 0 where
  pub name : Text
  pub partitions : List DeleteRequestPartition
  pub tagged_fields : Option TaggedFields

pub record DeleteRecordsRequest : Type 0 where
  pub topics : List DeleteRequestTopic
  pub timeout_ms : ℤ
  pub tagged_fields : Option TaggedFields

pub record DeleteResponsePartition : Type 0 where
  pub partition_index : ℤ
  pub low_watermark : ℤ
  pub error : Option Errors.Error
  pub tagged_fields : Option TaggedFields

pub record DeleteResponseTopic : Type 0 where
  pub name : Text
  pub partitions : List DeleteResponsePartition
  pub tagged_fields : Option TaggedFields

pub record DeleteRecordsResponse : Type 0 where
  pub throttle_time_ms : ℤ
  pub topics : List DeleteResponseTopic
  pub tagged_fields : Option TaggedFields

module _ (v : ApiVersion) where
  unfoldable pub write_delete_partition : DeleteRequestPartition → VersionedWriter
  write_delete_partition p = write_asserting (at_most v 2) (
      plain (write_int32 p.partition_index)
      then_write plain (write_int64 p.offset)
      then_write write_if (at_least v 2)
          (plain (write_tagged_fields (or_default [] p.tagged_fields))))

  unfoldable pub write_delete_topic : DeleteRequestTopic → VersionedWriter
  write_delete_topic t = write_asserting (at_most v 2) (
      write_name (at_least v 2) t.name
      then_write write_objects (at_least v 2) write_delete_partition t.partitions
      then_write write_if (at_least v 2)
          (plain (write_tagged_fields (or_default [] t.tagged_fields))))

  unfoldable pub write_delete_records_request : DeleteRecordsRequest → VersionedWriter
  write_delete_records_request r = write_asserting (at_most v 2) (
      write_objects (at_least v 2) write_delete_topic r.topics
      then_write plain (write_int32 r.timeout_ms)
      then_write write_if (at_least v 2)
          (plain (write_tagged_fields (or_default [] r.tagged_fields))))

  unfoldable pub read_delete_partition : Reader DeleteResponsePartition
  read_delete_partition = read_asserting (at_most v 2) do
    index ← read_int32
    watermark ← read_int64
    error ← read_int16
    fields ← read_if (at_least v 2) read_tagged_fields
    pure (record {
      partition_index = index;
      low_watermark = watermark;
      error = Errors.new error;
      tagged_fields = fields;
    })

  unfoldable pub read_delete_topic : Reader DeleteResponseTopic
  read_delete_topic = read_asserting (at_most v 2) do
    name ← read_name (at_least v 2)
    partitions ← read_objects (at_least v 2) read_delete_partition
    fields ← read_if (at_least v 2) read_tagged_fields
    pure (record { name = name; partitions = partitions; tagged_fields = fields })

  unfoldable pub read_delete_records_response : Reader DeleteRecordsResponse
  read_delete_records_response = read_asserting (at_most v 2) do
    throttle ← read_int32
    topics ← read_objects (at_least v 2) read_delete_topic
    fields ← read_if (at_least v 2) read_tagged_fields
    pure (record { throttle_time_ms = throttle; topics = topics; tagged_fields = fields })
