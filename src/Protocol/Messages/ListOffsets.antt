-- ===== src/Protocol/Messages/ListOffsets.antt =====
-- src/protocol/messages/list_offsets.rs: the earliest or latest offset of partitions.
use rskafka.Prelude.{not, Option, some, List, []}
use rskafka.Prelude.Int.{ℤ, pos}
use rskafka.Protocol.Traits.{Reader, ◌>>=◌, pure, ◌then_write◌}
use rskafka.Protocol.Primitives.Ints.{
  write_int8, read_int16, read_int32, write_int32, read_int64, write_int64,
}
use rskafka.Protocol.Primitives.Text.{read_string, write_string}
use rskafka.Protocol.Primitives.Text.Utf8.{Text}
use rskafka.Protocol.Primitives.Collections.{read_array}
use rskafka.Protocol.ApiVersion.{ApiVersion, ApiVersionRange, at_least, at_most}
use rskafka.Protocol.Error as Errors
use rskafka.Protocol.Messages.Fields.{
  VersionedWriter, plain, read_if, write_if, read_asserting, write_asserting, or_default,
}
use rskafka.Protocol.Messages.Arrays.{read_versioned_array, write_versioned_array}
use rskafka.Protocol.Messages.Constants.{IsolationLevel, to_int8, default_level}

-- `ListOffsetsRequest::API_VERSION_RANGE`
abbrev pub list_offsets_range : ApiVersionRange
list_offsets_range = record { min = pos 0; max = pos 3 }

pub record ListOffsetsRequestPartition : Type 0 where
  pub partition_index : ℤ
  pub timestamp : ℤ
  pub max_num_offsets : Option ℤ

pub record ListOffsetsRequestTopic : Type 0 where
  pub name : Text
  pub partitions : List ListOffsetsRequestPartition

pub record ListOffsetsRequest : Type 0 where
  pub replica_id : ℤ
  pub isolation_level : Option IsolationLevel
  pub topics : List ListOffsetsRequestTopic

pub record ListOffsetsResponsePartition : Type 0 where
  pub partition_index : ℤ
  pub error_code : Option Errors.Error
  pub old_style_offsets : Option (Option (List ℤ))
  pub timestamp : Option ℤ
  pub offset : Option ℤ

pub record ListOffsetsResponseTopic : Type 0 where
  pub name : Text
  pub partitions : List ListOffsetsResponsePartition

pub record ListOffsetsResponse : Type 0 where
  pub throttle_time_ms : Option ℤ
  pub topics : List ListOffsetsResponseTopic

module _ (v : ApiVersion) where
  unfoldable pub write_list_offsets_partition : ListOffsetsRequestPartition → VersionedWriter
  write_list_offsets_partition p = write_asserting (at_most v 3) (
      plain (write_int32 p.partition_index)
      then_write plain (write_int64 p.timestamp)
      then_write write_if (not (at_least v 1))
          (plain (write_int32 (or_default (pos 1) p.max_num_offsets))))

  unfoldable pub write_list_offsets_topic : ListOffsetsRequestTopic → VersionedWriter
  write_list_offsets_topic t = write_asserting (at_most v 3) (
      plain (write_string t.name)
      then_write write_versioned_array write_list_offsets_partition (some t.partitions))

  unfoldable pub write_list_offsets_request : ListOffsetsRequest → VersionedWriter
  write_list_offsets_request r = write_asserting (at_most v 3) (
      plain (write_int32 r.replica_id)
      then_write write_if (at_least v 2)
          (plain (write_int8 (to_int8 (or_default default_level r.isolation_level))))
      then_write write_versioned_array write_list_offsets_topic (some r.topics))

  unfoldable pub read_list_offsets_partition : Reader ListOffsetsResponsePartition
  read_list_offsets_partition = read_asserting (at_most v 3) do
    index ← read_int32
    error ← read_int16
    old_style ← read_if (not (at_least v 1)) (read_array read_int64)
    timestamp ← read_if (at_least v 1) read_int64
    offset ← read_if (at_least v 1) read_int64
    pure (record {
      partition_index = index;
      error_code = Errors.new error;
      old_style_offsets = old_style;
      timestamp = timestamp;
      offset = offset;
    })

  unfoldable pub read_list_offsets_topic : Reader ListOffsetsResponseTopic
  read_list_offsets_topic = read_asserting (at_most v 3) do
    name ← read_string
    partitions ← read_versioned_array read_list_offsets_partition
    pure (record { name = name; partitions = or_default [] partitions })

  unfoldable pub read_list_offsets_response : Reader ListOffsetsResponse
  read_list_offsets_response = read_asserting (at_most v 3) do
    throttle ← read_if (at_least v 2) read_int32
    topics ← read_versioned_array read_list_offsets_topic
    pure (record { throttle_time_ms = throttle; topics = or_default [] topics })
