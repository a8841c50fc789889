-- ===== src/Protocol/Messages/CreateTopics.antt =====
-- src/protocol/messages/create_topics.rs.
use rskafka.Prelude.{is_some, Bool, true, false, not, ◌&&◌, if◌then◌else◌, Option, List, []}
use rskafka.Prelude.Int.{ℤ, pos}
use rskafka.Prelude.Result.{err}
use rskafka.Protocol.Traits.{Reader, ◌>>=◌, pure, ◌then_write◌}
use rskafka.Protocol.Primitives.Ints.{
  read_boolean, write_boolean, read_int8, read_int16, write_int16, read_int32, write_int32,
}
use rskafka.Protocol.Primitives.Text.{
  read_nullable_string, write_nullable_string, read_compact_string, read_compact_nullable_string,
  write_compact_nullable_string,
}
use rskafka.Protocol.Primitives.Text.Utf8.{Text}
use rskafka.Protocol.Primitives.Collections.{
  TaggedFields, read_tagged_fields, write_tagged_fields, write_array, write_compact_array,
}
use rskafka.Protocol.ApiVersion.{ApiVersion, ApiVersionRange, at_least, at_most}
use rskafka.Protocol.Error as Errors
use rskafka.Protocol.Messages.Fields.{
  VersionedWriter, field_not_available, plain, read_if, write_if, read_asserting, write_asserting,
  or_default,
}
use rskafka.Protocol.Messages.Arrays.{read_compact_versioned_array}
use rskafka.Protocol.Messages.Compact.{flatten, read_name, write_name, read_objects, write_objects}

-- `CreateTopicsRequest::API_VERSION_RANGE`
abbrev pub create_topics_range : ApiVersionRange
create_topics_range = record { min = pos 0; max = pos 5 }

pub record CreateTopicAssignment : Type 0 where
  pub partition_index : ℤ
  pub broker_ids : Option (List ℤ)
  pub tagged_fields : Option TaggedFields

pub record CreateTopicConfig : Type 0 where
  pub name : Text
  pub value : Option Text
  pub tagged_fields : Option TaggedFields

pub record CreateTopicRequest : Type 0 where
  pub name : Text
  pub num_partitions : ℤ
  pub replication_factor : ℤ
  pub assignments : List CreateTopicAssignment
  pub configs : List CreateTopicConfig
  pub tagged_fields : Option TaggedFields

pub record CreateTopicsRequest : Type 0 where
  pub topics : List CreateTopicRequest
  pub timeout_ms : ℤ
  pub validate_only : Option Bool
  pub tagged_fields : Option TaggedFields

abbrev write_broker_ids : Bool → Option (List ℤ) → VersionedWriter
write_broker_ids true ids = plain (write_compact_array write_int32 ids)
write_broker_ids false ids = plain (write_array write_int32 ids)

abbrev write_value : Bool → Option Text → VersionedWriter
write_value true value = plain (write_compact_nullable_string value)
write_value false value = plain (write_nullable_string value)

abbrev pub read_message : Bool → Reader (Option Text)
read_message true = read_compact_nullable_string
read_message false = read_nullable_string

module _ (v : ApiVersion) where
  abbrev write_tags : Option TaggedFields → VersionedWriter
  write_tags fields = write_if (at_least v 5) (plain (write_tagged_fields (or_default [] fields)))

  unfoldable pub write_create_topic_assignment : CreateTopicAssignment → VersionedWriter
  write_create_topic_assignment a = write_asserting (at_most v 5) (
      plain (write_int32 a.partition_index)
      then_write write_broker_ids (at_least v 5) a.broker_ids
      then_write write_tags a.tagged_fields)

  unfoldable pub write_create_topic_config : CreateTopicConfig → VersionedWriter
  write_create_topic_config c = write_asserting (at_most v 5) (
      write_name (at_least v 5) c.name
      then_write write_value (at_least v 5) c.value
      then_write write_tags c.tagged_fields)

  unfoldable pub write_create_topic_request : CreateTopicRequest → VersionedWriter
  write_create_topic_request t = write_asserting (at_most v 5) (
      write_name (at_least v 5) t.name
      then_write plain (write_int32 t.num_partitions)
      then_write plain (write_int16 t.replication_factor)
      then_write write_objects (at_least v 5) write_create_topic_assignment t.assignments
      then_write write_objects (at_least v 5) write_create_topic_config t.configs
      then_write write_tags t.tagged_fields)

  unfoldable pub write_create_topics_request : CreateTopicsRequest → VersionedWriter
  write_create_topics_request r = write_asserting (at_most v 5) (
      if is_some r.validate_only && not (at_least v 1)
      then err field_not_available
      else write_objects (at_least v 5) write_create_topic_request r.topics
        then_write plain (write_int32 r.timeout_ms)
        then_write write_if (at_least v 1)
            (plain (write_boolean (or_default false r.validate_only)))
        then_write write_tags r.tagged_fields)

pub record CreateTopicResponseConfig : Type 0 where
  pub name : Text
  pub value : Option Text
  pub read_only : Bool
  pub config_source : ℤ
  pub is_sensitive : Bool
  pub tagged_fields : TaggedFields

pub record CreateTopicResponse : Type 0 where
  pub name : Text
  pub error : Option Errors.Error
  pub error_message : Option (Option Text)
  pub num_partitions : Option ℤ
  pub replication_factor : Option ℤ
  pub configs : List CreateTopicResponseConfig
  pub tagged_fields : Option TaggedFields

pub record CreateTopicsResponse : Type 0 where
  pub throttle_time_ms : Option ℤ
  pub topics : List CreateTopicResponse
  pub tagged_fields : Option TaggedFields

module _ (v : ApiVersion) where
  unfoldable pub read_create_topic_config : Reader CreateTopicResponseConfig
  read_create_topic_config = read_asserting (at_least v 5 && at_most v 5) do
    name ← read_compact_string
    value ← read_compact_nullable_string
    read_only ← read_boolean
    source ← read_int8
    sensitive ← read_boolean
    fields ← read_tagged_fields
    pure (record {
      name = name;
      value = value;
      read_only = read_only;
      config_source = source;
      is_sensitive = sensitive;
      tagged_fields = fields;
    })

  unfoldable pub read_create_topic_response : Reader CreateTopicResponse
  read_create_topic_response = read_asserting (at_most v 5) do
    name ← read_name (at_least v 5)
    error ← read_int16
    message ← read_if (at_least v 1) (read_message (at_least v 5))
    num_partitions ← read_if (at_least v 5) read_int32
    replication_factor ← read_if (at_least v 5) read_int16
    configs ← read_if (at_least v 5) (read_compact_versioned_array read_create_topic_config)
    fields ← read_if (at_least v 5) read_tagged_fields
    pure (record {
      name = name;
      error = Errors.new error;
      error_message = message;
      num_partitions = num_partitions;
      replication_factor = replication_factor;
      configs = or_default [] (flatten configs);
      tagged_fields = fields;
    })

  unfoldable pub read_create_topics_response : Reader CreateTopicsResponse
  read_create_topics_response = read_asserting (at_most v 5) do
    throttle ← read_if (at_least v 2) read_int32
    topics ← read_objects (at_least v 5) read_create_topic_response
    fields ← read_if (at_least v 5) read_tagged_fields
    pure (record { throttle_time_ms = throttle; topics = topics; tagged_fields = fields })
