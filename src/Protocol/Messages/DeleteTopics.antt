-- ===== src/Protocol/Messages/DeleteTopics.antt =====
-- src/protocol/messages/delete_topics.rs.
use rskafka.Prelude.{Bool, true, false, Option, List, []}
use rskafka.Prelude.Int.{ℤ, pos}
use rskafka.Protocol.Traits.{Reader, ◌>>=◌, pure, ◌then_write◌}
use rskafka.Protocol.Primitives.Ints.{read_int16, read_int32, write_int32}
use rskafka.Protocol.Primitives.Text.{
  write_string, write_compact_string, read_compact_nullable_string,
}
use rskafka.Protocol.Primitives.Text.Utf8.{Text}
use rskafka.Protocol.Primitives.Collections.{
  TaggedFields, read_tagged_fields, write_tagged_fields, write_array, write_compact_array,
}
use rskafka.Protocol.ApiVersion.{ApiVersion, ApiVersionRange, at_least, at_most}
use rskafka.Protocol.Error as Errors
use rskafka.Protocol.Messages.Fields.{
  VersionedWriter, plain, read_if, write_if, read_asserting, write_asserting, or_default,
}
use rskafka.Protocol.Messages.Compact.{read_name, read_objects}

-- `DeleteTopicsRequest::API_VERSION_RANGE`
abbrev pub delete_topics_range : ApiVersionRange
delete_topics_range = record { min = pos 0; max = pos 5 }

pub record DeleteTopicsRequest : Type 0 where
  pub topic_names : Option (List Text)
  pub timeout_ms : ℤ
  pub tagged_fields : Option TaggedFields

pub record DeleteTopicsResponseTopic : Type 0 where
  pub name : Text
  pub error : Option Errors.Error
  pub error_message : Option (Option Text)
  pub tagged_fields : Option TaggedFields

pub record DeleteTopicsResponse : Type 0 where
  pub throttle_time_ms : Option ℤ
  pub responses : List DeleteTopicsResponseTopic
  pub tagged_fields : Option TaggedFields

abbrev write_topic_names : Bool → Option (List Text) → VersionedWriter
write_topic_names true names = plain (write_compact_array write_compact_string names)
write_topic_names false names = plain (write_array write_string names)

module _ (v : ApiVersion) where
  unfoldable pub write_delete_topics_request : DeleteTopicsRequest → VersionedWriter
  write_delete_topics_request r = write_asserting (at_most v 5) (
      write_topic_names (at_least v 4) r.topic_names
      then_write plain (write_int32 r.timeout_ms)
      then_write write_if (at_least v 4)
          (plain (write_tagged_fields (or_default [] r.tagged_fields))))

  unfoldable pub read_delete_topics_topic : Reader DeleteTopicsResponseTopic
  read_delete_topics_topic = read_asserting (at_most v 5) do
    name ← read_name (at_least v 4)
    error ← read_int16
    message ← read_if (at_least v 5) read_compact_nullable_string
    fields ← read_if (at_least v 4) read_tagged_fields
    pure (record {
      name = name;
      error = Errors.new error;
      error_message = message;
      tagged_fields = fields;
    })

  unfoldable pub read_delete_topics_response : Reader DeleteTopicsResponse
  read_delete_topics_response = read_asserting (at_most v 5) do
    throttle ← read_if (at_least v 1) read_int32
    responses ← read_objects (at_least v 4) read_delete_topics_topic
    fields ← read_if (at_least v 4) read_tagged_fields
    pure (record { throttle_time_ms = throttle; responses = responses; tagged_fields = fields })
