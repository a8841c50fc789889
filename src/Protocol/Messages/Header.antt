-- ===== src/Protocol/Messages/Header.antt =====
-- src/protocol/messages/header.rs: the headers of requests and responses.
pub mod Laws
use rskafka.Prelude.{Option, none, some, [], true}
use rskafka.Prelude.Int.{ℤ}
use rskafka.Prelude.Result.{ok}
use rskafka.Protocol.Traits.{Reader, ◌>>=◌, pure, ◌then_write◌}
use rskafka.Protocol.Primitives.Ints.{read_int16, write_int16, read_int32, write_int32}
use rskafka.Protocol.Primitives.Text.{read_nullable_string, write_nullable_string}
use rskafka.Protocol.Primitives.Text.Utf8.{Text}
use rskafka.Protocol.Primitives.Collections.{TaggedFields, read_tagged_fields, write_tagged_fields}
use rskafka.Protocol.ApiKey.{ApiKey, from_int16, to_int16}
use rskafka.Protocol.ApiVersion.{ApiVersion, at_least, at_most}
use rskafka.Protocol.Messages.Fields.{
  VersionedWriter, plain, read_if, write_if, read_asserting, write_asserting, or_default,
}

pub record RequestHeader : Type 0 where
  pub request_api_key : ApiKey
  pub request_api_version : ApiVersion
  pub correlation_id : ℤ
  -- since version 1, and 2
  pub client_id : Option (Option Text)
  pub tagged_fields : Option TaggedFields

unfoldable pub read_request_header : ApiVersion → Reader RequestHeader
read_request_header v = read_asserting (at_most v 2) do
  key ← read_int16
  version ← read_int16
  id ← read_int32
  client ← read_if (at_least v 1) read_nullable_string
  fields ← read_if (at_least v 2) read_tagged_fields
  pure (record {
    request_api_key = from_int16 key;
    request_api_version = version;
    correlation_id = id;
    client_id = client;
    tagged_fields = fields;
  })

unfoldable pub write_request_header : RequestHeader → ApiVersion → VersionedWriter
write_request_header h v = write_asserting (at_most v 2) (
    plain (write_int16 (to_int16 h.request_api_key))
    then_write plain (write_int16 h.request_api_version)
    then_write plain (write_int32 h.correlation_id)
    then_write write_if (at_least v 1) (plain (write_nullable_string (or_default none h.client_id)))
    then_write write_if (at_least v 2)
        (plain (write_tagged_fields (or_default [] h.tagged_fields))))

pub record ResponseHeader : Type 0 where
  pub correlation_id : ℤ
  -- since version 1
  pub tagged_fields : Option TaggedFields

unfoldable pub read_response_header : ApiVersion → Reader ResponseHeader
read_response_header v = read_asserting (at_most v 1) do
  id ← read_int32
  fields ← read_if (at_least v 1) read_tagged_fields
  pure (record { correlation_id = id; tagged_fields = fields })

unfoldable pub write_response_header : ResponseHeader → ApiVersion → VersionedWriter
write_response_header h v = write_asserting (at_most v 1) (
    plain (write_int32 h.correlation_id)
    then_write write_if (at_least v 1)
        (plain (write_tagged_fields (or_default [] h.tagged_fields))))
