-- ===== src/Protocol/Messages/ApiVersions.antt =====
-- The messages of src/protocol/messages/api_versions.rs: which versions a broker supports.
pub mod Laws
use rskafka.Prelude.{ℕ, Bool, true, false, if◌then◌else◌, Option, none, some, List, []}
use rskafka.Prelude.Int.{ℤ, pos}
use rskafka.Prelude.Result.{ok}
use rskafka.Protocol.Traits.{Reader, ◌>>=◌, pure, ◌then_write◌}
use rskafka.Protocol.Primitives.Ints.{read_int16, write_int16, read_int32, write_int32}
use rskafka.Protocol.Primitives.Text.{read_compact_string, write_compact_string}
use rskafka.Protocol.Primitives.Text.Utf8.{Text}
use rskafka.Protocol.Primitives.Collections.{TaggedFields, read_tagged_fields, write_tagged_fields}
use rskafka.Protocol.ApiKey.{ApiKey, from_int16, to_int16}
use rskafka.Protocol.ApiVersion.{ApiVersion, ApiVersionRange, at_least, at_most}
use rskafka.Protocol.Error as Errors
use rskafka.Protocol.Messages.Fields.{
  VersionedWriter, plain, read_if, write_if, read_asserting, write_asserting, or_default,
}
use rskafka.Protocol.Messages.Arrays.{
  read_versioned_array, write_versioned_array, read_compact_versioned_array,
  write_compact_versioned_array,
}

-- `ApiVersionsRequest::API_VERSION_RANGE`
abbrev pub api_versions_range : ApiVersionRange
api_versions_range = record { min = pos 0; max = pos 3 }

pub record ApiVersionsRequest : Type 0 where
  pub client_software_name : Option Text
  pub client_software_version : Option Text
  pub tagged_fields : Option TaggedFields

unfoldable pub read_api_versions_request : ApiVersion → Reader ApiVersionsRequest
read_api_versions_request v = read_asserting (at_most v 3) do
  name ← read_if (at_least v 3) read_compact_string
  version ← read_if (at_least v 3) read_compact_string
  fields ← read_if (at_least v 3) read_tagged_fields
  pure (record {
    client_software_name = name;
    client_software_version = version;
    tagged_fields = fields;
  })

unfoldable pub write_api_versions_request : ApiVersionsRequest → ApiVersion → VersionedWriter
write_api_versions_request r v = write_asserting (at_most v 3) (
    write_if (at_least v 3) (
      plain (write_compact_string (or_default [] r.client_software_name))
      then_write plain (write_compact_string (or_default [] r.client_software_version))
      then_write plain (write_tagged_fields (or_default [] r.tagged_fields))))

pub record ApiVersionsResponseApiKey : Type 0 where
  pub api_key : ApiKey
  pub min_version : ApiVersion
  pub max_version : ApiVersion
  pub tagged_fields : Option TaggedFields

unfoldable pub read_response_api_key : ApiVersion → Reader ApiVersionsResponseApiKey
read_response_api_key v = read_asserting (at_most v 3) do
  key ← read_int16
  min ← read_int16
  max ← read_int16
  fields ← read_if (at_least v 3) read_tagged_fields
  pure (record {
    api_key = from_int16 key;
    min_version = min;
    max_version = max;
    tagged_fields = fields;
  })

unfoldable pub write_response_api_key : ApiVersionsResponseApiKey → ApiVersion → VersionedWriter
write_response_api_key k v = write_asserting (at_most v 3) (
    plain (write_int16 (to_int16 k.api_key))
    then_write plain (write_int16 k.min_version)
    then_write plain (write_int16 k.max_version)
    then_write write_if (at_least v 3)
        (plain (write_tagged_fields (or_default [] k.tagged_fields))))

pub record ApiVersionsResponse : Type 0 where
  pub error_code : Option Errors.Error
  pub api_keys : List ApiVersionsResponseApiKey
  pub throttle_time_ms : Option ℤ
  pub tagged_fields : Option TaggedFields

abbrev pub read_api_keys : Bool → ApiVersion → Reader (Option (List ApiVersionsResponseApiKey))
read_api_keys true v = read_compact_versioned_array (read_response_api_key v)
read_api_keys false v = read_versioned_array (read_response_api_key v)

abbrev pub write_api_keys : Bool → List ApiVersionsResponseApiKey → ApiVersion → VersionedWriter
write_api_keys true keys v =
    write_compact_versioned_array (λ k. write_response_api_key k v) (some keys)
write_api_keys false keys v = write_versioned_array (λ k. write_response_api_key k v) (some keys)

unfoldable pub read_api_versions_response : ApiVersion → Reader ApiVersionsResponse
read_api_versions_response v = read_asserting (at_most v 3) do
  code ← read_int16
  keys ← read_api_keys (at_least v 3) v
  throttle ← read_if (at_least v 1) read_int32
  fields ← read_if (at_least v 3) read_tagged_fields
  pure (record {
    error_code = Errors.new code;
    api_keys = or_default [] keys;
    throttle_time_ms = throttle;
    tagged_fields = fields;
  })

unfoldable pub write_api_versions_response : ApiVersionsResponse → ApiVersion → VersionedWriter
write_api_versions_response r v = write_asserting (at_most v 3) (
    plain (write_int16 (Errors.to_int16 r.error_code))
    then_write write_api_keys (at_least v 3) r.api_keys v
    then_write write_if (at_least v 1) (plain (write_int32 (or_default (pos 0) r.throttle_time_ms)))
    then_write write_if (at_least v 3)
        (plain (write_tagged_fields (or_default [] r.tagged_fields))))
