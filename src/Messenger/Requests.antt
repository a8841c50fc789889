-- ===== src/Messenger/Requests.antt =====
-- `request_with_version_ranges` of src/messenger.rs, but for its accesses to the shared state: what
-- is written before them, and how the response is read after them.
pub mod Laws
use rskafka.Prelude.{ℕ, ◌-◌, Bool, if◌then◌else◌, Option, none, some, List, [], ◌∷◌, length}
use rskafka.Prelude.Int.{ℤ, pos, leb_ℤ}
use rskafka.Prelude.Result.{Result, ok, err, panic, ◌>>=◌, map_err}
use rskafka.Protocol.Traits.{Reader, ◌then_write◌}
use rskafka.Protocol.Primitives.Text.Utf8.{Text}
use rskafka.Protocol.ApiKey.{ApiKey}
use rskafka.Protocol.ApiVersion.{ApiVersion, ApiVersionRange}
use rskafka.Protocol.Messages.Fields.{VersionedWriter}
use rskafka.Protocol.Messages.Header.{RequestHeader, write_request_header}
use rskafka.Messenger.{
  RequestError, no_version_match, write_error, read_versioned_error, too_much_data, Response,
}
use rskafka.Messenger.Versions.{match_versions}

-- The trait `RequestBody` of src/protocol/messages/mod.rs for one type of requests, with its writer
-- and the reader of its responses.
pub record RequestBody (Req Resp : Type 0) : Type 0 where
  pub api_key : ApiKey
  pub api_version_range : ApiVersionRange
  pub first_tagged_field_in_request_version : ApiVersion
  pub first_tagged_field_in_response_version : ApiVersion
  pub write_versioned : Req → ApiVersion → VersionedWriter
  pub read_versioned : ApiVersion → Reader Resp

module _ {Req Resp : Type 0} (body : RequestBody Req Resp) where
  -- The version that a request is sent with, before it takes its ID.
  unfoldable pub body_api_version : Option ApiVersionRange → Result RequestError ApiVersion
  body_api_version none = err (no_version_match body.api_key)
  body_api_version (some range_server) = elim (match_versions range_server body.api_version_range) [
    | none ↦ err (no_version_match body.api_key)
    | some v ↦ ok v
  ]

  abbrev pub use_tagged_fields_in_request : ApiVersion → Bool
  use_tagged_fields_in_request v = leb_ℤ body.first_tagged_field_in_request_version v

  abbrev pub use_tagged_fields_in_response : ApiVersion → Bool
  use_tagged_fields_in_response v = leb_ℤ body.first_tagged_field_in_response_version v

  abbrev pub header_version : ApiVersion → ApiVersion
  header_version v = if use_tagged_fields_in_request v then pos 2 else pos 1

  abbrev pub request_header : Text → ℤ → ApiVersion → RequestHeader
  request_header client_id id v = record {
    request_api_key = body.api_key;
    request_api_version = v;
    correlation_id = id;
    client_id = some (some client_id);
    tagged_fields = some [];
  }

  -- The bytes of the message, or the error that the caller gets before anything was sent. The
  -- header is written under an `expect`.
  unfoldable pub request_bytes : Text → ℤ → ApiVersion → Req → Result RequestError (List ℕ)
  request_bytes client_id id v msg =
      elim (write_request_header (request_header client_id id v) (header_version v)) [
        | err e ↦ panic
        | panic ↦ panic
        | ok head ↦ map_err write_error (ok head then_write body.write_versioned msg v)
      ]

  -- The body of a response, which takes up what the header left, to its end.
  unfoldable pub response_body : ApiVersion → Response → Result RequestError Resp
  response_body v response = elim (body.read_versioned v response.rest) [
    | err e ↦ err (read_versioned_error e)
    | panic ↦ panic
    | ok (resp, []) ↦ ok resp
    | ok (resp, b ∷ left) ↦
        let size = length response.message in
        err (too_much_data size (size - length (b ∷ left)) body.api_key v)
  ]
