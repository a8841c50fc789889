-- ===== src/Protocol/Messages/Header/Laws.antt =====
-- The headers of src/protocol/messages/header.rs, there and back.
use rskafka.Prelude.{none, []}
use rskafka.Prelude.Int.{InRange}
use rskafka.Protocol.Traits.Laws.{RoundTrips, RoundTrips-bind, RoundTrips-last}
use rskafka.Protocol.Primitives.Ints.{half16, half32}
use rskafka.Protocol.Primitives.Ints.Laws.{int16-RoundTrips, int32-RoundTrips}
use rskafka.Protocol.Primitives.Text.Laws.{IsOptText, nullable_string-RoundTrips}
use rskafka.Protocol.Primitives.Collections.Laws.{IsTagged, tagged_fields-RoundTrips}
use rskafka.Protocol.ApiKey.{to_int16}
use rskafka.Protocol.ApiKey.Laws.{IsCanonical, from_int16-to_int16}
use rskafka.Protocol.ApiVersion.{ApiVersion, at_least, at_most}
use rskafka.Protocol.Messages.Fields.{
  plain-RoundTrips, if_field-RoundTrips, asserting-RoundTrips, kept, or_default,
}
use rskafka.Protocol.Messages.Header.{
  RequestHeader, read_request_header, write_request_header, ResponseHeader, read_response_header,
  write_response_header,
}

-- What a header's fields have by their Rust types.
pub record IsRequestHeader (h : RequestHeader) : Type 0 where
  pub key : InRange half16 (to_int16 h.request_api_key)
  pub canonical : IsCanonical h.request_api_key
  pub version : InRange half16 h.request_api_version
  pub id : InRange half32 h.correlation_id
  pub client : IsOptText (or_default none h.client_id)
  pub tags : IsTagged (or_default [] h.tagged_fields)

-- The header as version `v` carries it.
abbrev pub request_header_in : ApiVersion → RequestHeader → RequestHeader
request_header_in v h = record {
  request_api_key = h.request_api_key;
  request_api_version = h.request_api_version;
  correlation_id = h.correlation_id;
  client_id = kept (at_least v 1) (or_default none h.client_id);
  tagged_fields = kept (at_least v 2) (or_default [] h.tagged_fields);
}

-- A request header with in-range fields that is written with a version comes back, with the fields
-- that version has, and the input after it is untouched.
pub request_header_round_trip :
    (h : RequestHeader) (v : ApiVersion)
    → IsRequestHeader h
    → RoundTrips (read_request_header v) (write_request_header h v) (request_header_in v h)
unfolding read_request_header write_request_header
request_header_round_trip h v ih = asserting-RoundTrips (at_most v 2) (
    RoundTrips-bind _ (plain-RoundTrips _ (int16-RoundTrips (to_int16 h.request_api_key) ih.key)) (
      RoundTrips-bind _ (plain-RoundTrips _ (int16-RoundTrips h.request_api_version ih.version)) (
        RoundTrips-bind _ (plain-RoundTrips _ (int32-RoundTrips h.correlation_id ih.id)) (
          RoundTrips-bind _
            (if_field-RoundTrips (at_least v 1) (
              plain-RoundTrips _
                (nullable_string-RoundTrips (or_default none h.client_id) ih.client)))
            (rw (from_int16-to_int16 h.request_api_key ih.canonical) (
              RoundTrips-last _ (
                if_field-RoundTrips (at_least v 2) (
                  plain-RoundTrips _
                    (tagged_fields-RoundTrips (or_default [] h.tagged_fields) ih.tags)))))))))

-- A response header with in-range fields that is written with a version comes back, with the
-- fields that version has, and the input after it is untouched.
pub response_header_round_trip :
    (h : ResponseHeader) (v : ApiVersion)
    → InRange half32 h.correlation_id
    → IsTagged (or_default [] h.tagged_fields)
    → RoundTrips (read_response_header v) (write_response_header h v) (record {
      correlation_id = h.correlation_id;
      tagged_fields = kept (at_least v 1) (or_default [] h.tagged_fields);
    })
unfolding read_response_header write_response_header
response_header_round_trip h v id tags = asserting-RoundTrips (at_most v 1) (
    RoundTrips-bind _ (plain-RoundTrips _ (int32-RoundTrips h.correlation_id id)) (
      RoundTrips-last _ (
        if_field-RoundTrips (at_least v 1)
          (plain-RoundTrips _ (tagged_fields-RoundTrips (or_default [] h.tagged_fields) tags)))))
