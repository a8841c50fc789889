-- ===== src/Protocol/Messages/ApiVersions/Laws.antt =====
-- The messages of src/protocol/messages/api_versions.rs, there and back.
use rskafka.Prelude.{◌≡◌, refl, subst, Bool, true, false, some, List, [], ◌∷◌, All}
use rskafka.Prelude.Int.{pos, InRange}
use rskafka.Protocol.Traits.{Reader, ◌>>=◌, pure, ◌then_write◌}
use rskafka.Protocol.Traits.Laws.{
  Reads, Reads→RoundTrips, RoundTrips, RoundTrips-bind, RoundTrips-last,
}
use rskafka.Protocol.Primitives.Ints.{half16, half32}
use rskafka.Protocol.Primitives.Ints.Laws.{int16-RoundTrips, int32-RoundTrips}
use rskafka.Protocol.Primitives.Text.{read_compact_string, write_compact_string}
use rskafka.Protocol.Primitives.Text.Laws.{IsText, compact_string-RoundTrips}
use rskafka.Protocol.Primitives.Collections.{read_tagged_fields, write_tagged_fields}
use rskafka.Protocol.Primitives.Collections.Laws.{IsTagged, tagged_fields-RoundTrips}
use rskafka.Protocol.ApiKey.{to_int16}
use rskafka.Protocol.ApiKey.Laws.{IsCanonical, from_int16-to_int16}
use rskafka.Protocol.ApiVersion.{ApiVersion, at_least, at_most}
use rskafka.Protocol.Error as Errors
use rskafka.Protocol.Messages.Fields.{
  plain, plain-RoundTrips, read_if, write_if, if_field-RoundTrips, asserting-RoundTrips, kept,
  or_default,
}
use rskafka.Protocol.Messages.Arrays.Laws.{
  versioned_array-RoundTrips, compact_versioned_array-RoundTrips,
}
use rskafka.Protocol.Messages.ApiVersions.{
  ApiVersionsRequest, read_api_versions_request, write_api_versions_request,
  ApiVersionsResponseApiKey, read_response_api_key, write_response_api_key, ApiVersionsResponse,
  read_api_keys, write_api_keys, read_api_versions_response, write_api_versions_response,
}

pub record IsRequest (r : ApiVersionsRequest) : Type 0 where
  pub name : IsText (or_default [] r.client_software_name)
  pub version : IsText (or_default [] r.client_software_version)
  pub tags : IsTagged (or_default [] r.tagged_fields)

abbrev request_kept : Bool → ApiVersionsRequest → ApiVersionsRequest
request_kept b r = record {
  client_software_name = kept b (or_default [] r.client_software_name);
  client_software_version = kept b (or_default [] r.client_software_version);
  tagged_fields = kept b (or_default [] r.tagged_fields);
}

-- The request as version `v` carries it.
abbrev pub request_in : ApiVersion → ApiVersionsRequest → ApiVersionsRequest
request_in v r = request_kept (at_least v 3) r

abbrev request_fields : Bool → Reader ApiVersionsRequest
request_fields b = do
  name ← read_if b read_compact_string
  version ← read_if b read_compact_string
  fields ← read_if b read_tagged_fields
  pure (record {
    client_software_name = name;
    client_software_version = version;
    tagged_fields = fields;
  })

request_fields-nil :
    (r : ApiVersionsRequest) → Reads (request_fields false) [] (request_kept false r)
unfolding ◌>>=◌
request_fields-nil r = record { at = λ rest. refl }

request_fields-RoundTrips :
    (b : Bool) (r : ApiVersionsRequest)
    → IsRequest r
    → RoundTrips
        (request_fields b)
        (write_if b (
          plain (write_compact_string (or_default [] r.client_software_name))
          then_write plain (write_compact_string (or_default [] r.client_software_version))
          then_write plain (write_tagged_fields (or_default [] r.tagged_fields))))
        (request_kept b r)
request_fields-RoundTrips true r h =
    RoundTrips-bind _
      (if_field-RoundTrips true (plain-RoundTrips _ (compact_string-RoundTrips _ h.name)))
      (RoundTrips-bind _
        (if_field-RoundTrips true (plain-RoundTrips _ (compact_string-RoundTrips _ h.version)))
        (RoundTrips-last _
          (if_field-RoundTrips true (plain-RoundTrips _ (tagged_fields-RoundTrips _ h.tags)))))
request_fields-RoundTrips false r h = Reads→RoundTrips (request_fields-nil r)

-- A request for the supported versions, with texts that are UTF-8, comes back with the fields that its
-- version has, and the input after it is untouched.
pub api_versions_request_round_trip :
    (r : ApiVersionsRequest) (v : ApiVersion)
    → IsRequest r
    → RoundTrips (read_api_versions_request v) (write_api_versions_request r v) (request_in v r)
unfolding read_api_versions_request write_api_versions_request
api_versions_request_round_trip r v h =
    asserting-RoundTrips (at_most v 3) (request_fields-RoundTrips (at_least v 3) r h)

pub record IsApiKey (k : ApiVersionsResponseApiKey) : Type 0 where
  pub canonical : IsCanonical k.api_key
  pub key : InRange half16 (to_int16 k.api_key)
  pub min_version : InRange half16 k.min_version
  pub max_version : InRange half16 k.max_version
  pub tags : IsTagged (or_default [] k.tagged_fields)

abbrev pub key_in : ApiVersion → ApiVersionsResponseApiKey → ApiVersionsResponseApiKey
key_in v k = record k { tagged_fields = kept (at_least v 3) (or_default [] k.tagged_fields) }

api_key-RoundTrips :
    (k : ApiVersionsResponseApiKey) (v : ApiVersion)
    → IsApiKey k
    → RoundTrips (read_response_api_key v) (write_response_api_key k v) (key_in v k)
unfolding read_response_api_key write_response_api_key
api_key-RoundTrips k v h = asserting-RoundTrips (at_most v 3) (
    RoundTrips-bind _ (plain-RoundTrips _ (int16-RoundTrips (to_int16 k.api_key) h.key)) (
      RoundTrips-bind _ (plain-RoundTrips _ (int16-RoundTrips k.min_version h.min_version)) (
        RoundTrips-bind _ (plain-RoundTrips _ (int16-RoundTrips k.max_version h.max_version)) (
          rw (from_int16-to_int16 k.api_key h.canonical) (
            RoundTrips-last _ (
              if_field-RoundTrips (at_least v 3) (
                plain-RoundTrips _
                  (tagged_fields-RoundTrips (or_default [] k.tagged_fields) h.tags))))))))

-- What a response's fields have by their Rust types. The error is one that a code stands for, and the
-- keys are as version `v` carries them.
pub record IsResponse (v : ApiVersion) (r : ApiVersionsResponse) : Type 0 where
  pub error : Errors.new (Errors.to_int16 r.error_code) ≡ r.error_code
  pub code : InRange half16 (Errors.to_int16 r.error_code)
  pub keys : All (λ k. IsApiKey k × (key_in v k ≡ k)) r.api_keys
  pub throttle : InRange half32 (or_default (pos 0) r.throttle_time_ms)
  pub tags : IsTagged (or_default [] r.tagged_fields)

abbrev pub response_in : ApiVersion → ApiVersionsResponse → ApiVersionsResponse
response_in v r = record r {
  throttle_time_ms = kept (at_least v 1) (or_default (pos 0) r.throttle_time_ms);
  tagged_fields = kept (at_least v 3) (or_default [] r.tagged_fields);
}

each_key :
    (v : ApiVersion) (ks : List ApiVersionsResponseApiKey)
    → All (λ k. IsApiKey k × (key_in v k ≡ k)) ks
    → All (λ k. RoundTrips (read_response_api_key v) (write_response_api_key k v) k) ks
each_key v [] h = tt
each_key v (k ∷ ks) h = (
  subst (RoundTrips (read_response_api_key v) (write_response_api_key k v)) h.0.1
      (api_key-RoundTrips k v h.0.0),
  each_key v ks h.1,
)

keys-RoundTrips :
    (b : Bool) (v : ApiVersion) (ks : List ApiVersionsResponseApiKey)
    → All (λ k. IsApiKey k × (key_in v k ≡ k)) ks
    → RoundTrips (read_api_keys b v) (write_api_keys b ks v) (some ks)
keys-RoundTrips true v ks h =
    compact_versioned_array-RoundTrips (read_response_api_key v) (λ k. write_response_api_key k v)
      (some ks) (each_key v ks h)
keys-RoundTrips false v ks h =
    versioned_array-RoundTrips (read_response_api_key v) (λ k. write_response_api_key k v) (some ks)
      (each_key v ks h)

-- A response with the supported versions comes back with the fields that its version has, in the compact
-- form of the array or the other one, and the input after it is untouched.
pub api_versions_response_round_trip :
    (r : ApiVersionsResponse) (v : ApiVersion)
    → IsResponse v r
    → RoundTrips (read_api_versions_response v) (write_api_versions_response r v) (response_in v r)
unfolding read_api_versions_response write_api_versions_response
api_versions_response_round_trip r v h = asserting-RoundTrips (at_most v 3) (
    RoundTrips-bind _ (plain-RoundTrips _ (int16-RoundTrips (Errors.to_int16 r.error_code) h.code))
      (RoundTrips-bind _ (keys-RoundTrips (at_least v 3) v r.api_keys h.keys) (
        RoundTrips-bind _
          (if_field-RoundTrips (at_least v 1) (plain-RoundTrips _ (int32-RoundTrips _ h.throttle)))
          (rw h.error (
            RoundTrips-last _ (
              if_field-RoundTrips (at_least v 3)
                (plain-RoundTrips _ (tagged_fields-RoundTrips _ h.tags))))))))
