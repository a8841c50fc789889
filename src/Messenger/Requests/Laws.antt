-- ===== src/Messenger/Requests/Laws.antt =====
-- Requests and responses of src/messenger.rs on the wire.
use rskafka.Prelude.{
  ℕ, ◌<◌, ◌≡◌, refl, arith, true, Bool-cases, inl, inr, none, List, [], ◌++◌, length,
}
use rskafka.Prelude.Int.{InRange, from_word}
use rskafka.Prelude.Result.{ok}
use rskafka.Protocol.Traits.{◌then_write◌}
use rskafka.Protocol.Traits.Succeeds.{Succeeds, Succeeds-then, encodes}
use rskafka.Protocol.Primitives.Ints.{half16, half32}
use rskafka.Protocol.Primitives.Varint.{u64_mod}
use rskafka.Protocol.Primitives.Text.Utf8.{Text}
use rskafka.Protocol.Primitives.Text.Laws.{IsText, IsOptText}
use rskafka.Protocol.Primitives.Codecs.{
  FitsBelow, FitTagged, int16-Succeeds, int32-Succeeds, nullable_string-Succeeds,
  tagged_fields-Succeeds,
}
use rskafka.Protocol.ApiKey.{to_int16}
use rskafka.Protocol.ApiKey.Laws.{IsCanonical}
use rskafka.Protocol.ApiVersion.{ApiVersion, at_least, at_most}
use rskafka.Protocol.Messages.Fields.{plain-Succeeds, if-Succeeds, or_default}
use rskafka.Protocol.Messages.Header.{RequestHeader, read_request_header, write_request_header}
use rskafka.Protocol.Messages.Header.Laws.{request_header_in, request_header_round_trip}
use rskafka.Messenger.{Ticket, correlation_id}
use rskafka.Messenger.Requests.{
  RequestBody, header_version, use_tagged_fields_in_request, request_header, request_bytes,
}

request_header-Succeeds :
    (h : RequestHeader) (v : ApiVersion)
    → at_most v 2 ≡ true
    → FitsBelow half16 (or_default none h.client_id)
    → length (or_default [] h.tagged_fields) < u64_mod
    → FitTagged (or_default [] h.tagged_fields)
    → Succeeds (write_request_header h v)
unfolding write_request_header
request_header-Succeeds h v e client few tags = rw e (
    Succeeds-then _ _ (plain-Succeeds _ (int16-Succeeds (to_int16 h.request_api_key))) (
      Succeeds-then _ _ (plain-Succeeds _ (int16-Succeeds h.request_api_version)) (
        Succeeds-then _ _ (plain-Succeeds _ (int32-Succeeds h.correlation_id)) (
          Succeeds-then _ _
            (if-Succeeds (at_least v 1)
              (plain-Succeeds _ (nullable_string-Succeeds (or_default none h.client_id) client)))
            (if-Succeeds (at_least v 2) (
              plain-Succeeds _
                (tagged_fields-Succeeds (or_default [] h.tagged_fields) few tags)))))))

pub correlation_id-InRange : (n : Ticket) → InRange half32 (correlation_id n)
unfolding correlation_id from_word
correlation_id-InRange n = ground arith

module _ {Req Resp : Type 0} (body : RequestBody Req Resp) where
  header_version_low : (v : ApiVersion) → at_most (header_version body v) 2 ≡ true
  header_version_low v = elim (Bool-cases (use_tagged_fields_in_request body v)) [
    | inl e ↦ rw e refl
    | inr e ↦ rw e refl
  ]

  -- With a client ID of fewer than 2 ^ 15 bytes, a message whose body can be written is sent as a header
  -- and the body: reading the header in the version that was chosen gives back the API key, the
  -- version and the ID of the request, and leaves the body. The key is one that a server knows or
  -- an unknown one of its own code, and key and version fit an INT16.
  pub request_message_parses :
      (client_id : Text) (n : Ticket) (v : ApiVersion) (msg : Req) (payload : List ℕ)
      → IsText client_id
      → length client_id < half16
      → IsCanonical body.api_key
      → InRange half16 (to_int16 body.api_key)
      → InRange half16 v
      → body.write_versioned msg v ≡ ok payload
      → (bs : List ℕ) × (request_bytes body client_id (correlation_id n) v msg ≡ ok bs)
        × (read_request_header (header_version body v) bs
            ≡ ok (
              request_header_in
                  (header_version body v)
                  (request_header body client_id (correlation_id n) v),
              payload,
            ))
  unfolding request_bytes ◌then_write◌
  request_message_parses client_id n v msg payload text short canonical key version e =
      let h = request_header body client_id (correlation_id n) v in
      let hv = header_version body v in
      let (head, w, back) =
        encodes
          (request_header_round_trip h hv (record {
            key = key;
            canonical = canonical;
            version = version;
            id = correlation_id-InRange n;
            client = IsOptText.text text;
            tags = tt;
          }))
          (request_header-Succeeds h hv (header_version_low v) short (omega arith) tt) in
      (head ++ payload, rw (w, e, request_bytes) refl, back payload)
