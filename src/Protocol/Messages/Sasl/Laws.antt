-- ===== src/Protocol/Messages/Sasl/Laws.antt =====
-- What is read of the messages of src/protocol/messages/sasl_msg.rs.
use rskafka.Prelude.{if◌then◌else◌, ℕ, ◌≡◌, ◌∙◌, Bool, true, false, List, [], ◌∷◌, some}
use rskafka.Prelude.Int.{ℤ, pos, eqb_ℤ}
use rskafka.Prelude.Result.{ok, panic}
use rskafka.Protocol.Traits.{◌then_write◌}
use rskafka.Protocol.Traits.Laws.{RoundTrips, RoundTrips-bind, RoundTrips-last, bind_ok, bind_panic}
use rskafka.Protocol.Primitives.Ints.{read_int16}
use rskafka.Protocol.Primitives.Text.{read_compact_nullable_string}
use rskafka.Protocol.Primitives.Text.Laws.{IsText, string-RoundTrips, null_string}
use rskafka.Protocol.Primitives.ByteStrings.{read_compact_bytes, write_bytes, write_compact_bytes}
use rskafka.Protocol.Primitives.ByteStrings.Laws.{
  bytes-RoundTrips, compact_bytes-RoundTrips, empty_bytes,
}
use rskafka.Protocol.Primitives.Collections.{write_tagged_fields}
use rskafka.Protocol.Primitives.Collections.Laws.{IsTagged, tagged_fields-RoundTrips}
use rskafka.Protocol.ApiVersion.{ApiVersion, at_most}
use rskafka.Protocol.Messages.Fields.{plain, plain-RoundTrips, asserting-RoundTrips, or_default}
use rskafka.Protocol.Messages.Sasl.{
  SaslHandshakeRequest, SaslAuthenticateRequest, authenticate_with, is_old,
  read_sasl_handshake_request, write_sasl_handshake_request, read_old_authenticate_request,
  read_new_authenticate_request, read_sasl_authenticate_request, write_sasl_authenticate_request,
  read_sasl_authenticate_response,
}

-- The request with the fields that a version has.
abbrev pub authenticate_in : Bool → SaslAuthenticateRequest → SaslAuthenticateRequest
authenticate_in true r = authenticate_with r.auth_bytes
authenticate_in false r = record r { tagged_fields = some (or_default [] r.tagged_fields) }

authenticate-RoundTrips :
    (b : Bool) (r : SaslAuthenticateRequest)
    → IsTagged (or_default [] r.tagged_fields)
    → RoundTrips
        (if b then read_old_authenticate_request else read_new_authenticate_request)
        (if b
          then plain (write_bytes r.auth_bytes)
          else (plain (write_compact_bytes r.auth_bytes)
              then_write plain (write_tagged_fields (or_default [] r.tagged_fields))))
        (authenticate_in b r)
authenticate-RoundTrips true r h =
    RoundTrips-last _ (plain-RoundTrips _ (bytes-RoundTrips r.auth_bytes))
authenticate-RoundTrips false r h =
    RoundTrips-bind _ (plain-RoundTrips _ (compact_bytes-RoundTrips r.auth_bytes))
      (RoundTrips-last _ (plain-RoundTrips _ (tagged_fields-RoundTrips _ h)))

-- The requests of a SASL session come back with the fields that their version has.
pub sasl_requests_round_trip :
    (a : SaslHandshakeRequest) (r : SaslAuthenticateRequest) (v : ApiVersion)
    → IsText a.mechanism
    → IsTagged (or_default [] r.tagged_fields)
    → RoundTrips (read_sasl_handshake_request v) (write_sasl_handshake_request v a) a
      × RoundTrips
          (read_sasl_authenticate_request v)
          (write_sasl_authenticate_request v r)
          (authenticate_in (is_old v) r)
unfolding read_sasl_handshake_request write_sasl_handshake_request read_sasl_authenticate_request
    write_sasl_authenticate_request
sasl_requests_round_trip a r v h k = (
  asserting-RoundTrips (eqb_ℤ v (pos 1))
      (RoundTrips-last _ (plain-RoundTrips _ (string-RoundTrips a.mechanism h))),
  asserting-RoundTrips (at_most v 2) (authenticate-RoundTrips (is_old v) r k),
)

-- A broker's answer to a SASL authentication in version 2 that has, after any error code, no message and
-- the length 0 for its bytes makes the reader panic, whatever comes after.
pub empty_sasl_answer_panics :
    (bytes rest : List ℕ) (code : ℤ)
    → read_int16 bytes ≡ ok (code, 0 ∷ 0 ∷ rest)
    → read_sasl_authenticate_response (pos 2) bytes ≡ panic
unfolding read_sasl_authenticate_response
empty_sasl_answer_panics bytes rest code e =
    bind_ok read_int16 _ bytes e
    ∙ bind_ok read_compact_nullable_string _ (0 ∷ 0 ∷ rest) (null_string (0 ∷ rest))
    ∙ bind_panic read_compact_bytes _ (0 ∷ rest) (empty_bytes rest)
