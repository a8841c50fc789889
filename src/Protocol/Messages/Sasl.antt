-- ===== src/Protocol/Messages/Sasl.antt =====
-- src/protocol/messages/sasl_msg.rs.
pub mod Laws
use rskafka.Prelude.{Bool, ◌||◌, if◌then◌else◌, Option, none, some, List, [], ℕ}
use rskafka.Prelude.Int.{ℤ, pos, eqb_ℤ}
use rskafka.Prelude.Result.{ok}
use rskafka.Protocol.Traits.{Reader, ◌>>=◌, pure, ◌then_write◌}
use rskafka.Protocol.Primitives.Ints.{read_int16, read_int64}
use rskafka.Protocol.Primitives.Text.{
  read_string, write_string, read_nullable_string, read_compact_nullable_string,
}
use rskafka.Protocol.Primitives.Text.Utf8.{Text}
use rskafka.Protocol.Primitives.ByteStrings.{
  read_bytes, write_bytes, read_compact_bytes, write_compact_bytes,
}
use rskafka.Protocol.Primitives.Collections.{
  TaggedFields, read_tagged_fields, write_tagged_fields, read_array,
}
use rskafka.Protocol.ApiVersion.{ApiVersion, ApiVersionRange, at_most}
use rskafka.Protocol.Error as Errors
use rskafka.Protocol.Messages.Fields.{
  VersionedWriter, plain, read_asserting, write_asserting, or_default,
}

abbrev pub sasl_handshake_range : ApiVersionRange
sasl_handshake_range = record { min = pos 1; max = pos 1 }

abbrev pub sasl_authenticate_range : ApiVersionRange
sasl_authenticate_range = record { min = pos 0; max = pos 2 }

pub record SaslHandshakeRequest : Type 0 where
  pub mechanism : Text

pub record SaslHandshakeResponse : Type 0 where
  pub error_code : Option Errors.Error
  pub mechanisms : Option (List Text)

pub record SaslAuthenticateRequest : Type 0 where
  pub auth_bytes : List ℕ
  pub tagged_fields : Option TaggedFields

pub record SaslAuthenticateResponse : Type 0 where
  pub error_code : Option Errors.Error
  pub error_message : Option Text
  pub auth_bytes : List ℕ
  pub session_lifetime_ms : Option ℤ
  pub tagged_fields : Option TaggedFields

-- `SaslAuthenticateRequest::new`
abbrev pub authenticate_with : List ℕ → SaslAuthenticateRequest
authenticate_with auth_bytes = record { auth_bytes = auth_bytes; tagged_fields = some [] }

abbrev pub read_old_authenticate_request : Reader SaslAuthenticateRequest
read_old_authenticate_request = do auth_bytes ← read_bytes; pure (authenticate_with auth_bytes)

abbrev pub read_new_authenticate_request : Reader SaslAuthenticateRequest
read_new_authenticate_request = do
  auth_bytes ← read_compact_bytes
  fields ← read_tagged_fields
  pure (record { auth_bytes = auth_bytes; tagged_fields = some fields })

abbrev pub read_first_authenticate_response : Reader SaslAuthenticateResponse
read_first_authenticate_response = do
  error ← read_int16
  message ← read_nullable_string
  auth_bytes ← read_bytes
  pure (record {
    error_code = Errors.new error;
    error_message = message;
    auth_bytes = auth_bytes;
    session_lifetime_ms = none;
    tagged_fields = none;
  })

abbrev pub read_second_authenticate_response : Reader SaslAuthenticateResponse
read_second_authenticate_response = do
  error ← read_int16
  message ← read_nullable_string
  auth_bytes ← read_bytes
  lifetime ← read_int64
  pure (record {
    error_code = Errors.new error;
    error_message = message;
    auth_bytes = auth_bytes;
    session_lifetime_ms = some lifetime;
    tagged_fields = none;
  })

abbrev pub read_compact_authenticate_response : Reader SaslAuthenticateResponse
read_compact_authenticate_response = do
  error ← read_int16
  message ← read_compact_nullable_string
  auth_bytes ← read_compact_bytes
  lifetime ← read_int64
  fields ← read_tagged_fields
  pure (record {
    error_code = Errors.new error;
    error_message = message;
    auth_bytes = auth_bytes;
    session_lifetime_ms = some lifetime;
    tagged_fields = some fields;
  })

module _ (v : ApiVersion) where
  unfoldable pub read_sasl_handshake_request : Reader SaslHandshakeRequest
  read_sasl_handshake_request =
      read_asserting (eqb_ℤ v (pos 1))
        do mechanism ← read_string; pure (record { mechanism = mechanism })

  unfoldable pub write_sasl_handshake_request : SaslHandshakeRequest → VersionedWriter
  write_sasl_handshake_request r =
      write_asserting (eqb_ℤ v (pos 1)) (plain (write_string r.mechanism))

  unfoldable pub read_sasl_handshake_response : Reader SaslHandshakeResponse
  read_sasl_handshake_response = read_asserting (eqb_ℤ v (pos 1)) do
    error ← read_int16
    mechanisms ← read_array read_string
    pure (record { error_code = Errors.new error; mechanisms = mechanisms })

  -- The two versions without compact types.
  abbrev pub is_old : Bool
  is_old = eqb_ℤ v (pos 0) || eqb_ℤ v (pos 1)

  unfoldable pub read_sasl_authenticate_request : Reader SaslAuthenticateRequest
  read_sasl_authenticate_request =
      read_asserting (at_most v 2)
        (if is_old then read_old_authenticate_request else read_new_authenticate_request)

  unfoldable pub write_sasl_authenticate_request : SaslAuthenticateRequest → VersionedWriter
  write_sasl_authenticate_request r = write_asserting (at_most v 2) (
      if is_old
      then plain (write_bytes r.auth_bytes)
      else (plain (write_compact_bytes r.auth_bytes)
          then_write plain (write_tagged_fields (or_default [] r.tagged_fields))))

  unfoldable pub read_sasl_authenticate_response : Reader SaslAuthenticateResponse
  read_sasl_authenticate_response = read_asserting (at_most v 2) (
      if eqb_ℤ v (pos 0)
      then read_first_authenticate_response
      else if eqb_ℤ v (pos 1)
      then read_second_authenticate_response
      else read_compact_authenticate_response)
