-- ===== src/Client/Error.antt =====
-- src/client/error.rs. The texts of invalid responses are told apart by what they report.
use rskafka.Prelude.{ℕ, Bool, Option}
use rskafka.Prelude.Int.{ℤ}
use rskafka.Protocol.Primitives.Text.Utf8.{Text}
use rskafka.Protocol.Error as Protocol
use rskafka.Backoff.{BackoffError}
use rskafka.Messenger.{RequestError}
use rskafka.Connection as Connection

pub data RequestContext : Type 0 where
  for_topic : Text → RequestContext
  for_partition : Text → ℤ → RequestContext
  for_fetch : Text → ℤ → ℤ → RequestContext

pub data ServerErrorResponse : Type 0 where
  leader_forward : ℤ → ℤ → ServerErrorResponse
  partition_fetch_state : ℤ → Option ℤ → ServerErrorResponse

pub data InvalidResponse : Type 0 where
  expected_one_topic expected_one_partition expected_one_offset : ℕ → InvalidResponse
  other_topic : Text → InvalidResponse
  other_partition no_such_partition : ℤ → InvalidResponse
  timestamp_overflow : ℤ → ℤ → InvalidResponse
  not_a_timestamp ambiguous_timestamp : ℤ → InvalidResponse
  null_offsets : InvalidResponse
  leader_not_found : ℤ → InvalidResponse
  controller_is_null : InvalidResponse
  controller_not_found : ℤ → InvalidResponse

-- A server error has the protocol's error, the broker's message, the part of the request that it is
-- about, data that is usable nevertheless, and whether the client made it up.
pub data Error : Type 0 where
  connection : Connection.Error → Error
  request : RequestError → Error
  invalid_response : InvalidResponse → Error
  server_error :
      Protocol.Error → Option Text → RequestContext → Option ServerErrorResponse → Bool → Error
  retry_failed : BackoffError → Error
  timeout : Error
