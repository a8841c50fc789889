-- ===== src/Messenger/Sync.antt =====
-- `sync_versions` of src/messenger.rs: which versions does the broker support?
pub mod Laws
use rskafka.Prelude.{
  ℕ, zero, suc, ◌-◌, ◌^◌, Bool, true, false, not, if◌then◌else◌, Option, none, some, List, [], ◌∷◌,
}
use rskafka.Prelude.Int.{ℤ, pos, negsuc, leb_ℤ}
use rskafka.Prelude.Result.{Result, ok, err, panic, ◌>>=◌, map_ok, map_err}
use rskafka.Throttle.{maybe_throttle}
use rskafka.Protocol.ApiKey.{ApiKey, api_versions}
use rskafka.Protocol.ApiVersion.{ApiVersion, ApiVersionRange, new}
use rskafka.Protocol.Messages.ApiVersions.{
  api_versions_range, ApiVersionsRequest, write_api_versions_request, ApiVersionsResponseApiKey,
  ApiVersionsResponse, read_api_versions_response,
}
use rskafka.Messenger.{
  RequestError, no_version_match, read_error, read_versioned_error, too_much_data,
}
use rskafka.Messenger.Requests.{RequestBody, body_api_version}

-- `impl RequestBody for ApiVersionsRequest`
abbrev pub api_versions_body : RequestBody ApiVersionsRequest ApiVersionsResponse
api_versions_body = record {
  api_key = api_versions;
  api_version_range = api_versions_range;
  first_tagged_field_in_request_version = pos 3;
  first_tagged_field_in_response_version = pos (2 ^ 15 - 1);
  write_versioned = write_api_versions_request;
  read_versioned = read_api_versions_response;
}

pub data SyncVersionsError : Type 0 where
  no_working_version : SyncVersionsError
  request_error : RequestError → SyncVersionsError
  flipped_version_range : ApiKey → ApiVersion → ApiVersion → SyncVersionsError

abbrev pub Ranges : Type 0
Ranges = List (ApiKey × ApiVersionRange)

-- The first range whose ends are flipped.
unfoldable pub flipped : List ApiVersionsResponseApiKey → Option SyncVersionsError
flipped [] = none
flipped (k ∷ ks) =
    let rest = flipped ks in
    if leb_ℤ k.min_version k.max_version
    then rest
    else some (flipped_version_range k.api_key k.min_version k.max_version)

-- The ranges, with the assertion of `ApiVersionRange::new`. A map made of them keeps the last one for a
-- key.
unfoldable pub ranges_of : List ApiVersionsResponseApiKey → Result SyncVersionsError Ranges
ranges_of [] = ok []
ranges_of (k ∷ ks) =
    new k.min_version k.max_version >>= λ r. map_ok (λ rest. (k.api_key, r) ∷ rest) (ranges_of ks)

-- What one answer makes of the loops: the same request again, the next version, or the end.
pub data Verdict : Type 0 where
  throttled next_version : Verdict
  returns : Result SyncVersionsError Ranges → Verdict

unfoldable pub checked_ranges : List ApiVersionsResponseApiKey → Result SyncVersionsError Ranges
checked_ranges keys = elim (flipped keys) [ some e ↦ err e | none ↦ ranges_of keys ]

unfoldable pub on_response : ApiVersionsResponse → Verdict
on_response r = elim (maybe_throttle r.throttle_time_ms) [
  | some ms ↦ throttled
  | none ↦ elim r.error_code [ some e ↦ next_version | none ↦ returns (checked_ranges r.api_keys) ]
]

unfoldable pub on_error : RequestError → Verdict
on_error (no_version_match key) = returns panic
on_error (read_versioned_error e) = next_version
on_error (read_error e) = next_version
on_error (too_much_data size read key v) = next_version
on_error e = returns (err (request_error e))

unfoldable pub on_answer : Result RequestError ApiVersionsResponse → Verdict
on_answer (ok r) = on_response r
on_answer (err e) = on_error e
on_answer panic = returns panic

-- What is sent in a version, and what comes back.
abbrev pub Answer : Type 0
Answer = ApiVersion → Result RequestError ApiVersionsResponse

-- `request_with_version_ranges` with the one range from the least version to `upper_bound`.
unfoldable pub request_up_to : ApiVersion → Answer → Result RequestError ApiVersionsResponse
request_up_to upper_bound answer = new api_versions_range.min upper_bound >>= λ range.
    body_api_version api_versions_body (some range) >>= λ v. answer v

-- `(min..=max).rev()`
abbrev pub upper_bounds : List ApiVersion
upper_bounds = pos 3 ∷ pos 2 ∷ pos 1 ∷ pos 0 ∷ []

-- Both loops, on the answers to the requests that are sent one after the other. There is no result as
-- long as one is still waited for.
unfoldable pub sync_from : List ApiVersion → List Answer → Option (Result SyncVersionsError Ranges)
sync_from [] answers = some (err no_working_version)
sync_from (u ∷ us) [] = none
sync_from (u ∷ us) (a ∷ answers) =
    let again = sync_from (u ∷ us) answers in
    let next = sync_from us answers in
    elim (on_answer (request_up_to u a)) [
      | throttled ↦ again
      | next_version ↦ next
      | returns r ↦ some r
    ]

unfoldable pub sync_versions : List Answer → Option (Result SyncVersionsError Ranges)
sync_versions answers = sync_from upper_bounds answers
