-- ===== src/Tests/Connections.antt =====
-- The theorems about src/messenger.rs and its headers at concrete inputs.
use rskafka.Prelude.{ℕ, ◌+◌, ◌≤◌, ◌≡◌, refl, arith, true, false, some, List, [], ◌∷◌, ◌++◌, All}
use rskafka.Prelude.Int.{ℤ, pos}
use rskafka.Prelude.Result.{ok, err}
use rskafka.Protocol.Traits.{read_exact, ◌then_write◌}
use rskafka.Protocol.Traits.Laws.{Reads}
use rskafka.Protocol.Primitives.Ints.{read_int16, write_int16, write_int32}
use rskafka.Protocol.Primitives.Ints.Laws.{int16-RoundTrips}
use rskafka.Protocol.Primitives.Text.Utf8.{Text, is_utf8}
use rskafka.Protocol.Primitives.Text.Laws.{IsText, IsOptText}
use rskafka.Protocol.ApiKey.{metadata, to_int16}
use rskafka.Protocol.ApiVersion.{ApiVersionRange}
use rskafka.Protocol.Frame.{read_message}
use rskafka.Protocol.Messages.Fields.{plain}
use rskafka.Protocol.Messages.Header.{
  RequestHeader, read_request_header, ResponseHeader, write_response_header,
}
use rskafka.Protocol.Messages.Header.Laws.{IsRequestHeader, request_header_in}
use rskafka.Messenger.{
  too_much_data, ActiveRequest, RequestMap, request_map, correlation_id, lookup, remove, poison,
}
use rskafka.Messenger.Versions.{match_versions, IsGreatestCommon, match_versions_greatest}
use rskafka.Messenger.Requests.{
  RequestBody, header_version, request_header, request_bytes, response_body,
}
use rskafka.Messenger.Requests.Laws.{request_message_parses}
use rskafka.Messenger.Worker.{on_message, worker_turn, poison_turn}
use rskafka.Messenger.Worker.Laws.{response_of, on_message_answers, response_body_takes_all}
use rskafka.Messenger.World.{
  World, waiting, initial, take_id, register, message_sent, receive, takes_id, registers, sends,
  receives, start, step, Reachable,
}
use rskafka.Messenger.World.Counts.{all_ids, entries, told}
use rskafka.Messenger.World.Invariant.{map_of, IsOwn}
use rskafka.Messenger.World.Deliveries.{
  waiting_request_is_owed, at_most_one_answer, responses_match_ids, ended_worker_owes_nothing,
}

abbrev range_a : ApiVersionRange
range_a = record { min = pos 1; max = pos 7 }

abbrev range_b : ApiVersionRange
range_b = record { min = pos 0; max = pos 4 }

match_versions_greatest_example : IsGreatestCommon range_a range_b (match_versions range_a range_b)
match_versions_greatest_example =
    match_versions_greatest range_a range_b (omega arith) (omega arith)

-- A client ID.
abbrev client : Text
client = 114 ∷ 115 ∷ []

client-IsText : IsText client
unfolding is_utf8
client-IsText = record { utf8 = refl }

abbrev header : RequestHeader
header = record {
  request_api_key = metadata;
  request_api_version = pos 4;
  correlation_id = pos 17;
  client_id = some (some client);
  tagged_fields = some [];
}

header-IsRequestHeader : IsRequestHeader header
unfolding to_int16
header-IsRequestHeader = record {
  key = omega arith;
  canonical = tt;
  version = omega arith;
  id = omega arith;
  client = IsOptText.text client-IsText;
  tags = tt;
}

abbrev answer_header : ResponseHeader
answer_header = record { correlation_id = pos 0; tagged_fields = some [] }

-- A request that is one INT16 and is answered by one.
abbrev ping : RequestBody ℤ ℤ
ping = record {
  api_key = metadata;
  api_version_range = range_a;
  first_tagged_field_in_request_version = pos 9;
  first_tagged_field_in_response_version = pos 9;
  write_versioned = λ z v. plain (write_int16 z);
  read_versioned = λ v. read_int16;
}

five_written : plain (write_int16 (pos 5)) ≡ ok (0 ∷ 5 ∷ [])
unfolding write_int16
five_written = refl

request_message_parses_example :
    (bs : List ℕ) × (request_bytes ping client (correlation_id 0) (pos 4) (pos 5) ≡ ok bs)
    × (read_request_header (header_version ping (pos 4)) bs
        ≡ ok (
          request_header_in
              (header_version ping (pos 4))
              (request_header ping client (correlation_id 0) (pos 4)),
          0 ∷ 5 ∷ [],
        ))
request_message_parses_example =
    request_message_parses ping client 0 (pos 4) (pos 5) (0 ∷ 5 ∷ []) client-IsText (omega arith) tt
      (header-IsRequestHeader.key) (omega arith) five_written

abbrev active : ActiveRequest
active = record { channel = 0; use_tagged_fields_in_response = false }

abbrev one_active : RequestMap
one_active = (pos 0, active) ∷ []

found : lookup (pos 0) one_active ≡ some active
unfolding lookup
found = refl

head_written : write_response_header answer_header (pos 0) ≡ ok (0 ∷ 0 ∷ 0 ∷ 0 ∷ [])
unfolding write_response_header ◌then_write◌ write_int32
head_written = refl

abbrev head : List ℕ
head = 0 ∷ 0 ∷ 0 ∷ 0 ∷ []

on_message_answers_example : on_message (head ++ 0 ∷ 5 ∷ []) (request_map one_active) ≡ record {
  state = request_map (remove (pos 0) one_active);
  sent = (0, ok (response_of false answer_header head (0 ∷ 5 ∷ []))) ∷ [];
  goes_on = true;
}
on_message_answers_example =
    on_message_answers false one_active 0 answer_header head (0 ∷ 5 ∷ []) found (omega arith) tt
      head_written

five_read : Reads (ping.read_versioned (pos 4)) (0 ∷ 5 ∷ []) (pos 5)
five_read = (int16-RoundTrips (pos 5) (omega arith)).back (0 ∷ 5 ∷ []) (unfold write_int16 in refl)

response_body_takes_all_example :
    response_body ping (pos 4) (response_of false answer_header head (0 ∷ 5 ∷ 9 ∷ []))
    ≡ err (too_much_data 7 6 metadata (pos 4))
response_body_takes_all_example =
    response_body_takes_all ping (pos 4) false answer_header head (0 ∷ 5 ∷ []) (9 ∷ []) (pos 5)
      five_read

-- A request is sent, and the stream ends before its response.
abbrev waits : World
waits = message_sent 0 (register 0 false (take_id initial))

waits-Reachable : Reachable waits
unfolding take_id register
waits-Reachable = step (step (step start takes_id) (registers 0 false refl)) (sends 0 refl)

waits-next : waits.next ≤ all_ids
unfolding take_id register message_sent
waits-next = omega arith

waits-waiting : waits.phase 0 ≡ waiting
unfolding take_id register message_sent
waits-waiting = refl

waiting_request_is_owed_example : entries 0 (map_of waits.state) + told 0 waits.delivered ≡ 1
waiting_request_is_owed_example =
    waiting_request_is_owed waits 0 waits-Reachable waits-next waits-waiting

-- The stream has ended.
abbrev ended : World
ended = receive (read_message 10 []).0 waits

ended-Reachable : Reachable ended
unfolding message_sent register take_id
ended-Reachable = step waits-Reachable (receives 10 [] refl)

ended-next : ended.next ≤ all_ids
unfolding receive
ended-next = waits-next

ended-stops : ended.worker_runs ≡ false
unfolding receive worker_turn poison_turn read_message message_sent register take_id poison
    read_exact
ended-stops = refl

ended-waiting : ended.phase 0 ≡ waiting
unfolding receive
ended-waiting = waits-waiting

at_most_one_answer_example : told 0 ended.delivered ≤ 1
at_most_one_answer_example = at_most_one_answer ended 0 ended-Reachable ended-next

responses_match_ids_example : All IsOwn ended.delivered
responses_match_ids_example = responses_match_ids ended ended-Reachable ended-next

ended_worker_owes_nothing_example : told 0 ended.delivered ≡ 1
ended_worker_owes_nothing_example =
    ended_worker_owes_nothing ended 0 ended-Reachable ended-next ended-stops ended-waiting
