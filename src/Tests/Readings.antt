-- ===== src/Tests/Readings.antt =====
-- The theorems about what is read of responses at concrete inputs.
use rskafka.Prelude.{ℕ, ◌≡◌, ◌≢◌, refl, none, some, List, [], ◌∷◌, ◌++◌}
use rskafka.Prelude.Int.{pos}
use rskafka.Prelude.Result.{ok, panic}
use rskafka.Protocol.Traits.{◌>>=◌, read_exact, read_times}
use rskafka.Protocol.Traits.Laws.{bind_ok}
use rskafka.Protocol.VecBuilder.{read_vec}
use rskafka.Protocol.VecBuilder.Refinement.{read_vec-read_exact}
use rskafka.Protocol.Primitives.Ints.{read_int, read_int16, read_int32, read_int64}
use rskafka.Protocol.Primitives.Text.{read_string, read_text}
use rskafka.Protocol.Primitives.Text.Utf8.{Text, is_utf8}
use rskafka.Protocol.Primitives.Text.Equality.{same_text}
use rskafka.Protocol.Error as Errors
use rskafka.Protocol.Messages.Arrays.{read_versioned_array}
use rskafka.Protocol.Messages.ApiVersions.{read_api_versions_response}
use rskafka.Protocol.Messages.Metadata.{read_metadata_response}
use rskafka.Protocol.Messages.CreateTopics.{read_create_topics_response}
use rskafka.Protocol.Messages.DeleteTopics.{read_delete_topics_response}
use rskafka.Protocol.Messages.Produce.{read_produce_response}
use rskafka.Protocol.Messages.DeleteRecords.{read_delete_records_response}
use rskafka.Protocol.Messages.ListOffsets.{
  ListOffsetsResponse, ListOffsetsResponsePartition, read_list_offsets_partition,
  read_list_offsets_topic, read_list_offsets_response,
}
use rskafka.Protocol.Primitives.Text.Laws.{IsText}
use rskafka.Protocol.Traits.Laws.{RoundTrips}
use rskafka.Protocol.Messages.Sasl.{
  SaslAuthenticateRequest, is_old, read_sasl_handshake_request, write_sasl_handshake_request,
  read_sasl_authenticate_request, write_sasl_authenticate_request, read_sasl_authenticate_response,
}
use rskafka.Protocol.Messages.Sasl.Laws.{
  authenticate_in, sasl_requests_round_trip, empty_sasl_answer_panics,
}
use rskafka.Protocol.Messages.Total.Responses.{responses_never_panic}
use rskafka.Client.Partition.Responses.{exactly_one, process_list_offsets_response, extract_offset}
use rskafka.Client.Partition.Responses.Offsets.{listed_offset_is_taken}

abbrev name : Text
name = 97 ∷ []

abbrev partition_bytes : List ℕ
partition_bytes =
    (0 ∷ 0 ∷ 0 ∷ 1 ∷ 0 ∷ 0 ∷ 0 ∷ 0 ∷ 0 ∷ 0 ∷ [])
    ++ (0 ∷ 0 ∷ 0 ∷ 0 ∷ 0 ∷ 0 ∷ 0 ∷ 0 ∷ 0 ∷ 0 ∷ 0 ∷ 0 ∷ 0 ∷ 0 ∷ 0 ∷ 40 ∷ [])

-- One topic with one partition, whose offset is 40.
abbrev bytes : List ℕ
bytes = (0 ∷ 0 ∷ 0 ∷ 1 ∷ 0 ∷ 1 ∷ 97 ∷ []) ++ partition_bytes

responses_never_panic_example :
    (read_api_versions_response (pos 3) bytes ≢ panic)
    × (read_metadata_response (pos 4) bytes ≢ panic)
    × (read_create_topics_response (pos 5) bytes ≢ panic)
    × (read_delete_topics_response (pos 5) bytes ≢ panic)
    × (read_produce_response (pos 7) bytes ≢ panic)
    × (read_list_offsets_response (pos 1) bytes ≢ panic)
    × (read_delete_records_response (pos 2) bytes ≢ panic)
responses_never_panic_example =
    responses_never_panic (pos 3) (pos 4) (pos 5) (pos 5) (pos 7) (pos 1) (pos 2) bytes refl refl
      refl refl refl refl refl

abbrev listed : ListOffsetsResponsePartition
listed = record {
  partition_index = pos 0;
  error_code = none;
  old_style_offsets = none;
  timestamp = some (pos 0);
  offset = some (pos 40);
}

abbrev listing : ListOffsetsResponse
listing = record {
  throttle_time_ms = none;
  topics = record { name = name; partitions = listed ∷ [] } ∷ [];
}

name-read : read_string (0 ∷ 1 ∷ 97 ∷ partition_bytes) ≡ ok (name, partition_bytes)
unfolding read_string read_int16 read_int read_exact ◌>>=◌ read_text is_utf8
name-read =
    bind_ok (read_vec 1) _ (97 ∷ partition_bytes) (read_vec-read_exact 1 (97 ∷ partition_bytes))

topic-read :
    read_list_offsets_topic (pos 1) (0 ∷ 1 ∷ 97 ∷ partition_bytes)
    ≡ ok (record { name = name; partitions = listed ∷ [] }, [])
unfolding ◌>>=◌ read_exact read_times read_int read_int16 read_int32 read_int64 Errors.new
    read_versioned_array read_list_offsets_partition read_list_offsets_topic
topic-read = bind_ok read_string _ (0 ∷ 1 ∷ 97 ∷ partition_bytes) name-read

topics-read :
    read_versioned_array (read_list_offsets_topic (pos 1)) bytes ≡ ok (some listing.topics, [])
unfolding ◌>>=◌ read_exact read_times read_int read_int32 read_versioned_array
topics-read =
    bind_ok (read_times 1 (read_list_offsets_topic (pos 1))) _ (0 ∷ 1 ∷ 97 ∷ partition_bytes)
      (bind_ok (read_list_offsets_topic (pos 1)) _ (0 ∷ 1 ∷ 97 ∷ partition_bytes) topic-read)

listing-read : read_list_offsets_response (pos 1) bytes ≡ ok (listing, [])
unfolding ◌>>=◌ read_list_offsets_response
listing-read = bind_ok (read_versioned_array (read_list_offsets_topic (pos 1))) _ bytes topics-read

listing-accepted : process_list_offsets_response (pos 0) name listing ≡ ok listed
unfolding process_list_offsets_response exactly_one same_text
listing-accepted = refl

listed_offset_is_taken_example : extract_offset listed ≢ panic
listed_offset_is_taken_example =
    listed_offset_is_taken (pos 1) bytes [] listing name (pos 0) listed listing-read
      listing-accepted

empty_sasl_answer_panics_example :
    read_sasl_authenticate_response (pos 2) (0 ∷ 58 ∷ 0 ∷ 0 ∷ 1 ∷ []) ≡ panic
unfolding ◌>>=◌ read_exact read_int read_int16
empty_sasl_answer_panics_example =
    empty_sasl_answer_panics (0 ∷ 58 ∷ 0 ∷ 0 ∷ 1 ∷ []) (1 ∷ []) (pos 58) refl

abbrev authentication : SaslAuthenticateRequest
authentication = record { auth_bytes = 1 ∷ 2 ∷ []; tagged_fields = none }

name-IsText : IsText name
unfolding is_utf8
name-IsText = record { utf8 = refl }

sasl_requests_round_trip_example :
    RoundTrips
      (read_sasl_handshake_request (pos 1))
      (write_sasl_handshake_request (pos 1) (record { mechanism = name }))
      (record { mechanism = name })
    × RoundTrips
        (read_sasl_authenticate_request (pos 1))
        (write_sasl_authenticate_request (pos 1) authentication)
        (authenticate_in (is_old (pos 1)) authentication)
sasl_requests_round_trip_example =
    sasl_requests_round_trip (record { mechanism = name }) authentication (pos 1) name-IsText tt
