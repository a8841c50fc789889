-- ===== src/Protocol/Messages/Total/Responses.antt =====
-- Reading a response of src/protocol/messages never panics in the versions that a client asks for.
use rskafka.Prelude.{◌≡◌, ◌≢◌, Bool, true, false, List, ℕ}
use rskafka.Prelude.Int.{leb_ℤ}
use rskafka.Prelude.Result.{panic}
use rskafka.Protocol.Traits.Total.{NeverPanics, bind-NeverPanics, pure-NeverPanics}
use rskafka.Protocol.Primitives.Total.{
  int16-NeverPanics, int32-NeverPanics, tagged_fields-NeverPanics,
}
use rskafka.Protocol.ApiVersion.{ApiVersion, at_least, at_most}
use rskafka.Protocol.Messages.Total.{
  if-NeverPanics, asserting-NeverPanics, versioned_array-NeverPanics,
  compact_versioned_array-NeverPanics,
}
use rskafka.Protocol.Messages.Total.Partitions.{
  produce_response-NeverPanics, list_offsets_response-NeverPanics,
  delete_records_response-NeverPanics,
}
use rskafka.Protocol.Messages.Total.Topics.{
  metadata_response-NeverPanics, create_topics_response-NeverPanics,
  delete_topics_response-NeverPanics,
}
use rskafka.Protocol.Messages.ApiVersions.{
  api_versions_range, read_response_api_key, read_api_keys, read_api_versions_response,
}
use rskafka.Protocol.Messages.Produce.{produce_range, read_produce_response}
use rskafka.Protocol.Messages.ListOffsets.{list_offsets_range, read_list_offsets_response}
use rskafka.Protocol.Messages.DeleteRecords.{delete_records_range, read_delete_records_response}
use rskafka.Protocol.Messages.Metadata.{metadata_range, read_metadata_response}
use rskafka.Protocol.Messages.CreateTopics.{create_topics_range, read_create_topics_response}
use rskafka.Protocol.Messages.DeleteTopics.{delete_topics_range, read_delete_topics_response}

module _ (v : ApiVersion) where
  api_key-NeverPanics : at_most v 3 ≡ true → NeverPanics (read_response_api_key v)
  unfolding read_response_api_key
  api_key-NeverPanics e =
      asserting-NeverPanics
        (bind-NeverPanics _ int16-NeverPanics λ _. bind-NeverPanics _ int16-NeverPanics λ _.
          bind-NeverPanics _ int16-NeverPanics λ _.
            bind-NeverPanics _ (if-NeverPanics tagged_fields-NeverPanics (at_least v 3))
              λ _. pure-NeverPanics _)
        _ e

  api_keys-NeverPanics : (b : Bool) → at_most v 3 ≡ true → NeverPanics (read_api_keys b v)
  api_keys-NeverPanics true e = compact_versioned_array-NeverPanics (api_key-NeverPanics e)
  api_keys-NeverPanics false e = versioned_array-NeverPanics (api_key-NeverPanics e)

  api_versions_response-NeverPanics :
      at_most v 3 ≡ true → NeverPanics (read_api_versions_response v)
  unfolding read_api_versions_response
  api_versions_response-NeverPanics e =
      asserting-NeverPanics
        (bind-NeverPanics _ int16-NeverPanics λ _.
          bind-NeverPanics _ (api_keys-NeverPanics (at_least v 3) e) λ _.
            bind-NeverPanics _ (if-NeverPanics int32-NeverPanics (at_least v 1)) λ _.
              bind-NeverPanics _ (if-NeverPanics tagged_fields-NeverPanics (at_least v 3))
                λ _. pure-NeverPanics _)
        _ e

-- Whatever bytes a broker sends, reading them as a response returns a value or an error and does not
-- panic, in every version up to the greatest one that the request is sent in: for the messages about
-- API versions, metadata, topics, producing, offsets and the deletion of records.
pub responses_never_panic :
    (a m c t p l d : ApiVersion) (s : List ℕ)
    → leb_ℤ a api_versions_range.max ≡ true
    → leb_ℤ m metadata_range.max ≡ true
    → leb_ℤ c create_topics_range.max ≡ true
    → leb_ℤ t delete_topics_range.max ≡ true
    → leb_ℤ p produce_range.max ≡ true
    → leb_ℤ l list_offsets_range.max ≡ true
    → leb_ℤ d delete_records_range.max ≡ true
    → (read_api_versions_response a s ≢ panic)
      × (read_metadata_response m s ≢ panic)
      × (read_create_topics_response c s ≢ panic)
      × (read_delete_topics_response t s ≢ panic)
      × (read_produce_response p s ≢ panic)
      × (read_list_offsets_response l s ≢ panic)
      × (read_delete_records_response d s ≢ panic)
responses_never_panic a m c t p l d s ea em ec et ep el ed = (
  (api_versions_response-NeverPanics a ea).on s,
  (metadata_response-NeverPanics m em).on s,
  (create_topics_response-NeverPanics c ec).on s,
  (delete_topics_response-NeverPanics t et).on s,
  (produce_response-NeverPanics p ep).on s,
  (list_offsets_response-NeverPanics l el).on s,
  (delete_records_response-NeverPanics d ed).on s,
)
