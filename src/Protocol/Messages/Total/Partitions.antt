-- ===== src/Protocol/Messages/Total/Partitions.antt =====
-- Reading the responses about partitions never panics: src/protocol/messages/produce.rs, list_offsets.rs
-- and delete_records.rs.
use rskafka.Prelude.{true, not, ◌≡◌}
use rskafka.Protocol.Traits.Total.{NeverPanics, bind-NeverPanics, pure-NeverPanics}
use rskafka.Protocol.Primitives.Total.{
  int16-NeverPanics, int32-NeverPanics, int64-NeverPanics, tagged_fields-NeverPanics,
}
use rskafka.Protocol.Primitives.Text.Total.{string-NeverPanics}
use rskafka.Protocol.Primitives.Collections.Total.{array-NeverPanics}
use rskafka.Protocol.ApiVersion.{ApiVersion, at_least, at_most}
use rskafka.Protocol.Messages.Total.{
  if-NeverPanics, asserting-NeverPanics, versioned_array-NeverPanics, objects-NeverPanics,
  name-NeverPanics,
}
use rskafka.Protocol.Messages.Produce.{
  read_produce_partition_response, read_produce_topic_response, read_produce_response,
}
use rskafka.Protocol.Messages.ListOffsets.{
  read_list_offsets_partition, read_list_offsets_topic, read_list_offsets_response,
}
use rskafka.Protocol.Messages.DeleteRecords.{
  read_delete_partition, read_delete_topic, read_delete_records_response,
}

module _ (v : ApiVersion) where
  produce_partition-NeverPanics :
      at_most v 7 ≡ true → NeverPanics (read_produce_partition_response v)
  unfolding read_produce_partition_response
  produce_partition-NeverPanics e =
      asserting-NeverPanics
        (bind-NeverPanics _ (int32-NeverPanics) λ _. bind-NeverPanics _ (int16-NeverPanics) λ _.
          bind-NeverPanics _ (int64-NeverPanics) λ _.
            bind-NeverPanics _ (if-NeverPanics int64-NeverPanics (at_least v 2)) λ _.
              bind-NeverPanics _ (if-NeverPanics int64-NeverPanics (at_least v 5))
                λ _. pure-NeverPanics _)
        _ e

  produce_topic-NeverPanics : at_most v 7 ≡ true → NeverPanics (read_produce_topic_response v)
  unfolding read_produce_topic_response
  produce_topic-NeverPanics e =
      asserting-NeverPanics
        (bind-NeverPanics _ (string-NeverPanics) λ _.
          bind-NeverPanics _ (versioned_array-NeverPanics (produce_partition-NeverPanics e))
            λ _. pure-NeverPanics _)
        _ e

  pub produce_response-NeverPanics : at_most v 7 ≡ true → NeverPanics (read_produce_response v)
  unfolding read_produce_response
  produce_response-NeverPanics e =
      asserting-NeverPanics
        (bind-NeverPanics _ (versioned_array-NeverPanics (produce_topic-NeverPanics e)) λ _.
          bind-NeverPanics _ (if-NeverPanics int32-NeverPanics (at_least v 1))
            λ _. pure-NeverPanics _)
        _ e

  list_offsets_partition-NeverPanics :
      at_most v 3 ≡ true → NeverPanics (read_list_offsets_partition v)
  unfolding read_list_offsets_partition
  list_offsets_partition-NeverPanics e =
      asserting-NeverPanics
        (bind-NeverPanics _ (int32-NeverPanics) λ _. bind-NeverPanics _ (int16-NeverPanics) λ _.
          bind-NeverPanics _
            (if-NeverPanics (array-NeverPanics int64-NeverPanics) (not (at_least v 1)))
            λ _. bind-NeverPanics _ (if-NeverPanics int64-NeverPanics (at_least v 1)) λ _.
              bind-NeverPanics _ (if-NeverPanics int64-NeverPanics (at_least v 1))
                λ _. pure-NeverPanics _)
        _ e

  list_offsets_topic-NeverPanics : at_most v 3 ≡ true → NeverPanics (read_list_offsets_topic v)
  unfolding read_list_offsets_topic
  list_offsets_topic-NeverPanics e =
      asserting-NeverPanics
        (bind-NeverPanics _ (string-NeverPanics) λ _.
          bind-NeverPanics _ (versioned_array-NeverPanics (list_offsets_partition-NeverPanics e))
            λ _. pure-NeverPanics _)
        _ e

  pub list_offsets_response-NeverPanics :
      at_most v 3 ≡ true → NeverPanics (read_list_offsets_response v)
  unfolding read_list_offsets_response
  list_offsets_response-NeverPanics e =
      asserting-NeverPanics
        (bind-NeverPanics _ (if-NeverPanics int32-NeverPanics (at_least v 2)) λ _.
          bind-NeverPanics _ (versioned_array-NeverPanics (list_offsets_topic-NeverPanics e))
            λ _. pure-NeverPanics _)
        _ e

  delete_partition-NeverPanics : at_most v 2 ≡ true → NeverPanics (read_delete_partition v)
  unfolding read_delete_partition
  delete_partition-NeverPanics e =
      asserting-NeverPanics
        (bind-NeverPanics _ (int32-NeverPanics) λ _. bind-NeverPanics _ (int64-NeverPanics) λ _.
          bind-NeverPanics _ (int16-NeverPanics) λ _.
            bind-NeverPanics _ (if-NeverPanics tagged_fields-NeverPanics (at_least v 2))
              λ _. pure-NeverPanics _)
        _ e

  delete_topic-NeverPanics : at_most v 2 ≡ true → NeverPanics (read_delete_topic v)
  unfolding read_delete_topic
  delete_topic-NeverPanics e =
      asserting-NeverPanics
        (bind-NeverPanics _ (name-NeverPanics (at_least v 2)) λ _.
          bind-NeverPanics _ (objects-NeverPanics (delete_partition-NeverPanics e) (at_least v 2))
            λ _.
              bind-NeverPanics _ (if-NeverPanics tagged_fields-NeverPanics (at_least v 2))
                λ _. pure-NeverPanics _)
        _ e

  pub delete_records_response-NeverPanics :
      at_most v 2 ≡ true → NeverPanics (read_delete_records_response v)
  unfolding read_delete_records_response
  delete_records_response-NeverPanics e =
      asserting-NeverPanics
        (bind-NeverPanics _ (int32-NeverPanics) λ _.
          bind-NeverPanics _ (objects-NeverPanics (delete_topic-NeverPanics e) (at_least v 2)) λ _.
            bind-NeverPanics _ (if-NeverPanics tagged_fields-NeverPanics (at_least v 2))
              λ _. pure-NeverPanics _)
        _ e
