-- ===== src/Protocol/Messages/Total/Topics.antt =====
-- Reading the responses about topics never panics: src/protocol/messages/metadata.rs, create_topics.rs
-- and delete_topics.rs.
use rskafka.Prelude.{refl, ◌&&◌, Bool, true, false, ◌≡◌}
use rskafka.Protocol.Traits.Total.{NeverPanics, bind-NeverPanics, pure-NeverPanics}
use rskafka.Protocol.Primitives.Total.{
  int8-NeverPanics, int16-NeverPanics, int32-NeverPanics, boolean-NeverPanics,
  tagged_fields-NeverPanics,
}
use rskafka.Protocol.Primitives.Text.Total.{
  string-NeverPanics, nullable_string-NeverPanics, compact_string-NeverPanics,
  compact_nullable_string-NeverPanics,
}
use rskafka.Protocol.Primitives.Collections.Total.{array-NeverPanics}
use rskafka.Protocol.ApiVersion.{ApiVersion, at_least, at_most}
use rskafka.Protocol.Messages.Total.{
  if-NeverPanics, asserting-NeverPanics, versioned_array-NeverPanics,
  compact_versioned_array-NeverPanics, objects-NeverPanics, name-NeverPanics,
}
use rskafka.Protocol.Messages.Fields.{read_if}
use rskafka.Protocol.Messages.Arrays.{read_compact_versioned_array}
use rskafka.Protocol.Messages.Metadata.{
  read_metadata_broker, read_metadata_partition, read_metadata_topic, read_metadata_response,
}
use rskafka.Protocol.Messages.CreateTopics.{
  read_message, read_create_topic_config, read_create_topic_response, read_create_topics_response,
}
use rskafka.Protocol.Messages.DeleteTopics.{read_delete_topics_topic, read_delete_topics_response}

message-NeverPanics : (b : Bool) → NeverPanics (read_message b)
message-NeverPanics true = compact_nullable_string-NeverPanics
message-NeverPanics false = nullable_string-NeverPanics

module _ (v : ApiVersion) where
  metadata_broker-NeverPanics : at_most v 4 ≡ true → NeverPanics (read_metadata_broker v)
  unfolding read_metadata_broker
  metadata_broker-NeverPanics e =
      asserting-NeverPanics
        (bind-NeverPanics _ (int32-NeverPanics) λ _. bind-NeverPanics _ (string-NeverPanics) λ _.
          bind-NeverPanics _ (int32-NeverPanics) λ _.
            bind-NeverPanics _ (if-NeverPanics nullable_string-NeverPanics (at_least v 1))
              λ _. pure-NeverPanics _)
        _ e

  metadata_partition-NeverPanics : at_most v 4 ≡ true → NeverPanics (read_metadata_partition v)
  unfolding read_metadata_partition
  metadata_partition-NeverPanics e =
      asserting-NeverPanics
        (bind-NeverPanics _ (int16-NeverPanics) λ _. bind-NeverPanics _ (int32-NeverPanics) λ _.
          bind-NeverPanics _ (int32-NeverPanics) λ _.
            bind-NeverPanics _ (array-NeverPanics int32-NeverPanics)
              λ _. bind-NeverPanics _ (array-NeverPanics int32-NeverPanics) λ _. pure-NeverPanics _)
        _ e

  metadata_topic-NeverPanics : at_most v 4 ≡ true → NeverPanics (read_metadata_topic v)
  unfolding read_metadata_topic
  metadata_topic-NeverPanics e =
      asserting-NeverPanics
        (bind-NeverPanics _ (int16-NeverPanics) λ _. bind-NeverPanics _ (string-NeverPanics) λ _.
          bind-NeverPanics _ (if-NeverPanics boolean-NeverPanics (at_least v 1)) λ _.
            bind-NeverPanics _ (versioned_array-NeverPanics (metadata_partition-NeverPanics e))
              λ _. pure-NeverPanics _)
        _ e

  pub metadata_response-NeverPanics : at_most v 4 ≡ true → NeverPanics (read_metadata_response v)
  unfolding read_metadata_response
  metadata_response-NeverPanics e =
      asserting-NeverPanics
        (bind-NeverPanics _ (if-NeverPanics int32-NeverPanics (at_least v 3)) λ _.
          bind-NeverPanics _ (versioned_array-NeverPanics (metadata_broker-NeverPanics e)) λ _.
            bind-NeverPanics _ (if-NeverPanics nullable_string-NeverPanics (at_least v 2)) λ _.
              bind-NeverPanics _ (if-NeverPanics int32-NeverPanics (at_least v 1)) λ _.
                bind-NeverPanics _ (versioned_array-NeverPanics (metadata_topic-NeverPanics e))
                  λ _. pure-NeverPanics _)
        _ e

  create_topic_config-NeverPanics :
      (at_least v 5 && at_most v 5) ≡ true → NeverPanics (read_create_topic_config v)
  unfolding read_create_topic_config
  create_topic_config-NeverPanics e =
      asserting-NeverPanics
        (bind-NeverPanics _ (compact_string-NeverPanics) λ _.
          bind-NeverPanics _ (compact_nullable_string-NeverPanics) λ _.
            bind-NeverPanics _ (boolean-NeverPanics) λ _. bind-NeverPanics _ (int8-NeverPanics) λ _.
              bind-NeverPanics _ (boolean-NeverPanics)
                λ _. bind-NeverPanics _ (tagged_fields-NeverPanics) λ _. pure-NeverPanics _)
        _ e

  configs-NeverPanics :
      (b : Bool)
      → at_least v 5 ≡ b
      → at_most v 5 ≡ true
      → NeverPanics (read_if b (read_compact_versioned_array (read_create_topic_config v)))
  configs-NeverPanics true l e =
      if-NeverPanics
        (compact_versioned_array-NeverPanics (create_topic_config-NeverPanics (rw (l, e) refl)))
        true
  configs-NeverPanics false l e = pure-NeverPanics _

  create_topic_response-NeverPanics :
      at_most v 5 ≡ true → NeverPanics (read_create_topic_response v)
  unfolding read_create_topic_response
  create_topic_response-NeverPanics e =
      asserting-NeverPanics
        (bind-NeverPanics _ (name-NeverPanics (at_least v 5)) λ _.
          bind-NeverPanics _ (int16-NeverPanics) λ _.
            bind-NeverPanics _ (if-NeverPanics (message-NeverPanics (at_least v 5)) (at_least v 1))
              λ _. bind-NeverPanics _ (if-NeverPanics int32-NeverPanics (at_least v 5)) λ _.
                bind-NeverPanics _ (if-NeverPanics int16-NeverPanics (at_least v 5)) λ _.
                  bind-NeverPanics _ (configs-NeverPanics _ refl e) λ _.
                    bind-NeverPanics _ (if-NeverPanics tagged_fields-NeverPanics (at_least v 5))
                      λ _. pure-NeverPanics _)
        _ e

  pub create_topics_response-NeverPanics :
      at_most v 5 ≡ true → NeverPanics (read_create_topics_response v)
  unfolding read_create_topics_response
  create_topics_response-NeverPanics e =
      asserting-NeverPanics
        (bind-NeverPanics _ (if-NeverPanics int32-NeverPanics (at_least v 2)) λ _.
          bind-NeverPanics _
            (objects-NeverPanics (create_topic_response-NeverPanics e) (at_least v 5))
            λ _.
              bind-NeverPanics _ (if-NeverPanics tagged_fields-NeverPanics (at_least v 5))
                λ _. pure-NeverPanics _)
        _ e

  delete_topics_topic-NeverPanics : at_most v 5 ≡ true → NeverPanics (read_delete_topics_topic v)
  unfolding read_delete_topics_topic
  delete_topics_topic-NeverPanics e =
      asserting-NeverPanics
        (bind-NeverPanics _ (name-NeverPanics (at_least v 4)) λ _.
          bind-NeverPanics _ (int16-NeverPanics) λ _.
            bind-NeverPanics _ (if-NeverPanics compact_nullable_string-NeverPanics (at_least v 5))
              λ _.
                bind-NeverPanics _ (if-NeverPanics tagged_fields-NeverPanics (at_least v 4))
                  λ _. pure-NeverPanics _)
        _ e

  pub delete_topics_response-NeverPanics :
      at_most v 5 ≡ true → NeverPanics (read_delete_topics_response v)
  unfolding read_delete_topics_response
  delete_topics_response-NeverPanics e =
      asserting-NeverPanics
        (bind-NeverPanics _ (if-NeverPanics int32-NeverPanics (at_least v 1)) λ _.
          bind-NeverPanics _
            (objects-NeverPanics (delete_topics_topic-NeverPanics e) (at_least v 4))
            λ _.
              bind-NeverPanics _ (if-NeverPanics tagged_fields-NeverPanics (at_least v 4))
                λ _. pure-NeverPanics _)
        _ e
