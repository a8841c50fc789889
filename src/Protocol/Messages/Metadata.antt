-- ===== src/Protocol/Messages/Metadata.antt =====
-- src/protocol/messages/metadata.rs: brokers, topics and partitions.
use rskafka.Prelude.{Bool, true, not, Option, List, [], ◌&&◌, if◌then◌else◌}
use rskafka.Prelude.Int.{ℤ, pos}
use rskafka.Prelude.Result.{err}
use rskafka.Protocol.Traits.{Reader, ◌>>=◌, pure, ◌then_write◌}
use rskafka.Protocol.Primitives.Ints.{read_boolean, write_boolean, read_int16, read_int32}
use rskafka.Protocol.Primitives.Text.{read_string, write_string, read_nullable_string}
use rskafka.Protocol.Primitives.Text.Utf8.{Text}
use rskafka.Protocol.Primitives.Collections.{read_array}
use rskafka.Protocol.ApiVersion.{ApiVersion, ApiVersionRange, at_least, at_most}
use rskafka.Protocol.Error as Errors
use rskafka.Protocol.Messages.Fields.{
  VersionedWriter, field_not_available, plain, read_if, write_if, read_asserting, write_asserting,
  or_default,
}
use rskafka.Prelude.{is_some}
use rskafka.Protocol.Messages.Arrays.{read_versioned_array, write_versioned_array}

-- `MetadataRequest::API_VERSION_RANGE`
abbrev pub metadata_range : ApiVersionRange
metadata_range = record { min = pos 0; max = pos 4 }

pub record MetadataRequestTopic : Type 0 where
  pub name : Text

pub record MetadataRequest : Type 0 where
  pub topics : Option (List MetadataRequestTopic)
  pub allow_auto_topic_creation : Option Bool

module _ (v : ApiVersion) where
  unfoldable pub write_metadata_topic : MetadataRequestTopic → VersionedWriter
  write_metadata_topic t = write_asserting (at_most v 4) (plain (write_string t.name))

  unfoldable pub write_metadata_request : MetadataRequest → VersionedWriter
  write_metadata_request r = write_asserting (at_most v 4) (
      if not (at_least v 4) && is_some r.allow_auto_topic_creation
      then err field_not_available
      else write_versioned_array write_metadata_topic r.topics
        then_write write_if (at_least v 4)
            (plain (write_boolean (or_default true r.allow_auto_topic_creation))))

pub record MetadataResponseBroker : Type 0 where
  pub node_id : ℤ
  pub host : Text
  pub port : ℤ
  pub rack : Option (Option Text)

pub record MetadataResponsePartition : Type 0 where
  pub error : Option Errors.Error
  pub partition_index : ℤ
  pub leader_id : ℤ
  pub replica_nodes : Option (List ℤ)
  pub isr_nodes : Option (List ℤ)

pub record MetadataResponseTopic : Type 0 where
  pub error : Option Errors.Error
  pub name : Text
  pub is_internal : Option Bool
  pub partitions : List MetadataResponsePartition

pub record MetadataResponse : Type 0 where
  pub throttle_time_ms : Option ℤ
  pub brokers : List MetadataResponseBroker
  pub cluster_id : Option (Option Text)
  pub controller_id : Option ℤ
  pub topics : List MetadataResponseTopic

module _ (v : ApiVersion) where
  unfoldable pub read_metadata_broker : Reader MetadataResponseBroker
  read_metadata_broker = read_asserting (at_most v 4) do
    node_id ← read_int32
    host ← read_string
    port ← read_int32
    rack ← read_if (at_least v 1) read_nullable_string
    pure (record { node_id = node_id; host = host; port = port; rack = rack })

  unfoldable pub read_metadata_partition : Reader MetadataResponsePartition
  read_metadata_partition = read_asserting (at_most v 4) do
    error ← read_int16
    index ← read_int32
    leader ← read_int32
    replicas ← read_array read_int32
    in_sync ← read_array read_int32
    pure (record {
      error = Errors.new error;
      partition_index = index;
      leader_id = leader;
      replica_nodes = replicas;
      isr_nodes = in_sync;
    })

  unfoldable pub read_metadata_topic : Reader MetadataResponseTopic
  read_metadata_topic = read_asserting (at_most v 4) do
    error ← read_int16
    name ← read_string
    internal ← read_if (at_least v 1) read_boolean
    partitions ← read_versioned_array read_metadata_partition
    pure (record {
      error = Errors.new error;
      name = name;
      is_internal = internal;
      partitions = or_default [] partitions;
    })

  unfoldable pub read_metadata_response : Reader MetadataResponse
  read_metadata_response = read_asserting (at_most v 4) do
    throttle ← read_if (at_least v 3) read_int32
    brokers ← read_versioned_array read_metadata_broker
    cluster ← read_if (at_least v 2) read_nullable_string
    controller ← read_if (at_least v 1) read_int32
    topics ← read_versioned_array read_metadata_topic
    pure (record {
      throttle_time_ms = throttle;
      brokers = or_default [] brokers;
      cluster_id = cluster;
      controller_id = controller;
      topics = or_default [] topics;
    })
