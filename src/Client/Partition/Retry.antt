-- ===== src/Client/Partition/Retry.antt =====
-- Which errors `maybe_retry` of src/client/partition.rs tries again, and what they invalidate.
pub mod Laws
use rskafka.Prelude.{Bool, true, false, if◌then◌else◌}
use rskafka.Protocol.Error as Protocol
use rskafka.Connection.Metadata.{is_broken}
use rskafka.Client.Error.{Error, connection, request, server_error}
use rskafka.Client.Retry.{Reaction, again, again_elsewhere, fatal}
use rskafka.Client.Partition.{UnknownTopicHandling, give_error, retry}

abbrev wants_retry : UnknownTopicHandling → Bool
wants_retry retry = true
wants_retry give_error = false

unfoldable pub on_server_error : UnknownTopicHandling → Protocol.Error → Reaction
on_server_error handling Protocol.invalid_replication_factor = again
on_server_error handling Protocol.leader_not_available = again
on_server_error handling Protocol.offset_not_available = again
on_server_error handling Protocol.not_leader_or_follower = again_elsewhere
on_server_error handling Protocol.unknown_topic_or_partition = record {
  retries = wants_retry handling;
  invalidates = true;
}
on_server_error handling _ = fatal

unfoldable pub on_error : UnknownTopicHandling → Error → Reaction
on_error handling (request e) = if is_broken e then again_elsewhere else fatal
on_error handling (connection e) = again_elsewhere
on_error handling (server_error e message context response virtual) = on_server_error handling e
on_error handling _ = fatal
