-- ===== src/Protocol/Error.antt =====
-- src/protocol/error.rs: the error codes of the protocol.
pub mod Laws
use rskafka.Prelude.{ℕ, zero, Option, none, some, List, [], ◌∷◌}
use rskafka.Prelude.Int.{ℤ, pos, negsuc}
use rskafka.Protocol.ApiKey.{arm}

pub data Error : Type 0 where
  unknown_server_error offset_out_of_range corrupt_message unknown_topic_or_partition : Error
  invalid_fetch_size leader_not_available not_leader_or_follower request_timed_out : Error
  broker_not_available replica_not_available message_too_large stale_controller_epoch : Error
  offset_metadata_too_large network_exception coordinator_load_in_progress : Error
  coordinator_not_available not_coordinator invalid_topic_exception : Error
  record_list_too_large not_enough_replicas not_enough_replicas_after_append : Error
  invalid_required_acks illegal_generation inconsistent_group_protocol : Error
  invalid_group_id unknown_member_id invalid_session_timeout rebalance_in_progress : Error
  invalid_commit_offset_size topic_authorization_failed group_authorization_failed : Error
  cluster_authorization_failed invalid_timestamp unsupported_sasl_mechanism : Error
  illegal_sasl_state unsupported_version topic_already_exists invalid_partitions : Error
  invalid_replication_factor invalid_replica_assignment invalid_config not_controller : Error
  invalid_request unsupported_for_message_format policy_violation : Error
  out_of_order_sequence_number duplicate_sequence_number invalid_producer_epoch : Error
  invalid_txn_state invalid_producer_id_mapping invalid_transaction_timeout : Error
  concurrent_transactions transaction_coordinator_fenced : Error
  transactional_id_authorization_failed security_disabled operation_not_attempted : Error
  kafka_storage_error log_dir_not_found sasl_authentication_failed : Error
  unknown_producer_id reassignment_in_progress delegation_token_auth_disabled : Error
  delegation_token_not_found delegation_token_owner_mismatch : Error
  delegation_token_request_not_allowed delegation_token_authorization_failed : Error
  delegation_token_expired invalid_principal_type non_empty_group group_id_not_found : Error
  fetch_session_id_not_found invalid_fetch_session_epoch listener_not_found : Error
  topic_deletion_disabled fenced_leader_epoch unknown_leader_epoch : Error
  unsupported_compression_type stale_broker_epoch offset_not_available : Error
  member_id_required preferred_leader_not_available group_max_size_reached : Error
  fenced_instance_id eligible_leaders_not_available election_not_needed : Error
  no_reassignment_in_progress group_subscribed_to_topic invalid_record : Error
  unstable_offset_commit throttling_quota_exceeded producer_fenced resource_not_found : Error
  duplicate_resource unacceptable_credential inconsistent_voter_set : Error
  invalid_update_version feature_update_failed principal_deserialization_failure : Error
  snapshot_not_found position_out_of_range unknown_topic_id : Error
  duplicate_broker_registration broker_id_not_registered inconsistent_topic_id : Error
  inconsistent_cluster_id transactional_id_not_found : Error
  unknown : ℤ → Error

-- The arms of `Error::new` but for 0, which is no error.
abbrev pub codes : List (ℤ × Error)
codes =
    (negsuc 0, Error.unknown_server_error)
    ∷ (pos 1, Error.offset_out_of_range)
    ∷ (pos 2, Error.corrupt_message)
    ∷ (pos 3, Error.unknown_topic_or_partition)
    ∷ (pos 4, Error.invalid_fetch_size)
    ∷ (pos 5, Error.leader_not_available)
    ∷ (pos 6, Error.not_leader_or_follower)
    ∷ (pos 7, Error.request_timed_out)
    ∷ (pos 8, Error.broker_not_available)
    ∷ (pos 9, Error.replica_not_available)
    ∷ (pos 10, Error.message_too_large)
    ∷ (pos 11, Error.stale_controller_epoch)
    ∷ (pos 12, Error.offset_metadata_too_large)
    ∷ (pos 13, Error.network_exception)
    ∷ (pos 14, Error.coordinator_load_in_progress)
    ∷ (pos 15, Error.coordinator_not_available)
    ∷ (pos 16, Error.not_coordinator)
    ∷ (pos 17, Error.invalid_topic_exception)
    ∷ (pos 18, Error.record_list_too_large)
    ∷ (pos 19, Error.not_enough_replicas)
    ∷ (pos 20, Error.not_enough_replicas_after_append)
    ∷ (pos 21, Error.invalid_required_acks)
    ∷ (pos 22, Error.illegal_generation)
    ∷ (pos 23, Error.inconsistent_group_protocol)
    ∷ (pos 24, Error.invalid_group_id)
    ∷ (pos 25, Error.unknown_member_id)
    ∷ (pos 26, Error.invalid_session_timeout)
    ∷ (pos 27, Error.rebalance_in_progress)
    ∷ (pos 28, Error.invalid_commit_offset_size)
    ∷ (pos 29, Error.topic_authorization_failed)
    ∷ (pos 30, Error.group_authorization_failed)
    ∷ (pos 31, Error.cluster_authorization_failed)
    ∷ (pos 32, Error.invalid_timestamp)
    ∷ (pos 33, Error.unsupported_sasl_mechanism)
    ∷ (pos 34, Error.illegal_sasl_state)
    ∷ (pos 35, Error.unsupported_version)
    ∷ (pos 36, Error.topic_already_exists)
    ∷ (pos 37, Error.invalid_partitions)
    ∷ (pos 38, Error.invalid_replication_factor)
    ∷ (pos 39, Error.invalid_replica_assignment)
    ∷ (pos 40, Error.invalid_config)
    ∷ (pos 41, Error.not_controller)
    ∷ (pos 42, Error.invalid_request)
    ∷ (pos 43, Error.unsupported_for_message_format)
    ∷ (pos 44, Error.policy_violation)
    ∷ (pos 45, Error.out_of_order_sequence_number)
    ∷ (pos 46, Error.duplicate_sequence_number)
    ∷ (pos 47, Error.invalid_producer_epoch)
    ∷ (pos 48, Error.invalid_txn_state)
    ∷ (pos 49, Error.invalid_producer_id_mapping)
    ∷ (pos 50, Error.invalid_transaction_timeout)
    ∷ (pos 51, Error.concurrent_transactions)
    ∷ (pos 52, Error.transaction_coordinator_fenced)
    ∷ (pos 53, Error.transactional_id_authorization_failed)
    ∷ (pos 54, Error.security_disabled)
    ∷ (pos 55, Error.operation_not_attempted)
    ∷ (pos 56, Error.kafka_storage_error)
    ∷ (pos 57, Error.log_dir_not_found)
    ∷ (pos 58, Error.sasl_authentication_failed)
    ∷ (pos 59, Error.unknown_producer_id)
    ∷ (pos 60, Error.reassignment_in_progress)
    ∷ (pos 61, Error.delegation_token_auth_disabled)
    ∷ (pos 62, Error.delegation_token_not_found)
    ∷ (pos 63, Error.delegation_token_owner_mismatch)
    ∷ (pos 64, Error.delegation_token_request_not_allowed)
    ∷ (pos 65, Error.delegation_token_authorization_failed)
    ∷ (pos 66, Error.delegation_token_expired)
    ∷ (pos 67, Error.invalid_principal_type)
    ∷ (pos 68, Error.non_empty_group)
    ∷ (pos 69, Error.group_id_not_found)
    ∷ (pos 70, Error.fetch_session_id_not_found)
    ∷ (pos 71, Error.invalid_fetch_session_epoch)
    ∷ (pos 72, Error.listener_not_found)
    ∷ (pos 73, Error.topic_deletion_disabled)
    ∷ (pos 74, Error.fenced_leader_epoch)
    ∷ (pos 75, Error.unknown_leader_epoch)
    ∷ (pos 76, Error.unsupported_compression_type)
    ∷ (pos 77, Error.stale_broker_epoch)
    ∷ (pos 78, Error.offset_not_available)
    ∷ (pos 79, Error.member_id_required)
    ∷ (pos 80, Error.preferred_leader_not_available)
    ∷ (pos 81, Error.group_max_size_reached)
    ∷ (pos 82, Error.fenced_instance_id)
    ∷ (pos 83, Error.eligible_leaders_not_available)
    ∷ (pos 84, Error.election_not_needed)
    ∷ (pos 85, Error.no_reassignment_in_progress)
    ∷ (pos 86, Error.group_subscribed_to_topic)
    ∷ (pos 87, Error.invalid_record)
    ∷ (pos 88, Error.unstable_offset_commit)
    ∷ (pos 89, Error.throttling_quota_exceeded)
    ∷ (pos 90, Error.producer_fenced)
    ∷ (pos 91, Error.resource_not_found)
    ∷ (pos 92, Error.duplicate_resource)
    ∷ (pos 93, Error.unacceptable_credential)
    ∷ (pos 94, Error.inconsistent_voter_set)
    ∷ (pos 95, Error.invalid_update_version)
    ∷ (pos 96, Error.feature_update_failed)
    ∷ (pos 97, Error.principal_deserialization_failure)
    ∷ (pos 98, Error.snapshot_not_found)
    ∷ (pos 99, Error.position_out_of_range)
    ∷ (pos 100, Error.unknown_topic_id)
    ∷ (pos 101, Error.duplicate_broker_registration)
    ∷ (pos 102, Error.broker_id_not_registered)
    ∷ (pos 103, Error.inconsistent_topic_id)
    ∷ (pos 104, Error.inconsistent_cluster_id)
    ∷ (pos 105, Error.transactional_id_not_found)
    ∷ []

abbrev pub or_unknown : ℤ → Option Error → Error
or_unknown code none = unknown code
or_unknown code (some e) = e

-- `Error::new`
unfoldable pub new : ℤ → Option Error
unfolding arm
new (pos zero) = none
new code = some (or_unknown code (arm code codes))

error_code : Error → ℤ
error_code unknown_server_error = negsuc 0
error_code offset_out_of_range = pos 1
error_code corrupt_message = pos 2
error_code unknown_topic_or_partition = pos 3
error_code invalid_fetch_size = pos 4
error_code leader_not_available = pos 5
error_code not_leader_or_follower = pos 6
error_code request_timed_out = pos 7
error_code broker_not_available = pos 8
error_code replica_not_available = pos 9
error_code message_too_large = pos 10
error_code stale_controller_epoch = pos 11
error_code offset_metadata_too_large = pos 12
error_code network_exception = pos 13
error_code coordinator_load_in_progress = pos 14
error_code coordinator_not_available = pos 15
error_code not_coordinator = pos 16
error_code invalid_topic_exception = pos 17
error_code record_list_too_large = pos 18
error_code not_enough_replicas = pos 19
error_code not_enough_replicas_after_append = pos 20
error_code invalid_required_acks = pos 21
error_code illegal_generation = pos 22
error_code inconsistent_group_protocol = pos 23
error_code invalid_group_id = pos 24
error_code unknown_member_id = pos 25
error_code invalid_session_timeout = pos 26
error_code rebalance_in_progress = pos 27
error_code invalid_commit_offset_size = pos 28
error_code topic_authorization_failed = pos 29
error_code group_authorization_failed = pos 30
error_code cluster_authorization_failed = pos 31
error_code invalid_timestamp = pos 32
error_code unsupported_sasl_mechanism = pos 33
error_code illegal_sasl_state = pos 34
error_code unsupported_version = pos 35
error_code topic_already_exists = pos 36
error_code invalid_partitions = pos 37
error_code invalid_replication_factor = pos 38
error_code invalid_replica_assignment = pos 39
error_code invalid_config = pos 40
error_code not_controller = pos 41
error_code invalid_request = pos 42
error_code unsupported_for_message_format = pos 43
error_code policy_violation = pos 44
error_code out_of_order_sequence_number = pos 45
error_code duplicate_sequence_number = pos 46
error_code invalid_producer_epoch = pos 47
error_code invalid_txn_state = pos 48
error_code invalid_producer_id_mapping = pos 49
error_code invalid_transaction_timeout = pos 50
error_code concurrent_transactions = pos 51
error_code transaction_coordinator_fenced = pos 52
error_code transactional_id_authorization_failed = pos 53
error_code security_disabled = pos 54
error_code operation_not_attempted = pos 55
error_code kafka_storage_error = pos 56
error_code log_dir_not_found = pos 57
error_code sasl_authentication_failed = pos 58
error_code unknown_producer_id = pos 59
error_code reassignment_in_progress = pos 60
error_code delegation_token_auth_disabled = pos 61
error_code delegation_token_not_found = pos 62
error_code delegation_token_owner_mismatch = pos 63
error_code delegation_token_request_not_allowed = pos 64
error_code delegation_token_authorization_failed = pos 65
error_code delegation_token_expired = pos 66
error_code invalid_principal_type = pos 67
error_code non_empty_group = pos 68
error_code group_id_not_found = pos 69
error_code fetch_session_id_not_found = pos 70
error_code invalid_fetch_session_epoch = pos 71
error_code listener_not_found = pos 72
error_code topic_deletion_disabled = pos 73
error_code fenced_leader_epoch = pos 74
error_code unknown_leader_epoch = pos 75
error_code unsupported_compression_type = pos 76
error_code stale_broker_epoch = pos 77
error_code offset_not_available = pos 78
error_code member_id_required = pos 79
error_code preferred_leader_not_available = pos 80
error_code group_max_size_reached = pos 81
error_code fenced_instance_id = pos 82
error_code eligible_leaders_not_available = pos 83
error_code election_not_needed = pos 84
error_code no_reassignment_in_progress = pos 85
error_code group_subscribed_to_topic = pos 86
error_code invalid_record = pos 87
error_code unstable_offset_commit = pos 88
error_code throttling_quota_exceeded = pos 89
error_code producer_fenced = pos 90
error_code resource_not_found = pos 91
error_code duplicate_resource = pos 92
error_code unacceptable_credential = pos 93
error_code inconsistent_voter_set = pos 94
error_code invalid_update_version = pos 95
error_code feature_update_failed = pos 96
error_code principal_deserialization_failure = pos 97
error_code snapshot_not_found = pos 98
error_code position_out_of_range = pos 99
error_code unknown_topic_id = pos 100
error_code duplicate_broker_registration = pos 101
error_code broker_id_not_registered = pos 102
error_code inconsistent_topic_id = pos 103
error_code inconsistent_cluster_id = pos 104
error_code transactional_id_not_found = pos 105
error_code (unknown code) = code

-- `From<Option<Error>> for Int16`
unfoldable pub to_int16 : Option Error → ℤ
unfolding error_code
to_int16 none = pos 0
to_int16 (some e) = error_code e
