-- ===== src/Protocol/ApiKey.antt =====
-- src/protocol/api_key.rs: the API keys and their codes.
pub mod Laws
use rskafka.Prelude.{ℕ, ◌==◌, if◌then◌else◌, Option, none, some, List, [], ◌∷◌}
use rskafka.Prelude.Int.{ℤ, pos, negsuc, eqb_ℤ}

pub data ApiKey : Type 0 where
  produce fetch list_offsets metadata leader_and_isr stop_replica update_metadata : ApiKey
  controlled_shutdown offset_commit offset_fetch find_coordinator join_group : ApiKey
  heartbeat leave_group sync_group describe_groups list_groups sasl_handshake : ApiKey
  api_versions create_topics delete_topics delete_records init_producer_id : ApiKey
  offset_for_leader_epoch add_partitions_to_txn add_offsets_to_txn end_txn : ApiKey
  write_txn_markers txn_offset_commit describe_acls create_acls delete_acls : ApiKey
  describe_configs alter_configs alter_replica_log_dirs describe_log_dirs : ApiKey
  sasl_authenticate create_partitions create_delegation_token renew_delegation_token : ApiKey
  expire_delegation_token describe_delegation_token delete_groups elect_leaders : ApiKey
  incremental_alter_configs alter_partition_reassignments : ApiKey
  list_partition_reassignments offset_delete describe_client_quotas : ApiKey
  alter_client_quotas describe_user_scram_credentials alter_user_scram_credentials : ApiKey
  alter_isr update_features describe_cluster describe_producers describe_transactions : ApiKey
  list_transactions allocate_producer_ids : ApiKey
  unknown : ℤ → ApiKey

-- The arms of `From<Int16> for ApiKey`.
abbrev pub codes : List (ℤ × ApiKey)
codes =
    (pos 0, ApiKey.produce)
    ∷ (pos 1, ApiKey.fetch)
    ∷ (pos 2, ApiKey.list_offsets)
    ∷ (pos 3, ApiKey.metadata)
    ∷ (pos 4, ApiKey.leader_and_isr)
    ∷ (pos 5, ApiKey.stop_replica)
    ∷ (pos 6, ApiKey.update_metadata)
    ∷ (pos 7, ApiKey.controlled_shutdown)
    ∷ (pos 8, ApiKey.offset_commit)
    ∷ (pos 9, ApiKey.offset_fetch)
    ∷ (pos 10, ApiKey.find_coordinator)
    ∷ (pos 11, ApiKey.join_group)
    ∷ (pos 12, ApiKey.heartbeat)
    ∷ (pos 13, ApiKey.leave_group)
    ∷ (pos 14, ApiKey.sync_group)
    ∷ (pos 15, ApiKey.describe_groups)
    ∷ (pos 16, ApiKey.list_groups)
    ∷ (pos 17, ApiKey.sasl_handshake)
    ∷ (pos 18, ApiKey.api_versions)
    ∷ (pos 19, ApiKey.create_topics)
    ∷ (pos 20, ApiKey.delete_topics)
    ∷ (pos 21, ApiKey.delete_records)
    ∷ (pos 22, ApiKey.init_producer_id)
    ∷ (pos 23, ApiKey.offset_for_leader_epoch)
    ∷ (pos 24, ApiKey.add_partitions_to_txn)
    ∷ (pos 25, ApiKey.add_offsets_to_txn)
    ∷ (pos 26, ApiKey.end_txn)
    ∷ (pos 27, ApiKey.write_txn_markers)
    ∷ (pos 28, ApiKey.txn_offset_commit)
    ∷ (pos 29, ApiKey.describe_acls)
    ∷ (pos 30, ApiKey.create_acls)
    ∷ (pos 31, ApiKey.delete_acls)
    ∷ (pos 32, ApiKey.describe_configs)
    ∷ (pos 33, ApiKey.alter_configs)
    ∷ (pos 34, ApiKey.alter_replica_log_dirs)
    ∷ (pos 35, ApiKey.describe_log_dirs)
    ∷ (pos 36, ApiKey.sasl_authenticate)
    ∷ (pos 37, ApiKey.create_partitions)
    ∷ (pos 38, ApiKey.create_delegation_token)
    ∷ (pos 39, ApiKey.renew_delegation_token)
    ∷ (pos 40, ApiKey.expire_delegation_token)
    ∷ (pos 41, ApiKey.describe_delegation_token)
    ∷ (pos 42, ApiKey.delete_groups)
    ∷ (pos 43, ApiKey.elect_leaders)
    ∷ (pos 44, ApiKey.incremental_alter_configs)
    ∷ (pos 45, ApiKey.alter_partition_reassignments)
    ∷ (pos 46, ApiKey.list_partition_reassignments)
    ∷ (pos 47, ApiKey.offset_delete)
    ∷ (pos 48, ApiKey.describe_client_quotas)
    ∷ (pos 49, ApiKey.alter_client_quotas)
    ∷ (pos 50, ApiKey.describe_user_scram_credentials)
    ∷ (pos 51, ApiKey.alter_user_scram_credentials)
    ∷ (pos 56, ApiKey.alter_isr)
    ∷ (pos 57, ApiKey.update_features)
    ∷ (pos 60, ApiKey.describe_cluster)
    ∷ (pos 61, ApiKey.describe_producers)
    ∷ (pos 65, ApiKey.describe_transactions)
    ∷ (pos 66, ApiKey.list_transactions)
    ∷ (pos 67, ApiKey.allocate_producer_ids)
    ∷ []

-- The first arm with the code.
unfoldable pub arm {ℓ} : {A : Type ℓ} → ℤ → List (ℤ × A) → Option A
arm code [] = none
arm code ((c, key) ∷ rest) = if eqb_ℤ c code then some key else arm code rest

abbrev pub or_unknown : ℤ → Option ApiKey → ApiKey
or_unknown code none = unknown code
or_unknown code (some key) = key

unfoldable pub from_int16 : ℤ → ApiKey
unfolding arm
from_int16 code = or_unknown code (arm code codes)

-- `From<ApiKey> for Int16`
unfoldable pub to_int16 : ApiKey → ℤ
to_int16 produce = pos 0
to_int16 fetch = pos 1
to_int16 list_offsets = pos 2
to_int16 metadata = pos 3
to_int16 leader_and_isr = pos 4
to_int16 stop_replica = pos 5
to_int16 update_metadata = pos 6
to_int16 controlled_shutdown = pos 7
to_int16 offset_commit = pos 8
to_int16 offset_fetch = pos 9
to_int16 find_coordinator = pos 10
to_int16 join_group = pos 11
to_int16 heartbeat = pos 12
to_int16 leave_group = pos 13
to_int16 sync_group = pos 14
to_int16 describe_groups = pos 15
to_int16 list_groups = pos 16
to_int16 sasl_handshake = pos 17
to_int16 api_versions = pos 18
to_int16 create_topics = pos 19
to_int16 delete_topics = pos 20
to_int16 delete_records = pos 21
to_int16 init_producer_id = pos 22
to_int16 offset_for_leader_epoch = pos 23
to_int16 add_partitions_to_txn = pos 24
to_int16 add_offsets_to_txn = pos 25
to_int16 end_txn = pos 26
to_int16 write_txn_markers = pos 27
to_int16 txn_offset_commit = pos 28
to_int16 describe_acls = pos 29
to_int16 create_acls = pos 30
to_int16 delete_acls = pos 31
to_int16 describe_configs = pos 32
to_int16 alter_configs = pos 33
to_int16 alter_replica_log_dirs = pos 34
to_int16 describe_log_dirs = pos 35
to_int16 sasl_authenticate = pos 36
to_int16 create_partitions = pos 37
to_int16 create_delegation_token = pos 38
to_int16 renew_delegation_token = pos 39
to_int16 expire_delegation_token = pos 40
to_int16 describe_delegation_token = pos 41
to_int16 delete_groups = pos 42
to_int16 elect_leaders = pos 43
to_int16 incremental_alter_configs = pos 44
to_int16 alter_partition_reassignments = pos 45
to_int16 list_partition_reassignments = pos 46
to_int16 offset_delete = pos 47
to_int16 describe_client_quotas = pos 48
to_int16 alter_client_quotas = pos 49
to_int16 describe_user_scram_credentials = pos 50
to_int16 alter_user_scram_credentials = pos 51
to_int16 alter_isr = pos 56
to_int16 update_features = pos 57
to_int16 describe_cluster = pos 60
to_int16 describe_producers = pos 61
to_int16 describe_transactions = pos 65
to_int16 list_transactions = pos 66
to_int16 allocate_producer_ids = pos 67
to_int16 (unknown code) = code
