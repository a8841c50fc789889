-- ===== src/Tests/Partitions.antt =====
-- The theorems about the client of a partition of src/client/partition.rs and the connections of
-- src/connection.rs at concrete inputs.
use rskafka.Prelude.{ℕ, suc, max, ◌≡◌, refl, Bool, true, false, none, some, List, [], ◌∷◌}
use rskafka.Prelude.Int.{pos, ◌-ℤ◌}
use rskafka.Prelude.Result.{ok, err}
use rskafka.Protocol.Primitives.Text.Equality.{same_text}
use rskafka.Protocol.Record.{no_compression}
use rskafka.Protocol.Error as Protocol
use rskafka.Protocol.Messages.Metadata.{MetadataResponseBroker}
use rskafka.Protocol.Messages.Produce.{ProduceRequest, ProduceResponse}
use rskafka.Connection.Topology.{update, get_broker}
use rskafka.Connection.Topology.Laws.{IsKeyed, latest, update_keeps_the_latest}
use rskafka.Connection.Topology.{update_one}
use rskafka.Throttle.{maybe_throttle}
use rskafka.Backoff.{retry_with_backoff}
use rskafka.Connection.{connect}
use rskafka.Connection.Metadata.{request_metadata, metadata_request_with_retry, one_round}
use rskafka.Client.MetadataCache as Cache
use rskafka.Client.Error.{server_error, for_partition, for_topic, leader_forward}
use rskafka.Client.Partition.{give_error}
use rskafka.Client.Partition.Responses.{exactly_one}
use rskafka.Client.Partition.Leader.{
  Brokers, find_partition, leader_of, leader_of_topic, leader_of_partition, get_leader, get,
}
use rskafka.Client.Partition.Leader.Laws.{disagreement_keeps_the_stale_entry}
use rskafka.Client.Retry.{Tried, returned, failed, maybe_retry}
use rskafka.Client.Retry.Laws.{Ends, Returns}
use rskafka.Client.Partition.Retry.{on_error}
use rskafka.Client.Partition.Retry.Laws.{IsReported, maybe_retry_reports}
use rskafka.Client.Partition.Requests.{Chrono}
use rskafka.Client.Partition.Operations.{Attempts, produce}
use rskafka.Client.Partition.Operations.Laws.{AreGiven, produce_gives_offsets}
use rskafka.Client.Records.{Record}
use rskafka.Tests.Brokers.{name, broker_at, old_topology, led_by, connector, unbound, names}

abbrev new_brokers : List MetadataResponseBroker
new_brokers = broker_at (pos 2) (pos 9092) ∷ broker_at (pos 1) (pos 9093) ∷ []

update_keeps_the_latest_example :
    (get_broker (pos 1) (update new_brokers old_topology)
      ≡ latest (pos 1) new_brokers (get_broker (pos 1) old_topology))
    × IsKeyed (update new_brokers old_topology)
update_keeps_the_latest_example =
    update_keeps_the_latest new_brokers old_topology (pos 1) (refl, tt)

disagreement_keeps_the_stale_entry_example :
    ((get (names (pos 2)) unbound connector).0
      ≡ some (
          err (
            server_error Protocol.not_leader_or_follower none
              (for_partition name (pos 0))
              (some (leader_forward (pos 1) (pos 2)))
              true)))
    × ((get (names (pos 2)) unbound connector).1.cached_metadata ≡ connector.cached_metadata)
unfolding Cache.look_up Cache.filtered Cache.retain same_text connect get_broker get_leader
    request_metadata metadata_request_with_retry retry_with_backoff one_round leader_of
    leader_of_topic leader_of_partition find_partition exactly_one maybe_throttle update update_one
disagreement_keeps_the_stale_entry_example =
    disagreement_keeps_the_stale_entry unbound (names (pos 2)) connector (led_by (pos 1)) 1 (pos 1)
      (pos 2) 1 none refl refl refl refl refl refl

-- The leader moved, then a broker gives the offset of the first of two records.
abbrev attempts : Attempts ℕ ProduceRequest ProduceResponse
attempts =
    record {
      brokers = names (pos 2);
      answers = λ c r. ok (record { responses = []; throttle_time_ms = none });
      is_last = false;
    }
    ∷ record {
      brokers = names (pos 1);
      answers = λ c r. ok (record {
        responses =
            record {
              name = name;
              partition_responses =
                  record {
                    index = pos 0;
                    error = none;
                    base_offset = pos 40;
                    log_append_time_ms = none;
                    log_start_offset = none;
                  }
                  ∷ [];
            }
            ∷ [];
        throttle_time_ms = none;
      });
      is_last = false;
    }
    ∷ []

abbrev chrono : Chrono ℕ
chrono = record { later = max; timestamp_millis = pos; num_milliseconds = λ a b. pos a -ℤ pos b }

abbrev two_records : List (Record ℕ)
two_records =
    record { key = none; value = some (1 ∷ []); headers = []; timestamp = 1000 }
    ∷ record { key = none; value = some (2 ∷ []); headers = []; timestamp = 1001 }
    ∷ []

produce_gives_offsets_example :
    Ends
      (IsReported give_error)
      (AreGiven chrono name (pos 0) no_compression attempts two_records)
      (produce chrono two_records no_compression attempts (unbound, connector)).0
produce_gives_offsets_example =
    produce_gives_offsets chrono two_records no_compression attempts (unbound, connector)

-- A round that fails since the leader moved, or returns 7.
abbrev tries : Bool → ℕ → Tried ℕ × ℕ
tries true s = (returned 7, s)
tries false s = (
  failed (server_error Protocol.not_leader_or_follower none (for_topic name) none false) (some s),
  s,
)

tries-Returns : (r : Bool) (s : ℕ) → Returns (λ t. t ≡ 7) (tries r s).0
tries-Returns true s = refl
tries-Returns false s = tt

maybe_retry_reports_example :
    Ends
      (IsReported give_error)
      (λ t. t ≡ 7)
      (maybe_retry
        (λ gen s. suc s)
        (λ r. false)
        tries
        (on_error give_error)
        (false ∷ true ∷ [])
        0).0
maybe_retry_reports_example =
    maybe_retry_reports (λ gen s. suc s) (λ r. false) tries give_error (λ t. t ≡ 7) tries-Returns
      (false ∷ true ∷ []) 0

-- The leader moves while it is looked for.
abbrev searches : List (Brokers ℕ × Bool)
searches = (names (pos 2), false) ∷ (names (pos 1), false) ∷ []
