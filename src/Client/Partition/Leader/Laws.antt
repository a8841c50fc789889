-- ===== src/Client/Partition/Leader/Laws.antt =====
-- What `get` of src/client/partition.rs binds a client to, and what it does about a broker that does not
-- take itself for the leader.
use rskafka.Prelude.{
  ℕ, ◌≡◌, refl, subst, ap, ◌∙◌, true, false, inl, inr, Option, none, some, List, [], ◌∷◌,
}
use rskafka.Prelude.Int.{ℤ, eqb_ℤ}
use rskafka.Prelude.Result.{Result, Result-cases, ok, err, panic, map_ok}
use rskafka.Prelude.Task.{after}
use rskafka.Protocol.Primitives.Text.Utf8.{Text}
use rskafka.Protocol.Error as Protocol
use rskafka.Protocol.Messages.Metadata.{MetadataResponse}
use rskafka.Client.MetadataCache as Cache
use rskafka.Connection as Connection
use rskafka.Connection.{
  BrokerConnector, BrokerRepresentation, MetadataLookupMode, specific_broker, cached_arbitrary,
  bump, connect,
}
use rskafka.Connection.Metadata.{Round, request_metadata}
use rskafka.Connection.Metadata.Laws.{HasNoGeneration, specific_broker_keeps}
use rskafka.Client.Error.{Error, server_error, for_partition, leader_forward}
use rskafka.Client.Partition.{PartitionClient}
use rskafka.Client.Partition.Leader.{
  leader_of, Brokers, converted, leader_and_generation, get_leader, connect_to_leader, confirm,
  discover, get,
}

cache-get :
    (topics : Option (List Text)) (c : Cache.MetadataCache) (m : MetadataResponse) (gen : ℕ)
    → Cache.look_up topics c ≡ Cache.found m gen
    → Cache.get topics c ≡ (some (m, gen), c)
unfolding Cache.get
cache-get topics c m gen e = rw e refl

module _ {Conn : Type 0} where
  -- The leader that the cache names.
  get_leader_cached :
      (p : PartitionClient Conn) (rounds : List (Round Conn)) (c : BrokerConnector Conn)
      (m : MetadataResponse) (gen : ℕ) (leader : ℤ)
      → Cache.look_up (some (p.topic ∷ [])) c.cached_metadata ≡ Cache.found m gen
      → leader_of p.topic p.partition m ≡ ok leader
      → get_leader p cached_arbitrary rounds c ≡ (some (ok (leader, some gen)), c)
  unfolding get_leader request_metadata
  get_leader_cached p rounds c m gen leader e l =
      rw (cache-get (some (p.topic ∷ [])) c.cached_metadata m gen e) (rw l refl)

  connect_to_leader_ok :
      (dial : BrokerRepresentation → Result Connection.Error Conn) (leader : ℤ) (gen : Option ℕ)
      (c : BrokerConnector Conn) (broker : Conn)
      → connect dial leader c ≡ ok (some broker)
      → connect_to_leader dial leader gen c ≡ (some (ok broker), c)
  unfolding connect_to_leader
  connect_to_leader_ok dial leader gen c broker e = rw e refl

  converted-HasNoGeneration :
      {A : Type 0} (r : Option (Result Connection.Error (A × Option ℕ))) (c : BrokerConnector Conn)
      → HasNoGeneration r
      → HasNoGeneration (converted (r, c)).0
  converted-HasNoGeneration none c h = tt
  converted-HasNoGeneration (some (ok a)) c h = h
  converted-HasNoGeneration (some (err e)) c h = tt
  converted-HasNoGeneration (some panic) c h = tt

  converted_keeps :
      {A : Type 0} (r : Option (Result Connection.Error A)) (c : BrokerConnector Conn)
      → (converted (r, c)).1 ≡ c
  converted_keeps none c = refl
  converted_keeps (some (ok a)) c = refl
  converted_keeps (some (err e)) c = refl
  converted_keeps (some panic) c = refl

  leader-HasNoGeneration :
      (topic : Text) (partition : ℤ) (r : Option (Result Error (MetadataResponse × Option ℕ)))
      (c : BrokerConnector Conn)
      → HasNoGeneration r
      → HasNoGeneration (after (leader_and_generation topic partition) (r, c)).0
        × ((after (leader_and_generation topic partition) (r, c)).1 ≡ c)
  leader-HasNoGeneration topic partition none c h = (tt, refl)
  leader-HasNoGeneration topic partition (some (ok (m, gen))) c h =
      elim (Result-cases (leader_of topic partition m)) [
        | inl (leader, e) ↦ rw (e, map_ok) (h, refl)
        | inr (inl (x, e)) ↦ rw (e, map_ok) (tt, refl)
        | inr (inr e) ↦ rw (e, map_ok) (tt, refl)
      ]
  leader-HasNoGeneration topic partition (some (err e)) c h = (tt, refl)
  leader-HasNoGeneration topic partition (some panic) c h = (tt, refl)

  -- Asking the leader itself: no generation, and the cached metadata is left alone.
  get_leader_from_self :
      (p : PartitionClient Conn) (b : Conn) (rounds : List (Round Conn)) (c : BrokerConnector Conn)
      → HasNoGeneration (get_leader p (specific_broker b) rounds c).0
        × ((get_leader p (specific_broker b) rounds c).1.cached_metadata ≡ c.cached_metadata)
  unfolding get_leader
  get_leader_from_self p b rounds c =
      let asked : Option (Result Connection.Error (MetadataResponse × Option ℕ))
          × BrokerConnector Conn =
        request_metadata (specific_broker b) (some (p.topic ∷ [])) rounds c in
      let (plain, keeps) = specific_broker_keeps b (p.topic ∷ []) rounds c in
      let (no_generation, same) =
        leader-HasNoGeneration p.topic p.partition (converted asked).0 (converted asked).1
          (converted-HasNoGeneration asked.0 asked.1 plain) in
      (no_generation, ap (λ c. c.cached_metadata) (same ∙ converted_keeps asked.0 asked.1) ∙ keeps)

  confirm_refuses :
      (p : PartitionClient Conn) (broker : Conn) (leader leader_self : ℤ) (gen : Option ℕ)
      (r : Option (Result Error (ℤ × Option ℕ))) (gen_self : Option ℕ) (c : BrokerConnector Conn)
      → r ≡ some (ok (leader_self, gen_self))
      → HasNoGeneration r
      → eqb_ℤ leader leader_self ≡ false
      → after (confirm p broker (leader, gen)) (r, c) ≡ (
        some (
            err (
              server_error Protocol.not_leader_or_follower none
                (for_partition p.topic p.partition)
                (some (leader_forward leader leader_self))
                true)),
        c,
      )
  unfolding confirm
  confirm_refuses p broker leader leader_self gen r gen_self c e h differ =
      let no_gen : gen_self ≡ none = subst HasNoGeneration e h in rw e (rw (differ, no_gen) refl)

  -- When the cached metadata names a leader that is connected and says itself that another broker is,
  -- `get` fails with `NotLeaderOrFollower`, and the cached metadata stays as it is.
  pub disagreement_keeps_the_stale_entry :
      (p : PartitionClient Conn) (brokers : Brokers Conn) (c : BrokerConnector Conn)
      (m : MetadataResponse) (gen : ℕ) (leader leader_self : ℤ) (broker : Conn)
      (gen_self : Option ℕ)
      → p.current_broker.broker ≡ none
      → Cache.look_up (some (p.topic ∷ [])) c.cached_metadata ≡ Cache.found m gen
      → leader_of p.topic p.partition m ≡ ok leader
      → connect brokers.dial leader c ≡ ok (some broker)
      → (get_leader p (specific_broker broker) brokers.specific c).0
        ≡ some (ok (leader_self, gen_self))
      → eqb_ℤ leader leader_self ≡ false
      → ((get brokers p c).0
          ≡ some (
              err (
                server_error Protocol.not_leader_or_follower none
                  (for_partition p.topic p.partition)
                  (some (leader_forward leader leader_self))
                  true)))
        × ((get brokers p c).1.cached_metadata ≡ c.cached_metadata)
  unfolding get discover
  disagreement_keeps_the_stale_entry p brokers c m gen leader leader_self broker gen_self unbound
        cached names dials says differ =
      let asked : Option (Result Error (ℤ × Option ℕ)) × BrokerConnector Conn =
        get_leader p (specific_broker broker) brokers.specific c in
      let (no_generation, keeps) = get_leader_from_self p broker brokers.specific c in
      rw (unbound, get)
        (rw (get_leader_cached p brokers.arbitrary c m gen leader cached names) (
          rw (connect_to_leader_ok brokers.dial leader (some gen) c broker dials) (
            rw
              (confirm_refuses p broker leader leader_self (some gen) asked.0 gen_self asked.1 says
                no_generation differ)
              (refl, keeps))))
