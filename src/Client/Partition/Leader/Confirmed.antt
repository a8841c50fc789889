-- ===== src/Client/Partition/Leader/Confirmed.antt =====
-- The broker that `get` of src/client/partition.rs connects to: one that is named as the leader, and
-- that names itself.
use rskafka.Prelude.{
  ℕ, ◌≡◌, refl, sym, ap, ◌∙◌, subst, Bool-cases, inl, inr, Option, none, some, List, [], ◌∷◌,
}
use rskafka.Prelude.Int.{ℤ, eqb_ℤ, eqb_ℤ→eq}
use rskafka.Prelude.Result.{Result, ok, err, panic, Result-cases}
use rskafka.Prelude.Task.{after, after-eq-ok}
use rskafka.Protocol.Primitives.Text.Utf8.{Text}
use rskafka.Protocol.Messages.Metadata.{MetadataResponse}
use rskafka.Connection as Connection
use rskafka.Connection.{
  BrokerConnector, MetadataLookupMode, specific_broker, cached_arbitrary, connect,
}
use rskafka.Connection.Metadata.{Round, request_metadata}
use rskafka.Client.Partition.{PartitionClient}
use rskafka.Client.Partition.Leader.{
  Brokers, leader_of, converted, leader_and_generation, get_leader, connected, connect_to_leader,
  bound, confirm, discover,
}

module _ {Conn : Type 0} (topic : Text) (partition : ℤ) where
  -- A broker that is asked for metadata names the leader of the partition.
  pub record Names (mode : MetadataLookupMode Conn) (rounds : List (Round Conn)) (leader : ℤ)
      (c : BrokerConnector Conn) : Type 0 where
    pub metadata : MetadataResponse
    pub generation : Option ℕ
    pub answered :
        (request_metadata mode (some (topic ∷ [])) rounds c).0 ≡ some (ok (metadata, generation))
    pub named : leader_of topic partition metadata ≡ ok leader

  abbrev pub connector_after : Brokers Conn → BrokerConnector Conn → BrokerConnector Conn
  connector_after brokers c =
      (request_metadata cached_arbitrary (some (topic ∷ [])) brokers.arbitrary c).1

  -- A connection is to a broker that any broker, or the cache, names as the leader, that is connected
  -- to as such, and that names itself when it is asked.
  pub record IsLeader (brokers : Brokers Conn) (conn : Conn) : Type 0 where
    pub leader : ℤ
    pub connector : BrokerConnector Conn
    pub hint : Names cached_arbitrary brokers.arbitrary leader connector
    pub dialled : connect brokers.dial leader (connector_after brokers connector) ≡ ok (some conn)
    pub itself :
        Names (specific_broker conn) brokers.specific leader (connector_after brokers connector)

  leader_of_answer :
      (r : Option (Result Connection.Error (MetadataResponse × Option ℕ)))
      (c : BrokerConnector Conn) (l : ℤ × Option ℕ)
      → (after (leader_and_generation topic partition) (converted (r, c))).0 ≡ some (ok l)
      → (m : MetadataResponse) × (gen : Option ℕ) × (r ≡ some (ok (m, gen)))
        × (leader_of topic partition m ≡ ok l.0)
  leader_of_answer none c l h = cc
  leader_of_answer (some (ok (m, gen))) c l h = elim (Result-cases (leader_of topic partition m)) [
    | inl (x, e) ↦
        let same : some (ok (x, gen)) ≡ some (ok l) = rw e at h in
        let pair : (x, gen) ≡ l = cc same in (m, gen, refl, e ∙ ap (λ l. ok l.0) pair)
    | inr (inl (x, e)) ↦ cc (rw e at h)
    | inr (inr e) ↦ cc (rw e at h)
  ]
  leader_of_answer (some (err e)) c l h = cc
  leader_of_answer (some panic) c l h = cc

  connector_of_answer :
      (r : Option (Result Connection.Error (MetadataResponse × Option ℕ)))
      (c : BrokerConnector Conn)
      → (after (leader_and_generation topic partition) (converted (r, c))).1 ≡ c
  connector_of_answer none c = refl
  connector_of_answer (some (ok (m, gen))) c = refl
  connector_of_answer (some (err e)) c = refl
  connector_of_answer (some panic) c = refl

module _ {Conn : Type 0} where
  get_leader-Names :
      (p : PartitionClient Conn) (mode : MetadataLookupMode Conn) (rounds : List (Round Conn))
      (c : BrokerConnector Conn) (l : ℤ × Option ℕ)
      → (get_leader p mode rounds c).0 ≡ some (ok l)
      → Names p.topic p.partition mode rounds l.0 c
  unfolding get_leader
  get_leader-Names p mode rounds c l h =
      let (m, gen, answered, named) = leader_of_answer p.topic p.partition _ _ l h in
      record { metadata = m; generation = gen; answered = answered; named = named }

  get_leader_connector :
      (p : PartitionClient Conn) (mode : MetadataLookupMode Conn) (rounds : List (Round Conn))
      (c : BrokerConnector Conn)
      → (get_leader p mode rounds c).1 ≡ (request_metadata mode (some (p.topic ∷ [])) rounds c).1
  unfolding get_leader
  get_leader_connector p mode rounds c = connector_of_answer p.topic p.partition _ _

  connected-eq-ok :
      (leader : ℤ) (gen : Option ℕ) (c : BrokerConnector Conn)
      (r : Result Connection.Error (Option Conn)) (conn : Conn)
      → (connected leader gen c r).0 ≡ some (ok conn)
      → (r ≡ ok (some conn)) × ((connected leader gen c r).1 ≡ c)
  connected-eq-ok leader gen c (ok (some b)) conn h = (cc h, refl)
  connected-eq-ok leader gen c (ok none) conn h = cc
  connected-eq-ok leader gen c (err e) conn h = cc
  connected-eq-ok leader gen c panic conn h = cc

  -- What a client is after `get` gave it a connection: it is of the same partition, and it has the
  -- connection.
  pub record Keeps (p : PartitionClient Conn) (conn : Conn) (q : PartitionClient Conn)
      : Type 0 where
    pub same_topic : q.topic ≡ p.topic
    pub same_partition : q.partition ≡ p.partition
    pub connection : q.current_broker.broker ≡ some conn

  confirm-eq-ok :
      (p : PartitionClient Conn) (broker : Conn) (l l' : ℤ × Option ℕ) (c : BrokerConnector Conn)
      (out : (Conn × ℕ) × PartitionClient Conn)
      → (confirm p broker l l' c).0 ≡ some (ok out)
      → (l.0 ≡ l'.0) × (out.0.0 ≡ broker) × Keeps p broker out.1
  unfolding confirm
  confirm-eq-ok p broker l l' c out h = elim (Bool-cases (eqb_ℤ l.0 l'.0)) [
    | inl same ↦
        let e : some (ok (bound p broker l.1 l'.1)) ≡ some (ok out) = rw same at h in
        let e : bound p broker l.1 l'.1 ≡ out = cc e in
        (
          eqb_ℤ→eq l.0 l'.0 same,
          sym (ap (λ o. o.0.0) e),
          subst (λ o. Keeps p broker o.1) e
              (record { same_topic = refl; same_partition = refl; connection = refl }),
        )
    | inr other ↦ cc (rw other at h)
  ]

  -- What is connected to is the leader.
  pub discover-IsLeader :
      (brokers : Brokers Conn) (p : PartitionClient Conn) (c : BrokerConnector Conn)
      (out : (Conn × ℕ) × PartitionClient Conn)
      → (discover brokers p c).0 ≡ some (ok out)
      → IsLeader p.topic p.partition brokers out.0.0 × Keeps p out.0.0 out.1
  unfolding discover connect_to_leader
  discover-IsLeader brokers p c out h =
      let (l, e1, h1) = after-eq-ok _ _ _ out h in
      let (broker, e2, h2) = after-eq-ok _ _ _ out h1 in
      let (l', e3, h3) = after-eq-ok _ _ _ out h2 in
      let (dialled, same) = connected-eq-ok l.0 l.1 _ _ broker e2 in
      let (agree, is, keeps) = confirm-eq-ok p broker l l' _ out h3 in
      let before = get_leader_connector p cached_arbitrary brokers.arbitrary c in
      let itself =
        subst (λ x. Names p.topic p.partition (specific_broker broker) brokers.specific l'.0 x)
          (same ∙ before) (get_leader-Names p (specific_broker broker) brokers.specific _ l' e3) in
      let leader : IsLeader p.topic p.partition brokers broker = record {
        leader = l.0;
        connector = c;
        hint = get_leader-Names p cached_arbitrary brokers.arbitrary c l e1;
        dialled = subst (λ x. connect brokers.dial l.0 x ≡ ok (some broker)) before dialled;
        itself =
            subst
              (λ x.
                Names p.topic p.partition (specific_broker broker) brokers.specific x
                  (connector_after p.topic p.partition brokers c))
              (sym agree) itself;
      } in
      (
        subst (λ b. IsLeader p.topic p.partition brokers b) (sym is) leader,
        subst (λ b. Keeps p b out.1) (sym is) keeps,
      )
