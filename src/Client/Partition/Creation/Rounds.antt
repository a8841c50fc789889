-- ===== src/Client/Partition/Creation/Rounds.antt =====
-- One round of finding the leader, in `new` of src/client/partition.rs, leaves a client that it has
-- found the leader for connected.
use rskafka.Prelude.{
  ℕ, ◌≡◌, refl, ◌∙◌, Bool, inl, inr, subst, Option-cases, Option, none, List, some,
}
use mathlib.Core.List.{Memᴰ}
use rskafka.Prelude.Int.{ℤ}
use rskafka.Prelude.Result.{Result, ok, err, panic}
use rskafka.Prelude.Task.{Task, done}
use rskafka.Protocol.Primitives.Text.Utf8.{Text}
use rskafka.Connection.{BrokerConnector}
use rskafka.Client.Error.{Error}
use rskafka.Client.Retry.{Tried, returned, throttled, failed, crashed, waiting}
use rskafka.Client.Partition.{PartitionClient}
use rskafka.Client.Partition.Leader.Confirmed.{IsLeader, Keeps, discover-IsLeader}
use rskafka.Client.Partition.Leader.{Brokers, discover, get}
use rskafka.Client.Partition.Operations.{State, bound_to, get_on}
use rskafka.Client.Partition.Creation.{detected}

module _ {Conn : Type 0} (topic : Text) (partition : ℤ) (rounds : List (Brokers Conn × Bool)) where
  -- The client is of the partition.
  abbrev pub IsOf : PartitionClient Conn → Type 0
  IsOf p = (p.topic ≡ topic) × (p.partition ≡ partition)

  -- In one of the rounds a connection is to the leader.
  pub record LedIn (conn : Conn) : Type 0 where
    pub round : Brokers Conn × Bool
    pub is_round : Memᴰ round rounds
    pub leads : IsLeader topic partition round.0 conn

  -- The client is of the partition, and what it is connected to, if anything, is the leader.
  pub record IsFaithful (p : PartitionClient Conn) : Type 0 where
    pub is_of : IsOf p
    pub leader : (conn : Conn) → p.current_broker.broker ≡ some conn → LedIn conn

  -- It is of the partition, and it has a connection to the leader.
  pub record IsConnected (p : PartitionClient Conn) : Type 0 where
    pub is_of : IsOf p
    pub conn : Conn
    pub connection : p.current_broker.broker ≡ some conn
    pub leader : LedIn conn

  discovered-IsConnected :
      (r : Brokers Conn × Bool) (p q : PartitionClient Conn) (conn : Conn)
      → Memᴰ r rounds
      → IsOf p
      → IsLeader p.topic p.partition r.0 conn
      → Keeps p conn q
      → IsConnected q
  discovered-IsConnected r p q conn m h leads k = record {
    is_of = (k.same_topic ∙ h.0, k.same_partition ∙ h.1);
    conn = conn;
    connection = k.connection;
    leader = record {
      round = r;
      is_round = m;
      leads =
          subst (λ t. IsLeader t partition r.0 conn) h.0
            (subst (λ i. IsLeader p.topic i r.0 conn) h.1 leads);
    };
  }

  get-IsConnected :
      (r : Brokers Conn × Bool) (p : PartitionClient Conn) (c : BrokerConnector Conn)
      (out : (Conn × ℕ) × PartitionClient Conn)
      → Memᴰ r rounds
      → IsFaithful p
      → (get r.0 p c).0 ≡ some (ok out)
      → IsConnected out.1
  unfolding get
  get-IsConnected r p c out m h e = elim (Option-cases p.current_broker.broker) [
    | inl nothing ↦
        let found = subst (λ o. (from_cache o c).0 ≡ some (ok out)) nothing e in
        let (leads, keeps) = discover-IsLeader r.0 p c out found in
        discovered-IsConnected r p out.1 out.0.0 m h.is_of leads keeps
    | inr (conn, kept) ↦
        let found : some (ok ((conn, p.current_broker.gen_broker), p)) ≡ some (ok out) =
          subst (λ o. (from_cache o c).0 ≡ some (ok out)) kept e in
        let same : ((conn, p.current_broker.gen_broker), p) ≡ out = cc found in
        subst (λ x. IsConnected x.1) same
          (record { is_of = h.is_of; conn = conn; connection = kept; leader = h.leader conn kept })
  ]
    where
      from_cache :
          Option Conn → Task (BrokerConnector Conn) Error ((Conn × ℕ) × PartitionClient Conn)
      from_cache o = elim o [
        | some broker ↦ done (ok ((broker, p.current_broker.gen_broker), p))
        | none ↦ discover r.0 p
      ]

  -- After a round the client is of the partition, and connected if the round found the leader.
  abbrev pub Holds : Tried (Unit {0}) × State Conn → Type 0
  Holds (returned u, s) = IsConnected s.0
  Holds (throttled ms, s) = IsFaithful s.0
  Holds (failed e gen, s) = IsFaithful s.0
  Holds (crashed, s) = IsFaithful s.0
  Holds (waiting, s) = IsFaithful s.0

  bound-Holds :
      (p : PartitionClient Conn) (r : Option (Result Error ((Conn × ℕ) × PartitionClient Conn)))
      (c : BrokerConnector Conn)
      → IsFaithful p
      → ((out : (Conn × ℕ) × PartitionClient Conn) → r ≡ some (ok out) → IsConnected out.1)
      → Holds (detected (bound_to p (r, c)))
  bound-Holds p none c h k = h
  bound-Holds p (some (ok (b, p'))) c h k = k (b, p') refl
  bound-Holds p (some (err e)) c h k = h
  bound-Holds p (some panic) c h k = h

  pub round-Holds :
      (r : Brokers Conn × Bool) (s : State Conn)
      → Memᴰ r rounds
      → IsFaithful s.0
      → Holds (detected (get_on r.0 s))
  unfolding get_on
  round-Holds r (p, c) m h =
      bound-Holds p (get r.0 p c).0 (get r.0 p c).1 h (λ out e. get-IsConnected r p c out m h e)
