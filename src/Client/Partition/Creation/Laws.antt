-- ===== src/Client/Partition/Creation/Laws.antt =====
-- A client of a partition that `new` of src/client/partition.rs returns is connected to the leader.
use rskafka.Prelude.{Bool, Option, none, some, List}
use rskafka.Prelude.Int.{ℤ}
use rskafka.Prelude.Result.{Result, ok, err, panic}
use rskafka.Backoff.{BackoffError, ErrorOrThrottle, ControlFlow, break, continue}
use rskafka.Protocol.Primitives.Text.Utf8.{Text}
use rskafka.Client.Error.{Error}
use rskafka.Client.Retry.{on_tried}
use rskafka.Client.Partition.{PartitionClient, UnknownTopicHandling}
use rskafka.Client.Partition.Leader.{Brokers}
use rskafka.Client.Partition.Retry.{on_error}
use rskafka.Client.Partition.Operations.{State, get_on}
use rskafka.Client.Partition.Creation.{detected, invalidate_connector}
use rskafka.Client.Partition.Creation.Rounds.{IsFaithful, IsConnected}

module _ {Conn : Type 0} (topic : Text) (partition : ℤ) (rounds : List (Brokers Conn × Bool)) where
  -- The same for what the loop makes of a round, and for what it ends with.
  abbrev Flows :
      ControlFlow (Option (Result Error (Unit {0}))) (ErrorOrThrottle Error) → State Conn → Type 0
  Flows (break (some (ok u))) s = IsConnected topic partition rounds s.0
  Flows (break (some (err e))) s = Unit
  Flows (break (some panic)) s = Unit
  Flows (break none) s = Unit
  Flows (continue e) s = IsFaithful topic partition rounds s.0

  abbrev EndsConnected :
      Option (Result BackoffError (Option (Result Error (Unit {0})))) × State Conn → Type 0
  EndsConnected (some (ok (some (ok u))), s) = IsConnected topic partition rounds s.0
  EndsConnected (some (ok (some (err e))), s) = Unit
  EndsConnected (some (ok (some panic)), s) = Unit
  EndsConnected (some (ok none), s) = Unit
  EndsConnected (some (err e), s) = Unit
  EndsConnected (some panic, s) = Unit
  EndsConnected (none, s) = Unit

  module _ (handling : UnknownTopicHandling) where
    abbrev body :
        Brokers Conn × Bool
        → State Conn
        → ControlFlow (Option (Result Error (Unit {0}))) (ErrorOrThrottle Error) × State Conn
    body r s = on_tried invalidate_connector (on_error handling) (detected (get_on r.0 s))

    -- What `new` ends with: if it is a client, it is connected.
    abbrev pub Creates : Option (Result Error (PartitionClient Conn)) → Type 0
    Creates none = Unit
    Creates (some (ok p)) = IsConnected topic partition rounds p
    Creates (some (err e)) = Unit
    Creates (some panic) = Unit
