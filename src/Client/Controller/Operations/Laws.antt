-- ===== src/Client/Controller/Operations/Laws.antt =====
-- What the operations of `ControllerClient` of src/client/controller.rs return, and when the controller
-- is looked for again.
use rskafka.Prelude.{ℕ, ◌≡◌, refl, ◌∙◌, arith, inl, inr, Option, Option-cases, none, some, List}
use rskafka.Prelude.Int.{ℤ}
use rskafka.Prelude.Result.{Result, ok, err, panic}
use rskafka.Protocol.Primitives.Text.Utf8.{Text}
use rskafka.Protocol.Messages.CreateTopics.{CreateTopicsRequest, CreateTopicsResponse}
use rskafka.Protocol.Messages.DeleteTopics.{DeleteTopicsRequest, DeleteTopicsResponse}
use rskafka.Throttle.{maybe_throttle}
use rskafka.Backoff.{error, continue}
use rskafka.Messenger.{RequestError}
use rskafka.Connection.{BrokerConnector}
use rskafka.Connection.Metadata.{Round}
use rskafka.Client.Error.{Error}
use rskafka.Client.Retry.{
  Tried, failed, Attempt, processed, answered, with_broker, attempt, on_tried,
}
use rskafka.Client.Retry.Laws.{Ends, maybe_retry-Ends, attempt-Returns}
use rskafka.Client.Controller.{
  ControllerClient, Controllers, State, discover, remember, get, invalidate,
}
use rskafka.Client.Controller.Operations.Errors.{
  IsReported, on_error-IsReported, IsLost, on_error-lost,
}
use rskafka.Client.Controller.Operations.{
  on_error, Attempts, process_create_topics_response, process_delete_topics_response, retried,
  then_refresh, create_topic, delete_topic,
}

module _ {Conn Req Resp : Type 0} (throttle_time_ms : Resp → Option ℤ)
    (process : Resp → Result Error (Unit {0})) (req : Req) where
  retried-Ends :
      (attempts : Attempts Conn Req Resp) (s : State Conn)
      → Ends IsReported (λ u. Unit {0}) (retried throttle_time_ms process req attempts s).0
  unfolding retried
  retried-Ends attempts s =
      maybe_retry-Ends invalidate (λ a. a.is_last) (attempt get throttle_time_ms process req)
        on_error IsReported (λ e. tt) on_error-IsReported (λ u. Unit {0}) attempts s
        (λ a m s. attempt-Returns get throttle_time_ms process req _ a (λ r t h k. tt) s)

module _ {Conn : Type 0} where
  refresh-Ends :
      (rounds : List (Round Conn)) (r : Option (Result Error (Unit {0}))) (s : State Conn)
      → Ends IsReported (λ u. Unit {0}) r
      → Ends IsReported (λ u. Unit {0}) (then_refresh rounds (r, s)).0
  refresh-Ends rounds none s h = tt
  refresh-Ends rounds (some (ok u)) s h = tt
  refresh-Ends rounds (some (err e)) s h = h
  refresh-Ends rounds (some panic) s h = tt

  -- Creating and deleting a topic end without an error, or with one that is for the user, however often
  -- they are tried: a connection that is broken or cannot be made is none, nor is the answer of a broker
  -- that is not the controller.
  pub topic_operations_report :
      (name : Text) (num_partitions replication_factor timeout_ms : ℤ)
      (creates : Attempts Conn CreateTopicsRequest CreateTopicsResponse)
      (deletes : Attempts Conn DeleteTopicsRequest DeleteTopicsResponse)
      (refreshes : List (Round Conn)) (s : State Conn)
      → Ends IsReported
          (λ u. Unit {0})
          (create_topic name num_partitions replication_factor timeout_ms creates refreshes s).0
        × Ends IsReported (λ u. Unit {0}) (delete_topic name timeout_ms deletes refreshes s).0
  unfolding create_topic delete_topic
  topic_operations_report name num_partitions replication_factor timeout_ms creates deletes
        refreshes s =
      (
        refresh-Ends refreshes _ _
            (retried-Ends (λ r. r.throttle_time_ms) process_create_topics_response _ creates s),
        refresh-Ends refreshes _ _
            (retried-Ends (λ r. r.throttle_time_ms) process_delete_topics_response _ deletes s),
      )

  -- The connection that `get` gives is the one that is kept, with its generation.
  IsKept : Option (Result Error (Conn × ℕ)) × State Conn → Type 0
  IsKept (r, s) = (conn : Conn) (gen : ℕ) → r ≡ some (ok (conn, gen)) → gen ≡ s.0.generation

  remember-IsKept :
      (p : ControllerClient Conn) (r : Option (Result Error Conn)) (c : BrokerConnector Conn)
      → IsKept (remember p (r, c))
  unfolding IsKept
  remember-IsKept p none c conn gen e = cc
  remember-IsKept p (some (ok broker)) c conn gen e = cc
  remember-IsKept p (some (err x)) c conn gen e = cc
  remember-IsKept p (some panic) c conn gen e = cc

  get-IsKept : (brokers : Controllers Conn) (s : State Conn) → IsKept (get brokers s)
  unfolding get IsKept
  get-IsKept brokers (p, c) =
      elim p.broker
        as (λ o. IsKept (elim o [
          | some broker ↦ (some (ok (broker, p.generation)), (p, c))
          | none ↦ remember p (discover brokers c)
        ])) [ none ↦ remember-IsKept p _ _ | some broker ↦ λ conn gen h. cc h ]

  invalidate_current :
      (gen : ℕ) (s : State Conn) → gen ≡ s.0.generation → (invalidate gen s).0.broker ≡ none
  unfolding invalidate
  invalidate_current gen s e = ground (arith, e)

module _ {Resp T : Type 0} (throttle_time_ms : Resp → Option ℤ)
    (process : Resp → Result Error T) where
  answered-generation :
      (gen used : ℕ) (a : Result RequestError Resp) (e : Error)
      → answered throttle_time_ms process gen a ≡ failed e (some used)
      → used ≡ gen
  answered-generation gen used (err x) e h = cc
  answered-generation gen used panic e h = cc
  answered-generation gen used (ok r) e h =
      elim (Option-cases (maybe_throttle (throttle_time_ms r))) [
        | inr (ms, t) ↦ cc (rw (t, answered) at h)
        | inl t ↦ processed-generation (process r) (rw (t, answered) at h)
      ]
    where
      processed-generation :
          (p : Result Error T) → processed gen p ≡ failed e (some used) → used ≡ gen
      processed-generation (ok x) k = cc
      processed-generation (err x) k = cc
      processed-generation panic k = cc

module _ {Conn Req Resp T : Type 0} (throttle_time_ms : Resp → Option ℤ)
    (process : Resp → Result Error T) (req : Req) where
  with_broker-generation :
      (a : Attempt (Controllers Conn) Conn Req Resp)
      (g : Option (Result Error (Conn × ℕ)) × State Conn) (e : Error) (used : ℕ)
      → IsKept g
      → (with_broker get throttle_time_ms process req a g).0 ≡ failed e (some used)
      → used ≡ (with_broker get throttle_time_ms process req a g).1.0.generation
  unfolding IsKept
  with_broker-generation a (none, s) e used k h = cc
  with_broker-generation a (some (ok (broker, gen)), s) e used k h =
      answered-generation throttle_time_ms process gen used (a.answers broker req) e h
      ∙ k broker gen refl
  with_broker-generation a (some (err x), s) e used k h = cc
  with_broker-generation a (some panic, s) e used k h = cc

  -- When a round used a connection and fails since this is broken or cannot be made, or since its
  -- broker is not the controller, the body of the loop asks for another round and leaves no connection,
  -- so that this round asks for the controller again.
  pub lost_controller_is_given_up :
      (a : Attempt (Controllers Conn) Conn Req Resp) (s : State Conn) (e : Error) (used : ℕ)
      → (attempt get throttle_time_ms process req a s).0 ≡ failed e (some used)
      → IsLost e
      → ((on_tried invalidate on_error (attempt get throttle_time_ms process req a s)).0
          ≡ continue (error e))
        × ((on_tried invalidate on_error (attempt get throttle_time_ms process req a s)).1.0.broker
            ≡ none)
  unfolding attempt
  lost_controller_is_given_up a s e used h lost =
      let t : Tried T × State Conn =
        with_broker get throttle_time_ms process req a (get a.brokers s) in
      let current = with_broker-generation a (get a.brokers s) e used (get-IsKept a.brokers s) h in
      rw (h, on_tried) (rw (on_error-lost e lost) (refl, invalidate_current used t.1 current))
