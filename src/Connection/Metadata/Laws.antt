-- ===== src/Connection/Metadata/Laws.antt =====
-- What requests for metadata of src/connection.rs do to the cache of metadata.
use rskafka.Prelude.{
  ℕ, ◌≡◌, refl, ◌∙◌, ap, arith, ◌&&◌, not, Bool-cases, Option-cases, inl, inr, Option, none, some,
  List,
}
use rskafka.Prelude.Result.{Result, ok, err, panic}
use rskafka.Prelude.Task.{after}
use rskafka.Backoff.{BackoffError, retry_with_backoff}
use rskafka.Backoff.Laws.{retry_keeps}
use rskafka.Protocol.Primitives.Text.Utf8.{Text}
use rskafka.Protocol.Messages.Metadata.{MetadataRequest, MetadataResponse}
use rskafka.Messenger.{RequestError}
use rskafka.Connection.{
  Error, MetadataLookupMode, arbitrary_broker, specific_broker, cached_arbitrary, BrokerConnector,
  BrokerRepresentation, brokers, remember_result, get, invalidate,
}
use rskafka.Connection.Metadata.{
  Round, is_broken, with_generation, broker_of, is_specific, invalidate_if, on_answer, ask,
  one_round, retried, metadata_request_with_retry, metadata_request, learn, request_metadata,
}

-- A response that is not from the cache comes without a generation.
abbrev pub HasNoGeneration : {E A : Type 0} → Option (Result E (A × Option ℕ)) → Type 0
HasNoGeneration none = Unit
HasNoGeneration (some (ok r)) = r.1 ≡ none
HasNoGeneration (some (err e)) = Unit
HasNoGeneration (some panic) = Unit

module _ {Conn : Type 0} where
  remember_result_keeps :
      (c : BrokerConnector Conn) (r : Result Error Conn)
      → (remember_result c r).1.cached_metadata ≡ c.cached_metadata
  remember_result_keeps c (ok conn) = refl
  remember_result_keeps c (err e) = refl
  remember_result_keeps c panic = refl

  get_keeps :
      (reach : List BrokerRepresentation → Result Error Conn) (c : BrokerConnector Conn)
      → (get reach c).1.cached_metadata ≡ c.cached_metadata
  unfolding get
  get_keeps reach c = elim (Option-cases c.cached_arbitrary_broker) [
    | inl e ↦ rw (e, get) (remember_result_keeps c (reach (brokers c)))
    | inr (b, e) ↦ rw (e, get) refl
  ]

  with_generation_keeps :
      (r : Result Error (Conn × ℕ) × BrokerConnector Conn)
      → (with_generation r).1.cached_metadata ≡ r.1.cached_metadata
  with_generation_keeps (ok (b, gen), c) = refl
  with_generation_keeps (err e, c) = refl
  with_generation_keeps (panic, c) = refl

  broker_of_keeps :
      (mode : MetadataLookupMode Conn) (r : Round Conn) (c : BrokerConnector Conn)
      → (broker_of mode r c).1.cached_metadata ≡ c.cached_metadata
  broker_of_keeps (specific_broker b) r c = refl
  broker_of_keeps arbitrary_broker r c =
      with_generation_keeps (get r.reaches c) ∙ get_keeps r.reaches c
  broker_of_keeps cached_arbitrary r c =
      with_generation_keeps (get r.reaches c) ∙ get_keeps r.reaches c

  invalidate_if_keeps :
      (gen : Option ℕ) (c : BrokerConnector Conn)
      → (invalidate_if gen c).cached_metadata ≡ c.cached_metadata
  unfolding invalidate
  invalidate_if_keeps none c = refl
  invalidate_if_keeps (some gen) c = ground arith

  on_answer_keeps :
      (mode : MetadataLookupMode Conn) (gen : Option ℕ) (c : BrokerConnector Conn)
      (a : Result RequestError MetadataResponse)
      → (on_answer mode gen c a).1.cached_metadata ≡ c.cached_metadata
  on_answer_keeps mode gen c (ok response) = refl
  on_answer_keeps mode gen c (err e) = elim (Bool-cases (is_broken e && not (is_specific mode))) [
    | inl again ↦ rw again (invalidate_if_keeps gen c)
    | inr stop ↦ rw stop refl
  ]
  on_answer_keeps mode gen c panic = refl

  ask_keeps :
      (mode : MetadataLookupMode Conn) (request : MetadataRequest) (r : Round Conn)
      (b : Result Error (Conn × Option ℕ) × BrokerConnector Conn)
      → (ask mode request r b).1.cached_metadata ≡ b.1.cached_metadata
  ask_keeps mode request r (ok (b, gen), c) = on_answer_keeps mode gen c (r.answers b request)
  ask_keeps mode request r (err e, c) = refl
  ask_keeps mode request r (panic, c) = refl

  retried_keeps :
      {A : Type 0} (r : Option (Result BackoffError (Result Error A)) × BrokerConnector Conn)
      → (retried r).1 ≡ r.1
  retried_keeps (none, c) = refl
  retried_keeps (some (ok r), c) = refl
  retried_keeps (some (err e), c) = refl
  retried_keeps (some panic, c) = refl

  -- The loop does not touch the cached metadata, whatever brokers answer.
  pub request_with_retry_keeps :
      (mode : MetadataLookupMode Conn) (request : MetadataRequest) (rounds : List (Round Conn))
      (c : BrokerConnector Conn)
      → (metadata_request_with_retry mode request rounds c).1.cached_metadata ≡ c.cached_metadata
  unfolding metadata_request_with_retry one_round
  request_with_retry_keeps mode request rounds c =
      let loop : Option (Result BackoffError (Result Error MetadataResponse))
          × BrokerConnector Conn =
        retry_with_backoff (λ (r : Round Conn). r.is_last) (one_round mode request) rounds c in
      ap (λ c. c.cached_metadata) (retried_keeps loop)
      ∙ retry_keeps (λ (r : Round Conn). r.is_last) (one_round mode request)
          (λ s. s.cached_metadata ≡ c.cached_metadata)
          (λ r s h. ask_keeps mode request r (broker_of mode r s) ∙ broker_of_keeps mode r s ∙ h)
          rounds c refl

  learn_keeps :
      (topics : List Text) (r : Option (Result Error MetadataResponse) × BrokerConnector Conn)
      → (after (learn (some topics)) r).1.cached_metadata ≡ r.1.cached_metadata
  learn_keeps topics (none, c) = refl
  learn_keeps topics (some (ok m), c) = refl
  learn_keeps topics (some (err e), c) = refl
  learn_keeps topics (some panic, c) = refl

  learn-HasNoGeneration :
      (topics : Option (List Text))
      (r : Option (Result Error MetadataResponse) × BrokerConnector Conn)
      → HasNoGeneration (after (learn topics) r).0
  learn-HasNoGeneration topics (none, c) = tt
  learn-HasNoGeneration topics (some (ok m), c) = refl
  learn-HasNoGeneration topics (some (err e), c) = tt
  learn-HasNoGeneration topics (some panic, c) = tt

  -- Asking a specific broker for some topics: no generation, and the cached metadata is left alone.
  pub specific_broker_keeps :
      (b : Conn) (topics : List Text) (rounds : List (Round Conn)) (c : BrokerConnector Conn)
      → HasNoGeneration (request_metadata (specific_broker b) (some topics) rounds c).0
        × (request_metadata (specific_broker b) (some topics) rounds c).1.cached_metadata
          ≡ c.cached_metadata
  unfolding request_metadata
  specific_broker_keeps b topics rounds c =
      let request = metadata_request (some topics) in
      (
        learn-HasNoGeneration (some topics)
            (metadata_request_with_retry (specific_broker b) request rounds c),
        learn_keeps topics (metadata_request_with_retry (specific_broker b) request rounds c)
            ∙ request_with_retry_keeps (specific_broker b) request rounds c,
      )
