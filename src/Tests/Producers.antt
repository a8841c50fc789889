-- ===== src/Tests/Producers.antt =====
-- The theorems about the producer of src/client/producer.rs and the loop of src/backoff.rs at concrete
-- inputs.
use rskafka.Prelude.{ℕ, ◌≡◌, refl, suc, Bool, false, inr, none, some, List, [], ◌∷◌, ◌++◌}
use rskafka.Prelude.Int.{pos}
use rskafka.Prelude.Result.{ok}
use rskafka.Backoff.{
  ErrorOrThrottle, error, throttle, ControlFlow, break, continue, retry_with_backoff,
}
use rskafka.Backoff.Laws.{retry_returns}
use rskafka.Client.Records.{Record}
use rskafka.Client.Producer.Aggregator as Aggregators
use rskafka.Client.Producer.Aggregator.{Aggregator, RecordAggregator, record_aggregator}
use rskafka.Client.Producer.Inner.{Event, produces, lingered, flushes, answers, loses, new, run}
use rskafka.Client.Producer.Inner.Runs.{AllServed, no_caller_is_forgotten}

-- A record of two bytes, with a number for its time.
abbrev small : Record ℕ
small = record { key = none; value = some (1 ∷ 2 ∷ []); headers = []; timestamp = 1337 }

abbrev by_size : Aggregator (RecordAggregator ℕ) (Record ℕ) ℕ (Unit {0}) ℕ ℕ
by_size = record_aggregator

-- Two records make a batch, a third one flushes it; the tasks that linger come late, a broker answers.
abbrev events : List (Event (Record ℕ))
events =
    produces small
    ∷ produces small
    ∷ produces small
    ∷ lingered 1
    ∷ answers 0 (inr (pos 7 ∷ pos 8 ∷ []))
    ∷ produces small
    ∷ lingered 0
    ∷ loses 0
    ∷ flushes
    ∷ produces small
    ∷ []

no_caller_is_forgotten_example :
    AllServed by_size (run by_size events (new by_size (Aggregators.new 5)))
no_caller_is_forgotten_example = no_caller_is_forgotten by_size events (Aggregators.new 5)

-- A round that was throttled, one that failed, and one that returns what is in the state.
abbrev rounds : List (ControlFlow Bool (ErrorOrThrottle ℕ))
rounds = continue (throttle 100) ∷ continue (error 3) ∷ []

abbrev counted : ControlFlow Bool (ErrorOrThrottle ℕ) → ℕ → ControlFlow Bool (ErrorOrThrottle ℕ) × ℕ
counted r n = (r, suc n)

retry_returns_example :
    retry_with_backoff (λ r. false) counted (rounds ++ break false ∷ []) 0 ≡ (some (ok false), 3)
retry_returns_example =
    retry_returns (λ r. false) counted rounds [] (break false) 0 2 false (tt, (refl, refl)) refl
