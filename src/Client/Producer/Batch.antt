-- ===== src/Client/Producer/Batch.antt =====
-- src/client/producer/batch.rs: a batch that is collected, and the place where its result will be.
use rskafka.Prelude.{ℕ, ◌⊎◌, inl, inr, List, [], ◌∷◌}
use rskafka.Prelude.Int.{ℤ}
use rskafka.Prelude.Result.{Result, ok, err, panic}
use rskafka.Client.Records.{Record}
use rskafka.Client.Error as Client
use rskafka.Client.Producer.Aggregator.{TryPush, no_capacity, aggregated, Aggregator}
use rskafka.Client.Producer.Broadcast.{Received, value, dropped}

-- src/client/producer.rs
pub data Error (AggError : Type 0) : Type 0 where
  aggregator_error : AggError → Error AggError
  client_error : Client.Error → Error AggError
  flush_error too_large : Error AggError

pub record AggregatedStatus (Deagg : Type 0) : Type 0 where
  pub aggregated_status : List ℤ
  pub status_deagg : Deagg

abbrev pub BatchWriteResult : Type 0 → Type 0 → Type 0
BatchWriteResult AggError Deagg = Result (Error AggError) (AggregatedStatus Deagg)

-- The receiver is the number of its place.
pub record ResultHandle (Tag : Type 0) : Type 0 where
  pub receiver : ℕ
  pub tag : Tag

-- `ResultHandle::wait` and `result` on what was received.
module _ {AggError Deagg Tag Status : Type 0}
    (deaggregate : Deagg → List ℤ → Tag → Result AggError Status) where
  abbrev pub result_of :
      Tag → Received (BatchWriteResult AggError Deagg) → Result (Error AggError) Status
  result_of tag dropped = err flush_error
  result_of tag (value (err e)) = err e
  result_of tag (value panic) = panic
  result_of tag (value (ok status)) =
      elim (deaggregate status.status_deagg status.aggregated_status tag) [
        | ok s ↦ ok s
        | err e ↦ err (aggregator_error e)
        | panic ↦ panic
      ]

pub record BatchBuilder (A : Type 0) : Type 0 where
  pub aggregator : A
  pub results : ℕ

-- What flushing a batch makes of its result: it is there at once, it is given up, or a task will have
-- it, with the records that the task sends.
pub data Flushed (AggError Deagg Time : Type 0) : Type 0 where
  nothing_to_send : AggregatedStatus Deagg → Flushed AggError Deagg Time
  given_up : AggError → Flushed AggError Deagg Time
  sends : List (Record Time) → Deagg → Flushed AggError Deagg Time

module _ {A Input Tag Deagg AggError Time : Type 0}
    (agg : Aggregator A Input Tag Deagg AggError Time) where
  abbrev pub pushed :
      ℕ → AggError ⊎ TryPush Input Tag → Result (Error AggError) (TryPush Input (ResultHandle Tag))
  pushed results (inr (no_capacity input)) = ok (no_capacity input)
  pushed results (inr (aggregated tag)) = ok (aggregated (record { receiver = results; tag = tag }))
  pushed results (inl e) = err (aggregator_error e)

  unfoldable pub try_push :
      BatchBuilder A
      → Input
      → Result (Error AggError) (TryPush Input (ResultHandle Tag)) × BatchBuilder A
  try_push b input = (
    pushed b.results (agg.try_push b.aggregator input).0,
    record b { aggregator = (agg.try_push b.aggregator input).1 },
  )

  abbrev pub flushed_of : AggError ⊎ (List (Record Time) × Deagg) → Flushed AggError Deagg Time
  flushed_of (inr ([], deagg)) =
      nothing_to_send (record { aggregated_status = []; status_deagg = deagg })
  flushed_of (inr (r ∷ rs, deagg)) = sends (r ∷ rs) deagg
  flushed_of (inl e) = given_up e

  -- With the aggregator that is left for the next batch.
  unfoldable pub background_flush : BatchBuilder A → Flushed AggError Deagg Time × A
  background_flush b = (flushed_of (agg.flush b.aggregator).0, (agg.flush b.aggregator).1)
